-- ===== src/Tests/Halts.antt =====
-- The emergency halt of the orchestrator.
use quorrin.Base.{ℕ, ◌+◌, ◌≤◌, ◌<◌, ◌≡◌, refl, true, false, none, some, [], ◌∷◌}
use quorrin.Base.Fixed.{fixed}
use quorrin.Orchestrator.Actor.Records.{Actors, green}
use quorrin.Orchestrator.Halt.{
  HaltReason, Portfolio, Orchestrator, Cycle, Snapshot, restart, run_all,
  check_auto_unhalt_eligibility,
}
use quorrin.Orchestrator.Halt.Stuck.{run_all-restart, IsHaltedAt, run_all-IsHaltedAt}
use quorrin.Orchestrator.Halt.Unhalt.{AllGreen, MayLift, drawdown_of, check_auto_unhalt_lifts}
use quorrin.Tests.Data.{whole, actor}

abbrev view : Portfolio fixed ℕ
view = record {
  mtm_value = λ e. e;
  current_value = λ e. e;
  set_exposure_multiplier = λ m e. e;
  flatten = λ e. e;
}

abbrev one_actor : ℕ → Actors fixed ℕ ℕ ℕ
one_actor value = ("EURUSD", actor value green) ∷ []

-- A cycle at whose end the one actor's engine is worth `value`.
abbrev cycle : ℕ → ℕ → Cycle fixed ℕ ℕ ℕ
cycle value day = record { work = λ old. one_actor value; rest = λ old. old; today = day }

abbrev saved : Snapshot fixed
saved = record {
  emergency_halt = true;
  halt_reason = some HaltReason.drawdown;
  peak_portfolio_value = some (whole 1000);
  breaker_daily_pnl = some [];
}

run_all-restart_example :
    run_all fixed view (cycle 1000 1 ∷ cycle 1100 2 ∷ []) (restart fixed saved (one_actor 1000))
    ≡ restart fixed saved (one_actor 1000)
run_all-restart_example =
    run_all-restart fixed view (cycle 1000 1 ∷ cycle 1100 2 ∷ []) saved (one_actor 1000) refl

abbrev running : Orchestrator fixed ℕ ℕ ℕ
running = record {
  actors = one_actor 1000;
  emergency_halt = false;
  halt_reason = none;
  unhalt_recovery_cycles = 0;
  cycles_elapsed = 5;
  peak_portfolio_value = some (whole 1000);
  cycle_total_equity = some (whole 1000);
  breaker = record { daily_pnl_history = []; peak_value = some (whole 1000) };
  prev_portfolio_value = some (whole 1000);
  last_pnl_date = none;
}

abbrev halted : Orchestrator fixed ℕ ℕ ℕ
halted = record running {
  emergency_halt = true;
  halt_reason = some HaltReason.drawdown;
  cycle_total_equity = some (whole 800);
}

run_all-IsHaltedAt_example :
    IsHaltedAt fixed view (whole 1000) (whole 800) (run_all fixed view (cycle 2000 7 ∷ []) halted)
run_all-IsHaltedAt_example =
    run_all-IsHaltedAt fixed view (whole 1000) (whole 800) (cycle 2000 7 ∷ []) halted refl
      (record { halted = refl; at_peak = refl; at_equity = refl })

abbrev minus_one : ℕ
minus_one = fixed.neg (whole 1)

abbrev seven : Orchestrator fixed ℕ ℕ ℕ
seven = record running {
  breaker = record {
    daily_pnl_history =
        minus_one ∷ minus_one ∷ minus_one ∷ minus_one ∷ minus_one ∷ minus_one ∷ minus_one ∷ [];
    peak_value = some (whole 1000);
  };
}

abbrev recovering : Orchestrator fixed ℕ ℕ ℕ
recovering = record halted { cycle_total_equity = some (whole 980); unhalt_recovery_cycles = 9 }

-- The tenth cycle near the peak.
check_auto_unhalt_lifts_example :
    let o = check_auto_unhalt_eligibility fixed view recovering in
    MayLift recovering.halt_reason
    × (1 ≤ recovering.cycles_elapsed)
    × ((peak : ℕ) × (recovering.peak_portfolio_value ≡ some peak)
        × (whole 0 < peak)
        × (fixed.neg (fixed.lit 5 2) ≤ drawdown_of fixed view peak recovering))
    × (10 ≤ recovering.unhalt_recovery_cycles + 1)
    × (o.unhalt_recovery_cycles ≡ 0)
    × AllGreen fixed view o.actors
unfolding check_auto_unhalt_eligibility
check_auto_unhalt_lifts_example = (check_auto_unhalt_lifts fixed view recovering refl).0 refl
