-- ===== src/Orchestrator/Halt/Streaks.antt =====
-- What the breaker of consecutive losses is fed.
use quorrin.Base.{ℕ, ◌<◌, ◌≡◌, fmax, some, List, [], ◌∷◌, arith, Float, All}
use quorrin.Orchestrator.Breaker.{check}
use quorrin.Orchestrator.Breaker.Streak.{IsLoss, record_daily_pnl-All}
use quorrin.Orchestrator.Halt.{
  Portfolio, Orchestrator, Cycle, count_recovery, check_auto_unhalt_eligibility, run_phases,
  run_once, run_all, pre_phase, phase_3_breakers, ask_breaker, record_result, or_else, sum_of,
}

-- A smaller float minus a larger one is negative.
abbrev pub SubNegative : Float → Type 0
SubNegative F = (x y : F.Value) → F.key x < F.key y → F.key (F.sub x y) < F.key (F.lit 0 0)

module _ (F : Float) {E Signal Trade : Type 0} (view : Portfolio F E) where
  abbrev pub OnlyLosses : Orchestrator F E Signal Trade → Type 0
  OnlyLosses o = All (IsLoss F) o.breaker.daily_pnl_history

  module _ (sub_negative : SubNegative F) where
    record_result-OnlyLosses :
        (day : ℕ) (total : F.Value) (o : Orchestrator F E Signal Trade)
        → OnlyLosses o
        → OnlyLosses (record_result F view day total o)
    unfolding record_result
    record_result-OnlyLosses day total o h =
        let prev = or_else F o.prev_portfolio_value total in
        ground (arith, sub_negative total prev, record_daily_pnl-All F (F.sub total prev) o.breaker)

    ask_breaker-history :
        (total : F.Value) (o : Orchestrator F E Signal Trade)
        → (ask_breaker F view total o).0.breaker.daily_pnl_history ≡ o.breaker.daily_pnl_history
    unfolding ask_breaker check
    ask_breaker-history total o = ground arith

    loss_breaker-OnlyLosses :
        (day : ℕ) (total : F.Value) (o : Orchestrator F E Signal Trade)
        → OnlyLosses o
        → OnlyLosses (ask_breaker F view total (record_result F view day total o)).0
    loss_breaker-OnlyLosses day total o h =
        rw ask_breaker-history (record_result-OnlyLosses day total o h)

    phase_3_breakers-OnlyLosses :
        (day : ℕ) (o : Orchestrator F E Signal Trade)
        → OnlyLosses o
        → OnlyLosses (phase_3_breakers F view day o).0
    unfolding phase_3_breakers
    phase_3_breakers-OnlyLosses day o h =
        let total = sum_of F view.current_value o.actors in
        let peak = fmax F (or_else F o.peak_portfolio_value total) total in
        ground (
          arith,
          loss_breaker-OnlyLosses day total (record o { peak_portfolio_value = some peak }) h,
        )

    run_phases-OnlyLosses :
        (i : Cycle F E Signal Trade) (o : Orchestrator F E Signal Trade)
        → OnlyLosses o
        → OnlyLosses (run_phases F view i o).0
    unfolding run_phases pre_phase
    run_phases-OnlyLosses i o h =
        let o1 = pre_phase F view o in
        ground
          (arith, phase_3_breakers-OnlyLosses i.today (record o1 { actors = i.work o1.actors }) h)

    check_auto_unhalt-OnlyLosses :
        (o : Orchestrator F E Signal Trade)
        → OnlyLosses o
        → OnlyLosses (check_auto_unhalt_eligibility F view o)
    unfolding check_auto_unhalt_eligibility count_recovery
    check_auto_unhalt-OnlyLosses o h = ground arith

    run_once-OnlyLosses :
        (i : Cycle F E Signal Trade) (o : Orchestrator F E Signal Trade)
        → OnlyLosses o
        → OnlyLosses (run_once F view i o).0
    unfolding run_once
    run_once-OnlyLosses i o h =
        let kept = check_auto_unhalt_eligibility F view o in
        let k = check_auto_unhalt-OnlyLosses o h in
        ground (arith, k, run_phases-OnlyLosses i o h, run_phases-OnlyLosses i kept k)

    -- Through any cycles the history that the breaker of consecutive losses reads holds losses
    -- only, if it did before: a day without a loss is not recorded, so it ends no streak.
    pub run_all-OnlyLosses :
        (is : List (Cycle F E Signal Trade)) (o : Orchestrator F E Signal Trade)
        → OnlyLosses o
        → OnlyLosses (run_all F view is o)
    unfolding run_all
    run_all-OnlyLosses [] o h = h
    run_all-OnlyLosses (i ∷ is) o h =
        run_all-OnlyLosses is (run_once F view i o).0 (run_once-OnlyLosses i o h)
