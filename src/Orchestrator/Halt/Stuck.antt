-- ===== src/Orchestrator/Halt/Stuck.antt =====
-- Halts that no cycle lifts.
use quorrin.Base.{◌≡◌, refl, true, some, List, [], ◌∷◌, arith, Float, lt, ap, ◌∙◌}
use quorrin.Orchestrator.Actor.Records.{Actors}
use quorrin.Orchestrator.Halt.{
  Portfolio, Orchestrator, Cycle, Snapshot, restart, unhalt_threshold, count_recovery,
  check_auto_unhalt_eligibility, run_once, run_all,
}

module _ (F : Float) {E Signal Trade : Type 0} (view : Portfolio F E) where
  run_once_fresh :
      (i : Cycle F E Signal Trade) (o : Orchestrator F E Signal Trade)
      → o.emergency_halt ≡ true
      → o.cycles_elapsed ≡ 0
      → (run_once F view i o).0 ≡ o
  unfolding run_once check_auto_unhalt_eligibility
  run_once_fresh i o h z = ground arith

  run_all_fresh :
      (is : List (Cycle F E Signal Trade)) (o : Orchestrator F E Signal Trade)
      → o.emergency_halt ≡ true
      → o.cycles_elapsed ≡ 0
      → run_all F view is o ≡ o
  unfolding run_all
  run_all_fresh [] o h z = refl
  run_all_fresh (i ∷ is) o h z =
      ap (run_all F view is) (run_once_fresh i o h z) ∙ run_all_fresh is o h z

  -- An orchestrator restarted from the snapshot of a halted one stays exactly as the restart
  -- left it, halted, through any number of cycles of any kind, whatever the reason of the halt
  -- and whatever the portfolio does: the cycle count that the automatic unhalt waits for is
  -- raised by no halted cycle.
  pub run_all-restart :
      (is : List (Cycle F E Signal Trade)) (s : Snapshot F) (actors : Actors F E Signal Trade)
      → s.emergency_halt ≡ true
      → run_all F view is (restart F s actors) ≡ restart F s actors
  unfolding restart
  run_all-restart is s actors h = run_all_fresh is (restart F s actors) h refl

  -- A halt with this peak, and with this equity of the last full cycle.
  pub record IsHaltedAt (p q : F.Value) (o : Orchestrator F E Signal Trade) : Type 0 where
    pub halted : o.emergency_halt ≡ true
    pub at_peak : o.peak_portfolio_value ≡ some p
    pub at_equity : o.cycle_total_equity ≡ some q

  module _ (p q : F.Value) where
    run_once-IsHaltedAt :
        (i : Cycle F E Signal Trade) (o : Orchestrator F E Signal Trade)
        → lt F (F.div (F.sub q p) p) (unhalt_threshold F) ≡ true
        → IsHaltedAt p q o
        → IsHaltedAt p q (run_once F view i o).0
    unfolding run_once check_auto_unhalt_eligibility count_recovery
    run_once-IsHaltedAt i o sunk h = ground arith

    -- A halted orchestrator whose last full cycle saw an equity more than 5% below the peak
    -- stays halted through any number of cycles, however far the engines' values recover: a
    -- halted cycle reads that equity again and does not sum the engines' values anew.
    pub run_all-IsHaltedAt :
        (is : List (Cycle F E Signal Trade)) (o : Orchestrator F E Signal Trade)
        → lt F (F.div (F.sub q p) p) (unhalt_threshold F) ≡ true
        → IsHaltedAt p q o
        → IsHaltedAt p q (run_all F view is o)
    unfolding run_all
    run_all-IsHaltedAt [] o sunk h = h
    run_all-IsHaltedAt (i ∷ is) o sunk h =
        run_all-IsHaltedAt is (run_once F view i o).0 sunk (run_once-IsHaltedAt i o sunk h)
