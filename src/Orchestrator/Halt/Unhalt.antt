-- ===== src/Orchestrator/Halt/Unhalt.antt =====
-- How a halt begins and how it ends.
use quorrin.Base.{
  ℕ, ◌+◌, ◌≤◌, ◌≡◌, ◌↔◌, ◌⊎◌, ◌<◌, inl, inr, Option, none, some, Option-cases, refl, true, false,
  [], ◌∷◌, arith, Float, ◌∙◌, All, map,
}
use quorrin.Orchestrator.Actor
use quorrin.Orchestrator.Actor.Records.{Actors, green}
use quorrin.Orchestrator.Halt.{
  HaltReason, auto_unhalt_allowed, sum_of, Portfolio, Orchestrator, Cycle, completed, on_engines,
  count_recovery, check_auto_unhalt_eligibility, run_phases, run_once, pre_phase, phase_3_breakers,
  ask_breaker, record_result,
}

-- The halt is for a drawdown or for a run of losses.
abbrev pub MayLift : Option HaltReason → Type 0
MayLift r = (r ≡ some HaltReason.drawdown) ⊎ (r ≡ some HaltReason.consecutive_losses)

may_lift : (r : Option HaltReason) → auto_unhalt_allowed r ≡ true → MayLift r
may_lift none h = ground arith
may_lift (some HaltReason.drawdown) h = inl refl
may_lift (some HaltReason.consecutive_losses) h = inr refl
may_lift (some HaltReason.halt_ratio) h = ground arith
may_lift (some HaltReason.vol_spike) h = ground arith

MayLift-allowed : (r : Option HaltReason) → MayLift r → auto_unhalt_allowed r ≡ true
MayLift-allowed r (inl e) = rw e refl
MayLift-allowed r (inr e) = rw e refl

module _ (F : Float) {E Signal Trade : Type 0} (view : Portfolio F E) where
  -- Every actor GREEN, with no failure counted.
  abbrev pub AllGreen : Actors F E Signal Trade → Type 0
  AllGreen = All (λ p. (p.1.health ≡ green) × (p.1.metrics.consecutive_failures ≡ 0))

  AllGreen-reset :
      (f : E → E) (actors : Actors F E Signal Trade)
      → AllGreen (on_engines F f (map (λ p. (p.0, Actor.reset F E Signal Trade p.1)) actors))
  unfolding Actor.reset
  AllGreen-reset f [] = tt
  AllGreen-reset f (a ∷ rest) = ((refl, refl), AllGreen-reset f rest)

  -- The drawdown that the automatic unhalt looks at: that of the equity of the last full cycle,
  -- or of the engines' values where there was none, from the peak.
  abbrev pub drawdown_of : F.Value → Orchestrator F E Signal Trade → F.Value
  drawdown_of peak o =
      let equity : F.Value = elim o.cycle_total_equity [
        | none ↦ sum_of F view.mtm_value o.actors
        | some x ↦ x
      ] in
      F.div (F.sub equity peak) peak

  -- The automatic unhalt lifts a halt only if its reason is a drawdown or a run of losses, at
  -- least one full cycle has been made, the drawdown from a positive peak is now no deeper than
  -- 5%, and the count of such cycles comes to ten with this one; then every actor is GREEN and
  -- the count starts again. And a cycle whose drawdown is deeper keeps the halt, and where the
  -- halt could be lifted at all, the count starts again, so that the ten stand in a row.
  pub check_auto_unhalt_lifts :
      (o : Orchestrator F E Signal Trade)
      → o.emergency_halt ≡ true
      → (let o' = check_auto_unhalt_eligibility F view o in
          (o'.emergency_halt ≡ false
            → MayLift o.halt_reason
              × (1 ≤ o.cycles_elapsed)
              × ((peak : F.Value) × (o.peak_portfolio_value ≡ some peak)
                  × (F.key (F.lit 0 0) < F.key peak)
                  × (F.key (F.neg (F.lit 5 2)) ≤ F.key (drawdown_of peak o)))
              × (10 ≤ o.unhalt_recovery_cycles + 1)
              × (o'.unhalt_recovery_cycles ≡ 0)
              × AllGreen o'.actors)
          × ((peak : F.Value)
              → o.peak_portfolio_value ≡ some peak
              → F.key (drawdown_of peak o) < F.key (F.neg (F.lit 5 2))
              → (o'.emergency_halt ≡ true)
                × (MayLift o.halt_reason
                    → 1 ≤ o.cycles_elapsed
                    → F.key (F.lit 0 0) < F.key peak
                    → o'.unhalt_recovery_cycles ≡ 0)))
  unfolding check_auto_unhalt_eligibility count_recovery
  check_auto_unhalt_lifts o h =
      let green = AllGreen-reset (view.set_exposure_multiplier (F.lit 1 0)) o.actors in
      elim (Option-cases o.peak_portfolio_value) [
        | inl unknown ↦ (λ e. ground (arith, unknown), λ peak k deep. ground (arith, unknown))
        | inr (peak, known) ↦ (
          λ e. (
            may_lift o.halt_reason (ground (arith, known)),
            ground (arith, known),
            (peak, known, ground (arith, known), ground (arith, known)),
            ground (arith, known),
            ground (arith, known),
            ground (arith, known, green),
          ),
          λ other k deep.
              (ground (arith, k), λ may n p. ground (arith, k, MayLift-allowed o.halt_reason may)),
        )
      ]

  ask_breaker-halt :
      (total : F.Value) (o : Orchestrator F E Signal Trade)
      → o.emergency_halt ≡ false
      → (ask_breaker F view total o).0.emergency_halt ≡ (ask_breaker F view total o).1
  unfolding ask_breaker
  ask_breaker-halt total o h = ground arith

  phase_3_breakers-halt :
      (day : ℕ) (o : Orchestrator F E Signal Trade)
      → o.emergency_halt ≡ false
      → (phase_3_breakers F view day o).0.emergency_halt ≡ (phase_3_breakers F view day o).1
  unfolding phase_3_breakers record_result
  phase_3_breakers-halt day o h = grind (arith, ask_breaker-halt)

  pre_phase-halt :
      (o : Orchestrator F E Signal Trade) → (pre_phase F view o).emergency_halt ≡ o.emergency_halt
  unfolding pre_phase
  pre_phase-halt o = refl

  run_phases-result :
      (i : Cycle F E Signal Trade) (o : Orchestrator F E Signal Trade)
      → o.emergency_halt ≡ false
      → ((run_phases F view i o).1 ≡ completed) ↔ ((run_phases F view i o).0.emergency_halt ≡ false)
  unfolding run_phases
  run_phases-result i o h =
      let o1 = pre_phase F view o in
      let b =
        phase_3_breakers-halt i.today (record o1 { actors = i.work o1.actors })
          (pre_phase-halt o ∙ h) in
      (ground (arith, b), ground (arith, b))

  -- A cycle ends halted exactly when its result says so: a completed cycle leaves no halt, and
  -- a cycle that found a breaker tripped, or a halt that persists, leaves one.
  pub run_once-result :
      (i : Cycle F E Signal Trade) (o : Orchestrator F E Signal Trade)
      → ((run_once F view i o).1 ≡ completed) ↔ ((run_once F view i o).0.emergency_halt ≡ false)
  unfolding run_once
  run_once-result i o =
      let kept = check_auto_unhalt_eligibility F view o in
      (
        ground (arith, run_phases-result i o, run_phases-result i kept),
        ground (arith, run_phases-result i o, run_phases-result i kept),
      )
