-- ===== src/Execution/Pipeline/Passing.antt =====
-- What each stage behind the resolution of the signal demands of a decision it lets pass.
use quorrin.Base.{
  ◌≤◌, ◌<◌, ◌≡◌, refl, Bool, true, false, ◌&&◌, some, List, [], ◌∷◌, leb, arith, Float,
}
use quorrin.Position.{PositionSide, short}
use quorrin.Execution.Context.{DecisionContext, Inputs}
use quorrin.Execution.Gates.{
  apply_risk_off_suppression, apply_vix_gate, apply_spread_gate, apply_session_gate,
  apply_adx_entry_gate, apply_confidence_gate, apply_signal_hysteresis, apply_meta_label_advisory,
  update_regime_bar_counter, evaluate_conviction_gate, apply_kelly_sizing, poll_deferred_entries,
  update_prob_history, vix_blocks, spread_blocks, out_of_session, adx_blocks, min_observe_cycles,
}
use quorrin.Execution.Manage.{
  apply_sell_only_filter, manage_position, build_entry_artifacts, route_execution_policy,
  settle_side, stack_or_hold, ask_gate, close_for_flip, protect_position, close_for,
}
use quorrin.Execution.Pipeline.{Stage, late_stages, run_stage, run_stages, count_block, trace}

-- All of a list of demands.
abbrev pub Holds : List (PositionSide → Type 0) → PositionSide → Type 0
Holds [] d = Unit
Holds (P ∷ Ps) d = P d × Holds Ps d

module _ (F : Float) {R : Type 0} where
  open F use {key, lit}

  -- A stage aborts nothing, and a side that it leaves was there before and meets a demand.
  abbrev pub Demands :
      (PositionSide → Type 0) → (DecisionContext F R → DecisionContext F R) → Type 0
  Demands P act =
      (ctx : DecisionContext F R)
      → ((act ctx).abort ≡ ctx.abort)
        × ((d : PositionSide) → (act ctx).new_side ≡ some d → (ctx.new_side ≡ some d) × P d)

  risk_off :
      (i : Inputs F R)
      → Demands (λ d. (i.is_risk_off_asset && i.risk_off) ≡ false) (apply_risk_off_suppression F i)
  unfolding apply_risk_off_suppression
  risk_off i ctx = (ground arith, λ d h. ground arith)

  vix : (i : Inputs F R) → Demands (λ d. vix_blocks F i ≡ false) (apply_vix_gate F i)
  unfolding apply_vix_gate
  vix i ctx = (ground arith, λ d h. ground arith)

  sell_only :
      (i : Inputs F R)
      → Demands (λ d. i.is_sell_only ≡ true → d ≡ short) (apply_sell_only_filter F i)
  unfolding apply_sell_only_filter close_for
  sell_only i ctx = (ground arith, λ d h. (ground arith, λ e. ground arith))

  session :
      (i : Inputs F R)
      → Demands
          (λ d. (out_of_session F i && leb min_observe_cycles i.cycle_counter) ≡ false)
          (apply_session_gate F i)
  unfolding apply_session_gate
  session i ctx = (ground arith, λ d h. ground arith)

  hysteresis : (i : Inputs F R) → Demands (λ d. Unit) (apply_signal_hysteresis F i)
  unfolding apply_signal_hysteresis
  hysteresis i ctx = (ground arith, λ d h. (ground arith, tt))

  spread :
      (i : Inputs F R)
      → Demands
          (λ d.
            (i.spread_gate_enabled && leb min_observe_cycles i.cycle_counter && spread_blocks F i)
            ≡ false)
          (apply_spread_gate F i)
  unfolding apply_spread_gate
  spread i ctx = (ground arith, λ d h. ground arith)

  adx : (i : Inputs F R) → Demands (λ d. adx_blocks F i ≡ false) (apply_adx_entry_gate F i)
  unfolding apply_adx_entry_gate
  adx i ctx = (ground arith, λ d h. ground arith)

  confidence :
      (i : Inputs F R)
      → Demands (λ d. key i.min_confidence ≤ key i.decision.confidence) (apply_confidence_gate F i)
  unfolding apply_confidence_gate
  confidence i ctx = (ground arith, λ d h. ground arith)

  advisory : (i : Inputs F R) → Demands (λ d. Unit) (apply_meta_label_advisory F i)
  unfolding apply_meta_label_advisory
  advisory i ctx = (refl, λ d h. (h, tt))

  regime : (i : Inputs F R) → Demands (λ d. Unit) (update_regime_bar_counter F i)
  unfolding update_regime_bar_counter
  regime i ctx = (refl, λ d h. (h, tt))

  conviction : (i : Inputs F R) → Demands (λ d. Unit) (evaluate_conviction_gate F i)
  unfolding evaluate_conviction_gate
  conviction i ctx = (ground arith, λ d h. (ground arith, tt))

  kelly :
      (i : Inputs F R)
      → Demands
          (λ d.
            i.kelly_enabled ≡ true
            → i.calibration_applied ≡ true
            → key (lit 0 0) < key (i.kelly_multiplier_of i.decision))
          (apply_kelly_sizing F i)
  unfolding apply_kelly_sizing
  kelly i ctx = (ground arith, λ d h. (ground arith, λ e c. ground arith))

  gate : (i : Inputs F R) → Demands (λ d. Unit) (ask_gate F i)
  unfolding ask_gate
  gate i ctx = (ground arith, λ d h. (ground arith, tt))

  flip : (i : Inputs F R) (has_pos : Bool) → Demands (λ d. Unit) (close_for_flip F i has_pos)
  unfolding close_for_flip close_for
  flip i has_pos ctx = (ground arith, λ d h. (ground arith, tt))

  settle : (i : Inputs F R) (has_pos : Bool) → Demands (λ d. Unit) (settle_side F i has_pos)
  unfolding settle_side stack_or_hold
  settle i has_pos ctx =
      let (gate_abort, gate_side) = gate i ctx in
      let (flip_abort, flip_side) = flip i has_pos (ask_gate F i ctx) in
      (ground arith, λ d h. (ground (arith, gate_side d, flip_side d), tt))

  manage : (i : Inputs F R) → Demands (λ d. Unit) (manage_position F i)
  unfolding manage_position protect_position
  manage i ctx = settle i _ (protect_position F i ctx)

  build : (i : Inputs F R) → Demands (λ d. Unit) (build_entry_artifacts F i)
  unfolding build_entry_artifacts
  build i ctx = (ground arith, λ d h. (ground arith, tt))

  route : (i : Inputs F R) → Demands (λ d. Unit) (route_execution_policy F i)
  unfolding route_execution_policy
  route i ctx = (ground arith, λ d h. (ground arith, tt))

  poll : (i : Inputs F R) → Demands (λ d. Unit) (poll_deferred_entries F i)
  unfolding poll_deferred_entries
  poll i ctx = (refl, λ d h. (h, tt))

  history : (i : Inputs F R) → Demands (λ d. Unit) (update_prob_history F i)
  unfolding update_prob_history
  history i ctx = (refl, λ d h. (h, tt))

  run_stage-Demands :
      (P : PositionSide → Type 0) (s : Stage F R) → Demands P s.act → Demands P (run_stage F s)
  unfolding run_stage trace count_block
  run_stage-Demands P s h ctx =
      let (a, k) = h (trace F s.name ctx) in (ground arith, λ d e. k d (ground arith))

  -- every stage of a list meets its demand
  abbrev Meets : List (PositionSide → Type 0) → List (Stage F R) → Type 0
  Meets [] [] = Unit
  Meets (P ∷ Ps) (s ∷ ss) = Demands P s.act × Meets Ps ss
  Meets [] (s ∷ ss) = true ≡ false
  Meets (P ∷ Ps) [] = true ≡ false

  run_stages-Demands :
      (Ps : List (PositionSide → Type 0)) (ss : List (Stage F R))
      → Meets Ps ss
      → Demands (λ d. Holds Ps d) (run_stages F ss)
  unfolding run_stages
  run_stages-Demands [] [] h ctx = (refl, λ d e. (e, tt))
  run_stages-Demands [] (s ∷ ss) h ctx = (ground arith, λ d e. ground arith)
  run_stages-Demands (P ∷ Ps) [] h ctx = (ground arith, λ d e. ground arith)
  run_stages-Demands (P ∷ Ps) (s ∷ ss) h ctx =
      let (one_abort, one_side) = run_stage-Demands P s h.0 ctx in
      let (more_abort, more_side) = run_stages-Demands Ps ss h.1 (run_stage F s ctx) in
      (
        ground arith,
        λ d e.
            let late = more_side d (ground arith) in
            let early = one_side d late.0 in (early.0, (early.1, late.1)),
      )

  -- What a decision has to meet to be let through for a side.
  abbrev pub demands : Inputs F R → List (PositionSide → Type 0)
  demands i =
      (λ d. (i.is_risk_off_asset && i.risk_off) ≡ false)
      ∷ (λ d. vix_blocks F i ≡ false)
      ∷ (λ d. i.is_sell_only ≡ true → d ≡ short)
      ∷ (λ d.
          (i.spread_gate_enabled && leb min_observe_cycles i.cycle_counter && spread_blocks F i)
          ≡ false)
      ∷ (λ d. (out_of_session F i && leb min_observe_cycles i.cycle_counter) ≡ false)
      ∷ (λ d. adx_blocks F i ≡ false)
      ∷ (λ d. key i.min_confidence ≤ key i.decision.confidence)
      ∷ (λ d. Unit)
      ∷ (λ d. Unit)
      ∷ (λ d. Unit)
      ∷ (λ d. Unit)
      ∷ (λ d.
          i.kelly_enabled ≡ true
          → i.calibration_applied ≡ true
          → key (lit 0 0) < key (i.kelly_multiplier_of i.decision))
      ∷ (λ d. Unit)
      ∷ (λ d. Unit)
      ∷ (λ d. Unit)
      ∷ (λ d. Unit)
      ∷ (λ d. Unit)
      ∷ []

  pub late_stages-Demands :
      (i : Inputs F R) → Demands (λ d. Holds (demands i) d) (run_stages F (late_stages F i))
  late_stages-Demands i = run_stages-Demands (demands i) (late_stages F i) (
    risk_off i,
    (
      vix i,
      (
        sell_only i,
        (
          spread i,
          (
            session i,
            (
              adx i,
              (
                confidence i,
                (
                  hysteresis i,
                  (
                    advisory i,
                    (
                      regime i,
                      (
                        conviction i,
                        (kelly i, (manage i, (build i, (route i, (poll i, (history i, tt)))))),
                      ),
                    ),
                  ),
                ),
              ),
            ),
          ),
        ),
      ),
    ),
  )
