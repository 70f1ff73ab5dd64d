-- ===== src/Execution/Pipeline/Traces.antt =====
-- What the trace of a run says of its gates.
use quorrin.Base.{
  ◌≡◌, refl, ◌∙◌, inl, inr, String, Bool, true, false, not, ◌&&◌, List, [], ◌∷◌, arith, Float,
  Bool-cases,
}
use quorrin.Base.Dict.{Dict, put, get_default, get-put}
use quorrin.Execution.Context.{DecisionContext, Asset, Inputs}
use quorrin.Execution.Gates.{
  apply_first_cycle_suppression, apply_bar_jump_suppression, store_prediction_metadata,
  update_mae_mfe, resolve_signal, apply_risk_off_suppression, apply_vix_gate, apply_spread_gate,
  apply_session_gate, apply_adx_entry_gate, apply_confidence_gate, apply_signal_hysteresis,
  apply_meta_label_advisory, update_regime_bar_counter, evaluate_conviction_gate,
  apply_kelly_sizing, poll_deferred_entries, update_prob_history,
}
use quorrin.Execution.Manage.{
  apply_sell_only_filter, manage_position, build_entry_artifacts, route_execution_policy, ask_gate,
  close_for_flip, close_for, settle_side, stack_or_hold, protect_position,
}
use quorrin.Execution.Pipeline.{
  Stage, default_stages, run_stage, run_stages, count_block, trace, fresh_context, finish,
  run_decision_pipeline,
}

-- No entry of a trace is false.
abbrev pub AllTrue : Dict Bool → Type 0
AllTrue t = (name : String) → get_default name true t ≡ true

put-AllTrue : (name : String) (t : Dict Bool) → AllTrue t → AllTrue (put name true t)
unfolding get_default
put-AllTrue name t h j = ground (arith, get-put name j true t, h j)

module _ (F : Float) {R : Type 0} where
  abbrev Keeps : (DecisionContext F R → DecisionContext F R) → Type 0
  Keeps act = (ctx : DecisionContext F R) → (act ctx).gates_trace ≡ ctx.gates_trace

  abbrev AllKeep : List (Stage F R) → Type 0
  AllKeep [] = Unit
  AllKeep (s ∷ ss) = Keeps s.act × AllKeep ss

  module _ (i : Inputs F R) where
    first : Keeps (apply_first_cycle_suppression F i)
    unfolding apply_first_cycle_suppression
    first ctx = ground arith

    jump : Keeps (apply_bar_jump_suppression F i)
    unfolding apply_bar_jump_suppression
    jump ctx = ground arith

    metadata : Keeps (store_prediction_metadata F i)
    unfolding store_prediction_metadata
    metadata ctx = ground arith

    extremes : Keeps (update_mae_mfe F i)
    unfolding update_mae_mfe
    extremes ctx = ground arith

    resolve : Keeps (resolve_signal F i)
    unfolding resolve_signal
    resolve ctx = ground arith

    risk_off : Keeps (apply_risk_off_suppression F i)
    unfolding apply_risk_off_suppression
    risk_off ctx = ground arith

    vix : Keeps (apply_vix_gate F i)
    unfolding apply_vix_gate
    vix ctx = ground arith

    sell_only : Keeps (apply_sell_only_filter F i)
    unfolding apply_sell_only_filter
    sell_only ctx = ground arith

    spread : Keeps (apply_spread_gate F i)
    unfolding apply_spread_gate
    spread ctx = ground arith

    session : Keeps (apply_session_gate F i)
    unfolding apply_session_gate
    session ctx = ground arith

    adx : Keeps (apply_adx_entry_gate F i)
    unfolding apply_adx_entry_gate
    adx ctx = ground arith

    confidence : Keeps (apply_confidence_gate F i)
    unfolding apply_confidence_gate
    confidence ctx = ground arith

    hysteresis : Keeps (apply_signal_hysteresis F i)
    unfolding apply_signal_hysteresis
    hysteresis ctx = ground arith

    advisory : Keeps (apply_meta_label_advisory F i)
    unfolding apply_meta_label_advisory
    advisory ctx = ground arith

    regime : Keeps (update_regime_bar_counter F i)
    unfolding update_regime_bar_counter
    regime ctx = ground arith

    conviction : Keeps (evaluate_conviction_gate F i)
    unfolding evaluate_conviction_gate
    conviction ctx = ground arith

    kelly : Keeps (apply_kelly_sizing F i)
    unfolding apply_kelly_sizing
    kelly ctx = ground arith

    gate : Keeps (ask_gate F i)
    unfolding ask_gate
    gate ctx = ground arith

    flip : (has_pos : Bool) → Keeps (close_for_flip F i has_pos)
    unfolding close_for_flip close_for
    flip has_pos ctx = ground arith

    settle : (has_pos : Bool) → Keeps (settle_side F i has_pos)
    unfolding settle_side stack_or_hold
    settle has_pos ctx = ground (arith, gate ctx, flip has_pos (ask_gate F i ctx))

    protect : Keeps (protect_position F i)
    unfolding protect_position
    protect ctx = ground arith

    manage : Keeps (manage_position F i)
    unfolding manage_position
    manage ctx = settle _ (protect_position F i ctx) ∙ protect ctx

    build : Keeps (build_entry_artifacts F i)
    unfolding build_entry_artifacts
    build ctx = ground arith

    route : Keeps (route_execution_policy F i)
    unfolding route_execution_policy
    route ctx = ground arith

    poll : Keeps (poll_deferred_entries F i)
    unfolding poll_deferred_entries
    poll ctx = refl

    history : Keeps (update_prob_history F i)
    unfolding update_prob_history
    history ctx = refl

    stages-AllKeep : AllKeep (default_stages F i)
    stages-AllKeep = (
      first,
      (
        jump,
        (
          metadata,
          (
            extremes,
            (
              resolve,
              (
                risk_off,
                (
                  vix,
                  (
                    sell_only,
                    (
                      spread,
                      (
                        session,
                        (
                          adx,
                          (
                            confidence,
                            (
                              hysteresis,
                              (
                                advisory,
                                (
                                  regime,
                                  (
                                    conviction,
                                    (kelly, (manage, (build, (route, (poll, (history, tt)))))),
                                  ),
                                ),
                              ),
                            ),
                          ),
                        ),
                      ),
                    ),
                  ),
                ),
              ),
            ),
          ),
        ),
      ),
    )

  count_block-Keeps : (name : String) → Keeps (count_block F name)
  unfolding count_block
  count_block-Keeps name ctx = refl

  run_stage_trace :
      (s : Stage F R) (ctx : DecisionContext F R)
      → Keeps s.act
      → (run_stage F s ctx).gates_trace ≡ put s.name (not ctx.abort) ctx.gates_trace
  unfolding run_stage trace count_block
  run_stage_trace s ctx k = ground (arith, k (trace F s.name ctx))

  run_stage-AllTrue :
      (s : Stage F R) (ctx : DecisionContext F R)
      → Keeps s.act
      → ctx.abort ≡ false
      → AllTrue ctx.gates_trace
      → AllTrue (run_stage F s ctx).gates_trace
  run_stage-AllTrue s ctx k running h =
      rw (run_stage_trace s ctx k) (rw running (put-AllTrue s.name ctx.gates_trace h))

  run_stages-AllTrue :
      (ss : List (Stage F R)) (ctx : DecisionContext F R)
      → AllKeep ss
      → ctx.abort ≡ false
      → AllTrue ctx.gates_trace
      → AllTrue (run_stages F ss ctx).gates_trace
  unfolding run_stages
  run_stages-AllTrue [] ctx k running h = h
  run_stages-AllTrue (s ∷ ss) ctx k running h =
      let one = run_stage-AllTrue s ctx k.0 running h in
      elim (Bool-cases ((run_stage F s ctx).abort && not ctx.abort)) [
        | inl stopped ↦ rw stopped one
        | inr going ↦
            let next_running : (run_stage F s ctx).abort ≡ false = ground arith in
            rw going (run_stages-AllTrue ss (run_stage F s ctx) k.1 next_running one)
      ]

  -- However a run ends, no entry of the trace that it leaves is false: not that of a stage
  -- that blocked the signal, nor that of one that was not reached.
  pub run_decision_pipeline-AllTrue :
      (i : Inputs F R) (a : Asset F R) → AllTrue (run_decision_pipeline F i a).0.last_gates_trace
  unfolding run_decision_pipeline finish get_default
  run_decision_pipeline-AllTrue i a =
      run_stages-AllTrue (default_stages F i) (fresh_context F a) (stages-AllKeep i) refl
        (λ name. refl)
