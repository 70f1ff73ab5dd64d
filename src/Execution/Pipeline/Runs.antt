-- ===== src/Execution/Pipeline/Runs.antt =====
-- What a decision has passed when the pipeline lets it through.
use quorrin.Base.{
  ◌≤◌, ◌<◌, ◌≡◌, refl, ap, sym, ◌∙◌, true, false, ◌&&◌, none, some, inl, inr, Bool-cases, ltb→lt,
  List, ◌∷◌, leb, ltb, arith, Float,
}
use quorrin.Position.{PositionSide, short}
use quorrin.Execution.Context.{DecisionContext, Asset, Inputs}
use quorrin.Execution.Gates.{
  apply_first_cycle_suppression, apply_bar_jump_suppression, store_prediction_metadata,
  update_mae_mfe, resolve_signal, vix_blocks, spread_blocks, out_of_session, adx_blocks, side_of,
  min_observe_cycles,
}
use quorrin.Execution.Pipeline.{
  Stage, late_stages, main_stages, first_cycle, bar_jump, metadata, extremes, resolution,
  default_stages, run_stage, run_stages, run_decision_pipeline, fresh_context, finish, count_block,
  trace,
}
use quorrin.Execution.Pipeline.Passing.{demands, Holds, late_stages-Demands}

module _ (F : Float) {R : Type 0} where
  open F use {key, lit}

  -- a stage that aborts nothing hands over to the next
  pub run_stages-next :
      (s : Stage F R) (ss : List (Stage F R)) (ctx : DecisionContext F R)
      → (s.act (trace F s.name ctx)).abort ≡ ctx.abort
      → run_stages F (s ∷ ss) ctx ≡ run_stages F ss (run_stage F s ctx)
  unfolding run_stages run_stage count_block
  run_stages-next s ss ctx h = ground arith

  -- What is true of the inputs when the final signal is to take a side.
  abbrev pub Passed : Inputs F R → PositionSide → Type 0
  Passed i d =
      (side_of i.decision.signal ≡ some d)
      × (1 < i.cycle_counter)
      × ((i.is_risk_off_asset && i.risk_off) ≡ false)
      × (vix_blocks F i ≡ false)
      × (i.is_sell_only ≡ true → d ≡ short)
      × ((i.spread_gate_enabled && leb min_observe_cycles i.cycle_counter && spread_blocks F i)
          ≡ false)
      × ((out_of_session F i && leb min_observe_cycles i.cycle_counter) ≡ false)
      × (adx_blocks F i ≡ false)
      × (key i.min_confidence ≤ key i.decision.confidence)
      × (i.kelly_enabled ≡ true
          → i.calibration_applied ≡ true
          → key (lit 0 0) < key (i.kelly_multiplier_of i.decision))

  resolved :
      (i : Inputs F R) (ctx : DecisionContext F R)
      → (run_stage F (resolution F i) ctx).new_side ≡ side_of i.decision.signal
  unfolding run_stage resolve_signal trace count_block
  resolved i ctx = ground arith

  early_abort :
      (i : Inputs F R) (ctx : DecisionContext F R)
      → ((apply_bar_jump_suppression F i ctx).abort ≡ ctx.abort)
        × ((store_prediction_metadata F i ctx).abort ≡ ctx.abort)
        × ((update_mae_mfe F i ctx).abort ≡ ctx.abort)
        × ((resolve_signal F i ctx).abort ≡ ctx.abort)
  unfolding apply_bar_jump_suppression store_prediction_metadata update_mae_mfe resolve_signal
  early_abort i ctx = (ground arith, refl, ground arith, refl)

  -- behind the resolution of the signal
  main-side :
      (i : Inputs F R) (ctx : DecisionContext F R) (d : PositionSide)
      → (run_stages F (main_stages F i) ctx).new_side ≡ some d
      → (side_of i.decision.signal ≡ some d) × Holds (demands F i) d
  unfolding trace
  main-side i ctx d h =
      let c1 = run_stage F (metadata F i) ctx in
      let c2 = run_stage F (extremes F i) c1 in
      let c3 = run_stage F (resolution F i) c2 in
      let whole =
        run_stages-next (metadata F i) _ ctx (early_abort i _).1
        ∙ run_stages-next (extremes F i) _ c1 (early_abort i _).2
        ∙ run_stages-next (resolution F i) (late_stages F i) c2 (early_abort i _).3 in
      let late = (late_stages-Demands F i c3).1 d (sym (ap (λ c. c.new_side) whole) ∙ h) in
      (sym (resolved i c2) ∙ late.0, late.1)

  pub first_cycle-passed :
      (i : Inputs F R) (ctx : DecisionContext F R)
      → ltb 1 i.cycle_counter ≡ true
      → run_stage F (first_cycle F i) ctx ≡ trace F "apply_first_cycle_suppression" ctx
  unfolding run_stage apply_first_cycle_suppression trace
  first_cycle-passed i ctx h = ground arith

  -- past the first cycle
  run-main :
      (i : Inputs F R) (a : Asset F R)
      → ltb 1 i.cycle_counter ≡ true
      → let c = trace F "apply_first_cycle_suppression" (fresh_context F a) in
        run_stages F (default_stages F i) (fresh_context F a)
        ≡ run_stages F (main_stages F i) (run_stage F (bar_jump F i) c)
  unfolding trace apply_first_cycle_suppression
  run-main i a h =
      let c = trace F "apply_first_cycle_suppression" (fresh_context F a) in
      run_stages-next (first_cycle F i) _ (fresh_context F a) (ground arith)
      ∙ ap (run_stages F (bar_jump F i ∷ main_stages F i))
          (first_cycle-passed i (fresh_context F a) h)
      ∙ run_stages-next (bar_jump F i) (main_stages F i) c (early_abort i _).0

  -- in the first cycle the run ends with the first stage
  pub run-first :
      (i : Inputs F R) (ss : List (Stage F R)) (a : Asset F R)
      → ltb 1 i.cycle_counter ≡ false
      → run_stages F (first_cycle F i ∷ ss) (fresh_context F a)
        ≡ count_block F "apply_first_cycle_suppression"
            (record (trace F "apply_first_cycle_suppression" (fresh_context F a)) { abort = true })
  unfolding run_stages run_stage apply_first_cycle_suppression count_block trace
  run-first i ss a h = ground arith

  finish-side :
      (c : DecisionContext F R) (d : PositionSide) → (finish F c).1 ≡ some d → c.new_side ≡ some d
  unfolding finish
  finish-side c d h = ground arith

  finish-aborted :
      (c : DecisionContext F R)
      → (finish F (count_block F "apply_first_cycle_suppression" (record c { abort = true }))).1
        ≡ none
  unfolding finish count_block
  finish-aborted c = refl

  -- If the final signal is a side, then it is the side that the decision asked for, the cycle is
  -- not the first, and every gate has let it pass: risk-off, VIX, the sell-only filter, and behind
  -- their cycles of observation the spread and the session, then ADX, the confidence, and Kelly
  -- where it is enabled over calibrated probabilities. No stage ever turns a signal round or
  -- makes one out of nothing.
  pub run_decision_pipeline-Passed :
      (i : Inputs F R) (a : Asset F R) (d : PositionSide)
      → (run_decision_pipeline F i a).1 ≡ some d
      → Passed i d
  unfolding run_decision_pipeline
  run_decision_pipeline-Passed i a d h = elim (Bool-cases (ltb 1 i.cycle_counter)) [
    | inr first ↦
        let dead =
          ap (λ c. (finish F c).1) (run-first i (bar_jump F i ∷ main_stages F i) a first)
          ∙ finish-aborted (trace F "apply_first_cycle_suppression" (fresh_context F a)) in
        ground (arith, dead, h)
    | inl past ↦
        let c0 = trace F "apply_first_cycle_suppression" (fresh_context F a) in
        let side =
          finish-side (run_stages F (main_stages F i) (run_stage F (bar_jump F i) c0)) d
            (ap (λ c. (finish F c).1) (sym (run-main i a past)) ∙ h) in
        let (asked, all) = main-side i (run_stage F (bar_jump F i) c0) d side in
        (
          asked,
          ltb→lt 1 i.cycle_counter past,
          all.0,
          all.1.0,
          all.1.1.0,
          all.1.1.1.0,
          all.1.1.1.1.0,
          all.1.1.1.1.1.0,
          all.1.1.1.1.1.1.0,
          all.1.1.1.1.1.1.1.1.1.1.1.0,
        )
  ]
