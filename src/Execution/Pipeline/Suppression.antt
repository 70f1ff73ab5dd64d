-- ===== src/Execution/Pipeline/Suppression.antt =====
-- The two suppressions at the head of the pipeline.
use quorrin.Base.{
  String, ◌+◌, ◌≡◌, refl, ap, sym, ◌∙◌, inl, inr, true, false, none, List, [], ◌∷◌, ltb, Bool-cases,
  arith, Float,
}
use quorrin.Base.Dict.{get_default, put}
use quorrin.Execution.Context.{DecisionContext, Asset, Inputs}
use quorrin.Execution.Gates.{apply_bar_jump_suppression, apply_first_cycle_suppression}
use quorrin.Execution.Pipeline.{
  Stage, first_cycle, bar_jump, main_stages, run_stage, run_stages, run_decision_pipeline,
  fresh_context, finish, count_block, trace,
}
use quorrin.Execution.Pipeline.Runs.{run-first, first_cycle-passed, run_stages-next}

module _ (F : Float) {R : Type 0} where
  -- The second stage without its test.
  abbrev pub idle : Stage F R
  idle = record { name = "apply_bar_jump_suppression"; act = λ ctx. ctx }

  -- a context in which no signal is resolved
  abbrev calm : DecisionContext F R → DecisionContext F R
  calm c = record c { new_side = none }

  bar_jump-idle :
      (i : Inputs F R) (c : DecisionContext F R)
      → run_stage F (bar_jump F i) (calm c) ≡ run_stage F idle (calm c)
  unfolding run_stage apply_bar_jump_suppression trace count_block
  bar_jump-idle i c = ground arith

  bar_jump-next :
      (i : Inputs F R) (ss : List (Stage F R)) (c : DecisionContext F R)
      → run_stages F (bar_jump F i ∷ ss) (calm c) ≡ run_stages F (idle ∷ ss) (calm c)
  unfolding run_stages
  bar_jump-next i ss c = rw (bar_jump-idle i c) refl

  past-first :
      (i : Inputs F R) (ss : List (Stage F R)) (a : Asset F R)
      → ltb 1 i.cycle_counter ≡ true
      → run_stages F (first_cycle F i ∷ ss) (fresh_context F a)
        ≡ run_stages F ss (calm (trace F "apply_first_cycle_suppression" (fresh_context F a)))
  unfolding trace apply_first_cycle_suppression
  past-first i ss a h =
      run_stages-next F (first_cycle F i) ss (fresh_context F a) (ground arith)
      ∙ ap (run_stages F ss) (first_cycle-passed F i (fresh_context F a) h)

  -- The suppression behind a bar jump has no effect: whatever the clock and the time until which
  -- signals are to be suppressed, the asset, its trace and its counts, and the final signal are
  -- those of a pipeline whose second stage does nothing. The stage that resolves the signal comes
  -- later and overwrites what the suppression cleared.
  pub run_decision_pipeline-idle :
      (i : Inputs F R) (a : Asset F R)
      → run_decision_pipeline F i a
        ≡ finish F (run_stages F (first_cycle F i ∷ idle ∷ main_stages F i) (fresh_context F a))
  unfolding run_decision_pipeline
  run_decision_pipeline-idle i a = ap (finish F) (elim (Bool-cases (ltb 1 i.cycle_counter)) [
    | inl past ↦
        past-first i (bar_jump F i ∷ main_stages F i) a past
        ∙ bar_jump-next i (main_stages F i)
            (trace F "apply_first_cycle_suppression" (fresh_context F a))
        ∙ sym (past-first i (idle ∷ main_stages F i) a past)
    | inr first ↦
        run-first F i (bar_jump F i ∷ main_stages F i) a first
        ∙ sym (run-first F i (idle ∷ main_stages F i) a first)
  ])

  -- In the first cycle the run does nothing but count itself as blocked and leave a trace of one
  -- stage: no price, no protection of an open position, no deferred entry is looked at.
  pub run_decision_pipeline-first :
      (i : Inputs F R) (a : Asset F R)
      → ltb 1 i.cycle_counter ≡ false
      → let name : String = "apply_first_cycle_suppression" in
        let counts = a.gate_blocked_counts in
        run_decision_pipeline F i a ≡ (
          record a {
            gate_blocked_counts = put name (get_default name 0 counts + 1) counts;
            last_gates_trace = (name, true) ∷ [];
          },
          none,
        )
  unfolding run_decision_pipeline finish count_block trace put
  run_decision_pipeline-first i a h =
      ap (finish F) (run-first F i (bar_jump F i ∷ main_stages F i) a h)
