-- ===== src/Execution/Pipeline.antt =====
-- paper_trading/execution/decision_pipeline.py: the stages in their order, and the run over them.
--
-- The event that goes to the write-ahead log behind the run is left out; its errors are
-- swallowed.
pub mod Passing
pub mod Suppression
pub mod Runs
pub mod Traces
use quorrin.Base.{
  ℕ, ◌+◌, String, Bool, true, false, not, ◌&&◌, Option, none, some, List, [], ◌∷◌, if◌then◌else◌,
  Float,
}
use quorrin.Base.Dict.{Dict, get_default, put}
use quorrin.Position.{PositionSide, PositionIntent}
use quorrin.Execution.Context.{DecisionContext, Asset, Inputs}
use quorrin.Execution.Gates.{
  apply_first_cycle_suppression, apply_bar_jump_suppression, store_prediction_metadata,
  update_mae_mfe, resolve_signal, apply_risk_off_suppression, apply_vix_gate, apply_spread_gate,
  apply_session_gate, apply_adx_entry_gate, apply_confidence_gate, apply_signal_hysteresis,
  apply_meta_label_advisory, update_regime_bar_counter, evaluate_conviction_gate,
  apply_kelly_sizing, poll_deferred_entries, update_prob_history,
}
use quorrin.Execution.Manage.{
  apply_sell_only_filter, manage_position, build_entry_artifacts, route_execution_policy,
}

-- A stage with its name.
pub record Stage (F : Float) (R : Type 0) : Type 0 where
  pub name : String
  pub act : DecisionContext F R → DecisionContext F R

abbrev pub cleared : Option PositionSide → Option PositionSide → Bool
cleared (some side) none = true
cleared _ _ = false

abbrev side_in : {F : Float} → Option (PositionIntent F) → Option PositionSide
side_in none = none
side_in (some p) = some p.side

module _ (F : Float) {R : Type 0} where
  abbrev stage : String → (DecisionContext F R → DecisionContext F R) → Stage F R
  stage name act = record { name = name; act = act }

  -- the stages behind the one that resolves the signal
  abbrev pub late_stages : Inputs F R → List (Stage F R)
  late_stages i =
      stage "apply_risk_off_suppression" (apply_risk_off_suppression F i)
      ∷ stage "apply_vix_gate" (apply_vix_gate F i)
      ∷ stage "apply_sell_only_filter" (apply_sell_only_filter F i)
      ∷ stage "apply_spread_gate" (apply_spread_gate F i)
      ∷ stage "apply_session_gate" (apply_session_gate F i)
      ∷ stage "apply_adx_entry_gate" (apply_adx_entry_gate F i)
      ∷ stage "apply_confidence_gate" (apply_confidence_gate F i)
      ∷ stage "apply_signal_hysteresis" (apply_signal_hysteresis F i)
      ∷ stage "apply_meta_label_advisory" (apply_meta_label_advisory F i)
      ∷ stage "update_regime_bar_counter" (update_regime_bar_counter F i)
      ∷ stage "evaluate_conviction_gate" (evaluate_conviction_gate F i)
      ∷ stage "apply_kelly_sizing" (apply_kelly_sizing F i)
      ∷ stage "manage_position" (manage_position F i)
      ∷ stage "build_entry_artifacts" (build_entry_artifacts F i)
      ∷ stage "route_execution_policy" (route_execution_policy F i)
      ∷ stage "poll_deferred_entries" (poll_deferred_entries F i)
      ∷ stage "update_prob_history" (update_prob_history F i)
      ∷ []

  abbrev pub first_cycle : Inputs F R → Stage F R
  first_cycle i = stage "apply_first_cycle_suppression" (apply_first_cycle_suppression F i)

  abbrev pub bar_jump : Inputs F R → Stage F R
  bar_jump i = stage "apply_bar_jump_suppression" (apply_bar_jump_suppression F i)

  abbrev pub metadata : Inputs F R → Stage F R
  metadata i = stage "store_prediction_metadata" (store_prediction_metadata F i)

  abbrev pub extremes : Inputs F R → Stage F R
  extremes i = stage "update_mae_mfe" (update_mae_mfe F i)

  abbrev pub resolution : Inputs F R → Stage F R
  resolution i = stage "resolve_signal" (resolve_signal F i)

  -- the stages behind the two suppressions
  abbrev pub main_stages : Inputs F R → List (Stage F R)
  main_stages i = metadata i ∷ extremes i ∷ resolution i ∷ late_stages i

  -- `DEFAULT_STAGES`
  abbrev pub default_stages : Inputs F R → List (Stage F R)
  default_stages i = first_cycle i ∷ bar_jump i ∷ main_stages i

  -- `_gate_blocked_counts[name] += 1`
  unfoldable pub count_block : String → DecisionContext F R → DecisionContext F R
  count_block name ctx =
      let counts = ctx.asset.gate_blocked_counts in
      record ctx {
        asset = record ctx.asset {
          gate_blocked_counts = put name (get_default name 0 counts + 1) counts;
        };
      }

  -- the trace is written before the stage acts
  unfoldable pub trace : String → DecisionContext F R → DecisionContext F R
  trace name ctx = record ctx { gates_trace = put name (not ctx.abort) ctx.gates_trace }

  -- a stage that aborted, or one that cleared the side, is counted as a block
  unfoldable pub run_stage : Stage F R → DecisionContext F R → DecisionContext F R
  unfolding count_block trace
  run_stage s ctx =
      let next = s.act (trace s.name ctx) in
      if next.abort && not ctx.abort
      then count_block s.name next
      else if not ctx.abort && cleared ctx.new_side next.new_side && not next.abort
      then count_block s.name next
      else next

  -- the loop, left as soon as a stage aborts
  unfoldable pub run_stages : List (Stage F R) → DecisionContext F R → DecisionContext F R
  unfolding run_stage
  run_stages [] ctx = ctx
  run_stages (s ∷ ss) ctx =
      let next = run_stage s ctx in
      let rest = run_stages ss next in if next.abort && not ctx.abort then next else rest

  abbrev pub fresh_context : Asset F R → DecisionContext F R
  fresh_context a = record {
    asset = a;
    new_side = none;
    flip_allowed = true;
    abort = false;
    current_side = side_in a.manager.position;
    gates_trace = [];
    artifacts = none;
  }

  -- the asset behind a run, and the side of the final signal
  unfoldable pub finish : DecisionContext F R → Asset F R × Option PositionSide
  finish ctx = (
    record ctx.asset { last_gates_trace = ctx.gates_trace },
    if ctx.abort then none else ctx.new_side,
  )

  unfoldable pub run_decision_pipeline : Inputs F R → Asset F R → Asset F R × Option PositionSide
  unfolding run_stages finish
  run_decision_pipeline i a = finish (run_stages (default_stages i) (fresh_context a))
