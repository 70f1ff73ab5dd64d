-- ===== src/Tests/Pipelines.antt =====
-- The decision pipeline.
use quorrin.Base.{ℕ, ◌+◌, ◌≡◌, refl, true, false, none, some, [], ◌∷◌}
use quorrin.Base.Fixed.{fixed}
use quorrin.Base.Dict.{get}
use quorrin.Position.{long, short, PositionIntent}
use quorrin.Position.Manager.{open_position, new_manager}
use quorrin.Execution.Context.{Asset, Inputs, DecisionContext}
use quorrin.Execution.Pipeline.{
  run_decision_pipeline, fresh_context, finish, run_stages, run_stage, trace, count_block,
  first_cycle, main_stages,
}
use quorrin.Execution.Pipeline.Runs.{Passed, run_decision_pipeline-Passed}
use quorrin.Execution.Pipeline.Suppression.{idle, run_decision_pipeline-idle}
use quorrin.Execution.Manage.{
  protected, apply_sell_only_filter, manage_position, build_entry_artifacts, route_execution_policy,
  settle_side, ask_gate, close_for_flip, protect_position, artifacts_of, action_of,
}
use quorrin.Execution.Manage.Flips.{facing, decide_flip, decide_flip-overwrites}
use quorrin.Entry.{evaluate, archetype_of, policy_of}
use quorrin.Execution.Gates.{
  apply_first_cycle_suppression, apply_bar_jump_suppression, store_prediction_metadata,
  update_mae_mfe, resolve_signal, apply_risk_off_suppression, apply_vix_gate, apply_spread_gate,
  apply_session_gate, apply_adx_entry_gate, apply_confidence_gate, apply_signal_hysteresis,
  apply_meta_label_advisory, update_regime_bar_counter, evaluate_conviction_gate,
  apply_kelly_sizing, poll_deferred_entries, update_prob_history,
}
use quorrin.Tests.Data.{whole}
use quorrin.Tests.Entries.{decision, structure, optimizer}
use quorrin.Tests.Positions.{position}
use quorrin.Tests.Protections.{config}

-- An engine whose state is the number of orders it has sent.
abbrev pub inputs : Inputs fixed ℕ
inputs = record {
  decision = decision;
  now = whole 1000;
  cycle_counter = 5;
  suppress_until = whole 2000;
  current_price = some (whole 100);
  current_regime = "neutral";
  is_risk_off_asset = false;
  is_vix_asset = false;
  is_sell_only = false;
  risk_off = true;
  vix = none;
  spread_gate_enabled = true;
  last_spread_bps = none;
  last_spread_time = whole 0;
  spread_tier = "fx_major";
  hour = 9;
  adx_gate_enabled = false;
  adx_observe_only = true;
  adx_threshold = whole 18;
  adx = none;
  min_confidence = whole 50;
  kelly_enabled = false;
  calibration_applied = false;
  kelly_multiplier_of = λ d. whole 1;
  stacking_enabled = false;
  protection = config;
  profit_lock_threshold_pct = whole 15;
  structure = structure;
  optimizer = optimizer;
  dynamic_sltp_enabled = true;
  multipliers_imported = true;
  deferred_imported = true;
  tp_geometry = record { tp_distance = whole 5; scale_out_tiers = []; convexity_score = whole 1 };
  entry_id_of = λ d. "a1";
  entry_defer_max_bars = 5;
  update_trade_extremes = λ r. r;
  evaluate_flip_gate = λ bars r. false;
  can_enter = λ side r. (r, true);
  should_stack = λ m r. false;
  execute_stack = λ s. s;
  close_position = λ price reason s. (s, false);
  intent_of = λ side g r. (r + 1, some position);
  poll_pending_entries = λ s. s;
  log_confidence_buckets = λ r. r;
}

abbrev pub asset : Asset fixed ℕ
asset = record {
  manager = new_manager fixed (whole 1000) (whole 1);
  signal_chain = [];
  last_regime_label = "neutral";
  regime_bar_counter = 0;
  kelly_multiplier = whole 1;
  pending_entries = [];
  prob_history = [];
  gate_blocked_counts = [];
  last_prediction = none;
  last_gates_trace = [];
  rest = 0;
}

run_decision_pipeline-Passed_example : Passed fixed inputs long
unfolding run_decision_pipeline run_stages run_stage trace count_block finish
    apply_first_cycle_suppression apply_bar_jump_suppression store_prediction_metadata
    update_mae_mfe resolve_signal apply_risk_off_suppression apply_vix_gate apply_sell_only_filter
    apply_spread_gate apply_session_gate apply_adx_entry_gate apply_confidence_gate
    apply_signal_hysteresis apply_meta_label_advisory update_regime_bar_counter
    evaluate_conviction_gate apply_kelly_sizing manage_position build_entry_artifacts
    route_execution_policy poll_deferred_entries update_prob_history settle_side ask_gate
    close_for_flip protect_position artifacts_of action_of evaluate archetype_of policy_of get
    new_manager
run_decision_pipeline-Passed_example = run_decision_pipeline-Passed fixed inputs asset long refl

run_decision_pipeline-idle_example :
    run_decision_pipeline fixed inputs asset
    ≡ finish fixed (
        run_stages fixed
          (first_cycle fixed inputs ∷ idle fixed ∷ main_stages fixed inputs)
          (fresh_context fixed asset))
run_decision_pipeline-idle_example = run_decision_pipeline-idle fixed inputs asset

-- a short position, where a long one is signalled
abbrev held : PositionIntent fixed
held = record position { side = short }

abbrev waiting : DecisionContext fixed ℕ
waiting = fresh_context fixed asset

decide_flip-overwrites_example :
    let c = facing fixed long held waiting in
    let m = (decide_flip fixed inputs c).asset.manager in
    (m ≡ open_position fixed position (protected fixed inputs c.asset.manager))
    × (m.trade_log ≡ asset.manager.trade_log)
    × (m.current_value ≡ asset.manager.current_value)
unfolding artifacts_of action_of evaluate archetype_of policy_of
decide_flip-overwrites_example =
    decide_flip-overwrites fixed inputs long held position none waiting refl refl refl refl refl
