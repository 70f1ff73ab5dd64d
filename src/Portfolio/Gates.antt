-- ===== src/Portfolio/Gates.antt =====
-- The gates of an asset behind a run of the decision pipeline.
use quorrin.Base.{ℕ, ◌≡◌, String, true, ◌&&◌, List, Float, arith}
use quorrin.Admission.Contracts.{all_ok}
use quorrin.Execution.Context.{Asset, Inputs}
use quorrin.Execution.Pipeline.{run_decision_pipeline}
use quorrin.Execution.Pipeline.Traces.{run_decision_pipeline-AllTrue}
use quorrin.Portfolio.{compute_asset_gates}
use quorrin.Portfolio.Views.{EngineView}

module _ (F : Float) {R : Type 0} where
  -- What the builder sees of an engine behind a run, whose trace it reads.
  abbrev pub behind : Inputs F R → Asset F R → EngineView F → EngineView F
  behind i a e = record e { last_gates_trace = (run_decision_pipeline F i a).0.last_gates_trace }

  -- The hysteresis and the conviction gate never keep an asset from being admitted: behind any
  -- run of the pipeline, also one that just these gates blocked, the snapshot has both as
  -- passed, and whether all gates of the asset are open is up to the other five.
  pub compute_asset_gates-behind :
      (i : Inputs F R) (a : Asset F R) (e : EngineView F) (sell_only : List String) (hour : ℕ)
      (name : String)
      → (let g = compute_asset_gates F sell_only hour name (behind i a e) in
          (g.hysteresis_ok ≡ true)
          × (g.conviction_ok ≡ true)
          × (all_ok g ≡ (
              g.spread_ok && g.session_ok && g.sell_only_ok && g.confidence_ok && g.risk_off_ok)))
  unfolding compute_asset_gates
  compute_asset_gates-behind i a e sell_only hour name =
      let h = run_decision_pipeline-AllTrue F i a "apply_signal_hysteresis" in
      let c = run_decision_pipeline-AllTrue F i a "evaluate_conviction_gate" in
      (h, c, rw (h, c) (ground arith))
