-- ===== src/Execution/Context.antt =====
-- paper_trading/execution/decision_pipeline.py: what the stages of the decision pipeline work on.
--
-- `Asset` is the part of the engine of an asset that the stages change themselves. What only the
-- engine's own methods change is a state `R`; these methods, and what a stage reads of the
-- configuration, of the clock and of the market, are the record `Inputs`.
use quorrin.Base.{ℕ, String, Bool, Option, List, Float}
use quorrin.Base.Dict.{Dict}
use quorrin.Position.{PositionSide, PositionIntent}
use quorrin.Position.Manager.Records.{PositionManager}
use quorrin.Position.Protection.{ProtectionConfig}
use quorrin.Entry.{TradeDecision, SignalType, EntryAction, MarketStructureState, OptimizerConfig}
use quorrin.Entry.Deferred.{DeferredEntry}
use quorrin.Entry.TakeProfit.{TpGeometry}

-- An entry of `prob_history`.
pub record ProbPoint (F : Float) : Type 0 where
  pub date : String
  pub prob_long : F.Value
  pub prob_short : F.Value
  pub signal : SignalType
  pub confidence : F.Value
  pub close_price : F.Value

pub record Asset (F : Float) (R : Type 0) : Type 0 where
  pub manager : PositionManager F
  pub signal_chain : List PositionSide
  pub last_regime_label : String
  pub regime_bar_counter : ℕ
  pub kelly_multiplier : F.Value
  pub pending_entries : List (PositionSide × DeferredEntry F)
  pub prob_history : List (ProbPoint F)
  pub gate_blocked_counts : Dict ℕ
  -- the decision whose label, confidence and probabilities are stored as the last prediction
  pub last_prediction : Option (TradeDecision F)
  pub last_gates_trace : Dict Bool
  pub rest : R

-- What one stage leaves for the next: the action and the plans of an entry.
pub record Artifacts (F : Float) : Type 0 where
  pub entry_action : EntryAction
  pub tp_geo : Option (TpGeometry F)
  pub deferred_entry : Option (DeferredEntry F)

-- `DecisionContext`, with its engine.
pub record DecisionContext (F : Float) (R : Type 0) : Type 0 where
  pub asset : Asset F R
  pub new_side : Option PositionSide
  pub flip_allowed : Bool
  pub abort : Bool
  pub current_side : Option PositionSide
  pub gates_trace : Dict Bool
  pub artifacts : Option (Artifacts F)

pub record Inputs (F : Float) (R : Type 0) : Type 0 where
  pub decision : TradeDecision F
  pub now : F.Value
  pub cycle_counter : ℕ
  pub suppress_until : F.Value
  pub current_price : Option F.Value
  pub current_regime : String
  -- the name is in RISK_OFF_ASSETS, VIX_GATE_ASSETS, or the sell-only assets
  pub is_risk_off_asset : Bool
  pub is_vix_asset : Bool
  pub is_sell_only : Bool
  pub risk_off : Bool
  -- the last value of ^VIX and its age in days; `none` where it is missing or cannot be read
  pub vix : Option (F.Value × ℕ)
  pub spread_gate_enabled : Bool
  pub last_spread_bps : Option F.Value
  pub last_spread_time : F.Value
  pub spread_tier : String
  -- the hour of the day in UTC
  pub hour : ℕ
  pub adx_gate_enabled : Bool
  pub adx_observe_only : Bool
  pub adx_threshold : F.Value
  pub adx : Option F.Value
  pub min_confidence : F.Value
  pub kelly_enabled : Bool
  pub calibration_applied : Bool
  -- `compute_kelly_multiplier` for the decision
  pub kelly_multiplier_of : TradeDecision F → F.Value
  pub stacking_enabled : Bool
  pub protection : ProtectionConfig F
  pub profit_lock_threshold_pct : F.Value
  pub structure : MarketStructureState F
  pub optimizer : OptimizerConfig F
  pub dynamic_sltp_enabled : Bool
  -- the modules of the multipliers, the geometry and the deferred entries could be imported
  pub multipliers_imported : Bool
  pub deferred_imported : Bool
  pub tp_geometry : TpGeometry F
  pub entry_id_of : TradeDecision F → String
  pub entry_defer_max_bars : ℕ
  -- the engine's methods
  pub update_trade_extremes : R → R
  pub evaluate_flip_gate : ℕ → R → Bool
  pub can_enter : PositionSide → R → R × Bool
  pub should_stack : PositionManager F → R → Bool
  pub execute_stack : PositionManager F × R → PositionManager F × R
  -- `_close_position` at a price for a reason, and whether it closed
  pub close_position : F.Value → String → PositionManager F × R → (PositionManager F × R) × Bool
  -- the position that `_open_position` builds and hands to the manager, with the base size that
  -- it sets on it afterwards; `none` where it returns early
  pub intent_of : PositionSide → Option (TpGeometry F) → R → R × Option (PositionIntent F)
  pub poll_pending_entries :
      PositionManager F × List (PositionSide × DeferredEntry F) × R
      → PositionManager F × List (PositionSide × DeferredEntry F) × R
  pub log_confidence_buckets : R → R
