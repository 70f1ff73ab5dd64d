-- ===== src/Admission/Contracts.antt =====
-- The data of an admission: signal.py of paper_trading/orchestrator/admission, the records of its
-- controller, and what it reads of paper_trading/pek/contracts/portfolio_state.py.
use quorrin.Base.{ℕ, String, Bool, true, false, ◌&&◌, Option, List, Float}

pub data Side : Type 0 where
  long short no_side : Side

abbrev pub same_side : Side → Side → Bool
same_side long long = true
same_side short short = true
same_side no_side no_side = true
same_side _ _ = false

pub record AdmissionSignal (F : Float) : Type 0 where
  pub asset : String
  pub side : Side
  pub entry_price : F.Value
  pub stop_loss : F.Value
  pub take_profit : F.Value
  pub sl_distance_pct : F.Value
  pub tp_distance_pct : F.Value
  pub notional_requested : F.Value
  pub risk_usd : F.Value
  pub calibrated_prob : F.Value
  pub expected_value_r : F.Value
  pub tp_sl_ratio : F.Value
  pub regime_confidence : F.Value
  pub deferred_cycles : ℕ
  pub feature_hash : String

pub record ClusterInfo : Type 0 where
  pub assets : List String
  pub dominant_side : Option Side
  pub position_count : ℕ

pub record AssetGateState : Type 0 where
  pub asset : String
  pub spread_ok : Bool
  pub session_ok : Bool
  pub sell_only_ok : Bool
  pub confidence_ok : Bool
  pub risk_off_ok : Bool
  pub hysteresis_ok : Bool
  pub conviction_ok : Bool

abbrev pub all_ok : AssetGateState → Bool
all_ok g =
    g.spread_ok && g.session_ok && g.sell_only_ok && g.confidence_ok && g.risk_off_ok
    && g.hysteresis_ok && g.conviction_ok

pub record PortfolioStateSnapshot (F : Float) : Type 0 where
  pub total_equity : F.Value
  pub drawdown_pct : F.Value
  pub daily_loss_remaining : F.Value
  pub max_daily_loss : F.Value
  pub leverage_remaining : F.Value
  pub concurrent_remaining : ℕ
  pub factor_headroom : List (String × F.Value)
  pub clusters : List ClusterInfo
  pub asset_gates : List AssetGateState

-- `__init__`, with the weights of the ranking
pub record AdmissionConfig (F : Float) : Type 0 where
  pub ranking_enabled : Bool
  pub w_prob : F.Value
  pub w_ev : F.Value
  pub w_rr : F.Value
  pub w_regime : F.Value
  pub w_corr : F.Value
  pub deferred_decay : F.Value
  pub stale_after : ℕ

pub data Rejection : Type 0 where
  max_concurrent_positions_reached daily_loss_budget_exhausted : Rejection
  leverage_budget_exhausted drawdown_limit_would_be_exceeded : Rejection
  factor_exposure_limit : String → Rejection
  asset_gate_blocked signal_stale : Rejection

pub record BudgetDelta (F : Float) : Type 0 where
  pub leverage_consumed : F.Value
  pub daily_loss_consumed : F.Value
  pub positions_added : ℕ

pub record AdmissionResult (F : Float) : Type 0 where
  pub admitted : List (AdmissionSignal F)
  pub rejected : List (AdmissionSignal F × Rejection)
  pub budget_delta : BudgetDelta F
  pub ranking_scores : List (String × F.Value)
