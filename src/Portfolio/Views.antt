-- ===== src/Portfolio/Views.antt =====
-- What the builder of the snapshot reads (paper_trading/pek/state/portfolio_state_builder.py).
use quorrin.Base.{ℕ, String, Bool, Option, List, Float}
use quorrin.Base.Dict.{Dict}
use quorrin.Position.{PositionSide}

-- What the builder reads of an engine with a position manager.
pub record OpenPosition (F : Float) : Type 0 where
  pub side : PositionSide
  pub entry_price : F.Value
  pub stop_loss : F.Value

pub record EngineView (F : Float) : Type 0 where
  pub mtm_value : F.Value
  pub position : Option (OpenPosition F)
  pub last_entry_notional : F.Value
  pub last_spread_bps : Option F.Value
  pub spread_tier : String
  pub last_confidence : Option F.Value
  pub risk_off : Bool
  pub last_gates_trace : Dict Bool

pub record PositionInfo (F : Float) : Type 0 where
  pub asset : String
  pub side : PositionSide
  pub notional : F.Value
  pub sl_distance_pct : F.Value

pub record PortfolioMode (F : Float) : Type 0 where
  pub max_daily_loss_pct : Option F.Value
  pub max_drawdown_pct : F.Value
  pub max_leverage : F.Value
  pub max_concurrent_positions : ℕ

pub record FactorModel (F : Float) : Type 0 where
  pub factor_groups : Dict (List String)
  pub factor_limits : Dict (F.Value × F.Value)
