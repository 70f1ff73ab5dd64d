-- ===== src/Entry/Submit/Records.antt =====
-- What the submission of an order reads and returns (paper_trading/services/entry_service.py,
-- paper_trading/governance/multipliers.py).
use quorrin.Base.{ℕ, String, Bool, Option, List, Float}
use quorrin.Position.{PositionSide}

-- The multipliers of a regime, and those of the narrative and the liquidity.
pub record Layers (F : Float) : Type 0 where
  pub base_sl : F.Value
  pub base_tp : F.Value
  pub regime_sl : F.Value
  pub regime_tp : F.Value
  pub narrative_sl_mult : F.Value
  pub liquidity_sl_mult : F.Value
  pub narrative_size_scalar : F.Value
  pub liquidity_size_scalar : F.Value

pub record Multipliers (F : Float) : Type 0 where
  pub sl : F.Value
  pub tp : F.Value
  pub size : F.Value

-- The settings of an asset for the size of its orders, with its drawdown.
pub record SizeConfig (F : Float) : Type 0 where
  pub drawdown_pct : F.Value
  pub taper_start : F.Value
  pub taper_end : F.Value
  pub taper_min : F.Value
  pub max_position_pct : F.Value
  pub max_risk_pct : F.Value
  pub min_viable_pct : F.Value

-- The paper account of an asset, and the fill of its bridge for a side, a quantity and a price.
pub record Paper (F : Float) : Type 0 where
  pub config : SizeConfig F
  pub layers : Layers F
  pub initial_capital : F.Value
  pub capital_base : F.Value
  pub current_value : F.Value
  pub position_size : F.Value
  pub exposure_multiplier : F.Value
  pub meta_size_multiplier : F.Value
  pub fill_price : PositionSide → F.Value → F.Value → F.Value × F.Value

-- What `_submit_mt5_order` asks of the terminal: the equity, the price of a ticker, the smallest
-- lot, the positions that are open under the symbol, and the fill and the ticket of an order.
pub record Mt5 (F : Float) : Type 0 where
  pub config : SizeConfig F
  pub ticker : String
  pub kelly_multiplier : F.Value
  pub enable_max_risk : Bool
  pub bypass_at_min_lot : Bool
  pub is_stack : Bool
  -- whether the paper book holds a position without a ticket
  pub paper_untracked : Bool
  pub portfolio_value : Option F.Value
  pub get_current_price : String → Option F.Value
  pub min_viable_qty : Option F.Value
  pub normalize_volume : F.Value → F.Value
  pub matching : List ℕ
  pub submit_market_order :
      PositionSide → F.Value → F.Value → F.Value → F.Value → F.Value × Option ℕ

-- The price of the fill, or None; its slippage; the ticket; and the quantity that was ordered.
pub record Submission (F : Float) : Type 0 where
  pub fill_price : Option F.Value
  pub slippage_bps : F.Value
  pub mt5_ticket : Option ℕ
  pub ordered : Option F.Value

-- `asset.execution_bridge`
pub data Bridge (F : Float) : Type 0 where
  no_bridge : Bridge F
  paper : Paper F → Bridge F
  real : Mt5 F → Bridge F
