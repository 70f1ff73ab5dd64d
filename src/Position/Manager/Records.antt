-- ===== src/Position/Manager/Records.antt =====
-- The state of a position manager and the trades it records.
use quorrin.Base.{ℕ, String, Bool, Option, List, Float}
use quorrin.Position.{PositionSide, PositionIntent}

pub record PartialClose (F : Float) : Type 0 where
  pub fraction : F.Value
  pub fill_price : F.Value
  pub exit_date : String
  pub reason : String
  pub return : F.Value
  pub pnl : F.Value

pub record Trade (F : Float) : Type 0 where
  pub side : PositionSide
  pub entry : F.Value
  pub exit : F.Value
  pub entry_date : String
  pub exit_date : String
  pub bars : ℕ
  pub return : F.Value
  pub pnl : F.Value
  pub total_pnl : F.Value
  pub reason : String
  pub sl_price : F.Value
  pub tp_price : F.Value
  pub vol_at_entry : F.Value
  pub realized_r : F.Value
  pub partial_closes : List (PartialClose F)
  pub fraction_closed : F.Value

pub record PositionManager (F : Float) : Type 0 where
  pub initial_capital : F.Value
  pub current_value : F.Value
  pub peak_value : F.Value
  pub position_size : F.Value
  pub exposure_multiplier : F.Value
  pub position : Option (PositionIntent F)
  pub trade_log : List (Trade F)
  pub scale_out_active : Bool
  pub scale_out_breakeven : Option F.Value
  pub remaining_fraction : F.Value
  pub partial_closes : List (PartialClose F)
  pub regime : String
  pub volatility_state : String

pub data ExitReason : Type 0 where
  breakeven sl tp : ExitReason

-- The days from one date to another, of which the first may be the later one.
pub data Days : Type 0 where
  after before : ℕ → Days
