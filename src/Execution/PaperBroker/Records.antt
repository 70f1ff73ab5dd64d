-- ===== src/Execution/PaperBroker/Records.antt =====
-- The data of the simulated broker (paper_trading/execution/paper_broker.py).
use quorrin.Base.{ℕ, String, Bool, Option, Float}
use quorrin.Base.Dict.{Dict}
use quorrin.Execution.Orders.{Order}

pub record Position (F : Float) : Type 0 where
  pub quantity : F.Value
  pub avg_entry_price : F.Value
  pub current_price : F.Value
  pub unrealized_pnl : F.Value
  pub realized_pnl : F.Value

-- The services: the price of an asset, slippage and impact, and `str`.
pub record Services (F : Float) (T : Type 0) : Type 0 where
  pub fetch : String → Option F.Value
  pub slippage : Order F → F.Value → T → T × F.Value
  pub str_of : ℕ → String

pub record PaperBroker (F : Float) (T : Type 0) : Type 0 where
  pub cash : F.Value
  pub fees : F.Value
  pub allow_short : Bool
  pub positions : Dict (Position F)
  pub orders : Dict (Order F)
  pub next_order_id : ℕ
  pub price_cache : Dict F.Value
  pub tracking : T
