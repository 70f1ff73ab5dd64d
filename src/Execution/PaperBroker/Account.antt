-- ===== src/Execution/PaperBroker/Account.antt =====
-- paper_trading/execution/paper_broker.py: the account of the broker, its prices, and its reset.
use quorrin.Base.{String, List, [], ◌∷◌, if◌then◌else◌, Float, lt, le, fabs}
use quorrin.Base.Dict.{Dict, put}
use quorrin.Execution.PaperBroker.{get_current_price}
use quorrin.Execution.PaperBroker.Records.{PaperBroker, Position, Services}

pub record AccountSummary (F : Float) : Type 0 where
  pub total_cash : F.Value
  pub buying_power : F.Value
  pub portfolio_value : F.Value
  pub positions : List (Position F)

module _ (F : Float) where
  open F use {Value, lit, add, sub, mul, round}

  unfoldable pub values : Dict (Position F) → List (Position F)
  values [] = []
  values ((asset, p) ∷ rest) = p ∷ values rest

  unfoldable pub market_value : List (Position F) → Value → Value
  market_value [] total = total
  market_value (p ∷ ps) total = market_value ps (add total (mul p.quantity p.current_price))

  -- a position at a new price
  unfoldable pub marked : Value → Position F → Position F
  marked price p = record p {
    current_price = price;
    unrealized_pnl =
        if le F (lit 0 0) p.quantity
        then mul (sub price p.avg_entry_price) p.quantity
        else mul (sub p.avg_entry_price price) (fabs F p.quantity);
  }

module _ (F : Float) {T : Type 0} where
  open F use {Value, lit, add, mul, round}

  unfoldable pub get_account_summary : PaperBroker F T → AccountSummary F
  unfolding values market_value
  get_account_summary b =
      let ps = values F b.positions in
      record {
        total_cash = round b.cash 2;
        buying_power = round (mul b.cash (lit 2 0)) 2;
        portfolio_value = round (add b.cash (market_value F ps (lit 0 0))) 2;
        positions = ps;
      }

  -- one position of the loop over them; a price that is not positive changes none
  unfoldable pub refresh_price :
      Services F T → String → Position F → PaperBroker F T → PaperBroker F T
  unfolding marked
  refresh_price s asset p b =
      let (b', price) = get_current_price F s asset b in
      if lt F (lit 0 0) price
      then record b' { positions = put asset (marked F price p) b'.positions }
      else b'

  unfoldable pub refresh_all : Services F T → Dict (Position F) → PaperBroker F T → PaperBroker F T
  unfolding refresh_price
  refresh_all s [] b = b
  refresh_all s ((asset, p) ∷ rest) b = refresh_all s rest (refresh_price s asset p b)

  unfoldable pub refresh_prices : Services F T → PaperBroker F T → PaperBroker F T
  unfolding refresh_all
  refresh_prices s b = refresh_all s b.positions b

  unfoldable pub set_price : String → Value → PaperBroker F T → PaperBroker F T
  set_price asset price b = record b { price_cache = put asset price b.price_cache }

  -- what the broker tracks for the slippage is kept
  unfoldable pub reset : Value → PaperBroker F T → PaperBroker F T
  reset capital b = record b {
    cash = capital;
    positions = [];
    orders = [];
    next_order_id = 1;
    price_cache = [];
  }
