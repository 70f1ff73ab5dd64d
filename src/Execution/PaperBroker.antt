-- ===== src/Execution/PaperBroker.antt =====
-- paper_trading/execution/paper_broker.py: the simulated broker.
--
-- Prices come from a service that is an argument. The slippage and the impact of an order, with
-- the returns that the broker tracks for them, are an argument over a state of their own. The
-- text of a number is one, too.
pub mod Records
pub mod Filling
pub mod Settling
pub mod Account
use quorrin.Base.{
  ℕ, ◌+◌, String, Bool, true, false, not, ◌&&◌, ◌||◌, Option, none, some, List, [], ◌∷◌,
  if◌then◌else◌, Float, lt, le, eq, fmin, fabs,
}
use quorrin.Base.Dict.{Dict, get, put, remove}
use quorrin.Execution.Orders.{
  Order, OrderSide, buy, sell, unsupported, OrderStatus, filled, unknown, BrokerInterface,
}
use quorrin.Execution.PaperBroker.Records.{Position, Services, PaperBroker}

abbrev is_buy : OrderSide → Bool
is_buy buy = true
is_buy _ = false

module _ (F : Float) where
  open F use {Value, lit, neg, add, sub, mul, div}

  abbrev pub fresh_position : Value → Value → Position F
  fresh_position quantity price = record {
    quantity = quantity;
    avg_entry_price = price;
    current_price = price;
    unrealized_pnl = lit 0 0;
    realized_pnl = lit 0 0;
  }

  -- a position with more of it, at the average price
  unfoldable pub enlarged : Option (Position F) → Value → Value → Position F
  enlarged none quantity price = fresh_position quantity price
  enlarged (some p) quantity price =
      let total_qty = add p.quantity quantity in
      let total_cost = add (mul p.avg_entry_price p.quantity) (mul price quantity) in
      record p { avg_entry_price = div total_cost total_qty; quantity = total_qty }

  unfoldable pub shorted : Option (Position F) → Value → Value → Position F
  shorted none quantity price = fresh_position (neg quantity) price
  shorted (some p) quantity price =
      let total_qty = add (fabs F p.quantity) quantity in
      let total_proceeds = add (mul p.avg_entry_price (fabs F p.quantity)) (mul price quantity) in
      record p {
        avg_entry_price = div total_proceeds total_qty;
        quantity = sub p.quantity quantity;
      }

  -- a position under its asset, or none where it is closed
  abbrev place_position : Bool → String → Position F → Dict (Position F) → Dict (Position F)
  place_position is_closed asset p d = if is_closed then remove asset d else put asset p d

  -- the price with slippage and impact
  unfoldable pub slipped : OrderSide → Value → Value → Value
  slipped side price total =
      if is_buy side then mul price (add (lit 1 0) total) else mul price (sub (lit 1 0) total)

module _ (F : Float) {T : Type 0} where
  open F use {Value, lit, neg, add, sub, mul, div}

  -- `get_current_price`: 0 where there is none
  unfoldable pub get_current_price :
      Services F T → String → PaperBroker F T → PaperBroker F T × Value
  get_current_price s asset b = elim (get asset b.price_cache) [
    | some price ↦ (b, price)
    | none ↦ elim (s.fetch asset) [
      | none ↦ (b, lit 0 0)
      | some price ↦ (record b { price_cache = put asset price b.price_cache }, price)
    ]
  ]

  unfoldable pub update_position : String → Value → Value → PaperBroker F T → PaperBroker F T
  unfolding enlarged
  update_position asset quantity price b = if le F quantity (lit 0 0) then b else record b {
    positions = put asset (enlarged F (get asset b.positions) quantity price) b.positions;
  }

  unfoldable pub open_short : String → Value → Value → PaperBroker F T → PaperBroker F T
  unfolding shorted
  open_short asset quantity price b = record b {
    cash = add b.cash (mul price quantity);
    positions = put asset (shorted F (get asset b.positions) quantity price) b.positions;
  }

  -- a purchase against a short position
  unfoldable pub cover :
      Position F → String → Value → Value → Value → PaperBroker F T → PaperBroker F T
  unfolding update_position
  cover p asset price qty fee b =
      let cover_qty = fmin F qty (fabs F p.quantity) in
      let left = add p.quantity cover_qty in
      let realized = sub (mul (sub p.avg_entry_price price) cover_qty) fee in
      let covered = record p { realized_pnl = add p.realized_pnl realized; quantity = left } in
      let remaining = sub qty cover_qty in
      let b' : PaperBroker F T = record b {
        cash = sub b.cash (add (mul price cover_qty) fee);
        positions = place_position F (eq F left (lit 0 0)) asset covered b.positions;
      } in
      if le F remaining (lit 0 0)
      then b'
      else update_position asset remaining price
          (record b' { cash = sub b'.cash (mul price remaining) })

  -- a sale out of a long position
  unfoldable pub reduce :
      Position F → String → Value → Value → Value → PaperBroker F T → PaperBroker F T
  unfolding open_short
  reduce p asset price qty fee b =
      let sell_qty = fmin F qty p.quantity in
      let left = sub p.quantity sell_qty in
      let realized = sub (mul (sub price p.avg_entry_price) sell_qty) fee in
      let reduced = record p { realized_pnl = add p.realized_pnl realized; quantity = left } in
      let remaining = sub qty sell_qty in
      let b' : PaperBroker F T = record b {
        cash = add b.cash (sub (mul price sell_qty) fee);
        positions = place_position F (le F left (lit 0 0)) asset reduced b.positions;
      } in
      if le F remaining (lit 0 0) || not b.allow_short
      then b'
      else open_short asset remaining price b'

  unfoldable pub buy_fill :
      Option (Position F) → String → Value → Value → Value → PaperBroker F T → PaperBroker F T
  unfolding cover update_position
  buy_fill none asset price qty fee b =
      update_position asset qty price (record b { cash = sub b.cash (add (mul price qty) fee) })
  buy_fill (some p) asset price qty fee b =
      if lt F p.quantity (lit 0 0)
      then cover p asset price qty fee b
      else update_position asset qty price
          (record b { cash = sub b.cash (add (mul price qty) fee) })

  abbrev sell_short : String → Value → Value → Value → PaperBroker F T → PaperBroker F T
  sell_short asset price qty fee b =
      let b' = open_short asset qty price b in record b' { cash = sub b'.cash fee }

  -- `none` where there is nothing to sell
  unfoldable pub sell_fill :
      Option (Position F)
      → String
      → Value
      → Value
      → Value
      → PaperBroker F T
      → Option (PaperBroker F T)
  unfolding reduce open_short
  sell_fill none asset price qty fee b =
      if b.allow_short then some (sell_short asset price qty fee b) else none
  sell_fill (some p) asset price qty fee b =
      if lt F (lit 0 0) p.quantity
      then some (reduce p asset price qty fee b)
      else some (sell_short asset price qty fee b)

  -- `_apply_fill`, with `none` for False
  unfoldable pub apply_fill :
      Order F → Value → Value → Value → PaperBroker F T → Option (PaperBroker F T)
  unfolding buy_fill sell_fill
  apply_fill o price qty fee b = elim o.side [
    | buy ↦ some (buy_fill (get o.asset b.positions) o.asset price qty fee b)
    | sell ↦ sell_fill (get o.asset b.positions) o.asset price qty fee b
    | unsupported ↦ none
  ]

  -- `_finalize_order`
  unfoldable pub finalize_order :
      Services F T → Order F → PaperBroker F T → PaperBroker F T × (Order F × String)
  finalize_order s o b =
      let id = s.str_of b.next_order_id in
      let done = record o { order_id = id; status = filled } in
      (record b { next_order_id = b.next_order_id + 1; orders = put id done b.orders }, (done, id))

  -- the quantity that the cash pays for
  unfoldable pub affordable : Order F → Value → PaperBroker F T → Value
  affordable o price b =
      let cost = mul price o.quantity in
      if is_buy o.side && lt F b.cash (add cost (mul cost b.fees))
      then div b.cash (mul price (add (lit 1 0) b.fees))
      else o.quantity

  -- an order that could be filled enters the book
  unfoldable pub booked :
      Services F T
      → Order F
      → PaperBroker F T
      → Option (PaperBroker F T)
      → PaperBroker F T × (Order F × String)
  unfolding finalize_order
  booked s o b none = (b, (o, ""))
  booked s o b (some b') = finalize_order s o b'

  -- the fill of an order at a price
  unfoldable pub execute :
      Services F T → Order F → Value → PaperBroker F T → PaperBroker F T × (Order F × String)
  unfolding affordable apply_fill booked
  execute s o price b =
      let qty = affordable o price b in
      let fee = mul (mul price qty) b.fees in
      booked s (record o { quantity = qty }) b (apply_fill o price qty fee b)

  unfoldable pub place_filled_order :
      Services F T → Order F → Value → PaperBroker F T → PaperBroker F T × (Order F × String)
  unfolding execute
  place_filled_order s o price b =
      if le F price (lit 0 0) then (b, (o, "")) else execute s o price b

  -- a market order and a limit order are filled alike
  unfoldable pub place_order :
      Services F T → Order F → PaperBroker F T → PaperBroker F T × (Order F × String)
  unfolding get_current_price execute slipped
  place_order s o b =
      let (b', price) = get_current_price s o.asset b in
      let (t, total) = s.slippage o price b'.tracking in
      if le F price (lit 0 0)
      then (b', (o, ""))
      else execute s o (slipped F o.side price total) (record b' { tracking = t })

  unfoldable pub get_order_status : String → PaperBroker F T → OrderStatus
  get_order_status id b = elim (get id b.orders) [ none ↦ unknown | some o ↦ o.status ]

  -- the broker behind the interface; it cancels nothing
  unfoldable pub paper_api : Services F T → BrokerInterface F (PaperBroker F T)
  unfolding place_order place_filled_order get_order_status
  paper_api s = record {
    place_order = place_order s;
    place_filled_order = place_filled_order s;
    cancel_order = λ id b. (b, false);
    get_order_status = get_order_status;
  }
