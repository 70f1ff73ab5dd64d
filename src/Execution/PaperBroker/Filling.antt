-- ===== src/Execution/PaperBroker/Filling.antt =====
-- What the paper broker promises for an order that it is given.
use text.Mathlib.Text.{◌==◌ as str_eq}
use text.Mathlib.TextEquality.{eq_iff}
use quorrin.Base.{
  String, ◌≡◌, refl, ap, sym, ◌∙◌, Bool, true, false, Option, none, some, if◌then◌else◌, arith,
  Float, le,
}
use quorrin.Base.Dict.{get, put, get-put}
use quorrin.Execution.Orders.{Order, OrderStatus, filled, unknown, place, place}
use quorrin.Execution.PaperBroker.{
  get_current_price, apply_fill, buy_fill, sell_fill, cover, reduce, open_short, update_position,
  finalize_order, booked, slipped, execute, place_order, place_filled_order, get_order_status,
  paper_api,
}
use quorrin.Execution.PaperBroker.Records.{PaperBroker, Services, Position}

module _ (F : Float) {T : Type 0} (s : Services F T) where
  open F use {Value}

  -- An order of the book stays filled, and an id that is given out is in the book as filled.
  abbrev pub Fills : PaperBroker F T → PaperBroker F T × (Order F × String) → Type 0
  Fills b (b', (o, id)) =
      ((j : String) → get_order_status F j b ≡ filled → get_order_status F j b' ≡ filled)
      × (str_eq id "" ≡ false → get_order_status F id b' ≡ filled)

  update_position-orders :
      (asset : String) (qty price : Value) (b : PaperBroker F T)
      → (update_position F asset qty price b).orders ≡ b.orders
  unfolding update_position
  update_position-orders asset qty price b = ground arith

  cover-orders :
      (p : Position F) (asset : String) (price qty fee : Value) (b : PaperBroker F T)
      → (cover F p asset price qty fee b).orders ≡ b.orders
  unfolding cover update_position
  cover-orders p asset price qty fee b = ground arith

  reduce-orders :
      (p : Position F) (asset : String) (price qty fee : Value) (b : PaperBroker F T)
      → (reduce F p asset price qty fee b).orders ≡ b.orders
  unfolding reduce open_short
  reduce-orders p asset price qty fee b = ground arith

  buy_fill-orders :
      (p : Option (Position F)) (asset : String) (price qty fee : Value) (b : PaperBroker F T)
      → (buy_fill F p asset price qty fee b).orders ≡ b.orders
  unfolding buy_fill update_position
  buy_fill-orders none asset price qty fee b = ground arith
  buy_fill-orders (some p) asset price qty fee b =
      ground (arith, cover-orders p asset price qty fee b)

  abbrev SameOrders : PaperBroker F T → Option (PaperBroker F T) → Type 0
  SameOrders b none = Unit
  SameOrders b (some b') = b'.orders ≡ b.orders

  sell_fill-SameOrders :
      (p : Option (Position F)) (asset : String) (price qty fee : Value) (b : PaperBroker F T)
      → SameOrders b (sell_fill F p asset price qty fee b)
  unfolding sell_fill open_short
  sell_fill-SameOrders none asset price qty fee b = ground arith
  sell_fill-SameOrders (some p) asset price qty fee b =
      ground (arith, reduce-orders p asset price qty fee b)

  apply_fill-SameOrders :
      (o : Order F) (price qty fee : Value) (b : PaperBroker F T)
      → SameOrders b (apply_fill F o price qty fee b)
  unfolding apply_fill
  apply_fill-SameOrders o price qty fee b = ground (
    arith,
    buy_fill-orders (get o.asset b.positions) o.asset price qty fee b,
    sell_fill-SameOrders (get o.asset b.positions) o.asset price qty fee b,
  )

  abbrev status_of : Option (Order F) → OrderStatus
  status_of none = unknown
  status_of (some o) = o.status

  get_order_status-status_of :
      (j : String) (b : PaperBroker F T) → get_order_status F j b ≡ status_of (get j b.orders)
  unfolding get_order_status
  get_order_status-status_of j b = ground arith

  get_order_status-put :
      (j id : String) (o : Order F) (b b' : PaperBroker F T)
      → b'.orders ≡ put id o b.orders
      → get_order_status F j b' ≡ (if str_eq id j then o.status else get_order_status F j b)
  get_order_status-put j id o b b' h =
      let now = get_order_status-status_of j b' in
      let before = get_order_status-status_of j b in
      let entry = ap status_of (ap (get j) h ∙ get-put id j o b.orders) in
      ground (arith, now, before, entry)

  finalize_order-Fills :
      (o : Order F) (b b' : PaperBroker F T)
      → b'.orders ≡ b.orders
      → Fills b (finalize_order F s o b')
  unfolding finalize_order
  finalize_order-Fills o b b' h =
      let id = s.str_of b'.next_order_id in
      let done : Order F = record o { order_id = id; status = filled } in
      let after = λ (j : String).
        get_order_status-put j id done b (finalize_order F s o b').0 (ap (put id done) h) in
      (λ j k. ground (arith, after j, k), λ k. ground (arith, after id, eq_iff id id))

  refused : (o : Order F) (b b' : PaperBroker F T) → b'.orders ≡ b.orders → Fills b (b', (o, ""))
  unfolding get_order_status
  refused o b b' h = (
    λ j k. ap (λ d. elim (get j d) [ none ↦ unknown | some o ↦ o.status ]) h ∙ k,
    λ k. ground (arith, eq_iff "" "", k),
  )

  booked-Fills :
      (o : Order F) (b : PaperBroker F T) (x : Option (PaperBroker F T))
      → SameOrders b x
      → Fills b (booked F s o b x)
  unfolding booked
  booked-Fills o b none h = refused o b b refl
  booked-Fills o b (some b') h = finalize_order-Fills o b b' h

  execute-Fills :
      (o : Order F) (price : Value) (b : PaperBroker F T) → Fills b (execute F s o price b)
  unfolding execute
  execute-Fills o price b = booked-Fills _ b _ (apply_fill-SameOrders o price _ _ b)

  either-Fills :
      (c : Bool) (b : PaperBroker F T) (r r' : PaperBroker F T × (Order F × String))
      → Fills b r
      → Fills b r'
      → Fills b (if c then r else r')
  either-Fills true b r r' h h' = h
  either-Fills false b r r' h h' = h'

  place_filled_order-Fills :
      (o : Order F) (price : Value) (b : PaperBroker F T)
      → Fills b (place_filled_order F s o price b)
  unfolding place_filled_order
  place_filled_order-Fills o price b =
      either-Fills (le F price (F.lit 0 0)) b _ _ (refused o b b refl) (execute-Fills o price b)

  -- the same book behind another state of the broker
  carry :
      (b b' : PaperBroker F T) (r : PaperBroker F T × (Order F × String))
      → b'.orders ≡ b.orders
      → Fills b' r
      → Fills b r
  carry b b' r h f = (
    λ j k. f.0 j (
        get_order_status-status_of j b'
        ∙ ap (λ d. status_of (get j d)) h
        ∙ sym (get_order_status-status_of j b)
        ∙ k),
    f.1,
  )

  get_current_price-orders :
      (asset : String) (b : PaperBroker F T) → (get_current_price F s asset b).0.orders ≡ b.orders
  unfolding get_current_price
  get_current_price-orders asset b = ground arith

  pub place_order-Fills : (o : Order F) (b : PaperBroker F T) → Fills b (place_order F s o b)
  unfolding place_order
  place_order-Fills o b =
      let (b', price) = get_current_price F s o.asset b in
      let (t, total) = s.slippage o price b'.tracking in
      let same = get_current_price-orders o.asset b in
      either-Fills (le F price (F.lit 0 0)) b _ _ (refused o b b' same) (
        carry b (record b' { tracking = t })
          (execute F s o (slipped F o.side price total) (record b' { tracking = t })) same
          (execute-Fills o (slipped F o.side price total) (record b' { tracking = t })))

  pub place-Fills :
      (o : Order F) (price : Option Value) (b : PaperBroker F T)
      → Fills b (place F (paper_api F s) o price b)
  unfolding place paper_api
  place-Fills o none b = place_order-Fills o b
  place-Fills o (some price) b = place_filled_order-Fills o price b
