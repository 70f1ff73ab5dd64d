-- ===== src/Execution/Orders/Refinement.antt =====
-- The pending orders of a manager against an abstract book: a function from ids to orders.
use text.Mathlib.Text.{◌==◌ as str_eq}
use text.Mathlib.TextEquality.{eq_iff}
use mathlib.Core.Path.{fun_ext}
use quorrin.Base.{
  String, ◌≡◌, refl, ap, ◌∙◌, Bool, true, false, ◌&&◌, inl, inr, Bool-cases, Option, none, some,
  List, [], ◌∷◌, if◌then◌else◌, arith, Float,
}
use quorrin.Base.Dict.{Dict, get, get-put, get-remove}
use quorrin.Execution.Orders.{
  Order, OrderSide, OrderStatus, pending, filled, cancelled, unknown, BrokerInterface, OrderManager,
  submit_market_order, submit_limit_order, cancel_order, cancelled_at, check_order, check_orders,
  check_pending_orders, place, follow_unless, new_order, market, limit,
}

abbrev pub is_decided : OrderStatus → Bool
is_decided filled = true
is_decided cancelled = true
is_decided pending = false
is_decided unknown = false

-- The abstract state: the broker, and the order under each id.
pub record Book (F : Float) (B : Type 0) : Type 0 where
  pub broker : B
  pub order_at : String → Option (Order F)

-- A call of the manager.
pub data Call (F : Float) : Type 0 where
  on_market :
      String → OrderSide → F.Value → Option F.Value → Option F.Value → Option F.Value → Call F
  on_limit : String → OrderSide → F.Value → F.Value → Call F
  on_cancel : String → Call F
  on_check : Call F

module _ (F : Float) {B : Type 0} (api : BrokerInterface F B) where
  abbrev pub run_call : Call F → OrderManager F B → OrderManager F B
  run_call (on_market asset side quantity price sl tp) m =
      (submit_market_order F api asset side quantity price sl tp m).0
  run_call (on_limit asset side quantity price) m =
      (submit_limit_order F api asset side quantity price m).0
  run_call (on_cancel id) m = (cancel_order F api id m).0
  run_call on_check m = check_pending_orders F api m

  abbrev pub run_calls : List (Call F) → OrderManager F B → OrderManager F B
  run_calls [] m = m
  run_calls (c ∷ cs) m = run_calls cs (run_call c m)

  -- an order under an id
  abbrev enter : String → Order F → B → Book F B → Book F B
  enter id o b s = record {
    broker = b;
    order_at = λ j. if str_eq id j then some (record o { order_id = id }) else s.order_at j;
  }

  abbrev enter_unless : Bool → String → Order F → B → Book F B → Book F B
  enter_unless true id o b s = record s { broker = b }
  enter_unless false id o b s = enter id o b s

  -- no order under an id that has one, where the broker agrees
  abbrev take_away : Option (Order F) → String → B → Bool → Book F B → Book F B
  take_away none id b ok s = s
  take_away (some o) id b false s = record s { broker = b }
  take_away (some o) id b true s = record {
    broker = b;
    order_at = λ j. if str_eq id j then none else s.order_at j;
  }

  abbrev pub decided_at : B → String → Option (Order F) → Option (Order F)
  decided_at b j none = none
  decided_at b j (some o) = if is_decided (api.get_order_status j b) then none else some o

  -- The contract: a submission enters an order, unless it is a refused market order; a
  -- cancellation takes away the order that the broker cancels; a check takes away every order
  -- that the broker reports as filled or cancelled, and no other.
  abbrev pub book_call : Call F → Book F B → Book F B
  book_call (on_market asset side quantity price sl tp) s =
      let (b, (o, id)) =
        place F api (new_order F market asset side quantity none sl tp) price s.broker in
      enter_unless (str_eq id "") id o b s
  book_call (on_limit asset side quantity price) s =
      let (b, (o, id)) =
        api.place_order (new_order F limit asset side quantity (some price) none none) s.broker in
      enter id o b s
  book_call (on_cancel id) s =
      let (b, ok) = api.cancel_order id s.broker in take_away (s.order_at id) id b ok s
  book_call on_check s = record s { order_at = λ j. decided_at s.broker j (s.order_at j) }

  abbrev pub book_calls : List (Call F) → Book F B → Book F B
  book_calls [] s = s
  book_calls (c ∷ cs) s = book_calls cs (book_call c s)

  -- The view of a manager: it forgets the order of the pending orders, and the settled ones.
  abbrev pub view : OrderManager F B → Book F B
  view m = record { broker = m.broker; order_at = λ j. get j m.pending_orders }

  -- a book from its broker and its orders
  abbrev book : B → (String → Option (Order F)) → Book F B
  book b f = record { broker = b; order_at = f }

  book-eq :
      (b b' : B) (f g : String → Option (Order F))
      → b ≡ b'
      → ((j : String) → f j ≡ g j)
      → book b f ≡ book b' g
  book-eq b b' f g p q = ap (λ c. book c f) p ∙ ap (book b') (fun_ext q)

  -- the pending order at an id behind the check of one order
  check_order-get :
      (v : OrderStatus) (id j : String) (o : Order F) (m : OrderManager F B)
      → ((check_order F v id o m).broker ≡ m.broker)
        × (get j (check_order F v id o m).pending_orders
            ≡ (if is_decided v && str_eq id j then none else get j m.pending_orders))
  unfolding check_order
  check_order-get pending id j o m = (refl, refl)
  check_order-get filled id j o m = (refl, get-remove id j m.pending_orders)
  check_order-get cancelled id j o m = (refl, get-remove id j m.pending_orders)
  check_order-get unknown id j o m = (refl, refl)

  abbrev listed : String → Dict (Order F) → Bool
  listed j [] = false
  listed j ((id, o) ∷ rest) = if str_eq id j then true else listed j rest

  -- the check of the first order and of the rest, at one id
  check-joined :
      (b : B) (id j : String) (l : Bool) (x y : Option (Order F))
      → x ≡ (if is_decided (api.get_order_status id b) && str_eq id j then none else y)
      → (if is_decided (api.get_order_status j b) && l then none else x) ≡ (
          if is_decided (api.get_order_status j b) && (if str_eq id j then true else l)
          then none
          else y)
  check-joined b id j l x y h = elim (Bool-cases (str_eq id j)) [
    | inl same ↦
        let e = ap (λ k. is_decided (api.get_order_status k b)) ((eq_iff id j).0 same) in
        ground (arith, h, e, same)
    | inr other ↦ ground (arith, h, other)
  ]

  check_orders-get :
      (j : String) (rest : Dict (Order F)) (m : OrderManager F B)
      → ((check_orders F api rest m).broker ≡ m.broker)
        × (get j (check_orders F api rest m).pending_orders ≡ (
            if is_decided (api.get_order_status j m.broker) && listed j rest
            then none
            else get j m.pending_orders))
  unfolding check_orders
  check_orders-get j [] m = (refl, ground arith)
  check_orders-get j ((id, o) ∷ rest) m =
      let v = api.get_order_status id m.broker in
      let (b, g) = check_order-get v id j o m in
      let (b', g') = check_orders-get j rest (check_order F v id o m) in
      (
        b' ∙ b,
        g'
            ∙ ap
                (λ a.
                  if is_decided (api.get_order_status j a) && listed j rest
                  then none
                  else get j (check_order F v id o m).pending_orders)
                b
            ∙ check-joined m.broker id j (listed j rest) _ _ g,
      )

  listed-get : (j : String) (d : Dict (Order F)) → listed j d ≡ false → get j d ≡ none
  unfolding get
  listed-get j [] h = refl
  listed-get j ((id, o) ∷ d) h = ground (arith, listed-get j d)

  pub check_pending_orders-get :
      (j : String) (m : OrderManager F B)
      → ((check_pending_orders F api m).broker ≡ m.broker)
        × (get j (check_pending_orders F api m).pending_orders
            ≡ decided_at m.broker j (get j m.pending_orders))
  unfolding check_pending_orders
  check_pending_orders-get j m =
      let (b, g) = check_orders-get j m.pending_orders m in
      (b, ground (arith, g, listed-get j m.pending_orders))

  view-follow_unless :
      (r : Bool) (id : String) (o : Order F) (b : B) (m : OrderManager F B)
      → view (follow_unless F r id o b m) ≡ enter_unless r id o b (view m)
  unfolding follow_unless
  view-follow_unless true id o b m = refl
  view-follow_unless false id o b m = book-eq b b _ _ refl (λ j. get-put id j _ m.pending_orders)

  view-cancelled_at :
      (x : Option (Order F)) (id : String) (b : B) (ok : Bool) (m : OrderManager F B)
      → view (cancelled_at F x id b ok m).0 ≡ take_away x id b ok (view m)
  unfolding cancelled_at
  view-cancelled_at none id b ok m = refl
  view-cancelled_at (some o) id b false m = refl
  view-cancelled_at (some o) id b true m =
      book-eq b b _ _ refl (λ j. get-remove id j m.pending_orders)

  -- one call, seen through the view
  view-run_call : (c : Call F) (m : OrderManager F B) → view (run_call c m) ≡ book_call c (view m)
  unfolding submit_market_order submit_limit_order cancel_order follow_unless
  view-run_call (on_market asset side quantity price sl tp) m =
      let (b, (o, id)) =
        place F api (new_order F market asset side quantity none sl tp) price m.broker in
      view-follow_unless (str_eq id "") id o b m
  view-run_call (on_limit asset side quantity price) m =
      let (b, (o, id)) =
        api.place_order (new_order F limit asset side quantity (some price) none none) m.broker in
      view-follow_unless false id o b m
  view-run_call (on_cancel id) m =
      let (b, ok) = api.cancel_order id m.broker in
      view-cancelled_at (get id m.pending_orders) id b ok m
  view-run_call on_check m =
      book-eq _ _ _ _ (check_pending_orders-get "" m).0 (λ j. (check_pending_orders-get j m).1)

  -- The manager implements its contract over any broker: a run of calls, seen as the broker's
  -- state and a function from ids to pending orders, is the run of the same calls on that
  -- abstract book. Only the order in which pending orders are stored is forgotten, and the lists
  -- of the settled ones.
  pub run_calls-book_calls :
      (cs : List (Call F)) (m : OrderManager F B) → view (run_calls cs m) ≡ book_calls cs (view m)
  run_calls-book_calls [] m = refl
  run_calls-book_calls (c ∷ cs) m =
      run_calls-book_calls cs (run_call c m) ∙ ap (book_calls cs) (view-run_call c m)
