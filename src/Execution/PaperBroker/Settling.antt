-- ===== src/Execution/PaperBroker/Settling.antt =====
-- The order manager over the paper broker.
use text.Mathlib.Text.{◌==◌ as str_eq}
use text.Mathlib.TextEquality.{eq_iff}
use quorrin.Base.{
  String, ◌≡◌, refl, ap, sym, ◌∙◌, ◌⊎◌, inl, inr, Bool-cases, subst, Bool, true, false, Option,
  none, some, List, [], ◌∷◌, if◌then◌else◌, arith, Float,
}
use quorrin.Base.Dict.{get, get-put}
use quorrin.Execution.Orders.{
  Order, filled, OrderManager, check_pending_orders, submit_market_order, submit_limit_order,
  cancel_order, cancelled_at, place, new_order, market, limit, follow_unless, place,
}
use quorrin.Execution.PaperBroker.{place_order, get_order_status, paper_api}
use quorrin.Execution.PaperBroker.Records.{PaperBroker, Services}
use quorrin.Execution.Orders.Refinement.{
  Call, on_market, on_limit, on_cancel, on_check, run_call, run_calls, check_pending_orders-get,
  is_decided, decided_at,
}
use quorrin.Execution.PaperBroker.Filling.{Fills, place-Fills, place_order-Fills}

module _ (F : Float) {T : Type 0} (s : Services F T) where
  open F use {Value}

  -- Every pending order with an id is filled in the broker's book.
  abbrev pub Known : OrderManager F (PaperBroker F T) → Type 0
  Known m =
      (j : String)
      → str_eq j "" ≡ false
      → (get j m.pending_orders ≡ none) ⊎ (get_order_status F j m.broker ≡ filled)

  follow_unless-Known :
      (r : Bool) (m : OrderManager F (PaperBroker F T)) (p : PaperBroker F T × (Order F × String))
      → Known m
      → Fills F s m.broker p
      → Known (follow_unless F r p.1.1 p.1.0 p.0 m)
  unfolding follow_unless
  follow_unless-Known true m p h f = λ j n. elim (h j n) [ inl e ↦ inl e | inr k ↦ inr (f.0 j k) ]
  follow_unless-Known false m (b, (o, id)) h f = λ j n. elim (Bool-cases (str_eq id j)) [
    | inl same ↦
        let e : id ≡ j = (eq_iff id j).0 same in
        inr (
          subst (λ k. get_order_status F k b ≡ filled) e
            (f.1 (subst (λ k. str_eq k "" ≡ false) (sym e) n)))
    | inr other ↦
        let entry = get-put id j (record o { order_id = id }) m.pending_orders in
        elim (h j n) [ inl e ↦ inl (ground (arith, entry, other, e)) | inr k ↦ inr (f.0 j k) ]
  ]

  decided_at-filled :
      (b : PaperBroker F T) (j : String) (x : Option (Order F))
      → get_order_status F j b ≡ filled
      → decided_at F (paper_api F s) b j x ≡ none
  unfolding paper_api
  decided_at-filled b j none k = refl
  decided_at-filled b j (some o) k = ap (λ v. if is_decided v then none else some o) k

  check_pending_orders-none :
      (m : OrderManager F (PaperBroker F T)) (j : String)
      → Known m
      → str_eq j "" ≡ false
      → get j (check_pending_orders F (paper_api F s) m).pending_orders ≡ none
  check_pending_orders-none m j h n =
      let (broker, entry) = check_pending_orders-get F (paper_api F s) j m in
      entry ∙ elim (h j n) [
        | inl e ↦ ap (decided_at F (paper_api F s) m.broker j) e
        | inr k ↦ decided_at-filled m.broker j (get j m.pending_orders) k
      ]

  cancelled_at-Known :
      (x : Option (Order F)) (id : String) (m : OrderManager F (PaperBroker F T))
      → Known m
      → Known (cancelled_at F x id m.broker false m).0
  unfolding cancelled_at
  cancelled_at-Known none id m h = h
  cancelled_at-Known (some o) id m h = h

  run_call-Known :
      (c : Call F) (m : OrderManager F (PaperBroker F T))
      → Known m
      → Known (run_call F (paper_api F s) c m)
  unfolding submit_market_order submit_limit_order cancel_order follow_unless paper_api
  run_call-Known (on_market asset side quantity price sl tp) m h =
      let o = new_order F market asset side quantity none sl tp in
      let p = place F (paper_api F s) o price m.broker in
      follow_unless-Known (str_eq p.1.1 "") m p h (place-Fills F s o price m.broker)
  run_call-Known (on_limit asset side quantity price) m h =
      let o = new_order F limit asset side quantity (some price) none none in
      follow_unless-Known false m (place_order F s o m.broker) h (place_order-Fills F s o m.broker)
  run_call-Known (on_cancel id) m h = cancelled_at-Known (get id m.pending_orders) id m h
  run_call-Known on_check m h = λ j n. inl (check_pending_orders-none m j h n)

  run_calls-Known :
      (cs : List (Call F)) (m : OrderManager F (PaperBroker F T))
      → Known m
      → Known (run_calls F (paper_api F s) cs m)
  run_calls-Known [] m h = h
  run_calls-Known (c ∷ cs) m h =
      run_calls-Known cs (run_call F (paper_api F s) c m) (run_call-Known c m h)

  -- Over the paper broker every order settles: whatever calls came before, from a manager whose
  -- pending orders are filled in the broker's book, behind a check no order with an id is pending
  -- any more.
  pub check_pending_orders-settled :
      (cs : List (Call F)) (m : OrderManager F (PaperBroker F T)) (j : String)
      → Known m
      → str_eq j "" ≡ false
      → get j
          (check_pending_orders F (paper_api F s) (run_calls F (paper_api F s) cs m)).pending_orders
        ≡ none
  check_pending_orders-settled cs m j h n =
      check_pending_orders-none (run_calls F (paper_api F s) cs m) j (run_calls-Known cs m h) n
