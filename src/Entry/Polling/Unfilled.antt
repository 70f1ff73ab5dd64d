-- ===== src/Entry/Polling/Unfilled.antt =====
-- What a poll can make of a deferred entry.
use quorrin.Base.{
  ℕ, String, ◌≡◌, refl, ◌∙◌, Bool, true, false, sym, subst, ◌||◌, Option, none, some, List, [], ◌∷◌,
  All, arith, Float,
}
use quorrin.Position.{PositionSide, long, short}
use quorrin.Entry.{TradeDecision, EntryAction, enter, defer, skip, exit, handle}
use quorrin.Entry.Deferred.{DeferredEntry, update, cancel, from_decision}
use quorrin.Entry.Gate.{StopOut, GateConfig, Refusal, same_side, can_enter, refuse_late}
use quorrin.Entry.Polling.{
  PollContext, Waiting, Polled, keep, drop_it, raise, has_side, act, gated, poll_active, poll_entry,
  poll_loop, cancel_all_pending, poll_all, in_front, Verdict, any_raised, is_raise, any_raised,
  kept, poll_pending_entries, conclude, put_entry,
}

abbrev pub is_some : {A : Type 0} → Option A → Bool
is_some none = false
is_some (some _) = true

module _ (F : Float) where
  can_enter-pending :
      (half_pow : F.Value → F.Value) (c : GateConfig) (cycle flip : ℕ) (side : PositionSide)
      (s : StopOut F)
      → is_some (can_enter F half_pow c cycle flip true side s).1 ≡ true
  unfolding can_enter refuse_late
  can_enter-pending half_pow c cycle flip side s = ground arith

  abbrev pub IsUnfilled : Polled F → Type 0
  IsUnfilled p = (p.entry.trigger_price ≡ none) × (is_raise F p.fate ≡ false)

  cancel-trigger_price : (e : DeferredEntry F) → (cancel F e).trigger_price ≡ e.trigger_price
  unfolding cancel
  cancel-trigger_price e = ground arith

  act_enter-IsUnfilled :
      (d : PositionSide) (e : DeferredEntry F) (r : Option Refusal) (close : F.Value)
      → e.trigger_price ≡ none
      → is_some r ≡ true
      → IsUnfilled (record {
        direction = d;
        entry = (act F enter e r close).0;
        fate = (act F enter e r close).1;
      })
  unfolding act
  act_enter-IsUnfilled d e none close h k = ground arith
  act_enter-IsUnfilled d e (some r) close h k = (cancel-trigger_price e ∙ h, refl)

  -- the packet of an action asks the gate, which refuses an entry that is waiting
  act-IsUnfilled :
      (c : PollContext F) (a : EntryAction) (d : PositionSide) (e : DeferredEntry F) (s : StopOut F)
      → e.trigger_price ≡ none
      → let r = (gated F c a true d s).1 in
        IsUnfilled (record {
          direction = d;
          entry = (act F a e r c.close).0;
          fate = (act F a e r c.close).1;
        })
  unfolding act gated
  act-IsUnfilled c enter d e s h =
      act_enter-IsUnfilled d e _ c.close h
        (can_enter-pending c.half_pow c.gate c.cycle c.last_flip d s)
  act-IsUnfilled c skip d e s h = (cancel-trigger_price e ∙ h, refl)
  act-IsUnfilled c defer d e s h = (h, refl)
  act-IsUnfilled c exit d e s h = (h, refl)

  poll_active-IsUnfilled :
      (c : PollContext F) (d : PositionSide) (e : DeferredEntry F) (s : StopOut F)
      → e.trigger_price ≡ none
      → IsUnfilled (poll_active F c true d e s).1
  unfolding poll_active handle
  poll_active-IsUnfilled c d e s h = act-IsUnfilled c _ d e s h

  poll_entry-IsUnfilled :
      (c : PollContext F) (d : PositionSide) (e : DeferredEntry F) (s : StopOut F)
      → e.trigger_price ≡ none
      → IsUnfilled (poll_entry F c true d e s).1
  unfolding poll_entry update
  poll_entry-IsUnfilled c d e s h =
      ground (arith, cancel-trigger_price e, poll_active-IsUnfilled c d (update F e) s)

  -- An entry of a list that has its side in a dictionary.
  abbrev IsIn : List (PositionSide × DeferredEntry F) → PositionSide × DeferredEntry F → Type 0
  IsIn all (d, e) = has_side d all ≡ true

  abbrev pub HasNoFill : PositionSide × DeferredEntry F → Type 0
  HasNoFill (d, e) = e.trigger_price ≡ none

  in_front-IsUnfilled :
      (p : Polled F) (v : Verdict) (rest : List (PositionSide × DeferredEntry F)) (s : StopOut F)
      (r : StopOut F × List (Polled F))
      → IsUnfilled p
      → is_raise F v ≡ false
      → All IsUnfilled r.1
      → All IsUnfilled (in_front F p v rest s r).1
  in_front-IsUnfilled p raise rest s r h k hs = ground arith
  in_front-IsUnfilled p keep rest s r h k hs = (h, hs)
  in_front-IsUnfilled p drop_it rest s r h k hs = (h, hs)

  poll_loop-IsUnfilled :
      (c : PollContext F) (all rest : List (PositionSide × DeferredEntry F)) (s : StopOut F)
      → All (IsIn all) rest
      → All HasNoFill rest
      → All IsUnfilled (poll_loop F c all rest s).1
  unfolding poll_loop
  poll_loop-IsUnfilled c all [] s i h = tt
  poll_loop-IsUnfilled c all ((d, e) ∷ rest) s i h =
      let first : IsUnfilled (poll_entry F c (has_side d all) d e s).1 =
        subst (λ b. IsUnfilled (poll_entry F c b d e s).1) (sym i.0)
          (poll_entry-IsUnfilled c d e s h.0) in
      in_front-IsUnfilled (poll_entry F c (has_side d all) d e s).1 _ rest _ _ first first.1
        (poll_loop-IsUnfilled c all rest (poll_entry F c (has_side d all) d e s).0 i.1 h.1)

  IsIn-more :
      (d : PositionSide) (e : DeferredEntry F) (all es : List (PositionSide × DeferredEntry F))
      → All (IsIn all) es
      → All (IsIn ((d, e) ∷ all)) es
  IsIn-more d e all [] h = tt
  IsIn-more d e all ((d', e') ∷ es) h = (ground (arith, h.0), IsIn-more d e all es h.1)

  IsIn-self : (es : List (PositionSide × DeferredEntry F)) → All (IsIn es) es
  IsIn-self [] = tt
  IsIn-self ((d, e) ∷ es) = (
    elim d as (λ k. same_side k k || has_side k es ≡ true) [ long ↦ refl | short ↦ refl ],
    IsIn-more d e es es (IsIn-self es),
  )

  cancel_all_pending-IsUnfilled :
      (es : List (PositionSide × DeferredEntry F))
      → All HasNoFill es
      → All IsUnfilled (cancel_all_pending F es)
  unfolding cancel_all_pending
  cancel_all_pending-IsUnfilled [] h = tt
  cancel_all_pending-IsUnfilled ((d, e) ∷ es) h =
      ((cancel-trigger_price e ∙ h.0, refl), cancel_all_pending-IsUnfilled es h.1)

  poll_all-IsUnfilled :
      (c : PollContext F) (w : Waiting F)
      → All HasNoFill w.entries
      → All IsUnfilled (poll_all F c w).1
  unfolding poll_all
  poll_all-IsUnfilled c w h = ground (
    arith,
    cancel_all_pending-IsUnfilled w.entries h,
    poll_loop-IsUnfilled c w.entries w.entries w.stop_out (IsIn-self w.entries) h,
  )

  any_raised-false : (ps : List (Polled F)) → All IsUnfilled ps → any_raised F ps ≡ false
  unfolding any_raised
  any_raised-false [] h = refl
  any_raised-false (p ∷ ps) h = ground (arith, any_raised-false ps h.1, h.0)

  kept-HasNoFill : (ps : List (Polled F)) → All IsUnfilled ps → All HasNoFill (kept F ps)
  unfolding kept
  kept-HasNoFill [] h = tt
  kept-HasNoFill (p ∷ ps) h = ground (arith, kept-HasNoFill ps h.1, h.0)

  conclude-HasNoFill :
      (s : StopOut F) (ps : List (Polled F))
      → All IsUnfilled ps
      → ((conclude F (s, ps)).1 ≡ false) × All HasNoFill (conclude F (s, ps)).0.entries
  unfolding conclude
  conclude-HasNoFill s ps h = rw (any_raised-false ps h) (refl, kept-HasNoFill ps h)

  put_entry-HasNoFill :
      (d : PositionSide) (e : DeferredEntry F) (es : List (PositionSide × DeferredEntry F))
      → e.trigger_price ≡ none
      → All HasNoFill es
      → All HasNoFill (put_entry F d e es)
  unfolding put_entry
  put_entry-HasNoFill d e [] h hs = (h, tt)
  put_entry-HasNoFill d e ((d', e') ∷ es) h hs =
      ground (arith, put_entry-HasNoFill d e es h hs.1, hs.0)

  -- What happens to the deferred entries of an asset: a decision is put off, or a bar polls them.
  pub data Event : Type 1 where
    on_defer : PositionSide → (TradeDecision F → String) → F.Value → TradeDecision F → ℕ → Event
    on_poll : PollContext F → Event

  abbrev pub run_event : Event → Waiting F → Waiting F × Bool
  run_event (on_defer side digest now d max_bars) w = (
    record w { entries = put_entry F side (from_decision F digest now d max_bars) w.entries },
    false,
  )
  run_event (on_poll c) w = poll_pending_entries F c w

  -- The state behind all events, and whether one of them raised.
  abbrev pub run_events : List Event → Waiting F → Waiting F × Bool
  run_events [] w = (w, false)
  run_events (v ∷ vs) w =
      let (w', raised) = run_event v w in
      let (w'', more) = run_events vs w' in (w'', raised || more)

  run_event-HasNoFill :
      (v : Event) (w : Waiting F)
      → All HasNoFill w.entries
      → ((run_event v w).1 ≡ false) × All HasNoFill (run_event v w).0.entries
  unfolding poll_pending_entries from_decision
  run_event-HasNoFill (on_defer side digest now d max_bars) w h =
      (refl, put_entry-HasNoFill side _ w.entries refl h)
  run_event-HasNoFill (on_poll c) w h =
      conclude-HasNoFill (poll_all F c w).0 (poll_all F c w).1 (poll_all-IsUnfilled c w h)

  -- However decisions are put off and polled, no deferred entry is ever filled: none gets as far
  -- as the call that opens a position, which would raise. The entry gate refuses every side that
  -- has a pending entry, and the entry that is polled is one itself.
  pub run_events-HasNoFill :
      (vs : List Event) (w : Waiting F)
      → All HasNoFill w.entries
      → ((run_events vs w).1 ≡ false) × All HasNoFill (run_events vs w).0.entries
  run_events-HasNoFill [] w h = (refl, h)
  run_events-HasNoFill (v ∷ vs) w h =
      let one = run_event-HasNoFill v w h in
      let more = run_events-HasNoFill vs (run_event v w).0 one.1 in (rw one.0 more.0, more.1)
