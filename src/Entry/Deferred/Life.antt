-- ===== src/Entry/Deferred/Life.antt =====
-- The life of a deferred entry under any sequence of calls.
use quorrin.Base.{
  ℕ, zero, suc, ◌+◌, ◌≤◌, ◌≡◌, refl, ◌∙◌, sym, subst, false, Option, List, [], ◌∷◌, ltb,
  if◌then◌else◌, arith, Float,
}
use quorrin.Entry.Deferred.{
  DeferredEntry, DeferredEntryStatus, pending, expired, update, trigger, cancel, close, is_active,
  is_pending, aged,
}

pub data Call (F : Float) : Type 0 where
  on_update : Call F
  on_trigger : F.Value → Call F
  on_cancel : Call F
  on_close : Call F

module _ (F : Float) where
  abbrev pub updates : ℕ → DeferredEntry F → DeferredEntry F
  updates zero e = e
  updates (suc n) e = updates n (update F e)

  abbrev pub run_call : Call F → DeferredEntry F → DeferredEntry F
  run_call on_update e = update F e
  run_call (on_trigger price) e = trigger F price e
  run_call on_cancel e = cancel F e
  run_call on_close e = close F e

  abbrev pub run_calls : List (Call F) → DeferredEntry F → DeferredEntry F
  run_calls [] e = e
  run_calls (c ∷ cs) e = run_calls cs (run_call c e)

  abbrev at_status : DeferredEntry F → ℕ → DeferredEntryStatus → DeferredEntry F
  at_status e bars s = record e { bars_elapsed = bars; status = s }

  updates-expired :
      (n bars : ℕ) (e : DeferredEntry F) → (updates n (at_status e bars expired)).status ≡ expired
  unfolding update aged
  updates-expired zero bars e = refl
  updates-expired (suc n) bars e = updates-expired n (bars + 1) e

  updates-pending :
      (n bars : ℕ) (e : DeferredEntry F)
      → bars ≤ e.max_bars
      → (updates n (at_status e bars pending)).status
        ≡ (if ltb e.max_bars (bars + n) then expired else pending)
  unfolding update aged
  updates-pending zero bars e h = ground arith
  updates-pending (suc n) bars e h =
      ground (arith, updates-expired n (bars + 1) e, updates-pending n (bars + 1) e)

  -- A pending entry that is not past its last bar yet is pending as long as no more than
  -- `max_bars` bars have passed, and expired behind that: no pending entry waits forever.
  pub updates-status :
      (n : ℕ) (e : DeferredEntry F)
      → e.status ≡ pending
      → e.bars_elapsed ≤ e.max_bars
      → (updates n e).status ≡ (if ltb e.max_bars (e.bars_elapsed + n) then expired else pending)
  updates-status n e p h =
      subst
        (λ s.
          (updates n (at_status e e.bars_elapsed s)).status
          ≡ (if ltb e.max_bars (e.bars_elapsed + n) then expired else pending))
        (sym p) (updates-pending n e.bars_elapsed e h)

  -- no longer active, with a given fill
  abbrev pub IsSettled : Option F.Value → DeferredEntry F → Type 0
  IsSettled fill e = (is_active F e ≡ false) × (e.trigger_price ≡ fill)

  run_call_settles :
      (c : Call F) (s : DeferredEntryStatus) (e : DeferredEntry F)
      → is_pending F s ≡ false
      → IsSettled e.trigger_price (run_call c (record e { status = s }))
  unfolding update trigger cancel close aged is_active
  run_call_settles on_update s e h = ground arith
  run_call_settles (on_trigger price) s e h = ground arith
  run_call_settles on_cancel s e h = ground arith
  run_call_settles on_close s e h = (refl, refl)

  run_calls_settle :
      (cs : List (Call F)) (fill : Option F.Value) (e : DeferredEntry F)
      → IsSettled fill e
      → IsSettled fill (run_calls cs e)
  unfolding is_active
  run_calls_settle [] fill e h = h
  run_calls_settle (c ∷ cs) fill e h =
      let r = run_call_settles c e.status e h.0 in
      run_calls_settle cs fill (run_call c e) (r.0, r.1 ∙ h.1)

  -- Once an entry is no longer active, no sequence of updates, fills, cancellations and closings
  -- makes it active again or changes the price at which it was filled.
  pub run_calls-IsSettled :
      (cs : List (Call F)) (e : DeferredEntry F)
      → is_active F e ≡ false
      → IsSettled e.trigger_price (run_calls cs e)
  run_calls-IsSettled cs e h = run_calls_settle cs e.trigger_price e (h, refl)
