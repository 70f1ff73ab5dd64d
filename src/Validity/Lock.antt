-- ===== src/Validity/Lock.antt =====
-- The regime persistence lock: how often the state can change, and what the history records.
use quorrin.Base.{
  ℕ, ◌+◌, ◌*◌, ◌≤◌, ◌≡◌, ◌≢◌, ◌⊎◌, inl, inr, refl, sym, subst, ◌∙◌, some, Bool, true, false,
  Bool-cases, Option, List, [], ◌∷◌, ◌++◌, length, length-append, arith, Float,
}
use quorrin.Validity.{
  ValidityState, green, yellow, red, same, Config, Reason, StateTransition, Machine, transition,
  settle, check_regime_persistence_lock, process_rows,
}

same-eq : (a b : ValidityState) → same a b ≡ true → a ≡ b
same-eq green b h = ground arith
same-eq yellow b h = ground arith
same-eq red b h = ground arith

same-ne : (a b : ValidityState) → same a b ≡ false → a ≢ b
same-ne green b h = ground arith
same-ne yellow b h = ground arith
same-ne red b h = ground arith

same_refl : (a : ValidityState) → same a a ≡ true
same_refl green = refl
same_refl yellow = refl
same_refl red = refl

-- A history that leads from the first state to the second, each entry a change.
abbrev pub Leads :
    {F : Float} {Time : Type 0}
    → ValidityState
    → List (StateTransition F Time)
    → ValidityState
    → Type 0
Leads s [] e = s ≡ e
Leads s (t ∷ ts) e = (t.from_state ≡ s) × (t.from_state ≢ t.to_state) × Leads t.to_state ts e

module _ (F : Float) (Time : Type 0) (std : List F.Value → Option F.Value) (c : Config F) where
  -- What one observation did: kept the state, or changed it after the lock had run out.
  abbrev pub Settled : Machine F Time → Machine F Time → Type 0
  Settled m m' =
      ((m'.current_state ≡ m.current_state)
        × (m'.state_history ≡ m.state_history)
        × (m'.periods_in_current_state ≡ m.periods_in_current_state + 1))
      ⊎ ((e : StateTransition F Time) × (m'.state_history ≡ m.state_history ++ e ∷ [])
          × (e.from_state ≡ m.current_state)
          × (e.to_state ≡ m'.current_state)
          × (m.current_state ≢ m'.current_state)
          × (c.regime_lock_periods ≤ m.periods_in_current_state)
          × (m'.periods_in_current_state ≡ 0))

  lock_allows :
      (m : Machine F Time) (p : ValidityState) (recent : List F.Value)
      → (check_regime_persistence_lock F Time std c m p recent).0 ≡ true
      → p ≢ m.current_state
      → c.regime_lock_periods ≤ m.periods_in_current_state
  unfolding check_regime_persistence_lock
  lock_allows m p recent allowed moves = elim (Bool-cases (same p m.current_state)) [
    | inl e ↦ absurd (moves (same-eq p m.current_state e))
    | inr e ↦ ground arith
  ]

  settle-Settled :
      (m : Machine F Time) (raw : F.Value) (t : Time) (v : F.Value) (p : ValidityState)
      (lock : Bool × Reason F)
      → (lock.0 ≡ true → p ≢ m.current_state → c.regime_lock_periods ≤ m.periods_in_current_state)
      → Settled m (settle F Time std c m raw t v p lock).0
  unfolding settle
  settle-Settled m raw t v p (false, r) h = rw (same_refl m.current_state) (inl (refl, refl, refl))
  settle-Settled m raw t v p (true, r) h = elim (Bool-cases (same p m.current_state)) [
    | inl e ↦ rw e (inl (same-eq p m.current_state e, refl, refl))
    | inr e ↦ rw e (
        inr (
          _,
          refl,
          refl,
          refl,
          (λ q. same-ne p m.current_state e (sym q)),
          h refl (same-ne p m.current_state e),
          refl,
        ))
  ]

  -- Every observation either keeps state and history and counts one more period, or changes the
  -- state: then the state had lasted `regime_lock_periods` at least, the count restarts at 0,
  -- and one entry with the old and the new state is appended to the history.
  pub transition-Settled :
      (m : Machine F Time) (raw : F.Value) (t : Time) (recent : Option (List F.Value))
      → Settled m (transition F Time std c m raw t recent).0
  unfolding transition
  transition-Settled m raw t recent = settle-Settled m raw t _ _ _ (lock_allows m _ _)

module _ (F : Float) (Time : Type 0) (std : List F.Value → Option F.Value) (c : Config F) where
  -- What every machine that has made `n` observations since a reset satisfies.
  pub record IsAccounted (n : ℕ) (m : Machine F Time) : Type 0 where
    pub spaced :
        length m.state_history * (c.regime_lock_periods + 1) + m.periods_in_current_state ≤ n
    pub leads : Leads yellow m.state_history m.current_state

  Leads-append :
      (s e : ValidityState) (h : List (StateTransition F Time)) (t : StateTransition F Time)
      → Leads s h e
      → t.from_state ≡ e
      → e ≢ t.to_state
      → Leads s (h ++ t ∷ []) t.to_state
  Leads-append s e [] t l f ne = (f ∙ sym l, (λ q. ne (sym f ∙ q)), refl)
  Leads-append s e (x ∷ h) t l f ne = (l.0, l.1, Leads-append x.to_state e h t l.2 f ne)

  Settled-IsAccounted :
      (n : ℕ) (m m' : Machine F Time)
      → IsAccounted n m
      → Settled F Time std c m m'
      → IsAccounted (n + 1) m'
  Settled-IsAccounted n m m' a (inl (s, h, p)) = record {
    spaced = rw (h, p) (omega (arith, a.spaced));
    leads = rw (h, s) a.leads;
  }
  Settled-IsAccounted n m m' a (inr (e, h, f, t, ne, l, p)) = record {
    spaced = rw (h, p, length-append) (omega (arith, a.spaced, l));
    leads =
        rw (h, ← t)
          (Leads-append yellow m.current_state m.state_history e a.leads f (λ q. ne (q ∙ t)));
  }

  pub process_rows-IsAccounted :
      (n : ℕ) (m : Machine F Time) (seen : List F.Value) (rows : List (Time × F.Value))
      → IsAccounted n m
      → IsAccounted (n + length rows) (process_rows F Time std c m seen rows).0
  unfolding process_rows
  process_rows-IsAccounted n m seen [] a = subst (λ k. IsAccounted k m) (omega arith) a
  process_rows-IsAccounted n m seen ((t, raw) ∷ rows) a =
      subst (λ k. IsAccounted k (process_rows F Time std c m seen ((t, raw) ∷ rows)).0)
        (omega arith)
        (process_rows-IsAccounted (n + 1)
          (transition F Time std c m raw t (some (seen ++ raw ∷ []))).0 (seen ++ raw ∷ []) rows
          (Settled-IsAccounted n m _ a (transition-Settled F Time std c m raw t _)))
