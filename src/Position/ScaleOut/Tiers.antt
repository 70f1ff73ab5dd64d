-- ===== src/Position/ScaleOut/Tiers.antt =====
-- What the checks of a plan do to its tiers.
use quorrin.Base.{
  ℕ, ◌+◌, ◌≤◌, ◌≡◌, ◌⊎◌, refl, sym, ap, ◌∙◌, Bool, true, false, some, Bool-cases, inl, inr, not,
  ◌&&◌, List, [], ◌∷◌, ◌++◌, length, ltb, lt, if◌then◌else◌, arith, Float,
}
use quorrin.Position.{PositionSide, long, short}
use quorrin.Position.ScaleOut.{
  ScaleOutTier, ScaleOutPlan, ScaleOutEngine, Fill, Quote, scale_out_tier, breakeven_stop_activated,
  trailing_activated, is_due, tier_pnl, fill_tier, fill_tiers, n_filled, check_tiers, trails,
  further,
}

module _ (F : Float) where
  -- How many of the trades are a tier's, and how many activate the breakeven stop.
  pub n_tiers : List (Fill F) → ℕ
  n_tiers [] = 0
  n_tiers (scale_out_tier n f x p ∷ fs) = 1 + n_tiers fs
  n_tiers (breakeven_stop_activated x ∷ fs) = n_tiers fs
  n_tiers (trailing_activated ∷ fs) = n_tiers fs

  pub n_breakevens : List (Fill F) → ℕ
  n_breakevens [] = 0
  n_breakevens (scale_out_tier n f x p ∷ fs) = n_breakevens fs
  n_breakevens (breakeven_stop_activated x ∷ fs) = 1 + n_breakevens fs
  n_breakevens (trailing_activated ∷ fs) = n_breakevens fs

  n_tiers-append : (xs ys : List (Fill F)) → n_tiers (xs ++ ys) ≡ n_tiers xs + n_tiers ys
  unfolding n_tiers
  n_tiers-append [] ys = omega arith
  n_tiers-append (scale_out_tier n f x p ∷ fs) ys = omega (arith, n_tiers-append fs ys)
  n_tiers-append (breakeven_stop_activated x ∷ fs) ys = omega (arith, n_tiers-append fs ys)
  n_tiers-append (trailing_activated ∷ fs) ys = omega (arith, n_tiers-append fs ys)

  n_breakevens-append :
      (xs ys : List (Fill F)) → n_breakevens (xs ++ ys) ≡ n_breakevens xs + n_breakevens ys
  unfolding n_breakevens
  n_breakevens-append [] ys = omega arith
  n_breakevens-append (scale_out_tier n f x p ∷ fs) ys = omega (arith, n_breakevens-append fs ys)
  n_breakevens-append (breakeven_stop_activated x ∷ fs) ys =
      omega (arith, n_breakevens-append fs ys)
  n_breakevens-append (trailing_activated ∷ fs) ys = omega (arith, n_breakevens-append fs ys)

  fill_tiers-counts :
      (side : PositionSide) (entry : F.Value) (q : Quote F) (n : ℕ) (ts : List (ScaleOutTier F))
      (remaining : F.Value)
      → let (ts', fills, rest) = fill_tiers F side entry q n ts remaining in
        (n_filled F ts' ≡ n_filled F ts + n_tiers fills)
        × (n_breakevens fills ≡ 0)
        × (length ts' ≡ length ts)
  unfolding fill_tiers n_tiers n_breakevens
  fill_tiers-counts side entry q n [] remaining = (refl, refl, refl)
  fill_tiers-counts side entry q n (t ∷ ts) remaining = ground (
    arith,
    fill_tiers-counts side entry q (n + 1) ts (F.sub remaining t.fraction),
    fill_tiers-counts side entry q (n + 1) ts remaining,
  )

  -- The price has gone as far as a level, in the direction of a profit.
  abbrev pub Reaches : PositionSide → F.Value → F.Value → Type 0
  Reaches long price level = F.key level ≤ F.key price
  Reaches short price level = F.key price ≤ F.key level

  -- The return of a position between two prices.
  abbrev pub gain : PositionSide → F.Value → F.Value → F.Value
  gain long entry price = F.sub (F.div price entry) (F.lit 1 0)
  gain short entry price = F.sub (F.div entry price) (F.lit 1 0)

  -- A tier behind a check: one that was filled, or is not reached, is as it was; one that is
  -- reached is filled at the current price, with the profit of its fraction of the position.
  pub record IsChecked (side : PositionSide) (entry : F.Value) (q : Quote F) (t u : ScaleOutTier F)
      : Type 0 where
    pub kept : (t.filled ≡ true) ⊎ (Reaches side q.current_price t.price → ⊥) → u ≡ t
    pub filled :
        t.filled ≡ false
        → Reaches side q.current_price t.price
        → (u.filled ≡ true)
          × (u.fill_price ≡ some q.current_price)
          × (u.pnl_realized
              ≡ F.mul
                  (F.mul
                    (F.mul
                      (F.mul q.current_value (gain side entry q.current_price))
                      q.position_size)
                    q.exposure_mult)
                  t.fraction)
          × (u.price ≡ t.price)
          × (u.fraction ≡ t.fraction)

  checked :
      (side : PositionSide) (entry : F.Value) (q : Quote F) (t : ScaleOutTier F)
      → IsChecked side entry q t (if is_due F side q t then fill_tier F side entry q t else t)
  unfolding fill_tier tier_pnl
  checked long entry q t = record { kept = λ h. ground arith; filled = λ h r. ground arith }
  checked short entry q t = record { kept = λ h. ground arith; filled = λ h r. ground arith }

  -- The tiers before and behind a check, one by one.
  abbrev pub Filled :
      PositionSide → F.Value → Quote F → List (ScaleOutTier F) → List (ScaleOutTier F) → Type 0
  Filled side entry q [] [] = Unit
  Filled side entry q (t ∷ ts) (u ∷ us) = IsChecked side entry q t u × Filled side entry q ts us
  Filled side entry q _ _ = ⊥

  fill_tiers-Filled :
      (side : PositionSide) (entry : F.Value) (q : Quote F) (n : ℕ) (ts : List (ScaleOutTier F))
      (remaining : F.Value)
      → Filled side entry q ts (fill_tiers F side entry q n ts remaining).0
  unfolding fill_tiers
  fill_tiers-Filled side entry q n [] remaining = tt
  fill_tiers-Filled side entry q n (t ∷ ts) remaining = elim (Bool-cases (is_due F side q t)) [
    | inl due ↦
        let c = checked side entry q t in
        rw due (rw due at c, fill_tiers-Filled side entry q (n + 1) ts (F.sub remaining t.fraction))
    | inr early ↦
        let c = checked side entry q t in
        rw early (rw early at c, fill_tiers-Filled side entry q (n + 1) ts remaining)
  ]

  -- A check fills exactly the tiers that are not filled and whose price is reached, each at the
  -- current price with the profit of its fraction, and leaves every other tier as it is.
  pub check_tiers-Filled :
      (e : ScaleOutEngine F) (side : PositionSide) (q : Quote F) (p : ScaleOutPlan F)
      → Filled side p.entry_price q p.tiers (check_tiers F e side q p).0.tiers
  unfolding check_tiers
  check_tiers-Filled e side q p =
      fill_tiers-Filled side p.entry_price q 0 p.tiers p.remaining_fraction

  -- Checks one after another, and all their trades.
  pub check_all :
      ScaleOutEngine F
      → PositionSide
      → List (Quote F)
      → ScaleOutPlan F
      → ScaleOutPlan F × List (Fill F)
  check_all e side [] p = (p, [])
  check_all e side (q ∷ qs) p =
      let (p', fills) = check_tiers F e side q p in
      let (p'', more) = check_all e side qs p' in (p'', fills ++ more)

  abbrev bit : Bool → ℕ
  bit b = if b then 1 else 0

  further-counts :
      (fills : List (Fill F)) (activate on : Bool) (x : F.Value)
      → (n_tiers (fills ++ further F activate on x) ≡ n_tiers fills)
        × (n_breakevens (fills ++ further F activate on x) ≡ n_breakevens fills + bit activate)
  unfolding n_tiers n_breakevens
  further-counts fills activate on x = ground (
    arith,
    n_tiers-append fills (further F activate on x),
    n_breakevens-append fills (further F activate on x),
  )

  check_tiers-counts :
      (e : ScaleOutEngine F) (side : PositionSide) (q : Quote F) (p : ScaleOutPlan F)
      → let (p', fills) = check_tiers F e side q p in
        (n_filled F p'.tiers ≡ n_filled F p.tiers + n_tiers fills)
        × (bit p'.breakeven_activated ≡ bit p.breakeven_activated + n_breakevens fills)
        × (length p'.tiers ≡ length p.tiers)
  unfolding check_tiers
  check_tiers-counts e side q p =
      let (tiers, fills, remaining) =
        fill_tiers F side p.entry_price q 0 p.tiers p.remaining_fraction in
      let (filled, none_yet, same_length) =
        fill_tiers-counts side p.entry_price q 0 p.tiers p.remaining_fraction in
      let open_rest = lt F (F.lit 0 0) remaining in
      let activate =
        ltb e.activate_breakeven_after (n_filled F tiers)
        && not p.breakeven_activated
        && open_rest in
      let on = open_rest && trails F e.trailing_after_tier (n_filled F tiers) in
      let (no_tiers, breakevens) = further-counts fills activate on p.entry_price in
      let b = p.breakeven_activated in
      let turned : bit (if activate then true else b) ≡ bit b + bit activate = ground arith in
      let by_one : n_breakevens (fills ++ further F activate on p.entry_price) ≡ bit activate =
        omega (arith, breakevens, none_yet) in
      (
        filled ∙ ap (λ n. n_filled F p.tiers + n) (sym no_tiers),
        turned ∙ ap (λ n. bit b + n) (sym by_one),
        same_length,
      )

  n_filled-bound : (ts : List (ScaleOutTier F)) → n_filled F ts ≤ length ts
  n_filled-bound [] = omega arith
  n_filled-bound (t ∷ ts) = ground (arith, n_filled-bound ts)

  check_all-counts :
      (e : ScaleOutEngine F) (side : PositionSide) (qs : List (Quote F)) (p : ScaleOutPlan F)
      → let (p', fills) = check_all e side qs p in
        (n_filled F p'.tiers ≡ n_filled F p.tiers + n_tiers fills)
        × (bit p'.breakeven_activated ≡ bit p.breakeven_activated + n_breakevens fills)
        × (length p'.tiers ≡ length p.tiers)
  unfolding check_all n_tiers n_breakevens
  check_all-counts e side [] p = ground arith
  check_all-counts e side (q ∷ qs) p =
      let (p', fills) = check_tiers F e side q p in
      let more = (check_all e side qs p').1 in
      ground (
        arith,
        check_tiers-counts e side q p,
        check_all-counts e side qs p',
        n_tiers-append fills more,
        n_breakevens-append fills more,
      )

  -- Over any run of checks each tier is traded at most once: there are as many trades of tiers
  -- as tiers that have become filled, so no more than the plan has tiers. The breakeven stop is
  -- activated at most once.
  pub check_all-once :
      (e : ScaleOutEngine F) (side : PositionSide) (qs : List (Quote F)) (p : ScaleOutPlan F)
      → let (p', fills) = check_all e side qs p in
        (n_filled F p'.tiers ≡ n_filled F p.tiers + n_tiers fills)
        × (n_tiers fills ≤ length p.tiers)
        × (n_breakevens fills ≤ 1)
  check_all-once e side qs p =
      let (p', fills) = check_all e side qs p in
      let (filled, activated, same_length) = check_all-counts e side qs p in
      (
        filled,
        omega (arith, filled, same_length, n_filled-bound p'.tiers),
        ground (arith, activated),
      )
