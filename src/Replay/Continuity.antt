-- ===== src/Replay/Continuity.antt =====
-- paper_trading/replay/runner.py: what `verify_continuity` can find.
use quorrin.Base.{
  ℕ, zero, suc, ◌%◌, ◌≡◌, refl, sym, ap, ◌∙◌, inl, inr, String, Bool, true, false, not, ◌&&◌, ◌||◌,
  none, some, List, [], ◌∷◌, ◌++◌, arith, eq_iff, Bool-cases, Option-cases, Float, All, ◌==◌,
  get_elem?, ◌<◌,
}
use quorrin.Base.Floats
use quorrin.Base.Dict.{Dict, get}
use quorrin.Base.Values.{
  Value, null, truth, int, num, nan, str, arr, obj, Items, nil, cons, Fields, end, field, get_field,
  field_or_null, as_obj, is_nan, equal, same, same_items, same_fields, same_int, has_entry,
}
use quorrin.Base.Options.{◌>>=◌}
use quorrin.Replay.{ReplayRunner, bind, look, apply, count}
use quorrin.Replay.Verify.{
  Snapshots, keys, find, snapshots_of, common_match, values_match, keys_match, asset_in,
  assets_match, assets_of, assert_states_match, check_event, check_events, verify_continuity,
}
use quorrin.Replay.Shape.{AllObjects, EventShape, IsShaped, get_field-IsObj}
use quorrin.Replay.Shape.Steps.{bind-IsShaped, str-ne}
use quorrin.Replay.Shape.Runs.{apply-Returns, count-Returns}
use quorrin.Wal
use text.Mathlib.Text.{◌==◌ as str_eq}
use quorrin.Wal.{WalEvent, Json}

has_entry_later :
    {N : Type 0} (test : Value N → Bool) (k : String) (d : Fields N) (j : String) (w : Value N)
    → has_entry test k d ≡ true
    → has_entry test k (field j w d) ≡ true
unfolding has_entry
has_entry_later test k d j w h = ground arith

-- Every entry of `d` is found in `e`.
mutual
  unfolding same same_int has_entry

  same_refl :
      {N : Type 0} (test : N → N → Bool) (t : (x : N) → test x x ≡ true) (v : Value N)
      → same test v v ≡ true
  same_refl test t null = refl
  same_refl test t (truth true) = refl
  same_refl test t (truth false) = refl
  same_refl test t (int n) = ground arith
  same_refl test t (num x) = t x
  same_refl test t nan = refl
  same_refl test t (str s) = (eq_iff s s).1 refl
  same_refl test t (arr xs) = same_items_refl test t xs
  same_refl test t (obj d) = rw (fields_refl test t d d (λ p k h. h)) (ground arith)

  same_items_refl :
      {N : Type 0} (test : N → N → Bool) (t : (x : N) → test x x ≡ true) (xs : Items N)
      → same_items test xs xs ≡ true
  same_items_refl test t nil = refl
  same_items_refl test t (cons x xs) = rw (same_refl test t x) (same_items_refl test t xs)

  fields_refl :
      {N : Type 0} (test : N → N → Bool) (t : (x : N) → test x x ≡ true) (d e : Fields N)
      → ((test' : Value N → Bool) (k : String)
          → has_entry test' k d ≡ true
          → has_entry test' k e ≡ true)
      → same_fields test d e ≡ true
  fields_refl test t end e sub = refl
  fields_refl test t (field k v d) e sub =
      rw
        (
          sub (same test v) k (rw ((eq_iff k k).1 refl, same_refl test t v) refl),
          fields_refl test t d e (λ p j h. sub p j (has_entry_later p j d k v h)),
        )
        refl

module _ (F : Float) where
  num_refl : (x : F.Value) → Floats.eq F x x ≡ true
  num_refl x = ground arith

  same_self : (v : Value F.Value) → same (Floats.eq F) v v ≡ true
  same_self = same_refl (Floats.eq F) num_refl

  -- Whether one of the values under the keys is NaN.
  abbrev pub nan_among : List String → Fields F.Value → Bool
  nan_among [] d = false
  nan_among (k ∷ ks) d = is_nan (field_or_null k d) || nan_among ks d

  -- A value of an asset is NaN, or is a dictionary that has one.
  abbrev pub has_nan : Value F.Value → Bool
  has_nan v = elim (as_obj v) [ none ↦ is_nan v | some d ↦ nan_among (keys d) d ]

  -- The same for the values of an asset, less the raw market data.
  abbrev pub asset_nan : List String → Fields F.Value → Bool
  asset_nan [] a = false
  asset_nan (k ∷ ks) a =
      not (str_eq k "last_ohlcv") && has_nan (field_or_null k a) || asset_nan ks a

  abbrev pub assets_nan : List String → Fields F.Value → Bool
  assets_nan [] d = false
  assets_nan (name ∷ names) d =
      (elim (asset_in F name d) [ none ↦ false | some a ↦ asset_nan (keys a) a ])
      || assets_nan names d

  -- An asset of the state has a NaN.
  abbrev pub state_nan : ReplayRunner F.Value → Bool
  state_nan r = elim (assets_of F r.state r.heap) [ none ↦ false | some d ↦ assets_nan (keys d) d ]

  equal_self : (v : Value F.Value) → equal (Floats.eq F) v v ≡ not (is_nan v)
  unfolding equal
  equal_self v = rw (same_self v) (ground arith)

  common_match_self :
      (ks : List String) (s : Fields F.Value) → common_match F ks s s ≡ not (nan_among ks s)
  unfolding common_match field_or_null
  common_match_self [] s = refl
  common_match_self (k ∷ ks) s = elim (Option-cases (get_field k s)) [
    | inl missing ↦
        let absent : is_nan (field_or_null k s) ≡ false = rw (missing, field_or_null) refl in
        rw (missing, common_match) (ground (arith, absent, common_match_self ks s))
    | inr (v, there) ↦
        let found : field_or_null k s ≡ v = rw (there, field_or_null) refl in
        rw (there, common_match)
          (rw found (rw (equal_self v, common_match_self ks s) (ground arith)))
  ]

  values_match_self : (v : Value F.Value) → values_match F v v ≡ not (has_nan v)
  unfolding values_match
  values_match_self v = elim (Option-cases (as_obj v)) [
    | inl plain ↦
        let n : has_nan v ≡ is_nan v = rw (plain, has_nan) refl in
        rw (plain, values_match) (equal_self v ∙ ap not (sym n))
    | inr (d, is) ↦
        let n : has_nan v ≡ nan_among (keys d) d = rw (is, has_nan) refl in
        rw (is, values_match) (rw is (common_match_self (keys d) d ∙ ap not (sym n)))
  ]

  keys_match_self :
      (ks : List String) (d : Fields F.Value) → keys_match F ks d d ≡ not (asset_nan ks d)
  unfolding keys_match
  keys_match_self [] d = refl
  keys_match_self (k ∷ ks) d =
      rw (values_match_self (field_or_null k d), keys_match_self ks d) (ground arith)

  asset_nan-append :
      (xs ys : List String) (d : Fields F.Value)
      → asset_nan (xs ++ ys) d ≡ (asset_nan xs d || asset_nan ys d)
  asset_nan-append [] ys d = refl
  asset_nan-append (x ∷ xs) ys d = ground (arith, asset_nan-append xs ys d)

  assets_nan-append :
      (xs ys : List String) (d : Fields F.Value)
      → assets_nan (xs ++ ys) d ≡ (assets_nan xs d || assets_nan ys d)
  assets_nan-append [] ys d = refl
  assets_nan-append (x ∷ xs) ys d = ground (arith, assets_nan-append xs ys d)

  asset_in-some :
      (name : String) (d : Fields F.Value)
      → AllObjects d
      → (a : Fields F.Value) × (asset_in F name d ≡ some a)
  unfolding asset_in
  asset_in-some name d h = elim (Option-cases (get_field name d)) [
    | inl missing ↦ (end, rw (missing, asset_in) refl)
    | inr (v, there) ↦
        let (e, is) = get_field-IsObj name d v h there in (e, rw (there, asset_in) (rw is refl))
  ]

  assets_match_self :
      (names : List String) (d : Fields F.Value)
      → AllObjects d
      → assets_match F names d d ≡ some (not (assets_nan names d))
  unfolding assets_match
  assets_match_self [] d h = refl
  assets_match_self (name ∷ names) d h =
      let (a, found) = asset_in-some name d h in
      rw (found, assets_match_self names d h, keys_match_self (keys a ++ keys a) a)
        (rw (asset_nan-append (keys a) (keys a) a) (ground arith))

  -- No state behind an event has an asset with a NaN.
  abbrev pub NoNan : List (WalEvent (Fields F.Value)) → ReplayRunner F.Value → Type 0
  NoNan [] r = Unit
  NoNan (e ∷ es) r = elim (apply e r >>= count F e.sequence) [
    | none ↦ Unit
    | some r' ↦ (state_nan r' ≡ false) × NoNan es r'
  ]

  -- The state from which pass 2 starts.
  abbrev pub started : ℕ → ReplayRunner F.Value → ReplayRunner F.Value
  started seq r = bind "last_sequence" (int seq) (bind "events_replayed" (int 0) r)

-- Every snapshot has the assets at `a`.
abbrev AllAt : ℕ → Snapshots → Type 0
AllAt a kept = (n : ℕ) (d : Dict ℕ) → find n kept ≡ some d → get "assets" d ≡ some a

AllAt-nil : (a : ℕ) → AllAt a []
unfolding find
AllAt-nil a n d h = cc

AllAt-cons :
    (a m : ℕ) (state : Dict ℕ) (kept : Snapshots)
    → get "assets" state ≡ some a
    → AllAt a kept
    → AllAt a ((m, state) ∷ kept)
unfolding find
AllAt-cons a m state kept here all n d h = elim (Bool-cases (m == n)) [
  | inl same ↦ let e : some state ≡ some d = rw same at h in cc
  | inr other ↦ all n d (rw other at h)
]

snapshots_of-AllAt :
    {N : Type 0} (every a : ℕ) (es : List (WalEvent (Fields N))) (state : Dict ℕ) (kept : Snapshots)
    → get "assets" state ≡ some a
    → AllAt a kept
    → (all : Snapshots) × (snapshots_of (suc every) es state kept ≡ some all) × AllAt a all
unfolding snapshots_of
snapshots_of-AllAt every a [] state kept here h = (kept, refl, h)
snapshots_of-AllAt every a (e ∷ es) state kept here h =
    elim (Bool-cases (e.sequence % suc every == 0)) [
      | inl taken ↦
          rw taken
            (snapshots_of-AllAt every a es state _ here (AllAt-cons a e.sequence state kept here h))
      | inr skipped ↦ rw skipped (snapshots_of-AllAt every a es state kept here h)
    ]

module _ (F : Float) (a : ℕ) where
  assets_of-some :
      (state : Dict ℕ) (heap : List (Value F.Value)) (d : Fields F.Value)
      → get "assets" state ≡ some a
      → get_elem? heap a ≡ some (obj d)
      → assets_of F state heap ≡ some d
  unfolding assets_of
  assets_of-some state heap d at held = rw (at, assets_of) (rw held refl)

  -- The state is compared with itself.
  assert_states_match_self :
      (saved : Dict ℕ) (r : ReplayRunner F.Value)
      → get "assets" saved ≡ some a
      → IsShaped a r
      → assert_states_match F saved r.state r.heap ≡ some (state_nan F r)
  unfolding assert_states_match look
  assert_states_match_self saved r at s =
      let held : get_elem? r.heap a ≡ some (obj s.assets) = rw s.here at s.holds in
      rw
        (
          assets_of-some saved r.heap s.assets at held,
          assets_of-some r.state r.heap s.assets s.here held,
          assets_match_self F (keys s.assets ++ keys s.assets) s.assets s.objects,
          assets_nan-append F (keys s.assets) (keys s.assets) s.assets,
        )
        (ground arith)

  check_events-none :
      (kept : Snapshots) (es : List (WalEvent (Fields F.Value))) (r : ReplayRunner F.Value)
      → AllAt a kept
      → All EventShape es
      → NoNan F es r
      → IsShaped a r
      → (r' : ReplayRunner F.Value) × (check_events F kept es (r, []) ≡ some (r', []))
  unfolding check_events check_event
  check_events-none kept [] r all h plain s = (r, refl)
  check_events-none kept (e ∷ es) r all h plain s =
      let (r₁, e₁, s₁) = apply-Returns a e r h.0 s in
      let (r₂, e₂, s₂) = count-Returns F a e.sequence r₁ s₁ in
      let (quiet, plain') : (state_nan F r₂ ≡ false) × NoNan F es r₂ =
        rw (e₁, e₂, NoNan) at plain in
      let (r', done) = check_events-none kept es r₂ all h.1 plain' s₂ in
      elim (Option-cases (find e.sequence kept)) [
        | inl absent ↦ (r', rw (e₁, e₂, absent) done)
        | inr (saved, found) ↦ (
          r',
          rw
              (
                e₁,
                e₂,
                found,
                assert_states_match_self saved r₂ (all e.sequence saved found) s₂,
                quiet,
              )
              done,
        )
      ]

  -- `verify_continuity` compares every state with itself: on events of the right shape it comes
  -- to its end, and unless a replayed state has an asset with a NaN, which is not equal to itself,
  -- it reports no mismatch, whatever pass 1 has read. Pass 1 applies no event, and the snapshots
  -- that it keeps hold the very dictionary of assets that pass 2 changes.
  pub verify_continuity-none :
      (J : Json (Fields F.Value)) (events : List (WalEvent (Fields F.Value)))
      (corrupt seq every : ℕ) (file : List J.Line) (r : ReplayRunner F.Value)
      → 0 < every
      → All EventShape (Wal.read_from J corrupt seq file)
      → NoNan F (Wal.read_from J corrupt seq file) (started F seq r)
      → IsShaped a r
      → (r' : ReplayRunner F.Value) × (verify_continuity F J events corrupt seq every file r
          ≡ some (r', []))
  unfolding verify_continuity
  verify_continuity-none J events corrupt seq zero file r pos h plain s = elim pos [ ]
  verify_continuity-none J events corrupt seq (suc every) file r pos h plain s =
      let (kept, e, all) = snapshots_of-AllAt every a events r.state [] s.here (AllAt-nil a) in
      let s₁ =
        bind-IsShaped a r s "events_replayed" (int 0) (str-ne "events_replayed" "assets" refl)
          (λ q. (0, refl)) in
      let s₂ =
        bind-IsShaped a _ s₁ "last_sequence" (int seq) (str-ne "last_sequence" "assets" refl)
          (λ q. absurd (str-ne "last_sequence" "events_replayed" refl q)) in
      rw e (check_events-none kept _ _ all h plain s₂)
