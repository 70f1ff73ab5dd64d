-- ===== src/Governance/Registry/Windows.antt =====
-- The windows of the registry against the whole history of the trades.
use text.Mathlib.Text.{◌==◌ as str_eq}
use mathlib.Core.List.{append_assoc, append-nil}
use quorrin.Base.{
  ℕ, ◌+◌, ◌≡◌, refl, sym, ap, subst, ◌∙◌, String, Bool, true, false, ◌&&◌, ◌||◌, length, leb, lt,
  List, [], ◌∷◌, ◌++◌, last_n, if◌then◌else◌, arith, eq_iff, Float, Bool-cases, inl, inr,
}
use quorrin.Base.Dict.{get, get_default, get_default-put}
use quorrin.Base.Windows.{push, push-last_n}
use quorrin.Governance.Registry.{
  RiskRegistry, new_registry, bit, count, rate, trips, is_counted, record_sell_side_outcome,
}

-- A closed trade.
pub record Closed : Type 0 where
  pub asset : String
  pub reason : String
  pub side : String

module _ (F : Float) (upper : String → String) where
  -- What the tripwire counts of the trades of an asset: its short ones that ended at the target
  -- or at the stop, 1 for the target.
  abbrev counted : String → List Closed → List ℕ
  counted a [] = []
  counted a (t ∷ ts) =
      let rest = counted a ts in
      if str_eq t.asset a
      then (if is_counted F upper t.reason t.side
          then bit (str_eq (upper t.reason) "TP") ∷ rest
          else rest)
      else rest

  abbrev pub record_all : List Closed → RiskRegistry → RiskRegistry
  record_all [] r = r
  record_all (t ∷ ts) r = record_all ts (record_sell_side_outcome F upper t.asset t.reason t.side r)

  -- Every asset has the last 20 of its counted trades, and the tripwire that these give.
  record IsFed (h : List Closed) (r : RiskRegistry) : Type 0 where
    pub window : (a : String) → get_default a [] r.sell_win_rates ≡ last_n 20 (counted a h)
    pub tripwire :
        (a : String)
        → get_default a false r.tripwire_last_state
          ≡ trips F upper (rate F upper (last_n 20 (counted a h)))

  counted-append :
      (a : String) (h ts : List Closed) → counted a (h ++ ts) ≡ counted a h ++ counted a ts
  counted-append a [] ts = refl
  counted-append a (t ∷ h) ts = ground (arith, counted-append a h ts)

  -- A trade that is counted is one more of its asset.
  counted-more :
      (h : List Closed) (t : Closed) (a : String)
      → str_eq t.asset a ≡ true
      → is_counted F upper t.reason t.side ≡ true
      → counted a (h ++ t ∷ []) ≡ counted a h ++ bit (str_eq (upper t.reason) "TP") ∷ []
  counted-more h t a same c = rw (counted-append a h (t ∷ []), same, c) refl

  -- Any other trade is none.
  counted-other :
      (h : List Closed) (t : Closed) (a : String)
      → (str_eq t.asset a && is_counted F upper t.reason t.side) ≡ false
      → counted a (h ++ t ∷ []) ≡ counted a h
  counted-other h t a other =
      ground (arith, counted-append a h (t ∷ []), append-nil (counted a h), other)

  window_after :
      (h : List Closed) (t : Closed) (r : RiskRegistry)
      → IsFed h r
      → is_counted F upper t.reason t.side ≡ true
      → push 20 (bit (str_eq (upper t.reason) "TP")) (get_default t.asset [] r.sell_win_rates)
        ≡ last_n 20 (counted t.asset (h ++ t ∷ []))
  window_after h t r s c =
      let own : str_eq t.asset t.asset ≡ true = ground (arith, eq_iff t.asset t.asset) in
      ap (push 20 (bit (str_eq (upper t.reason) "TP"))) (s.window t.asset)
      ∙ push-last_n 20 (bit (str_eq (upper t.reason) "TP")) (counted t.asset h) (omega arith)
      ∙ sym (ap (last_n 20) (counted-more h t t.asset own c))

  record-IsFed :
      (h : List Closed) (t : Closed) (r : RiskRegistry)
      → IsFed h r
      → IsFed (h ++ t ∷ []) (record_sell_side_outcome F upper t.asset t.reason t.side r)
  unfolding record_sell_side_outcome
  record-IsFed h t r s = elim (Bool-cases (is_counted F upper t.reason t.side)) [
    | inl c ↦ rw c (record {
      window = λ a. elim (Bool-cases (str_eq t.asset a)) [
        | inl same ↦
            let e = (eq_iff t.asset a).0 same in
            get_default-put t.asset a _ [] r.sell_win_rates
            ∙ rw same (window_after h t r s c)
            ∙ ap (λ b. last_n 20 (counted b (h ++ t ∷ []))) e
        | inr other ↦
            get_default-put t.asset a _ [] r.sell_win_rates
            ∙ rw other (s.window a)
            ∙ sym (ap (last_n 20) (counted-other h t a (rw other refl)))
      ];
      tripwire = λ a. elim (Bool-cases (str_eq t.asset a)) [
        | inl same ↦
            let e = (eq_iff t.asset a).0 same in
            get_default-put t.asset a _ false r.tripwire_last_state
            ∙ rw same (ap (λ w. trips F upper (rate F upper w)) (window_after h t r s c))
            ∙ ap (λ b. trips F upper (rate F upper (last_n 20 (counted b (h ++ t ∷ []))))) e
        | inr other ↦
            get_default-put t.asset a _ false r.tripwire_last_state
            ∙ rw other (s.tripwire a)
            ∙ sym (
                ap (λ w. trips F upper (rate F upper (last_n 20 w)))
                  (counted-other h t a (rw other refl)))
      ];
    })
    | inr ignored ↦ rw ignored (record {
      window =
          λ a. s.window a ∙ sym (ap (last_n 20) (counted-other h t a (ground (arith, ignored))));
      tripwire = λ a.
          s.tripwire a
          ∙ sym (
              ap (λ w. trips F upper (rate F upper (last_n 20 w)))
                (counted-other h t a (ground (arith, ignored))));
    })
  ]

  record_all-append :
      (h ts : List Closed) (r : RiskRegistry) → IsFed h r → IsFed (h ++ ts) (record_all ts r)
  record_all-append h [] r s = subst (λ x. IsFed x r) (sym (append-nil h)) s
  record_all-append h (t ∷ ts) r s =
      subst (λ x. IsFed x (record_all (t ∷ ts) r)) (append_assoc h (t ∷ []) ts)
        (record_all-append (h ++ t ∷ []) ts _ (record-IsFed h t r s))

  -- A short trade that ended at the target or at the stop.
  abbrev pub is_hit_or_miss : Closed → Bool
  is_hit_or_miss t =
      str_eq t.side "short" && (str_eq (upper t.reason) "TP" || str_eq (upper t.reason) "SL")

  -- Those of one asset, 1 for the target and 0 for the stop.
  abbrev pub hits : String → List Closed → List ℕ
  hits a [] = []
  hits a (t ∷ ts) =
      let rest = hits a ts in
      if str_eq t.asset a && is_hit_or_miss t
      then (if str_eq (upper t.reason) "TP" then 1 else 0) ∷ rest
      else rest

  abbrev pub wins : List ℕ → ℕ
  wins [] = 0
  wins (n ∷ ns) = n + wins ns

  -- Five trades or more, with a share of wins below 0.65.
  abbrev pub loses : List ℕ → Bool
  loses ns =
      leb 5 (length ns) && lt F (F.div (F.lit (wins ns) 0) (F.lit (length ns) 0)) (F.lit 65 2)

  count-wins : (ns : List ℕ) → count ns ≡ wins ns
  unfolding count
  count-wins [] = refl
  count-wins (n ∷ ns) = omega (arith, count-wins ns)

  trips-rate : (ns : List ℕ) → trips F upper (rate F upper ns) ≡ loses ns
  unfolding trips rate
  trips-rate ns = rw (count-wins ns) (ground arith)

  counted-hits : (a : String) (ts : List Closed) → counted a ts ≡ hits a ts
  unfolding is_counted
  counted-hits a [] = refl
  counted-hits a (t ∷ ts) = ground (arith, counted-hits a ts)

  -- For every asset the registry has the last 20 of these, and its tripwire.
  pub record Holds (ts : List Closed) (r : RiskRegistry) : Type 0 where
    pub window : (a : String) → get_default a [] r.sell_win_rates ≡ last_n 20 (hits a ts)
    pub tripwire :
        (a : String) → get_default a false r.tripwire_last_state ≡ loses (last_n 20 (hits a ts))

  -- After any closed trades of any assets the registry holds for every asset what its own trades
  -- say: the last 20 of its short trades that ended at the target or at the stop, and a tripwire
  -- that is on exactly if these are five or more with a share of wins below 0.65.
  pub record_all-Holds : (ts : List Closed) → Holds ts (record_all ts new_registry)
  unfolding new_registry get_default get trips rate
  record_all-Holds ts =
      let fed =
        record_all-append [] ts new_registry
          (record { window = λ a. refl; tripwire = λ a. refl }) in
      record {
        window = λ a. fed.window a ∙ ap (last_n 20) (counted-hits a ts);
        tripwire = λ a.
            fed.tripwire a
            ∙ trips-rate (last_n 20 (counted a ts))
            ∙ ap (λ ns. loses (last_n 20 ns)) (counted-hits a ts);
      }
