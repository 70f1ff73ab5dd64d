-- ===== src/Admission/Allocation.antt =====
-- What an admission does with the candidates and the budgets.
use mathlib.Core.List.{Perm}
use mathlib.Core.List.Perm
use quorrin.Base.{
  ℕ, ◌-◌, ◌≤◌, ◌<◌, refl, String, inl, inr, List, [], ◌∷◌, ◌++◌, map, arith, Float, Bool-cases, lt,
}
use quorrin.Base.Dict.{Dict}
use quorrin.Admission.{Budget, insert, rank, Split}
use quorrin.Admission.Contracts.{AdmissionSignal, Rejection}

module _ (F : Float) (groups : Dict (List String)) where
  abbrev Signal : Type 0
  Signal = AdmissionSignal F

  -- Each signal fits into what those before it leave of a leverage, of a daily loss and of a
  -- number of positions, each of which is lowered by what a signal takes.
  abbrev pub Fits : F.Value → F.Value → ℕ → List Signal → Type 0
  Fits leverage loss slots [] = Unit
  Fits leverage loss slots (s ∷ ss) =
      (F.key s.notional_requested ≤ F.key leverage)
      × (F.key s.risk_usd ≤ F.key loss)
      × (0 < slots)
      × Fits (F.sub leverage s.notional_requested) (F.sub loss s.risk_usd) (slots - 1) ss

  abbrev FitsIn : Budget F groups → List Signal → Type 0
  FitsIn b = Fits b.leverage b.daily_loss b.concurrent

  -- The signals that are listed with a score, or with the reason of a rejection.
  abbrev pub scored_signals : List (F.Value × Signal) → List Signal
  scored_signals = map (λ x. x.1)

  abbrev pub rejected_signals : List (Signal × Rejection) → List Signal
  rejected_signals = map (λ x. x.0)

  insert-Perm :
      (x : F.Value × Signal) (ys : List (F.Value × Signal))
      → Perm (scored_signals (insert F groups x ys)) (x.1 ∷ scored_signals ys)
  unfolding insert
  insert-Perm x [] = Perm.refl _
  insert-Perm x (y ∷ ys) = elim (Bool-cases (lt F (F.neg (y.0)) (F.neg (x.0)))) [
    | inl behind ↦ rw behind (
        Perm.trans (Perm.cons (y.1) (insert-Perm x ys)) (Perm.swap (x.1) (y.1) (scored_signals ys)))
    | inr before ↦ rw before (Perm.refl _)
  ]

  rank-Perm :
      (xs : List (F.Value × Signal)) → Perm (scored_signals (rank F groups xs)) (scored_signals xs)
  unfolding rank
  rank-Perm [] = Perm.refl _
  rank-Perm (x ∷ xs) =
      Perm.trans (insert-Perm x (rank F groups xs)) (Perm.cons (x.1) (rank-Perm xs))

  abbrev all_of : Split F groups → List Signal
  all_of (taken, left) = taken ++ rejected_signals left

  -- The higher score first.
  abbrev pub Descending : List (F.Value × Signal) → Type 0
  Descending [] = Unit
  Descending (x ∷ []) = Unit
  Descending (x ∷ y ∷ ys) = (F.key (F.neg (x.0)) ≤ F.key (F.neg (y.0))) × Descending (y ∷ ys)

  insert-Descending :
      (x : F.Value × Signal) (ys : List (F.Value × Signal))
      → Descending ys
      → Descending (insert F groups x ys)
  unfolding insert
  insert-Descending x [] h = tt
  insert-Descending x (y ∷ []) h = ground arith
  insert-Descending x (y ∷ z ∷ zs) h = ground (arith, insert-Descending x (z ∷ zs) (h.1))

  -- Signals are tried in the order of their scores, the best first: ranking reorders them so
  -- that no score is followed by one whose negative is smaller.
  pub rank-Descending :
      (xs : List (F.Value × Signal))
      → Descending (rank F groups xs) × Perm (scored_signals (rank F groups xs)) (scored_signals xs)
  unfolding rank
  rank-Descending [] = (tt, Perm.refl _)
  rank-Descending (x ∷ xs) =
      (insert-Descending x (rank F groups xs) (rank-Descending xs).0, rank-Perm (x ∷ xs))
