-- ===== src/Validity/Timeline.antt =====
-- `process_timeline`: the state machine over a whole timeline.
use quorrin.Base.{
  ◌+◌, ◌*◌, ◌≤◌, ◌≡◌, refl, ap, suc, some, All, Option, List, [], ◌∷◌, ◌++◌, map, length, arith,
  Float,
}
use mathlib.Core.List.{append-nil, append_assoc}
use quorrin.Validity.{
  yellow, Config, Machine, Observation, transition, reset, process_rows, process_timeline,
  exposure_of,
}
use quorrin.Validity.Lock.{Leads, process_rows-IsAccounted, IsAccounted}

-- the validity column of the rows
abbrev column {ℓ} : {A B : Type ℓ} → List (A × B) → List B
column = map (λ r. r.1)

module _ (F : Float) (Time : Type 0) (std : List F.Value → Option F.Value) (c : Config F) where
  reset-IsAccounted : (m : Machine F Time) → IsAccounted F Time std c 0 (reset F Time std m)
  unfolding reset
  reset-IsAccounted m = record { spaced = omega arith; leads = refl }

  -- Over any timeline, the recorded transitions lead from YELLOW to the final state, each from
  -- the state before to another one, and `k` transitions followed by `p` periods in the final
  -- state take `k * (regime_lock_periods + 1) + p` rows at least.
  pub process_timeline-IsAccounted :
      (m : Machine F Time) (rows : List (Time × F.Value))
      → let m' = (process_timeline F Time std c m rows).0 in
        (length m'.state_history * (c.regime_lock_periods + 1) + m'.periods_in_current_state
          ≤ length rows)
        × Leads yellow m'.state_history m'.current_state
  unfolding process_timeline
  process_timeline-IsAccounted m rows =
      let a =
        process_rows-IsAccounted F Time std c 0 (reset F Time std m) [] rows
          (reset-IsAccounted m) in
      (omega (arith, a.spaced), a.leads)

  process_rows-append :
      (m : Machine F Time) (seen : List F.Value) (xs ys : List (Time × F.Value))
      → let (m', results) = process_rows F Time std c m seen xs in
        let (end, later) = process_rows F Time std c m' (seen ++ column xs) ys in
        process_rows F Time std c m seen (xs ++ ys) ≡ (end, results ++ later)
  unfolding process_rows
  process_rows-append m seen [] ys = rw append-nil
  process_rows-append m seen ((t, raw) ∷ xs) ys =
      rw
        (process_rows-append (transition F Time std c m raw t (some (seen ++ raw ∷ []))).0
          (seen ++ raw ∷ []) xs ys)
        (rw append_assoc)

  length-process_rows :
      (m : Machine F Time) (seen : List F.Value) (rows : List (Time × F.Value))
      → length (process_rows F Time std c m seen rows).1 ≡ length rows
  unfolding process_rows
  length-process_rows m seen [] = refl
  length-process_rows m seen ((t, raw) ∷ rows) = ap suc (
      length-process_rows (transition F Time std c m raw t (some (seen ++ raw ∷ []))).0
        (seen ++ raw ∷ []) rows)

  -- No lookahead: on a timeline with more rows behind, the outputs of the first rows are those
  -- of the timeline that ends there; the rows behind only add outputs.
  pub process_timeline-append :
      (m : Machine F Time) (xs ys : List (Time × F.Value))
      → (later : List (Observation F Time)) × ((process_timeline F Time std c m (xs ++ ys)).1
          ≡ (process_timeline F Time std c m xs).1 ++ later)
        × (length later ≡ length ys)
  unfolding process_timeline
  process_timeline-append m xs ys = (
    (process_rows F Time std c (process_rows F Time std c (reset F Time std m) [] xs).0 (column xs)
        ys).1,
    ap (λ r. r.1) (process_rows-append (reset F Time std m) [] xs ys),
    length-process_rows _ _ ys,
  )

  -- Every row yields one output, whose exposure is the one configured for its state.
  pub process_rows-exposure :
      (m : Machine F Time) (seen : List F.Value) (rows : List (Time × F.Value))
      → All (λ o. o.exposure ≡ exposure_of F c o.state) (process_rows F Time std c m seen rows).1
  unfolding process_rows transition
  process_rows-exposure m seen [] = tt
  process_rows-exposure m seen ((t, raw) ∷ rows) = (
    refl,
    process_rows-exposure (transition F Time std c m raw t (some (seen ++ raw ∷ []))).0
        (seen ++ raw ∷ []) rows,
  )
