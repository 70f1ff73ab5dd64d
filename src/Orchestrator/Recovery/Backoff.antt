-- ===== src/Orchestrator/Recovery/Backoff.antt =====
-- The backoff that the recorded failures amount to.
use text.Mathlib.Text.{◌==◌ as str_eq}
use text.Mathlib.TextEquality.{eq_iff}
use quorrin.Base.{
  ℕ, ◌+◌, ◌^◌, ◌≡◌, refl, String, Bool, true, false, Option, none, some, List, [], ◌∷◌, length,
  if◌then◌else◌, arith, Float, le, fmin, ◌∙◌,
}
use quorrin.Base.Dict.{get_default, remove, get_default-put, get-remove}
use quorrin.Orchestrator.Recovery.{RecoveryScheduler, delay_after, is_due, record_result}

get_default-remove :
    {V : Type 0} (k j : String) (d : V) (m : List (String × V))
    → get_default j d (remove k m) ≡ (if str_eq k j then d else get_default j d m)
unfolding get_default
get_default-remove k j d m = ground (arith, get-remove k j m)

str_eq-same : (k : String) → str_eq k k ≡ true
str_eq-same k = ground (arith, eq_iff k k)

module _ (F : Float) where
  open F use {Value, lit, sub}

  -- Failures of one asset, one after another, each at its time.
  pub fail_at : String → List Value → RecoveryScheduler F → RecoveryScheduler F
  fail_at asset [] s = s
  fail_at asset (t ∷ ts) s = fail_at asset ts (record_result F t t asset false "" s)

  abbrev pub last_of : Value → List Value → Value
  last_of t [] = t
  last_of t (u ∷ us) = last_of u us

  abbrev pub attempts_of : String → RecoveryScheduler F → ℕ
  attempts_of asset s = get_default asset 0 s.attempts

  abbrev pub probe_of : String → RecoveryScheduler F → Value
  probe_of asset s = get_default asset (lit 0 0) s.last_probe

  -- A result counts for its own asset only: a failure raises the attempts by one and sets the
  -- probe, a success sets the attempts to zero and leaves the probe, and no other asset changes.
  pub record_result-effect :
      (now later : Value) (k j : String) (success : Bool) (error : String) (s : RecoveryScheduler F)
      → let s' = record_result F now later k success error s in
        (attempts_of j s'
          ≡ (if str_eq k j then (if success then 0 else attempts_of k s + 1) else attempts_of j s))
        × (probe_of j s'
            ≡ (if str_eq k j then (if success then probe_of j s else later) else probe_of j s))
  unfolding record_result
  record_result-effect now later k j success error s =
      let failed = attempts_of k s + 1 in
      (
        get_default-put k j (if success then 0 else failed) 0 s.attempts,
        ground (arith, get_default-put k j later (lit 0 0) s.last_probe),
      )

  fail_at-state :
      (k : String) (t : Value) (ts : List Value) (s : RecoveryScheduler F)
      → let s' = fail_at k (t ∷ ts) s in
        (attempts_of k s' ≡ attempts_of k s + length (t ∷ ts))
        × (probe_of k s' ≡ last_of t ts)
        × (s'.base_delay ≡ s.base_delay)
        × (s'.max_delay ≡ s.max_delay)
  unfolding fail_at record_result
  fail_at-state k t [] s =
      let (a, p) = record_result-effect t t k k false "" s in ground (arith, a, p, str_eq-same k)
  fail_at-state k t (u ∷ us) s =
      let s1 = record_result F t t k false "" s in
      let (a, p) = record_result-effect t t k k false "" s in
      let (b, q, base, max) = fail_at-state k u us s1 in
      (ground (arith, a, b, str_eq-same k), q, base, max)

  due_with : Value → ℕ → Value → Value → Value → Option Bool
  due_with now n last base max = elim (F.of_int (2 ^ n)) [
    | none ↦ none
    | some power ↦ some (le F (fmin F (F.mul base power) max) (sub now last))
  ]

  is_due-state :
      (now : Value) (k : String) (s : RecoveryScheduler F)
      → is_due F now k s ≡ due_with now (attempts_of k s) (probe_of k s) s.base_delay s.max_delay
  unfolding is_due delay_after due_with
  is_due-state now k s = ground arith

  -- From no failed attempt on, n failures in a row make an asset due again exactly when the
  -- time since the last of them has reached `min(base * 2 ** n, max)`; the test raises
  -- OverflowError exactly where 2 ** n has no float.
  pub is_due-failures :
      (now : Value) (k : String) (t : Value) (ts : List Value) (s : RecoveryScheduler F)
      → attempts_of k s ≡ 0
      → is_due F now k (fail_at k (t ∷ ts) s) ≡ elim (F.of_int (2 ^ length (t ∷ ts))) [
        | none ↦ none
        | some power ↦
            some (le F (fmin F (F.mul s.base_delay power) s.max_delay) (sub now (last_of t ts)))
      ]
  is_due-failures now k t ts s z =
      let s' = fail_at k (t ∷ ts) s in
      let (a, p, base, max) = fail_at-state k t ts s in
      let count : attempts_of k s' ≡ length (t ∷ ts) = omega (arith, a, z) in
      is_due-state now k s' ∙ rw (count, p, base, max) (unfold due_with in refl)
