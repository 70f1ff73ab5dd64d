-- ===== src/Replay/Heap.antt =====
-- paper_trading/replay/runner.py: the objects of the state dictionary and their addresses.
use quorrin.Base.{
  ℕ, zero, suc, ◌<◌, ◌≡◌, refl, inl, inr, String, some, List, [], ◌∷◌, ◌++◌, length, get_elem?,
  length-append, length-set, get_elem?-set, get_elem?-concat, arith, eq_iff, Bool-cases,
  Option-cases, if◌then◌else◌,
}
use quorrin.Base.Dict.{get, put, get-put}
use quorrin.Base.Values.{Value}
use quorrin.Replay.{ReplayRunner, look, bind, store}
use text.Mathlib.Text.{◌==◌ as str_eq}

-- Every name has an object of its own.
pub record IsSound {N : Type 0} (r : ReplayRunner N) : Type 0 where
  pub within : (k : String) (a : ℕ) → get k r.state ≡ some a → a < length r.heap
  pub distinct : (j k : String) (a : ℕ) → get j r.state ≡ some a → get k r.state ≡ some a → j ≡ k

pub lt-of_get_elem? {ℓ} :
    {A : Type ℓ} (xs : List A) (i : ℕ) (v : A) → get_elem? xs i ≡ some v → i < length xs
lt-of_get_elem? [] i v h = ground arith
lt-of_get_elem? (x ∷ xs) zero v h = omega arith
lt-of_get_elem? (x ∷ xs) (suc i) v h = omega (arith, lt-of_get_elem? xs i v h)

pub store_state :
    {N : Type 0} (k : String) (v : Value N) (r : ReplayRunner N) → (store k v r).state ≡ r.state
unfolding store
store_state k v r = elim (Option-cases (get k r.state)) [
  | inl missing ↦ rw (missing, store) refl
  | inr (a, here) ↦ rw (here, store) refl
]

module _ {N : Type 0} (r : ReplayRunner N) (s : IsSound r) where
  pub look-bind :
      (j k : String) (v : Value N) → look j (bind k v r) ≡ (if str_eq k j then some v else look j r)
  unfolding look bind
  look-bind j k v = elim (Bool-cases (str_eq k j)) [
    | inl same ↦
        rw (get-put k j (length r.heap) r.state, same, get_elem?-concat r.heap (length r.heap) v)
          (ground arith)
    | inr other ↦
        rw (get-put k j (length r.heap) r.state, other)
          (elim (Option-cases (get j r.state)) [
            | inl missing ↦ rw missing
            | inr (a, here) ↦
                rw here (rw (get_elem?-concat r.heap a v) (ground (arith, s.within j a here)))
          ])
  ]

  pub bind-IsSound : (k : String) (v : Value N) → IsSound (bind k v r)
  unfolding bind
  bind-IsSound k v = record {
    within = λ i a h. within_lem i a (old i a) h;
    distinct = λ i j a hi hj. distinct_lem i j a (old i a) (old j a) (s.distinct i j a) hi hj;
  }
    where
      old : (i : String) (a : ℕ) → get i r.state ≡ some a → a < length r.heap
      old i a h = s.within i a h

      within_lem :
          (i : String) (a : ℕ)
          → (get i r.state ≡ some a → a < length r.heap)
          → get i (put k (length r.heap) r.state) ≡ some a
          → a < length (r.heap ++ v ∷ [])
      within_lem i a o h =
          ground (arith, length-append r.heap (v ∷ []), get-put k i (length r.heap) r.state)

      distinct_lem :
          (i j : String) (a : ℕ)
          → (get i r.state ≡ some a → a < length r.heap)
          → (get j r.state ≡ some a → a < length r.heap)
          → (get i r.state ≡ some a → get j r.state ≡ some a → i ≡ j)
          → get i (put k (length r.heap) r.state) ≡ some a
          → get j (put k (length r.heap) r.state) ≡ some a
          → i ≡ j
      distinct_lem i j a oi oj d hi hj = ground (
        arith,
        eq_iff k i,
        eq_iff k j,
        get-put k i (length r.heap) r.state,
        get-put k j (length r.heap) r.state,
      )

  pub look-store :
      (j k : String) (a : ℕ) (v : Value N)
      → get k r.state ≡ some a
      → look j (store k v r) ≡ (if str_eq k j then some v else look j r)
  unfolding look store
  look-store j k a v here =
      rw (here, store)
        (elim (Option-cases (get j r.state)) [
          | inl missing ↦ rw missing (ground (arith, eq_iff k j))
          | inr (b, there) ↦ rw there (
              rw (get_elem?-set r.heap a b v (s.within k a here)) (
                ground
                  (arith, eq_iff k j, λ (h : get j r.state ≡ some a). s.distinct k j a here h)))
        ])

  pub store-IsSound : (k : String) (v : Value N) → IsSound (store k v r)
  unfolding store
  store-IsSound k v = elim (Option-cases (get k r.state)) [
    | inl missing ↦ rw (missing, store) s
    | inr (a, here) ↦
        rw (here, store)
          (record {
            within = λ i b h. rw (length-set r.heap a v) (s.within i b h);
            distinct = s.distinct;
          })
  ]
