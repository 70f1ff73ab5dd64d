-- ===== src/Base/Windows.antt =====
-- Bounded histories: a `deque(maxlen=n)`, and the chains that are cut by hand.
use Prim.Native.Nat.{ℕ, zero, suc, ◌+◌, ◌-◌, ◌≤◌, ◌<◌}
use mathlib.Core.Path.{◌≡◌, refl, ap, sym, ◌∙◌}
use mathlib.Core.Logic.{◌⊎◌, inl, inr}
use mathlib.Core.Bool.{true, false}
use mathlib.Core.List.{List, [], ◌∷◌, ◌++◌}
use native.Mathlib.Omega.{arith}
use quorrin.Base.Tests.{Bool-cases, leb→le, leb→lt, ltb, leb, if◌then◌else◌}
use quorrin.Base.Lists.{length, drop, last_n, length-append, length-drop}

le_or_lt : (m n : ℕ) → (m ≤ n) ⊎ (n < m)
le_or_lt m n = elim (Bool-cases (leb m n)) [
  | inl h ↦ inl (leb→le m n h)
  | inr h ↦ inr (leb→lt m n h)
]

module _ {ℓ} {A : Type ℓ} where
  drop-append : (n : ℕ) (xs ys : List A) → n ≤ length xs → drop n (xs ++ ys) ≡ drop n xs ++ ys
  drop-append zero xs ys h = refl
  drop-append (suc n) [] ys h = ground arith
  drop-append (suc n) (x ∷ xs) ys h = drop-append n xs ys (omega arith)

  drop-suc : (n : ℕ) (xs : List A) → drop 1 (drop n xs) ≡ drop (suc n) xs
  drop-suc zero xs = refl
  drop-suc (suc n) [] = refl
  drop-suc (suc n) (x ∷ xs) = drop-suc n xs

  last_n-drop : (n k : ℕ) (xs : List A) → 0 < n → length xs ≡ n + k → last_n n xs ≡ drop k xs
  last_n-drop n k xs p h =
      let e : length xs - n ≡ k = omega (arith, h) in ground (arith, ap (λ j. drop j xs) e)

  pub last_n-short : (n : ℕ) (xs : List A) → 0 < n → length xs ≤ n → last_n n xs ≡ xs
  last_n-short n xs p h =
      let e : length xs - n ≡ 0 = omega (arith, h) in ground (arith, ap (λ j. drop j xs) e)

  -- One more element in a full window drops the oldest one.
  unfoldable pub push : ℕ → A → List A → List A
  push n x window =
      let longer = window ++ x ∷ [] in if ltb n (length longer) then drop 1 longer else longer

  push-full :
      (n k : ℕ) (x : A) (h : List A)
      → 0 < n
      → length h ≡ n + k
      → push n x (last_n n h) ≡ last_n n (h ++ x ∷ [])
  unfolding push
  push-full n k x h p e =
      let window = last_n-drop n k h p e in
      let joined = drop-append k h (x ∷ []) (omega (arith, e)) in
      let longer : length (h ++ x ∷ []) ≡ n + suc k = omega (arith, length-append h (x ∷ []), e) in
      let size : length (drop k h ++ x ∷ []) ≡ n + 1 =
        omega (arith, length-append (drop k h) (x ∷ []), length-drop k h, e) in
      let full : ltb n (length (drop k h ++ x ∷ [])) ≡ true = ground (arith, size) in
      ap (push n x) window
      ∙ (rw full (sym (ap (drop 1) joined)))
      ∙ drop-suc k (h ++ x ∷ [])
      ∙ sym (last_n-drop n (suc k) (h ++ x ∷ []) p longer)

  push-short :
      (n : ℕ) (x : A) (h : List A)
      → 0 < n
      → length h < n
      → push n x (last_n n h) ≡ last_n n (h ++ x ∷ [])
  unfolding push
  push-short n x h p e =
      let size : length (h ++ x ∷ []) ≤ n = omega (arith, length-append h (x ∷ []), e) in
      let room : ltb n (length (h ++ x ∷ [])) ≡ false = ground (arith, size) in
      ap (push n x) (last_n-short n h p (omega (arith, e)))
      ∙ (rw room refl)
      ∙ sym (last_n-short n (h ++ x ∷ []) p size)

  pub push-last_n :
      (n : ℕ) (x : A) (h : List A) → 0 < n → push n x (last_n n h) ≡ last_n n (h ++ x ∷ [])
  push-last_n n x h p = elim (le_or_lt n (length h)) [
    | inl le ↦ push-full n (length h - n) x h p (omega (arith, le))
    | inr lt ↦ push-short n x h p lt
  ]
