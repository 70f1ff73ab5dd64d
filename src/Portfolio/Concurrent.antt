-- ===== src/Portfolio/Concurrent.antt =====
-- The number of positions behind an admission over a built snapshot.
use quorrin.Base.{ℕ, ◌+◌, none, some, [], ◌∷◌, Float}
use quorrin.Portfolio.{Actors}

module _ (F : Float) where
  open F use {Value}

  -- The engines that hold a position.
  abbrev pub count_open : Actors F → ℕ
  count_open [] = 0
  count_open ((name, none) ∷ rest) = count_open rest
  count_open ((name, some e) ∷ rest) = (elim e.position [ none ↦ 0 | some p ↦ 1 ]) + count_open rest
