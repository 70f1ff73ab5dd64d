-- ===== src/Wal/LastSequence.antt =====
-- `_read_last_sequence`: the last sequence number of a file, read backwards in chunks.
--
-- The file is its bytes. `sequence_of` is what `json.loads` and `get("sequence", 0)` make of a
-- line that is not blank, `none` where the line does not load.
use mathlib.Core.List.{reverse, reverse-append, append_assoc, append-nil}
use native.Mathlib.Nat.{zero-add}
use quorrin.Base.{
  ℕ, suc, ◌+◌, ◌-◌, ◌*◌, ◌≤◌, ◌≡◌, refl, sym, ap, ◌∙◌, Bool, Option, none, some, List, [], ◌∷◌,
  ◌++◌, length, take, drop, min, arith, ◌==◌, if◌then◌else◌, Bool-cases, inl, inr,
}

-- `split(b"\n")`: the first line, and the others
abbrev pub Lines : Type 0
Lines = List ℕ × List (List ℕ)

abbrev pub newline : ℕ
newline = 10

unfoldable pub split : List ℕ → Lines
split [] = ([], [])
split (c ∷ cs) =
    let (line, rest) = split cs in if c == newline then ([], line ∷ rest) else (c ∷ line, rest)

module _ (is_blank : List ℕ → Bool) (sequence_of : List ℕ → Option ℕ) where
  -- the sequence number of one line, if it is not blank and loads
  abbrev pub valid : List ℕ → Option ℕ
  valid line = if is_blank line then none else sequence_of line

  -- the loop over `reversed(lines[1:])`
  unfoldable pub first_valid : List (List ℕ) → Option ℕ
  first_valid [] = none
  first_valid (line ∷ rest) = elim (valid line) [ none ↦ first_valid rest | some n ↦ some n ]

  abbrev or_zero : Option ℕ → ℕ
  or_zero none = 0
  or_zero (some n) = n

  -- the `while` loop, with fuel; `remaining` bytes are unread, and `last` is the first line of
  -- what has been read
  unfoldable pub read_back : ℕ → ℕ → List ℕ → ℕ → List ℕ → ℕ
  unfolding first_valid split
  read_back ℕ.zero chunk_size file remaining last = or_zero (valid last)
  read_back (suc fuel) chunk_size file remaining last =
      let size = min chunk_size remaining in
      let chunk = take size (drop (remaining - size) file) in
      let (line, rest) = split (chunk ++ last) in
      let further = read_back fuel chunk_size file (remaining - size) line in
      if remaining == 0
      then or_zero (valid last)
      else elim (first_valid (reverse rest)) [ none ↦ further | some n ↦ n ]

  -- The chunk is of 8192 bytes. Each round reads at least one byte, so as much fuel as there
  -- are bytes is enough.
  unfoldable pub read_last_sequence : List ℕ → ℕ
  unfolding read_back
  read_last_sequence file = read_back (length file) 8192 file (length file) []

  -- The last line of all that is not blank and loads.
  unfoldable pub last_valid : List ℕ → ℕ
  unfolding first_valid split
  last_valid file = let (line, rest) = split file in or_zero (first_valid (reverse (line ∷ rest)))

  first_valid-append :
      (xs ys : List (List ℕ))
      → first_valid (xs ++ ys) ≡ elim (first_valid xs) [ none ↦ first_valid ys | some n ↦ some n ]
  unfolding first_valid
  first_valid-append [] ys = refl
  first_valid-append (x ∷ xs) ys = ground (arith, first_valid-append xs ys)

-- A line that is split off has no newline: it is split into itself alone.
split-first : (cs : List ℕ) → split (split cs).0 ≡ ((split cs).0, [])
unfolding split
split-first [] = refl
split-first (c ∷ cs) = ground (arith, split-first cs)

-- Splitting may be done from the back, a piece at a time.
split-append :
    (xs ys : List ℕ)
    → split (xs ++ ys)
      ≡ (let (line, rest) = split (xs ++ (split ys).0) in (line, rest ++ (split ys).1))
unfolding split
split-append [] ys = rw split-first
split-append (c ∷ xs) ys = ground (arith, split-append xs ys)

take-nil : (n : ℕ) → take {A = ℕ} n [] ≡ []
take-nil ℕ.zero = refl
take-nil (suc n) = refl

take-length : (xs : List ℕ) → take (length xs) xs ≡ xs
take-length [] = refl
take-length (x ∷ xs) = ap (λ ys. x ∷ ys) (take-length xs)

take-add : (m n : ℕ) (xs : List ℕ) → take (m + n) xs ≡ take m xs ++ take n (drop m xs)
take-add ℕ.zero n xs = rw zero-add
take-add (suc m) n [] = take-nil (suc m + n) ∙ sym (take-nil n)
take-add (suc m) n (x ∷ xs) =
    let next : suc m + n ≡ suc (m + n) = omega arith in
    rw next (ap (λ ys. x ∷ ys) (take-add m n xs))

module _ (is_blank : List ℕ → Bool) (sequence_of : List ℕ → Option ℕ) where
  last_valid-line :
      (line : List ℕ)
      → split line ≡ (line, [])
      → last_valid is_blank sequence_of line
        ≡ or_zero is_blank sequence_of (valid is_blank sequence_of line)
  unfolding last_valid
  last_valid-line line e = rw e (ground arith)

  -- What stands behind the first line of a later piece is looked at first.
  last_valid-append :
      (xs ys : List ℕ)
      → last_valid is_blank sequence_of (xs ++ ys)
        ≡ elim (first_valid is_blank sequence_of (reverse (split ys).1)) [
          | none ↦ last_valid is_blank sequence_of (xs ++ (split ys).0)
          | some n ↦ n
        ]
  unfolding last_valid
  last_valid-append xs ys =
      let (line, rest) = split (xs ++ (split ys).0) in
      rw split-append (
        ground (
          arith,
          reverse-append (line ∷ rest) (split ys).1,
          first_valid-append is_blank sequence_of (reverse (split ys).1) (reverse (line ∷ rest)),
        ))

  one_less :
      (rounds size remaining : ℕ)
      → remaining ≤ suc rounds * size
      → remaining - min size remaining ≤ rounds * size
  one_less rounds size remaining h =
      let e : suc rounds * size ≡ size + rounds * size = omega arith in omega (arith, h, e)

  read_back-last_valid :
      (fuel chunk_size : ℕ) (file : List ℕ) (remaining : ℕ) (last : List ℕ)
      → remaining ≤ fuel * chunk_size
      → split last ≡ (last, [])
      → read_back is_blank sequence_of fuel chunk_size file remaining last
        ≡ last_valid is_blank sequence_of (take remaining file ++ last)
  unfolding read_back
  read_back-last_valid ℕ.zero chunk_size file remaining last enough one_line =
      let done : remaining ≡ 0 = ground arith in rw done (sym (last_valid-line last one_line))
  read_back-last_valid (suc fuel) chunk_size file remaining last enough one_line =
      elim (Bool-cases (remaining == 0)) [
        | inl at_start ↦
            let done : remaining ≡ 0 = ground arith in rw done (sym (last_valid-line last one_line))
        | inr more ↦
            let size = min chunk_size remaining in
            let left = remaining - size in
            let chunk = take size (drop left file) in
            let whole : left + size ≡ remaining = omega arith in
            let bytes : take remaining file ++ last ≡ take left file ++ (chunk ++ last) =
              ap (λ k. take k file ++ last) (sym whole)
              ∙ ap (λ b. b ++ last) (take-add left size file)
              ∙ append_assoc (take left file) chunk last in
            let further =
              read_back-last_valid fuel chunk_size file left (split (chunk ++ last)).0
                (one_less fuel chunk_size remaining enough) (split-first (chunk ++ last)) in
            rw (bytes, more)
              (ground (arith, last_valid-append (take left file) (chunk ++ last), further))
      ]

  -- With chunks of any size, as many rounds of the loop are enough as chunks cover the file:
  -- each further round would change nothing, and the result is that of reading the whole file.
  pub read_back-rounds :
      (rounds chunk_size : ℕ) (file : List ℕ)
      → length file ≤ rounds * chunk_size
      → read_back is_blank sequence_of rounds chunk_size file (length file) []
        ≡ last_valid is_blank sequence_of file
  read_back-rounds rounds chunk_size file enough =
      read_back-last_valid rounds chunk_size file (length file) [] enough (unfold split in refl)
      ∙ ap (last_valid is_blank sequence_of)
          (append-nil (take (length file) file) ∙ take-length file)

  -- Reading backwards in chunks finds the sequence number of the last line of the file that is
  -- not blank and loads, or 0 where there is none, as reading the whole file would; the loop
  -- ends.
  pub read_last_sequence-last_valid :
      (file : List ℕ)
      → read_last_sequence is_blank sequence_of file ≡ last_valid is_blank sequence_of file
  unfolding read_last_sequence
  read_last_sequence-last_valid file = read_back-rounds (length file) 8192 file (omega arith)
