-- ===== src/Wal/Threads.antt =====
-- Several threads on one writer: `write` and `flush` take the buffer under the lock and append
-- it to the file outside of the lock, so other calls run in between.
--
-- A line stands as its sequence number. `taken` holds the batches that threads have taken and
-- not yet appended. One append is one step: the file is opened in append mode and written once.
use mathlib.Core.Path.{ap₂}
use mathlib.Core.List.{append_assoc}
use quorrin.Base.{
  ℕ, ◌+◌, ◌≤◌, ◌<◌, ◌≡◌, ◌≢◌, refl, ap, subst, ◌∙◌, List, [], ◌∷◌, ◌++◌, length, arith, leb, ◌==◌,
  ◌&&◌, if◌then◌else◌,
}

pub record Shared : Type 0 where
  pub seq : ℕ
  pub buffer : List ℕ
  pub taken : List (List ℕ)
  pub file : List ℕ

-- One step of some thread, with `batch` the batch size.
pub data Step (batch : ℕ) : Shared → Shared → Type 0 where
  -- `write` below the batch size
  buffer_event :
      (s : Shared)
      → length s.buffer + 1 < batch
      → Step batch s (record s { seq = s.seq + 1; buffer = s.buffer ++ (s.seq + 1) ∷ [] })
  -- `write` at the batch size takes the buffer
  fill_batch :
      (s : Shared)
      → batch ≤ length s.buffer + 1
      → Step batch s (record s {
        seq = s.seq + 1;
        buffer = [];
        taken = s.taken ++ (s.buffer ++ (s.seq + 1) ∷ []) ∷ [];
      })
  -- `flush` takes the buffer
  take_buffer :
      (s : Shared)
      → s.buffer ≢ []
      → Step batch s (record s { buffer = []; taken = s.taken ++ s.buffer ∷ [] })
  -- the file takes a batch
  store :
      (s : Shared) (before after : List (List ℕ)) (lines : List ℕ)
      → s.taken ≡ before ++ lines ∷ after
      → Step batch s (record s { file = s.file ++ lines; taken = before ++ after })
  -- the disk refuses a batch, which goes back before the buffer
  rebuffer :
      (s : Shared) (before after : List (List ℕ)) (lines : List ℕ)
      → s.taken ≡ before ++ lines ∷ after
      → Step batch s (record s { buffer = lines ++ s.buffer; taken = before ++ after })

pub data Reach (batch : ℕ) (s : Shared) : Shared → Type 0 where
  here : Reach batch s s
  next : {t u : Shared} → Reach batch s t → Step batch t u → Reach batch s u

abbrev pub start : Shared
start = record { seq = 0; buffer = []; taken = []; file = [] }

abbrev pub count : ℕ → List ℕ → ℕ
count k [] = 0
count k (x ∷ xs) = (if x == k then 1 else 0) + count k xs

abbrev pub count_all : ℕ → List (List ℕ) → ℕ
count_all k [] = 0
count_all k (l ∷ ls) = count k l + count_all k ls

count-append : (k : ℕ) (xs ys : List ℕ) → count k (xs ++ ys) ≡ count k xs + count k ys
count-append k [] ys = omega arith
count-append k (x ∷ xs) ys = omega (arith, count-append k xs ys)

count_all-append :
    (k : ℕ) (xs ys : List (List ℕ)) → count_all k (xs ++ ys) ≡ count_all k xs + count_all k ys
count_all-append k [] ys = omega arith
count_all-append k (x ∷ xs) ys = omega (arith, count_all-append k xs ys)

-- How often a sequence number is held: in the file, by a thread, or in the buffer.
abbrev pub held : ℕ → Shared → ℕ
held k s = count k s.file + count_all k s.taken + count k s.buffer

-- Once for each number that was given out, and never for another.
abbrev pub HoldsEach : Shared → Type 0
HoldsEach s = (k : ℕ) → held k s ≡ (if leb 1 k && leb k s.seq then 1 else 0)

Step-HoldsEach : {batch : ℕ} {s t : Shared} → Step batch s t → HoldsEach s → HoldsEach t
Step-HoldsEach (buffer_event s room) h k =
    ground (arith, h k, count-append k s.buffer ((s.seq + 1) ∷ []))
Step-HoldsEach (fill_batch s full) h k = ground (
  arith,
  h k,
  count-append k s.buffer ((s.seq + 1) ∷ []),
  count_all-append k s.taken ((s.buffer ++ (s.seq + 1) ∷ []) ∷ []),
)
Step-HoldsEach (take_buffer s some_lines) h k =
    ground (arith, h k, count_all-append k s.taken (s.buffer ∷ []))
Step-HoldsEach (store s before after lines e) h k = ground (
  arith,
  h k,
  count-append k s.file lines,
  count_all-append k before after,
  count_all-append k before (lines ∷ after),
)
Step-HoldsEach (rebuffer s before after lines e) h k = ground (
  arith,
  h k,
  count-append k lines s.buffer,
  count_all-append k before after,
  count_all-append k before (lines ∷ after),
)

-- Under any interleaving of any number of threads, with appends that the disk stores or refuses
-- whole, each sequence number that was given out is held exactly once, in the file, by a thread
-- or in the buffer: no event is lost and none is written twice.
pub Reach-HoldsEach : {batch : ℕ} {s : Shared} → Reach batch start s → HoldsEach s
Reach-HoldsEach here k = ground arith
Reach-HoldsEach (next r st) k = Step-HoldsEach st (Reach-HoldsEach r) k

-- Nothing buffered and nothing taken.
abbrev pub quiet : ℕ → List ℕ → Shared
quiet n file = record { seq = n; buffer = []; taken = []; file = file }

-- The file need not be in the order of the sequence numbers: from any quiet state, with a batch
-- size of 1, two writes whose appends overtake one another lead to a quiet state with the later
-- event before the earlier one in the file.
pub Reach-overtaken :
    (n : ℕ) (file : List ℕ)
    → Reach 1 (quiet n file) (quiet (n + 2) (file ++ (n + 2) ∷ (n + 1) ∷ []))
Reach-overtaken n file =
    let first = n + 1 in
    let second = first + 1 in
    let s0 = quiet n file in
    let s1 = record s0 { seq = first; taken = (first ∷ []) ∷ [] } in
    let s2 = record s1 { seq = second; taken = (first ∷ []) ∷ (second ∷ []) ∷ [] } in
    let s3 = record s2 { taken = (first ∷ []) ∷ []; file = file ++ second ∷ [] } in
    let two : second ≡ n + 2 = omega arith in
    let order : (file ++ second ∷ []) ++ first ∷ [] ≡ file ++ (n + 2) ∷ (n + 1) ∷ [] =
      append_assoc file (second ∷ []) (first ∷ []) ∙ ap (λ k. file ++ k ∷ first ∷ []) two in
    subst (Reach 1 s0) (ap₂ quiet two order) (
      next
        (next (next (next here (fill_batch s0 (omega arith))) (fill_batch s1 (omega arith)))
          (store s2 ((first ∷ []) ∷ []) [] (second ∷ []) refl))
        (store s3 [] [] (first ∷ []) refl))
