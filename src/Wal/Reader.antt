-- ===== src/Wal/Reader.antt =====
-- Reading back what was written.
use mathlib.Core.List.{append_assoc, append-nil}
use quorrin.Base.{
  ℕ, suc, ◌+◌, ◌≡◌, refl, ap, ◌∙◌, List, [], ◌∷◌, ◌++◌, map, length, drop, ◌-◌, leb, tests,
  Bool-cases, inl, inr,
}
use quorrin.Wal.{
  WalEvent, Json, Reading, WalWriter, read_line, iter_events, read_all, read_from, from_sequence,
  flush, flush_lines, stored,
}
use quorrin.Wal.Order.{IsLog, Consecutive}

module _ {P : Type 0} (J : Json P) where
  -- The line of an event is read as that event.
  read_line-dumps :
      (e : WalEvent P) (r : Reading J)
      → read_line J (J.dumps e) r
        ≡ record r { events = r.events ++ e ∷ []; expected_seq = e.sequence + 1 }
  unfolding read_line
  read_line-dumps e r = rw (J.dumps_not_blank e, J.loads-dumps e)

  iter_events-dumps :
      (es : List (WalEvent P)) (r : Reading J)
      → ((iter_events J (map J.dumps es) r).events ≡ r.events ++ es)
        × ((iter_events J (map J.dumps es) r).corrupt_lines ≡ r.corrupt_lines)
  unfolding iter_events
  iter_events-dumps [] r = (rw append-nil, refl)
  iter_events-dumps (e ∷ es) r =
      let h =
        iter_events-dumps es
          (record r { events = r.events ++ e ∷ []; expected_seq = e.sequence + 1 }) in
      let step = ap (iter_events J (map J.dumps es)) (read_line-dumps e r) in
      (
        ap (λ x. x.events) step ∙ h.0 ∙ append_assoc r.events (e ∷ []) es,
        ap (λ x. x.corrupt_lines) step ∙ h.1,
      )

  read_all-dumps :
      (corrupt : ℕ) (es : List (WalEvent P))
      → ((read_all J corrupt (map J.dumps es)).events ≡ es)
        × ((read_all J corrupt (map J.dumps es)).corrupt_lines ≡ corrupt)
  unfolding read_all
  read_all-dumps corrupt es = iter_events-dumps es _

  flush_lines-stored :
      (lines : List J.Line) (w : WalWriter J)
      → (flush_lines J lines stored w).file ≡ w.file ++ lines
  unfolding flush_lines
  flush_lines-stored [] w = rw append-nil
  flush_lines-stored (l ∷ ls) w = refl

  flush-stored : (w : WalWriter J) → (flush J stored w).file ≡ w.file ++ w.buffer
  unfolding flush
  flush-stored w = flush_lines-stored w.buffer (record w { buffer = [] })

  -- A log in order that is flushed to a disk that stores it is read back as exactly the events
  -- 1 to `seq` in order, with no line counted as corrupt.
  pub read_all-flush :
      (corrupt : ℕ) (w : WalWriter J)
      → IsLog J w
      → let r = read_all J corrupt (flush J stored w).file in
        Consecutive 1 r.events
        × (length r.events ≡ w.seq)
        × (map J.dumps r.events ≡ w.file ++ w.buffer)
        × (r.corrupt_lines ≡ corrupt)
  read_all-flush corrupt w h =
      let (events, corrupts) = read_all-dumps corrupt h.events in
      rw (flush-stored w, h.content) (rw (events, corrupts) (h.consecutive, h.counted, refl, refl))

  drop-nil : (n : ℕ) → drop {A = WalEvent P} n [] ≡ []
  drop-nil ℕ.zero = refl
  drop-nil (suc n) = refl

  from_sequence-Consecutive :
      (seq n : ℕ) (es : List (WalEvent P))
      → Consecutive n es
      → from_sequence J seq es ≡ drop (seq - n) es
  unfolding from_sequence
  from_sequence-Consecutive seq n [] c = rw drop-nil
  from_sequence-Consecutive seq n (e ∷ es) c =
      let later = from_sequence-Consecutive seq (suc n) es c.1 in
      elim (Bool-cases (leb seq n)) [
        | inl below ↦
            let none_left : seq - suc n ≡ 0 = omega tests in
            let none_now : seq - n ≡ 0 = omega tests in
            let kept : from_sequence J seq es ≡ es = later ∙ ap (λ k. drop k es) none_left in
            rw (c.0, below, none_now, kept)
        | inr above ↦
            let some_left : seq - n ≡ suc (seq - suc n) = omega tests in
            rw (c.0, above, some_left) later
      ]

  -- From a log in order, reading from a sequence number yields exactly the events from that
  -- number on: the first `seq - 1` are left out, and no other.
  pub read_from-flush :
      (corrupt seq : ℕ) (w : WalWriter J)
      → IsLog J w
      → read_from J corrupt seq (flush J stored w).file
        ≡ drop (seq - 1) (read_all J corrupt (flush J stored w).file).events
  unfolding read_from
  read_from-flush corrupt seq w h = from_sequence-Consecutive seq 1 _ (read_all-flush corrupt w h).0
