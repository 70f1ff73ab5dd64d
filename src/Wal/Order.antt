-- ===== src/Wal/Order.antt =====
-- One writer by itself: order and completeness of the log.
use mathlib.Core.List.{append_assoc, append-nil, map-append}
use quorrin.Base.{
  ℕ, suc, ◌+◌, ◌≡◌, refl, sym, ◌∙◌, String, Bool, true, false, List, [], ◌∷◌, ◌++◌, map, length,
  length-append, arith, leb, Bool-cases, inl, inr,
}
use quorrin.Wal.{
  WalEvent, Json, Disk, stored, failed, WalWriter, write, flush, flush_lines, new_event,
}

-- Sequence numbers that follow one another from `n`.
abbrev pub Consecutive : {P : Type 0} → ℕ → List (WalEvent P) → Type 0
Consecutive n [] = Unit
Consecutive n (e ∷ es) = (e.sequence ≡ n) × Consecutive (suc n) es

Consecutive-append :
    {P : Type 0} (n : ℕ) (es : List (WalEvent P)) (e : WalEvent P)
    → Consecutive n es
    → e.sequence ≡ n + length es
    → Consecutive n (es ++ e ∷ [])
Consecutive-append n [] e c h = (omega arith, tt)
Consecutive-append n (x ∷ es) e c h = (c.0, Consecutive-append (suc n) es e c.1 (omega arith))

-- A call of the writer, and a disk that stores everything or nothing of an append.
pub data Call (P : Type 0) : Type 0 where
  write_call : String → P → String → Bool → Call P
  flush_call : Bool → Call P

abbrev disk_of : Bool → Disk
disk_of true = stored
disk_of false = failed 0

module _ {P : Type 0} (J : Json P) where
  pub run_call : Call P → WalWriter J → WalWriter J
  run_call (write_call event_type payload now fine) w =
      (write J event_type payload now (disk_of fine) w).0
  run_call (flush_call fine) w = flush J (disk_of fine) w

  pub run_calls : List (Call P) → WalWriter J → WalWriter J
  run_calls [] w = w
  run_calls (k ∷ ks) w = run_calls ks (run_call k w)

  -- File and buffer, one behind the other, are the events 1 to `seq` in order.
  pub record IsLog (w : WalWriter J) : Type 0 where
    pub events : List (WalEvent P)
    pub content : w.file ++ w.buffer ≡ map J.dumps events
    pub consecutive : Consecutive 1 events
    pub counted : length events ≡ w.seq

  -- A flush moves lines, in order.
  flush_lines-content :
      (lines : List J.Line) (fine : Bool) (w : WalWriter J)
      → w.buffer ≡ []
      → let w' = flush_lines J lines (disk_of fine) w in
        (w'.file ++ w'.buffer ≡ w.file ++ lines) × (w'.seq ≡ w.seq)
  unfolding flush_lines
  flush_lines-content [] fine w e = (rw e refl, refl)
  flush_lines-content (l ∷ ls) true w e = (rw e (append-nil _), refl)
  flush_lines-content (l ∷ ls) false w e = (rw (e, append-nil, append-nil), refl)

  IsLog-content :
      (e : WalEvent P) (w : WalWriter J) (events : List (WalEvent P))
      → w.file ++ w.buffer ≡ map J.dumps events
      → w.file ++ (w.buffer ++ J.dumps e ∷ []) ≡ map J.dumps (events ++ e ∷ [])
  IsLog-content e w events h = rw (← append_assoc) (rw (h, map-append))

  write-IsLog :
      (event_type : String) (payload : P) (now : String) (fine : Bool) (w : WalWriter J)
      → IsLog w
      → IsLog (write J event_type payload now (disk_of fine) w).0
  unfolding write
  write-IsLog event_type payload now fine w h =
      let e = new_event J event_type payload now w in
      let lines = w.buffer ++ J.dumps e ∷ [] in
      let w' = record w { seq = w.seq + 1; buffer = [] } in
      let moved = flush_lines-content lines fine w' refl in
      let content = IsLog-content e w h.events h.content in
      let consecutive = Consecutive-append 1 h.events e h.consecutive (omega (arith, h.counted)) in
      let counted : length (h.events ++ e ∷ []) ≡ w.seq + 1 =
        omega (arith, length-append h.events (e ∷ []), h.counted) in
      elim (Bool-cases (leb w.batch_size (length lines))) [
        | inl full ↦ rw full (record {
          events = h.events ++ e ∷ [];
          content = moved.0 ∙ content;
          consecutive = consecutive;
          counted = counted ∙ sym moved.1;
        })
        | inr room ↦ rw room (record {
          events = h.events ++ e ∷ [];
          content = content;
          consecutive = consecutive;
          counted = counted;
        })
      ]

  flush-IsLog : (fine : Bool) (w : WalWriter J) → IsLog w → IsLog (flush J (disk_of fine) w)
  unfolding flush
  flush-IsLog fine w h =
      let moved = flush_lines-content w.buffer fine (record w { buffer = [] }) refl in
      record {
        events = h.events;
        content = moved.0 ∙ h.content;
        consecutive = h.consecutive;
        counted = h.counted ∙ sym moved.1;
      }

  -- A log that is in order stays so through any calls of one writer, whether the disk stores an
  -- append whole or refuses it whole: file and buffer, one behind the other, are the events 1
  -- to `seq`, each once and in order.
  pub run_calls-IsLog : (ks : List (Call P)) (w : WalWriter J) → IsLog w → IsLog (run_calls ks w)
  unfolding run_calls run_call
  run_calls-IsLog [] w h = h
  run_calls-IsLog (write_call t p now fine ∷ ks) w h =
      run_calls-IsLog ks (write J t p now (disk_of fine) w).0 (write-IsLog t p now fine w h)
  run_calls-IsLog (flush_call fine ∷ ks) w h =
      run_calls-IsLog ks (flush J (disk_of fine) w) (flush-IsLog fine w h)
