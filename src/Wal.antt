-- ===== src/Wal.antt =====
-- paper_trading/replay/wal.py: the write-ahead log, its writer and its reader.
--
-- `Json` is what the module uses of Python's json: a line of the file for an event, and the
-- event of a line, `none` where loading fails. The clock's text is an argument of `write`. What
-- the disk does to an append is an argument too: it stores the lines, or raises OSError after a
-- number of them have reached the file.
pub mod Order
pub mod Reader
pub mod Threads
pub mod LastSequence
use quorrin.Base.{
  ℕ, suc, ◌+◌, String, Bool, true, false, Option, none, some, List, [], ◌∷◌, ◌++◌, map, length,
  last_n, take, ltb, leb, ◌≡◌, if◌then◌else◌,
}

pub record WalEvent (P : Type 0) : Type 0 where
  pub sequence : ℕ
  pub source : String
  pub event_type : String
  pub timestamp : String
  pub payload : P

pub record Json (P : Type 0) : Type 1 where
  pub Line : Type 0
  pub dumps : WalEvent P → Line
  pub loads : Line → Option (WalEvent P)
  pub is_blank : Line → Bool
  pub loads-dumps : (e : WalEvent P) → loads (dumps e) ≡ some e
  pub dumps_not_blank : (e : WalEvent P) → is_blank (dumps e) ≡ false

pub data Disk : Type 0 where
  stored : Disk
  failed : ℕ → Disk

module _ {P : Type 0} (J : Json P) where
  open J use {Line, dumps, loads, is_blank}

  -- The writer, with the lines of its file.
  pub record WalWriter : Type 0 where
    pub source : String
    pub batch_size : ℕ
    pub buffer : List Line
    pub seq : ℕ
    pub first_write : Bool
    pub file : List Line

  -- `_flush_lines`
  unfoldable pub flush_lines : List Line → Disk → WalWriter → WalWriter
  flush_lines [] disk w = w
  flush_lines (l ∷ ls) stored w = record w { file = w.file ++ l ∷ ls; first_write = false }
  flush_lines (l ∷ ls) (failed n) w = record w {
    file = w.file ++ take n (l ∷ ls);
    buffer = (l ∷ ls) ++ w.buffer;
  }

  unfoldable pub new_event : String → P → String → WalWriter → WalEvent P
  new_event event_type payload now w = record {
    sequence = w.seq + 1;
    source = w.source;
    event_type = event_type;
    timestamp = now;
    payload = payload;
  }

  -- `write`: the event is buffered, and a full buffer is flushed
  unfoldable pub write : String → P → String → Disk → WalWriter → WalWriter × WalEvent P
  unfolding flush_lines new_event
  write event_type payload now disk w =
      let event = new_event event_type payload now w in
      let lines = w.buffer ++ dumps event ∷ [] in
      let w' = record w { seq = w.seq + 1; buffer = lines } in
      if leb w.batch_size (length lines)
      then (flush_lines lines disk (record w' { buffer = [] }), event)
      else (w', event)

  unfoldable pub flush : Disk → WalWriter → WalWriter
  unfolding flush_lines
  flush disk w = flush_lines w.buffer disk (record w { buffer = [] })

  -- What `_iter_events` has read: the events, the count of corrupt lines, and the sequence
  -- number expected next.
  pub record Reading : Type 0 where
    pub events : List (WalEvent P)
    pub corrupt_lines : ℕ
    pub expected_seq : ℕ

  unfoldable pub read_line : Line → Reading → Reading
  read_line line r = if is_blank line then r else elim (loads line) [
    | none ↦ record r { corrupt_lines = r.corrupt_lines + 1 }
    | some e ↦ record r { events = r.events ++ e ∷ []; expected_seq = e.sequence + 1 }
  ]

  unfoldable pub iter_events : List Line → Reading → Reading
  iter_events [] r = r
  iter_events (line ∷ rest) r = iter_events rest (read_line line r)

  -- `_iter_events` and `read_all`, where `corrupt` lines were counted before
  unfoldable pub read_all : ℕ → List Line → Reading
  unfolding iter_events
  read_all corrupt file =
      iter_events file (record { events = []; corrupt_lines = corrupt; expected_seq = 1 })

  unfoldable pub from_sequence : ℕ → List (WalEvent P) → List (WalEvent P)
  from_sequence seq [] = []
  from_sequence seq (e ∷ rest) =
      let more = from_sequence seq rest in if leb seq e.sequence then e ∷ more else more

  unfoldable pub read_from : ℕ → ℕ → List Line → List (WalEvent P)
  unfolding from_sequence read_all
  read_from corrupt seq file = from_sequence seq (read_all corrupt file).events

  unfoldable pub read_last : ℕ → ℕ → List Line → List (WalEvent P)
  unfolding read_all
  read_last corrupt n file = last_n n (read_all corrupt file).events
