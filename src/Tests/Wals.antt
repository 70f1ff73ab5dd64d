-- ===== src/Tests/Wals.antt =====
-- The write-ahead log.
use quorrin.Base.{
  ℕ, ◌+◌, ◌≡◌, refl, Bool, true, false, Option, none, some, List, [], ◌∷◌, ◌++◌, map, length, arith,
}
use quorrin.Wal.{WalEvent, Json, WalWriter, stored, flush, read_all}
use quorrin.Wal.Order.{Consecutive, IsLog, write_call, flush_call, run_calls, run_calls-IsLog}
use quorrin.Wal.Reader.{read_all-flush}
use quorrin.Wal.Threads.{
  Reach, start, quiet, HoldsEach, Reach-HoldsEach, Reach-overtaken, here, next, buffer_event,
}
use quorrin.Wal.LastSequence.{
  read_last_sequence, last_valid, read_last_sequence-last_valid, newline,
}

-- A line is an event, or blank.
abbrev json : Json ℕ
json = record {
  Line = Option (WalEvent ℕ);
  dumps = λ e. some e;
  loads = λ l. l;
  is_blank = λ l. elim l [ none ↦ true | some e ↦ false ];
  loads-dumps = λ e. refl;
  dumps_not_blank = λ e. refl;
}

abbrev empty : WalWriter json
empty = record {
  source = "rates";
  batch_size = 2;
  buffer = [];
  seq = 0;
  first_write = true;
  file = [];
}

empty-IsLog : IsLog json empty
empty-IsLog = record { events = []; content = refl; consecutive = tt; counted = refl }

run_calls-IsLog_example : IsLog json (
    run_calls json
      (write_call "signal" 4 "09:00" true
        ∷ write_call "signal" 5 "09:01" false
        ∷ flush_call true
        ∷ [])
      empty)
run_calls-IsLog_example =
    run_calls-IsLog json
      (write_call "signal" 4 "09:00" true
        ∷ write_call "signal" 5 "09:01" false
        ∷ flush_call true
        ∷ [])
      empty empty-IsLog

abbrev event : ℕ → WalEvent ℕ
event n = record {
  sequence = n;
  source = "rates";
  event_type = "signal";
  timestamp = "09:00";
  payload = n;
}

-- One event in the file, and one in the buffer.
abbrev written : WalWriter json
written = record empty { buffer = some (event 2) ∷ []; seq = 2; file = some (event 1) ∷ [] }

written-IsLog : IsLog json written
written-IsLog = record {
  events = event 1 ∷ event 2 ∷ [];
  content = refl;
  consecutive = (refl, (refl, tt));
  counted = refl;
}

read_all-flush_example :
    let r = read_all json 0 (flush json stored written).file in
    Consecutive 1 r.events
    × (length r.events ≡ 2)
    × (map json.dumps r.events ≡ written.file ++ written.buffer)
    × (r.corrupt_lines ≡ 0)
read_all-flush_example = read_all-flush json 0 written written-IsLog

abbrev one_buffered : Reach 5 start (record start { seq = 1; buffer = 1 ∷ [] })
one_buffered = next here (buffer_event start (omega arith))

Reach-HoldsEach_example : HoldsEach (record start { seq = 1; buffer = 1 ∷ [] })
Reach-HoldsEach_example = Reach-HoldsEach one_buffered

Reach-overtaken_example : Reach 1 (quiet 3 (1 ∷ [])) (quiet (3 + 2) (1 ∷ (3 + 2) ∷ (3 + 1) ∷ []))
Reach-overtaken_example = Reach-overtaken 3 (1 ∷ [])

abbrev no_bytes : List ℕ → Bool
no_bytes line = elim line [ [] ↦ true | c ∷ cs ↦ false ]

abbrev first_byte : List ℕ → Option ℕ
first_byte line = elim line [ [] ↦ none | c ∷ cs ↦ some c ]

read_last_sequence-last_valid_example :
    read_last_sequence no_bytes first_byte (7 ∷ newline ∷ 8 ∷ newline ∷ [])
    ≡ last_valid no_bytes first_byte (7 ∷ newline ∷ 8 ∷ newline ∷ [])
read_last_sequence-last_valid_example =
    read_last_sequence-last_valid no_bytes first_byte (7 ∷ newline ∷ 8 ∷ newline ∷ [])
