-- ===== src/Tests/Replays.antt =====
-- The replay of a log.
use quorrin.Base.{ℕ, ◌≡◌, refl, false, some, List, [], ◌∷◌, arith, All, String}
use quorrin.Base.Fixed.{fixed}
use quorrin.Base.Values.{num, str, obj, Fields, end, field, deep_merge, put_field, field_or_null}
use quorrin.Base.Dict.{get, put}
use quorrin.Replay
use quorrin.Replay.{ReplayRunner, new_runner, replay}
use quorrin.Replay.Handlers.{asset_of, on_entry, on_close}
use quorrin.Replay.Verify.{verify_continuity, assets_of, asset_in}
use quorrin.Replay.Shape.{EventShape}
use quorrin.Replay.Shape.Steps.{new_runner-IsShaped, str-ne}
use quorrin.Replay.Shape.Runs.{Returns, replay-Returns}
use quorrin.Replay.Continuity.{NoNan, started, verify_continuity-none}
use quorrin.Wal
use quorrin.Wal.{WalEvent, Json}
use quorrin.Tests.Data.{whole}

abbrev Payload : Type 0
Payload = Fields fixed.Value

-- A line is an event.
abbrev json : Json Payload
json = record {
  Line = WalEvent Payload;
  dumps = λ e. e;
  loads = λ l. some l;
  is_blank = λ l. false;
  loads-dumps = λ e. refl;
  dumps_not_blank = λ e. refl;
}

abbrev event : ℕ → String → Payload → WalEvent Payload
event n event_type payload = record {
  sequence = n;
  source = "EURUSD";
  event_type = event_type;
  timestamp = "09:00";
  payload = payload;
}

-- A checkpoint with one asset, an entry, and its close.
abbrev log : List (WalEvent Payload)
log =
    event 1 "state_committed" (field "assets" (obj (field "GBPUSD" (obj end) end)) end)
    ∷ event 2 "entry_executed"
        (field "side" (str "long") (field "fill_price" (num (whole 100)) end))
    ∷ event 3 "position_closed" (field "asset" (str "GBPUSD") (field "reason" (str "SL") end))
    ∷ []

log-EventShape : All EventShape (Wal.read_from json 0 0 log)
unfolding Wal.read_from Wal.read_line asset_of
log-EventShape = (
  (
    λ e. (
      (
        λ k. (field "GBPUSD" (obj end) end, refl, ((end, refl), tt)),
        λ k. absurd (str-ne "assets" "events_replayed" refl k),
      ),
      tt,
    ),
    ("EURUSD", refl),
  ),
  (
    (λ e. absurd (str-ne "entry_executed" "state_committed" refl e), ("EURUSD", refl)),
    ((λ e. absurd (str-ne "position_closed" "state_committed" refl e), ("GBPUSD", refl)), tt),
  ),
)

replay-Returns_example : Returns 0 (replay fixed json 0 0 log new_runner)
replay-Returns_example =
    replay-Returns fixed json 0 0 log 0 new_runner log-EventShape new_runner-IsShaped

log-NoNan : NoNan fixed (Wal.read_from json 0 0 log) (started fixed 0 new_runner)
unfolding Wal.read_from Wal.read_line new_runner Replay.bind Replay.look Replay.store Replay.apply
    Replay.count Replay.on_asset Replay.on_commit Replay.commit_entry Replay.add_one get put
    assets_of deep_merge put_field asset_in on_entry field_or_null on_close
log-NoNan = (refl, (refl, (refl, tt)))

-- Pass 1 reads another log, which is empty but for one event.
verify_continuity-none_example :
    (r' : ReplayRunner fixed.Value) × (verify_continuity fixed json
        (event 2 "actor_health" end ∷ [])
        0
        0
        2
        log
        new_runner
      ≡ some (r', []))
verify_continuity-none_example =
    verify_continuity-none fixed 0 json (event 2 "actor_health" end ∷ []) 0 0 2 log new_runner
      (omega arith) log-EventShape log-NoNan new_runner-IsShaped
