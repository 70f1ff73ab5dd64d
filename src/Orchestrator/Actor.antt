-- ===== src/Orchestrator/Actor.antt =====
-- paper_trading/orchestrator/actor.py: one asset's cycle and its health.
--
-- The actor holds its engine as a value of any type (`engine: Any`): `AssetEngine` is the part
-- that the actor calls. A call returns the engine after it, and what it returned or the text of
-- what it raised. The clock readings of a cycle are arguments. The WAL writer is the list of the
-- events handed to it: its `write` does not raise.
pub mod Records
pub mod Health
pub mod Snapshot
use quorrin.Base.{
  ℕ, suc, ◌+◌, ◌-◌, String, Bool, true, false, Option, none, some, List, [], ◌∷◌, ◌++◌, map, length,
  drop, ltb, leb, if◌then◌else◌, Float, lt,
}
use quorrin.Orchestrator.Actor.Records.{
  ActorHealth, green, degraded, halted, recovering, is_halted, ActorMetrics, new_metrics, Outcome,
  returned, raised, AssetEngine, ActorEvent, price_update, position_closed, signal_generated, Clock,
  ActorConfig, AssetActor, AssetResult, Actors,
}

module _ (F : Float) (E Signal Trade : Type 0) where
  open F use {Value, lit, add, sub, mul, div, round}

  abbrev Act : Type 0
  Act = AssetActor F E Signal Trade

  -- A part of the `try` block of `run_cycle`.
  abbrev Step : Type 0 → Type 0
  Step A = Act → Act × Outcome A

  infixl 5 ◌>>=◌ ◌>>◌
  abbrev ◌>>=◌ : {A B : Type 0} → Step A → (A → Step B) → Step B
  ◌>>=◌ m f a = let (a', r) = m a in elim r [ returned x ↦ f x a' | raised e ↦ (a', raised e) ]

  abbrev ◌>>◌ : {B : Type 0} → Step Unit → Step B → Step B
  m >> k = m >>= λ _. k

  abbrev call : {A : Type 0} → (E → E × Outcome A) → Step A
  call f a = let (e, r) = f a.engine in (record a { engine = e }, r)

  unfoldable pub write_events : List (ActorEvent F Signal Trade) → Act → Act
  write_events events a = record a {
    wal = elim a.wal [ none ↦ none | some log ↦ some (log ++ events) ];
  }

  module _ (ops : AssetEngine F E Signal Trade) where
    unfoldable pub write_price_update : Act → Act
    unfolding write_events
    write_price_update a = elim a.wal [
      | none ↦ a
      | some log ↦ elim (ops.current_price a.engine) [
        | none ↦ a
        | some price ↦ record (write_events (price_update price ∷ []) a) { last_price = some price }
      ]
    ]

    unfoldable pub write_position_events : Act → Act
    unfolding write_events
    write_position_events a =
        let trades = ops.trade_log a.engine in
        let fresh = map position_closed (drop a.last_trade_count trades) in
        elim a.wal [
          | none ↦ a
          | some log ↦
              record (if ltb a.last_trade_count (length trades) then write_events fresh a else a) {
                last_trade_count = length trades;
              }
        ]

    unfoldable pub write_signal : Option Signal → Act → Act
    unfolding write_events
    write_signal none a = a
    write_signal (some s) a = write_events (signal_generated s ∷ []) a

    abbrev quietly : (Act → Act) → Step Unit
    quietly f a = (f a, returned tt)

    -- the calls of the `try` block up to the signal
    unfoldable pub attempt : Step (Option Signal)
    attempt = do
      call ops.refresh_price
      quietly write_price_update
      call ops.update_pnl
      quietly write_position_events
      signal ← call ops.generate_signal
      quietly (write_signal signal)
      λ a. (a, returned signal)

  unfoldable pub handle_success : Clock F → Act → Act
  handle_success t a =
      let elapsed = mul (sub t.end t.start) (lit 1000 0) in
      let n = a.metrics.total_cycles in
      record a {
        metrics = record a.metrics {
          last_success_time = t.stamp;
          consecutive_failures = 0;
          consecutive_successes = a.metrics.consecutive_successes + 1;
          cycle_duration_ms = round elapsed 2;
          avg_duration_ms =
              round
                (div (add (mul a.metrics.avg_duration_ms (lit (n - 1) 0)) elapsed)
                  (lit (if ltb n 1 then 1 else n) 0))
                2;
        };
        health = green;
      }

  unfoldable pub handle_failure : ActorConfig F → Clock F → String → Act → Act
  handle_failure c t error a =
      let elapsed = mul (sub t.end t.start) (lit 1000 0) in
      let failures = a.metrics.consecutive_failures + 1 in
      record a {
        metrics = record a.metrics {
          last_failure_time = t.stamp;
          consecutive_failures = failures;
          total_failures = a.metrics.total_failures + 1;
          cycle_duration_ms = round elapsed 2;
        };
        fault_reason = error;
        health = if leb c.max_failures failures then halted else degraded;
      }

  unfoldable pub maybe_probe_recovery : ActorConfig F → Clock F → Act → Act
  maybe_probe_recovery c t a =
      if lt F (sub t.probe a.metrics.last_failure_time) c.recovery_cooldown
      then a
      else if lt F (sub t.probe a.last_recovery_probe) c.recovery_cooldown
      then a
      else record a { last_recovery_probe = t.probe; health = recovering }

  -- the two counters that every call of `run_cycle` raises
  unfoldable pub count_cycle : Act → Act
  count_cycle a = record a {
    metrics = record a.metrics {
      cycle_id = a.metrics.cycle_id + 1;
      total_cycles = a.metrics.total_cycles + 1;
    };
  }

  -- the end of `run_cycle`, behind the `try` and in the `except`
  unfoldable pub conclude :
      ActorConfig F → Clock F → Act × Outcome (Option Signal) → Act × AssetResult F Signal
  unfolding handle_success handle_failure
  conclude c t (a, returned signal) =
      let a' = handle_success t a in
      (
        record a' { persist_queue = a'.persist_queue ++ signal ∷ [] },
        record {
          success = true;
          signal = signal;
          error = none;
          cycle_id = a'.metrics.cycle_id;
          duration_ms = a'.metrics.cycle_duration_ms;
        },
      )
  conclude c t (a, raised error) =
      let a' = handle_failure c t error a in
      (
        a',
        record {
          success = false;
          signal = none;
          error = some error;
          cycle_id = a'.metrics.cycle_id;
          duration_ms = a'.metrics.cycle_duration_ms;
        },
      )

  -- the start of `run_cycle`: the counters, and the probe of a halted actor
  unfoldable pub begin_cycle : ActorConfig F → Clock F → Act → Act
  unfolding count_cycle maybe_probe_recovery
  begin_cycle c t a =
      let a1 = count_cycle a in if is_halted a1.health then maybe_probe_recovery c t a1 else a1

  -- `run_cycle`; the text of the refusal is shortened to the fault's reason
  unfoldable pub run_cycle :
      AssetEngine F E Signal Trade → ActorConfig F → Clock F → Act → Act × AssetResult F Signal
  run_cycle ops c t a0 =
      let a = begin_cycle c t a0 in
      if is_halted a.health
      then (
        a,
        record {
          success = false;
          signal = none;
          error = some a.fault_reason;
          cycle_id = a.metrics.cycle_id;
          duration_ms = lit 0 0;
        },
      )
      else conclude c t (attempt ops a)

  unfoldable pub drain_persist_queue : Act → Act × List (Option Signal)
  drain_persist_queue a = (record a { persist_queue = [] }, a.persist_queue)

  unfoldable pub reset : Act → Act
  unfolding new_metrics
  reset a = record a {
    health = green;
    metrics = new_metrics F;
    fault_reason = "";
    persist_queue = [];
  }
