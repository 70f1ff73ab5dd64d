-- ===== src/Orchestrator/Actor/Health.antt =====
-- The health of an actor over its cycles, whatever its engine does.
use quorrin.Base.{
  ◌+◌, ◌≤◌, ◌<◌, ◌≡◌, ◌≢◌, ◌⊎◌, String, true, false, Option, List, [], ◌∷◌, arith, Float, length,
  lt, leb, if◌then◌else◌, Bool-cases, inl, inr,
}
use quorrin.Orchestrator.Actor.{
  attempt, run_cycle, conclude, begin_cycle, write_price_update, write_position_events,
  write_signal,
}
use quorrin.Orchestrator.Actor.Records.{
  green, degraded, halted, recovering, is_halted, Outcome, returned, raised, AssetEngine,
  AssetActor, ActorConfig, Clock,
}

module _ (F : Float) (E Signal Trade : Type 0) (c : ActorConfig F) where
  -- What holds of an actor between two cycles: the health tells how the count of consecutive
  -- failures stands to the limit, and no recovery probe is under way.
  pub record IsHealthy (a : AssetActor F E Signal Trade) : Type 0 where
    pub at_green : a.health ≡ green → a.metrics.consecutive_failures ≡ 0
    pub at_degraded :
        a.health ≡ degraded
        → (0 < a.metrics.consecutive_failures) × (a.metrics.consecutive_failures < c.max_failures)
    pub at_halted : a.health ≡ halted → c.max_failures ≤ a.metrics.consecutive_failures
    pub no_probe : a.health ≢ recovering

  module _ (ops : AssetEngine F E Signal Trade) where
    -- The `try` block leaves health and counters alone.
    attempt_keeps :
        (a : AssetActor F E Signal Trade)
        → ((attempt F E Signal Trade ops a).0.health ≡ a.health)
          × ((attempt F E Signal Trade ops a).0.metrics ≡ a.metrics)
    unfolding attempt write_price_update write_position_events write_signal
    attempt_keeps a = ground arith

    conclude-IsHealthy :
        (t : Clock F) (p : AssetActor F E Signal Trade × Outcome (Option Signal))
        → IsHealthy (conclude F E Signal Trade c t p).0
    unfolding conclude
    conclude-IsHealthy t (a, returned s) = ground arith
    conclude-IsHealthy t (a, raised e) = ground arith

    begin_cycle-IsHealthy :
        (t : Clock F) (a : AssetActor F E Signal Trade)
        → IsHealthy a
        → is_halted (begin_cycle F E Signal Trade c t a).health ≡ true
        → IsHealthy (begin_cycle F E Signal Trade c t a)
    unfolding begin_cycle
    begin_cycle-IsHealthy t a h e = ground arith

    -- An actor that is GREEN with no failure counted, or DEGRADED with fewer failures than the
    -- limit, or HALTED with the limit reached, and that has no recovery probe under way, stays
    -- so in a cycle, whatever the engine does and whatever the clock says.
    pub run_cycle-IsHealthy :
        (t : Clock F) (a : AssetActor F E Signal Trade)
        → IsHealthy a
        → IsHealthy (run_cycle F E Signal Trade ops c t a).0
    unfolding run_cycle
    run_cycle-IsHealthy t a h =
        elim (Bool-cases (is_halted (begin_cycle F E Signal Trade c t a).health)) [
          | inl e ↦ rw e (begin_cycle-IsHealthy t a h e)
          | inr e ↦ rw e (conclude-IsHealthy t _)
        ]

    -- A HALTED actor whose cooldown is not over, measured from the last failure or from the
    -- last probe, does not touch its engine or its WAL: the cycle fails, the actor stays HALTED
    -- and no failure is counted.
    pub run_cycle_suspended :
        (t : Clock F) (a : AssetActor F E Signal Trade)
        → a.health ≡ halted
        → ((lt F (F.sub t.probe a.metrics.last_failure_time) c.recovery_cooldown ≡ true)
            ⊎ (lt F (F.sub t.probe a.last_recovery_probe) c.recovery_cooldown ≡ true))
        → let (a', r) = run_cycle F E Signal Trade ops c t a in
          (a'.engine ≡ a.engine)
          × (a'.wal ≡ a.wal)
          × (a'.health ≡ halted)
          × (a'.metrics.consecutive_failures ≡ a.metrics.consecutive_failures)
          × (r.success ≡ false)
    unfolding run_cycle begin_cycle
    run_cycle_suspended t a e w = ground arith

  -- The cycles at the given clock readings, one after another.
  pub run_cycles :
      AssetEngine F E Signal Trade
      → List (Clock F)
      → AssetActor F E Signal Trade
      → AssetActor F E Signal Trade
  run_cycles ops [] a = a
  run_cycles ops (t ∷ ts) a = run_cycles ops ts (run_cycle F E Signal Trade ops c t a).0

  -- An engine whose price refresh always raises.
  abbrev pub Broken : AssetEngine F E Signal Trade → Type 0
  Broken ops = (e : E) → (m : String) × ((ops.refresh_price e).1 ≡ raised m)

  module _ (ops : AssetEngine F E Signal Trade) (broken : Broken ops) where
    broken_cycle :
        (t : Clock F) (a : AssetActor F E Signal Trade)
        → is_halted a.health ≡ false
        → let a' = (run_cycle F E Signal Trade ops c t a).0 in
          (a'.metrics.consecutive_failures ≡ a.metrics.consecutive_failures + 1)
          × (a'.health ≡ (
              if leb c.max_failures (a.metrics.consecutive_failures + 1) then halted else degraded))
    unfolding run_cycle begin_cycle attempt conclude
    broken_cycle t a e = let (m, r) = broken a.engine in ground arith

    broken_run :
        (t : Clock F) (ts : List (Clock F)) (a : AssetActor F E Signal Trade)
        → is_halted a.health ≡ false
        → a.metrics.consecutive_failures + length (t ∷ ts) ≤ c.max_failures
        → let a' = run_cycles ops (t ∷ ts) a in
          (a'.metrics.consecutive_failures ≡ a.metrics.consecutive_failures + length (t ∷ ts))
          × (a'.health ≡ (
              if leb c.max_failures (a.metrics.consecutive_failures + length (t ∷ ts))
              then halted
              else degraded))
    unfolding run_cycles
    broken_run t [] a e h = broken_cycle t a e
    broken_run t (u ∷ us) a e h =
        let a' = (run_cycle F E Signal Trade ops c t a).0 in
        let b = broken_cycle t a e in
        let r = broken_run u us a' (ground (arith, b)) (omega (arith, b.0)) in ground (arith, b, r)

    -- With an engine whose price refresh always raises, an actor that is not halted and counts
    -- no failure is DEGRADED after any number of cycles from 1 up to one below the limit, and
    -- HALTED after as many cycles as the limit says; each cycle counts one failure.
    pub run_cycles_halt :
        (t : Clock F) (ts : List (Clock F)) (a : AssetActor F E Signal Trade)
        → is_halted a.health ≡ false
        → a.metrics.consecutive_failures ≡ 0
        → length (t ∷ ts) ≤ c.max_failures
        → let a' = run_cycles ops (t ∷ ts) a in
          (a'.metrics.consecutive_failures ≡ length (t ∷ ts))
          × (a'.health ≡ (if leb c.max_failures (length (t ∷ ts)) then halted else degraded))
    run_cycles_halt t ts a e z h = let r = broken_run t ts a e (omega arith) in ground (arith, r)
