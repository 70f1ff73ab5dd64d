-- ===== src/Orchestrator/Actor/Snapshot.antt =====
-- `compute_health_snapshot`: the healths of all actors counted.
use quorrin.Base.{ℕ, ◌+◌, ◌≡◌, List, [], ◌∷◌, Bool, length, arith, Float, lt, ltb, if◌then◌else◌}
use quorrin.Orchestrator.Actor.Records.{ActorHealth, AssetActor}

pub record ActorHealthSnapshot : Type 0 where
  pub green : ℕ
  pub degraded : ℕ
  pub halted : ℕ
  pub recovering : ℕ
  pub total_failures : ℕ
  pub total_cycles : ℕ
  pub total_assets : ℕ

abbrev count_health : ActorHealth → ActorHealthSnapshot → ActorHealthSnapshot
count_health ActorHealth.green s = record s { green = s.green + 1 }
count_health ActorHealth.degraded s = record s { degraded = s.degraded + 1 }
count_health ActorHealth.halted s = record s { halted = s.halted + 1 }
count_health ActorHealth.recovering s = record s { recovering = s.recovering + 1 }

module _ (F : Float) {E Signal Trade : Type 0} where
  count_actor : AssetActor F E Signal Trade → ActorHealthSnapshot → ActorHealthSnapshot
  count_actor a s =
      let t = count_health a.health s in
      record t {
        total_failures = t.total_failures + a.metrics.total_failures;
        total_cycles = t.total_cycles + a.metrics.total_cycles;
      }

  count_actors : List (AssetActor F E Signal Trade) → ActorHealthSnapshot → ActorHealthSnapshot
  count_actors [] s = s
  count_actors (a ∷ rest) s = count_actors rest (count_actor a s)

  -- `ActorHealthSnapshot(total_assets=len(actors))`
  abbrev start : List (AssetActor F E Signal Trade) → ActorHealthSnapshot
  start actors = record {
    green = 0;
    degraded = 0;
    halted = 0;
    recovering = 0;
    total_failures = 0;
    total_cycles = 0;
    total_assets = length actors;
  }

  unfoldable pub compute_health_snapshot : List (AssetActor F E Signal Trade) → ActorHealthSnapshot
  unfolding count_actors count_actor
  compute_health_snapshot actors = count_actors actors (start actors)

-- `halt_ratio` and `is_system_healthy`
unfoldable pub halt_ratio : (F : Float) → ActorHealthSnapshot → F.Value
halt_ratio F s =
    F.div (F.lit s.halted 0) (F.lit (if ltb s.total_assets 1 then 1 else s.total_assets) 0)

unfoldable pub is_system_healthy : (F : Float) → ActorHealthSnapshot → Bool
unfolding halt_ratio
is_system_healthy F s = lt F (halt_ratio F s) (F.lit 5 1)

abbrev total : ActorHealthSnapshot → ℕ
total s = s.green + s.degraded + s.halted + s.recovering

module _ (F : Float) {E Signal Trade : Type 0} where
  count_actors-total :
      (actors : List (AssetActor F E Signal Trade)) (s : ActorHealthSnapshot)
      → let s' = count_actors F actors s in
        (total s' ≡ total s + length actors) × (s'.total_assets ≡ s.total_assets)
  unfolding count_actors count_actor
  count_actors-total [] s = omega arith
  count_actors-total (a ∷ rest) s = ground (arith, count_actors-total rest (count_actor F a s))

  -- Every actor is counted under exactly one health.
  pub compute_health_snapshot-total :
      (actors : List (AssetActor F E Signal Trade))
      → let s = compute_health_snapshot F actors in
        (s.green + s.degraded + s.halted + s.recovering ≡ s.total_assets)
        × (s.total_assets ≡ length actors)
  unfolding compute_health_snapshot
  compute_health_snapshot-total actors = ground (arith, count_actors-total actors (start F actors))
