-- ===== src/Tests/Actors.antt =====
-- Actors and their health.
use quorrin.Base.{ℕ, arith}
use quorrin.Base.Fixed.{fixed}
use quorrin.Orchestrator.Actor.{run_cycle}
use quorrin.Orchestrator.Actor.Records.{AssetActor, green, new_metrics}
use quorrin.Orchestrator.Actor.Health.{IsHealthy, run_cycle-IsHealthy}
use quorrin.Tests.Data.{actor, clock_at, actor_config, broken_engine}

abbrev fresh : AssetActor fixed ℕ ℕ ℕ
fresh = actor 100 green

fresh-IsHealthy : IsHealthy fixed ℕ ℕ ℕ actor_config fresh
unfolding new_metrics
fresh-IsHealthy = ground arith

run_cycle-IsHealthy_example :
    IsHealthy fixed ℕ ℕ ℕ actor_config
      (run_cycle fixed ℕ ℕ ℕ broken_engine actor_config (clock_at 100) fresh).0
run_cycle-IsHealthy_example =
    run_cycle-IsHealthy fixed ℕ ℕ ℕ actor_config broken_engine (clock_at 100) fresh fresh-IsHealthy
