-- ===== src/Tests/Data.antt =====
-- Data that the tests share.
use quorrin.Base.{ℕ, none, some, []}
use quorrin.Base.Fixed.{fixed}
use quorrin.Orchestrator.Actor.Records.{
  AssetActor, ActorHealth, Clock, ActorConfig, AssetEngine, Outcome, new_metrics,
}

-- n, as a float
abbrev pub whole : ℕ → ℕ
whole n = fixed.lit n 0

-- An actor over an engine that is its current value, and its health.
abbrev pub actor : ℕ → ActorHealth → AssetActor fixed ℕ ℕ ℕ
actor value health = record {
  engine = whole value;
  wal = some [];
  health = health;
  metrics = new_metrics fixed;
  last_recovery_probe = whole 0;
  persist_queue = [];
  fault_reason = "";
  last_trade_count = 0;
  last_price = none;
}

abbrev pub clock_at : ℕ → Clock fixed
clock_at s = record { start = whole s; probe = whole s; end = whole s; stamp = whole s }

abbrev pub actor_config : ActorConfig fixed
actor_config = record { max_failures = 3; recovery_cooldown = whole 60 }

abbrev pub broken_engine : AssetEngine fixed ℕ ℕ ℕ
broken_engine = record {
  refresh_price = λ e. (e, Outcome.raised "no price");
  update_pnl = λ e. (e, Outcome.returned tt);
  generate_signal = λ e. (e, Outcome.returned (some e));
  current_price = λ e. some e;
  trade_log = λ e. [];
}
