-- ===== src/Orchestrator/Actor/Records.antt =====
-- The data of an actor (paper_trading/orchestrator/actor.py).
use quorrin.Base.{ℕ, String, Bool, true, false, Option, List, Float}

pub data ActorHealth : Type 0 where
  green degraded halted recovering : ActorHealth

abbrev pub is_halted : ActorHealth → Bool
is_halted halted = true
is_halted _ = false

pub record ActorMetrics (F : Float) : Type 0 where
  pub cycle_id : ℕ
  pub last_success_time : F.Value
  pub last_failure_time : F.Value
  pub consecutive_failures : ℕ
  pub consecutive_successes : ℕ
  pub total_cycles : ℕ
  pub total_failures : ℕ
  pub cycle_duration_ms : F.Value
  pub avg_duration_ms : F.Value

-- `ActorMetrics()`
unfoldable pub new_metrics : (F : Float) → ActorMetrics F
new_metrics F = record {
  cycle_id = 0;
  last_success_time = F.lit 0 0;
  last_failure_time = F.lit 0 0;
  consecutive_failures = 0;
  consecutive_successes = 0;
  total_cycles = 0;
  total_failures = 0;
  cycle_duration_ms = F.lit 0 0;
  avg_duration_ms = F.lit 0 0;
}

pub data Outcome (A : Type 0) : Type 0 where
  returned : A → Outcome A
  raised : String → Outcome A

-- What the actor calls and reads of its engine.
pub record AssetEngine (F : Float) (E Signal Trade : Type 0) : Type 0 where
  pub refresh_price : E → E × Outcome Unit
  pub update_pnl : E → E × Outcome Unit
  pub generate_signal : E → E × Outcome (Option Signal)
  -- `none` for None and for NaN
  pub current_price : E → Option F.Value
  pub trade_log : E → List Trade

pub data ActorEvent (F : Float) (Signal Trade : Type 0) : Type 0 where
  price_update : F.Value → ActorEvent F Signal Trade
  position_closed : Trade → ActorEvent F Signal Trade
  signal_generated : Signal → ActorEvent F Signal Trade

-- The readings of `time.monotonic()` in one cycle: at its start, in the recovery probe, and two
-- at its end.
pub record Clock (F : Float) : Type 0 where
  pub start : F.Value
  pub probe : F.Value
  pub end : F.Value
  pub stamp : F.Value

pub record ActorConfig (F : Float) : Type 0 where
  pub max_failures : ℕ
  pub recovery_cooldown : F.Value

pub record AssetActor (F : Float) (E Signal Trade : Type 0) : Type 0 where
  pub engine : E
  pub wal : Option (List (ActorEvent F Signal Trade))
  pub health : ActorHealth
  pub metrics : ActorMetrics F
  pub last_recovery_probe : F.Value
  -- the payloads of the "signal" commands
  pub persist_queue : List (Option Signal)
  pub fault_reason : String
  pub last_trade_count : ℕ
  pub last_price : Option F.Value

pub record AssetResult (F : Float) (Signal : Type 0) : Type 0 where
  pub success : Bool
  pub signal : Option Signal
  pub error : Option String
  pub cycle_id : ℕ
  pub duration_ms : F.Value

-- The actors of an orchestrator, by their names.
abbrev pub Actors : (F : Float) (E Signal Trade : Type 0) → Type 0
Actors F E Signal Trade = List (String × AssetActor F E Signal Trade)
