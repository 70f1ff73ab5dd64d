-- ===== src/Orchestrator/Breaker.antt =====
-- `CircuitBreaker` of paper_trading/orchestrator/health.py. The reason, a text in the source, is
-- a value of `TripReason`.
pub mod Trip
pub mod Streak
use mathlib.Core.List.{reverse}
use quorrin.Base.{
  ℕ, suc, ◌+◌, ◌*◌, String, Bool, true, false, Option, none, some, List, [], ◌∷◌, ◌++◌, map, length,
  last_n, ltb, leb, not, ◌&&◌, if◌then◌else◌, Float, lt, le, eq,
}
use quorrin.Orchestrator.Actor.Records.{Actors}
use quorrin.Orchestrator.Actor.Snapshot
use quorrin.Orchestrator.Actor.Snapshot.{compute_health_snapshot}

pub record BreakerConfig (F : Float) : Type 0 where
  pub max_drawdown : F.Value
  pub max_halt_ratio : F.Value
  pub vol_spike : F.Value
  pub max_losses : ℕ
  pub loss_lookback : ℕ

pub record Breaker (F : Float) : Type 0 where
  pub daily_pnl_history : List F.Value
  pub peak_value : Option F.Value

pub data TripReason (F : Float) : Type 0 where
  drawdown : F.Value → TripReason F
  vol_spike : F.Value → TripReason F
  halt_ratio : F.Value → TripReason F
  consecutive_losses : ℕ → TripReason F
  ok : TripReason F

pub data Severity : Type 0 where
  info warning critical : Severity

pub record BreakerDecision (F : Float) : Type 0 where
  pub trip : Bool
  pub reason : TripReason F
  pub severity : Severity
  pub actors_to_halt : Option (List String)

-- `CircuitBreaker()`: the parameters' defaults and the empty state
unfoldable pub default_config : (F : Float) → BreakerConfig F
default_config F = record {
  max_drawdown = F.lit 25 2;
  max_halt_ratio = F.lit 50 2;
  vol_spike = F.lit 3 0;
  max_losses = 7;
  loss_lookback = 30;
}

unfoldable pub new_breaker : (F : Float) → Breaker F
new_breaker F = record { daily_pnl_history = []; peak_value = none }

module _ (F : Float) where
  open F use {Value, lit, neg, sub, div}

  -- the loop over `reversed(recent)`, up to the `break`
  unfoldable pub leading_losses : List Value → ℕ
  leading_losses [] = 0
  leading_losses (pnl ∷ rest) =
      let more = leading_losses rest in if lt F pnl (lit 0 0) then suc more else 0

  unfoldable pub loss_streak : BreakerConfig F → List Value → ℕ
  unfolding leading_losses
  loss_streak c history = leading_losses (reverse (last_n c.loss_lookback history))

  -- the first lines of `check`: the peak follows the value upwards
  unfoldable pub raise_peak : Option Value → Value → Value
  raise_peak none value = value
  raise_peak (some peak) value = if lt F peak value then value else peak

  -- the drawdown from the peak; a peak of zero is false
  unfoldable pub drawdown_from : Value → Value → Value
  drawdown_from peak value = if eq F peak (lit 0 0) then lit 0 0 else div (sub value peak) peak

  -- the second test: the ratio, where both volatilities are known and the baseline is positive
  unfoldable pub vol_ratio : Option Value → Option Value → Option Value
  vol_ratio (some vol) (some baseline) =
      if lt F (lit 0 0) baseline then some (div vol baseline) else none
  vol_ratio _ _ = none

  abbrev pub reaches : Option Value → Value → Bool
  reaches none limit = false
  reaches (some x) limit = le F limit x

  abbrev value_of : Option Value → Value
  value_of none = lit 0 0
  value_of (some x) = x

  abbrev tripped : TripReason F → Severity → Option (List String) → BreakerDecision F
  tripped reason severity actors = record {
    trip = true;
    reason = reason;
    severity = severity;
    actors_to_halt = actors;
  }

  unfoldable pub record_daily_pnl : Value → Breaker F → Breaker F
  record_daily_pnl pnl b =
      let history = b.daily_pnl_history ++ pnl ∷ [] in
      record b {
        daily_pnl_history =
            if ltb (252 * 3) (length history) then last_n (252 * 3) history else history;
      }

  unfoldable pub snapshot_state : Breaker F → Option Value × List Value
  snapshot_state b = (b.peak_value, b.daily_pnl_history)

  unfoldable pub restore_state : Option Value → Option (List Value) → Breaker F → Breaker F
  restore_state peak daily b = record {
    peak_value = elim peak [ none ↦ b.peak_value | some p ↦ some p ];
    daily_pnl_history = elim daily [ none ↦ b.daily_pnl_history | some d ↦ d ];
  }

  unfoldable pub decide :
      BreakerConfig F
      → Value
      → Option Value
      → Option Value
      → ℕ
      → Option (List String)
      → BreakerDecision F
  decide c dd vol ratio streak keys =
      if le F dd (neg c.max_drawdown)
      then tripped (drawdown dd) critical keys
      else if reaches vol c.vol_spike
      then tripped (vol_spike (value_of vol)) critical none
      else if reaches ratio c.max_halt_ratio
      then tripped (halt_ratio (value_of ratio)) critical none
      else if leb c.max_losses streak
      then tripped (consecutive_losses streak) warning none
      else record { trip = false; reason = ok; severity = info; actors_to_halt = none }

  module _ {E Signal Trade : Type 0} where
    -- `list(actors.keys()) if actors else None`
    abbrev keys_of : Option (Actors F E Signal Trade) → Option (List String)
    keys_of none = none
    keys_of (some []) = none
    keys_of (some (a ∷ rest)) = some (map (λ p. p.0) (a ∷ rest))

    -- the third test: the halt ratio, where the actors are given
    unfoldable pub ratio_of : Option (Actors F E Signal Trade) → Option Value
    ratio_of none = none
    ratio_of (some actors) =
        some (Snapshot.halt_ratio F (compute_health_snapshot F (map (λ p. p.1) actors)))

    unfoldable pub check :
        BreakerConfig F
        → Value
        → Option Value
        → Option Value
        → Option (Actors F E Signal Trade)
        → Breaker F
        → Breaker F × BreakerDecision F
    unfolding decide
    check c value vol baseline actors b =
        let peak = raise_peak b.peak_value value in
        (
          record b { peak_value = some peak },
          decide c (drawdown_from peak value) (vol_ratio vol baseline) (ratio_of actors)
              (loss_streak c b.daily_pnl_history) (keys_of actors),
        )
