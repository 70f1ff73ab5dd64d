-- ===== src/Entry/Gate/Forgetting.antt =====
-- What asking the gate does to the cooldown.
use quorrin.Base.{ℕ, ◌≡◌, ◌<◌, Bool, true, false, Option, none, some, arith, Float}
use quorrin.Position.{PositionSide, long, short, inverted}
use quorrin.Entry.Gate.{
  StopOut, GateConfig, Refusal, cooldown_active, can_enter, cooldown_penalty, cooldown_score_at,
  refuse_late, stopped_within,
}

abbrev pub is_cooldown : Option Refusal → Bool
is_cooldown (some cooldown_active) = true
is_cooldown _ = false

module _ (F : Float) where
  open F use {key, lit, Value}

  refuse_late-calm :
      (c : GateConfig) (cycle flip : ℕ) (waits : Bool)
      → is_cooldown (refuse_late F c cycle flip waits (lit 0 0)) ≡ false
  unfolding refuse_late
  refuse_late-calm c cycle flip waits = ground arith

  can_enter-unmarked :
      (half_pow : Value → Value) (c : GateConfig) (cycle flip : ℕ) (waits : Bool)
      (side : PositionSide) (s : StopOut F)
      → s.last_stop_out_side ≡ none
      → is_cooldown (can_enter F half_pow c cycle flip waits side s).1 ≡ false
  unfolding can_enter cooldown_penalty cooldown_score_at
  can_enter-unmarked half_pow c cycle flip waits side s h =
      ground (arith, refuse_late-calm c cycle flip waits)

  can_enter-clears :
      (half_pow : Value → Value) (c : GateConfig) (cycle flip : ℕ) (waits : Bool)
      (side : PositionSide) (s : StopOut F)
      → key (lit 0 0) < key (lit 5 2)
      → s.last_stop_out_side ≡ some side
      → stopped_within c.stopout_cross_side_cooldown_cycles cycle s.last_stop_out_cycle ≡ false
      → (can_enter F half_pow c cycle flip waits (inverted side) s).0.last_stop_out_side ≡ none
  unfolding can_enter cooldown_penalty cooldown_score_at inverted
  can_enter-clears half_pow c cycle flip waits long s k h q = ground arith
  can_enter-clears half_pow c cycle flip waits short s k h q = ground arith

  -- Once the gate was asked for the other side, past the cross-side cooldown, the side of the
  -- last stop-out is never refused for its own cooldown again, however small the time since the
  -- stop-out and whatever its half-life. Nought is taken to be below 0.05.
  pub can_enter-forgets :
      (half_pow : Value → Value) (c : GateConfig) (cycle cycle' flip flip' : ℕ)
      (waits waits' : Bool) (side : PositionSide) (s : StopOut F)
      → key (lit 0 0) < key (lit 5 2)
      → s.last_stop_out_side ≡ some side
      → stopped_within c.stopout_cross_side_cooldown_cycles cycle s.last_stop_out_cycle ≡ false
      → let s' = (can_enter F half_pow c cycle flip waits (inverted side) s).0 in
        is_cooldown (can_enter F half_pow c cycle' flip' waits' side s').1 ≡ false
  can_enter-forgets half_pow c cycle cycle' flip flip' waits waits' side s k h q =
      can_enter-unmarked half_pow c cycle' flip' waits' side _
        (can_enter-clears half_pow c cycle flip waits side s k h q)
