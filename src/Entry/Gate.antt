-- ===== src/Entry/Gate.antt =====
-- paper_trading/services/entry_service.py (can_enter, drawdown_taper, effective_capital),
-- position_service.py (record_stop_out, cooldown_penalty) and asset_engine.py
-- (_record_stop_out, _cooldown_penalty): whether a side may be entered.
--
-- Cycles are counted with an offset, so that the numbers below zero with which the source
-- starts are natural numbers; only differences of cycles matter. The power 0.5 ** x with a
-- broken exponent is an argument.
pub mod Forgetting
use quorrin.Base.{
  ℕ, ◌+◌, ◌-◌, Bool, true, false, not, ◌&&◌, ◌||◌, Option, none, some, ltb, if◌then◌else◌, Float,
  lt, le, eq, fmax, fmin, fabs,
}
use quorrin.Position.{PositionSide, long, short}

pub data Refusal : Type 0 where
  cross_side_stopout_cooldown same_cycle_stopout_lock cooldown_active : Refusal
  pending_entry_exists signal_flip_cooldown : Refusal

pub record GateConfig : Type 0 where
  pub stopout_cross_side_cooldown_cycles : ℕ
  pub cooldown_half_life_cycles : ℕ
  pub min_flip_interval_bars : ℕ

-- What an asset remembers of its last stop-out.
pub record StopOut (F : Float) : Type 0 where
  pub last_stop_out_price : Option F.Value
  pub last_stop_out_side : Option PositionSide
  pub last_stop_out_cycle : Option ℕ
  pub cooldown_score : F.Value
  pub last_cooldown_update_cycle : ℕ

abbrev pub same_side : PositionSide → PositionSide → Bool
same_side long long = true
same_side short short = true
same_side _ _ = false

abbrev pub is_side : PositionSide → Option PositionSide → Bool
is_side side none = false
is_side side (some other) = same_side other side

-- whether fewer than n cycles have passed since a cycle
abbrev pub within : ℕ → ℕ → ℕ → Bool
within n since cycle = ltb cycle (since + n)

abbrev pub stopped_within : ℕ → ℕ → Option ℕ → Bool
stopped_within n cycle none = false
stopped_within n cycle (some since) = within n since cycle

module _ (F : Float) where
  open F use {Value, lit, add, sub, mul, div}

  unfoldable pub effective_capital : Value → Value → Value → Value
  effective_capital initial base current =
      if le F initial (lit 0 0) then base else mul base (fmin F (div current initial) (lit 3 0))

  -- `drawdown_taper` from its start to its end and its smallest size
  unfoldable pub drawdown_taper : Value → Value → Value → Value → Value
  drawdown_taper drawdown start_dd end_dd min_size =
      let t = div (sub drawdown start_dd) (sub end_dd start_dd) in
      if le F start_dd drawdown
      then lit 1 0
      else if le F drawdown end_dd
      then min_size
      else fmax F (sub (lit 1 0) (mul t (sub (lit 1 0) min_size))) min_size

  -- whether the exit lies too near behind the stop to count as one: the churn filter
  unfoldable pub is_churn : Bool → Option Value → Option Value → Value → Value → Bool
  is_churn adjusted (some stop) (some entry) exit threshold =
      let distance = fabs F (sub stop entry) in
      adjusted && lt F (lit 0 0) distance && lt F (div (fabs F (sub exit stop)) distance) threshold
  is_churn adjusted _ _ exit threshold = false

  -- `record_stop_out`: the stop of the position, and the entry that the asset remembers
  unfoldable pub record_stop_out :
      Bool → Value → ℕ → PositionSide → Value → Option Value → Option Value → StopOut F → StopOut F
  unfolding is_churn
  record_stop_out adjusted threshold cycle side exit stop entry s =
      if is_churn adjusted stop entry exit threshold then s else record {
        last_stop_out_price = stop;
        last_stop_out_side = some side;
        last_stop_out_cycle = some cycle;
        cooldown_score = lit 1 0;
        last_cooldown_update_cycle = cycle;
      }

  -- `max(half_life, 1)`
  abbrev at_least_one : ℕ → ℕ
  at_least_one n = if ltb n 1 then 1 else n

  -- `PositionService.cooldown_penalty`; a cycle is never before the last update
  unfoldable pub cooldown_score_at :
      (Value → Value) → GateConfig → ℕ → PositionSide → StopOut F → Value
  cooldown_score_at half_pow c cycle side s =
      let elapsed =
        div (lit (cycle - s.last_cooldown_update_cycle) 0)
          (lit (at_least_one c.cooldown_half_life_cycles) 0) in
      if not (is_side side s.last_stop_out_side)
      then lit 0 0
      else if le F s.cooldown_score (lit 0 0)
      then lit 0 0
      else mul s.cooldown_score (half_pow elapsed)

  -- `AssetEngine._cooldown_penalty`: the penalty is also the new score of the asset
  unfoldable pub cooldown_penalty :
      (Value → Value) → GateConfig → ℕ → PositionSide → StopOut F → StopOut F × Value
  unfolding cooldown_score_at
  cooldown_penalty half_pow c cycle side s =
      let score = cooldown_score_at half_pow c cycle side s in
      (
        record s {
          cooldown_score = score;
          last_cooldown_update_cycle = cycle;
          last_stop_out_side = if lt F score (lit 5 2) then none else s.last_stop_out_side;
        },
        score,
      )

  -- the tests behind the cooldown, which changes no state
  unfoldable pub refuse_late : GateConfig → ℕ → ℕ → Bool → Value → Option Refusal
  refuse_late c cycle last_flip is_pending penalty =
      if lt F (lit 0 0) penalty
      then some cooldown_active
      else if is_pending
      then some pending_entry_exists
      else if within c.min_flip_interval_bars last_flip cycle
      then some signal_flip_cooldown
      else none

  -- `can_enter`: the refusal, if there is one. The tests before the cooldown leave it alone.
  unfoldable pub can_enter :
      (Value → Value)
      → GateConfig
      → ℕ
      → ℕ
      → Bool
      → PositionSide
      → StopOut F
      → StopOut F × Option Refusal
  unfolding cooldown_penalty refuse_late
  can_enter half_pow c cycle last_flip is_pending side s =
      let (s', penalty) = cooldown_penalty half_pow c cycle side s in
      if stopped_within c.stopout_cross_side_cooldown_cycles cycle s.last_stop_out_cycle
      then (s, some cross_side_stopout_cooldown)
      else if stopped_within 1 cycle s.last_stop_out_cycle && is_side side s.last_stop_out_side
      then (s, some same_cycle_stopout_lock)
      else (s', refuse_late c cycle last_flip is_pending penalty)
