-- ===== src/Position/AdaptiveExit.antt =====
-- paper_trading/position/adaptive_exit.py: the trailing stop in three stages.
--
-- The defaults of the configuration are filled in by the caller of the model; the texts that
-- describe an action are left out.
pub mod Tightening
use quorrin.Base.{
  ℕ, ◌+◌, ◌-◌, Bool, true, false, not, ◌&&◌, Option, none, some, ltb, leb, if◌then◌else◌, Float, lt,
  le, eq, fmax, fmin,
}
use quorrin.Position.{PositionSide, long, short}

pub data Action : Type 0 where
  no_action breakeven trail time_decay : Action

pub data Phase : Type 0 where
  static_phase breakeven_phase trailing decay : Phase

pub record AdaptiveExitConfig (F : Float) : Type 0 where
  pub be_lock_r : F.Value
  pub trail_activation_r : F.Value
  pub trail_retrace_pct : F.Value
  pub max_hold_candles : ℕ
  pub time_decay_start : ℕ

pub record AdaptiveExitResult (F : Float) : Type 0 where
  pub new_sl : Option F.Value
  pub action : Action

pub record AdaptiveExitEngine (F : Float) : Type 0 where
  pub best_price : Option F.Value
  pub breakeven_activated : Bool
  pub trail_activated : Bool
  pub sl_update_count : ℕ
  pub current_phase : Phase
  pub peak_r : Option F.Value

-- The arguments of `compute`.
pub record Bar (F : Float) : Type 0 where
  pub side : PositionSide
  pub entry_price : F.Value
  pub current_price : F.Value
  pub current_sl : F.Value
  pub vol_at_entry : F.Value
  pub bars_since_entry : ℕ

module _ (F : Float) where
  open F use {Value, lit, add, sub, mul, div}

  -- `reset`, and `__init__`
  unfoldable pub reset : AdaptiveExitEngine F
  reset = record {
    best_price = none;
    breakeven_activated = false;
    trail_activated = false;
    sl_update_count = 0;
    current_phase = static_phase;
    peak_r = none;
  }

  -- `self._best_price or entry_price`; a price of zero is false
  unfoldable pub best_or : Option Value → Value → Value
  best_or none entry = entry
  best_or (some best) entry = if eq F best (lit 0 0) then entry else best

  unfoldable pub best_of : Bar F → AdaptiveExitEngine F → Value
  unfolding best_or
  best_of b s = elim b.side [
    | long ↦ fmax F (best_or s.best_price b.entry_price) b.current_price
    | short ↦ fmin F (best_or s.best_price b.entry_price) b.current_price
  ]

  unfoldable pub peak_of : Bar F → Value → Value
  peak_of b best =
      let vol = fmax F b.vol_at_entry (lit 1 9) in
      elim b.side [
        | long ↦ div (sub best b.entry_price) (mul b.entry_price vol)
        | short ↦ div (sub b.entry_price best) (mul b.entry_price vol)
      ]

  -- whether a level is strictly tighter than the current stop
  abbrev pub tightens : PositionSide → Value → Value → Bool
  tightens long level current = lt F current level
  tightens short level current = lt F level current

  -- stage 1: the entry, unless the current stop is tighter
  unfoldable pub breakeven_level : Bar F → Value
  breakeven_level b = elim b.side [
    | long ↦ fmax F b.entry_price b.current_sl
    | short ↦ fmin F b.entry_price b.current_sl
  ]

  unfoldable pub retrace_level : Bar F → Value → Value → Value
  retrace_level b best part = elim b.side [
    | long ↦ sub best (mul part (sub best b.entry_price))
    | short ↦ add best (mul part (sub b.entry_price best))
  ]

  abbrev nothing : AdaptiveExitResult F
  nothing = record { new_sl = none; action = no_action }

  -- a level is taken if it is strictly tighter
  unfoldable pub offer : Action → Bar F → Value → AdaptiveExitResult F
  offer action b level =
      if tightens b.side level b.current_sl
      then record { new_sl = some level; action = action }
      else nothing

  -- stage 2
  unfoldable pub trail_stage : AdaptiveExitConfig F → Bar F → Value → Value → AdaptiveExitResult F
  unfolding offer retrace_level
  trail_stage c b best r =
      if le F c.trail_activation_r r
      then offer trail b (retrace_level b best c.trail_retrace_pct)
      else nothing

  abbrev pub is_none_yet : Action → Bool
  is_none_yet no_action = true
  is_none_yet _ = false

  -- near the longest hold, with the trail activated
  unfoldable pub decaying : AdaptiveExitConfig F → Bar F → Bool → Bool
  decaying c b on_trail =
      ltb 0 c.max_hold_candles
      && leb c.time_decay_start b.bars_since_entry
      && ltb b.bars_since_entry c.max_hold_candles
      && on_trail

  -- `max(n, 1)`
  abbrev at_least_one : ℕ → ℕ
  at_least_one n = if ltb n 1 then 1 else n

  -- stage 3; where it is reached the bars lie between the start of the decay and the longest
  -- hold, so no difference falls below zero
  unfoldable pub decay_stage :
      AdaptiveExitConfig F → Bar F → Value → Bool → AdaptiveExitResult F → AdaptiveExitResult F
  unfolding offer retrace_level decaying
  decay_stage c b best on_trail result =
      let progress =
        div (lit (b.bars_since_entry - c.time_decay_start) 0)
          (lit (at_least_one (c.max_hold_candles - c.time_decay_start)) 0) in
      let part =
        mul c.trail_retrace_pct (fmax F (sub (lit 1 0) (mul progress (lit 3 1))) (lit 3 1)) in
      if decaying c b on_trail && lt F (lit 3 1) progress && is_none_yet result.action
      then offer time_decay b (retrace_level b best part)
      else result

  abbrev moved : AdaptiveExitResult F → ℕ
  moved result = elim result.new_sl [ none ↦ 0 | some level ↦ 1 ]

  -- stages 2 and 3 and the phase behind them
  unfoldable pub trail_and_decay :
      AdaptiveExitConfig F
      → Bar F
      → Value
      → Value
      → AdaptiveExitEngine F
      → AdaptiveExitEngine F × AdaptiveExitResult F
  unfolding trail_stage decay_stage decaying
  trail_and_decay c b best r s =
      let on_trail = if le F c.trail_activation_r r then true else s.trail_activated in
      let result = decay_stage c b best on_trail (trail_stage c b best r) in
      (
        record s {
          trail_activated = on_trail;
          sl_update_count = s.sl_update_count + moved result;
          current_phase =
              if decaying c b on_trail
              then decay
              else if on_trail
              then Phase.trailing
              else if s.breakeven_activated
              then breakeven_phase
              else static_phase;
        },
        result,
      )

  unfoldable pub compute :
      AdaptiveExitConfig F
      → Bar F
      → AdaptiveExitEngine F
      → AdaptiveExitEngine F × AdaptiveExitResult F
  unfolding best_of peak_of breakeven_level trail_and_decay
  compute c b s0 =
      let best = best_of b s0 in
      let r = peak_of b best in
      let s = record s0 { best_price = some best } in
      let s' = record s { peak_r = some r } in
      let level = breakeven_level b in
      if eq F best b.entry_price
      then (s, nothing)
      else if not s0.breakeven_activated && le F c.be_lock_r r && tightens b.side level b.current_sl
      then (
        record s' {
          breakeven_activated = true;
          sl_update_count = s0.sl_update_count + 1;
          current_phase = breakeven_phase;
        },
        record { new_sl = some level; action = breakeven },
      )
      else trail_and_decay c b best r s'
