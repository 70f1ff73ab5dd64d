-- ===== src/Performance.antt =====
-- paper_trading/pek/perf/performance_state_builder.py: the velocity processor and the builder of
-- the performance state, and what phase 4 of a cycle (paper_trading/orchestrator/engine.py) does
-- with it. The cube root is an argument; `none` is a ZeroDivisionError.
pub mod Trackers
pub mod Outcomes
pub mod Neutral
use quorrin.Base.{
  ℕ, ◌+◌, ◌-◌, ◌*◌, ◌/◌, String, Bool, true, false, ◌&&◌, ◌||◌, Option, none, some, List, [], ◌∷◌,
  ◌++◌, length, last_n, take, drop, ltb, if◌then◌else◌, Float, lt, le, fmax, fmin,
}
use text.Mathlib.Text.{◌==◌ as str_eq}
use quorrin.Base.Options.{◌>>=◌}
use quorrin.Base.Windows.{push}
use quorrin.Performance.Trackers.{
  OutcomeTracker, DegradationMonitor, MarketStateReader, ExecutionQualityTracker, nat, nth, slope,
  slope_5, new_tracker, win_rate, outcome_scalar, degradation_scalar, atr_ratio, market_scalar,
  slippage_p90, slippage_velocity, execution_scalar,
}

pub record RegimeVelocity (F : Float) : Type 0 where
  pub pnl_velocity : F.Value
  pub pnl_acceleration : F.Value
  pub vol_velocity : F.Value
  pub degradation_velocity : F.Value
  pub execution_velocity : F.Value

pub record PerformanceState (F : Float) : Type 0 where
  pub version : ℕ
  pub outcome_scalar : F.Value
  pub degradation_scalar : F.Value
  pub market_scalar : F.Value
  pub execution_scalar : F.Value
  pub velocity : RegimeVelocity F
  pub velocity_scalar : F.Value
  pub composite_scalar : F.Value
  pub win_rate_20 : F.Value
  pub consecutive_losses : ℕ
  pub r_cumulative_20 : F.Value
  pub calibration_ece : F.Value
  pub atr_ratio : F.Value
  pub regime_label : String
  pub slippage_p90 : F.Value

pub record PerformanceStateBuilder (F : Float) : Type 0 where
  pub outcome : OutcomeTracker F
  pub degradation : DegradationMonitor F
  pub market : MarketStateReader F
  pub execution : ExecutionQualityTracker F
  -- the history of the VelocityProcessor
  pub pnl_history : List F.Value
  pub version : ℕ
  pub portfolio_value_history : List F.Value

module _ (F : Float) where
  open F use {Value, lit, neg, sub, mul, div}

  -- `_compute_acceleration`
  unfoldable pub compute_acceleration : List Value → Value
  unfolding slope
  compute_acceleration history =
      let half = length history / 2 in
      if ltb (length history) 10
      then nat F 0
      else sub (slope F (drop half history)) (slope F (take half history))

  unfoldable pub trend_factor : Value → Value → Value
  trend_factor pnl vol =
      if lt F pnl (neg (lit 2 2)) && lt F (lit 1 1) vol
      then lit 5 1
      else if lt F pnl (neg (lit 1 2))
      then lit 7 1
      else if lt F (lit 2 2) pnl && lt F vol (neg (lit 5 2))
      then lit 13 1
      else if lt F (lit 1 2) pnl
      then lit 115 2
      else lit 1 0

  unfoldable pub shock_factor : Value → Value → Value
  shock_factor vol execution =
      if lt F (lit 15 2) vol || lt F (lit 1 1) execution
      then lit 5 1
      else if lt F (lit 8 2) vol || lt F (lit 5 2) execution
      then lit 7 1
      else lit 1 0

  unfoldable pub health_factor : Value → Value
  health_factor degradation =
      if lt F (lit 5 2) degradation
      then lit 6 1
      else if lt F (lit 2 2) degradation
      then lit 8 1
      else lit 1 0

  -- the scalar of `VelocityProcessor.compute`
  unfoldable pub velocity_scalar : (Value → Value) → RegimeVelocity F → Value
  unfolding trend_factor shock_factor health_factor
  velocity_scalar cbrt v =
      let raw = cbrt (
        mul
          (mul (trend_factor v.pnl_velocity v.vol_velocity)
            (shock_factor v.vol_velocity v.execution_velocity))
          (health_factor v.degradation_velocity)) in
      fmax F (lit 5 1) (fmin F (lit 15 1) raw)

  -- `_compute_pnl_velocity`
  unfoldable pub compute_pnl_velocity : List Value → Value
  compute_pnl_velocity history =
      let recent = last_n 5 history in
      if ltb (length history) 5
      then nat F 0
      else div (sub (nth F recent (length recent - 1)) (nth F recent 0))
          (fmax F (nth F recent 0) (lit 1 0))

  unfoldable pub velocity_of : PerformanceStateBuilder F → Option (RegimeVelocity F)
  unfolding compute_pnl_velocity compute_acceleration slope_5 slippage_velocity
  velocity_of b = do
    slippage ← slippage_velocity F b.execution
    some (record {
      pnl_velocity = compute_pnl_velocity b.portfolio_value_history;
      pnl_acceleration = compute_acceleration b.pnl_history;
      vol_velocity = slope_5 F b.market.atr_history;
      degradation_velocity = slope_5 F b.degradation.ece_history;
      execution_velocity = slippage;
    })

  unfoldable pub composite_scalar : PerformanceStateBuilder F → Value → Value
  unfolding outcome_scalar degradation_scalar market_scalar execution_scalar
  composite_scalar b velocity =
      let position =
        mul
          (mul (mul (outcome_scalar F b.outcome) (degradation_scalar F b.degradation))
            (market_scalar F b.market))
          (execution_scalar F b.execution) in
      fmax F (lit 2 2) (fmin F (lit 12 1) (mul position velocity))

  unfoldable pub new_builder : PerformanceStateBuilder F
  unfolding new_tracker
  new_builder = record {
    outcome = new_tracker F 20;
    degradation = record { ece_history = []; feature_stability_history = [] };
    market = record {
      atr_history = [];
      current_regime = "RANGE";
      current_spread_regime = "NORMAL";
      current_liquidity_regime = "NORMAL";
    };
    execution = record { slippage_history = []; partial_fills = 0; total_trades = 0 };
    pnl_history = [];
    version = 0;
    portfolio_value_history = [];
  }

  unfoldable pub observe : Value → PerformanceStateBuilder F → PerformanceStateBuilder F
  observe value b = record b {
    version = b.version + 1;
    portfolio_value_history = push 20 value b.portfolio_value_history;
    pnl_history = push 20 value b.pnl_history;
  }

  unfoldable pub snapshot :
      (Value → Value) → RegimeVelocity F → PerformanceStateBuilder F → PerformanceState F
  unfolding velocity_scalar composite_scalar outcome_scalar degradation_scalar market_scalar
      execution_scalar win_rate atr_ratio slippage_p90
  snapshot cbrt velocity b = record {
    version = b.version;
    outcome_scalar = outcome_scalar F b.outcome;
    degradation_scalar = degradation_scalar F b.degradation;
    market_scalar = market_scalar F b.market;
    execution_scalar = execution_scalar F b.execution;
    velocity = velocity;
    velocity_scalar = velocity_scalar cbrt velocity;
    composite_scalar = composite_scalar b (velocity_scalar cbrt velocity);
    win_rate_20 = win_rate F b.outcome;
    consecutive_losses = b.outcome.consecutive_losses;
    r_cumulative_20 = b.outcome.r_sum;
    calibration_ece = nat F 0;
    atr_ratio = atr_ratio F b.market;
    regime_label = b.market.current_regime;
    slippage_p90 = slippage_p90 F b.execution;
  }

  unfoldable pub state_of :
      (Value → Value) → PerformanceStateBuilder F → Option (PerformanceState F)
  unfolding velocity_of snapshot
  state_of cbrt b = do velocity ← velocity_of b; some (snapshot cbrt velocity b)

  -- `build`
  unfoldable pub build :
      (Value → Value)
      → Value
      → PerformanceStateBuilder F
      → PerformanceStateBuilder F × Option (PerformanceState F)
  unfolding observe state_of
  build cbrt value b = let b' = observe value b in (b', state_of cbrt b')

-- A command of an actor's persist queue.
pub record PersistCommand : Type 0 where
  pub kind : String
  pub exit_reason : String

-- The trades that phase 4 of a cycle wants recorded.
unfoldable pub is_recorded : PersistCommand → Bool
is_recorded c =
    str_eq c.kind "trade"
    && (str_eq c.exit_reason "TP"
        || str_eq c.exit_reason "SL"
        || str_eq c.exit_reason "manual"
        || str_eq c.exit_reason "circuit_breaker"
        || str_eq c.exit_reason "PEK_BUDGET_OVERRUN")

module _ (F : Float) where
  -- What a part of a cycle leaves of the builder, and whether it raised.
  abbrev pub Step : Type 0
  Step = PerformanceStateBuilder F × Bool

  -- `self._perf_builder.record_trade(...)`: the builder has no method of this name, so the call
  -- raises AttributeError.
  unfoldable pub call_record_trade : PersistCommand → PerformanceStateBuilder F → Step
  call_record_trade c b = (b, true)

  -- the loop of `_phase_4_persist` over the commands that were drained
  unfoldable pub persist : List PersistCommand → PerformanceStateBuilder F → Step
  unfolding is_recorded call_record_trade
  persist [] b = (b, false)
  persist (c ∷ cs) b =
      let (b', raised) = call_record_trade c b in
      let skipped = persist cs b in
      let further = persist cs b' in
      if is_recorded c then (if raised then (b', true) else further) else skipped

  -- The builder over a cycle: the build before the phases, and phase 4, where the build has not
  -- raised.
  unfoldable pub build_and_persist :
      (F.Value → F.Value) → F.Value → List PersistCommand → PerformanceStateBuilder F → Step
  unfolding persist build
  build_and_persist cbrt value commands b =
      let (b', state) = build F cbrt value b in
      elim state [ none ↦ (b', true) | some s ↦ persist commands b' ]
