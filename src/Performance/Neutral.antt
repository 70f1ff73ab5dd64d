-- ===== src/Performance/Neutral.antt =====
-- What the engine's performance state can be.
use quorrin.Base.{◌≡◌, List, [], ◌∷◌, Float, Bool, false, ◌||◌}
use quorrin.Performance.Trackers.{
  outcome_scalar, degradation_scalar, market_scalar, execution_scalar,
}
use quorrin.Performance.{
  PersistCommand, is_recorded, build_and_persist, PerformanceStateBuilder, PerformanceState,
  new_builder,
}

module _ (F : Float) where
  open F use {Value, key, lit, mul}

  -- The cycles of an engine: the value of the portfolio, and the commands that phase 4 drains. A
  -- cycle that raises leaves the builder to the next one.
  abbrev pub run_cycles :
      (Value → Value)
      → List (Value × List PersistCommand)
      → PerformanceStateBuilder F
      → PerformanceStateBuilder F
  run_cycles cbrt [] b = b
  run_cycles cbrt ((value, commands) ∷ cycles) b =
      run_cycles cbrt cycles (build_and_persist F cbrt value commands b).0

  -- One of the commands is a trade that is to be recorded.
  abbrev pub has_trade : List PersistCommand → Bool
  has_trade [] = false
  has_trade (c ∷ cs) = is_recorded c || has_trade cs

  record IsFresh (b : PerformanceStateBuilder F) : Type 0 where
    outcome : b.outcome ≡ (new_builder F).outcome
    degradation : b.degradation ≡ (new_builder F).degradation
    market : b.market ≡ (new_builder F).market
    execution : b.execution ≡ (new_builder F).execution

  -- What the state says of the trades, of the model, of the market and of the fills.
  pub record IsNeutral (s : PerformanceState F) : Type 0 where
    pub outcome_one : s.outcome_scalar ≡ lit 1 0
    pub degradation_one : s.degradation_scalar ≡ lit 1 0
    pub market_one : s.market_scalar ≡ lit 1 0
    pub execution_one : s.execution_scalar ≡ lit 1 0
    pub no_trades : s.win_rate_20 ≡ lit 0 0
    pub no_losses : s.consecutive_losses ≡ 0
