-- ===== src/Budget.antt =====
-- paper_trading/pek/engine_v2.py: the risk budget of a cycle.
pub mod Bounds
use quorrin.Base.{ℕ, Bool, if◌then◌else◌, Float, lt, le, fmax, fmin}

-- The configuration of the mode.
pub record ModeConfig (F : Float) : Type 0 where
  pub max_risk_per_trade_pct : F.Value
  pub min_risk_per_trade_pct : F.Value
  pub max_drawdown_pct : F.Value
  pub max_leverage : F.Value
  pub max_concurrent_positions : ℕ

-- What the engine reads of the two states.
pub record BudgetInputs (F : Float) : Type 0 where
  pub drawdown_pct : F.Value
  pub gross_exposure : F.Value
  pub total_equity : F.Value
  pub composite_scalar : F.Value
  pub market_scalar : F.Value
  pub velocity_scalar : F.Value

pub record RiskBudget (F : Float) : Type 0 where
  pub max_risk_per_trade_pct : F.Value
  pub max_portfolio_heat : F.Value
  pub max_concurrent_positions : ℕ
  pub volatility_scalar : F.Value
  pub drawdown_scalar : F.Value
  pub performance_scalar : F.Value
  pub velocity_scalar : F.Value

module _ (F : Float) where
  open F use {Value, lit, mul, div, round}

  -- tighter as the drawdown deepens
  unfoldable pub dd_scalar : Value → Value → Value
  dd_scalar dd limit =
      if le F dd limit
      then lit 0 0
      else if le F dd (mul limit (lit 75 2))
      then lit 5 1
      else if le F dd (mul limit (lit 5 1))
      then lit 75 2
      else lit 1 0

  unfoldable pub vol_scalar : Value → Value
  vol_scalar market = fmin F (lit 1 0) (mul market (lit 12 1))

  -- the risk of a trade before it is rounded
  unfoldable pub effective_risk : ModeConfig F → BudgetInputs F → Value
  unfolding dd_scalar vol_scalar
  effective_risk c i =
      let scaled =
        mul
          (mul (mul c.max_risk_per_trade_pct (dd_scalar i.drawdown_pct c.max_drawdown_pct))
            i.composite_scalar)
          (vol_scalar i.market_scalar) in
      fmax F c.min_risk_per_trade_pct (fmin F c.max_risk_per_trade_pct scaled)

  unfoldable pub heat_cap : ModeConfig F → BudgetInputs F → Value
  heat_cap c i =
      let most = mul c.max_leverage (lit 9 1) in
      let current = div i.gross_exposure (fmax F i.total_equity (lit 1 0)) in
      if lt F most current then most else c.max_leverage

  unfoldable pub compute_budget : ModeConfig F → BudgetInputs F → RiskBudget F
  unfolding effective_risk heat_cap dd_scalar vol_scalar
  compute_budget c i = record {
    max_risk_per_trade_pct = round (effective_risk c i) 4;
    max_portfolio_heat = heat_cap c i;
    max_concurrent_positions = c.max_concurrent_positions;
    volatility_scalar = round (vol_scalar i.market_scalar) 4;
    drawdown_scalar = round (dd_scalar i.drawdown_pct c.max_drawdown_pct) 4;
    performance_scalar = round i.composite_scalar 4;
    velocity_scalar = round i.velocity_scalar 4;
  }
