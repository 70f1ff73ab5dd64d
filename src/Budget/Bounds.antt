-- ===== src/Budget/Bounds.antt =====
-- How far the risk of a trade can go.
use quorrin.Base.{◌≤◌, ◌≡◌, arith, Float}
use quorrin.Budget.{ModeConfig, BudgetInputs, effective_risk, compute_budget, dd_scalar, vol_scalar}

module _ (F : Float) where
  open F use {Value, key, lit, mul, round}

  -- A product with nought has the rank of nought.
  pub record Annihilates : Type 0 where
    pub mul_zero : (x y : Value) → key y ≡ key (lit 0 0) → key (mul x y) ≡ key (lit 0 0)
    pub zero_mul : (x y : Value) → key x ≡ key (lit 0 0) → key (mul x y) ≡ key (lit 0 0)

  -- Rounding keeps the order.
  abbrev pub Monotone : Type 0
  Monotone = (x y : Value) → key x ≤ key y → key (round x 4) ≤ key (round y 4)

  effective_risk_bounds :
      (c : ModeConfig F) (i : BudgetInputs F)
      → key c.min_risk_per_trade_pct ≤ key c.max_risk_per_trade_pct
      → (key c.min_risk_per_trade_pct ≤ key (effective_risk F c i))
        × (key (effective_risk F c i) ≤ key c.max_risk_per_trade_pct)
  unfolding effective_risk
  effective_risk_bounds c i h = (ground arith, ground arith)

  scaled_out :
      (c : ModeConfig F) (i : BudgetInputs F)
      → Annihilates
      → key i.drawdown_pct ≤ key c.max_drawdown_pct
      → key (lit 0 0) ≤ key c.min_risk_per_trade_pct
      → key (effective_risk F c i) ≡ key c.min_risk_per_trade_pct
  unfolding effective_risk dd_scalar
  scaled_out c i z h p =
      let base =
        z.mul_zero c.max_risk_per_trade_pct (dd_scalar F i.drawdown_pct c.max_drawdown_pct)
          (ground (arith, h)) in
      let perf = z.zero_mul _ i.composite_scalar base in
      let vol = z.zero_mul _ (vol_scalar F i.market_scalar) perf in ground (arith, vol)

  -- The risk of a trade in a budget lies between the least and the most risk of the mode, where
  -- the one is not above the other. At the limit of the drawdown it is the least risk, not
  -- nought: trades go on. Rounding is taken to keep the order, and a product with nought to be
  -- nought; the limits are given rounded.
  pub compute_budget_bounds :
      (c : ModeConfig F) (i : BudgetInputs F)
      → Annihilates
      → Monotone
      → key c.min_risk_per_trade_pct ≤ key c.max_risk_per_trade_pct
      → key (lit 0 0) ≤ key c.min_risk_per_trade_pct
      → let risk = (compute_budget F c i).max_risk_per_trade_pct in
        (key (round c.min_risk_per_trade_pct 4) ≤ key risk)
        × (key risk ≤ key (round c.max_risk_per_trade_pct 4))
        × (key i.drawdown_pct ≤ key c.max_drawdown_pct
            → key risk ≡ key (round c.min_risk_per_trade_pct 4))
  unfolding compute_budget
  compute_budget_bounds c i z m h p =
      let (low, high) = effective_risk_bounds c i h in
      let least = c.min_risk_per_trade_pct in
      let risk = effective_risk F c i in
      (
        m least risk low,
        m risk c.max_risk_per_trade_pct high,
        λ d.
            let same = scaled_out c i z d p in
            omega (arith, m risk least (omega (arith, same)), m least risk (omega (arith, same))),
      )
