-- ===== src/Risk/Bounds.antt =====
-- What the drawdown check says on every branch.
use quorrin.Base.{◌≤◌, ◌<◌, ◌≡◌, ◌↔◌, Bool, true, false, arith, Float}
use quorrin.Risk.{compute_exposure_multiplier, check_drawdown_circuit_breaker}

module _ (F : Float) where
  -- With the hard limit below the soft one, trading is halted exactly when the drawdown is at
  -- or below the hard limit; the multiplier is 0 then, 1 at or above the soft limit, and never
  -- negative.
  pub compute_exposure_multiplier_bounds :
      (dd limit soft : F.Value)
      → F.key limit < F.key soft
      → F.key (F.lit 0 0) ≤ F.key (F.lit 1 0)
      → let (m, halted) = compute_exposure_multiplier F dd limit soft in
        ((halted ≡ true) ↔ (F.key dd ≤ F.key limit))
        × (halted ≡ true → m ≡ F.lit 0 0)
        × (F.key soft ≤ F.key dd → m ≡ F.lit 1 0)
        × (F.key (F.lit 0 0) ≤ F.key m)
  unfolding compute_exposure_multiplier
  compute_exposure_multiplier_bounds dd limit soft h z =
      (ground arith, ground arith, ground arith, ground arith)

  -- A portfolio at its peak or above never breaches limits below zero: no halt, no breach.
  pub check_drawdown_at_peak :
      (current peak limit soft : F.Value) (halt_on_breach : Bool)
      → F.key peak ≤ F.key current
      → F.key limit < F.key soft
      → F.key soft < F.key (F.lit 0 0)
      → let r = check_drawdown_circuit_breaker F current peak limit soft halt_on_breach in
        (r.halted ≡ false) × (r.breached ≡ false)
  unfolding check_drawdown_circuit_breaker
  check_drawdown_at_peak current peak limit soft b p h s = ground arith
