-- ===== src/Risk.antt =====
-- risk/drawdown_controls.py (and its copy paper_trading/governance/drawdown_controls.py): the
-- drawdown of the portfolio and what it does to the exposure.
pub mod Bounds
use quorrin.Base.{Bool, true, false, ◌&&◌, if◌then◌else◌, Float, lt, le, fmax}

module _ (F : Float) where
  open F use {Value, lit, sub, div, neg, round}

  unfoldable pub compute_drawdown : Value → Value → Value
  compute_drawdown current peak =
      if le F peak (lit 0 0)
      then lit 0 0
      else if le F peak current
      then lit 0 0
      else div (sub current peak) peak

  unfoldable pub compute_exposure_multiplier : Value → Value → Value → Value × Bool
  compute_exposure_multiplier drawdown drawdown_limit soft_limit =
      if le F soft_limit drawdown
      then (lit 1 0, false)
      else if le F drawdown drawdown_limit
      then (lit 0 0, true)
      else (
        fmax F (lit 0 0)
            (sub (lit 1 0) (div (sub drawdown soft_limit) (sub drawdown_limit soft_limit))),
        false,
      )

  pub record DrawdownCheck : Type 0 where
    pub drawdown : Value
    pub exposure_multiplier : Value
    pub halted : Bool
    pub breached : Bool

  unfoldable pub check_drawdown_circuit_breaker :
      Value → Value → Value → Value → Bool → DrawdownCheck
  unfolding compute_drawdown compute_exposure_multiplier
  check_drawdown_circuit_breaker current peak drawdown_limit soft_limit halt_on_breach =
      let dd = compute_drawdown current peak in
      let (multiplier, hard_halted) = compute_exposure_multiplier dd drawdown_limit soft_limit in
      record {
        drawdown = round dd 6;
        exposure_multiplier = round multiplier 4;
        halted = hard_halted && halt_on_breach;
        breached = le F dd drawdown_limit;
      }
