-- ===== src/Governance/Conditions.antt =====
-- What halts an asset, and what the validity machine makes of its score.
use quorrin.Base.{
  ◌<◌, ◌≡◌, refl, Bool, true, false, not, ◌&&◌, Option, List, [], ◌∷◌, ◌++◌, map, length, arith,
  Float, lt, le, leb, ltb, if◌then◌else◌, String,
}
use quorrin.Validity.{Config, Machine, transition, check_regime_persistence_lock}
use quorrin.Governance.{
  HaltConfig, HaltInputs, HaltStatus, PsiDrift, check_halt_conditions, hard_reasons,
  update_validity, fraction, pf_fails, is_drought, psi_fails, some_of, when, drawdown_reached,
  profit_factor, signal_drought, psi_severe, liquidity,
}

some_reason :
    (a b d l p : Bool) (ws : List String)
    → ltb 0 (
        length (
          when a drawdown_reached
          ++ (when b profit_factor
              ++ (when d signal_drought
                  ++ ((if l then map liquidity ws else []) ++ when p psi_severe)))))
      ≡ not (not a && not b && not d && not (some_of ws && l) && not p)
some_reason a b d l p [] = ground arith
some_reason true b d l p (w ∷ ws) = ground arith
some_reason false true d l p (w ∷ ws) = ground arith
some_reason false false true l p (w ∷ ws) = ground arith
some_reason false false false true p (w ∷ ws) = ground arith
some_reason false false false false true (w ∷ ws) = refl
some_reason false false false false false (w ∷ ws) = refl

module _ (F : Float) where
  open F use {Value, key}

  -- An asset is halted exactly if one of its conditions fails: the drawdown, the profit factor,
  -- the drought of signals, the liquidity, or the distribution of the features. The drift of the
  -- confidence and the narrative never halt it.
  pub check_halt_conditions_iff :
      (c : HaltConfig F) (i : HaltInputs F)
      → (let h = check_halt_conditions F c i in
          h.halted
          ≡ not (h.drawdown_ok && h.monthly_pf_ok && h.drought_ok && h.liquidity_ok && h.psi_ok))
  unfolding check_halt_conditions hard_reasons
  check_halt_conditions_iff c i =
      let above : lt F c.drawdown (fraction F i.drawdown)
          ≡ not (le F (fraction F i.drawdown) c.drawdown) =
        ground arith in
      rw above (
        some_reason (le F (fraction F i.drawdown) c.drawdown) (pf_fails F c i.monthly_pf)
          (is_drought F c i.days_since_signal) i.liquidity_halted (psi_fails F i.last_psi_drift)
          i.liquidity_warnings)

  module _ (Time : Type 0) (std std' : List Value → Option Value) where
    -- The volatility of the scores never counts: where the window of the lock is longer than
    -- one score, the update is the same under any measure of the deviation, for the machine is
    -- given the one score of this update only.
    pub update_validity-std :
        (c : Config F) (h : HaltStatus) (stability : Option Value) (psi : Option (PsiDrift F))
        (now : Time) (m : Machine F Time)
        → 1 < c.regime_lock_window
        → update_validity F Time std c h stability psi now m
          ≡ update_validity F Time std' c h stability psi now m
    unfolding update_validity transition check_regime_persistence_lock
    update_validity-std c h stability psi now m w =
        let short : leb c.regime_lock_window 1 ≡ false = ground arith in rw short refl
