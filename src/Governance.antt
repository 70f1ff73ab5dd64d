-- ===== src/Governance.antt =====
-- paper_trading/services/governance_service.py: whether an asset is halted, and the validity
-- score of its conditions.
--
-- A metric that is NaN or None is `none`. The warnings of the narrative and of the liquidity are
-- arguments. Reasons are constructors in place of texts.
pub mod Conditions
pub mod Registry
use quorrin.Base.{
  ℕ, String, Bool, true, false, not, ◌&&◌, Option, none, some, List, [], ◌∷◌, ◌++◌, map, length,
  ltb, leb, ◌==◌, if◌then◌else◌, Float, lt, le, fmax, fmin, fabs,
}
use quorrin.Validity.{Config, Machine, Observation, transition}

pub data HardReason : Type 0 where
  drawdown_reached profit_factor signal_drought psi_severe : HardReason
  liquidity : String → HardReason

pub data SoftWarning : Type 0 where
  confidence_drift : SoftWarning
  narrative_note liquidity_note : String → SoftWarning

pub record HaltConfig (F : Float) : Type 0 where
  pub drawdown : F.Value
  pub monthly_pf : F.Value
  pub drought_days : ℕ
  pub prob_drift_min_samples : ℕ
  pub prob_drift : F.Value
  pub expected_prob_conf : F.Value

-- The result for the features' distribution: whether it holds, and its penalty.
pub record PsiDrift (F : Float) : Type 0 where
  pub psi_ok : Bool
  pub penalty : F.Value

-- What a check reads.
pub record HaltInputs (F : Float) : Type 0 where
  pub drawdown : Option F.Value
  pub monthly_pf : Option F.Value
  pub mean_confidence : Option F.Value
  -- the whole days since the last signal, 0 for one in the future
  pub days_since_signal : Option ℕ
  pub prob_samples : ℕ
  pub narrative_warnings : List String
  pub liquidity_warnings : List String
  pub liquidity_halted : Bool
  pub last_psi_drift : Option (PsiDrift F)

pub record HaltStatus : Type 0 where
  pub halted : Bool
  pub hard_reasons : List HardReason
  pub soft_warnings : List SoftWarning
  pub drawdown_ok : Bool
  pub monthly_pf_ok : Bool
  pub drought_ok : Bool
  pub drift_ok : Bool
  pub narrative_ok : Bool
  pub liquidity_ok : Bool
  pub psi_ok : Bool

abbrev pub when {ℓ} : {A : Type ℓ} → Bool → A → List A
when b x = if b then x ∷ [] else []

-- `if liq_warnings`, which an empty list fails
abbrev pub some_of : List String → Bool
some_of [] = false
some_of (w ∷ ws) = true

module _ (F : Float) where
  open F use {Value, lit, add, sub, div}

  -- a percentage as a fraction, and 0 for NaN
  abbrev pub fraction : Option Value → Value
  fraction none = lit 0 0
  fraction (some x) = div x (lit 100 0)

  abbrev pub pf_fails : HaltConfig F → Option Value → Bool
  pf_fails c none = false
  pf_fails c (some pf) = lt F pf c.monthly_pf

  abbrev pub is_drought : HaltConfig F → Option ℕ → Bool
  is_drought c none = false
  is_drought c (some days) = ltb c.drought_days days

  unfoldable pub is_drifting : HaltConfig F → HaltInputs F → Bool
  is_drifting c i =
      leb c.prob_drift_min_samples i.prob_samples
      && lt F c.prob_drift (fabs F (sub (fraction i.mean_confidence) c.expected_prob_conf))

  abbrev pub psi_fails : Option (PsiDrift F) → Bool
  psi_fails none = false
  psi_fails (some p) = not p.psi_ok

  -- the reasons that halt, in their order
  unfoldable pub hard_reasons : HaltConfig F → HaltInputs F → List HardReason
  hard_reasons c i =
      when (le F (fraction i.drawdown) c.drawdown) drawdown_reached
      ++ (when (pf_fails c i.monthly_pf) profit_factor
          ++ (when (is_drought c i.days_since_signal) signal_drought
              ++ ((if i.liquidity_halted then map liquidity i.liquidity_warnings else [])
                  ++ when (psi_fails i.last_psi_drift) psi_severe)))

  unfoldable pub soft_warnings : HaltConfig F → HaltInputs F → List SoftWarning
  unfolding is_drifting
  soft_warnings c i =
      when (is_drifting c i) confidence_drift
      ++ (map narrative_note i.narrative_warnings
          ++ (if i.liquidity_halted then [] else map liquidity_note i.liquidity_warnings))

  -- `check_halt_conditions`
  unfoldable pub check_halt_conditions : HaltConfig F → HaltInputs F → HaltStatus
  unfolding hard_reasons soft_warnings is_drifting
  check_halt_conditions c i = record {
    halted = ltb 0 (length (hard_reasons c i));
    hard_reasons = hard_reasons c i;
    soft_warnings = soft_warnings c i;
    drawdown_ok = lt F c.drawdown (fraction i.drawdown);
    monthly_pf_ok = not (pf_fails c i.monthly_pf);
    drought_ok = not (is_drought c i.days_since_signal);
    drift_ok = not (is_drifting c i);
    narrative_ok = true;
    liquidity_ok = not (some_of i.liquidity_warnings && i.liquidity_halted);
    psi_ok = not (psi_fails i.last_psi_drift);
  }

  abbrev pub penalised : Option Value → Value → Value
  penalised none score = score
  penalised (some penalty) score = if lt F penalty (lit 0 0) then add score penalty else score

  abbrev pub deducted : Bool → Value → Value → Value
  deducted ok points score = if ok then score else sub score points

  -- the score of the conditions and of the two penalties, between 0 and 1
  unfoldable pub score_of : HaltStatus → Option Value → Option Value → Value
  score_of h stability psi =
      let s₁ = deducted h.drawdown_ok (lit 25 2) (lit 8 1) in
      let s₂ = deducted h.monthly_pf_ok (lit 2 1) s₁ in
      let s₃ = deducted h.drought_ok (lit 15 2) s₂ in
      let s₄ = deducted h.drift_ok (lit 15 2) s₃ in
      let s₅ = deducted h.liquidity_ok (lit 1 1) s₄ in
      fmax F (lit 0 0) (fmin F (lit 1 0) (penalised psi (penalised stability s₅)))

  abbrev pub psi_penalty : Option (PsiDrift F) → Option Value
  psi_penalty none = none
  psi_penalty (some p) = some p.penalty

  module _ (Time : Type 0) (std : List Value → Option Value) where
    -- `update_validity`: the machine is given the score, and no series of scores
    unfoldable pub update_validity :
        Config F
        → HaltStatus
        → Option Value
        → Option (PsiDrift F)
        → Time
        → Machine F Time
        → Machine F Time × Observation F Time
    unfolding score_of transition
    update_validity c h stability psi now m =
        transition F Time std c m (score_of h stability (psi_penalty psi)) now none
