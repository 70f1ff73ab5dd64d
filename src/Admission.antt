-- ===== src/Admission.antt =====
-- paper_trading/orchestrator/admission: the admission of the cycle's signals against the budgets
-- of the portfolio.
--
-- The snapshot is what the controller reads of the portfolio's state; its number of positions
-- still allowed is cut at 0 where it is built. `factor_groups` is the table of
-- shared/factor_model.py. `deferred` stays empty, since nothing is ever put there.
pub mod Contracts
pub mod Allocation
use text.Mathlib.Text.{◌==◌ as str_eq}
use quorrin.Base.{
  ℕ, suc, ◌+◌, ◌-◌, String, Bool, true, false, not, ◌&&◌, ◌||◌, Option, none, some, List, [], ◌∷◌,
  ◌++◌, map, length, min, ltb, leb, ◌==◌, if◌then◌else◌, Float, lt, le, fmax, fmin, fabs,
}
use quorrin.Base.Dict.{Dict, get_default}
use quorrin.Admission.Contracts.{
  Side, long, short, no_side, same_side, AdmissionSignal, ClusterInfo, AssetGateState, all_ok,
  PortfolioStateSnapshot, AdmissionConfig, Rejection, max_concurrent_positions_reached,
  daily_loss_budget_exhausted, leverage_budget_exhausted, drawdown_limit_would_be_exceeded,
  factor_exposure_limit, asset_gate_blocked, signal_stale, BudgetDelta, AdmissionResult,
}

abbrev contains : String → List String → Bool
contains k [] = false
contains k (j ∷ js) = str_eq j k || contains k js

module _ (F : Float) (factor_groups : Dict (List String)) where
  open F use {Value, lit, add, sub, mul, div, pow, neg, round}

  abbrev Signal : Type 0
  Signal = AdmissionSignal F

  abbrev Portfolio : Type 0
  Portfolio = PortfolioStateSnapshot F

  -- the fifth test: the first factor without headroom for the signal
  unfoldable pub factor_limit : Signal → Value → List (String × Value) → Option Rejection
  factor_limit s equity [] = none
  factor_limit s equity ((factor, headroom) ∷ rest) =
      let later = factor_limit s equity rest in
      let fraction = div s.notional_requested (fmax F equity (lit 1 0)) in
      if contains s.asset (get_default factor [] factor_groups) && lt F headroom fraction
      then some (factor_exposure_limit factor)
      else later

  unfoldable pub gate_blocked : Signal → List AssetGateState → Bool
  gate_blocked s [] = false
  gate_blocked s (g ∷ gs) = (str_eq g.asset s.asset && not (all_ok g)) || gate_blocked s gs

  -- `fast_filter`: `none` where the signal passes
  unfoldable pub fast_filter : AdmissionConfig F → Signal → Portfolio → Option Rejection
  unfolding factor_limit gate_blocked
  fast_filter c s p =
      let equity = fmax F p.total_equity (lit 1 0) in
      let projected = div s.risk_usd equity in
      let max_loss = div (fabs F p.max_daily_loss) equity in
      if p.concurrent_remaining == 0
      then some max_concurrent_positions_reached
      else if lt F p.daily_loss_remaining s.risk_usd
      then some daily_loss_budget_exhausted
      else if lt F p.leverage_remaining s.notional_requested
      then some leverage_budget_exhausted
      else if lt F max_loss (add (fabs F p.drawdown_pct) projected)
      then some drawdown_limit_would_be_exceeded
      else elim (factor_limit s p.total_equity p.factor_headroom) [
        | some r ↦ some r
        | none ↦
            if gate_blocked s p.asset_gates
            then some asset_gate_blocked
            else if ltb c.stale_after s.deferred_cycles
            then some signal_stale
            else none
      ]

  -- min(count - 1, 5) as a float, where the count may be 0
  abbrev crowd : ℕ → Value
  crowd n = if n == 0 then neg (lit 1 0) else lit (min (n - 1) 5) 0

  -- the penalty of the first cluster that has the asset
  unfoldable pub corr_penalty : Signal → List ClusterInfo → Value
  corr_penalty s [] = lit 0 0
  corr_penalty s (k ∷ ks) =
      let later = corr_penalty s ks in
      if contains s.asset k.assets
      then elim k.dominant_side [
        | none ↦ lit 0 0
        | some side ↦
            if same_side s.side side
            then div (mul (lit 1 1) (crowd k.position_count)) (lit 5 0)
            else lit 0 0
      ]
      else later

  -- `_compute_score`
  unfoldable pub compute_score : AdmissionConfig F → Signal → Portfolio → Value
  unfolding corr_penalty
  compute_score c s p =
      let raw =
        add
          (add
            (add
              (add (mul c.w_prob s.calibrated_prob)
                (mul c.w_ev (fmax F (lit 0 0) s.expected_value_r)))
              (mul c.w_rr (fmin F (div s.tp_sl_ratio (lit 5 0)) (lit 1 0))))
            (mul c.w_regime s.regime_confidence))
          (mul c.w_corr (corr_penalty s p.clusters)) in
      fmax F (lit 0 0) (mul raw (pow c.deferred_decay s.deferred_cycles))

  unfoldable pub score_of : AdmissionConfig F → Portfolio → Signal → Value × Signal
  unfolding compute_score
  score_of c p s = (if c.ranking_enabled then compute_score c s p else s.calibrated_prob, s)

  -- `scored.sort(key=lambda x: -x[0])`, a stable sort
  unfoldable pub insert : Value × Signal → List (Value × Signal) → List (Value × Signal)
  insert x [] = x ∷ []
  insert x (y ∷ ys) =
      let deeper = y ∷ insert x ys in if lt F (neg (y.0)) (neg (x.0)) then deeper else x ∷ y ∷ ys

  unfoldable pub rank : List (Value × Signal) → List (Value × Signal)
  unfolding insert
  rank [] = []
  rank (x ∷ xs) = insert x (rank xs)

  -- The budgets that are left while signals are admitted.
  pub record Budget : Type 0 where
    pub leverage : Value
    pub daily_loss : Value
    pub concurrent : ℕ

  -- the test of one signal against what is left
  unfoldable pub refusal : Signal → Budget → Option Rejection
  refusal s b =
      if lt F b.leverage s.notional_requested
      then some leverage_budget_exhausted
      else if lt F b.daily_loss s.risk_usd
      then some daily_loss_budget_exhausted
      else if b.concurrent == 0
      then some max_concurrent_positions_reached
      else none

  unfoldable pub consume : Signal → Budget → Budget
  consume s b = record {
    leverage = sub b.leverage s.notional_requested;
    daily_loss = sub b.daily_loss s.risk_usd;
    concurrent = b.concurrent - 1;
  }

  -- Signals that are taken, and those that are left with the reason.
  abbrev pub Split : Type 0
  Split = List Signal × List (Signal × Rejection)

  -- one more signal, before the others: `none` is no reason to leave it
  abbrev pub put_in : Signal → Option Rejection → Split → Split
  put_in s none (taken, left) = (s ∷ taken, left)
  put_in s (some r) (taken, left) = (taken, (s, r) ∷ left)

  -- what is left behind a signal
  unfoldable pub budget_after : Signal → Budget → Budget
  unfolding consume refusal
  budget_after s b = elim (refusal s b) [ none ↦ consume s b | some r ↦ b ]

  -- the loop of `rank_and_allocate`
  unfoldable pub allocate : List (Value × Signal) → Budget → Split
  unfolding refusal budget_after
  allocate [] b = ([], [])
  allocate ((score, s) ∷ rest) b = put_in s (refusal s b) (allocate rest (budget_after s b))

  unfoldable pub sum_of : (Signal → Value) → List Signal → Value → Value
  sum_of f [] total = total
  sum_of f (s ∷ ss) total = sum_of f ss (add total (f s))

  abbrev empty : AdmissionResult F
  empty = record {
    admitted = [];
    rejected = [];
    budget_delta = record {
      leverage_consumed = lit 0 0;
      daily_loss_consumed = lit 0 0;
      positions_added = 0;
    };
    ranking_scores = [];
  }

  unfoldable pub budget_of : Portfolio → Budget
  budget_of p = record {
    leverage = p.leverage_remaining;
    daily_loss = p.daily_loss_remaining;
    concurrent = p.concurrent_remaining;
  }

  -- `rank_and_allocate`; the scores are kept in the order of the ranking, an asset's once for
  -- each of its signals
  unfoldable pub rank_and_allocate : AdmissionConfig F → List Signal → Portfolio → AdmissionResult F
  unfolding score_of rank allocate budget_of sum_of
  rank_and_allocate c [] p = empty
  rank_and_allocate c (s ∷ ss) p =
      let scored = rank (map (score_of c p) (s ∷ ss)) in
      let (admitted, rejected) = allocate scored (budget_of p) in
      record {
        admitted = admitted;
        rejected = rejected;
        budget_delta = record {
          leverage_consumed = sum_of (λ t. t.notional_requested) admitted (lit 0 0);
          daily_loss_consumed = sum_of (λ t. t.risk_usd) admitted (lit 0 0);
          positions_added = length admitted;
        };
        ranking_scores = map (λ x. ((x.1).asset, round (x.0) 4)) scored;
      }

  -- stage A: the signals that pass the fast filter, and the others
  unfoldable pub filter_all : AdmissionConfig F → Portfolio → List Signal → Split
  unfolding fast_filter
  filter_all c p [] = ([], [])
  filter_all c p (s ∷ ss) = put_in s (fast_filter c s p) (filter_all c p ss)

  unfoldable pub run_admission : AdmissionConfig F → List Signal → Portfolio → AdmissionResult F
  unfolding filter_all rank_and_allocate
  run_admission c candidates p =
      let (passed, rejected) = filter_all c p candidates in
      let result = rank_and_allocate c passed p in
      record result { rejected = result.rejected ++ rejected }
