-- ===== src/Performance/Trackers.antt =====
-- paper_trading/pek/perf: the trackers behind the performance state. A `deque(maxlen=n)` is a
-- list that keeps its last n elements.
use text.Mathlib.Text.{◌==◌ as str_eq}
use quorrin.Base.{
  ℕ, ◌+◌, ◌-◌, ◌*◌, ◌/◌, min, String, Bool, ◌&&◌, ◌||◌, Option, none, some, List, [], ◌∷◌, map,
  length, last_n, take, get_elem?, leb, ltb, ◌==◌, if◌then◌else◌, Float, lt, le, eq, fabs,
}
use quorrin.Base.Windows.{push}

pub record Outcome (F : Float) : Type 0 where
  pub exit_reason : String
  pub r_multiple : F.Value
  pub mae_pct : F.Value
  pub mfe_pct : F.Value

pub record OutcomeTracker (F : Float) : Type 0 where
  pub window : ℕ
  pub outcomes : List (Outcome F)
  pub consecutive_losses : ℕ
  pub r_sum : F.Value

pub record DegradationMonitor (F : Float) : Type 0 where
  pub ece_history : List F.Value
  pub feature_stability_history : List F.Value

pub record MarketStateReader (F : Float) : Type 0 where
  pub atr_history : List F.Value
  pub current_regime : String
  pub current_spread_regime : String
  pub current_liquidity_regime : String

pub record ExecutionQualityTracker (F : Float) : Type 0 where
  pub slippage_history : List F.Value
  pub partial_fills : ℕ
  pub total_trades : ℕ

unfoldable pub is_win : {F : Float} → Outcome F → Bool
is_win o = str_eq o.exit_reason "TP"

count_wins : {F : Float} → List (Outcome F) → ℕ
unfolding is_win
count_wins [] = 0
count_wins (o ∷ os) = count_wins os + (if is_win o then 1 else 0)

module _ (F : Float) where
  open F use {Value, lit, neg, add, sub, mul, div}

  abbrev pub nat : ℕ → Value
  nat n = lit n 0

  unfoldable pub sum : List Value → Value → Value
  sum [] acc = acc
  sum (x ∷ xs) acc = sum xs (add acc x)

  -- sum(xs) / len(xs)
  abbrev mean : List Value → Value
  unfolding sum
  mean xs = div (sum xs (nat 0)) (nat (length xs))

  abbrev pub nth : List Value → ℕ → Value
  nth xs i = elim (get_elem? xs i) [ none ↦ nat 0 | some x ↦ x ]

  -- (xs[-1] - xs[0]) / max(len(xs) - 1, 1)
  unfoldable pub slope : List Value → Value
  slope xs =
      div (sub (nth xs (length xs - 1)) (nth xs 0))
        (nat (if ltb 1 (length xs - 1) then length xs - 1 else 1))

  -- the slope of the last five, where there are five
  unfoldable pub slope_5 : List Value → Value
  unfolding slope
  slope_5 xs = if ltb (length xs) 5 then nat 0 else slope (last_n 5 xs)

  unfoldable pub record_trade : Outcome F → OutcomeTracker F → OutcomeTracker F
  unfolding is_win sum push
  record_trade o t =
      let outcomes = push t.window o t.outcomes in
      record t {
        outcomes = outcomes;
        consecutive_losses = if is_win o then 0 else t.consecutive_losses + 1;
        r_sum = sum (map (λ (x : Outcome F). x.r_multiple) outcomes) (nat 0);
      }

  unfoldable pub new_tracker : ℕ → OutcomeTracker F
  new_tracker window = record {
    window = window;
    outcomes = [];
    consecutive_losses = 0;
    r_sum = nat 0;
  }

  unfoldable pub reset : OutcomeTracker F → OutcomeTracker F
  unfolding new_tracker
  reset t = new_tracker t.window

  unfoldable pub win_rate : OutcomeTracker F → Value
  unfolding count_wins
  win_rate t = elim t.outcomes [
    | [] ↦ nat 0
    | o ∷ os ↦ div (nat (count_wins (o ∷ os))) (nat (length (o ∷ os)))
  ]

  unfoldable pub outcome_scalar : OutcomeTracker F → Value
  unfolding win_rate
  outcome_scalar t =
      let wr = win_rate t in
      let consec = t.consecutive_losses in
      let r_cum = t.r_sum in
      if leb 5 consec
      then lit 3 1
      else if leb 3 consec
      then lit 5 1
      else if lt F wr (lit 4 1) && lt F r_cum (nat 0)
      then lit 5 1
      else if le F (lit 4 1) wr && le F wr (lit 55 2)
      then lit 1 0
      else if lt F (lit 55 2) wr && consec == 0 && lt F (lit 3 0) r_cum
      then lit 11 1
      else if lt F (lit 6 1) wr && consec == 0 && lt F (lit 6 0) r_cum
      then lit 12 1
      else lit 1 0

  unfoldable pub update_degradation : Value → Value → DegradationMonitor F → DegradationMonitor F
  update_degradation ece stability d = record {
    ece_history = push 20 ece d.ece_history;
    feature_stability_history = push 20 stability d.feature_stability_history;
  }

  unfoldable pub degradation_scalar : DegradationMonitor F → Value
  unfolding sum
  degradation_scalar d =
      let ece = mean d.ece_history in
      let stability = mean d.feature_stability_history in
      if length d.ece_history == 0 || length d.feature_stability_history == 0
      then lit 1 0
      else if lt F (lit 15 2) ece && lt F stability (lit 6 1)
      then lit 4 1
      else if lt F (lit 1 1) ece || lt F stability (lit 7 1)
      then lit 6 1
      else lit 1 0

  unfoldable pub update_market :
      Value → String → String → String → MarketStateReader F → MarketStateReader F
  update_market atr regime spread liquidity m = record {
    atr_history = push 21 atr m.atr_history;
    current_regime = regime;
    current_spread_regime = spread;
    current_liquidity_regime = liquidity;
  }

  unfoldable pub atr_ratio : MarketStateReader F → Value
  atr_ratio m =
      if length m.atr_history == 0 then lit 1 0 else nth m.atr_history (length m.atr_history - 1)

  unfoldable pub market_scalar : MarketStateReader F → Value
  unfolding atr_ratio
  market_scalar m =
      if str_eq m.current_liquidity_regime "STRESSED"
      then lit 4 1
      else if str_eq m.current_spread_regime "WIDE"
      then lit 6 1
      else if lt F (lit 15 1) (atr_ratio m) && str_eq m.current_regime "VOLATILE"
      then lit 5 1
      else if str_eq m.current_regime "RANGE"
      then lit 1 0
      else lit 8 1

  unfoldable pub record_slippage : Value → ExecutionQualityTracker F → ExecutionQualityTracker F
  record_slippage slippage x = record x {
    slippage_history = push 200 (fabs F slippage) x.slippage_history;
  }

  unfoldable pub record_fill : Bool → ExecutionQualityTracker F → ExecutionQualityTracker F
  record_fill was_partial x = record x {
    total_trades = x.total_trades + 1;
    partial_fills = if was_partial then x.partial_fills + 1 else x.partial_fills;
  }

  insert : Value → List Value → List Value
  insert x [] = x ∷ []
  insert x (y ∷ ys) = if le F x y then x ∷ y ∷ ys else y ∷ insert x ys

  sorted : List Value → List Value
  unfolding insert
  sorted [] = []
  sorted (x ∷ xs) = insert x (sorted xs)

  unfoldable pub slippage_p90 : ExecutionQualityTracker F → Value
  unfolding sorted
  slippage_p90 x =
      let n = length x.slippage_history in
      if ltb n 10 then nat 0 else nth (sorted x.slippage_history) (min (n * 9 / 10) (n - 1))

  -- `none` is a division by zero, where the older of the last ten slippages are all 0
  unfoldable pub slippage_velocity : ExecutionQualityTracker F → Option Value
  unfolding sum
  slippage_velocity x =
      let n = length x.slippage_history in
      let recent = last_n 5 x.slippage_history in
      let older = take 5 (last_n 10 x.slippage_history) in
      if ltb n 10
      then some (nat 0)
      else if eq F (mean older) (nat 0)
      then none
      else some (sub (div (mean recent) (mean older)) (lit 1 0))

  unfoldable pub partial_fill_rate : ExecutionQualityTracker F → Value
  partial_fill_rate x =
      if x.total_trades == 0 then nat 0 else div (nat x.partial_fills) (nat x.total_trades)

  unfoldable pub execution_scalar : ExecutionQualityTracker F → Value
  unfolding slippage_p90 partial_fill_rate
  execution_scalar x =
      if lt F (lit 2 1) (partial_fill_rate x)
      then lit 5 1
      else if lt F (lit 3 0) (slippage_p90 x)
      then lit 6 1
      else lit 1 0
