-- ===== src/Portfolio.antt =====
-- paper_trading/pek/state/portfolio_state_builder.py: the snapshot of the portfolio that the
-- admission reads.
--
-- The groups and the limits of the factors (shared/factor_model.py), the set of assets that are
-- only sold, the hour, and float("inf") are arguments. The fields of the snapshot are those that
-- the admission reads.
pub mod Views
pub mod Gates
pub mod Concurrent
use text.Mathlib.Text.{◌==◌ as str_eq}
use quorrin.Base.{
  ℕ, ◌+◌, ◌-◌, String, Bool, true, false, not, ◌&&◌, ◌||◌, Option, none, some, List, [], ◌∷◌, ◌++◌,
  map, length, ltb, leb, if◌then◌else◌, Float, lt, le, eq, fmax, fmin, fabs,
}
use quorrin.Base.Dict.{Dict, get, get_default}
use quorrin.Position.{PositionSide, long, short}
use quorrin.Admission.Contracts.{AssetGateState, ClusterInfo, PortfolioStateSnapshot}
use quorrin.Admission.Contracts as Contracts
use quorrin.Execution.Gates.{session_windows}
use quorrin.Portfolio.Views.{OpenPosition, EngineView, PositionInfo, PortfolioMode, FactorModel}

-- `CLUSTER_GROUPS`
unfoldable pub cluster_groups : Dict (List String)
cluster_groups =
    ("CHF", "EURCHF" ∷ "USDCHF" ∷ "NZDCHF" ∷ "CADCHF" ∷ "GBPCHF" ∷ [])
    ∷ ("US_EQUITY", "ES" ∷ "NQ" ∷ "^DJI" ∷ [])
    ∷ ("COMMODITY", "GC" ∷ [])
    ∷ ("AUD", "AUDUSD" ∷ "EURAUD" ∷ [])
    ∷ ("NZD", "NZDUSD" ∷ "NZDCHF" ∷ "EURNZD" ∷ [])
    ∷ []

unfoldable pub is_in : String → List String → Bool
is_in x [] = false
is_in x (y ∷ ys) = str_eq y x || is_in x ys

abbrev is_long : PositionSide → Bool
is_long long = true
is_long short = false

module _ (F : Float) where
  open F use {Value, lit, neg, add, sub, mul, div, round}

  -- the engines that an actor has
  abbrev pub Actors : Type 0
  Actors = Dict (Option (EngineView F))

  unfoldable pub total_equity : Actors → Value → Value
  total_equity [] acc = acc
  total_equity ((name, none) ∷ rest) acc = total_equity rest acc
  total_equity ((name, some e) ∷ rest) acc = total_equity rest (add acc e.mtm_value)

  unfoldable pub info_of : String → EngineView F → OpenPosition F → PositionInfo F
  info_of name e p = record {
    asset = name;
    side = p.side;
    notional = e.last_entry_notional;
    sl_distance_pct =
        if not (eq F p.stop_loss (lit 0 0)) && lt F (lit 0 0) p.entry_price
        then div (fabs F (sub p.entry_price p.stop_loss)) p.entry_price
        else lit 0 0;
  }

  unfoldable pub positions_of : Actors → List (PositionInfo F)
  unfolding info_of
  positions_of [] = []
  positions_of ((name, none) ∷ rest) = positions_of rest
  positions_of ((name, some e) ∷ rest) = elim e.position [
    | none ↦ positions_of rest
    | some p ↦ info_of name e p ∷ positions_of rest
  ]

  -- the notional of one side
  unfoldable pub notional_of : (PositionSide → Bool) → List (PositionInfo F) → Value → Value
  notional_of test [] acc = acc
  notional_of test (p ∷ ps) acc =
      notional_of test ps (if test p.side then add acc p.notional else acc)

  unfoldable pub gross_exposure : List (PositionInfo F) → Value
  unfolding notional_of
  gross_exposure ps =
      add (notional_of is_long ps (lit 0 0)) (notional_of (λ s. not (is_long s)) ps (lit 0 0))

  -- the weight of the last position of an asset, or 0
  unfoldable pub weight_of : Value → String → List (PositionInfo F) → Value → Value
  weight_of equity a [] w = w
  weight_of equity a (p ∷ ps) w =
      weight_of equity a ps
        (if str_eq p.asset a then div p.notional (fmax F equity (lit 1 0)) else w)

  unfoldable pub exposure : Value → List (PositionInfo F) → List String → Value → Value
  unfolding weight_of
  exposure equity ps [] acc = acc
  exposure equity ps (a ∷ as') acc =
      exposure equity ps as' (add acc (weight_of equity a ps (lit 0 0)))

  abbrev limits_of : FactorModel F → String → Value × Value
  limits_of m factor = elim (get factor m.factor_limits) [
    | none ↦ (neg (lit 1 0), lit 1 0)
    | some l ↦ l
  ]

  unfoldable pub headroom : Value × Value → Value → Value
  headroom (lo, hi) x =
      if le F (lit 0 0) x then fmax F (lit 0 0) (sub hi x) else fmax F (lit 0 0) (sub x lo)

  unfoldable pub factor_headroom :
      FactorModel F → Value → List (PositionInfo F) → Dict (List String) → List (String × Value)
  unfolding exposure headroom
  factor_headroom m equity ps [] = []
  factor_headroom m equity ps ((factor, assets) ∷ rest) =
      (factor, round (headroom (limits_of m factor) (exposure equity ps assets (lit 0 0))) 6)
      ∷ factor_headroom m equity ps rest

  unfoldable pub members : List String → List (PositionInfo F) → List (PositionInfo F)
  unfolding is_in
  members group [] = []
  members group (p ∷ ps) = if is_in p.asset group then p ∷ members group ps else members group ps

  unfoldable pub count_side : Bool → List (PositionInfo F) → ℕ
  count_side side [] = 0
  count_side side (p ∷ ps) =
      count_side side ps
      + (if is_long p.side then (if side then 1 else 0) else if side then 0 else 1)

  unfoldable pub dominant_side : List (PositionInfo F) → Option Contracts.Side
  unfolding count_side
  dominant_side ps =
      let longs = count_side true ps in
      let shorts = count_side false ps in
      if ltb shorts longs
      then some Contracts.long
      else if ltb longs shorts
      then some Contracts.short
      else none

  unfoldable pub clusters_of : List (PositionInfo F) → Dict (List String) → List ClusterInfo
  unfolding members dominant_side
  clusters_of ps [] = []
  clusters_of ps ((name, group) ∷ rest) =
      let inside = members group ps in
      let others = clusters_of ps rest in
      if ltb (length inside) 2
      then others
      else record {
        assets = map (λ (p : PositionInfo F). p.asset) inside;
        dominant_side = dominant_side inside;
        position_count = length inside;
      }
        ∷ others

  -- `SPREAD_TIER_BPS.get(tier, 20.0)`
  unfoldable pub spread_threshold : String → Value
  spread_threshold tier =
      if str_eq tier "fx_major"
      then lit 10 0
      else if str_eq tier "indices"
      then lit 15 0
      else lit 20 0

  -- `_compute_asset_gates`
  unfoldable pub compute_asset_gates : List String → ℕ → String → EngineView F → AssetGateState
  unfolding spread_threshold is_in
  compute_asset_gates sell_only hour name e = record {
    asset = name;
    spread_ok = elim e.last_spread_bps [
      | none ↦ true
      | some bps ↦ lt F bps (spread_threshold e.spread_tier)
    ];
    session_ok = elim (get e.spread_tier session_windows) [
      | none ↦ true
      | some (start, stop) ↦ leb start hour && ltb hour stop
    ];
    sell_only_ok = not (is_in name sell_only);
    confidence_ok = elim e.last_confidence [ none ↦ true | some c ↦ le F (lit 55 0) c ];
    risk_off_ok = not e.risk_off;
    hysteresis_ok = get_default "apply_signal_hysteresis" true e.last_gates_trace;
    conviction_ok = get_default "evaluate_conviction_gate" true e.last_gates_trace;
  }

  unfoldable pub gates_of : List String → ℕ → Actors → List AssetGateState
  unfolding compute_asset_gates
  gates_of sell_only hour [] = []
  gates_of sell_only hour ((name, none) ∷ rest) = gates_of sell_only hour rest
  gates_of sell_only hour ((name, some e) ∷ rest) =
      compute_asset_gates sell_only hour name e ∷ gates_of sell_only hour rest

  unfoldable pub max_daily_loss : Value → PortfolioMode F → Value → Value
  max_daily_loss infinity m equity = elim m.max_daily_loss_pct [
    | none ↦ infinity
    | some pct ↦ mul equity pct
  ]

  -- `build`
  unfoldable pub build :
      Value
      → FactorModel F
      → List String
      → ℕ
      → PortfolioMode F
      → Actors
      → Value
      → Value
      → PortfolioStateSnapshot F
  unfolding total_equity positions_of gross_exposure factor_headroom clusters_of gates_of
      max_daily_loss cluster_groups
  build infinity model sell_only hour m actors daily_pnl peak_value =
      let equity = total_equity actors (lit 0 0) in
      let ps = positions_of actors in
      let peak = fmax F peak_value equity in
      let daily = max_daily_loss infinity m equity in
      record {
        total_equity = equity;
        drawdown_pct = div (sub equity peak) (fmax F peak (lit 1 0));
        daily_loss_remaining = fmax F (lit 0 0) (sub daily (fabs F (fmin F (lit 0 0) daily_pnl)));
        max_daily_loss = daily;
        leverage_remaining = fmax F (lit 0 0) (sub (mul m.max_leverage equity) (gross_exposure ps));
        concurrent_remaining = m.max_concurrent_positions - length ps;
        factor_headroom = factor_headroom model equity ps model.factor_groups;
        clusters = clusters_of ps cluster_groups;
        asset_gates = gates_of sell_only hour actors;
      }
