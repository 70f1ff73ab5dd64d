-- ===== src/Orchestrator/Monitor.antt =====
-- `HealthMonitor` of paper_trading/orchestrator/health.py. The texts of the recommendations, which
-- are the keys of the rate limit, are functions of the numbers that they print.
pub mod Throttle
use quorrin.Base.{
  ℕ, String, Bool, true, false, Option, none, some, List, [], ◌∷◌, ◌++◌, map, length, last_n, ltb,
  if◌then◌else◌, Float, lt, le,
}
use quorrin.Base.Dict.{Dict, get_default, put}
use quorrin.Orchestrator.Actor.Records.{Actors}
use quorrin.Orchestrator.Actor.Snapshot
use quorrin.Orchestrator.Actor.Snapshot.{ActorHealthSnapshot, compute_health_snapshot}

pub record HealthSummary (F : Float) : Type 0 where
  pub timestamp : F.Value
  pub n_green : ℕ
  pub n_degraded : ℕ
  pub n_halted : ℕ
  pub n_recovering : ℕ
  pub halt_ratio : F.Value
  pub portfolio_drawdown_pct : F.Value
  pub portfolio_vol_zscore : F.Value
  pub emergency_halt_active : Bool
  pub recommendations : List String

pub record MonitorConfig (F : Float) : Type 0 where
  pub max_halt_ratio : F.Value
  pub max_drawdown : F.Value
  pub vol_spike_threshold : F.Value
  pub history_window : ℕ
  -- the texts of the three recommendations
  pub drawdown_text : F.Value → String
  pub vol_text : F.Value → String
  pub halt_text : F.Value → String

pub record HealthMonitor (F : Float) : Type 0 where
  pub history : List (HealthSummary F)
  pub last_warning : Dict F.Value

-- The clock of a call: at its start, and when a recommendation is tested and noted.
pub record Clock (F : Float) : Type 0 where
  pub timestamp : F.Value
  pub asked : String → F.Value
  pub noted : String → F.Value

-- The values of the portfolio that are given to a call.
pub record PortfolioView (F : Float) : Type 0 where
  pub value : Option F.Value
  pub peak : Option F.Value
  pub vol : Option F.Value
  pub baseline_vol : Option F.Value

unfoldable pub new_monitor : {F : Float} → HealthMonitor F
new_monitor = record { history = []; last_warning = [] }

module _ (F : Float) where
  open F use {Value, lit, neg, sub, mul, div, round}

  abbrev when_some : {A : Type 0} → (Value → List A) → Option Value → List A
  when_some f none = []
  when_some f (some x) = f x

  abbrev rounded : Option Value → Value
  rounded none = lit 0 0
  rounded (some x) = round x 2

  -- the drawdown, where both values are given and the peak is positive
  unfoldable pub drawdown_of : PortfolioView F → Option Value
  drawdown_of v = elim v.value [
    | none ↦ none
    | some value ↦ elim v.peak [
      | none ↦ none
      | some peak ↦ if lt F (lit 0 0) peak then some (div (sub value peak) peak) else none
    ]
  ]

  unfoldable pub vol_ratio_of : PortfolioView F → Option Value
  vol_ratio_of v = elim v.vol [
    | none ↦ none
    | some vol ↦ elim v.baseline_vol [
      | none ↦ none
      | some baseline ↦ if lt F (lit 0 0) baseline then some (div vol baseline) else none
    ]
  ]

  abbrev percent : Option Value → Option Value
  percent none = none
  percent (some dd) = some (mul dd (lit 100 0))

  -- the recommendations before the rate limit
  unfoldable pub recommend : MonitorConfig F → PortfolioView F → Value → List String
  unfolding drawdown_of vol_ratio_of
  recommend c v ratio =
      when_some
        (λ dd.
          if le F dd (neg c.max_drawdown)
          then c.drawdown_text (rounded (percent (some dd))) ∷ []
          else [])
        (drawdown_of v)
      ++ (when_some (λ x. if le F c.vol_spike_threshold x then c.vol_text x ∷ [] else [])
            (vol_ratio_of v)
          ++ (if le F c.max_halt_ratio ratio then c.halt_text ratio ∷ [] else []))

  -- whether more than 60 seconds have passed since the recommendation was last passed on
  unfoldable pub is_due : Clock F → String → Dict Value → Bool
  is_due c text last = lt F (lit 60 0) (sub (c.asked text) (get_default text (lit 0 0) last))

  -- the rate limit
  unfoldable pub throttle : Clock F → List String → Dict Value → Dict Value × List String
  unfolding is_due
  throttle c [] last = (last, [])
  throttle c (text ∷ texts) last =
      let due = is_due c text last in
      let (last', passed) = throttle c texts (if due then put text (c.noted text) last else last) in
      (last', if due then text ∷ passed else passed)

  unfoldable pub remember :
      MonitorConfig F → HealthSummary F → List (HealthSummary F) → List (HealthSummary F)
  remember c summary history =
      let longer = history ++ summary ∷ [] in
      if ltb c.history_window (length longer) then last_n c.history_window longer else longer

  unfoldable pub summary_of :
      Clock F → PortfolioView F → ActorHealthSnapshot → List String → HealthSummary F
  unfolding drawdown_of vol_ratio_of
  summary_of c v s texts = record {
    timestamp = c.timestamp;
    n_green = s.green;
    n_degraded = s.degraded;
    n_halted = s.halted;
    n_recovering = s.recovering;
    halt_ratio = Snapshot.halt_ratio F s;
    portfolio_drawdown_pct = rounded (percent (drawdown_of v));
    portfolio_vol_zscore = rounded (vol_ratio_of v);
    emergency_halt_active = false;
    recommendations = texts;
  }

  module _ {E Signal Trade : Type 0} where
    unfoldable pub recommendations_of :
        MonitorConfig F → Actors F E Signal Trade → PortfolioView F → List String
    unfolding recommend
    recommendations_of config actors v =
        let s = compute_health_snapshot F (map (λ p. p.1) actors) in
        recommend config v (Snapshot.halt_ratio F s)

    unfoldable pub observe :
        MonitorConfig F
        → Clock F
        → Actors F E Signal Trade
        → PortfolioView F
        → HealthMonitor F
        → HealthMonitor F × HealthSummary F
    unfolding recommendations_of throttle remember summary_of
    observe config c actors v m =
        let s = compute_health_snapshot F (map (λ p. p.1) actors) in
        let (last, passed) = throttle c (recommendations_of config actors v) m.last_warning in
        let summary = summary_of c v s passed in
        (record { history = remember config summary m.history; last_warning = last }, summary)

  unfoldable pub get_recent_history : ℕ → HealthMonitor F → List (HealthSummary F)
  get_recent_history n m = last_n n m.history

  unfoldable pub is_system_healthy : MonitorConfig F → HealthMonitor F → Bool
  is_system_healthy config m = elim (last_n 1 m.history) [
    | [] ↦ true
    | s ∷ rest ↦ lt F s.halt_ratio config.max_halt_ratio
  ]
