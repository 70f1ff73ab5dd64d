-- ===== src/Governance/Registry.antt =====
-- paper_trading/governance/risk_registry.py: the risk of an asset from its trades and from the
-- scores of its drift, which are an argument, as is the capital form of a text. Its locks are left
-- out: each call is one step.
pub mod Windows
use text.Mathlib.Text.{◌==◌ as str_eq}
use quorrin.Base.{
  ℕ, ◌+◌, String, Bool, true, false, not, ◌&&◌, ◌||◌, Option, none, some, List, [], ◌∷◌, ◌++◌,
  length, ltb, if◌then◌else◌, Float, lt, fmax,
}
use quorrin.Base.Dict.{Dict, get_default, put}
use quorrin.Base.Windows.{push}

-- The windows hold 1 for a hit and 0 for none.
pub record RiskRegistry : Type 0 where
  pub sl_hit_rates : Dict (List ℕ)
  pub sell_win_rates : Dict (List ℕ)
  pub tripwire_last_state : Dict Bool

unfoldable pub new_registry : RiskRegistry
new_registry = record { sl_hit_rates = []; sell_win_rates = []; tripwire_last_state = [] }

-- `reset`
unfoldable pub reset : RiskRegistry → RiskRegistry
unfolding new_registry
reset r = new_registry

pub record DriftScores (F : Float) : Type 0 where
  pub model_drift : F.Value
  pub signal_drift : F.Value
  pub pnl_drift : F.Value
  pub feature_stability : F.Value
  pub regime_consistency : F.Value

pub data RiskLevel : Type 0 where
  low medium high : RiskLevel

pub data RiskFlag : Type 0 where
  drift_of_model signal_instability pnl_degradation feature_unstable regime_shift : RiskFlag
  excessive_sl_hits elevated_sl_hits sell_tripwire : RiskFlag

pub data Action : Type 0 where
  pause reduce_risk monitor normal : Action

pub record RiskSignal (F : Float) : Type 0 where
  pub risk_level : RiskLevel
  pub risk_score : F.Value
  pub confidence : F.Value
  pub exposure_multiplier : F.Value
  pub risk_flags : List RiskFlag
  pub recommended_action : Action

unfoldable pub count : List ℕ → ℕ
count [] = 0
count (n ∷ ns) = n + count ns

abbrev pub bit : Bool → ℕ
bit b = if b then 1 else 0

module _ (F : Float) (upper : String → String) where
  open F use {Value, lit, add, sub, mul, div, round}

  -- the rate over a window of five trades or more
  unfoldable pub rate : List ℕ → Option Value
  unfolding count
  rate dq = if ltb (length dq) 5 then none else some (div (lit (count dq) 0) (lit (length dq) 0))

  -- whether a win rate is there and below the threshold
  unfoldable pub trips : Option Value → Bool
  trips none = false
  trips (some win_rate) = lt F win_rate (lit 65 2)

  unfoldable pub record_trade_outcome : String → String → RiskRegistry → RiskRegistry
  record_trade_outcome asset reason r = record r {
    sl_hit_rates =
        put asset (push 20 (bit (str_eq (upper reason) "SL")) (get_default asset [] r.sl_hit_rates))
          r.sl_hit_rates;
  }

  -- the trades that the tripwire counts
  unfoldable pub is_counted : String → String → Bool
  is_counted reason side =
      str_eq side "short" && (str_eq (upper reason) "TP" || str_eq (upper reason) "SL")

  unfoldable pub record_sell_side_outcome : String → String → String → RiskRegistry → RiskRegistry
  unfolding is_counted rate trips
  record_sell_side_outcome asset reason side r =
      let dq = push 20 (bit (str_eq (upper reason) "TP")) (get_default asset [] r.sell_win_rates) in
      if is_counted reason side
      then record r {
        sell_win_rates = put asset dq r.sell_win_rates;
        tripwire_last_state = put asset (trips (rate dq)) r.tripwire_last_state;
      }
      else r

  unfoldable pub get_sl_hit_rate : String → RiskRegistry → Option Value
  unfolding rate
  get_sl_hit_rate asset r = rate (get_default asset [] r.sl_hit_rates)

  unfoldable pub get_sell_win_rate : String → RiskRegistry → Option Value
  unfolding rate
  get_sell_win_rate asset r = rate (get_default asset [] r.sell_win_rates)

  unfoldable pub get_sell_tripwire_state : String → Bool → RiskRegistry → Option Value × Bool
  unfolding get_sell_win_rate trips
  get_sell_tripwire_state asset sell_only r =
      (get_sell_win_rate asset r, sell_only && trips (get_sell_win_rate asset r))

  abbrev above : Value → Option Value → Bool
  above limit none = false
  above limit (some x) = lt F limit x

  abbrev flag : Bool → RiskFlag → List RiskFlag
  flag b f = if b then f ∷ [] else []

  -- the weighted sum, and what the two rates add to it
  unfoldable pub risk_score : DriftScores F → Option Value → Option Value → Value
  unfolding trips
  risk_score d sl sell =
      let s₁ = add (lit 0 0) (mul d.model_drift (lit 25 2)) in
      let s₂ = add s₁ (mul d.signal_drift (lit 20 2)) in
      let s₃ = add s₂ (mul d.pnl_drift (lit 25 2)) in
      let s₄ = add s₃ (mul d.feature_stability (lit 15 2)) in
      let s₅ = add s₄ (mul d.regime_consistency (lit 15 2)) in
      let s₆ =
        if above (lit 55 2) sl
        then add s₅ (lit 30 2)
        else if above (lit 40 2) sl
        then add s₅ (lit 15 2)
        else s₅ in
      if trips sell then add s₆ (lit 25 2) else s₆

  unfoldable pub risk_flags : DriftScores F → Option Value → Option Value → List RiskFlag
  unfolding trips
  risk_flags d sl sell =
      flag (lt F (lit 3 1) d.model_drift) drift_of_model
      ++ (flag (lt F (lit 3 1) d.signal_drift) signal_instability
          ++ (flag (lt F (lit 3 1) d.pnl_drift) pnl_degradation
              ++ (flag (lt F (lit 3 1) d.feature_stability) feature_unstable
                  ++ (flag (lt F (lit 3 1) d.regime_consistency) regime_shift
                      ++ ((if above (lit 55 2) sl
                            then excessive_sl_hits ∷ []
                            else flag (above (lit 40 2) sl) elevated_sl_hits)
                          ++ flag (trips sell) sell_tripwire)))))

  abbrev pauses : RiskFlag → Bool
  pauses excessive_sl_hits = true
  pauses sell_tripwire = true
  pauses _ = false

  unfoldable pub any_pauses : List RiskFlag → Bool
  any_pauses [] = false
  any_pauses (f ∷ fs) = pauses f || any_pauses fs

  -- `_recommend`
  unfoldable pub recommend : RiskLevel → List RiskFlag → Action
  unfolding any_pauses
  recommend level flags = if any_pauses flags then pause else elim level [
    | high ↦ pause
    | medium ↦ reduce_risk
    | low ↦ elim flags [ [] ↦ normal | f ∷ fs ↦ monitor ]
  ]

  unfoldable pub level_of : Value → RiskLevel
  level_of score =
      if lt F score (lit 3 1) then low else if lt F score (lit 6 1) then medium else high

  -- `evaluate`, without the cache and the explanations
  unfoldable pub evaluate : DriftScores F → String → RiskRegistry → RiskSignal F
  unfolding risk_score risk_flags recommend level_of get_sl_hit_rate get_sell_win_rate
  evaluate d asset r =
      let sl = get_sl_hit_rate asset r in
      let sell = get_sell_win_rate asset r in
      let score = risk_score d sl sell in
      let flags = risk_flags d sl sell in
      record {
        risk_level = level_of score;
        risk_score = round score 4;
        confidence = round (sub (lit 1 0) score) 4;
        exposure_multiplier = round (fmax F (lit 0 0) (sub (lit 1 0) score)) 4;
        risk_flags = flags;
        recommended_action = recommend (level_of score) flags;
      }
