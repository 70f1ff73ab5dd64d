-- ===== src/Entry/TakeProfit.antt =====
-- paper_trading/entry/tp_compiler.py: how far away the profit is taken, and in which parts.
--
-- The methods `upper` and `lower` of a text are arguments. The metadata of the geometry are left
-- out.
pub mod Regimes
use text.Mathlib.Text.{◌==◌ as str_eq}
use quorrin.Base.{String, Bool, ◌||◌, List, [], ◌∷◌, if◌then◌else◌, Float, lt, le}
use quorrin.Base.Dict.{Dict, get_default}

-- The validity of an asset as the module's enumeration knows it.
pub data ValidityState : Type 0 where
  green yellow red : ValidityState

unfoldable pub value_of : ValidityState → String
value_of green = "GREEN"
value_of yellow = "YELLOW"
value_of red = "RED"

-- `str | ValidityState`
pub data Regime : Type 0 where
  words : String → Regime
  validity : ValidityState → Regime

-- The section `tp_compiler` of the configuration, its defaults filled in.
pub record TpConfig (F : Float) : Type 0 where
  pub breakout_test_convexity : F.Value
  pub breakout_convexity : F.Value
  pub trend_pullback_convexity : F.Value
  pub mean_reversion_convexity : F.Value
  pub vol_expansion_convexity : F.Value
  pub momentum_ignition_convexity : F.Value
  pub unknown_convexity : F.Value
  pub regime_green : F.Value
  pub regime_yellow : F.Value
  pub regime_red : F.Value
  pub regime_calm : F.Value
  pub regime_range : F.Value
  pub regime_trend : F.Value
  pub regime_volatile : F.Value
  pub regime_crisis : F.Value

pub record TpGeometry (F : Float) : Type 0 where
  pub tp_distance : F.Value
  pub scale_out_tiers : List (F.Value × F.Value)
  pub convexity_score : F.Value

module _ (F : Float) where
  open F use {Value, lit, mul, div, round}

  -- the two tables of `_load_tp_config`
  unfoldable pub archetype_convexity : TpConfig F → Dict Value
  archetype_convexity c =
      ("BREAKOUT_TEST", c.breakout_test_convexity)
      ∷ ("BREAKOUT", c.breakout_convexity)
      ∷ ("TREND_PULLBACK", c.trend_pullback_convexity)
      ∷ ("MEAN_REVERSION", c.mean_reversion_convexity)
      ∷ ("VOL_EXPANSION", c.vol_expansion_convexity)
      ∷ ("MOMENTUM_IGNITION", c.momentum_ignition_convexity)
      ∷ ("UNKNOWN", c.unknown_convexity)
      ∷ []

  unfoldable pub regime_multipliers : TpConfig F → Dict Value
  regime_multipliers c =
      ("GREEN", c.regime_green)
      ∷ ("YELLOW", c.regime_yellow)
      ∷ ("RED", c.regime_red)
      ∷ ("calm", c.regime_calm)
      ∷ ("range", c.regime_range)
      ∷ ("trend", c.regime_trend)
      ∷ ("volatile", c.regime_volatile)
      ∷ ("crisis", c.regime_crisis)
      ∷ []

  unfoldable pub regime_key : (String → String) → Regime → String
  unfolding value_of
  regime_key lower (words t) = lower t
  regime_key lower (validity s) = value_of s

  -- 1 / 3
  abbrev third : Value
  third = div (lit 1 0) (lit 3 0)

  -- `_generate_scale_out_profile`, of an archetype in capitals
  unfoldable pub generate_scale_out_profile : String → Value → List (Value × Value)
  generate_scale_out_profile archetype convexity =
      if lt F convexity (lit 11 1) || str_eq archetype "MEAN_REVERSION"
      then (lit 5 1, lit 5 1) ∷ (lit 3 1, lit 8 1) ∷ (lit 2 1, lit 1 0) ∷ []
      else if le F (lit 15 1) convexity
          || str_eq archetype "MOMENTUM_IGNITION"
          || str_eq archetype "BREAKOUT"
      then (lit 2 1, lit 5 1) ∷ (lit 3 1, lit 1 0) ∷ (lit 5 1, lit 15 1) ∷ []
      else (third, lit 5 1) ∷ (third, lit 1 0) ∷ (third, lit 15 1) ∷ []

  -- `MAX_RR`
  abbrev pub max_rr : Value
  max_rr = lit 5 0

  -- the distance, and its cap
  unfoldable pub capped_distance : Value → Value → Value → Value → Value
  capped_distance sl_distance convexity reg_mult override =
      let wide = mul (mul (mul sl_distance convexity) reg_mult) override in
      let cap = mul sl_distance max_rr in if lt F cap wide then cap else wide

  -- the geometry of an archetype in capitals under a multiplier
  unfoldable pub geometry : TpConfig F → Value → Value → String → Value → TpGeometry F
  unfolding archetype_convexity capped_distance generate_scale_out_profile
  geometry c sl_distance reg_mult archetype override =
      let convexity = get_default archetype (lit 1 0) (archetype_convexity c) in
      record {
        tp_distance = round (capped_distance sl_distance convexity reg_mult override) 6;
        scale_out_tiers = generate_scale_out_profile archetype convexity;
        convexity_score = convexity;
      }

  unfoldable pub compute_take_profit :
      (String → String)
      → (String → String)
      → TpConfig F
      → Value
      → Regime
      → String
      → Value
      → TpGeometry F
  unfolding geometry regime_multipliers regime_key
  compute_take_profit upper lower c sl_distance regime archetype override =
      let reg_mult = get_default (regime_key lower regime) (lit 1 0) (regime_multipliers c) in
      geometry c sl_distance reg_mult (upper archetype) override
