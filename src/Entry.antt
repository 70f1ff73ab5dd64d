-- ===== src/Entry.antt =====
-- paper_trading/entry: which signals are entered at once, which are put off, and the packets
-- that go from one to the other.
--
-- The texts of reasons and the metadata of a packet are left out: nothing decides on them.
pub mod Deferred
pub mod Gate
pub mod Polling
pub mod TakeProfit
pub mod Opening
pub mod Sizing
pub mod Submit
use text.Mathlib.Text.{◌==◌ as str_eq}
use quorrin.Base.{String, Bool, true, false, ◌&&◌, Option, none, if◌then◌else◌, Float, lt}

pub data SignalType : Type 0 where
  buy sell flat : SignalType

abbrev pub is_buy : SignalType → Bool
is_buy buy = true
is_buy _ = false

abbrev pub is_sell : SignalType → Bool
is_sell sell = true
is_sell _ = false

pub data EntryAction : Type 0 where
  enter defer skip exit : EntryAction

pub record MarketStructureState (F : Float) : Type 0 where
  pub trend_strength : F.Value
  pub compression_score : F.Value
  pub distance_to_swing_high : F.Value
  pub distance_to_swing_low : F.Value
  pub volatility_regime : F.Value
  pub breakout_pressure : F.Value

-- The class of the model behind the signal is left out.
pub record TradeDecision (F : Float) : Type 0 where
  pub asset : String
  pub signal : SignalType
  pub confidence : F.Value
  pub prob_long : F.Value
  pub prob_short : F.Value
  pub prob_neutral : F.Value
  pub close_price : F.Value
  pub timestamp : String
  pub position_size : F.Value
  pub archetype : String
  pub feature_hash : String

-- The thresholds of `entry_optimization`.
pub record OptimizerConfig (F : Float) : Type 0 where
  pub mom_max_pressure : F.Value
  pub mom_min_pressure : F.Value
  pub mr_extreme_high : F.Value
  pub mr_extreme_low : F.Value
  pub breakout_max_compression : F.Value

pub data Archetype : Type 0 where
  momentum_ignition mean_reversion breakout_test vol_expansion other : Archetype

-- the key of the policy map that an archetype is
unfoldable pub archetype_of : String → Archetype
archetype_of name =
    if str_eq name "MOMENTUM_IGNITION"
    then momentum_ignition
    else if str_eq name "MEAN_REVERSION"
    then mean_reversion
    else if str_eq name "BREAKOUT_TEST"
    then breakout_test
    else if str_eq name "VOL_EXPANSION"
    then vol_expansion
    else other

module _ (F : Float) where
  -- `_momentum_ignition_policy`: put off what chases the high or the low
  unfoldable pub momentum_ignition_policy :
      SignalType → MarketStructureState F → OptimizerConfig F → EntryAction
  momentum_ignition_policy signal s c =
      if is_buy signal && lt F c.mom_max_pressure s.breakout_pressure
      then defer
      else if is_sell signal && lt F s.breakout_pressure c.mom_min_pressure
      then defer
      else enter

  -- `_mean_reversion_policy`: wait for the extremes
  unfoldable pub mean_reversion_policy :
      SignalType → MarketStructureState F → OptimizerConfig F → EntryAction
  mean_reversion_policy signal s c =
      if is_buy signal && lt F c.mr_extreme_low s.breakout_pressure
      then defer
      else if is_sell signal && lt F s.breakout_pressure c.mr_extreme_high
      then defer
      else enter

  -- `_breakout_policy`
  unfoldable pub breakout_policy :
      SignalType → MarketStructureState F → OptimizerConfig F → EntryAction
  breakout_policy signal s c =
      if lt F c.breakout_max_compression s.compression_score then defer else enter

  unfoldable pub policy_of :
      Archetype → SignalType → MarketStructureState F → OptimizerConfig F → EntryAction
  unfolding momentum_ignition_policy mean_reversion_policy breakout_policy
  policy_of momentum_ignition signal s c = momentum_ignition_policy signal s c
  policy_of mean_reversion signal s c = mean_reversion_policy signal s c
  policy_of breakout_test signal s c = breakout_policy signal s c
  policy_of vol_expansion signal s c = enter
  policy_of other signal s c = enter

  -- `EntryOptimizer.evaluate`; none of the policies raises
  unfoldable pub evaluate :
      SignalType → String → MarketStructureState F → OptimizerConfig F → EntryAction
  unfolding archetype_of policy_of
  evaluate flat archetype s c = skip
  evaluate buy archetype s c = policy_of (archetype_of archetype) buy s c
  evaluate sell archetype s c = policy_of (archetype_of archetype) sell s c

-- A packet of `ExecutionPolicyLayer`: the put-off entry or the reward geometry goes with it.
pub record PolicyDecision (Plan Geometry : Type 0) : Type 0 where
  pub action : EntryAction
  pub entry_plan : Option Plan
  pub exit_plan : Option Geometry

-- `ExecutionPolicyLayer.handle`: every policy of its map, and its fallback, route alike
unfoldable pub handle :
    {Plan Geometry : Type 0}
    → EntryAction
    → Option Geometry
    → Option Plan
    → PolicyDecision Plan Geometry
handle action tp_geo deferred = record {
  action = action;
  entry_plan = elim action [ defer ↦ deferred | _ ↦ none ];
  exit_plan = elim action [ enter ↦ tp_geo | _ ↦ none ];
}
