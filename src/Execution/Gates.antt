-- ===== src/Execution/Gates.antt =====
-- paper_trading/execution/decision_pipeline.py: the stages that only hold a decision back, and
-- those that keep books on it.
pub mod Windows
use quorrin.Base.{
  ℕ, ◌+◌, ◌^◌, String, Bool, true, false, not, ◌&&◌, ◌||◌, Option, none, some, List, [], ◌∷◌, ◌++◌,
  length, drop, last_n, ltb, leb, if◌then◌else◌, Float, lt, le,
}
use text.Mathlib.Text.{◌==◌ as str_eq}
use quorrin.Base.Dict.{Dict, get, get_default}
use quorrin.Position.{PositionSide, long, short}
use quorrin.Position.Manager.Records.{PositionManager}
use quorrin.Entry.{SignalType, buy, sell, flat}
use quorrin.Entry.Gate.{same_side, is_side}
use quorrin.Execution.Context.{DecisionContext, Inputs, ProbPoint}

-- `has_position`
abbrev pub has_position : {F : Float} → PositionManager F → Bool
has_position m = elim m.position [ none ↦ false | some p ↦ true ]

-- `==` on sides that may be missing
abbrev pub same_option : Option PositionSide → Option PositionSide → Bool
same_option none none = true
same_option none (some b) = false
same_option (some a) b = is_side a b

-- `HYSTERESIS_WINDOW` and `HYSTERESIS_MIN_AGREE`
abbrev pub hysteresis_window : ℕ
hysteresis_window = 3

abbrev pub hysteresis_min_agree : ℕ
hysteresis_min_agree = 2

-- `MAX_PROB_HISTORY`
abbrev pub max_prob_history : ℕ
max_prob_history = 10 ^ 3

-- the cycles for which the spread and the session gate only observe
abbrev pub min_observe_cycles : ℕ
min_observe_cycles = 720

-- the side that a decision asks for
abbrev pub side_of : SignalType → Option PositionSide
side_of buy = some long
side_of sell = some short
side_of flat = none

-- `SESSION_TIER_WINDOWS`
unfoldable pub session_windows : Dict (ℕ × ℕ)
session_windows =
    ("fx_major", (7, 17)) ∷ ("fx_cross", (7, 17)) ∷ ("indices", (13, 20)) ∷ ("metals", (8, 18)) ∷ []

-- the chain with one more side, at most as long as the window
unfoldable pub chain_after : PositionSide → List PositionSide → List PositionSide
chain_after side chain =
    let longer = chain ++ side ∷ [] in
    if ltb hysteresis_window (length longer) then drop 1 longer else longer

unfoldable pub count_agreeing : PositionSide → List PositionSide → ℕ
count_agreeing side [] = 0
count_agreeing side (s ∷ ss) = (if same_side s side then 1 else 0) + count_agreeing side ss

-- a flip needs two agreeing signals of the last three
unfoldable pub hysteresis_blocks :
    Bool → Option PositionSide → PositionSide → List PositionSide → Bool
unfolding count_agreeing
hysteresis_blocks has current side chain =
    has
    && not (same_option (some side) current)
    && leb hysteresis_window (length chain)
    && ltb (count_agreeing side chain) hysteresis_min_agree

module _ (F : Float) where
  open F use {Value, lit}

  -- `SPREAD_TIER_BPS`, with its default
  unfoldable pub spread_threshold : String → Value
  spread_threshold tier = get_default tier (lit 20 0) (
      ("fx_major", lit 10 0)
      ∷ ("fx_cross", lit 20 0)
      ∷ ("indices", lit 15 0)
      ∷ ("metals", lit 20 0)
      ∷ [])

  unfoldable pub remember : ProbPoint F → List (ProbPoint F) → List (ProbPoint F)
  remember point history =
      let longer = history ++ point ∷ [] in
      if ltb max_prob_history (length longer) then last_n max_prob_history longer else longer

module _ (F : Float) {R : Type 0} where
  open F use {Value, lit, sub, mul, round}

  -- a stage that holds the decision back if it finds a reason
  abbrev pub hold : Bool → DecisionContext F R → DecisionContext F R
  hold reason ctx = if reason then record ctx { new_side = none } else ctx

  -- one that looks only where a side is left
  abbrev pub hold_side : (PositionSide → Bool) → DecisionContext F R → DecisionContext F R
  hold_side reason ctx = elim ctx.new_side [ none ↦ ctx | some side ↦ hold (reason side) ctx ]

  unfoldable pub apply_first_cycle_suppression :
      Inputs F R → DecisionContext F R → DecisionContext F R
  apply_first_cycle_suppression i ctx =
      if leb i.cycle_counter 1 then record ctx { abort = true } else ctx

  unfoldable pub apply_bar_jump_suppression : Inputs F R → DecisionContext F R → DecisionContext F R
  apply_bar_jump_suppression i ctx = hold (lt F i.now i.suppress_until) ctx

  unfoldable pub store_prediction_metadata : Inputs F R → DecisionContext F R → DecisionContext F R
  store_prediction_metadata i ctx = record ctx {
    asset = record ctx.asset { last_prediction = some i.decision };
  }

  -- the extremes of the open trade; errors are swallowed
  unfoldable pub update_mae_mfe : Inputs F R → DecisionContext F R → DecisionContext F R
  update_mae_mfe i ctx =
      if has_position ctx.asset.manager
      then record ctx { asset = record ctx.asset { rest = i.update_trade_extremes ctx.asset.rest } }
      else ctx

  unfoldable pub resolve_signal : Inputs F R → DecisionContext F R → DecisionContext F R
  resolve_signal i ctx = record ctx { new_side = side_of i.decision.signal }

  unfoldable pub apply_risk_off_suppression : Inputs F R → DecisionContext F R → DecisionContext F R
  apply_risk_off_suppression i ctx = hold (i.is_risk_off_asset && i.risk_off) ctx

  -- no value, or one that is more than five days old, lets the decision pass
  unfoldable pub vix_blocks : Inputs F R → Bool
  vix_blocks i = elim i.vix [
    | none ↦ false
    | some (level, days_ago) ↦ i.is_vix_asset && leb days_ago 5 && lt F (lit 30 0) level
  ]

  unfoldable pub apply_vix_gate : Inputs F R → DecisionContext F R → DecisionContext F R
  unfolding vix_blocks
  apply_vix_gate i ctx = hold (vix_blocks i) ctx

  -- behind the cycles of observation no spread, a stale one and a wide one block
  unfoldable pub spread_blocks : Inputs F R → Bool
  unfolding spread_threshold
  spread_blocks i = elim i.last_spread_bps [
    | none ↦ true
    | some spread ↦
        lt F (lit 300 0) (sub i.now i.last_spread_time)
        || lt F (spread_threshold F i.spread_tier) spread
  ]

  unfoldable pub apply_spread_gate : Inputs F R → DecisionContext F R → DecisionContext F R
  unfolding spread_blocks
  apply_spread_gate i ctx =
      hold (i.spread_gate_enabled && leb min_observe_cycles i.cycle_counter && spread_blocks i) ctx

  -- an unknown tier has no window
  unfoldable pub out_of_session : Inputs F R → Bool
  unfolding session_windows
  out_of_session i = elim (get i.spread_tier session_windows) [
    | none ↦ false
    | some (start, end) ↦ not (leb start i.hour && ltb i.hour end)
  ]

  unfoldable pub apply_session_gate : Inputs F R → DecisionContext F R → DecisionContext F R
  unfolding out_of_session
  apply_session_gate i ctx =
      hold_side (λ side. out_of_session i && leb min_observe_cycles i.cycle_counter) ctx

  unfoldable pub adx_blocks : Inputs F R → Bool
  adx_blocks i = elim i.adx [
    | none ↦ false
    | some adx ↦ i.adx_gate_enabled && not (le F i.adx_threshold adx) && not i.adx_observe_only
  ]

  unfoldable pub apply_adx_entry_gate : Inputs F R → DecisionContext F R → DecisionContext F R
  unfolding adx_blocks
  apply_adx_entry_gate i ctx = hold_side (λ side. adx_blocks i) ctx

  unfoldable pub apply_confidence_gate : Inputs F R → DecisionContext F R → DecisionContext F R
  apply_confidence_gate i ctx = hold_side (λ side. lt F i.decision.confidence i.min_confidence) ctx

  unfoldable pub apply_signal_hysteresis : Inputs F R → DecisionContext F R → DecisionContext F R
  unfolding chain_after hysteresis_blocks
  apply_signal_hysteresis i ctx = elim ctx.new_side [
    | none ↦ ctx
    | some side ↦
        let chain = chain_after side ctx.asset.signal_chain in
        hold (hysteresis_blocks (has_position ctx.asset.manager) ctx.current_side side chain)
          (record ctx { asset = record ctx.asset { signal_chain = chain } })
  ]

  -- it only logs
  unfoldable pub apply_meta_label_advisory : Inputs F R → DecisionContext F R → DecisionContext F R
  apply_meta_label_advisory i ctx = ctx

  unfoldable pub update_regime_bar_counter : Inputs F R → DecisionContext F R → DecisionContext F R
  update_regime_bar_counter i ctx =
      let a = ctx.asset in
      let same = str_eq i.current_regime a.last_regime_label in
      record ctx {
        asset = record a {
          last_regime_label = i.current_regime;
          regime_bar_counter = if same then a.regime_bar_counter + 1 else 1;
        };
      }

  unfoldable pub evaluate_conviction_gate : Inputs F R → DecisionContext F R → DecisionContext F R
  evaluate_conviction_gate i ctx = elim ctx.new_side [
    | none ↦ ctx
    | some side ↦
        if same_option (some side) ctx.current_side || not (has_position ctx.asset.manager)
        then ctx
        else record ctx {
          flip_allowed = i.evaluate_flip_gate ctx.asset.regime_bar_counter ctx.asset.rest;
        }
  ]

  unfoldable pub apply_kelly_sizing : Inputs F R → DecisionContext F R → DecisionContext F R
  apply_kelly_sizing i ctx = elim ctx.new_side [
    | none ↦ ctx
    | some side ↦
        let multiplier = i.kelly_multiplier_of i.decision in
        if not i.kelly_enabled || not i.calibration_applied
        then ctx
        else hold (le F multiplier (lit 0 0))
            (record ctx { asset = record ctx.asset { kelly_multiplier = multiplier } })
  ]

  unfoldable pub poll_deferred_entries : Inputs F R → DecisionContext F R → DecisionContext F R
  poll_deferred_entries i ctx =
      let (m, entries, r) =
        i.poll_pending_entries (ctx.asset.manager, ctx.asset.pending_entries, ctx.asset.rest) in
      record ctx { asset = record ctx.asset { manager = m; pending_entries = entries; rest = r } }

  unfoldable pub update_prob_history : Inputs F R → DecisionContext F R → DecisionContext F R
  unfolding remember
  update_prob_history i ctx =
      let d = i.decision in
      let point : ProbPoint F = record {
        date = d.timestamp;
        prob_long = round (mul d.prob_long (lit 100 0)) 2;
        prob_short = round (mul d.prob_short (lit 100 0)) 2;
        signal = d.signal;
        confidence = d.confidence;
        close_price = d.close_price;
      } in
      record ctx {
        asset = record ctx.asset {
          prob_history = remember F point ctx.asset.prob_history;
          rest = i.log_confidence_buckets ctx.asset.rest;
        };
      }
