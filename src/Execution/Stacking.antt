-- ===== src/Execution/Stacking.antt =====
-- paper_trading/execution/stacking.py: whether an open position may get one more layer, and how
-- large the layer is.
--
-- The opening of the layer is left to the caller: the result is the command for it. What a layer
-- does to the risk of a position is in Risk.
pub mod Risk
use quorrin.Base.{
  ℕ, zero, suc, ◌+◌, Bool, true, false, not, ◌&&◌, Option, none, some, List, [], ◌∷◌, ltb, ◌==◌,
  if◌then◌else◌, Float, lt, le, fmax, fmin, fabs,
}
use quorrin.Position.{
  PositionSide, long, short, PositionIntent, StackLayer, avg_price, effective_sl, total_size,
  notional_risk,
}
use quorrin.Position.Manager.{stack_layer_count, max_layers_reached}
use quorrin.Position.Manager.Records.{PositionManager}
use quorrin.Position.Protection.{unrealized_r}

pub data StackRefusal : Type 0 where
  no_price no_position min_r confidence_gate max_layers_gate duplicate_bar : StackRefusal
  stack_spacing adx_gate stack_size risk_invariant pending_entry stopout_cooldown : StackRefusal

pub record StackCommand (F : Float) : Type 0 where
  pub size : F.Value
  pub expected_layer_idx : ℕ
  pub expected_price : F.Value

-- The section `stacking` of the configuration; the multipliers are a list that is not empty.
pub record StackingConfig (F : Float) : Type 0 where
  pub min_stack_r : F.Value
  pub min_confidence : F.Value
  pub max_layers : ℕ
  pub stack_spacing_r : F.Value
  pub adx_threshold : F.Value
  pub stack_sl_tighten : F.Value
  pub first_multiplier : F.Value
  pub more_multipliers : List F.Value
  pub stack_target_vol : F.Value
  pub least_vol_adj : F.Value
  pub most_vol_adj : F.Value
  pub size_cap : F.Value
  pub min_viable_position_pct : F.Value
  pub min_stack_size_factor : F.Value
  pub stack_micro_threshold : F.Value
  pub dry_run : Bool

-- What the gate reads of the engine and the decision.
pub record StackInputs (F : Float) : Type 0 where
  pub current_price : Option F.Value
  pub close_price : F.Value
  pub confidence : F.Value
  pub adx : Option F.Value
  -- `_bar_counter`, and 0 where the engine has none
  pub bar_counter : ℕ
  pub realized_volatility : F.Value
  pub capital_base : F.Value
  -- the side has a pending entry
  pub is_pending : Bool
  pub last_stop_out_cycle : Option ℕ
  pub cycle_counter : ℕ
  pub stopout_cross_side_cooldown_cycles : ℕ

-- the first reason that applies
unfoldable pub first_refusal : List (Bool × StackRefusal) → Option StackRefusal
first_refusal [] = none
first_refusal ((applies, refusal) ∷ rest) =
    let later = first_refusal rest in if applies then some refusal else later

module _ (F : Float) where
  open F use {Value, lit, add, sub, mul, div}

  -- `layer_mults[idx]`, and the last one beyond the end
  unfoldable pub multiplier_at : Value → List Value → ℕ → Value
  multiplier_at m [] idx = m
  multiplier_at m (n ∷ ns) zero = m
  multiplier_at m (n ∷ ns) (suc idx) = multiplier_at n ns idx

  -- `_compute_stack_size` for an open position
  unfoldable pub compute_stack_size :
      StackingConfig F → StackInputs F → PositionManager F → PositionIntent F → Value
  unfolding multiplier_at
  compute_stack_size c i m p =
      let mult = multiplier_at c.first_multiplier c.more_multipliers (stack_layer_count F m) in
      let raw = div c.stack_target_vol (fmax F i.realized_volatility (lit 1 9)) in
      let vol_adj = fmax F c.least_vol_adj (fmin F raw c.most_vol_adj) in
      let base =
        fmin F (mul (mul p.base_entry_size mult) vol_adj) (mul p.base_entry_size c.size_cap) in
      let min_entry = mul c.min_viable_position_pct i.capital_base in
      let min_stack = fmax F (mul c.min_stack_size_factor min_entry) c.stack_micro_threshold in
      fmax F base min_stack

  -- `_stack_sl_price`
  unfoldable pub stack_sl_price : StackingConfig F → PositionIntent F → Value → Value
  stack_sl_price c p price =
      let base = div (fabs F (sub p.entry_price p.stop_loss)) (fmax F p.entry_price (lit 1 9)) in
      let distance = mul base c.stack_sl_tighten in
      elim p.side [
        | long ↦ mul price (sub (lit 1 0) distance)
        | short ↦ mul price (add (lit 1 0) distance)
      ]

  -- the effective stop with the stop of the new layer
  unfoldable pub new_effective : PositionSide → Value → Value → Value
  new_effective long existing stop = if lt F (lit 0 0) stop then fmax F existing stop else existing
  new_effective short existing stop =
      if lt F (lit 0 0) existing && lt F (lit 0 0) stop
      then fmin F existing stop
      else if lt F (lit 0 0) stop
      then stop
      else existing

  -- `_projected_risk_for_stack` at a positive price
  unfoldable pub projected_risk : StackingConfig F → PositionIntent F → Value → Value → Value
  unfolding stack_sl_price new_effective
  projected_risk c p price size =
      let stop = new_effective p.side (effective_sl F p) (stack_sl_price c p price) in
      let total = add (total_size F p) size in
      elim p.side [
        | long ↦ mul total (fmax F (sub price stop) (lit 0 0))
        | short ↦ mul total (fmax F (sub stop price) (lit 0 0))
      ]

  -- `_last_stack_entry_price`
  unfoldable pub last_entry : List (StackLayer F) → Option Value
  last_entry [] = none
  last_entry (l ∷ []) = some l.entry_price
  last_entry (l ∷ k ∷ ls) = last_entry (k ∷ ls)

  unfoldable pub too_near : StackingConfig F → PositionIntent F → Value → Bool
  unfolding last_entry
  too_near c p price = elim (last_entry p.layers) [
    | none ↦ false
    | some last ↦
        lt F (lit 0 0) p.vol
        && lt F (div (fabs F (sub price last)) (mul (avg_price F p) p.vol)) c.stack_spacing_r
  ]

  -- `_is_trending`; without an ADX it is
  unfoldable pub is_trending : StackingConfig F → StackInputs F → Bool
  is_trending c i = elim i.adx [ none ↦ true | some adx ↦ lt F c.adx_threshold adx ]

  unfoldable pub cooling : StackInputs F → Bool
  cooling i = elim i.last_stop_out_cycle [
    | none ↦ false
    | some last ↦ ltb i.cycle_counter (last + i.stopout_cross_side_cooldown_cycles)
  ]

  -- the gates in their order, for a position and a positive price
  unfoldable pub gates :
      StackingConfig F
      → StackInputs F
      → PositionManager F
      → PositionIntent F
      → Value
      → List (Bool × StackRefusal)
  unfolding compute_stack_size projected_risk too_near is_trending cooling
  gates c i m p price =
      let size = compute_stack_size c i m p in
      (lt F (unrealized_r F p price) c.min_stack_r, min_r)
      ∷ (lt F i.confidence c.min_confidence, confidence_gate)
      ∷ (max_layers_reached F c.max_layers m, max_layers_gate)
      ∷ (ltb 0 p.last_stack_bar_id && p.last_stack_bar_id == i.bar_counter, duplicate_bar)
      ∷ (too_near c p price, stack_spacing)
      ∷ (not (is_trending c i), adx_gate)
      ∷ (lt F (lit 0 0) p.base_entry_size && lt F p.base_entry_size size, stack_size)
      ∷ (lt F (notional_risk F p price) (projected_risk c p price size), risk_invariant)
      ∷ (i.is_pending, pending_entry)
      ∷ (cooling i, stopout_cooldown)
      ∷ []

  -- the gates of a position, if there is one
  unfoldable pub refusal_at :
      StackingConfig F
      → StackInputs F
      → PositionManager F
      → Option (PositionIntent F)
      → Value
      → Option StackRefusal
  refusal_at c i m none price = some no_position
  refusal_at c i m (some p) price = first_refusal (gates c i m p price)

  -- a price that is missing or not positive refuses
  unfoldable pub refusal_for :
      StackingConfig F → StackInputs F → PositionManager F → Option Value → Option StackRefusal
  unfolding refusal_at
  refusal_for c i m none = some no_price
  refusal_for c i m (some price) =
      if le F price (lit 0 0) then some no_price else refusal_at c i m m.position price

  -- `should_stack`: the reason against it, or none
  unfoldable pub should_stack :
      StackingConfig F → StackInputs F → PositionManager F → Option StackRefusal
  unfolding refusal_for
  should_stack c i m = refusal_for c i m i.current_price

  abbrev pub marked : ℕ → Option (PositionIntent F) → Option (PositionIntent F)
  marked bar none = none
  marked bar (some p) = some (record p { last_stack_bar_id = bar })

  -- `execute_stack`: the bar is noted, and outside of a dry run the command goes out
  unfoldable pub execute_stack :
      StackingConfig F
      → StackInputs F
      → PositionManager F
      → PositionIntent F
      → PositionManager F × Option (StackCommand F)
  unfolding compute_stack_size
  execute_stack c i m p =
      let command : StackCommand F = record {
        size = compute_stack_size c i m p;
        expected_layer_idx = stack_layer_count F m;
        expected_price = i.close_price;
      } in
      (
        record m { position = marked i.bar_counter m.position },
        if c.dry_run then none else some command,
      )
