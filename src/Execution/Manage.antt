-- ===== src/Execution/Manage.antt =====
-- paper_trading/execution/decision_pipeline.py: the stages that close, stack, put off and open
-- positions.
--
-- The digest of the policy packet and the notes in the position's dictionary are left out.
pub mod Flips
use quorrin.Base.{
  ◌+◌, String, Bool, true, false, not, ◌&&◌, ◌||◌, Option, none, some, if◌then◌else◌, Float, lt, le,
  eq,
}
use quorrin.Position.{PositionSide, long, short, PositionIntent, is_long}
use quorrin.Position.Manager.{open_position, position_pnl}
use quorrin.Position.Manager.Records.{PositionManager}
use quorrin.Position.Protection.{protect}
use quorrin.Entry.{EntryAction, enter, defer, skip, exit, evaluate, handle, PolicyDecision}
use quorrin.Entry.Deferred.{DeferredEntry, from_decision}
use quorrin.Entry.TakeProfit.{TpGeometry}
use quorrin.Entry.Polling.{put_entry}
use quorrin.Entry.Gate.{same_side, is_side}
use quorrin.Execution.Context.{DecisionContext, Asset, Inputs, Artifacts}
use quorrin.Execution.Gates.{has_position, same_option, hold}

abbrev pub holds_long : {F : Float} → Option (PositionIntent F) → Bool
holds_long none = false
holds_long (some p) = is_long p.side

module _ (F : Float) {R : Type 0} where
  open F use {Value, lit}

  abbrev pub with_new_side : Option PositionSide → DecisionContext F R → DecisionContext F R
  with_new_side side ctx = record ctx { new_side = side }

  -- `_close_position`, and whether it closed
  unfoldable pub close_for :
      Inputs F R → Value → String → DecisionContext F R → DecisionContext F R × Bool
  close_for i price reason ctx =
      let ((m, r), ok) = i.close_position price reason (ctx.asset.manager, ctx.asset.rest) in
      (record ctx { asset = record ctx.asset { manager = m; rest = r } }, ok)

  -- `ctx.decision.close_price or engine.current_price`, where it is a positive price
  unfoldable pub flatten_price : Inputs F R → Option Value
  flatten_price i =
      let price =
        if eq F i.decision.close_price (lit 0 0)
        then i.current_price
        else some i.decision.close_price in
      elim price [ none ↦ none | some x ↦ if lt F (lit 0 0) x then some x else none ]

  -- no long position of a sell-only asset stays open, and none is begun
  unfoldable pub apply_sell_only_filter : Inputs F R → DecisionContext F R → DecisionContext F R
  unfolding flatten_price close_for
  apply_sell_only_filter i ctx =
      let hold_long : DecisionContext F R =
        if is_side long ctx.new_side then with_new_side none ctx else ctx in
      if not i.is_sell_only
      then ctx
      else if not (holds_long ctx.asset.manager.position)
      then hold_long
      else elim (flatten_price i) [
        | none ↦ hold_long
        | some price ↦ with_new_side none (close_for i price "SELL_ONLY_FLATTEN" ctx).0
      ]

  -- the protection of an open position at a positive price
  unfoldable pub protected : Inputs F R → PositionManager F → PositionManager F
  protected i m = record m { position = (protect F i.protection m.position i.current_price).0 }

  unfoldable pub protect_position : Inputs F R → DecisionContext F R → DecisionContext F R
  unfolding protected
  protect_position i ctx = record ctx {
    asset = record ctx.asset { manager = protected i ctx.asset.manager };
  }

  -- the same side again: one more layer, or nothing
  unfoldable pub stack_or_hold : Inputs F R → DecisionContext F R → DecisionContext F R
  stack_or_hold i ctx =
      let a = ctx.asset in
      let (m, r) = i.execute_stack (a.manager, a.rest) in
      if i.stacking_enabled && i.should_stack a.manager a.rest
      then record ctx { asset = record a { manager = m; rest = r }; new_side = none }
      else record ctx { new_side = none }

  -- the entry gate
  unfoldable pub ask_gate : Inputs F R → DecisionContext F R → DecisionContext F R
  ask_gate i ctx = elim ctx.new_side [
    | none ↦ ctx
    | some side ↦
        let (r, ok) = i.can_enter side ctx.asset.rest in
        hold F (not ok) (record ctx { asset = record ctx.asset { rest = r } })
  ]

  -- the open position has gained more than the profit lock allows to give up
  unfoldable pub locks_profit : Inputs F R → PositionManager F → Bool
  locks_profit i m = elim i.current_price [
    | none ↦ false
    | some price ↦ lt F (lit 0 0) price && lt F i.profit_lock_threshold_pct (position_pnl F price m)
  ]

  -- the flip of an open position, where it is allowed and a side is left
  unfoldable pub close_for_flip : Inputs F R → Bool → DecisionContext F R → DecisionContext F R
  unfolding locks_profit close_for
  close_for_flip i has_pos ctx =
      let (closed, ok) = close_for i i.decision.close_price "FLIP" ctx in
      elim ctx.new_side [
        | none ↦ ctx
        | some side ↦
            if not (has_pos && ctx.flip_allowed)
            then ctx
            else if locks_profit i ctx.asset.manager
            then with_new_side none ctx
            else hold F (not ok) closed
      ]

  -- behind the protection: the same side again, or the gate and the flip
  unfoldable pub settle_side : Inputs F R → Bool → DecisionContext F R → DecisionContext F R
  unfolding stack_or_hold ask_gate close_for_flip
  settle_side i has_pos ctx =
      if has_pos && same_option ctx.new_side ctx.current_side
      then stack_or_hold i ctx
      else close_for_flip i has_pos (ask_gate i ctx)

  -- the last test of the stage returns where the stage ends anyway
  unfoldable pub manage_position : Inputs F R → DecisionContext F R → DecisionContext F R
  unfolding protect_position settle_side
  manage_position i ctx = settle_side i (has_position ctx.asset.manager) (protect_position i ctx)

  -- what an action needs: the geometry, or the deferred entry; `none` where a module is missing
  unfoldable pub artifacts_of : Inputs F R → EntryAction → Option (Artifacts F)
  artifacts_of i enter =
      if i.dynamic_sltp_enabled
      then some (record { entry_action = enter; tp_geo = none; deferred_entry = none })
      else if i.multipliers_imported
      then some
          (record { entry_action = enter; tp_geo = some i.tp_geometry; deferred_entry = none })
      else none
  artifacts_of i defer =
      let entry = from_decision F i.entry_id_of i.now i.decision i.entry_defer_max_bars in
      if i.deferred_imported
      then some (record { entry_action = defer; tp_geo = none; deferred_entry = some entry })
      else none
  artifacts_of i action =
      some (record { entry_action = action; tp_geo = none; deferred_entry = none })

  unfoldable pub action_of : Inputs F R → EntryAction
  action_of i = evaluate F i.decision.signal i.decision.archetype i.structure i.optimizer

  unfoldable pub build_entry_artifacts : Inputs F R → DecisionContext F R → DecisionContext F R
  unfolding artifacts_of action_of
  build_entry_artifacts i ctx = elim ctx.new_side [
    | none ↦ ctx
    | some side ↦ elim (artifacts_of i (action_of i)) [
      | none ↦ with_new_side none ctx
      | some parts ↦ record ctx { artifacts = some parts }
    ]
  ]

  -- `_open_position`: the manager takes the position over whatever it has
  unfoldable pub enter_position :
      Inputs F R → PositionSide → Option (TpGeometry F) → Asset F R → Asset F R
  enter_position i side geometry a =
      let (r, intent) = i.intent_of side geometry a.rest in
      elim intent [
        | none ↦ record a { rest = r }
        | some p ↦ record a { rest = r; manager = open_position F p a.manager }
      ]

  -- the packet of the policy layer, carried out
  unfoldable pub carry_out :
      Inputs F R
      → PositionSide
      → EntryAction
      → PolicyDecision (DeferredEntry F) (TpGeometry F)
      → Asset F R
      → Asset F R
  unfolding enter_position
  carry_out i side enter packet a = enter_position i side packet.exit_plan a
  carry_out i side defer packet a = elim packet.entry_plan [
    | none ↦ a
    | some plan ↦ record a { pending_entries = put_entry F side plan a.pending_entries }
  ]
  carry_out i side action packet a = a

  -- it is reached with the artifacts that the stage before built, and forgets them
  unfoldable pub route_execution_policy : Inputs F R → DecisionContext F R → DecisionContext F R
  unfolding carry_out handle
  route_execution_policy i ctx = elim ctx.new_side [
    | none ↦ ctx
    | some side ↦ elim ctx.artifacts [
      | none ↦ ctx
      | some parts ↦
          let packet : PolicyDecision (DeferredEntry F) (TpGeometry F) =
            handle parts.entry_action parts.tp_geo parts.deferred_entry in
          record ctx { asset = carry_out i side packet.action packet ctx.asset; artifacts = none }
    ]
  ]
