-- ===== src/Execution/Manage/Flips.antt =====
-- What becomes of an open position when the opposite side is signalled.
use quorrin.Base.{◌≡◌, ap, ◌∙◌, true, false, Option, none, some, arith, Float}
use quorrin.Position.{PositionSide, long, short, PositionIntent, inverted}
use quorrin.Position.Manager.{open_position}
use quorrin.Entry.{enter, handle}
use quorrin.Entry.TakeProfit.{TpGeometry}
use quorrin.Execution.Context.{DecisionContext, Inputs, Artifacts}
use quorrin.Execution.Gates.{evaluate_conviction_gate, apply_kelly_sizing}
use quorrin.Execution.Manage.{
  manage_position, build_entry_artifacts, route_execution_policy, settle_side, ask_gate,
  close_for_flip, close_for, protect_position, protected, artifacts_of, action_of, carry_out,
  enter_position,
}

-- The packet of an entry at once.
abbrev pub entering : {F : Float} → Option (TpGeometry F) → Artifacts F
entering g = record { entry_action = enter; tp_geo = g; deferred_entry = none }

module _ (F : Float) {R : Type 0} where
  -- A context in which a position is open and the other side is signalled.
  abbrev pub facing : PositionSide → PositionIntent F → DecisionContext F R → DecisionContext F R
  facing side p ctx = record ctx {
    new_side = some side;
    current_side = some (inverted side);
    asset = record ctx.asset { manager = record ctx.asset.manager { position = some p } };
  }

  -- the stages from the conviction gate to the order
  abbrev pub decide_flip : Inputs F R → DecisionContext F R → DecisionContext F R
  decide_flip i ctx = route_execution_policy F i (
      build_entry_artifacts F i
        (manage_position F i (apply_kelly_sizing F i (evaluate_conviction_gate F i ctx))))

  gate-forbids :
      (i : Inputs F R) (side : PositionSide) (p : PositionIntent F) (ctx : DecisionContext F R)
      → i.evaluate_flip_gate ctx.asset.regime_bar_counter ctx.asset.rest ≡ false
      → i.kelly_enabled ≡ false
      → apply_kelly_sizing F i (evaluate_conviction_gate F i (facing side p ctx))
        ≡ record (facing side p ctx) { flip_allowed = false }
  unfolding evaluate_conviction_gate apply_kelly_sizing inverted
  gate-forbids i long p ctx h k = ground arith
  gate-forbids i short p ctx h k = ground arith

  manage-keeps :
      (i : Inputs F R) (side : PositionSide) (p : PositionIntent F) (ctx : DecisionContext F R)
      → (i.can_enter side ctx.asset.rest).1 ≡ true
      → let c = facing side p ctx in
        manage_position F i (record c { flip_allowed = false }) ≡ record c {
          flip_allowed = false;
          asset = record c.asset {
            manager = protected F i c.asset.manager;
            rest = (i.can_enter side ctx.asset.rest).0;
          };
        }
  unfolding manage_position settle_side ask_gate close_for_flip protect_position inverted close_for
  manage-keeps i long p ctx h = ground arith
  manage-keeps i short p ctx h = ground arith

  builds :
      (i : Inputs F R) (side : PositionSide) (g : Option (TpGeometry F)) (ctx : DecisionContext F R)
      → artifacts_of F i (action_of F i) ≡ some (entering g)
      → build_entry_artifacts F i (record ctx { new_side = some side })
        ≡ record ctx { new_side = some side; artifacts = some (entering g) }
  unfolding build_entry_artifacts
  builds i side g ctx h = ground (arith, h)

  routes :
      (i : Inputs F R) (side : PositionSide) (g : Option (TpGeometry F)) (q : PositionIntent F)
      (ctx : DecisionContext F R)
      → (i.intent_of side g ctx.asset.rest).1 ≡ some q
      → (route_execution_policy F i
          (record ctx { new_side = some side; artifacts = some (entering g) })).asset.manager
        ≡ open_position F q ctx.asset.manager
  unfolding route_execution_policy handle carry_out enter_position
  routes i side g q ctx h = ground (arith, h)

  -- A position is open, the other side is signalled, and the conviction gate forbids the flip.
  -- Where the entry gate agrees, Kelly is off, and the entry policy and the order go through, the
  -- new position is opened all the same: it replaces the old one in the manager, which is never
  -- closed. No trade is logged and the value of the account does not move.
  pub decide_flip-overwrites :
      (i : Inputs F R) (side : PositionSide) (p q : PositionIntent F) (g : Option (TpGeometry F))
      (ctx : DecisionContext F R)
      → i.evaluate_flip_gate ctx.asset.regime_bar_counter ctx.asset.rest ≡ false
      → i.kelly_enabled ≡ false
      → (i.can_enter side ctx.asset.rest).1 ≡ true
      → artifacts_of F i (action_of F i) ≡ some (entering g)
      → (i.intent_of side g (i.can_enter side ctx.asset.rest).0).1 ≡ some q
      → let c = facing side p ctx in
        let m = (decide_flip i c).asset.manager in
        (m ≡ open_position F q (protected F i c.asset.manager))
        × (m.trade_log ≡ ctx.asset.manager.trade_log)
        × (m.current_value ≡ ctx.asset.manager.current_value)
  unfolding open_position protected
  decide_flip-overwrites i side p q g ctx held off ok parts intent =
      let c = facing side p ctx in
      let managed =
        ap (manage_position F i) (gate-forbids i side p ctx held off)
        ∙ manage-keeps i side p ctx ok in
      let c' : DecisionContext F R = record c {
        flip_allowed = false;
        asset = record c.asset {
          manager = protected F i c.asset.manager;
          rest = (i.can_enter side ctx.asset.rest).0;
        };
      } in
      let whole =
        ap (λ x. (route_execution_policy F i (build_entry_artifacts F i x)).asset.manager) managed
        ∙ ap (λ x. (route_execution_policy F i x).asset.manager) (builds i side g c' parts)
        ∙ routes i side g q c' intent in
      (whole, ap (λ m. m.trade_log) whole, ap (λ m. m.current_value) whole)
