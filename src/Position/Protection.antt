-- ===== src/Position/Protection.antt =====
-- paper_trading/position/protection.py: the risk floor of a position, moved to its average
-- price and then behind the market.
--
-- `update` is modelled for a position and a price that are there; without one of them, or for a
-- price that is not positive, nothing happens (`protect`).
pub mod Floors
use quorrin.Base.{
  Bool, true, false, not, ◌&&◌, ◌||◌, Option, none, some, List, [], ◌∷◌, if◌then◌else◌, Float, lt,
  le, eq, fmax, fmin,
}
use quorrin.Position.{PositionSide, long, short, PositionIntent, avg_price, tighter}

pub data ProtectionKind : Type 0 where
  nothing breakeven trail : ProtectionKind

pub record ProtectionAction (F : Float) : Type 0 where
  pub action : ProtectionKind
  pub new_sl : Option F.Value

pub record ProtectionConfig (F : Float) : Type 0 where
  pub breakeven_threshold_r : F.Value
  pub trail_activate_r : F.Value
  pub trail_distance_r : F.Value

module _ (F : Float) where
  open F use {Value, lit, add, sub, mul, div}

  abbrev pub no_action : ProtectionAction F
  no_action = record { action = nothing; new_sl = none }

  -- the peak of the prices seen; a short position starts with none
  unfoldable pub peak_after : PositionSide → Value → Value → Value
  peak_after long peak price = fmax F peak price
  peak_after short peak price = if lt F (lit 0 0) peak then fmin F peak price else price

  -- `_unrealized_r`
  unfoldable pub unrealized_r : PositionIntent F → Value → Value
  unrealized_r p price =
      let avg = avg_price F p in
      if le F avg (lit 0 0) || le F p.vol (lit 0 0) then lit 0 0 else elim p.side [
        | long ↦ div (sub price avg) (mul avg p.vol)
        | short ↦ div (sub avg price) (mul avg p.vol)
      ]

  -- The floor of a position, whether its breakeven is set, and the action of an update.
  pub record Guard : Type 0 where
    pub floor : Value
    pub is_set : Bool
    pub taken : ProtectionAction F

  -- breakeven: the floor and the average price, the larger for a long position
  unfoldable pub set_breakeven :
      ProtectionConfig F → PositionSide → Value → Value → Bool → Value → Guard
  set_breakeven c side avg r is_set floor =
      let moved = tighter F side floor avg in
      if not is_set && le F c.breakeven_threshold_r r
      then record {
        floor = moved;
        is_set = true;
        taken = record { action = breakeven; new_sl = some moved };
      }
      else record { floor = floor; is_set = is_set; taken = no_action }

  -- the level behind the price
  unfoldable pub trail_level : ProtectionConfig F → PositionSide → Value → Value → Value
  trail_level c long price vol = mul price (sub (lit 1 0) (mul c.trail_distance_r vol))
  trail_level c short price vol = mul price (add (lit 1 0) (mul c.trail_distance_r vol))

  -- whether a level replaces a floor
  unfoldable pub replaces : PositionSide → Value → Value → Bool
  replaces long level floor = lt F floor level
  replaces short level floor = eq F floor (lit 0 0) || lt F level floor

  -- the distance from the peak, in units of risk
  unfoldable pub peak_to_current_r : PositionSide → Value → Value → Value → Value → Value
  peak_to_current_r long peak price avg vol = div (sub peak price) (fmax F (mul avg vol) (lit 1 9))
  peak_to_current_r short peak price avg vol = div (sub price peak) (fmax F (mul avg vol) (lit 1 9))

  -- the trailing stop at a new peak
  unfoldable pub trail_guard :
      ProtectionConfig F → PositionSide → Value → Value → Value → Value → Value → Guard → Guard
  unfolding trail_level replaces peak_to_current_r
  trail_guard c side avg vol r peak price g =
      let level = trail_level c side price vol in
      if le F c.trail_activate_r r
        && lt F (lit 0 0) vol
        && le F (peak_to_current_r side peak price avg vol) (lit 0 0)
        && replaces side level g.floor
      then record g { floor = level; taken = record { action = trail; new_sl = some level } }
      else g

  -- both steps, on what the position has and the price
  unfoldable pub guard_after : ProtectionConfig F → PositionIntent F → Value → Guard
  unfolding set_breakeven trail_guard unrealized_r peak_after
  guard_after c p price =
      let r = unrealized_r p price in
      trail_guard c p.side (avg_price F p) p.vol r (peak_after p.side p.peak_price price) price
        (set_breakeven c p.side (avg_price F p) r p.breakeven_set p.risk_floor)

  unfoldable pub update : ProtectionConfig F → PositionIntent F → Value → PositionIntent F
  unfolding guard_after peak_after
  update c p price =
      let g = guard_after c p price in
      record p {
        peak_price = peak_after p.side p.peak_price price;
        risk_floor = g.floor;
        breakeven_set = g.is_set;
      }

  -- `PositionProtection.update`, with the early return
  unfoldable pub protect :
      ProtectionConfig F
      → Option (PositionIntent F)
      → Option Value
      → Option (PositionIntent F) × ProtectionAction F
  unfolding update guard_after
  protect c none price = (none, no_action)
  protect c (some p) none = (some p, no_action)
  protect c (some p) (some price) =
      if le F price (lit 0 0)
      then (some p, no_action)
      else (some (update c p price), (guard_after c p price).taken)
