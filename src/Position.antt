-- ===== src/Position.antt =====
-- eigencapital/domain/entities/position.py: a position, its layers, and its stop level.
pub mod Envelope
pub mod Manager
pub mod AdaptiveExit
pub mod ScaleOut
pub mod Protection
use quorrin.Base.{
  ℕ, String, Bool, true, false, List, [], ◌∷◌, if◌then◌else◌, Float, lt, le, eq, fmax, fmin, fabs,
}

pub data PositionSide : Type 0 where
  long short : PositionSide

abbrev pub is_long : PositionSide → Bool
is_long long = true
is_long short = false

-- `inverted`
unfoldable pub inverted : PositionSide → PositionSide
inverted long = short
inverted short = long

pub record StackLayer (F : Float) : Type 0 where
  pub entry_price : F.Value
  pub size : F.Value
  pub timestamp : String
  pub signal_id : String
  pub pnl_at_time : F.Value
  pub stop_loss : F.Value

pub record PositionIntent (F : Float) : Type 0 where
  pub side : PositionSide
  pub entry_price : F.Value
  pub entry_date : String
  pub stop_loss : F.Value
  pub take_profit : F.Value
  pub vol : F.Value
  pub confidence : F.Value
  pub layers : List (StackLayer F)
  pub base_entry_size : F.Value
  pub breakeven_set : Bool
  pub risk_floor : F.Value
  pub peak_price : F.Value
  pub last_stack_bar_id : ℕ

module _ (F : Float) where
  open F use {Value, lit, add, sub, mul, div}

  -- `from_price_and_vol`
  unfoldable pub from_price_and_vol :
      PositionSide → Value → String → Value → Value → Value → PositionIntent F
  from_price_and_vol side entry date vol sl_mult tp_mult =
      let below : Value → Value = λ m. mul entry (sub (lit 1 0) (mul vol m)) in
      let above : Value → Value = λ m. mul entry (add (lit 1 0) (mul vol m)) in
      record {
        side = side;
        entry_price = entry;
        entry_date = date;
        stop_loss = elim side [ long ↦ below sl_mult | short ↦ above sl_mult ];
        take_profit = elim side [ long ↦ above tp_mult | short ↦ below tp_mult ];
        vol = vol;
        confidence = lit 0 0;
        layers = [];
        base_entry_size = lit 0 0;
        breakeven_set = false;
        risk_floor = lit 0 0;
        peak_price = lit 0 0;
        last_stack_bar_id = 0;
      }

  -- `max` for a long position and `min` for a short one
  abbrev pub tighter : PositionSide → Value → Value → Value
  tighter long best x = fmax F best x
  tighter short best x = fmin F best x

  -- a level of zero or below is no level
  abbrev pub tighten : PositionSide → Value → Value → Value
  tighten side best x = if lt F (lit 0 0) x then tighter side best x else best

  unfoldable pub tighten_layers : PositionSide → List (StackLayer F) → Value → Value
  tighten_layers side [] best = best
  tighten_layers side (l ∷ ls) best = tighten_layers side ls (tighten side best l.stop_loss)

  -- the property `effective_sl`
  unfoldable pub effective_sl : PositionIntent F → Value
  unfolding tighten_layers
  effective_sl p = tighten_layers p.side p.layers (tighten p.side p.stop_loss p.risk_floor)

  -- `sum(lay.size for lay in layers)`, added up from `total`
  unfoldable pub sum_sizes : List (StackLayer F) → Value → Value
  sum_sizes [] total = total
  sum_sizes (l ∷ ls) total = sum_sizes ls (add total l.size)

  unfoldable pub sum_costs : List (StackLayer F) → Value → Value
  sum_costs [] total = total
  sum_costs (l ∷ ls) total = sum_costs ls (add total (mul l.entry_price l.size))

  abbrev no_layers : List (StackLayer F) → Bool
  no_layers [] = true
  no_layers (_ ∷ _) = false

  -- the property `total_size`; a volatility of zero is false
  unfoldable pub total_size : PositionIntent F → Value
  unfolding sum_sizes
  total_size p =
      if no_layers p.layers
      then (if eq F p.vol (lit 0 0) then lit 0 0 else p.vol)
      else sum_sizes p.layers (lit 0 0)

  -- the property `avg_price`
  unfoldable pub avg_price : PositionIntent F → Value
  unfolding sum_sizes sum_costs
  avg_price p =
      let total = sum_sizes p.layers (lit 0 0) in
      if no_layers p.layers
      then p.entry_price
      else if le F total (lit 0 0)
      then p.entry_price
      else div (sum_costs p.layers (lit 0 0)) total

  unfoldable pub notional_risk : PositionIntent F → Value → Value
  unfolding total_size effective_sl
  notional_risk p current = elim p.side [
    | long ↦ mul (total_size p) (fmax F (sub current (effective_sl p)) (lit 0 0))
    | short ↦ mul (total_size p) (fmax F (sub (effective_sl p) current) (lit 0 0))
  ]

  -- `enforce_invariant`: whether the average of the layers is the price that is reported
  unfoldable pub enforce_invariant : PositionIntent F → Bool
  unfolding avg_price
  enforce_invariant p =
      let total = sum_sizes p.layers (lit 0 0) in
      let computed = div (sum_costs p.layers (lit 0 0)) total in
      let off = div (fabs F (sub computed (avg_price p))) (fmax F computed (lit 1 9)) in
      if no_layers p.layers
      then true
      else if le F total (lit 0 0)
      then true
      else if lt F (lit 1 4) off
      then false
      else true
