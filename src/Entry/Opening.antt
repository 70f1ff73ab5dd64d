-- ===== src/Entry/Opening.antt =====
-- paper_trading/services/entry_service.py (open_position without stacking, and its helpers):
-- from a signal price to a position that is filled.
--
-- The volatility of the closes, the barrier of the dynamic stops, the compiled distance of the
-- profit, and the broker with its sizing are arguments.
pub mod Checks
use quorrin.Base.{
  String, Bool, true, false, not, ◌&&◌, ◌||◌, Option, none, some, [], if◌then◌else◌, Float, lt, le,
  eq, fmax, fabs,
}
use quorrin.Position.{PositionSide, long, short, PositionIntent}

pub record OpenInputs (F : Float) : Type 0 where
  -- the volatility and the price of the signal; `none` is NaN
  pub vol : Option F.Value
  pub signal_price : Option F.Value
  pub current_price : Option F.Value
  pub entry_date : String
  pub max_entry_slippage_pct : F.Value
  pub sl_mult : F.Value
  pub tp_mult : F.Value
  pub min_rr_ratio : F.Value
  -- the stop of the dynamic barriers, where they are enabled
  pub dynamic_stop : Option (F.Value → F.Value)
  -- the distance of the geometry that came with the decision
  pub tp_distance : Option F.Value
  -- the compiled distance, of the entry price and the distance of the stop
  pub compile_distance : F.Value → F.Value → F.Value
  -- `_submit_to_broker`: the price of the fill for an entry price, a stop and a target
  pub submit : PositionSide → F.Value → F.Value → F.Value → Option F.Value

module _ (F : Float) where
  open F use {Value, lit, neg, add, sub, mul, div}

  -- a price that is there and positive
  abbrev pub positive : Option Value → Option Value
  positive none = none
  positive (some x) = if lt F (lit 0 0) x then some x else none

  -- how far the market has gone from the signal
  unfoldable pub deviates : OpenInputs F → Value → Bool
  deviates i price = elim (positive i.current_price) [
    | none ↦ false
    | some current ↦
        lt F (div i.max_entry_slippage_pct (lit 100 0)) (fabs F (sub (div current price) (lit 1 0)))
  ]

  -- `_validate_price_vol`: the volatility and the signal price
  unfoldable pub validate_price_vol : OpenInputs F → Option (Value × Value)
  unfolding deviates
  validate_price_vol i = elim i.vol [
    | none ↦ none
    | some vol ↦ elim i.signal_price [
      | none ↦ none
      | some price ↦
          if eq F price (lit 0 0)
          then none
          else if deviates i price
          then none
          else some (vol, price)
    ]
  ]

  -- the market decides the price, the signal only the side
  unfoldable pub live_price : OpenInputs F → Value → Value
  live_price i price = elim (positive i.current_price) [ none ↦ price | some live ↦ live ]

  unfoldable pub compute_stop_loss : OpenInputs F → PositionSide → Value → Value → Value
  compute_stop_loss i side price vol = elim i.dynamic_stop [
    | some barrier ↦ barrier price
    | none ↦ elim side [
      | long ↦ mul price (sub (lit 1 0) (mul vol i.sl_mult))
      | short ↦ mul price (add (lit 1 0) (mul vol i.sl_mult))
    ]
  ]

  abbrev pub stop_distance : Value → Value → Value
  stop_distance price stop = fabs F (sub stop price)

  unfoldable pub distance_of : OpenInputs F → Value → Value → Value
  distance_of i price stop = elim i.tp_distance [
    | some distance ↦ distance
    | none ↦ i.compile_distance price (stop_distance price stop)
  ]

  -- `_compute_take_profit`: a target is at least a thousandth of the price
  unfoldable pub target_of : PositionSide → Value → Value → Value
  target_of side price distance =
      let raw : Value = elim side [
        | long ↦ add price distance
        | short ↦ add price (neg distance)
      ] in
      fmax F raw (mul price (lit 1 3))

  abbrev pub reward_to_risk : Value → Value → Value → Value
  reward_to_risk price stop target =
      div (fabs F (sub target price)) (add (stop_distance price stop) (lit 1 9))

  abbrev is_positive : Value → Bool
  is_positive x = lt F (lit 0 0) x

  -- `_validate_sltp_invariants`
  unfoldable pub validate_sltp_invariants : OpenInputs F → Value → Value → Value → Value → Bool
  validate_sltp_invariants i price stop target distance =
      is_positive (stop_distance price stop)
      && is_positive distance
      && is_positive i.sl_mult
      && is_positive i.tp_mult
      && is_positive stop
      && is_positive target
      && not (lt F (reward_to_risk price stop target) i.min_rr_ratio)

  -- the position of a fill
  unfoldable pub intent_at :
      OpenInputs F → PositionSide → Value → Value → Value → Value → PositionIntent F
  intent_at i side vol stop target fill = record {
    side = side;
    entry_price = fill;
    entry_date = i.entry_date;
    stop_loss = stop;
    take_profit = target;
    vol = vol;
    confidence = lit 0 0;
    layers = [];
    base_entry_size = vol;
    breakeven_set = false;
    risk_floor = lit 0 0;
    peak_price = lit 0 0;
    last_stack_bar_id = 0;
  }

  abbrev pub filled_at :
      OpenInputs F → PositionSide → Value → Value → Value → Option Value → Option (PositionIntent F)
  filled_at i side vol stop target none = none
  filled_at i side vol stop target (some fill) = some (intent_at i side vol stop target fill)

  -- the order, if its levels hold
  unfoldable pub submit_checked :
      OpenInputs F → PositionSide → Value → Value → Option (PositionIntent F)
  unfolding compute_stop_loss distance_of target_of validate_sltp_invariants intent_at
  submit_checked i side vol price =
      let stop = compute_stop_loss i side price vol in
      let distance = distance_of i price stop in
      let target = target_of side price distance in
      if validate_sltp_invariants i price stop target distance
      then filled_at i side vol stop target (i.submit side price stop target)
      else none

  abbrev pub open_at :
      OpenInputs F → PositionSide → Option (Value × Value) → Option (PositionIntent F)
  open_at i side none = none
  open_at i side (some (vol, price)) = submit_checked i side vol (live_price i price)

  -- `open_position`: what it hands to the position manager, or nothing
  unfoldable pub open_position : OpenInputs F → PositionSide → Option (PositionIntent F)
  unfolding validate_price_vol submit_checked live_price
  open_position i side = open_at i side (validate_price_vol i)
