-- ===== src/Position/Manager.antt =====
-- paper_trading/position/manager.py: the position of one asset over its life.
--
-- A price or a level that a method is given is `none` where it is NaN; the prices and levels of
-- a position are not NaN, as what opens one and what moves its levels tests for it. What pandas
-- makes of two dates is an argument: the whole days between them, `none` where it raises.
pub mod Records
pub mod Accounts
pub mod Exits
use quorrin.Base.{
  ℕ, ◌+◌, ◌-◌, ◌^◌, String, Bool, true, false, not, ◌&&◌, ◌||◌, Option, none, some, List, [], ◌∷◌,
  ◌++◌, length, drop, ltb, leb, if◌then◌else◌, Float, lt, le, eq, fabs,
}
use quorrin.Position
use quorrin.Position.{PositionSide, long, short, PositionIntent, StackLayer, effective_sl}
use quorrin.Position.Manager.Records.{
  PartialClose, Trade, PositionManager, ExitReason, breakeven, sl, tp, Days, after, before,
}

-- `_MAX_TRADE_LOG`
abbrev pub max_trade_log : ℕ
max_trade_log = 10 ^ 4

-- `max(0, days)`, and 1 where pandas raises
abbrev bars_of : Option Days → ℕ
bars_of none = 1
bars_of (some (after n)) = n
bars_of (some (before n)) = 0

module _ (F : Float) where
  open F use {Value, lit, add, sub, mul, div, round}

  -- `__init__`
  unfoldable pub new_manager : Value → Value → PositionManager F
  new_manager capital size = record {
    initial_capital = capital;
    current_value = capital;
    peak_value = capital;
    position_size = size;
    exposure_multiplier = lit 1 0;
    position = none;
    trade_log = [];
    scale_out_active = false;
    scale_out_breakeven = none;
    remaining_fraction = lit 1 0;
    partial_closes = [];
    regime = "neutral";
    volatility_state = "normal";
  }

  -- `open`
  unfoldable pub open_position : PositionIntent F → PositionManager F → PositionManager F
  open_position p m = record m {
    position = some (
        if le F p.base_entry_size (lit 0 0)
        then record p { base_entry_size = m.position_size }
        else p);
    scale_out_active = false;
    scale_out_breakeven = none;
    remaining_fraction = lit 1 0;
    partial_closes = [];
  }

  abbrev pub return_of : PositionSide → Value → Value → Value
  return_of long entry exit = sub (div exit entry) (lit 1 0)
  return_of short entry exit = sub (div entry exit) (lit 1 0)

  abbrev pub pnl_of : Value → Value → PositionManager F → Value
  pnl_of ret fraction m =
      mul (mul (mul (mul m.current_value ret) m.position_size) m.exposure_multiplier) fraction

  -- `current_value += pnl`, and the peak follows
  unfoldable pub apply_pnl : Value → PositionManager F → PositionManager F
  apply_pnl pnl m =
      let value = add m.current_value pnl in
      record m {
        current_value = value;
        peak_value = if lt F m.peak_value value then value else m.peak_value;
      }

  unfoldable pub sum_pnl : List (PartialClose F) → Value → Value
  sum_pnl [] total = total
  sum_pnl (c ∷ cs) total = sum_pnl cs (add total c.pnl)

  -- the trade that `close` records
  unfoldable pub trade_of :
      Option Days → PositionIntent F → Value → String → String → PositionManager F → Trade F
  unfolding sum_pnl
  trade_of days p exit exit_date reason m =
      let ret = return_of p.side p.entry_price exit in
      let pnl = pnl_of ret m.remaining_fraction m in
      let risk_pct =
        if not (eq F p.stop_loss p.entry_price)
        then div (fabs F (sub p.entry_price p.stop_loss)) p.entry_price
        else lit 0 0 in
      record {
        side = p.side;
        entry = p.entry_price;
        exit = exit;
        entry_date = p.entry_date;
        exit_date = exit_date;
        bars = bars_of days;
        return = ret;
        pnl = pnl;
        total_pnl = add pnl (sum_pnl m.partial_closes (lit 0 0));
        reason = reason;
        sl_price = p.stop_loss;
        tp_price = p.take_profit;
        vol_at_entry = p.vol;
        realized_r = if lt F (lit 0 0) risk_pct then round (div ret risk_pct) 4 else lit 0 0;
        partial_closes = m.partial_closes;
        fraction_closed = m.remaining_fraction;
      }

  -- the log with one more trade, without its oldest one where it is full
  unfoldable pub log_trade : Trade F → List (Trade F) → List (Trade F)
  log_trade t log = (if leb max_trade_log (length log) then drop 1 log else log) ++ t ∷ []

  -- the manager behind a trade
  unfoldable pub book : Trade F → PositionManager F → PositionManager F
  unfolding log_trade apply_pnl
  book t m = record (apply_pnl t.pnl m) {
    trade_log = log_trade t m.trade_log;
    position = none;
    remaining_fraction = lit 0 0;
  }

  -- `close` of the position that is given, with what pandas makes of the dates
  unfoldable pub close_position :
      (String → String → Option Days)
      → Option Value
      → String
      → String
      → PositionManager F
      → Option (PositionIntent F)
      → PositionManager F × Option (Trade F)
  unfolding trade_of book
  close_position days exit exit_date reason m none = (m, none)
  close_position days none exit_date reason m (some p) = (m, none)
  close_position days (some exit) exit_date reason m (some p) =
      let t = trade_of (days p.entry_date exit_date) p exit exit_date reason m in
      if le F p.entry_price (lit 0 0) || le F exit (lit 0 0) then (m, none) else (book t m, some t)

  unfoldable pub close :
      (String → String → Option Days)
      → Option Value
      → String
      → String
      → PositionManager F
      → PositionManager F × Option (Trade F)
  close days exit exit_date reason m = close_position days exit exit_date reason m m.position

  -- at or beyond a stop level
  abbrev pub crossed : PositionSide → Value → Value → Bool
  crossed long price level = le F price level
  crossed short price level = le F level price

  -- at or beyond a target
  abbrev pub reached : PositionSide → Value → Value → Bool
  reached long price level = le F level price
  reached short price level = le F price level

  abbrev pub breakeven_crossed : PositionSide → Value → PositionManager F → Bool
  breakeven_crossed side price m = elim m.scale_out_breakeven [
    | none ↦ false
    | some level ↦ lt F (lit 0 0) m.remaining_fraction && crossed side price level
  ]

  abbrev pub level_or : Option Value → Value
  level_or none = lit 0 0
  level_or (some x) = x

  -- the tests at a price that is not NaN
  unfoldable pub exit_at :
      Value → PositionIntent F → PositionManager F → Option (ExitReason × Value)
  exit_at price p m =
      let stop = effective_sl F p in
      if breakeven_crossed p.side price m
      then some (breakeven, level_or m.scale_out_breakeven)
      else if crossed p.side price stop
      then some (sl, stop)
      else if reached p.side price p.take_profit
      then some (tp, p.take_profit)
      else none

  -- NaN crosses no breakeven stop, and is tested before the other levels
  unfoldable pub check_sl_tp : Option Value → PositionManager F → Option (ExitReason × Value)
  unfolding exit_at
  check_sl_tp given m = elim m.position [
    | none ↦ none
    | some p ↦ elim given [ none ↦ none | some price ↦ exit_at price p m ]
  ]

  unfoldable pub update_stop_loss : Option Value → PositionManager F → PositionManager F × Bool
  update_stop_loss given m = elim m.position [
    | none ↦ (m, false)
    | some p ↦ elim given [
      | none ↦ (m, false)
      | some new_sl ↦ (record m { position = some (record p { stop_loss = new_sl }) }, true)
    ]
  ]

  unfoldable pub update_take_profit : Option Value → PositionManager F → PositionManager F × Bool
  update_take_profit given m = elim m.position [
    | none ↦ (m, false)
    | some p ↦ elim given [
      | none ↦ (m, false)
      | some new_tp ↦ (record m { position = some (record p { take_profit = new_tp }) }, true)
    ]
  ]

  unfoldable pub partial_of :
      PositionIntent F → Value → Value → String → String → PositionManager F → PartialClose F
  partial_of p fraction fill_price exit_date reason m =
      let ret = return_of p.side p.entry_price fill_price in
      record {
        fraction = fraction;
        fill_price = fill_price;
        exit_date = exit_date;
        reason = reason;
        return = ret;
        pnl = pnl_of ret fraction m;
      }

  unfoldable pub book_part : PartialClose F → PositionManager F → PositionManager F
  unfolding apply_pnl
  book_part c m = record (apply_pnl c.pnl m) {
    partial_closes = m.partial_closes ++ c ∷ [];
    remaining_fraction = sub m.remaining_fraction c.fraction;
  }

  -- `partial_close` of the position that is given
  unfoldable pub partial_close_position :
      Value
      → Value
      → String
      → String
      → PositionManager F
      → Option (PositionIntent F)
      → PositionManager F × Option (PartialClose F)
  unfolding partial_of book_part
  partial_close_position fraction fill_price exit_date reason m none = (m, none)
  partial_close_position fraction fill_price exit_date reason m (some p) =
      let c = partial_of p fraction fill_price exit_date reason m in
      if le F fraction (lit 0 0) || lt F m.remaining_fraction fraction
      then (m, none)
      else (book_part c m, some c)

  unfoldable pub partial_close :
      Value
      → Value
      → String
      → String
      → PositionManager F
      → PositionManager F × Option (PartialClose F)
  partial_close fraction fill_price exit_date reason m =
      partial_close_position fraction fill_price exit_date reason m m.position

  unfoldable pub activate_breakeven_stop : PositionManager F → PositionManager F × Bool
  activate_breakeven_stop m = elim m.position [
    | none ↦ (m, false)
    | some p ↦
        if le F m.remaining_fraction (lit 0 0)
        then (m, false)
        else (record m { scale_out_active = true; scale_out_breakeven = some p.entry_price }, true)
  ]

  unfoldable pub max_layers_reached : ℕ → PositionManager F → Bool
  max_layers_reached n m = elim m.position [ none ↦ true | some p ↦ leb n (length p.layers) ]

  unfoldable pub stack_layer_count : PositionManager F → ℕ
  stack_layer_count m = elim m.position [ none ↦ 0 | some p ↦ length p.layers - 1 ]

  unfoldable pub enforce_invariant : PositionManager F → Bool
  enforce_invariant m = elim m.position [ none ↦ true | some p ↦ Position.enforce_invariant F p ]

  unfoldable pub position_pnl : Value → PositionManager F → Value
  position_pnl price m = elim m.position [
    | none ↦ lit 0 0
    | some p ↦
        if eq F price (lit 0 0)
        then lit 0 0
        else mul (return_of p.side p.entry_price price) (lit 100 0)
  ]

  -- `reset`
  unfoldable pub reset : Value → PositionManager F → PositionManager F
  reset capital m = record m {
    initial_capital = capital;
    current_value = capital;
    peak_value = capital;
    position = none;
    trade_log = [];
    scale_out_active = false;
    scale_out_breakeven = none;
    remaining_fraction = lit 1 0;
    partial_closes = [];
    regime = "neutral";
    volatility_state = "normal";
  }
