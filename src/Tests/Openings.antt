-- ===== src/Tests/Openings.antt =====
-- The opening of a position.
use quorrin.Base.{◌+◌, none, some, false, []}
use quorrin.Base.Fixed.{fixed}
use quorrin.Position.{long, PositionIntent}
use quorrin.Entry.Opening.{OpenInputs}
use quorrin.Tests.Data.{whole}

-- The market is at 101, the signal was at 100.
abbrev pub inputs : OpenInputs fixed
inputs = record {
  vol = some (fixed.lit 1 2);
  signal_price = some (whole 100);
  current_price = some (whole 101);
  entry_date = "today";
  max_entry_slippage_pct = whole 2;
  sl_mult = whole 1;
  tp_mult = whole 2;
  min_rr_ratio = fixed.lit 15 1;
  dynamic_stop = none;
  tp_distance = some (whole 3);
  compile_distance = λ price distance. distance;
  submit = λ side price stop target. some (price + 5);
}

abbrev opened : PositionIntent fixed
opened = record {
  side = long;
  entry_price = whole 101 + 5;
  entry_date = "today";
  stop_loss = fixed.lit 9999 2;
  take_profit = whole 104;
  vol = fixed.lit 1 2;
  confidence = whole 0;
  layers = [];
  base_entry_size = fixed.lit 1 2;
  breakeven_set = false;
  risk_floor = whole 0;
  peak_price = whole 0;
  last_stack_bar_id = 0;
}
