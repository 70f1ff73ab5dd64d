-- ===== src/Tests/Positions.antt =====
-- Positions.
use quorrin.Base.{ℕ, [], ◌∷◌, false}
use quorrin.Base.Fixed.{fixed}
use quorrin.Position.{long, StackLayer, PositionIntent}
use quorrin.Tests.Data.{whole}

abbrev pub layer : ℕ → StackLayer fixed
layer stop = record {
  entry_price = whole 100;
  size = whole 1;
  timestamp = "09:00";
  signal_id = "s";
  pnl_at_time = whole 0;
  stop_loss = whole stop;
}

abbrev pub position : PositionIntent fixed
position = record {
  side = long;
  entry_price = whole 100;
  entry_date = "today";
  stop_loss = whole 90;
  take_profit = whole 120;
  vol = whole 1;
  confidence = whole 1;
  layers = layer 92 ∷ layer 95 ∷ [];
  base_entry_size = whole 1;
  breakeven_set = false;
  risk_floor = whole 94;
  peak_price = whole 101;
  last_stack_bar_id = 0;
}
