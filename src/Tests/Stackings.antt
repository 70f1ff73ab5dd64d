-- ===== src/Tests/Stackings.antt =====
-- The stacking gate.
use quorrin.Base.{false, none, some, []}
use quorrin.Base.Fixed.{fixed}
use quorrin.Position.{StackLayer}
use quorrin.Position.Manager.{new_manager}
use quorrin.Position.Manager.Records.{PositionManager}
use quorrin.Execution.Stacking.{StackingConfig, StackInputs, StackCommand}
use quorrin.Tests.Data.{whole}
use quorrin.Tests.Positions.{position}

abbrev config : StackingConfig fixed
config = record {
  min_stack_r = fixed.lit 5 2;
  min_confidence = fixed.lit 6 1;
  max_layers = 3;
  stack_spacing_r = fixed.lit 5 2;
  adx_threshold = whole 25;
  stack_sl_tighten = fixed.lit 5 1;
  first_multiplier = fixed.lit 8 1;
  more_multipliers = [];
  stack_target_vol = fixed.lit 15 2;
  least_vol_adj = fixed.lit 3 1;
  most_vol_adj = fixed.lit 12 1;
  size_cap = whole 1;
  min_viable_position_pct = fixed.lit 1 2;
  min_stack_size_factor = fixed.lit 5 1;
  stack_micro_threshold = whole 0;
  dry_run = false;
}

abbrev inputs : StackInputs fixed
inputs = record {
  current_price = some (whole 110);
  close_price = whole 110;
  confidence = whole 60;
  adx = some (whole 30);
  bar_counter = 0;
  realized_volatility = fixed.lit 15 2;
  capital_base = whole 1;
  is_pending = false;
  last_stop_out_cycle = none;
  cycle_counter = 50;
  stopout_cross_side_cooldown_cycles = 1;
}

abbrev manager : PositionManager fixed
manager = record (new_manager fixed (whole 1000) (whole 1)) { position = some position }

abbrev command : StackCommand fixed
command = record { size = fixed.lit 8 1; expected_layer_idx = 1; expected_price = whole 110 }

-- The stop of 90 is a tenth below the entry, and 104.5 a twentieth below 110.
abbrev new_layer : StackLayer fixed
new_layer = record {
  entry_price = whole 110;
  size = fixed.lit 8 1;
  timestamp = "10:00";
  signal_id = "stack_signal";
  pnl_at_time = whole 0;
  stop_loss = fixed.lit 1045 1;
}
