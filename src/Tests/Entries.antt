-- ===== src/Tests/Entries.antt =====
-- Deferred entries, the entry gate and the distance of the profit.
use quorrin.Base.{
  ℕ, ◌+◌, ◌≡◌, refl, false, none, some, List, [], ◌∷◌, ltb, if◌then◌else◌, All, arith,
}
use quorrin.Base.Fixed.{fixed}
use quorrin.Position.{long}
use quorrin.Entry.{SignalType, TradeDecision, MarketStructureState, OptimizerConfig}
use quorrin.Entry.Deferred.{DeferredEntry, pending, expired}
use quorrin.Entry.Deferred.Life.{updates, updates-status}
use quorrin.Entry.Gate.{GateConfig, StopOut}
use quorrin.Entry.Polling.{PollContext, Waiting}
use quorrin.Entry.Polling.Unfilled.{
  Event, on_defer, on_poll, HasNoFill, run_events, run_events-HasNoFill,
}
use quorrin.Tests.Data.{whole}

abbrev pub decision : TradeDecision fixed
decision = record {
  asset = "EURUSD";
  signal = SignalType.buy;
  confidence = whole 60;
  prob_long = fixed.lit 6 1;
  prob_short = fixed.lit 3 1;
  prob_neutral = fixed.lit 1 1;
  close_price = whole 100;
  timestamp = "09:00";
  position_size = whole 1;
  archetype = "VOL_EXPANSION";
  feature_hash = "";
}

abbrev waiting : DeferredEntry fixed
waiting = record {
  decision = decision;
  entry_id = "a1";
  status = pending;
  created_at = whole 0;
  bars_elapsed = 0;
  max_bars = 5;
  trigger_price = none;
}

updates-status_example :
    (updates fixed 6 waiting).status ≡ (if ltb waiting.max_bars (0 + 6) then expired else pending)
updates-status_example = updates-status fixed 6 waiting refl (omega arith)

abbrev half_pow : ℕ → ℕ
half_pow x = fixed.lit 5 1

abbrev gate : GateConfig
gate = record {
  stopout_cross_side_cooldown_cycles = 1;
  cooldown_half_life_cycles = 48;
  min_flip_interval_bars = 3;
}

abbrev stopped : StopOut fixed
stopped = record {
  last_stop_out_price = some (whole 98);
  last_stop_out_side = some long;
  last_stop_out_cycle = some 10;
  cooldown_score = whole 1;
  last_cooldown_update_cycle = 10;
}

abbrev pub structure : MarketStructureState fixed
structure = record {
  trend_strength = whole 1;
  compression_score = whole 0;
  distance_to_swing_high = whole 1;
  distance_to_swing_low = whole 1;
  volatility_regime = whole 1;
  breakout_pressure = fixed.lit 5 1;
}

abbrev pub optimizer : OptimizerConfig fixed
optimizer = record {
  mom_max_pressure = fixed.lit 9 1;
  mom_min_pressure = fixed.lit 1 1;
  mr_extreme_high = fixed.lit 85 2;
  mr_extreme_low = fixed.lit 15 2;
  breakout_max_compression = fixed.lit 5 2;
}

abbrev poll : PollContext fixed
poll = record {
  half_pow = half_pow;
  gate = gate;
  cycle = 100;
  last_flip = 0;
  structure = structure;
  optimizer = optimizer;
  sell_only = false;
  last_spread = some (whole 5);
  last_spread_time = whole 100;
  now = whole 110;
  spread_threshold = whole 20;
  unrealized_pnl = none;
  profit_lock_pct = whole 15;
  tp_geo = λ e. none;
  close = whole 101;
}

abbrev calm_asset : Waiting fixed
calm_asset = record {
  entries = [];
  stop_out = record stopped { last_stop_out_side = none; last_stop_out_cycle = none };
}

abbrev events : List (Event fixed)
events = on_defer long (λ d. "a1") (whole 0) decision 5 ∷ on_poll poll ∷ []

run_events-HasNoFill_example :
    ((run_events fixed events calm_asset).1 ≡ false)
    × All (HasNoFill fixed) (run_events fixed events calm_asset).0.entries
run_events-HasNoFill_example = run_events-HasNoFill fixed events calm_asset tt
