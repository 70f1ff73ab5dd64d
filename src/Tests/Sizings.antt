-- ===== src/Tests/Sizings.antt =====
-- The size of an order.
use quorrin.Base.{◌≡◌, refl, false, some}
use quorrin.Base.Fixed.{fixed}
use quorrin.Entry.Sizing.{
  SizingInput, compute, sized, max_risk_usd, risk_usd, capped_notional, min_viable_notional,
  under_risk, viable, skipped, position_cap, start_notional, position_pct,
}
use quorrin.Tests.Data.{whole}

-- An equity of 1000, a wide stop, and 2 per cent of risk: the position is cut.
abbrev sizing : SizingInput fixed
sizing = record {
  equity = whole 1000;
  drawdown_pct = whole 0;
  size_scalar = whole 1;
  kelly_multiplier = whole 1;
  max_position_pct = fixed.lit 5 1;
  max_risk_pct = some (whole 2);
  min_viable_pct = fixed.lit 1 2;
  drawdown_taper_start = fixed.neg (fixed.lit 5 2);
  drawdown_taper_end = fixed.neg (fixed.lit 15 2);
  drawdown_taper_min = fixed.lit 5 1;
  entry_price = whole 100;
  sl_distance = whole 10;
  is_mt5 = false;
}

sizing_cut : (compute fixed sizing).notional ≡ whole 200
unfolding compute sized max_risk_usd under_risk viable risk_usd capped_notional min_viable_notional
    skipped position_cap start_notional position_pct
sizing_cut = refl
