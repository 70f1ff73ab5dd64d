-- ===== src/Tests/Protections.antt =====
-- The protection of a position.
use quorrin.Base.{◌≡◌, [], ◌∷◌, arith}
use quorrin.Base.Fixed.{fixed}
use quorrin.Position.{avg_price, effective_sl, PositionIntent}
use quorrin.Position.Protection.{ProtectionConfig, unrealized_r}
use quorrin.Position.Protection.Floors.{updates-short, updates, shorted}
use quorrin.Tests.Data.{whole}
use quorrin.Tests.Positions.{position}

abbrev pub config : ProtectionConfig fixed
config = record {
  breakeven_threshold_r = fixed.lit 5 1;
  trail_activate_r = whole 1;
  trail_distance_r = fixed.lit 5 1;
}

-- a position without layers, of a volatility of a tenth
abbrev plain : PositionIntent fixed
plain = record position { layers = []; vol = fixed.lit 1 1 }

updates-short_example :
    effective_sl fixed (updates fixed config (whole 93 ∷ whole 94 ∷ []) (shorted fixed plain))
    ≡ effective_sl fixed (shorted fixed plain)
unfolding avg_price unrealized_r
updates-short_example =
    updates-short fixed config (whole 93 ∷ whole 94 ∷ []) plain (omega arith)
      (omega arith, (omega arith, tt))
