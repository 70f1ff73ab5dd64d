-- ===== src/Execution/Stacking/Risk.antt =====
-- What one more layer does to the loss of a position at its stop.
use quorrin.Base.{[], ◌∷◌, ◌++◌, Float, fabs, fmax}
use quorrin.Position.{PositionSide, long, short, PositionIntent, StackLayer}
use quorrin.Position.Manager.Records.{PositionManager}
use quorrin.Execution.Stacking.{StackingConfig, StackInputs}

module _ (F : Float) where
  open F use {Value, key, add, sub, mul, div}

  -- The position with one more layer.
  abbrev pub with_layer : PositionIntent F → StackLayer F → PositionIntent F
  with_layer p new = record p { layers = p.layers ++ new ∷ [] }

  -- A stop at this share of a price below it for a long position, above it for a short one.
  abbrev pub stop_at : PositionSide → Value → Value → Value
  stop_at long price share = mul price (sub (F.lit 1 0) share)
  stop_at short price share = mul price (add (F.lit 1 0) share)

  -- What a size loses between a price and a stop.
  abbrev loss : PositionSide → Value → Value → Value → Value
  loss long size stop price = mul size (fmax F (sub price stop) (F.lit 0 0))
  loss short size stop price = mul size (fmax F (sub stop price) (F.lit 0 0))

  module _ (c : StackingConfig F) (i : StackInputs F) (m : PositionManager F) where
    -- The share of the entry price that its stop is away, as the configuration tightens it.
    abbrev pub tightened : PositionIntent F → Value
    tightened p =
        mul (div (fabs F (sub p.entry_price p.stop_loss)) (fmax F p.entry_price (F.lit 1 9)))
          c.stack_sl_tighten
