-- ===== src/Entry/Opening/Checks.antt =====
-- What holds of a position that is opened.
use quorrin.Base.{◌≤◌, ◌<◌, ◌≡◌, false, Option, none, some, Float, eq}
use quorrin.Position.{PositionSide, PositionIntent}
use quorrin.Entry.Opening.{OpenInputs, deviates, stop_distance, reward_to_risk}

module _ (F : Float) where
  open F use {Value, key, lit}

  -- A position that an order at a price has given.
  abbrev pub IsChecked : OpenInputs F → PositionSide → Value → PositionIntent F → Type 0
  IsChecked i side price p =
      (p.side ≡ side)
      × (i.submit side price p.stop_loss p.take_profit ≡ some p.entry_price)
      × (key (lit 0 0) < key p.stop_loss)
      × (key (lit 0 0) < key p.take_profit)
      × (key (lit 0 0) < key (stop_distance F price p.stop_loss))
      × (key i.min_rr_ratio ≤ key (reward_to_risk F price p.stop_loss p.take_profit))

  -- the same of a position that may be missing
  abbrev WhenOpened : (PositionIntent F → Type 0) → Option (PositionIntent F) → Type 0
  WhenOpened P none = Unit
  WhenOpened P (some p) = P p

  -- A signal price that is there, is not nought, and from which the market is not too far away.
  abbrev pub IsUsable : OpenInputs F → Value → Type 0
  IsUsable i x = (i.signal_price ≡ some x) × (eq F x (lit 0 0) ≡ false) × (deviates F i x ≡ false)

  abbrev WhenUsable : OpenInputs F → Option (Value × Value) → Type 0
  WhenUsable i none = Unit
  WhenUsable i (some (vol, x)) = IsUsable i x
