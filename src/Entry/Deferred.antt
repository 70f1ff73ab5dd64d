-- ===== src/Entry/Deferred.antt =====
-- paper_trading/entry/deferred_entry.py: an entry that waits for a better price.
pub mod Life
use quorrin.Base.{ℕ, ◌+◌, String, Bool, true, false, Option, none, some, ltb, if◌then◌else◌, Float}
use quorrin.Entry.{TradeDecision}

pub data DeferredEntryStatus : Type 0 where
  pending triggered closed expired cancelled : DeferredEntryStatus

pub record DeferredEntry (F : Float) : Type 0 where
  pub decision : TradeDecision F
  pub entry_id : String
  pub status : DeferredEntryStatus
  pub created_at : F.Value
  pub bars_elapsed : ℕ
  pub max_bars : ℕ
  pub trigger_price : Option F.Value

module _ (F : Float) where
  -- `from_decision`: the digest of the asset, the signal and the time is an argument, and so is
  -- the clock
  unfoldable pub from_decision :
      (TradeDecision F → String) → F.Value → TradeDecision F → ℕ → DeferredEntry F
  from_decision digest now decision max_bars = record {
    decision = decision;
    entry_id = digest decision;
    status = pending;
    created_at = now;
    bars_elapsed = 0;
    max_bars = max_bars;
    trigger_price = none;
  }

  abbrev pub is_pending : DeferredEntryStatus → Bool
  is_pending pending = true
  is_pending _ = false

  -- the property `is_active`
  unfoldable pub is_active : DeferredEntry F → Bool
  is_active e = is_pending e.status

  -- the status behind one more bar
  unfoldable pub aged : DeferredEntryStatus → ℕ → ℕ → DeferredEntryStatus
  aged pending bars max_bars = if ltb max_bars bars then expired else pending
  aged triggered _ _ = triggered
  aged closed _ _ = closed
  aged expired _ _ = expired
  aged cancelled _ _ = cancelled

  unfoldable pub update : DeferredEntry F → DeferredEntry F
  unfolding aged
  update e = record e {
    bars_elapsed = e.bars_elapsed + 1;
    status = aged e.status (e.bars_elapsed + 1) e.max_bars;
  }

  unfoldable pub trigger : F.Value → DeferredEntry F → DeferredEntry F
  trigger price e = elim e.status [
    | pending ↦ record e { status = triggered; trigger_price = some price }
    | _ ↦ e
  ]

  unfoldable pub cancel : DeferredEntry F → DeferredEntry F
  cancel e = elim e.status [
    | pending ↦ record e { status = cancelled }
    | triggered ↦ record e { status = cancelled }
    | _ ↦ e
  ]

  unfoldable pub close : DeferredEntry F → DeferredEntry F
  close e = record e { status = closed }
