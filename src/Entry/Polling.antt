-- ===== src/Entry/Polling.antt =====
-- paper_trading/services/entry_service.py (poll_pending_entries, _cancel_all_pending): the
-- deferred entries of an asset at one bar.
--
-- `_pending_entries` has at most the keys "long" and "short", which equal the two sides. The
-- reward geometry of an entry is an argument, for it only goes into the packet, and the digest
-- of the packet is left out. The call that opens the position passes no asset: its parameters
-- are shifted by one, and `open_position` raises AttributeError at its first line, where it
-- asks the data frame for its `price_data`.
pub mod Unfilled
use quorrin.Base.{
  ℕ, ◌+◌, String, Bool, true, false, not, ◌&&◌, ◌||◌, Option, none, some, List, [], ◌∷◌, map,
  if◌then◌else◌, Float, lt,
}
use quorrin.Position.{PositionSide, long, short, is_long}
use quorrin.Entry.{
  EntryAction, enter, defer, skip, exit, MarketStructureState, OptimizerConfig, evaluate, handle,
  PolicyDecision,
}
use quorrin.Entry.Deferred.{
  DeferredEntry, DeferredEntryStatus, pending, triggered, closed, expired, cancelled, is_active,
  update, trigger, cancel, is_pending,
}
use quorrin.Entry.Gate.{StopOut, GateConfig, Refusal, same_side, can_enter}

-- What a poll reads.
pub record PollContext (F : Float) : Type 1 where
  pub half_pow : F.Value → F.Value
  pub gate : GateConfig
  pub cycle : ℕ
  pub last_flip : ℕ
  pub structure : MarketStructureState F
  pub optimizer : OptimizerConfig F
  pub sell_only : Bool
  pub last_spread : Option F.Value
  pub last_spread_time : F.Value
  pub now : F.Value
  pub spread_threshold : F.Value
  -- the profit of the open position in percent, where there are one and a price
  pub unrealized_pnl : Option F.Value
  pub profit_lock_pct : F.Value
  pub tp_geo : DeferredEntry F → Option F.Value
  -- the last close
  pub close : F.Value

-- The deferred entries by their side, and the cooldown of the asset.
pub record Waiting (F : Float) : Type 0 where
  pub entries : List (PositionSide × DeferredEntry F)
  pub stop_out : StopOut F

-- What becomes of an entry: it stays, it goes, or its opening raises.
pub data Verdict : Type 0 where
  keep drop_it raise : Verdict

-- One polled entry, with its new state.
pub record Polled (F : Float) : Type 0 where
  pub direction : PositionSide
  pub entry : DeferredEntry F
  pub fate : Verdict

abbrev pub has_side : {F : Float} → PositionSide → List (PositionSide × DeferredEntry F) → Bool
has_side side [] = false
has_side side ((d, e) ∷ rest) = same_side d side || has_side side rest

module _ (F : Float) where
  open F use {lit, sub}

  -- behind the router of the policies: an entry is opened, given up or left to wait
  unfoldable pub act :
      EntryAction → DeferredEntry F → Option Refusal → F.Value → DeferredEntry F × Verdict
  act enter e (some refusal) close = (cancel F e, drop_it)
  act enter e none close = (trigger F close e, raise)
  act skip e refusal close = (cancel F e, drop_it)
  act defer e refusal close = (e, keep)
  act exit e refusal close = (e, keep)

  -- the entry gate is asked only where the action is to enter
  unfoldable pub gated :
      PollContext F → EntryAction → Bool → PositionSide → StopOut F → StopOut F × Option Refusal
  gated c enter waits side s = can_enter F c.half_pow c.gate c.cycle c.last_flip waits side s
  gated c _ waits side s = (s, none)

  -- the geometry is computed where the action is to enter
  abbrev tp_geo_of : PollContext F → DeferredEntry F → EntryAction → Option F.Value
  tp_geo_of c e action = elim action [ enter ↦ c.tp_geo e | _ ↦ none ]

  -- an entry that is still active behind its update
  unfoldable pub poll_active :
      PollContext F → Bool → PositionSide → DeferredEntry F → StopOut F → StopOut F × Polled F
  unfolding gated act handle
  poll_active c waits side e s =
      let action = evaluate F e.decision.signal e.decision.archetype c.structure c.optimizer in
      let packet : PolicyDecision (DeferredEntry F) F.Value =
        handle action (tp_geo_of c e action) (some e) in
      let (s', refusal) = gated c packet.action waits side s in
      let (e', fate) = act packet.action e refusal c.close in
      (s', record { direction = side; entry = e'; fate = fate })

  abbrev is_expired : DeferredEntryStatus → Bool
  is_expired expired = true
  is_expired _ = false

  -- the body of the loop
  unfoldable pub poll_entry :
      PollContext F → Bool → PositionSide → DeferredEntry F → StopOut F → StopOut F × Polled F
  unfolding poll_active update is_active
  poll_entry c waits side e s =
      let aged = update F e in
      if not (is_active F e)
      then (s, record { direction = side; entry = e; fate = drop_it })
      else if is_long side && c.sell_only
      then (s, record { direction = side; entry = cancel F e; fate = drop_it })
      else if is_expired aged.status
      then (s, record { direction = side; entry = aged; fate = drop_it })
      else poll_active c waits side aged s

  abbrev pub unpolled : PositionSide × DeferredEntry F → Polled F
  unpolled (d, e) = record { direction = d; entry = e; fate = keep }

  -- one entry in front of what the loop makes of the rest; an exception ends the loop
  abbrev pub in_front :
      Polled F
      → Verdict
      → List (PositionSide × DeferredEntry F)
      → StopOut F
      → StopOut F × List (Polled F)
      → StopOut F × List (Polled F)
  in_front p raise rest s (s', ps) = (s, p ∷ map unpolled rest)
  in_front p keep rest s (s', ps) = (s', p ∷ ps)
  in_front p drop_it rest s (s', ps) = (s', p ∷ ps)

  -- the loop over the entries
  unfoldable pub poll_loop :
      PollContext F
      → List (PositionSide × DeferredEntry F)
      → List (PositionSide × DeferredEntry F)
      → StopOut F
      → StopOut F × List (Polled F)
  unfolding poll_entry
  poll_loop c all [] s = (s, [])
  poll_loop c all ((d, e) ∷ rest) s =
      let (s', p) = poll_entry c (has_side d all) d e s in
      in_front p p.fate rest s' (poll_loop c all rest s')

  -- `_cancel_all_pending`
  unfoldable pub cancel_all_pending : List (PositionSide × DeferredEntry F) → List (Polled F)
  cancel_all_pending [] = []
  cancel_all_pending ((d, e) ∷ rest) =
      record { direction = d; entry = cancel F e; fate = drop_it } ∷ cancel_all_pending rest

  -- the spread is stale or too wide; without a spread the check is left out
  unfoldable pub spread_blocks : PollContext F → Bool
  spread_blocks c = elim c.last_spread [
    | none ↦ false
    | some spread ↦
        lt F (lit 0 0) c.last_spread_time
        && (lt F (lit 300 0) (sub c.now c.last_spread_time) || lt F c.spread_threshold spread)
  ]

  unfoldable pub profit_locked : PollContext F → Bool
  profit_locked c = elim c.unrealized_pnl [ none ↦ false | some pnl ↦ lt F c.profit_lock_pct pnl ]

  -- every entry with what the poll makes of it
  unfoldable pub poll_all : PollContext F → Waiting F → StopOut F × List (Polled F)
  unfolding poll_loop cancel_all_pending spread_blocks profit_locked
  poll_all c w =
      if spread_blocks c
      then (w.stop_out, cancel_all_pending w.entries)
      else if profit_locked c
      then (w.stop_out, cancel_all_pending w.entries)
      else poll_loop c w.entries w.entries w.stop_out

  abbrev pub is_raise : Verdict → Bool
  is_raise raise = true
  is_raise _ = false

  abbrev is_keep : Verdict → Bool
  is_keep keep = true
  is_keep _ = false

  unfoldable pub any_raised : List (Polled F) → Bool
  any_raised [] = false
  any_raised (p ∷ ps) = is_raise p.fate || any_raised ps

  unfoldable pub all_of : List (Polled F) → List (PositionSide × DeferredEntry F)
  all_of [] = []
  all_of (p ∷ ps) = (p.direction, p.entry) ∷ all_of ps

  unfoldable pub kept : List (Polled F) → List (PositionSide × DeferredEntry F)
  kept [] = []
  kept (p ∷ ps) =
      let rest = kept ps in if is_keep p.fate then (p.direction, p.entry) ∷ rest else rest

  -- the state that the loop leaves, and whether it raised; an exception skips the removal
  unfoldable pub conclude : StopOut F × List (Polled F) → Waiting F × Bool
  unfolding any_raised all_of kept
  conclude (s, ps) =
      if any_raised ps
      then (record { entries = all_of ps; stop_out = s }, true)
      else (record { entries = kept ps; stop_out = s }, false)

  unfoldable pub poll_pending_entries : PollContext F → Waiting F → Waiting F × Bool
  unfolding poll_all conclude
  poll_pending_entries c w = conclude (poll_all c w)

  -- `_pending_entries[side] = entry`
  unfoldable pub put_entry :
      PositionSide
      → DeferredEntry F
      → List (PositionSide × DeferredEntry F)
      → List (PositionSide × DeferredEntry F)
  put_entry side entry [] = (side, entry) ∷ []
  put_entry side entry ((d, e) ∷ rest) =
      let rest' = put_entry side entry rest in
      if same_side d side then (d, entry) ∷ rest else (d, e) ∷ rest'
