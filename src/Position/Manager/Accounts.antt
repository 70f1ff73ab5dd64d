-- ===== src/Position/Manager/Accounts.antt =====
-- The accounts of a position manager over any calls.
use quorrin.Base.{
  ◌≤◌, String, Option, none, some, List, [], ◌∷◌, length, length-append, length-drop, drop, arith,
  Float, le, lt, ◌||◌, inl, inr, Bool-cases,
}
use quorrin.Position.{PositionIntent}
use quorrin.Position.Manager.{
  open_position, close, apply_pnl, update_stop_loss, update_take_profit, partial_close, partial_of,
  trade_of, close_position, partial_close_position, book, book_part, activate_breakeven_stop, reset,
  max_trade_log, log_trade,
}
use quorrin.Position.Manager.Records.{PositionManager, Trade, Days, PartialClose}

-- A call that changes the manager.
pub data Call (F : Float) : Type 0 where
  open_call : PositionIntent F → Call F
  close_call : Option F.Value → String → String → Call F
  partial_call : F.Value → F.Value → String → String → Call F
  stop_call target_call : Option F.Value → Call F
  breakeven_call : Call F
  pnl_call : F.Value → Call F
  reset_call : F.Value → Call F

-- What the accounts need of the floats: one is not below zero, and a difference is not where
-- the first number is not below the second.
pub record FractionLaws (F : Float) : Type 0 where
  pub zero_le_one : F.key (F.lit 0 0) ≤ F.key (F.lit 1 0)
  pub sub_le : (x y : F.Value) → F.key y ≤ F.key x → F.key (F.lit 0 0) ≤ F.key (F.sub x y)

module _ (F : Float) (days : String → String → Option Days) where
  open F use {Value, key, lit}

  pub run_call : Call F → PositionManager F → PositionManager F
  run_call (open_call p) m = open_position F p m
  run_call (close_call exit date reason) m = (close F days exit date reason m).0
  run_call (partial_call fraction price date reason) m =
      (partial_close F fraction price date reason m).0
  run_call (stop_call level) m = (update_stop_loss F level m).0
  run_call (target_call level) m = (update_take_profit F level m).0
  run_call breakeven_call m = (activate_breakeven_stop F m).0
  run_call (pnl_call pnl) m = apply_pnl F pnl m
  run_call (reset_call capital) m = reset F capital m

  pub run_calls : List (Call F) → PositionManager F → PositionManager F
  run_calls [] m = m
  run_calls (k ∷ ks) m = run_calls ks (run_call k m)

  -- The value never stands above its peak, the log is bounded, and what remains of a position is
  -- not negative.
  pub record IsSound (m : PositionManager F) : Type 0 where
    pub below_peak : key m.current_value ≤ key m.peak_value
    pub bounded : length m.trade_log ≤ max_trade_log
    pub remains : key (lit 0 0) ≤ key m.remaining_fraction

  length-log_trade :
      (t : Trade F) (log : List (Trade F))
      → length log ≤ max_trade_log
      → length (log_trade F t log) ≤ max_trade_log
  unfolding log_trade
  length-log_trade t log h =
      ground
        (arith, length-append log (t ∷ []), length-append (drop 1 log) (t ∷ []), length-drop 1 log)

  apply_pnl-below_peak :
      (pnl : Value) (m : PositionManager F)
      → let m' = apply_pnl F pnl m in key m'.current_value ≤ key m'.peak_value
  unfolding apply_pnl
  apply_pnl-below_peak pnl m = ground arith

  book-IsSound : (t : Trade F) (m : PositionManager F) → IsSound m → IsSound (book F t m)
  unfolding book
  book-IsSound t m h = record {
    below_peak = apply_pnl-below_peak t.pnl m;
    bounded = length-log_trade t m.trade_log h.bounded;
    remains = omega arith;
  }

  close_position-IsSound :
      (exit : Option Value) (date reason : String) (m : PositionManager F)
      (o : Option (PositionIntent F))
      → IsSound m
      → IsSound (close_position F days exit date reason m o).0
  unfolding close_position
  close_position-IsSound exit date reason m none h = h
  close_position-IsSound none date reason m (some p) h = h
  close_position-IsSound (some exit) date reason m (some p) h =
      let t = trade_of F (days p.entry_date date) p exit date reason m in
      elim (Bool-cases (le F p.entry_price (lit 0 0) || le F exit (lit 0 0))) [
        | inl refused ↦ rw refused h
        | inr closed ↦ rw closed (book-IsSound t m h)
      ]

  book_part-IsSound :
      (law : FractionLaws F) (c : PartialClose F) (m : PositionManager F)
      → key c.fraction ≤ key m.remaining_fraction
      → IsSound m
      → IsSound (book_part F c m)
  unfolding book_part
  book_part-IsSound law c m part h = record {
    below_peak = apply_pnl-below_peak c.pnl m;
    bounded = h.bounded;
    remains = law.sub_le m.remaining_fraction c.fraction part;
  }

  partial_close_position-IsSound :
      (law : FractionLaws F) (fraction price : Value) (date reason : String) (m : PositionManager F)
      (o : Option (PositionIntent F))
      → IsSound m
      → IsSound (partial_close_position F fraction price date reason m o).0
  unfolding partial_close_position
  partial_close_position-IsSound law fraction price date reason m none h = h
  partial_close_position-IsSound law fraction price date reason m (some p) h =
      let c = partial_of F p fraction price date reason m in
      elim (Bool-cases (le F fraction (lit 0 0) || lt F m.remaining_fraction fraction)) [
        | inl refused ↦ rw refused h
        | inr taken ↦
            let part : key c.fraction ≤ key m.remaining_fraction =
              unfold partial_of in ground arith in
            rw taken (book_part-IsSound law c m part h)
      ]

  run_call-IsSound :
      (law : FractionLaws F) (k : Call F) (m : PositionManager F)
      → IsSound m
      → IsSound (run_call k m)
  unfolding run_call open_position update_stop_loss update_take_profit activate_breakeven_stop reset
      apply_pnl
  run_call-IsSound law (open_call p) m h = record {
    below_peak = h.below_peak;
    bounded = h.bounded;
    remains = law.zero_le_one;
  }
  run_call-IsSound law (close_call exit date reason) m h =
      unfold close in close_position-IsSound exit date reason m m.position h
  run_call-IsSound law (partial_call fraction price date reason) m h =
      unfold partial_close in
      partial_close_position-IsSound law fraction price date reason m m.position h
  run_call-IsSound law (stop_call level) m h = ground (arith, h)
  run_call-IsSound law (target_call level) m h = ground (arith, h)
  run_call-IsSound law breakeven_call m h = ground (arith, h)
  run_call-IsSound law (pnl_call pnl) m h = record {
    below_peak = ground arith;
    bounded = h.bounded;
    remains = h.remains;
  }
  run_call-IsSound law (reset_call capital) m h = record {
    below_peak = omega arith;
    bounded = omega arith;
    remains = law.zero_le_one;
  }

  -- Whatever calls a sound manager receives, its value never stands above its peak, its log never
  -- holds more than 10,000 trades, and what remains of a position never becomes negative, where
  -- the floats have 0 <= 1 and y <= x implies 0 <= x - y.
  pub run_calls-IsSound :
      (law : FractionLaws F) (ks : List (Call F)) (m : PositionManager F)
      → IsSound m
      → IsSound (run_calls ks m)
  unfolding run_calls
  run_calls-IsSound law [] m h = h
  run_calls-IsSound law (k ∷ ks) m h =
      run_calls-IsSound law ks (run_call k m) (run_call-IsSound law k m h)
