-- ===== src/Orchestrator/Breaker/Trip.antt =====
-- When the circuit breaker trips, its peak, and its state across a restart.
use quorrin.Base.{
  ℕ, ◌*◌, ◌≤◌, ◌≡◌, ◌↔◌, ◌⊎◌, refl, true, Option, none, some, List, length, length-last_n, arith,
  Float, le, String, ◌++◌, [], ◌∷◌,
}
use quorrin.Orchestrator.Actor.Records.{Actors}
use quorrin.Orchestrator.Breaker.{
  BreakerConfig, Breaker, reaches, check, decide, raise_peak, drawdown_from, vol_ratio, ratio_of,
  loss_streak, record_daily_pnl, snapshot_state, restore_state, new_breaker,
}

module _ (F : Float) (c : BreakerConfig F) where
  decide-trip :
      (dd : F.Value) (vol ratio : Option F.Value) (streak : ℕ) (keys : Option (List String))
      → ((decide F c dd vol ratio streak keys).trip ≡ true) ↔ (
          (le F dd (F.neg c.max_drawdown) ≡ true)
          ⊎ (reaches F vol c.vol_spike ≡ true)
          ⊎ (reaches F ratio c.max_halt_ratio ≡ true)
          ⊎ (c.max_losses ≤ streak))
  unfolding decide
  decide-trip dd vol ratio streak keys = (ground arith, ground arith)

  -- The history of daily results never holds more than three years of entries.
  pub length-record_daily_pnl :
      (pnl : F.Value) (b : Breaker F)
      → length (record_daily_pnl F pnl b).daily_pnl_history ≤ 252 * 3
  unfolding record_daily_pnl
  length-record_daily_pnl pnl b =
      let history = b.daily_pnl_history ++ pnl ∷ [] in
      ground (arith, length-last_n (252 * 3) history (omega arith))

  raise_peak_bounds :
      (peak : Option F.Value) (value : F.Value)
      → (F.key value ≤ F.key (raise_peak F peak value))
        × ((p : F.Value) → peak ≡ some p → F.key p ≤ F.key (raise_peak F peak value))
  unfolding raise_peak
  raise_peak_bounds none value = (omega arith, λ p e. cc)
  raise_peak_bounds (some q) value = (ground arith, λ p e. ground arith)

module _ (F : Float) where
  -- A fresh breaker into which a snapshot is restored is the breaker that was saved.
  pub restore_state-snapshot_state :
      (b : Breaker F)
      → let (peak, daily) = snapshot_state F b in
        restore_state F peak (some daily) (new_breaker F) ≡ b
  unfolding snapshot_state restore_state new_breaker
  restore_state-snapshot_state b = ground arith

module _ (F : Float) {E Signal Trade : Type 0} (c : BreakerConfig F) where
  -- The breaker trips exactly when the drawdown from the raised peak is at or below the limit,
  -- or the volatility ratio or the halt ratio, where known, reaches its limit, or the streak of
  -- losses does; the peak is then at least the value and at least the peak before.
  pub check_trips_iff :
      (value : F.Value) (vol baseline : Option F.Value) (actors : Option (Actors F E Signal Trade))
      (b : Breaker F)
      → let (b', d) = check F c value vol baseline actors b in
        ((d.trip ≡ true) ↔ (
          (le F (drawdown_from F (raise_peak F b.peak_value value) value) (F.neg c.max_drawdown)
            ≡ true)
          ⊎ (reaches F (vol_ratio F vol baseline) c.vol_spike ≡ true)
          ⊎ (reaches F (ratio_of F actors) c.max_halt_ratio ≡ true)
          ⊎ (c.max_losses ≤ loss_streak F c b.daily_pnl_history)))
        × (b'.daily_pnl_history ≡ b.daily_pnl_history)
        × ((p : F.Value) × (b'.peak_value ≡ some p)
            × (F.key value ≤ F.key p)
            × ((q : F.Value) → b.peak_value ≡ some q → F.key q ≤ F.key p))
  unfolding check
  check_trips_iff value vol baseline actors b =
      let (above, raised) = raise_peak_bounds F c b.peak_value value in
      (decide-trip F c _ _ _ _ _, refl, (_, refl, above, raised))
