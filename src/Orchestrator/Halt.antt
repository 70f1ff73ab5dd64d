-- ===== src/Orchestrator/Halt.antt =====
-- The emergency halt of `EngineOrchestrator`, paper_trading/orchestrator/engine.py: the start of
-- `run_once`, the equity of the pre-phase, the breakers 3a to 3c of phase 3, the automatic and
-- the manual unhalt, and the restart from a snapshot.
--
-- `Portfolio` is what these read and write of an asset's engine. The phases between (1a, 1b, 2)
-- and behind (3d to 4) reach the state below only through the actors: a cycle takes what they
-- did to the actors as two functions.
pub mod Stuck
pub mod Streaks
pub mod Unhalt
use mathlib.Core.List.{foldl}
use quorrin.Base.{
  ℕ, suc, ◌+◌, String, Bool, true, false, not, ◌&&◌, Option, none, some, List, [], ◌∷◌, map, ltb,
  leb, ◌==◌, if◌then◌else◌, Float, lt, le, fmax,
}
use quorrin.Risk
use quorrin.Risk.{compute_exposure_multiplier, check_drawdown_circuit_breaker}
use quorrin.Orchestrator.Actor
use quorrin.Orchestrator.Actor.Records.{AssetActor, Actors}
use quorrin.Orchestrator.Actor.Snapshot.{compute_health_snapshot, is_system_healthy}
use quorrin.Orchestrator.Breaker.{
  Breaker, TripReason, default_config, new_breaker, record_daily_pnl, restore_state, check,
}

pub data HaltReason : Type 0 where
  drawdown halt_ratio vol_spike consecutive_losses : HaltReason

-- `HALT_REASON_AUTO_UNHALT_ALLOWED`; no reason is not among them
abbrev pub auto_unhalt_allowed : Option HaltReason → Bool
auto_unhalt_allowed (some HaltReason.drawdown) = true
auto_unhalt_allowed (some HaltReason.consecutive_losses) = true
auto_unhalt_allowed _ = false

-- `DRAWDOWN_AUTO_UNHALT_MIN_CYCLES`
abbrev pub min_cycles : ℕ
min_cycles = 10

-- the test `"vol_spike" in reason`
abbrev reason_of : {F : Float} → TripReason F → HaltReason
reason_of (TripReason.vol_spike r) = HaltReason.vol_spike
reason_of _ = HaltReason.consecutive_losses

pub record Portfolio (F : Float) (E : Type 0) : Type 0 where
  pub mtm_value : E → F.Value
  pub current_value : E → F.Value
  pub set_exposure_multiplier : F.Value → E → E
  -- one engine's part of `flatten_positions`
  pub flatten : E → E

pub record Orchestrator (F : Float) (E Signal Trade : Type 0) : Type 0 where
  pub actors : Actors F E Signal Trade
  pub emergency_halt : Bool
  pub halt_reason : Option HaltReason
  pub unhalt_recovery_cycles : ℕ
  pub cycles_elapsed : ℕ
  pub peak_portfolio_value : Option F.Value
  pub cycle_total_equity : Option F.Value
  pub breaker : Breaker F
  pub prev_portfolio_value : Option F.Value
  pub last_pnl_date : Option ℕ

-- What a cycle meets: the work of the other phases on the actors, and the day.
pub record Cycle (F : Float) (E Signal Trade : Type 0) : Type 0 where
  pub work : Actors F E Signal Trade → Actors F E Signal Trade
  pub rest : Actors F E Signal Trade → Actors F E Signal Trade
  pub today : ℕ

pub data CycleResult : Type 0 where
  halt_persistent tripped completed : CycleResult

-- What is saved of a halted orchestrator; the reason is `none` where its text is unknown.
pub record Snapshot (F : Float) : Type 0 where
  pub emergency_halt : Bool
  pub halt_reason : Option HaltReason
  pub peak_portfolio_value : Option F.Value
  pub breaker_daily_pnl : Option (List F.Value)

abbrev same_day : Option ℕ → ℕ → Bool
same_day none d = false
same_day (some e) d = e == d

module _ (F : Float) where
  open F use {Value, lit, neg}

  -- `DRAWDOWN_AUTO_UNHALT_THRESHOLD`
  abbrev pub unhalt_threshold : Value
  unhalt_threshold = neg (lit 5 2)

  abbrev pub or_else : Option Value → Value → Value
  or_else none d = d
  or_else (some x) d = x

module _ (F : Float) {E Signal Trade : Type 0} where
  open F use {Value, lit, neg, add, sub, div}

  abbrev pub on_engines : (E → E) → Actors F E Signal Trade → Actors F E Signal Trade
  on_engines f = map (λ p. (p.0, record (p.1) { engine = f p.1.engine }))

  abbrev pub sum_of : (E → Value) → Actors F E Signal Trade → Value
  sum_of f = foldl (λ total p. add total (f p.1.engine)) (lit 0 0)

  -- `__init__` with a snapshot
  unfoldable pub restart : Snapshot F → Actors F E Signal Trade → Orchestrator F E Signal Trade
  unfolding new_breaker restore_state
  restart s actors =
      let halted = s.emergency_halt in
      record {
        actors = actors;
        emergency_halt = halted;
        halt_reason = if halted then s.halt_reason else none;
        unhalt_recovery_cycles = 0;
        cycles_elapsed = 0;
        peak_portfolio_value = if halted then s.peak_portfolio_value else none;
        cycle_total_equity = none;
        breaker =
            if halted
            then restore_state F s.peak_portfolio_value s.breaker_daily_pnl (new_breaker F)
            else new_breaker F;
        prev_portfolio_value = none;
        last_pnl_date = none;
      }

  -- `reset_emergency_halt`
  unfoldable pub reset_emergency_halt :
      Orchestrator F E Signal Trade → Orchestrator F E Signal Trade
  reset_emergency_halt o = record o {
    emergency_halt = false;
    halt_reason = none;
    unhalt_recovery_cycles = 0;
    actors = map (λ p. (p.0, Actor.reset F E Signal Trade p.1)) o.actors;
  }

  module _ (view : Portfolio F E) where
    -- `_check_auto_unhalt_eligibility`, where the peak is known and positive
    unfoldable pub count_recovery :
        Value → Orchestrator F E Signal Trade → Orchestrator F E Signal Trade
    count_recovery peak o =
        let equity = or_else F o.cycle_total_equity (sum_of view.mtm_value o.actors) in
        let cycles = o.unhalt_recovery_cycles + 1 in
        if le F (unhalt_threshold F) (div (sub equity peak) peak)
        then if leb min_cycles cycles
          then record o {
            emergency_halt = false;
            halt_reason = none;
            unhalt_recovery_cycles = 0;
            actors =
                on_engines (view.set_exposure_multiplier (lit 1 0))
                  (map (λ p. (p.0, Actor.reset F E Signal Trade p.1)) o.actors);
          }
          else record o { unhalt_recovery_cycles = cycles }
        else record o { unhalt_recovery_cycles = 0 }

    unfoldable pub check_auto_unhalt_eligibility :
        Orchestrator F E Signal Trade → Orchestrator F E Signal Trade
    unfolding count_recovery
    check_auto_unhalt_eligibility o =
        if not o.emergency_halt
        then o
        else if not (auto_unhalt_allowed o.halt_reason)
        then o
        else if ltb o.cycles_elapsed 1
        then o
        else elim o.peak_portfolio_value [
          | none ↦ o
          | some peak ↦ if le F peak (lit 0 0) then o else count_recovery peak o
        ]

    -- the equity, the cycle count and the exposure of `_pre_phase_pek`
    unfoldable pub pre_phase : Orchestrator F E Signal Trade → Orchestrator F E Signal Trade
    pre_phase o =
        let equity = sum_of view.mtm_value o.actors in
        let dd : Value = elim o.peak_portfolio_value [
          | none ↦ lit 0 0
          | some peak ↦
              if lt F (lit 0 0) peak then div (sub equity peak) (fmax F peak (lit 1 0)) else lit 0 0
        ] in
        let multiplier = (compute_exposure_multiplier F dd (neg (lit 15 2)) (neg (lit 10 2))).0 in
        record o {
          cycle_total_equity = some equity;
          cycles_elapsed = o.cycles_elapsed + 1;
          actors = on_engines (view.set_exposure_multiplier multiplier) o.actors;
        }

    -- phase 3c, first half: a fall of the value is recorded, once a day
    unfoldable pub record_result :
        ℕ → Value → Orchestrator F E Signal Trade → Orchestrator F E Signal Trade
    record_result today total o =
        let prev = or_else F o.prev_portfolio_value total in
        let due = lt F total prev && not (same_day o.last_pnl_date today) in
        record o {
          breaker = if due then record_daily_pnl F (sub total prev) o.breaker else o.breaker;
          last_pnl_date = if due then some today else o.last_pnl_date;
          prev_portfolio_value = some total;
        }

    -- phase 3c, second half: the breaker is asked
    unfoldable pub ask_breaker :
        Value → Orchestrator F E Signal Trade → Orchestrator F E Signal Trade × Bool
    ask_breaker total o =
        let (breaker, decision) =
          check F (default_config F) total none none (some o.actors) o.breaker in
        if decision.trip
        then (
          record o {
            breaker = breaker;
            emergency_halt = true;
            halt_reason = some (reason_of decision.reason);
            actors = on_engines view.flatten o.actors;
          },
          true,
        )
        else (record o { breaker = breaker }, false)

    -- phases 3a and 3b, and 3c behind them
    unfoldable pub phase_3_breakers :
        ℕ → Orchestrator F E Signal Trade → Orchestrator F E Signal Trade × Bool
    phase_3_breakers today o =
        let healthy = is_system_healthy F (compute_health_snapshot F (map (λ p. p.1) o.actors)) in
        let total = sum_of view.current_value o.actors in
        let peak = fmax F (or_else F o.peak_portfolio_value total) total in
        let dd =
          check_drawdown_circuit_breaker F total peak (neg (lit 15 2)) (neg (lit 10 2)) true in
        let o' = record o { peak_portfolio_value = some peak } in
        if dd.halted
        then (
          record o' {
            emergency_halt = true;
            halt_reason = some HaltReason.drawdown;
            actors =
                on_engines (view.set_exposure_multiplier (lit 0 0))
                  (on_engines view.flatten o.actors);
          },
          true,
        )
        else if not healthy
        then (record o' { emergency_halt = true; halt_reason = some HaltReason.halt_ratio }, true)
        else ask_breaker total (record_result today total o')

    -- a cycle from the pre-phase on
    unfoldable pub run_phases :
        Cycle F E Signal Trade
        → Orchestrator F E Signal Trade
        → Orchestrator F E Signal Trade × CycleResult
    run_phases i o =
        let o1 = pre_phase o in
        let (o2, halted) = phase_3_breakers i.today (record o1 { actors = i.work o1.actors }) in
        if halted then (o2, tripped) else (record o2 { actors = i.rest o2.actors }, completed)

    unfoldable pub run_once :
        Cycle F E Signal Trade
        → Orchestrator F E Signal Trade
        → Orchestrator F E Signal Trade × CycleResult
    run_once i o =
        let o' = if o.emergency_halt then check_auto_unhalt_eligibility o else o in
        if o'.emergency_halt then (o', halt_persistent) else run_phases i o'

    -- Cycles one after another.
    unfoldable pub run_all :
        List (Cycle F E Signal Trade)
        → Orchestrator F E Signal Trade
        → Orchestrator F E Signal Trade
    run_all [] o = o
    run_all (i ∷ is) o = run_all is (run_once i o).0
