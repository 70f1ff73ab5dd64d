-- ===== src/Validity.antt =====
-- monitoring/validity_state_machine.py: the capital allocation state machine.
-- `std` is pandas' standard deviation of a series, `none` where that is NaN (fewer than two
-- values). A reason, which the source spells as a text, is a value of `Reason`.
pub mod Hysteresis
pub mod Lock
pub mod Timeline
use quorrin.Base.{
  ℕ, ◌+◌, Bool, true, false, not, Option, none, some, List, [], ◌∷◌, ◌++◌, ◌-◌, ◌&&◌, length, drop,
  ltb, leb, if◌then◌else◌, Float, lt, le,
}

pub data ValidityState : Type 0 where
  green yellow red : ValidityState

-- `==` of the enumeration
abbrev pub same : ValidityState → ValidityState → Bool
same green green = true
same yellow yellow = true
same red red = true
same _ _ = false

pub record Config (F : Float) : Type 0 where
  pub green_entry : F.Value
  pub green_exit : F.Value
  pub yellow_entry : F.Value
  pub yellow_exit : F.Value
  pub red_entry : F.Value
  pub red_exit : F.Value
  pub inertia_alpha : F.Value
  pub inertia_beta : F.Value
  pub regime_lock_periods : ℕ
  pub regime_lock_window : ℕ
  pub green_exposure : F.Value
  pub yellow_exposure : F.Value
  pub red_exposure : F.Value

pub data Reason (F : Float) : Type 0 where
  no_state_change : Reason F
  too_few_periods : ℕ → ValidityState → ℕ → Reason F
  high_volatility : F.Value → Reason F
  persistence_satisfied : Reason F
  hysteresis_transition : Reason F

pub record StateTransition (F : Float) (Time : Type 0) : Type 0 where
  pub from_state : ValidityState
  pub to_state : ValidityState
  pub timestamp : Time
  pub raw_validity : F.Value
  pub smoothed_validity : F.Value
  pub reason : Reason F

pub record Machine (F : Float) (Time : Type 0) : Type 0 where
  pub current_state : ValidityState
  pub previous_smoothed_validity : Option F.Value
  pub state_history : List (StateTransition F Time)
  pub periods_in_current_state : ℕ
  pub last_transition_time : Option Time

-- the dictionary that `transition` returns
pub record Observation (F : Float) (Time : Type 0) : Type 0 where
  pub timestamp : Time
  pub raw_validity : F.Value
  pub smoothed_validity : F.Value
  pub state : ValidityState
  pub exposure : F.Value
  pub transition_occurred : Bool
  pub lock_active : Bool
  pub lock_reason : Option (Reason F)
  pub periods_in_state : ℕ

-- pandas' `series.tail(n)`
abbrev series_tail {ℓ} : {A : Type ℓ} → ℕ → List A → List A
series_tail n xs = drop (length xs - n) xs

-- `exposure_map`
unfoldable pub exposure_of : (F : Float) → Config F → ValidityState → F.Value
exposure_of F c green = c.green_exposure
exposure_of F c yellow = c.yellow_exposure
exposure_of F c red = c.red_exposure

module _ (F : Float) where
  open F use {Value, lit, add, mul}

  -- `_determine_proposed_state`, by the current state
  unfoldable pub determine_proposed_state : Config F → ValidityState → Value → ValidityState
  determine_proposed_state c green v =
      if lt F v c.green_exit then (if le F c.yellow_entry v then yellow else red) else green
  determine_proposed_state c yellow v =
      if le F c.green_entry v then green else if lt F v c.yellow_exit then red else yellow
  determine_proposed_state c red v =
      if le F c.red_exit v then (if le F c.green_entry v then green else yellow) else red

  -- the smoothed value of `_apply_inertia`, which is also stored
  unfoldable pub apply_inertia : Config F → Option Value → Value → Value
  apply_inertia c none raw = raw
  apply_inertia c (some previous) raw = add (mul c.inertia_alpha raw) (mul c.inertia_beta previous)

  module _ (Time : Type 0) (std : List Value → Option Value) where
    abbrev above_limit : Option Value → Bool
    above_limit none = false
    above_limit (some s) = lt F (lit 15 2) s

    abbrev value_or : Option Value → Value → Value
    value_or none d = d
    value_or (some s) d = s

    unfoldable pub check_regime_persistence_lock :
        Config F → Machine F Time → ValidityState → List Value → Bool × Reason F
    check_regime_persistence_lock c m proposed recent =
        let recent_std = std (series_tail c.regime_lock_window recent) in
        if same proposed m.current_state
        then (true, no_state_change)
        else if ltb m.periods_in_current_state c.regime_lock_periods
        then (
          false,
          too_few_periods m.periods_in_current_state m.current_state c.regime_lock_periods,
        )
        else if leb c.regime_lock_window (length recent) && above_limit recent_std
        then (false, high_volatility (value_or recent_std (lit 0 0)))
        else (true, persistence_satisfied)

    -- `transition` once the smoothed value, the proposed state and the lock are known
    unfoldable pub settle :
        Config F
        → Machine F Time
        → Value
        → Time
        → Value
        → ValidityState
        → Bool × Reason F
        → Machine F Time × Observation F Time
    unfolding exposure_of
    settle c m raw timestamp smoothed proposed lock =
        let final_state = if lock.0 then proposed else m.current_state in
        let transition_occurred = not (same final_state m.current_state) in
        let entry : StateTransition F Time = record {
          from_state = m.current_state;
          to_state = final_state;
          timestamp = timestamp;
          raw_validity = raw;
          smoothed_validity = smoothed;
          reason = if lock.0 then hysteresis_transition else lock.1;
        } in
        let periods = if transition_occurred then 0 else m.periods_in_current_state + 1 in
        (
          record {
            current_state = final_state;
            previous_smoothed_validity = some smoothed;
            state_history =
                if transition_occurred then m.state_history ++ entry ∷ [] else m.state_history;
            periods_in_current_state = periods;
            last_transition_time =
                if transition_occurred then some timestamp else m.last_transition_time;
          },
          record {
            timestamp = timestamp;
            raw_validity = raw;
            smoothed_validity = smoothed;
            state = final_state;
            exposure = exposure_of F c final_state;
            transition_occurred = transition_occurred;
            lock_active = not lock.0;
            lock_reason = if lock.0 then none else some lock.1;
            periods_in_state = periods;
          },
        )

    abbrev given_series : Option (List Value) → Value → List Value
    given_series none raw = raw ∷ []
    given_series (some recent) raw = recent

    unfoldable pub transition :
        Config F
        → Machine F Time
        → Value
        → Time
        → Option (List Value)
        → Machine F Time × Observation F Time
    unfolding settle
    transition c m raw timestamp recent_validity =
        let smoothed = apply_inertia c m.previous_smoothed_validity raw in
        let proposed = determine_proposed_state c m.current_state smoothed in
        let lock = check_regime_persistence_lock c m proposed (given_series recent_validity raw) in
        settle c m raw timestamp smoothed proposed lock

    -- the values that `__init__` and `reset` give the fields of the state
    unfoldable pub reset : Machine F Time → Machine F Time
    reset m = record {
      current_state = yellow;
      previous_smoothed_validity = none;
      state_history = [];
      periods_in_current_state = 0;
      last_transition_time = none;
    }

    -- the loop of `process_timeline`; `seen` holds the validity column above the row
    unfoldable pub process_rows :
        Config F
        → Machine F Time
        → List Value
        → List (Time × Value)
        → Machine F Time × List (Observation F Time)
    process_rows c m seen [] = (m, [])
    process_rows c m seen ((timestamp, raw) ∷ rows) =
        let recent = seen ++ raw ∷ [] in
        let (m', result) = transition c m raw timestamp (some recent) in
        let (end, results) = process_rows c m' recent rows in (end, result ∷ results)

    unfoldable pub process_timeline :
        Config F → Machine F Time → List (Time × Value) → Machine F Time × List (Observation F Time)
    unfolding process_rows reset
    process_timeline c m rows = process_rows c (reset m) [] rows
