-- ===== src/Tests/Validities.antt =====
-- The validity state machine.
use quorrin.Base.{ℕ, ◌+◌, ◌*◌, ◌≤◌, ◌≡◌, refl, Option, none, List, [], ◌∷◌, arith, length}
use quorrin.Base.Fixed.{fixed}
use quorrin.Validity.{
  green, yellow, Config, Machine, determine_proposed_state, transition, process_timeline,
  check_regime_persistence_lock, apply_inertia,
}
use quorrin.Validity.Hysteresis.{IsOrdered}
use quorrin.Validity.Lock.{Leads}
use quorrin.Validity.Timeline.{process_timeline-IsAccounted}

abbrev pct : ℕ → ℕ
pct n = fixed.lit n 2

-- The defaults of `__init__`, with a lock of two periods.
abbrev config : Config fixed
config = record {
  green_entry = pct 70;
  green_exit = pct 60;
  yellow_entry = pct 45;
  yellow_exit = pct 40;
  red_entry = pct 40;
  red_exit = pct 50;
  inertia_alpha = pct 70;
  inertia_beta = pct 30;
  regime_lock_periods = 2;
  regime_lock_window = 10;
  green_exposure = pct 100;
  yellow_exposure = pct 50;
  red_exposure = pct 0;
}

abbrev machine : Machine fixed ℕ
machine = record {
  current_state = yellow;
  previous_smoothed_validity = none;
  state_history = [];
  periods_in_current_state = 3;
  last_transition_time = none;
}

abbrev no_std : List ℕ → Option ℕ
no_std xs = none

config-IsOrdered : IsOrdered fixed config
config-IsOrdered = omega arith

abbrev rows : List (ℕ × ℕ)
rows = (1, pct 80) ∷ (2, pct 80) ∷ (3, pct 80) ∷ (4, pct 30) ∷ []

timeline_state : (process_timeline fixed ℕ no_std config machine rows).0.current_state ≡ green
unfolding process_timeline transition determine_proposed_state check_regime_persistence_lock
    apply_inertia
timeline_state = refl

process_timeline-IsAccounted_example :
    let m = (process_timeline fixed ℕ no_std config machine rows).0 in
    (length m.state_history * 3 + m.periods_in_current_state ≤ length rows)
    × Leads yellow m.state_history m.current_state
process_timeline-IsAccounted_example =
    process_timeline-IsAccounted fixed ℕ no_std config machine rows
