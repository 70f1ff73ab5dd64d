-- ===== src/Validity/Hysteresis.antt =====
-- The hysteresis bands of `_determine_proposed_state`.
use quorrin.Base.{◌≤◌, ◌≡◌, ◌⊎◌, ◌↔◌, arith, Float}
use quorrin.Validity.{ValidityState, green, yellow, red, Config, determine_proposed_state}

-- What the default thresholds satisfy: no exit lies above the entry that it belongs to.
pub record IsOrdered (F : Float) (c : Config F) : Type 0 where
  pub green_band : F.key c.green_exit ≤ F.key c.green_entry
  pub yellow_band : F.key c.yellow_exit ≤ F.key c.yellow_entry
  pub red_band : F.key c.yellow_entry ≤ F.key c.red_exit
  pub red_below_green : F.key c.red_exit ≤ F.key c.green_entry

module _ (F : Float) (c : Config F) (ordered : IsOrdered F c) where
  -- With ordered thresholds one validity score settles the state at once: the state proposed
  -- from a proposed state at the same score is that state, so a constant score never makes the
  -- machine swing between two states.
  pub determine_proposed_state_settles :
      (s : ValidityState) (v : F.Value)
      → determine_proposed_state F c (determine_proposed_state F c s v) v
        ≡ determine_proposed_state F c s v
  unfolding determine_proposed_state
  determine_proposed_state_settles green v = ground arith
  determine_proposed_state_settles yellow v = ground arith
  determine_proposed_state_settles red v = ground arith

  -- With ordered thresholds GREEN is proposed exactly when the score reaches the entry
  -- threshold, or the state is GREEN already and the score has not fallen below the exit
  -- threshold.
  pub determine_proposed_state-green_iff :
      (s : ValidityState) (v : F.Value)
      → (determine_proposed_state F c s v ≡ green)
        ↔ ((F.key c.green_entry ≤ F.key v) ⊎ ((s ≡ green) × (F.key c.green_exit ≤ F.key v)))
  unfolding determine_proposed_state
  determine_proposed_state-green_iff green v = ground arith
  determine_proposed_state-green_iff yellow v = ground arith
  determine_proposed_state-green_iff red v = ground arith
