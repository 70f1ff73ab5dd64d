-- ===== src/Orchestrator/Recovery.antt =====
-- paper_trading/orchestrator/health.py: `RecoveryScheduler`, the backoff of halted actors. The
-- clock is an argument.
pub mod Backoff
use quorrin.Base.{
  ℕ, ◌+◌, ◌^◌, String, Bool, Option, none, some, List, [], ◌∷◌, ◌++◌, if◌then◌else◌, Float, le,
  fmin,
}
use quorrin.Base.Dict.{Dict, get_default, put, remove}

pub record RecoveryAttempt (F : Float) : Type 0 where
  pub asset : String
  pub attempt_time : F.Value
  pub success : Bool
  pub error : String

pub record RecoveryScheduler (F : Float) : Type 0 where
  pub base_delay : F.Value
  pub max_delay : F.Value
  pub attempts : Dict ℕ
  pub last_probe : Dict F.Value
  pub history : List (RecoveryAttempt F)

module _ (F : Float) where
  open F use {Value, lit, of_int, mul, sub}

  -- the delay: `none` is the OverflowError of the power's conversion to a float
  unfoldable pub delay_after : ℕ → RecoveryScheduler F → Option Value
  delay_after n s = elim (of_int (2 ^ n)) [
    | none ↦ none
    | some power ↦ some (fmin F (mul s.base_delay power) s.max_delay)
  ]

  unfoldable pub is_due : Value → String → RecoveryScheduler F → Option Bool
  unfolding delay_after
  is_due now asset s =
      let last = get_default asset (lit 0 0) s.last_probe in
      elim (delay_after (get_default asset 0 s.attempts) s) [
        | none ↦ none
        | some delay ↦ some (le F delay (sub now last))
      ]

  -- `record_result`: `now` is read for the history, and `later` again for the probe
  unfoldable pub record_result :
      Value → Value → String → Bool → String → RecoveryScheduler F → RecoveryScheduler F
  record_result now later asset success error s =
      let attempt : RecoveryAttempt F = record {
        asset = asset;
        attempt_time = now;
        success = success;
        error = error;
      } in
      let failed = get_default asset 0 s.attempts + 1 in
      record s {
        history = s.history ++ attempt ∷ [];
        attempts = put asset (if success then 0 else failed) s.attempts;
        last_probe = if success then s.last_probe else put asset later s.last_probe;
      }

  unfoldable pub reset : String → RecoveryScheduler F → RecoveryScheduler F
  reset asset s = record s {
    attempts = remove asset s.attempts;
    last_probe = remove asset s.last_probe;
  }
