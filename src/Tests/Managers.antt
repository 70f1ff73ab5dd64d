-- ===== src/Tests/Managers.antt =====
-- The position manager, the trailing stop and the scale-out plan.
use quorrin.Base.{ℕ, ◌≡◌, ◌↔◌, ◌⊎◌, refl, String, false, Option, none, some, List, [], ◌∷◌, arith}
use quorrin.Base.Fixed.{fixed}
use quorrin.Position.{long}
use quorrin.Position.Envelope.{Protects}
use quorrin.Position.Manager.{close, check_sl_tp}
use quorrin.Position.Manager.Records.{PositionManager, Days, ExitReason, after}
use quorrin.Position.Manager.Accounts.{
  Call, open_call, close_call, partial_call, FractionLaws, IsSound, run_calls, run_calls-IsSound,
}
use quorrin.Position.Manager.Exits.{InRange, IsExit, check_sl_tp_verdict, CloseResult, close-result}
use quorrin.Position.AdaptiveExit
use quorrin.Position.AdaptiveExit.{AdaptiveExitConfig, Bar, compute}
use quorrin.Position.AdaptiveExit.Tightening.{ride, ride-Protects}
use quorrin.Position.ScaleOut.{ScaleOutEngine, ScaleOutPlan, ScaleOutTier, Quote, check_tiers}
use quorrin.Position.ScaleOut.Tiers.{Filled, check_tiers-Filled}
use quorrin.Tests.Data.{whole}
use quorrin.Tests.Positions.{position}

laws : FractionLaws fixed
laws = record { zero_le_one = omega arith; sub_le = λ x y h. omega arith }

abbrev days_between : String → String → Option Days
days_between from to = some (after 3)

abbrev flat : PositionManager fixed
flat = record {
  initial_capital = whole 1000;
  current_value = whole 1000;
  peak_value = whole 1000;
  position_size = whole 1;
  exposure_multiplier = whole 1;
  position = none;
  trade_log = [];
  scale_out_active = false;
  scale_out_breakeven = none;
  remaining_fraction = whole 1;
  partial_closes = [];
  regime = "neutral";
  volatility_state = "normal";
}

abbrev open_manager : PositionManager fixed
open_manager = record flat { position = some position }

flat-IsSound : IsSound fixed days_between flat
flat-IsSound = record { below_peak = omega arith; bounded = omega arith; remains = omega arith }

abbrev calls : List (Call fixed)
calls =
    open_call position
    ∷ partial_call (fixed.lit 25 2) (whole 110) "today" "tier"
    ∷ close_call (some (whole 105)) "later" "manual"
    ∷ []

run_calls-IsSound_example : IsSound fixed days_between (run_calls fixed days_between calls flat)
run_calls-IsSound_example = run_calls-IsSound fixed days_between laws calls flat flat-IsSound

check_sl_tp_verdict_example :
    ((check_sl_tp fixed (some (whole 97)) open_manager ≡ none) ↔ (
      (some (whole 97) ≡ none)
      ⊎ ((price : ℕ) × (some (whole 97) ≡ some price) × InRange fixed position price open_manager)))
    × ((r : ExitReason × ℕ)
        → check_sl_tp fixed (some (whole 97)) open_manager ≡ some r
        → (price : ℕ) × (some (whole 97) ≡ some price) × IsExit fixed position price open_manager r)
check_sl_tp_verdict_example = check_sl_tp_verdict fixed (some (whole 97)) open_manager position refl

close-result_example :
    CloseResult fixed
      (some (whole 105))
      open_manager
      (some position)
      (close fixed days_between (some (whole 105)) "later" "manual" open_manager)
close-result_example =
    close-result fixed days_between (some (whole 105)) "later" "manual" open_manager

abbrev config : AdaptiveExitConfig fixed
config = record {
  be_lock_r = fixed.lit 5 1;
  trail_activation_r = fixed.lit 8 1;
  trail_retrace_pct = fixed.lit 5 1;
  max_hold_candles = 40;
  time_decay_start = 20;
}

abbrev path : List (ℕ × ℕ × ℕ)
path = (whole 103, fixed.lit 1 2, 4) ∷ (whole 106, fixed.lit 1 2, 5) ∷ []

ride-Protects_example :
    Protects fixed long
      (ride fixed config long (whole 100) path (whole 98) (AdaptiveExit.reset fixed))
      (whole 98)
ride-Protects_example =
    ride-Protects fixed config long (whole 100) path (whole 98) (AdaptiveExit.reset fixed)

abbrev tier : ℕ → ScaleOutTier fixed
tier price = record {
  fraction = fixed.lit 5 1;
  price = whole price;
  filled = false;
  fill_price = none;
  pnl_realized = whole 0;
}

abbrev plan : ScaleOutPlan fixed
plan = record {
  tiers = tier 105 ∷ tier 110 ∷ [];
  entry_price = whole 100;
  breakeven_activated = false;
  breakeven_price = none;
  remaining_fraction = whole 1;
}

abbrev engine : ScaleOutEngine fixed
engine = record { activate_breakeven_after = 0; trailing_after_tier = none }

abbrev quote : ℕ → Quote fixed
quote price = record {
  current_price = whole price;
  current_value = whole 1000;
  position_size = whole 1;
  exposure_mult = whole 1;
}

check_tiers-Filled_example :
    Filled fixed long
      (whole 100)
      (quote 106)
      plan.tiers
      (check_tiers fixed engine long (quote 106) plan).0.tiers
check_tiers-Filled_example = check_tiers-Filled fixed engine long (quote 106) plan
