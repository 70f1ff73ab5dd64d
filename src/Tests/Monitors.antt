-- ===== src/Tests/Monitors.antt =====
-- The health monitor over two actors, one of which is halted.
use quorrin.Base.{ℕ, ◌≤◌, some, none, List, [], ◌∷◌, length, arith}
use quorrin.Base.Fixed.{fixed}
use quorrin.Orchestrator.Actor.Records.{Actors, green, halted}
use quorrin.Orchestrator.Monitor.{MonitorConfig, Clock, PortfolioView, new_monitor}
use quorrin.Orchestrator.Monitor.Throttle.{Call, Spaced, observe_all, observe_all-Spaced}
use quorrin.Tests.Data.{whole, actor}

abbrev fleet : Actors fixed ℕ ℕ ℕ
fleet = ("EURUSD", actor 100 green) ∷ ("GC", actor 50 halted) ∷ []

abbrev config : MonitorConfig fixed
config = record {
  max_halt_ratio = fixed.lit 5 1;
  max_drawdown = fixed.lit 25 2;
  vol_spike_threshold = whole 3;
  history_window = 2;
  drawdown_text = λ x. "drawdown";
  vol_text = λ x. "vol";
  halt_text = λ x. "halt";
}

abbrev at : ℕ → Clock fixed
at t = record { timestamp = whole t; asked = λ text. whole t; noted = λ text. whole t }

abbrev fallen : PortfolioView fixed
fallen = record {
  value = some (whole 60);
  peak = some (whole 100);
  vol = none;
  baseline_vol = none;
}

-- The second call is too early, the third is not.
abbrev calls : List (Call fixed ℕ ℕ ℕ config)
calls = (at 70, fleet, fallen) ∷ (at 100, fleet, fallen) ∷ (at 140, fleet, fallen) ∷ []

observe_all-Spaced_example :
    let (m, log) = observe_all fixed ℕ ℕ ℕ config calls new_monitor [] in
    Spaced fixed log × (length m.history ≤ 2)
observe_all-Spaced_example = observe_all-Spaced fixed ℕ ℕ ℕ config calls (omega arith)
