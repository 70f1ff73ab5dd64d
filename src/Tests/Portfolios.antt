-- ===== src/Tests/Portfolios.antt =====
-- The states that a cycle is decided on: of the portfolio, of the performance, of an asset.
use quorrin.Base.{◌≡◌, true, false, ◌&&◌, none, some, ℕ, List, [], ◌∷◌, arith, String}
use quorrin.Base.Fixed.{fixed}
use quorrin.Position.{long}
use quorrin.Admission.Contracts.{all_ok}
use quorrin.Portfolio.{Actors, compute_asset_gates}
use quorrin.Portfolio.Views.{EngineView, FactorModel, PortfolioMode}
use quorrin.Portfolio.Gates.{behind, compute_asset_gates-behind}
use quorrin.Performance
use quorrin.Performance.{PersistCommand}
use quorrin.Performance.Trackers.{Outcome, new_tracker}
use quorrin.Performance.Outcomes.{record_trades, of_history, record_trades-of_history}
use quorrin.Governance.Registry.{new_registry}
use quorrin.Governance.Registry.Windows.{Closed, Holds, record_all, record_all-Holds}
use quorrin.Tests.Data.{whole}
use quorrin.Tests.Admissions.{groups}
use quorrin.Tests.Pipelines.{inputs, asset}

-- An engine that holds a long position.
abbrev engine : EngineView fixed
engine = record {
  mtm_value = whole 1000;
  position = some (record { side = long; entry_price = whole 100; stop_loss = whole 98 });
  last_entry_notional = whole 200;
  last_spread_bps = some (whole 5);
  spread_tier = "fx_major";
  last_confidence = some (whole 60);
  risk_off = false;
  last_gates_trace = [];
}

abbrev mode : PortfolioMode fixed
mode = record {
  max_daily_loss_pct = none;
  max_drawdown_pct = fixed.neg (fixed.lit 15 2);
  max_leverage = whole 2;
  max_concurrent_positions = 2;
}

abbrev model : FactorModel fixed
model = record { factor_groups = groups; factor_limits = [] }

abbrev actors : Actors fixed
actors = ("EURUSD", some engine) ∷ ("GBPUSD", none) ∷ []

compute_asset_gates-behind_example :
    (let g = compute_asset_gates fixed ("NQ" ∷ []) 9 "EURUSD" (behind fixed inputs asset engine) in
      (g.hysteresis_ok ≡ true)
      × (g.conviction_ok ≡ true)
      × (all_ok g
          ≡ (g.spread_ok && g.session_ok && g.sell_only_ok && g.confidence_ok && g.risk_off_ok)))
compute_asset_gates-behind_example =
    compute_asset_gates-behind fixed inputs asset engine ("NQ" ∷ []) 9 "EURUSD"

abbrev outcome : String → Outcome fixed
outcome exit_reason = record {
  exit_reason = exit_reason;
  r_multiple = whole 1;
  mae_pct = whole 0;
  mfe_pct = whole 0;
}

abbrev trades : List (Outcome fixed)
trades = outcome "TP" ∷ outcome "SL" ∷ outcome "SL" ∷ outcome "manual" ∷ []

-- A window of two has forgotten the win, and the streak counts on.
record_trades-of_history_example :
    record_trades fixed trades (new_tracker fixed 2) ≡ of_history fixed 2 trades
record_trades-of_history_example = record_trades-of_history fixed 2 trades (omega arith)

-- A trade closed at its target in the second cycle, and one at its stop in the last.
abbrev traded : String → PersistCommand
traded reason = record { kind = "trade"; exit_reason = reason }

abbrev cycles : List (ℕ × List PersistCommand)
cycles = (whole 1000, []) ∷ (whole 950, traded "TP" ∷ []) ∷ []

-- Six short trades, two of which ended at the target, and one that does not count.
abbrev closed : String → String → Closed
closed reason side = record { asset = "GC"; reason = reason; side = side }

abbrev short_trades : List Closed
short_trades =
    closed "TP" "short"
    ∷ closed "SL" "short"
    ∷ closed "SL" "short"
    ∷ closed "TP" "long"
    ∷ closed "SL" "short"
    ∷ closed "TP" "short"
    ∷ closed "SL" "short"
    ∷ []

record_all-Holds_example :
    Holds fixed (λ t. t) short_trades (record_all fixed (λ t. t) short_trades new_registry)
record_all-Holds_example = record_all-Holds fixed (λ t. t) short_trades
