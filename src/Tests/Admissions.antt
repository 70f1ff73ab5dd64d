-- ===== src/Tests/Admissions.antt =====
-- The admission of signals.
use quorrin.Base.{ℕ, String, false, List, [], ◌∷◌}
use quorrin.Base.Dict.{Dict}
use quorrin.Base.Fixed.{fixed}
use quorrin.Admission.Contracts.{AdmissionSignal, AdmissionConfig, PortfolioStateSnapshot, long}
use quorrin.Tests.Data.{whole}

abbrev pub groups : Dict (List String)
groups = ("EUR", "EURUSD" ∷ []) ∷ []

abbrev signal : String → ℕ → ℕ → AdmissionSignal fixed
signal asset notional prob = record {
  asset = asset;
  side = long;
  entry_price = whole 1;
  stop_loss = whole 0;
  take_profit = whole 0;
  sl_distance_pct = whole 0;
  tp_distance_pct = whole 0;
  notional_requested = whole notional;
  risk_usd = whole 5;
  calibrated_prob = fixed.lit prob 2;
  expected_value_r = whole 0;
  tp_sl_ratio = whole 2;
  regime_confidence = fixed.lit 5 1;
  deferred_cycles = 0;
  feature_hash = "";
}

abbrev pub config : AdmissionConfig fixed
config = record {
  ranking_enabled = false;
  w_prob = fixed.lit 30 2;
  w_ev = fixed.lit 25 2;
  w_rr = fixed.lit 20 2;
  w_regime = fixed.lit 15 2;
  w_corr = fixed.neg (fixed.lit 10 2);
  deferred_decay = fixed.lit 90 2;
  stale_after = 5;
}

abbrev portfolio : PortfolioStateSnapshot fixed
portfolio = record {
  total_equity = whole 1000;
  drawdown_pct = whole 0;
  daily_loss_remaining = whole 50;
  max_daily_loss = whole 50;
  leverage_remaining = whole 500;
  concurrent_remaining = 1;
  factor_headroom = [];
  clusters = [];
  asset_gates = [];
}

abbrev pub candidates : List (AdmissionSignal fixed)
candidates = signal "EURUSD" 100 55 ∷ signal "GC" 200 60 ∷ []
