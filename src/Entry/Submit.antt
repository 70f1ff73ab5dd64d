-- ===== src/Entry/Submit.antt =====
-- paper_trading/services/entry_service.py (_submit_to_broker, _compute_mt5_qty,
-- _submit_mt5_order, composite_size_scalar) and paper_trading/governance/multipliers.py: from a
-- checked signal to an order.
--
-- The MT5 terminal is an argument, as are the fills of the paper bridge. `none` stands for what
-- a call of theirs raises, and for a None or a NaN that it returns.
pub mod Records
use Prim.Native.String.{slice, ◌++◌}
use text.Mathlib.Text.{◌==◌ as str_eq, starts_with, find?}
use quorrin.Base.{
  ℕ, String, Bool, true, false, not, ◌&&◌, Option, none, some, List, [], ◌∷◌, if◌then◌else◌, Float,
  lt, le, fmax, fmin, fabs,
}
use quorrin.Position.{PositionSide, long, short}
use quorrin.Entry.Gate.{drawdown_taper, effective_capital}
use quorrin.Entry.Opening.{positive}
use quorrin.Entry.Sizing.{SizingInput, is_positive, compute}
use quorrin.Entry.Submit.Records.{
  Layers, Multipliers, SizeConfig, Paper, Mt5, Submission, Bridge, no_bridge, paper, real,
}

module _ (F : Float) where
  open F use {Value, lit, sub, mul, div}

  unfoldable pub compute_effective_multipliers : Layers F → Multipliers F
  compute_effective_multipliers l = record {
    sl =
        fmin F (mul (mul (mul l.base_sl l.regime_sl) l.narrative_sl_mult) l.liquidity_sl_mult)
          (lit 10 0);
    tp = fmin F (mul l.base_tp l.regime_tp) (lit 20 0);
    size = fmax F (mul l.narrative_size_scalar l.liquidity_size_scalar) (lit 3 1);
  }

  unfoldable pub taper : SizeConfig F → Value
  unfolding drawdown_taper
  taper c = drawdown_taper F c.drawdown_pct c.taper_start c.taper_end c.taper_min

  unfoldable pub composite_size_scalar : Paper F → Value
  unfolding compute_effective_multipliers taper
  composite_size_scalar p =
      mul
        (mul
          (mul (mul (mul p.position_size p.exposure_multiplier) (lit 1 0)) p.meta_size_multiplier)
          (compute_effective_multipliers p.layers).size)
        (taper p.config)

  unfoldable pub paper_input : Paper F → Value → Value → SizingInput F
  unfolding composite_size_scalar effective_capital
  paper_input p price stop = record {
    equity = effective_capital F p.initial_capital p.capital_base p.current_value;
    drawdown_pct = p.config.drawdown_pct;
    size_scalar = composite_size_scalar p;
    kelly_multiplier = lit 1 0;
    max_position_pct = p.config.max_position_pct;
    max_risk_pct = some p.config.max_risk_pct;
    min_viable_pct = p.config.min_viable_pct;
    drawdown_taper_start = p.config.taper_start;
    drawdown_taper_end = p.config.taper_end;
    drawdown_taper_min = p.config.taper_min;
    entry_price = price;
    sl_distance = fabs F (sub stop price);
    is_mt5 = false;
  }

  -- the paper path of `_submit_to_broker`
  unfoldable pub submit_paper : Paper F → PositionSide → Value → Value → Submission F
  unfolding paper_input compute
  submit_paper p side price stop =
      let result = compute F (paper_input p price stop) in
      let fill = p.fill_price side result.quantity price in
      if result.is_viable
      then record {
        fill_price = some fill.0;
        slippage_bps = fill.1;
        mt5_ticket = none;
        ordered = some result.quantity;
      }
      else record { fill_price = none; slippage_bps = lit 0 0; mt5_ticket = none; ordered = none }

  unfoldable pub mt5_input : Mt5 F → Value → Value → Value → SizingInput F
  mt5_input m equity price stop = record {
    equity = equity;
    drawdown_pct = m.config.drawdown_pct;
    size_scalar = lit 1 0;
    kelly_multiplier = m.kelly_multiplier;
    max_position_pct = m.config.max_position_pct;
    max_risk_pct = if m.enable_max_risk then some m.config.max_risk_pct else none;
    min_viable_pct = m.config.min_viable_pct;
    drawdown_taper_start = m.config.taper_start;
    drawdown_taper_end = m.config.taper_end;
    drawdown_taper_min = m.config.taper_min;
    entry_price = price;
    sl_distance = fabs F (sub stop price);
    is_mt5 = true;
  }

  abbrev is_pair : String → Bool
  is_pair ticker = elim (find? ticker "=X") [ none ↦ false | some n ↦ true ]

  -- the rate from the base of a pair to the currency of the account
  unfoldable pub base_to_acc : Mt5 F → Value → Value
  base_to_acc m price =
      if starts_with m.ticker "USD" && is_pair m.ticker
      then lit 1 0
      else if is_pair m.ticker && not (str_eq (slice m.ticker 3 6) "USD")
      then elim (positive F (m.get_current_price (slice m.ticker 0 3 ++ "USD=X"))) [
        | none ↦ price
        | some rate ↦ rate
      ]
      else price

  -- the bump to the smallest lot, unless the cap of the risk forbids it
  unfoldable pub bump : Mt5 F → Value → Value
  bump m qty = elim m.min_viable_qty [
    | none ↦ qty
    | some least ↦
        if is_positive F least
          && is_positive F qty
          && lt F qty least
          && not (m.enable_max_risk && not m.bypass_at_min_lot)
        then least
        else qty
  ]

  -- `_compute_mt5_qty`
  unfoldable pub compute_mt5_qty : Mt5 F → Value → Value → Value
  unfolding mt5_input compute base_to_acc bump
  compute_mt5_qty m price stop = elim (positive F m.portfolio_value) [
    | none ↦ lit 0 0
    | some equity ↦
        let result = compute F (mt5_input m equity price stop) in
        if result.is_viable then bump m (div result.notional (base_to_acc m price)) else lit 0 0
  ]

  -- the signal's price as the fill of an order that was not sent
  unfoldable pub unordered : Value → Option ℕ → Submission F
  unordered price ticket = record {
    fill_price = some price;
    slippage_bps = lit 0 0;
    mt5_ticket = ticket;
    ordered = none;
  }

  -- the order of a normalized quantity
  unfoldable pub send_order : Mt5 F → PositionSide → Value → Value → Value → Value → Submission F
  send_order m side qty price stop target =
      let answer = m.submit_market_order side qty price stop target in
      elim answer.1 [
        | none ↦ record {
          fill_price = none;
          slippage_bps = lit 0 0;
          mt5_ticket = none;
          ordered = some qty;
        }
        | some ticket ↦ record {
          fill_price = some answer.0;
          slippage_bps = lit 0 0;
          mt5_ticket = some ticket;
          ordered = some qty;
        }
      ]

  -- `_submit_mt5_order`
  unfoldable pub submit_mt5_order : Mt5 F → PositionSide → Value → Value → Value → Submission F
  unfolding compute_mt5_qty unordered send_order
  submit_mt5_order m side price stop target =
      let qty = compute_mt5_qty m price stop in
      let normalized = m.normalize_volume qty in
      let send = send_order m side normalized price stop target in
      if le F qty (lit 0 0)
      then unordered price none
      else if le F normalized (lit 0 0)
      then unordered price none
      else elim m.matching [
        | [] ↦ send
        | t ∷ ts ↦
            if m.is_stack
            then send
            else if m.paper_untracked
            then unordered price (some t)
            else unordered price none
      ]

  -- `_submit_to_broker`
  unfoldable pub submit_to_broker : Bridge F → PositionSide → Value → Value → Value → Submission F
  unfolding submit_paper submit_mt5_order unordered
  submit_to_broker no_bridge side price stop target = unordered price none
  submit_to_broker (paper p) side price stop target = submit_paper p side price stop
  submit_to_broker (real m) side price stop target = submit_mt5_order m side price stop target
