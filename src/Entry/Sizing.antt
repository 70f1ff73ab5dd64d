-- ===== src/Entry/Sizing.antt =====
-- shared/sizing_chain.py: how large a position may be.
--
-- A cap that is `float("inf")` is `none`. The rounded values for the report are left out.
use quorrin.Base.{Bool, true, false, ◌&&◌, Option, none, some, if◌then◌else◌, Float, lt, fmax}
use quorrin.Entry.Gate.{drawdown_taper}

pub record SizingInput (F : Float) : Type 0 where
  pub equity : F.Value
  pub drawdown_pct : F.Value
  pub size_scalar : F.Value
  pub kelly_multiplier : F.Value
  pub max_position_pct : F.Value
  pub max_risk_pct : Option F.Value
  pub min_viable_pct : F.Value
  pub drawdown_taper_start : F.Value
  pub drawdown_taper_end : F.Value
  pub drawdown_taper_min : F.Value
  pub entry_price : F.Value
  pub sl_distance : F.Value
  pub is_mt5 : Bool

pub record SizingResult (F : Float) : Type 0 where
  pub notional : F.Value
  pub quantity : F.Value
  pub is_viable : Bool
  -- whether `skip_reason` is "below_min_viable"
  pub below_min_viable : Bool
  pub drawdown_taper : F.Value
  pub effective_cap : F.Value
  pub size_scalar_applied : F.Value
  pub kelly_applied : F.Value
  pub position_cap : Option F.Value
  pub risk_cap_used : Option F.Value
  pub min_viable_notional : F.Value

module _ (F : Float) where
  open F use {Value, lit, mul, div}

  abbrev pub is_positive : Value → Bool
  is_positive x = lt F (lit 0 0) x

  unfoldable pub taper_of : SizingInput F → Value
  unfolding drawdown_taper
  taper_of i =
      drawdown_taper F i.drawdown_pct i.drawdown_taper_start i.drawdown_taper_end
        i.drawdown_taper_min

  -- the share of the equity that a position may take
  unfoldable pub position_pct : SizingInput F → Value
  position_pct i = if i.is_mt5 then fmax F i.max_position_pct (lit 1 0) else i.max_position_pct

  unfoldable pub scalar_of : SizingInput F → Value
  unfolding taper_of position_pct
  scalar_of i =
      if i.is_mt5 then mul (mul (position_pct i) (taper_of i)) i.kelly_multiplier else i.size_scalar

  -- step 1
  unfoldable pub start_notional : SizingInput F → Value
  unfolding taper_of position_pct
  start_notional i =
      if i.is_mt5
      then mul (mul (mul i.equity (position_pct i)) (taper_of i)) i.kelly_multiplier
      else mul i.equity i.size_scalar

  unfoldable pub position_cap : SizingInput F → Option Value
  unfolding position_pct
  position_cap i = if is_positive i.equity then some (mul (position_pct i) i.equity) else none

  abbrev pub exceeds : Value → Option Value → Bool
  exceeds x none = false
  exceeds x (some cap) = lt F cap x

  -- step 2
  unfoldable pub sized : SizingInput F → Value
  unfolding start_notional position_cap
  sized i = elim (position_cap i) [
    | none ↦ start_notional i
    | some cap ↦ if lt F cap (start_notional i) then cap else start_notional i
  ]

  unfoldable pub max_risk_usd : SizingInput F → Option Value
  max_risk_usd i =
      if is_positive i.equity
      then elim i.max_risk_pct [
        | none ↦ none
        | some pct ↦ some (mul (div pct (lit 100 0)) i.equity)
      ]
      else none

  unfoldable pub min_viable_notional : SizingInput F → Value
  min_viable_notional i = if is_positive i.equity then mul i.min_viable_pct i.equity else lit 0 0

  -- what a position loses at its stop
  unfoldable pub risk_usd : SizingInput F → Value → Value
  risk_usd i notional =
      if is_positive i.sl_distance && is_positive i.entry_price
      then mul i.sl_distance (div notional i.entry_price)
      else lit 0 0

  -- the notional whose loss at the stop is the largest risk
  unfoldable pub capped_notional : SizingInput F → Value → Value
  capped_notional i risk =
      mul (if is_positive i.sl_distance then div risk i.sl_distance else lit 0 0) i.entry_price

  unfoldable pub skipped : SizingInput F → SizingResult F
  unfolding taper_of scalar_of position_cap max_risk_usd min_viable_notional
  skipped i = record {
    notional = lit 0 0;
    quantity = lit 0 0;
    is_viable = false;
    below_min_viable = true;
    drawdown_taper = taper_of i;
    effective_cap = i.equity;
    size_scalar_applied = scalar_of i;
    kelly_applied = if i.is_mt5 then i.kelly_multiplier else lit 1 0;
    position_cap = position_cap i;
    risk_cap_used = if is_positive i.equity then max_risk_usd i else some (lit 0 0);
    min_viable_notional = min_viable_notional i;
  }

  unfoldable pub viable : SizingInput F → Value → SizingResult F
  unfolding skipped
  viable i notional = record (skipped i) {
    notional = notional;
    quantity =
        if is_positive i.entry_price
        then fmax F (div notional i.entry_price) (lit 1 6)
        else lit 0 0;
    is_viable = true;
    below_min_viable = false;
  }

  -- step 3 under a largest risk
  unfoldable pub under_risk : SizingInput F → Value → Value → SizingResult F
  unfolding risk_usd capped_notional min_viable_notional skipped viable
  under_risk i risk notional =
      if lt F risk (risk_usd i notional)
      then (if lt F (capped_notional i risk) (min_viable_notional i)
          then skipped i
          else viable i (capped_notional i risk))
      else viable i notional

  -- `SizingChain.compute`
  unfoldable pub compute : SizingInput F → SizingResult F
  unfolding sized max_risk_usd under_risk viable
  compute i = elim (max_risk_usd i) [
    | none ↦ viable i (sized i)
    | some risk ↦ under_risk i risk (sized i)
  ]
