-- ===== src/Entry/TakeProfit/Regimes.antt =====
-- Which regimes count in the distance of the profit.
use quorrin.Base.{String, ◌≡◌, refl, Float}
use quorrin.Base.Dict.{get_default, get}
use quorrin.Entry.TakeProfit.{
  ValidityState, green, yellow, red, value_of, words, validity, TpConfig, geometry,
  compute_take_profit, regime_key, regime_multipliers,
}

-- `lower` on the values of the enumeration
abbrev pub Lowers : (String → String) → Type 0
Lowers lower = (lower "GREEN" ≡ "green") × (lower "YELLOW" ≡ "yellow") × (lower "RED" ≡ "red")

module _ (F : Float) where
  open F use {Value, lit, mul}

  -- the multiplier that the configuration has for a validity
  abbrev pub configured : TpConfig F → ValidityState → Value
  configured c green = c.regime_green
  configured c yellow = c.regime_yellow
  configured c red = c.regime_red

  -- A validity that is given as a member of the enumeration counts with its configured
  -- multiplier. Given as its text, which is what the callers pass, it counts as 1 whatever is
  -- configured, for the text is put into small letters, in which no key of the table is.
  pub compute_take_profit-regime :
      (upper lower : String → String) (c : TpConfig F) (sl_distance override : Value)
      (s : ValidityState) (archetype : String)
      → Lowers lower
      → (compute_take_profit F upper lower c sl_distance (validity s) archetype override
          ≡ geometry F c sl_distance (configured c s) (upper archetype) override)
        × (compute_take_profit F upper lower c sl_distance (words (value_of s)) archetype override
            ≡ geometry F c sl_distance (lit 1 0) (upper archetype) override)
  unfolding compute_take_profit regime_key regime_multipliers value_of get_default get
  compute_take_profit-regime upper lower c sl override green archetype h = (refl, rw h.0 refl)
  compute_take_profit-regime upper lower c sl override yellow archetype h = (refl, rw h.1 refl)
  compute_take_profit-regime upper lower c sl override red archetype h = (refl, rw h.2 refl)
