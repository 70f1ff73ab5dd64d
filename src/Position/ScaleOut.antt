-- ===== src/Position/ScaleOut.antt =====
-- paper_trading/position/scale_out.py: the tiers of a partial profit-taking plan.
pub mod Tiers
use quorrin.Base.{
  ℕ, suc, ◌+◌, Bool, true, false, not, ◌&&◌, Option, none, some, List, [], ◌∷◌, ◌++◌, map, ltb,
  if◌then◌else◌, Float, lt, le, fabs,
}
use quorrin.Position.{PositionSide, long, short}

pub record ScaleOutTier (F : Float) : Type 0 where
  pub fraction : F.Value
  pub price : F.Value
  pub filled : Bool
  pub fill_price : Option F.Value
  pub pnl_realized : F.Value

pub record ScaleOutPlan (F : Float) : Type 0 where
  pub tiers : List (ScaleOutTier F)
  pub entry_price : F.Value
  pub breakeven_activated : Bool
  pub breakeven_price : Option F.Value
  pub remaining_fraction : F.Value

pub record ScaleOutEngine (F : Float) : Type 0 where
  pub activate_breakeven_after : ℕ
  pub trailing_after_tier : Option ℕ

-- One of the trades that `check_tiers` returns, by its reason; a tier's has its number, which
-- counts from 1.
pub data Fill (F : Float) : Type 0 where
  scale_out_tier : ℕ → F.Value → F.Value → F.Value → Fill F
  breakeven_stop_activated : F.Value → Fill F
  trailing_activated : Fill F

-- The market of one call of `check_tiers`.
pub record Quote (F : Float) : Type 0 where
  pub current_price : F.Value
  pub current_value : F.Value
  pub position_size : F.Value
  pub exposure_mult : F.Value

module _ (F : Float) where
  open F use {Value, lit, add, sub, mul, div}

  unfoldable pub sum_fractions : List (Value × Value) → Value → Value
  sum_fractions [] total = total
  sum_fractions ((f, m) ∷ rest) total = sum_fractions rest (add total f)

  abbrev sums_to_one : List (Value × Value) → Bool
  sums_to_one specs = not (lt F (lit 1 6) (fabs F (sub (sum_fractions specs (lit 0 0)) (lit 1 0))))

  -- the fallback of `build_plan`
  unfoldable pub balanced : List (Value × Value)
  balanced =
      let third = div (lit 1 0) (lit 3 0) in
      (third, lit 50 2) ∷ (third, lit 1 0) ∷ (third, lit 150 2) ∷ []

  unfoldable pub new_tier : PositionSide → Value → Value → Value × Value → ScaleOutTier F
  new_tier side entry distance (fraction, mult) = record {
    fraction = fraction;
    price = elim side [
      | long ↦ add entry (mul distance mult)
      | short ↦ sub entry (mul distance mult)
    ];
    filled = false;
    fill_price = none;
    pnl_realized = lit 0 0;
  }

  -- `build_plan`; `none` is the ValueError of fractions that do not sum to one
  unfoldable pub build_plan :
      PositionSide → Value → Value → Option (List (Value × Value)) → Option (ScaleOutPlan F)
  unfolding balanced sum_fractions new_tier
  build_plan side entry take_profit given =
      let specs : List (Value × Value) = elim given [ none ↦ balanced | some s ↦ s ] in
      if sums_to_one specs
      then some (record {
        tiers = map (new_tier side entry (fabs F (sub take_profit entry))) specs;
        entry_price = entry;
        breakeven_activated = false;
        breakeven_price = none;
        remaining_fraction = lit 1 0;
      })
      else none

  abbrev pub hits : PositionSide → Value → ScaleOutTier F → Bool
  hits long price t = le F t.price price
  hits short price t = le F price t.price

  unfoldable pub tier_pnl : PositionSide → Value → Quote F → ScaleOutTier F → Value
  tier_pnl side entry q t =
      let gain : Value = elim side [
        | long ↦ sub (div q.current_price entry) (lit 1 0)
        | short ↦ sub (div entry q.current_price) (lit 1 0)
      ] in
      mul (mul (mul (mul q.current_value gain) q.position_size) q.exposure_mult) t.fraction

  -- a tier that is reached, as it is left by the loop
  unfoldable pub fill_tier : PositionSide → Value → Quote F → ScaleOutTier F → ScaleOutTier F
  unfolding tier_pnl
  fill_tier side entry q t = record t {
    filled = true;
    fill_price = some q.current_price;
    pnl_realized = tier_pnl side entry q t;
  }

  abbrev pub is_due : PositionSide → Quote F → ScaleOutTier F → Bool
  is_due side q t = not t.filled && hits side q.current_price t

  -- the loop over the tiers, from number `n` on
  unfoldable pub fill_tiers :
      PositionSide
      → Value
      → Quote F
      → ℕ
      → List (ScaleOutTier F)
      → Value
      → List (ScaleOutTier F) × List (Fill F) × Value
  unfolding fill_tier
  fill_tiers side entry q n [] remaining = ([], [], remaining)
  fill_tiers side entry q n (t ∷ ts) remaining =
      let due = is_due side q t in
      let t' = fill_tier side entry q t in
      let left = if due then sub remaining t.fraction else remaining in
      let (ts', fills, rest) = fill_tiers side entry q (n + 1) ts left in
      if due
      then (
        t' ∷ ts',
        scale_out_tier (n + 1) t.fraction q.current_price t'.pnl_realized ∷ fills,
        rest,
      )
      else (t ∷ ts', fills, rest)

  -- `sum(1 for t in plan.tiers if t.filled)`
  abbrev pub n_filled : List (ScaleOutTier F) → ℕ
  n_filled [] = 0
  n_filled (t ∷ ts) = (if t.filled then 1 else 0) + n_filled ts

  abbrev pub trails : Option ℕ → ℕ → Bool
  trails none n = false
  trails (some after) n = ltb after n

  -- the trades behind those of the tiers
  abbrev pub further : Bool → Bool → Value → List (Fill F)
  further activate on entry =
      (if activate then breakeven_stop_activated entry ∷ [] else [])
      ++ (if on then trailing_activated ∷ [] else [])

  unfoldable pub check_tiers :
      ScaleOutEngine F → PositionSide → Quote F → ScaleOutPlan F → ScaleOutPlan F × List (Fill F)
  unfolding fill_tiers
  check_tiers e side q p =
      let (tiers, fills, remaining) =
        fill_tiers side p.entry_price q 0 p.tiers p.remaining_fraction in
      let n = n_filled tiers in
      let open_rest = lt F (lit 0 0) remaining in
      let activate = ltb e.activate_breakeven_after n && not p.breakeven_activated && open_rest in
      (
        record p {
          tiers = tiers;
          remaining_fraction = remaining;
          breakeven_activated = if activate then true else p.breakeven_activated;
          breakeven_price = if activate then some p.entry_price else p.breakeven_price;
        },
        fills ++ further activate (open_rest && trails e.trailing_after_tier n) p.entry_price,
      )

  -- `remaining_targets`
  unfoldable pub remaining_targets : List (ScaleOutTier F) → List Value
  remaining_targets [] = []
  remaining_targets (t ∷ ts) =
      let rest = remaining_targets ts in if t.filled then rest else t.price ∷ rest
