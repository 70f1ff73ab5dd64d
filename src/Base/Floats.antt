-- ===== src/Base/Floats.antt =====
-- Python's `float`, a parameter of every component that computes with one.
--
-- `Value` stands for the floats that are not NaN; a place where the source meets NaN takes an
-- `Option Value`. Comparison goes by `key`, the rank of a float in the order of IEEE 754, in
-- which both zeros have one rank. The operations are those of the language and have no laws
-- here; a theorem that needs one takes it as a hypothesis.
use Prim.Native.Nat.{ℕ}
use Prim.Native.String.{String}
use mathlib.Core.Bool.{Bool}
use mathlib.Core.Option.{Option}
use quorrin.Base.Tests.{ltb, leb, ◌==◌, if◌then◌else◌}

pub record Float : Type 1 where
  pub Value : Type 0
  pub key : Value → ℕ
  -- the literal m * 10 ** -e
  pub lit : ℕ → ℕ → Value
  -- float(n); `none` is OverflowError
  pub of_int : ℕ → Option Value
  pub neg : Value → Value
  pub add : Value → Value → Value
  pub sub : Value → Value → Value
  pub mul : Value → Value → Value
  -- division, where the divisor is not zero
  pub div : Value → Value → Value
  pub pow : Value → ℕ → Value
  -- round(x, n)
  pub round : Value → ℕ → Value
  -- f"{x:.nf}"
  pub fmt : ℕ → Value → String

module _ (F : Float) where
  open F use {Value, key, lit, neg}

  abbrev pub lt : Value → Value → Bool
  lt x y = ltb (key x) (key y)

  abbrev pub le : Value → Value → Bool
  le x y = leb (key x) (key y)

  abbrev pub eq : Value → Value → Bool
  eq x y = key x == key y

  abbrev pub nought : Value
  nought = lit 0 0

  abbrev pub one : Value
  one = lit 1 0

  -- max(x, y) and min(x, y): the first argument, unless the second is strictly beyond it
  abbrev pub fmax : Value → Value → Value
  fmax x y = if lt x y then y else x

  abbrev pub fmin : Value → Value → Value
  fmin x y = if lt y x then y else x

  abbrev pub fabs : Value → Value
  fabs x = if lt x nought then neg x else x
