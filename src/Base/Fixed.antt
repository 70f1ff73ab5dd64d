-- ===== src/Base/Fixed.antt =====
-- A concrete `Float` for runs: numbers of six decimals, stored with an offset so that the
-- stored number is the rank. It saturates far below zero.
use Prim.Native.Nat.{ℕ, ◌+◌, ◌-◌, ◌*◌, ◌/◌, ◌^◌}
use mathlib.Core.Option.{none, some}
use quorrin.Base.Tests.{ltb, leb, if◌then◌else◌}
use quorrin.Base.Floats.{Float}

abbrev offset : ℕ
offset = 10 ^ 15

abbrev scale : ℕ
scale = 10 ^ 6

-- the magnitude n with the sign of a product or quotient of x and y
abbrev with_sign : ℕ → ℕ → ℕ → ℕ
with_sign x y n =
    if leb offset x
    then if leb offset y then offset + n else offset - n
    else if leb offset y
    then offset - n
    else offset + n

abbrev magnitude : ℕ → ℕ
magnitude x = (x - offset) + (offset - x)

abbrev times : ℕ → ℕ → ℕ
times x y = with_sign x y (magnitude x * magnitude y / scale)

abbrev power : ℕ → ℕ → ℕ
power x = elim [ ℕ.zero ↦ offset + scale | ℕ.suc (n → r) ↦ times x r ]

abbrev pub fixed : Float
fixed = record {
  Value = ℕ;
  key = λ x. x;
  lit = λ m e. offset + m * scale / 10 ^ e;
  of_int = λ n. if ltb n (2 ^ 1024) then some (offset + n * scale) else none;
  neg = λ x. offset + offset - x;
  add = λ x y. x + y - offset;
  sub = λ x y. x + offset - y;
  mul = times;
  div = λ x y. with_sign x y (magnitude x * scale / magnitude y);
  pow = power;
  round = λ x n. x;
  fmt = λ n x. "";
}
