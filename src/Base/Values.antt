-- ===== src/Base/Values.antt =====
-- The values that json loads, and what Python does with its dictionaries of them.
--
-- `int` is a natural number, also where it is written as a float; `num` is any other number but
-- NaN. json makes every NaN the same object.
use quorrin.Base.Tests.{if◌then◌else◌, ◌==◌}
use Prim.Native.Nat.{ℕ, ◌+◌}
use Prim.Native.String.{String}
use mathlib.Core.Bool.{Bool, true, false, not, ◌&&◌, ◌||◌}
use mathlib.Core.Option.{Option, none, some}
use text.Mathlib.Text.{◌==◌ as str_eq}

mutual
  pub data Value (N : Type 0) : Type 0 where
    null : Value N
    truth : Bool → Value N
    int : ℕ → Value N
    num : N → Value N
    nan : Value N
    str : String → Value N
    arr : Items N → Value N
    obj : Fields N → Value N

  pub data Items (N : Type 0) : Type 0 where
    nil : Items N
    cons : Value N → Items N → Items N

  pub data Fields (N : Type 0) : Type 0 where
    end : Fields N
    field : String → Value N → Fields N → Fields N

module _ {N : Type 0} where
  -- d.get(k)
  unfoldable pub get_field : String → Fields N → Option (Value N)
  get_field k end = none
  get_field k (field j v d) = if str_eq j k then some v else get_field k d

  -- d.get(k), with None for a missing key
  unfoldable pub field_or_null : String → Fields N → Value N
  unfolding get_field
  field_or_null k d = elim (get_field k d) [ none ↦ null | some v ↦ v ]

  -- d[k] = v
  unfoldable pub put_field : String → Value N → Fields N → Fields N
  put_field k v end = field k v end
  put_field k v (field j w d) = if str_eq j k then field k v d else field j w (put_field k v d)

  -- isinstance(v, dict)
  abbrev pub as_obj : Value N → Option (Fields N)
  as_obj (obj d) = some d
  as_obj null = none
  as_obj (truth b) = none
  as_obj (int n) = none
  as_obj (num x) = none
  as_obj nan = none
  as_obj (str s) = none
  as_obj (arr xs) = none

unfoldable mutual
  -- `_deep_merge(base, overlay)`
  pub deep_merge : {N : Type 0} → Fields N → Fields N → Fields N
  deep_merge end base = base
  deep_merge (field k v rest) base =
      deep_merge rest (put_field k (merged v (get_field k base)) base)

  pub merged : {N : Type 0} → Value N → Option (Value N) → Value N
  merged (obj overlay) (some (obj base)) = obj (deep_merge overlay base)
  merged v old = v

-- Whether a dictionary has an entry for a key whose value passes a test.
unfoldable pub has_entry : {N : Type 0} → (Value N → Bool) → String → Fields N → Bool
has_entry test k end = false
has_entry test k (field j w d) = str_eq j k && test w || has_entry test k d

unfoldable pub size : {N : Type 0} → Fields N → ℕ
size end = 0
size (field k v d) = size d + 1

bit : Bool → ℕ
bit true = 1
bit false = 0

module _ {N : Type 0} where
  -- `==` with a truth value or an integer on its left: True is 1, and False is 0
  unfoldable pub same_int : ℕ → Value N → Bool
  unfolding bit
  same_int n (truth b) = n == bit b
  same_int n (int m) = n == m
  same_int n null = false
  same_int n (num x) = false
  same_int n nan = false
  same_int n (str s) = false
  same_int n (arr xs) = false
  same_int n (obj d) = false

-- Whether two elements of containers are the same object or equal: a NaN is the same as another
-- one. Dictionaries are equal if they have equal entries, in any order. `test` is `==` of the
-- other numbers.
unfoldable mutual
  unfolding bit

  pub same : {N : Type 0} → (N → N → Bool) → Value N → Value N → Bool
  same test null w = elim w [ null ↦ true | _ ↦ false ]
  same test (truth b) w = same_int (bit b) w
  same test (int n) w = same_int n w
  same test (num x) w = elim w [ num y ↦ test x y | _ ↦ false ]
  same test nan w = elim w [ nan ↦ true | _ ↦ false ]
  same test (str s) w = elim w [ str t ↦ str_eq s t | _ ↦ false ]
  same test (arr xs) w = elim w [ arr ys ↦ same_items test xs ys | _ ↦ false ]
  same test (obj d) w = elim w [ obj e ↦ size d == size e && same_fields test d e | _ ↦ false ]

  pub same_items : {N : Type 0} → (N → N → Bool) → Items N → Items N → Bool
  same_items test nil ys = elim ys [ nil ↦ true | _ ↦ false ]
  same_items test (cons x xs) ys = elim ys [
    | nil ↦ false
    | cons y ys' ↦ same test x y && same_items test xs ys'
  ]

  pub same_fields : {N : Type 0} → (N → N → Bool) → Fields N → Fields N → Bool
  same_fields test end e = true
  same_fields test (field k v d) e = has_entry (same test v) k e && same_fields test d e

abbrev pub is_nan : {N : Type 0} → Value N → Bool
is_nan nan = true
is_nan _ = false

-- `==` of two values: NaN is not equal to itself.
unfoldable pub equal : {N : Type 0} → (N → N → Bool) → Value N → Value N → Bool
unfolding same
equal test v w = not (is_nan v) && same test v w
