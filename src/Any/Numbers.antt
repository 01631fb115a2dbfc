-- ===== src/Any/Numbers.antt =====
-- headers/Any.h: `getInteger`, `getFloat`, `getNumber` and the specialisations of `get` for numbers.
use lite_database.Common.{
  ℕ, Bool, true, false, Option, none, some, Bytes, if◌then◌else◌, ℤ, pos, residue, with_sign, eq_ℤ,
}
use lite_database.Outcome.{Outcome, ok, undefined, ◌>>=◌}
use lite_database.TypeIds.{TypeId, hash_code, case_of}
use lite_database.Any.{Any, has_value, type_id, code_of, get_as, is_float, as_float, as_double}

-- The conversions of floating-point numbers, by their bit patterns. A number that has no integer
-- part (an infinity, or no number) truncates to `none`.
pub record FloatOps : Type 0 where
  pub truncate_float : ℕ → Option ℤ
  pub truncate_double : ℕ → Option ℤ
  pub float_to_double : ℕ → ℕ
  pub double_to_float : ℕ → ℕ
  pub float_of : ℤ → ℕ
  pub double_of : ℤ → ℕ
  pub print_double : ℕ → Bytes
  pub string_to_double : Bytes → Outcome ℕ

-- The integer types that `get` is specialised for.
pub data IntType : Type 0 where
  char short int long_long unsigned_char unsigned_short unsigned_int unsigned_long_long : IntType

abbrev pub bits : IntType → ℕ
bits IntType.char = 8
bits IntType.unsigned_char = 8
bits IntType.short = 16
bits IntType.unsigned_short = 16
bits IntType.int = 32
bits IntType.unsigned_int = 32
bits IntType.long_long = 64
bits IntType.unsigned_long_long = 64

abbrev pub is_signed : IntType → Bool
is_signed IntType.char = true
is_signed IntType.short = true
is_signed IntType.int = true
is_signed IntType.long_long = true
is_signed _ = false

abbrev pub int_type_id : IntType → TypeId
int_type_id IntType.char = TypeId.char
int_type_id IntType.short = TypeId.short
int_type_id IntType.int = TypeId.int
int_type_id IntType.long_long = TypeId.long_long
int_type_id IntType.unsigned_char = TypeId.unsigned_char
int_type_id IntType.unsigned_short = TypeId.unsigned_short
int_type_id IntType.unsigned_int = TypeId.unsigned_int
int_type_id IntType.unsigned_long_long = TypeId.unsigned_long_long

-- `(T)z`, which wraps around.
unfoldable pub cast : IntType → ℤ → ℤ
cast t z = if is_signed t then with_sign (bits t) (residue (bits t) z) else pos (residue (bits t) z)

-- `(T)x` of a floating-point number with integer part `z`: defined only if `T` holds `z`.
unfoldable pub cast_part : IntType → Option ℤ → Outcome ℤ
unfolding cast
cast_part t none = undefined
cast_part t (some z) = if eq_ℤ (cast t z) z then ok z else undefined

-- The integer in a value of an integer type, or a `bool` as 0 or 1.
abbrev pub as_int : TypeId → Any → Option ℤ
as_int TypeId.char (Any.char z) = some z
as_int TypeId.unsigned_char (Any.unsigned_char z) = some z
as_int TypeId.short (Any.short z) = some z
as_int TypeId.unsigned_short (Any.unsigned_short z) = some z
as_int TypeId.int (Any.int z) = some z
as_int TypeId.unsigned_int (Any.unsigned_int z) = some z
as_int TypeId.long_long (Any.long_long z) = some z
as_int TypeId.unsigned_long_long (Any.unsigned_long_long z) = some z
as_int TypeId.long (Any.long z) = some z
as_int TypeId.unsigned_long (Any.unsigned_long z) = some z
as_int TypeId.bool (Any.bool true) = some (pos 1)
as_int TypeId.bool (Any.bool false) = some (pos 0)
as_int _ _ = none

-- What the templates need of their parameter `T`: its casts, and `T` itself.
pub record Target (A : Type 0) : Type 0 where
  pub from_int : ℤ → A
  pub from_float : ℕ → Outcome A
  pub from_double : ℕ → Outcome A
  pub type : TypeId
  pub part : Any → Option A

abbrev pub int_target : FloatOps → IntType → Target ℤ
int_target ops t = record {
  from_int = cast t;
  from_float = λ x. cast_part t (ops.truncate_float x);
  from_double = λ x. cast_part t (ops.truncate_double x);
  type = int_type_id t;
  part = as_int (int_type_id t);
}

abbrev pub float_target : FloatOps → Target ℕ
float_target ops = record {
  from_int = ops.float_of;
  from_float = λ x. ok x;
  from_double = λ x. ok (ops.double_to_float x);
  type = TypeId.float;
  part = as_float;
}

abbrev pub double_target : FloatOps → Target ℕ
double_target ops = record {
  from_int = ops.double_of;
  from_float = λ x. ok (ops.float_to_double x);
  from_double = λ x. ok x;
  type = TypeId.double;
  part = as_double;
}

module _ {A : Type 0} (target : Target A) where
  -- `case HASHCODE_U: return (T)_get<U>();`
  abbrev int_case : TypeId → Any → Outcome A
  int_case u a = get_as u (as_int u) a >>= λ z. ok (target.from_int z)

  abbrev float_case : Any → Outcome A
  float_case a = get_as TypeId.float as_float a >>= target.from_float

  abbrev double_case : Any → Outcome A
  double_case a = get_as TypeId.double as_double a >>= target.from_double

  unfoldable pub get_integer : Any → Outcome A
  unfolding get_as type_id hash_code case_of
  get_integer a =
      let h = code_of a in
      if has_value a
      then (if case_of h TypeId.char
          then int_case TypeId.char a
          else if case_of h TypeId.unsigned_char
          then int_case TypeId.unsigned_char a
          else if case_of h TypeId.short
          then int_case TypeId.short a
          else if case_of h TypeId.unsigned_short
          then int_case TypeId.unsigned_short a
          else if case_of h TypeId.int
          then int_case TypeId.int a
          else if case_of h TypeId.unsigned_int
          then int_case TypeId.unsigned_int a
          else if case_of h TypeId.long_long
          then int_case TypeId.long_long a
          else if case_of h TypeId.unsigned_long_long
          then int_case TypeId.unsigned_long_long a
          else if case_of h TypeId.float
          then float_case a
          else if case_of h TypeId.double
          then double_case a
          else if case_of h TypeId.bool
          then int_case TypeId.bool a
          else if case_of h TypeId.long
          then int_case TypeId.long a
          else if case_of h TypeId.unsigned_long
          then int_case TypeId.unsigned_long a
          else get_as target.type target.part a)
      else ok (target.from_int (pos 0))

  unfoldable pub get_float : Any → Outcome A
  unfolding get_as type_id hash_code case_of
  get_float a =
      let h = code_of a in
      if has_value a
      then (if case_of h TypeId.float
          then float_case a
          else if case_of h TypeId.double
          then double_case a
          else get_as target.type target.part a)
      else ok (target.from_int (pos 0))

  -- `getNumber<T>()`, which is `get<T>()` for the number types.
  unfoldable pub get_number : Any → Outcome A
  unfolding get_integer get_float is_float
  get_number a = if is_float a then get_float a else get_integer a
