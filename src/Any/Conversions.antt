-- ===== src/Any/Conversions.antt =====
-- headers/Any.h: what `get` of an integer type returns, for every value.
use lite_database.Common.{
  ◌^◌, ◌<◌, ◌≡◌, refl, ap, ◌∙◌, true, false, Option, none, some, arith, if◌then◌else◌, ℤ, pos,
  negsuc, IsSigned,
}
use lite_database.Outcome.{Outcome, ok, throw}
use lite_database.Any.{Any, type_id, wrong_type}
use lite_database.Any.Numbers.{
  FloatOps, IntType, int_type_id, cast, cast_part, int_target, get_number,
}

-- The type holds the integer.
abbrev pub Fits : IntType → ℤ → Type 0
Fits IntType.char z = IsSigned 8 z
Fits IntType.short z = IsSigned 16 z
Fits IntType.int z = IsSigned 32 z
Fits IntType.long_long z = IsSigned 64 z
Fits IntType.unsigned_char (pos n) = n < 2 ^ 8
Fits IntType.unsigned_short (pos n) = n < 2 ^ 16
Fits IntType.unsigned_int (pos n) = n < 2 ^ 32
Fits IntType.unsigned_long_long (pos n) = n < 2 ^ 64
Fits _ (negsuc n) = ⊥

-- A cast changes no integer that the type holds.
pub cast_exact : (t : IntType) (z : ℤ) → Fits t z → cast t z ≡ z
unfolding cast
cast_exact IntType.char (pos n) h = ground arith
cast_exact _ (pos n) h = ground arith
cast_exact IntType.char (negsuc n) h = ground arith
cast_exact IntType.short (negsuc n) h = ground arith
cast_exact IntType.int (negsuc n) h = ground arith
cast_exact IntType.long_long (negsuc n) h = ground arith
cast_exact IntType.unsigned_char (negsuc n) h = absurd h
cast_exact IntType.unsigned_short (negsuc n) h = absurd h
cast_exact IntType.unsigned_int (negsuc n) h = absurd h
cast_exact IntType.unsigned_long_long (negsuc n) h = absurd h

-- A cast always ends in the type's range.
pub cast-Fits : (t : IntType) (z : ℤ) → Fits t (cast t z)
unfolding cast
cast-Fits IntType.char (pos n) = ground arith
cast-Fits _ (pos n) = ground arith
cast-Fits _ (negsuc n) = ground arith

-- What a value is as a number of an integer type, constructor by constructor.
unfoldable pub int_reading : FloatOps → IntType → Any → Outcome ℤ
int_reading ops t Any.empty = ok (pos 0)
int_reading ops t (Any.bool b) = ok (if b then cast t (pos 1) else cast t (pos 0))
int_reading ops t (Any.char z) = ok (cast t z)
int_reading ops t (Any.unsigned_char z) = ok (cast t z)
int_reading ops t (Any.short z) = ok (cast t z)
int_reading ops t (Any.unsigned_short z) = ok (cast t z)
int_reading ops t (Any.int z) = ok (cast t z)
int_reading ops t (Any.unsigned_int z) = ok (cast t z)
int_reading ops t (Any.long z) = ok (cast t z)
int_reading ops t (Any.unsigned_long z) = ok (cast t z)
int_reading ops t (Any.long_long z) = ok (cast t z)
int_reading ops t (Any.unsigned_long_long z) = ok (cast t z)
int_reading ops t (Any.float x) = cast_part t (ops.truncate_float x)
int_reading ops t (Any.double x) = cast_part t (ops.truncate_double x)
int_reading ops t a = throw (wrong_type (type_id a) (int_type_id t))

cast_zero : (t : IntType) → cast t (pos 0) ≡ pos 0
unfolding cast
cast_zero IntType.char = refl
cast_zero _ = refl

-- `get` of an integer type: a number of any type is cast, an empty value is 0, and a text, a date
-- or a pointer throws; the switch on hash codes takes the right case for each type.
get_number_int :
    (ops : FloatOps) (t : IntType) (a : Any) → get_number (int_target ops t) a ≡ int_reading ops t a
unfolding get_number int_reading
get_number_int ops t Any.empty = ap ok (cast_zero t)
get_number_int ops t (Any.bool true) = refl
get_number_int ops t (Any.bool false) = refl
get_number_int ops t (Any.char z) = refl
get_number_int ops IntType.char a = refl
get_number_int ops _ a = refl

-- The integer that a value of one of the ten integer types holds.
abbrev pub integer_of : Any → Option ℤ
integer_of (Any.char z) = some z
integer_of (Any.unsigned_char z) = some z
integer_of (Any.short z) = some z
integer_of (Any.unsigned_short z) = some z
integer_of (Any.int z) = some z
integer_of (Any.unsigned_int z) = some z
integer_of (Any.long z) = some z
integer_of (Any.unsigned_long z) = some z
integer_of (Any.long_long z) = some z
integer_of (Any.unsigned_long_long z) = some z
integer_of _ = none

reading-integer_of :
    (ops : FloatOps) (t : IntType) (a : Any) (z : ℤ)
    → integer_of a ≡ some z
    → int_reading ops t a ≡ ok (cast t z)
unfolding int_reading
reading-integer_of ops t (Any.char x) z e = ground arith
reading-integer_of ops t (Any.bool b) z e = cc
reading-integer_of ops t _ z e = ground arith

-- An integer that the wanted type can hold is read back unchanged, whatever integer type it was
-- stored as.
pub get_number_exact :
    (ops : FloatOps) (t : IntType) (a : Any) (z : ℤ)
    → integer_of a ≡ some z
    → Fits t z
    → get_number (int_target ops t) a ≡ ok z
get_number_exact ops t a z e fits =
    get_number_int ops t a ∙ (reading-integer_of ops t a z e ∙ ap ok (cast_exact t z fits))
