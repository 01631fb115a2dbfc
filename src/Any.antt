-- ===== src/Any.antt =====
-- headers/Any.h and Core/Any.cpp: `class Any`, a `std::any` with readers that convert. A pointer to
-- text is the text that it points to; a `float` and a `double` are their bit patterns.
pub mod Numbers
pub mod Text
pub mod Conversions
pub mod Strings
use lite_database.Common.{
  ℕ, Bool, true, false, ◌||◌, ◌&&◌, Option, none, some, [], ◌∷◌, Bytes, codes, if◌then◌else◌, ℤ,
}
use lite_database.Exception.{Exception, build}
use lite_database.Outcome.{Outcome, ok, throw}
use lite_database.TypeIds.{TypeId, hash_code, case_of, type_name, same_type}
use lite_database.Types.{Date, Time, DateTime}

pub data Any : Type 0 where
  empty : Any
  bool : Bool → Any
  char unsigned_char short unsigned_short int unsigned_int : ℤ → Any
  long unsigned_long long_long unsigned_long_long : ℤ → Any
  float double : ℕ → Any
  char_ptr const_char_ptr std_string std_string_ptr const_std_string_ptr : Bytes → Any
  date : Date → Any
  time : Time → Any
  date_time : DateTime → Any
  void_ptr : ℕ → Any

-- `type()`; that of an empty value is `void`.
unfoldable pub type_id : Any → TypeId
type_id Any.empty = TypeId.void
type_id (Any.bool b) = TypeId.bool
type_id (Any.char z) = TypeId.char
type_id (Any.unsigned_char z) = TypeId.unsigned_char
type_id (Any.short z) = TypeId.short
type_id (Any.unsigned_short z) = TypeId.unsigned_short
type_id (Any.int z) = TypeId.int
type_id (Any.unsigned_int z) = TypeId.unsigned_int
type_id (Any.long z) = TypeId.long
type_id (Any.unsigned_long z) = TypeId.unsigned_long
type_id (Any.long_long z) = TypeId.long_long
type_id (Any.unsigned_long_long z) = TypeId.unsigned_long_long
type_id (Any.float x) = TypeId.float
type_id (Any.double x) = TypeId.double
type_id (Any.char_ptr s) = TypeId.char_ptr
type_id (Any.const_char_ptr s) = TypeId.const_char_ptr
type_id (Any.std_string s) = TypeId.std_string
type_id (Any.std_string_ptr s) = TypeId.std_string_ptr
type_id (Any.const_std_string_ptr s) = TypeId.const_std_string_ptr
type_id (Any.date d) = TypeId.date
type_id (Any.time t) = TypeId.time
type_id (Any.date_time t) = TypeId.date_time
type_id (Any.void_ptr p) = TypeId.void_ptr

unfoldable pub has_value : Any → Bool
has_value Any.empty = false
has_value _ = true

-- The exception of a read at the wrong type.
unfoldable pub wrong_type : TypeId → TypeId → Exception
wrong_type source target = build (
    codes "LLDB::get: Failed to get, source type("
    ∷ type_name source
    ∷ codes "), target type("
    ∷ type_name target
    ∷ codes ")"
    ∷ [])

abbrev pub or_throw {ℓ} : {A : Type ℓ} → Option A → Exception → Outcome A
or_throw none e = throw e
or_throw (some x) e = ok x

-- `_get<T>()`, for the type `T` and the part of the value that is a `T`.
unfoldable pub get_as {ℓ} : {A : Type ℓ} → TypeId → (Any → Option A) → Any → Outcome A
unfolding has_value
get_as t part a =
    if has_value a
    then or_throw (part a) (wrong_type (type_id a) t)
    else throw (build (codes "LLDB::get: val is empty!!!" ∷ []))

-- `is<T>()`.
unfoldable pub is_type : TypeId → Any → Bool
unfolding type_id same_type
is_type t a = same_type (type_id a) t

abbrev pub code_of : Any → ℕ
code_of a = hash_code (type_id a)

unfoldable pub is_string : Any → Bool
unfolding has_value type_id hash_code case_of
is_string a =
    has_value a
    && (case_of (code_of a) TypeId.char
        || case_of (code_of a) TypeId.char_ptr
        || case_of (code_of a) TypeId.const_char_ptr
        || case_of (code_of a) TypeId.std_string
        || case_of (code_of a) TypeId.std_string_ptr
        || case_of (code_of a) TypeId.const_std_string_ptr)

unfoldable pub is_integer : Any → Bool
unfolding has_value type_id hash_code case_of
is_integer a =
    has_value a
    && (case_of (code_of a) TypeId.char
        || case_of (code_of a) TypeId.unsigned_char
        || case_of (code_of a) TypeId.short
        || case_of (code_of a) TypeId.unsigned_short
        || case_of (code_of a) TypeId.int
        || case_of (code_of a) TypeId.unsigned_int
        || case_of (code_of a) TypeId.long_long
        || case_of (code_of a) TypeId.unsigned_long_long)

unfoldable pub is_float : Any → Bool
unfolding has_value type_id hash_code case_of
is_float a = has_value a && (case_of (code_of a) TypeId.float || case_of (code_of a) TypeId.double)

unfoldable pub is_number : Any → Bool
unfolding is_integer is_float
is_number a = is_integer a || is_float a

-- The parts of a value, by the type that it holds.
abbrev pub as_bool : Any → Option Bool
as_bool (Any.bool b) = some b
as_bool _ = none

abbrev pub as_float : Any → Option ℕ
as_float (Any.float x) = some x
as_float _ = none

abbrev pub as_double : Any → Option ℕ
as_double (Any.double x) = some x
as_double _ = none

abbrev pub as_string : Any → Option Bytes
as_string (Any.std_string s) = some s
as_string _ = none

abbrev pub as_date : Any → Option Date
as_date (Any.date d) = some d
as_date _ = none

abbrev pub as_time : Any → Option Time
as_time (Any.time t) = some t
as_time _ = none

abbrev pub as_date_time : Any → Option DateTime
as_date_time (Any.date_time t) = some t
as_date_time _ = none
