-- ===== src/Any/Text.antt =====
-- Core/Any.cpp, `getString`, and headers/Any.h, `get` of texts, dates and times.
use lite_database.Common.{Bool, Option, none, some, [], ◌∷◌, Bytes, codes, if◌then◌else◌, residue}
use lite_database.Outcome.{Outcome, ok, undefined, ◌>>=◌}
use lite_database.Std.Decimal.{print_ℤ}
use lite_database.TypeIds.{TypeId, hash_code, case_of}
use lite_database.Types.{
  Date, Time, DateTime, date_to_string, time_to_string, date_time_to_string, date_from_string,
  time_from_string, date_time_from_string,
}
use lite_database.Any.{
  Any, has_value, type_id, code_of, get_as, is_type, is_string, is_integer, is_float, as_bool,
  as_string, as_date, as_time, as_date_time,
}
use lite_database.Any.Numbers.{FloatOps, IntType, int_target, double_target, get_number, as_int}

-- The text that a value of a text type points to.
abbrev as_text : TypeId → Any → Option Bytes
as_text TypeId.char_ptr (Any.char_ptr s) = some s
as_text TypeId.const_char_ptr (Any.const_char_ptr s) = some s
as_text TypeId.std_string (Any.std_string s) = some s
as_text TypeId.std_string_ptr (Any.std_string_ptr s) = some s
as_text TypeId.const_std_string_ptr (Any.const_std_string_ptr s) = some s
as_text _ _ = none

abbrev true_or_false : Bool → Bytes
true_or_false b = if b then codes "true" else codes "false"

-- The `default` of the switch in `getString`. A value of type `Date` is not a string, so its
-- `get<Date>()` is `_get<Date>()`; likewise for `Time` and `DateTime`.
unfoldable pub default_string : FloatOps → Any → Outcome Bytes
unfolding get_as is_type is_integer is_float get_number
default_string ops a =
    if is_type TypeId.bool a
    then (get_as TypeId.bool as_bool a >>= λ b. ok (true_or_false b))
    else if is_integer a
    then (if is_type TypeId.unsigned_long_long a
        then (get_number (int_target ops IntType.unsigned_long_long) a >>= λ z. ok (print_ℤ z))
        else (get_number (int_target ops IntType.long_long) a >>= λ z. ok (print_ℤ z)))
    else if is_float a
    then (get_number (double_target ops) a >>= λ x. ok (ops.print_double x))
    else if is_type TypeId.date a
    then (get_as TypeId.date as_date a >>= λ d. ok (date_to_string d))
    else if is_type TypeId.time a
    then (get_as TypeId.time as_time a >>= λ t. ok (time_to_string t))
    else if is_type TypeId.date_time a
    then (get_as TypeId.date_time as_date_time a >>= λ t. ok (date_time_to_string t))
    else get_as TypeId.std_string as_string a

-- A `char` is added to an empty string as one byte.
unfoldable pub get_string : FloatOps → Any → Outcome Bytes
unfolding get_as type_id hash_code case_of default_string
get_string ops a =
    let h = code_of a in
    if has_value a
    then (if case_of h TypeId.char
        then (get_as TypeId.char (as_int TypeId.char) a >>= λ z. ok (residue 8 z ∷ []))
        else if case_of h TypeId.char_ptr
        then get_as TypeId.char_ptr (as_text TypeId.char_ptr) a
        else if case_of h TypeId.const_char_ptr
        then get_as TypeId.const_char_ptr (as_text TypeId.const_char_ptr) a
        else if case_of h TypeId.std_string
        then get_as TypeId.std_string as_string a
        else if case_of h TypeId.std_string_ptr
        then get_as TypeId.std_string_ptr (as_text TypeId.std_string_ptr) a
        else if case_of h TypeId.const_std_string_ptr
        then get_as TypeId.const_std_string_ptr (as_text TypeId.const_std_string_ptr) a
        else default_string ops a)
    else ok []

-- `get<Date>()`, `get<Time>()` and `get<DateTime>()`; `junk` as in `fromString`.
unfoldable pub get_date : FloatOps → Date → Any → Outcome Date
unfolding get_string get_as is_string
get_date ops junk a =
    if is_string a
    then (get_string ops a >>= λ s. ok (date_from_string junk s))
    else get_as TypeId.date as_date a

unfoldable pub get_time : FloatOps → Time → Any → Outcome Time
unfolding get_string get_as is_string
get_time ops junk a =
    if is_string a
    then (get_string ops a >>= λ s. ok (time_from_string junk s))
    else get_as TypeId.time as_time a

unfoldable pub get_date_time : FloatOps → Date → Time → Any → Outcome DateTime
unfolding get_string get_as is_string
get_date_time ops junk_date junk_time a =
    if is_string a
    then (get_string ops a >>= date_time_from_string junk_date junk_time)
    else get_as TypeId.date_time as_date_time a

-- `get<T>()` of a type without a specialisation, such as `bool` and `long`.
unfoldable pub get_any {ℓ} : {A : Type ℓ} → TypeId → (Any → Option A) → Any → Outcome A
unfolding get_as
get_any t part a = get_as t part a

-- `get<const char*>()` and `get<char*>()`, and a read through the pointer that they return: it
-- points into a local string, which is destroyed by then.
unfoldable pub get_const_char_ptr : FloatOps → Any → Outcome Bytes
unfolding get_string
get_const_char_ptr ops a = get_string ops a >>= λ str. undefined

unfoldable pub get_char_ptr : FloatOps → Any → Outcome Bytes
unfolding get_const_char_ptr
get_char_ptr ops a = get_const_char_ptr ops a
