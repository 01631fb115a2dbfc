-- ===== src/Any/Strings.antt =====
-- Core/Any.cpp, `getString`, and headers/Any.h, `get` of dates and times: what they return.
use lite_database.Common.{
  ◌≡◌, ◌≢◌, refl, ap, true, false, [], ◌∷◌, Bytes, codes, arith, if◌then◌else◌, ℤ, pos, negsuc,
  residue,
}
use lite_database.Outcome.{Outcome, ok, throw, ◌>>=◌}
use lite_database.Std.Decimal.{print_ℤ}
use lite_database.TypeIds.{TypeId}
use lite_database.Types.{Date, Time, date_to_string, time_to_string, date_time_to_string}
use lite_database.Types.RoundTrip.{
  DateFits, date_from_string-date_to_string, TimeFits, time_from_string-time_to_string,
}
use lite_database.Any.{Any, type_id, wrong_type}
use lite_database.Any.Numbers.{FloatOps, IntType, cast}
use lite_database.Any.Conversions.{Fits, cast_exact}
use lite_database.Any.Text.{get_string, get_date, get_time}

-- The integer in a value is one that its type can hold.
abbrev pub InRange : Any → Type 0
InRange (Any.unsigned_char z) = Fits IntType.unsigned_char z
InRange (Any.short z) = Fits IntType.short z
InRange (Any.unsigned_short z) = Fits IntType.unsigned_short z
InRange (Any.int z) = Fits IntType.int z
InRange (Any.unsigned_int z) = Fits IntType.unsigned_int z
InRange (Any.long_long z) = Fits IntType.long_long z
InRange (Any.unsigned_long_long z) = Fits IntType.unsigned_long_long z
InRange _ = Unit

-- The text of a value, constructor by constructor. Values of type `long` and `unsigned long` have
-- none, although they are numbers.
unfoldable pub shown : FloatOps → Any → Outcome Bytes
shown ops Any.empty = ok []
shown ops (Any.bool b) = ok (if b then codes "true" else codes "false")
shown ops (Any.char z) = ok (residue 8 z ∷ [])
shown ops (Any.unsigned_char z) = ok (print_ℤ z)
shown ops (Any.short z) = ok (print_ℤ z)
shown ops (Any.unsigned_short z) = ok (print_ℤ z)
shown ops (Any.int z) = ok (print_ℤ z)
shown ops (Any.unsigned_int z) = ok (print_ℤ z)
shown ops (Any.long_long z) = ok (print_ℤ z)
shown ops (Any.unsigned_long_long z) = ok (print_ℤ z)
shown ops (Any.float x) = ok (ops.print_double (ops.float_to_double x))
shown ops (Any.double x) = ok (ops.print_double x)
shown ops (Any.char_ptr s) = ok s
shown ops (Any.const_char_ptr s) = ok s
shown ops (Any.std_string s) = ok s
shown ops (Any.std_string_ptr s) = ok s
shown ops (Any.const_std_string_ptr s) = ok s
shown ops (Any.date d) = ok (date_to_string d)
shown ops (Any.time t) = ok (time_to_string t)
shown ops (Any.date_time t) = ok (date_time_to_string t)
shown ops a = throw (wrong_type (type_id a) TypeId.std_string)

-- Every type but `unsigned long long` fits in `long long`.
widen : (t : IntType) (z : ℤ) → t ≢ IntType.unsigned_long_long → Fits t z → Fits IntType.long_long z
widen IntType.unsigned_long_long z ne h = absurd (ne refl)
widen IntType.char (pos n) ne h = omega arith
widen _ (pos n) ne h = omega arith
widen IntType.char (negsuc n) ne h = omega arith
widen _ (negsuc n) ne h = omega arith

printed :
    (t : IntType) (z : ℤ)
    → t ≢ IntType.unsigned_long_long
    → Fits t z
    → ◌≡◌ {A = Outcome Bytes} (ok (print_ℤ (cast IntType.long_long z))) (ok (print_ℤ z))
printed t z ne h = ap (λ w. ok (print_ℤ w)) (cast_exact IntType.long_long z (widen t z ne h))

-- `getString` gives each value its text: texts as they are, a `char` as one byte, numbers in
-- decimal, dates and times printed, nothing for an empty value; for `long`, `unsigned long` and
-- pointers it throws.
pub get_string_lem : (ops : FloatOps) (a : Any) → InRange a → get_string ops a ≡ shown ops a
unfolding get_string shown
get_string_lem ops Any.empty h = refl
get_string_lem ops (Any.unsigned_char z) h = printed IntType.unsigned_char z (λ e. cc) h
get_string_lem ops (Any.short z) h = printed IntType.short z (λ e. cc) h
get_string_lem ops (Any.unsigned_short z) h = printed IntType.unsigned_short z (λ e. cc) h
get_string_lem ops (Any.int z) h = printed IntType.int z (λ e. cc) h
get_string_lem ops (Any.unsigned_int z) h = printed IntType.unsigned_int z (λ e. cc) h
get_string_lem ops (Any.long_long z) h = printed IntType.long_long z (λ e. cc) h
get_string_lem ops (Any.unsigned_long_long z) h =
    ap (λ w. ok (print_ℤ w)) (cast_exact IntType.unsigned_long_long z h)
get_string_lem ops (Any.bool true) h = refl
get_string_lem ops (Any.bool false) h = refl
get_string_lem ops a h = refl

-- A date, read as a text and that text stored and read as a date, is the same date; and a time
-- likewise.
pub get_date-get_string :
    (ops : FloatOps) (junk_date d : Date) (junk_time t : Time)
    → DateFits d
    → TimeFits t
    → ((get_string ops (Any.date d) >>= λ s. get_date ops junk_date (Any.std_string s)) ≡ ok d)
      × ((get_string ops (Any.time t) >>= λ s. get_time ops junk_time (Any.std_string s)) ≡ ok t)
unfolding get_string get_date get_time
get_date-get_string ops junk_date d junk_time t fd ft = (
  ap ok (date_from_string-date_to_string junk_date d fd),
  ap ok (time_from_string-time_to_string junk_time t ft),
)
