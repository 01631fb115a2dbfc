-- ===== src/Types.antt =====
-- headers/Types.h and Core/Mess.cpp: `Date`, `Time` and `DateTime`, read from and written to text.
-- An `int` that C++ leaves uninitialised is given by the caller of the model: `junk` is what the
-- local variable of `fromString` holds before anything is read into it.
pub mod RoundTrip
pub mod Letters
pub mod Zone
use lite_database.Common.{
  ℕ, ◌≡◌, refl, Bool, true, false, Option, none, some, List, [], ◌∷◌, ◌++◌, Bytes, codes, ◌==◌,
  ◌||◌, if◌then◌else◌, get_elem?, ℤ, pos, negsuc, eq_ℤ,
}
use lite_database.Outcome.{Outcome, ok, raise, undefined, Error, ◌>>=◌}
use lite_database.Std.Decimal.{print_ℤ}
use lite_database.Std.Stream.{opened, extract_int, ignore}
use lite_database.Std.Convert.{stoi}
use lite_database.Utils.Split.{split}

pub record Date : Type 0 where
  pub day : ℤ
  pub month : ℤ
  pub year : ℤ

pub record Time : Type 0 where
  pub hour : ℤ
  pub minute : ℤ
  pub second : ℤ

pub record DateTime : Type 0 where
  pub date : Date
  pub time : Time
  pub time_zone : ℤ

unfoldable pub date_from_string : Date → Bytes → Date
date_from_string junk str =
    let (year, s) = extract_int junk.year (opened str) in
    let (month, s') = extract_int junk.month (ignore s) in
    let (day, s'') = extract_int junk.day (ignore s') in
    record { day = day; month = month; year = year }

unfoldable pub time_from_string : Time → Bytes → Time
time_from_string junk str =
    let (hour, s) = extract_int junk.hour (opened str) in
    let (minute, s') = extract_int junk.minute (ignore s) in
    let (second, s'') = extract_int junk.second (ignore s') in
    record { hour = hour; minute = minute; second = second }

-- `v[i]` of a `std::vector`: nothing is checked.
unfoldable pub index : {A : Type 0} → List A → ℕ → Outcome A
index xs i = elim (get_elem? xs i) [ some x ↦ ok x | none ↦ undefined ]

-- `s.find_last_of(c) != npos`.
unfoldable pub contains : Bytes → ℕ → Bool
contains [] b = false
contains (c ∷ s) b = (c == b) || contains s b

-- A time and its zone, which were cut apart at the dash.
unfoldable pub zoned_time : Time → List Bytes → Outcome (Time × ℤ)
unfolding index
zoned_time junk t = do
  time ← index t 0
  zone ← index t 1
  z ← stoi zone
  ok (time_from_string junk time, z)

-- The part of a date and time that stands behind the space.
unfoldable pub time_part : Time → Bytes → Outcome (Time × ℤ)
unfolding contains zoned_time
time_part junk s =
    if contains s b'-'
    then zoned_time junk (split s b'-')
    else ok (time_from_string junk s, negsuc 0)

unfoldable pub date_time_from_string : Date → Time → Bytes → Outcome DateTime
unfolding index time_part
date_time_from_string junk_date junk_time str = do
  let s = split str b' '
  first ← index s 0
  second ← index s 1
  (time, zone) ← time_part junk_time second
  ok (record { date = date_from_string junk_date first; time = time; time_zone = zone })

unfoldable pub date_to_string : Date → Bytes
date_to_string d = print_ℤ d.year ++ b'-' ∷ (print_ℤ d.month ++ b'-' ∷ print_ℤ d.day)

unfoldable pub time_to_string : Time → Bytes
time_to_string t = print_ℤ t.hour ++ b':' ∷ (print_ℤ t.minute ++ b':' ∷ print_ℤ t.second)

-- The time zone -1 stands for none.
unfoldable pub zone_to_string : ℤ → Bytes
zone_to_string z = if eq_ℤ z (negsuc 0) then [] else b'-' ∷ print_ℤ z

unfoldable pub date_time_to_string : DateTime → Bytes
unfolding date_to_string time_to_string zone_to_string
date_time_to_string t =
    date_to_string t.date ++ b' ' ∷ (time_to_string t.time ++ zone_to_string t.time_zone)

-- The members `toString`.
unfoldable pub date_to_string_member : Date → Bytes
unfolding date_to_string
date_to_string_member d = date_to_string d

unfoldable pub time_to_string_member : Time → Bytes
unfolding time_to_string
time_to_string_member t = time_to_string t

unfoldable pub date_time_to_string_member : DateTime → Bytes
unfolding date_time_to_string
date_time_to_string_member t = date_time_to_string t
