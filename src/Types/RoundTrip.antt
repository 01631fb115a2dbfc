-- ===== src/Types/RoundTrip.antt =====
-- Core/Mess.cpp: what is written is read back, and the dates with a zone for which it is not.
use lite_database.Common.{◌≡◌, refl, sym, ap, ◌∙◌, [], ◌∷◌, ◌++◌, append-nil, ℤ, IsSigned}
use lite_database.Std.Decimal.{print_ℤ}
use lite_database.Std.Stream.{opened, extract_int, ignore, extract_int-print_ℤ}
use lite_database.Types.{
  Date, Time, date_from_string, time_from_string, date_to_string, time_to_string,
}

-- Three `int`s with one byte between them, read from a good stream.
read_last : (old : ℤ) (z : ℤ) → IsSigned 32 z → (extract_int old (opened (print_ℤ z))).0 ≡ z
read_last old z h =
    ap (λ s. (extract_int old (opened s)).0) (sym (append-nil (print_ℤ z)))
    ∙ ap (λ p. p.0) (extract_int-print_ℤ old z [] h tt)

-- All three fields of a date fit an `int`.
abbrev pub DateFits : Date → Type 0
DateFits d = IsSigned 32 d.day × IsSigned 32 d.month × IsSigned 32 d.year

abbrev pub TimeFits : Time → Type 0
TimeFits t = IsSigned 32 t.hour × IsSigned 32 t.minute × IsSigned 32 t.second

-- Every date, of negative numbers too, is read back from its text, whatever the variable of
-- `fromString` held before.
pub date_from_string-date_to_string :
    (junk d : Date) → DateFits d → date_from_string junk (date_to_string d) ≡ d
unfolding date_from_string date_to_string ignore
date_from_string-date_to_string junk d (fd, fm, fy) =
    rw
      (extract_int-print_ℤ junk.year d.year (b'-' ∷ (print_ℤ d.month ++ b'-' ∷ print_ℤ d.day)) fy
        refl)
      (rw (extract_int-print_ℤ junk.month d.month (b'-' ∷ print_ℤ d.day) fm refl)
        (rw (read_last junk.day d.day fd)))

-- So is every time of day.
pub time_from_string-time_to_string :
    (junk t : Time) → TimeFits t → time_from_string junk (time_to_string t) ≡ t
unfolding time_from_string time_to_string ignore
time_from_string-time_to_string junk t (fh, fm, fs) =
    rw
      (extract_int-print_ℤ junk.hour t.hour (b':' ∷ (print_ℤ t.minute ++ b':' ∷ print_ℤ t.second))
        fh refl)
      (rw (extract_int-print_ℤ junk.minute t.minute (b':' ∷ print_ℤ t.second) fm refl)
        (rw (read_last junk.second t.second fs)))
