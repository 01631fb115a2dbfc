-- ===== src/Types/Zone.antt =====
-- Core/Mess.cpp: `DateTime` with its time zone, written and read back.
use lite_database.Common.{
  ℕ, suc, ◌+◌, ◌<◌, ◌^◌, ◌≡◌, refl, sym, ap, ◌∙◌, [], ◌∷◌, ◌++◌, append-nil, arith, Bytes, ℤ, pos,
  negsuc, All-append,
}
use lite_database.Outcome.{ok, raise, Error, ◌>>=◌}
use lite_database.Std.Decimal.{print_ℕ, print_ℤ}
use lite_database.Std.Convert.{stoi, string_to_int, string_to_int-print_ℕ}
use lite_database.Utils.Split.{split}
use lite_database.Utils.Split.Lines.{split-single, split_front}
use lite_database.Types.{
  Date, Time, DateTime, date_time_from_string, time_part, zoned_time, date_to_string,
  time_to_string, zone_to_string, date_time_to_string,
}
use lite_database.Types.RoundTrip.{
  DateFits, TimeFits, date_from_string-date_to_string, time_from_string-time_to_string,
}
use lite_database.Types.Letters.{
  TimeNonneg, date-Lacks, time-Lacks, zone-Lacks, time_no_dash, time-ne-nil, contains-Lacks,
  contains_after, print_ℕ_no_dash, print_ℕ-ne-nil,
}

-- A zone that the text can carry: none, which is -1, or a number from 0 on.
abbrev pub ZoneFits : ℤ → Type 0
ZoneFits (pos n) = n < 2 ^ 31
ZoneFits (negsuc n) = n ≡ 0

-- Reading a written date and time comes down to reading the part behind the space.
date_time_parts :
    (jd d : Date) (jt t : Time) (z : ℤ)
    → DateFits d
    → date_time_from_string jd jt
        (date_time_to_string (record { date = d; time = t; time_zone = z }))
      ≡ (time_part jt (time_to_string t ++ zone_to_string z) >>= λ p.
          ok (record { date = d; time = p.0; time_zone = p.1 }))
unfolding date_time_from_string date_time_to_string
date_time_parts jd d jt t z fits =
    let part = time_to_string t ++ zone_to_string z in
    let single : split part b' ' ≡ part ∷ [] =
      split-single part b' ' (time-ne-nil t (zone_to_string z))
        (All-append _ (time_to_string t) (zone_to_string z) (time-Lacks t) (zone-Lacks z)) in
    rw (split_front (date_to_string d) part b' ' (date-Lacks d))
      (rw single (rw (date_from_string-date_to_string jd d fits)))

stoi-print_ℕ : (n : ℕ) → n < 2 ^ 31 → stoi (print_ℕ n) ≡ ok (pos n)
stoi-print_ℕ n h =
    ap stoi (sym (append-nil (print_ℕ n))) ∙ string_to_int-print_ℕ 32 n [] tt (ground arith)

-- A dash behind the time begins the zone.
time_part_dash :
    (jt t : Time) (s : Bytes)
    → TimeNonneg t
    → time_part jt (time_to_string t ++ b'-' ∷ s) ≡ zoned_time jt (time_to_string t ∷ split s b'-')
unfolding time_part
time_part_dash jt t s nn =
    rw (contains_after (time_to_string t) s b'-')
      (rw (split_front (time_to_string t) s b'-' (time_no_dash t nn)))

time_part_zone :
    (jt t : Time) (z : ℤ)
    → TimeFits t
    → TimeNonneg t
    → ZoneFits z
    → time_part jt (time_to_string t ++ zone_to_string z) ≡ ok (t, z)
unfolding zone_to_string
time_part_zone jt t (pos n) ft nn fz =
    time_part_dash jt t (print_ℤ (pos n)) nn
    ∙ unfold print_ℤ zoned_time in
      rw (split-single (print_ℕ n) b'-' (print_ℕ-ne-nil n) (print_ℕ_no_dash n))
        (rw (stoi-print_ℕ n fz) (rw (time_from_string-time_to_string jt t ft)))
time_part_zone jt t (negsuc n) ft nn fz = rw fz (
    rw (append-nil (time_to_string t)) (
      unfold time_part in
      rw (contains-Lacks (time_to_string t) b'-' (time_no_dash t nn))
        (rw (time_from_string-time_to_string jt t ft))))

zone_west : (n : ℕ) → zone_to_string (negsuc (suc n)) ≡ b'-' ∷ b'-' ∷ print_ℕ (suc n + 1)
unfolding zone_to_string print_ℤ
zone_west n = ground arith

west_part :
    (jt t : Time) (n : ℕ)
    → TimeNonneg t
    → time_part jt (time_to_string t ++ zone_to_string (negsuc (suc n)))
      ≡ raise Error.invalid_argument
west_part jt t n nn = rw (zone_west n) (
    time_part_dash jt t (b'-' ∷ print_ℕ (suc n + 1)) nn
    ∙ rw (split_front [] (print_ℕ (suc n + 1)) b'-' tt) (unfold zoned_time string_to_int in refl))

-- A date and time is read back from its text if the time of day is not negative and the zone is
-- absent or not negative.
pub date_time_from_string-date_time_to_string :
    (jd : Date) (jt : Time) (t : DateTime)
    → DateFits t.date
    → TimeFits t.time
    → TimeNonneg t.time
    → ZoneFits t.time_zone
    → date_time_from_string jd jt (date_time_to_string t) ≡ ok t
date_time_from_string-date_time_to_string jd jt t fd ft nn fz =
    date_time_parts jd t.date jt t.time t.time_zone fd
    ∙ rw (time_part_zone jt t.time t.time_zone ft nn fz)

-- A zone below -1 is written with two dashes, and reading that text throws `std::invalid_argument`, if
-- the numbers of the date are ints and none of the time of day is negative.
pub date_time_from_string_west :
    (jd : Date) (jt : Time) (d : Date) (t : Time) (n : ℕ)
    → DateFits d
    → TimeNonneg t
    → date_time_from_string jd jt
        (date_time_to_string (record { date = d; time = t; time_zone = negsuc (suc n) }))
      ≡ raise Error.invalid_argument
date_time_from_string_west jd jt d t n fd nn =
    date_time_parts jd d jt t (negsuc (suc n)) fd ∙ rw (west_part jt t n nn)
