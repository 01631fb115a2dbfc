-- ===== src/Mysql/Columns/Moments.antt =====
-- MySQL/MySQLSession.cpp, `query`: what the columns of dates and times become, for the texts that
-- the server writes for them, such as `2022-07-02 09:05:03.250`.
use lite_database.Common.{
  ℕ, ◌<◌, ◌^◌, ◌≡◌, refl, sym, ap, ◌∙◌, true, some, [], ◌∷◌, ◌++◌, append-nil, arith, Bytes, ℤ, pos,
  negsuc, signed, All-append, Lacks,
}
use lite_database.Outcome.{ok, ◌>>=◌}
use lite_database.Std.Stream.{EndsNumber, opened, extract_int, ignore}
use lite_database.Std.Stream.Padded.{
  padded, padded-All, extract_int-padded, extract_int-minus_padded,
}
use lite_database.Utils.Split.{split}
use lite_database.Utils.Split.Lines.{split-single, split_front}
use lite_database.Types.{
  Date, Time, date_from_string, time_from_string, date_time_from_string, time_part,
}
use lite_database.Types.Letters.{digits-Lacks, joined-Lacks, append_cons-ne-nil, contains-Lacks}
use lite_database.Any.{Any}
use lite_database.Any.Numbers.{FloatOps}
use lite_database.Mysql.Columns.{FieldType, Blank, column_value, text_value}

-- A date and a time of day, as the server holds them.
pub record Moment : Type 0 where
  pub year : ℕ
  pub month : ℕ
  pub day : ℕ
  pub hour : ℕ
  pub minute : ℕ
  pub second : ℕ

-- Every number fits an `int`.
pub record MomentFits (m : Moment) : Type 0 where
  pub year_fits : m.year < 2 ^ 31
  pub month_fits : m.month < 2 ^ 31
  pub day_fits : m.day < 2 ^ 31
  pub hour_fits : m.hour < 2 ^ 31
  pub minute_fits : m.minute < 2 ^ 31
  pub second_fits : m.second < 2 ^ 31

-- What may stand behind the seconds: nothing, or a fraction.
abbrev pub IsFraction : Bytes → Type 0
IsFraction frac = EndsNumber frac × Lacks b' ' frac × Lacks b'-' frac

-- The server writes the year with four digits and the others with two.
abbrev pub server_date : Moment → Bytes
server_date m = padded 4 m.year ++ b'-' ∷ (padded 2 m.month ++ b'-' ∷ padded 2 m.day)

abbrev pub server_time : Moment → Bytes → Bytes
server_time m frac =
    padded 2 m.hour ++ b':' ∷ (padded 2 m.minute ++ b':' ∷ (padded 2 m.second ++ frac))

abbrev pub server_date_time : Moment → Bytes → Bytes
server_date_time m frac = server_date m ++ b' ' ∷ server_time m frac

abbrev pub date_of : Moment → Date
date_of m = record { day = pos m.day; month = pos m.month; year = pos m.year }

-- The time of day, with its hour.
abbrev pub time_of : ℤ → Moment → Time
time_of hour m = record { hour = hour; minute = pos m.minute; second = pos m.second }

read_last : (old : ℤ) (n : ℕ) → n < 2 ^ 31 → (extract_int old (opened (padded 2 n))).0 ≡ pos n
read_last old n h =
    ap (λ s. (extract_int old (opened s)).0) (sym (append-nil (padded 2 n)))
    ∙ ap (λ p. p.0) (extract_int-padded old 2 n [] tt h)

server_date_read :
    (junk : Date) (m : Moment) → MomentFits m → date_from_string junk (server_date m) ≡ date_of m
unfolding date_from_string ignore
server_date_read junk m fits =
    rw
      (extract_int-padded junk.year 4 m.year (b'-' ∷ (padded 2 m.month ++ b'-' ∷ padded 2 m.day))
        refl fits.year_fits)
      (rw (extract_int-padded junk.month 2 m.month (b'-' ∷ padded 2 m.day) refl fits.month_fits)
        (rw (read_last junk.day m.day fits.day_fits)))

-- The part of a time behind the hour.
abbrev behind_hour : Moment → Bytes → Bytes
behind_hour m frac = b':' ∷ (padded 2 m.minute ++ b':' ∷ (padded 2 m.second ++ frac))

module _ (junk : Time) (m : Moment) (frac : Bytes) (fits : MomentFits m)
    (ends : EndsNumber frac) where
  server_time_read : time_from_string junk (server_time m frac) ≡ time_of (pos m.hour) m
  unfolding time_from_string ignore
  server_time_read =
      rw (extract_int-padded junk.hour 2 m.hour (behind_hour m frac) refl fits.hour_fits) (
        rw
          (extract_int-padded junk.minute 2 m.minute (b':' ∷ (padded 2 m.second ++ frac)) refl
            fits.minute_fits)
          (rw (extract_int-padded junk.second 2 m.second frac ends fits.second_fits)))

  minus_time_read :
      time_from_string junk (b'-' ∷ server_time m frac) ≡ time_of (signed true m.hour) m
  unfolding time_from_string ignore
  minus_time_read =
      rw (extract_int-minus_padded junk.hour 2 m.hour (behind_hour m frac) refl fits.hour_fits) (
        rw
          (extract_int-padded junk.minute 2 m.minute (b':' ∷ (padded 2 m.second ++ frac)) refl
            fits.minute_fits)
          (rw (extract_int-padded junk.second 2 m.second frac ends fits.second_fits)))

padded-Lacks_space : (w n : ℕ) → Lacks b' ' (padded w n)
padded-Lacks_space w n = digits-Lacks b' ' (padded w n) refl (padded-All w n)

padded-Lacks_dash : (w n : ℕ) → Lacks b'-' (padded w n)
padded-Lacks_dash w n = digits-Lacks b'-' (padded w n) refl (padded-All w n)

server_date-Lacks : (m : Moment) → Lacks b' ' (server_date m)
server_date-Lacks m =
    joined-Lacks b' ' b'-' _ _ _ (omega arith) (padded-Lacks_space 4 m.year)
      (padded-Lacks_space 2 m.month) (padded-Lacks_space 2 m.day)

server_time-Lacks :
    (b : ℕ) (m : Moment) (frac : Bytes)
    → ((w n : ℕ) → Lacks b (padded w n))
    → (◌≡◌ {A = ℕ} b':' b → ⊥)
    → Lacks b frac
    → Lacks b (server_time m frac)
server_time-Lacks b m frac digits ne h =
    joined-Lacks b b':' _ _ _ ne (digits 2 m.hour) (digits 2 m.minute)
      (All-append _ (padded 2 m.second) frac (digits 2 m.second) h)

server_date_time_read :
    (jd : Date) (jt : Time) (m : Moment) (frac : Bytes)
    → MomentFits m
    → IsFraction frac
    → date_time_from_string jd jt (server_date_time m frac)
      ≡ ok (record { date = date_of m; time = time_of (pos m.hour) m; time_zone = negsuc 0 })
unfolding date_time_from_string time_part
server_date_time_read jd jt m frac fits (ends, no_space, no_dash) =
    let part = server_time m frac in
    let single : split part b' ' ≡ part ∷ [] =
      split-single part b' ' (append_cons-ne-nil (padded 2 m.hour) _ b':')
        (server_time-Lacks b' ' m frac padded-Lacks_space (omega arith) no_space) in
    rw (split_front (server_date m) part b' ' (server_date-Lacks m)) (
      rw single (
        rw (server_date_read jd m fits) (
          rw
            (contains-Lacks part b'-'
              (server_time-Lacks b'-' m frac padded-Lacks_dash (omega arith) no_dash))
            (rw (server_time_read jt m frac fits ends)))))

-- The columns DATE, TIME and DATETIME hold what the server wrote, up to a fraction of a second, which
-- is lost; a DATETIME has no zone. Of a negative TIME only the hour is negative, and the sign is
-- lost where the hour is 0.
pub server_moment_lem :
    (ops : FloatOps) (blank : Blank) (m : Moment) (frac : Bytes)
    → MomentFits m
    → IsFraction frac
    → (column_value ops blank FieldType.date (some (server_date m)) ≡ ok (Any.date (date_of m)))
      × (column_value ops blank FieldType.time (some (server_time m frac))
          ≡ ok (Any.time (time_of (pos m.hour) m)))
      × (column_value ops blank FieldType.datetime (some (server_date_time m frac))
          ≡ ok (
              Any.date_time
                (record { date = date_of m; time = time_of (pos m.hour) m; time_zone = negsuc 0 })))
      × (column_value ops blank FieldType.time (some (b'-' ∷ server_time m frac))
          ≡ ok (Any.time (time_of (signed true m.hour) m)))
unfolding column_value text_value
server_moment_lem ops blank m frac fits (ends, no_space, no_dash) = (
  ap (λ d. ok (Any.date d)) (server_date_read blank.date m fits),
  ap (λ t. ok (Any.time t)) (server_time_read blank.time m frac fits ends),
  ap (λ o. o >>= λ t. ok (Any.date_time t))
      (server_date_time_read blank.date blank.time m frac fits (ends, no_space, no_dash)),
  ap (λ t. ok (Any.time t)) (minus_time_read blank.time m frac fits ends),
)
