-- ===== src/Tests/MysqlResults.antt =====
-- Examples for the results and the integer columns of MySQL/MySQLSession.cpp, with a small library
-- that counts its results and serves an abstract database.
use lite_database.Common.{
  ℕ, ◌≡◌, refl, ap, subst, ◌+◌, ◌-◌, ◌<◌, ◌∙◌, ◌⊎◌, true, false, List, [], ◌∷◌, codes, arith, suc,
  zero, Bytes, Option, some, none, ℤ, pos, negsuc, length, in_signed, if◌then◌else◌,
}
use lite_database.Outcome.{Error, ok, raise}
use lite_database.Any.{Any}
use lite_database.Any.Numbers.{IntType, int_target, get_number}
use lite_database.Std.Decimal.{print_ℤ, print_ℕ}
use lite_database.Row.{Results, row_of}
use lite_database.Session.{query}
use lite_database.Utils.Split.{split, pieces, split-pieces}
use lite_database.Mysql.{Mysql, MysqlSession, is_ok, query as mysql_query}
use lite_database.Mysql.Columns.{FieldType, row_loop, column_value, text_value}
use lite_database.Mysql.Columns.Moments.{Moment, MomentFits, date_of, time_of, server_moment_lem}
use lite_database.Mysql.Columns.Reading.{IntColumn, IsWrapped, integer_column_lem}
use lite_database.Mysql.Statements.{Fetched, collect, statements, query_result_rows}
use lite_database.Mysql.Resources.{Counts, query_frees}
use lite_database.Database.{Answers}
use lite_database.Database.OverMysql.{Serves, mysql_methods, query-single}
use lite_database.Tests.Values.{ops}
use lite_database.Tests.MysqlRuns.{blank, fields, one_row}

-- The library's state: the rows that are left, the results held and the statements that were run.
pub record Server : Type 0 where
  pub rows : ℕ
  pub held : ℕ
  pub ran : ℕ

abbrev fetch_one : ℕ → ℕ → ℕ → Option (List (Option Bytes)) × Server
fetch_one zero h n = (none, record { rows = zero; held = h; ran = n })
fetch_one (suc r) h n = (some (some (codes "x") ∷ []), record { rows = r; held = h; ran = n })

-- Every statement has one row with one column.
abbrev served_mysql : Mysql Server
served_mysql = record {
  init = λ conn w. (some 1, w);
  real_connect = λ conn host user passwd db port w. (conn, w);
  close = λ h w. w;
  real_query = λ conn sql w. (pos 0, record { rows = 1; held = w.held; ran = suc w.ran });
  use_result = λ conn w. (some 2, record { rows = w.rows; held = w.held + 1; ran = w.ran });
  fields = λ res w. (fields, w);
  fetch_row = λ res w. fetch_one w.rows w.held w.ran;
  free_result = λ res w. record { rows = w.rows; held = w.held - 1; ran = w.ran };
  select_db = λ conn db w. (pos 0, w);
  change_user = λ conn user passwd w. (pos 0, w);
  ping = λ conn w. (pos 0, w);
  errno = λ conn w. pos 0;
  error = λ conn w. [];
}

fetch_counts : (r h n : ℕ) → (fetch_one r h n).1.held ≡ h
fetch_counts zero h n = refl
fetch_counts (suc r) h n = refl

served-Counts : Counts served_mysql (λ w. w.held)
served-Counts = record {
  real_query_keeps = λ conn sql w. refl;
  use_result_holds = λ conn w. refl;
  fields_keep = λ res w. refl;
  fetch_row_keeps = λ res w. fetch_counts w.rows w.held w.ran;
  free_result_frees = λ res w. refl;
}

abbrev fresh : Server
fresh = record { rows = 0; held = 0; ran = 0 }

abbrev after_one : Server
after_one = record { rows = 0; held = 0; ran = 1 }

one_statement : statements (split (codes "select;") b';') ≡ 1
unfolding pieces
one_statement = rw (split-pieces (codes "select;") b';') refl

one_result :
    Fetched served_mysql ops blank 2 fields
      (record { rows = 1; held = 1; ran = 1 })
      (one_row ∷ [])
      (record { rows = 0; held = 1; ran = 1 })
unfolding row_loop column_value text_value row_of
one_result = Fetched.row refl refl (Fetched.done refl)

one_queried :
    mysql_query served_mysql ops blank 2 (some 1) (codes "select;") collect [] fresh
    ≡ some (ok tt, one_row ∷ [], after_one)
one_queried =
    query_result_rows served_mysql ops blank 2 (some 1) (codes "select;") fresh one_statement refl
      refl refl refl one_result (omega arith)

query_frees_example : after_one.held ≡ fresh.held
query_frees_example =
    query_frees served_mysql (λ w. w.held) served-Counts ops blank 2 (some 1) (codes "select;")
      collect [] (one_row ∷ []) fresh after_one (ok tt) one_queried

-- The abstract database: every text has one row and is counted.
abbrev texts_run : Answers ℕ
texts_run sql d = some (one_row ∷ [], suc d)

abbrev HasRun : Option ℕ → Server → ℕ → Type 0
HasRun conn w d = w.ran ≡ d

text_served :
    (conn : Option ℕ) (sql : Bytes) (w : Server) (d d' : ℕ) (rows : Results)
    → HasRun conn w d
    → texts_run sql d ≡ some (rows, d')
    → (errc : ℤ) × (res : ℕ) × (columns : List (Bytes × FieldType)) × (w₁ : Server) × (w₂ : Server)
      × (w₃ : Server) × (w₄ : Server) × (served_mysql.real_query conn sql w ≡ (errc, w₁))
      × (is_ok errc ≡ true)
      × (served_mysql.use_result conn w₁ ≡ (some res, w₂))
      × (served_mysql.fields res w₂ ≡ (columns, w₃))
      × Fetched served_mysql ops blank res columns w₃ rows w₄
      × (length rows < 2)
      × HasRun conn (served_mysql.free_result res w₄) d'
unfolding row_loop column_value text_value row_of
text_served conn sql w d d' rows h e =
    let same : one_row ∷ [] ≡ rows = cc in
    let counted : suc d ≡ d' = cc in
    let v₁ = (served_mysql.real_query conn sql w).1 in
    let v₂ = (served_mysql.use_result conn v₁).1 in
    let v₄ = (served_mysql.fetch_row 2 v₂).1 in
    (
      pos 0,
      2,
      fields,
      v₁,
      v₂,
      v₂,
      v₄,
      refl,
      refl,
      refl,
      refl,
      subst (λ r. Fetched served_mysql ops blank 2 fields v₂ r v₄) same
          (Fetched.row refl refl (Fetched.done refl)),
      subst (λ r. length r < 2) same (omega arith),
      ap suc h ∙ counted,
    )

served : Serves served_mysql ops blank 2 texts_run HasRun
served = record { serves = text_served }

abbrev session : MysqlSession
session = record { is_open = false; conn = some 1 }

query-single_example :
    (w' : Server) × (query
        (mysql_methods served_mysql ops blank 2)
        (codes "select;")
        (session, fresh)
      ≡ (ok (one_row ∷ []), (session, w')))
    × (w'.ran ≡ 1)
query-single_example =
    query-single served_mysql ops blank 2 texts_run HasRun served session (codes "select;") fresh 0
      1 (one_row ∷ []) one_statement refl refl

-- 200 in an unsigned TINYINT.
integer_column_lem_example :
    (v : ℤ) × IsWrapped IntType.char (pos 200) v
    × (column_value ops blank FieldType.tiny (some (codes "200"))
        ≡ (if in_signed 32 (pos 200) then ok (Any.char v) else raise Error.out_of_range))
    × ((v ≡ pos 200) ⊎ (in_signed 8 (pos 200) ≡ false))
    × (get_number (int_target ops IntType.long_long) (Any.char v) ≡ ok v)
unfolding print_ℤ print_ℕ
integer_column_lem_example = integer_column_lem ops blank IntColumn.tiny (pos 200)

-- 2022-07-02 00:30:05 and a half.
abbrev moment : Moment
moment = record { year = 2022; month = 7; day = 2; hour = 0; minute = 30; second = 5 }

moment-MomentFits : MomentFits moment
moment-MomentFits = record {
  year_fits = omega arith;
  month_fits = omega arith;
  day_fits = omega arith;
  hour_fits = omega arith;
  minute_fits = omega arith;
  second_fits = omega arith;
}

-- With a minus in front, the hour 0 loses the sign.
server_moment_lem_example :
    (column_value ops blank FieldType.date (some (codes "2022-07-02"))
      ≡ ok (Any.date (date_of moment)))
    × (column_value ops blank FieldType.time (some (codes "00:30:05.5"))
        ≡ ok (Any.time (time_of (pos 0) moment)))
    × (column_value ops blank FieldType.datetime (some (codes "2022-07-02 00:30:05.5"))
        ≡ ok (
            Any.date_time (record {
              date = date_of moment;
              time = time_of (pos 0) moment;
              time_zone = negsuc 0;
            })))
    × (column_value ops blank FieldType.time (some (codes "-00:30:05.5"))
        ≡ ok (Any.time (time_of (pos 0) moment)))
unfolding print_ℕ
server_moment_lem_example =
    server_moment_lem ops blank moment (codes ".5") moment-MomentFits
      (refl, omega arith, omega arith)
