-- ===== src/Tests/MysqlRuns.antt =====
-- Examples for MySQL/MySQLSession.cpp, with a small database in place of the MySQL library.
use lite_database.Common.{
  ℕ, ◌≡◌, refl, ◌+◌, ◌^◌, false, List, [], ◌∷◌, codes, arith, suc, zero, Bytes, Option, some, none,
  pos, inl, inr,
}
use lite_database.Outcome.{Outcome, ok}
use lite_database.Any.{Any}
use lite_database.Row.{Row, row_of}
use lite_database.Tests.Values.{ops, day, noon}
use lite_database.Mysql.{Mysql, MysqlSession, query, is_open, new_mysql_session, open_session}
use lite_database.Mysql.Columns.{FieldType, Blank, bits}
use lite_database.Mysql.Columns.Bits.{bit_value, Exact, bits_lem}
use lite_database.Mysql.Statements.{collect, repeat, statements, query_repeats}
use lite_database.Mysql.State.{Reachable, never_open}
use lite_database.Utils.Split.{split}

abbrev pub blank : Blank
blank = record { date = day; time = noon; add_pow = λ r i. r + 2 ^ i }

-- Every statement has one row with one column: the state counts the rows that are left.
abbrev fetch_down : ℕ → ℕ → Option (List (Option Bytes)) × ℕ
fetch_down res zero = (none, zero)
fetch_down res (suc n) = (some (some (codes "x") ∷ []), n)

abbrev pub fields : List (Bytes × FieldType)
fields = (codes "c", FieldType.varchar) ∷ []

abbrev small_mysql : Mysql ℕ
small_mysql = record {
  init = λ conn w. (some 1, w);
  real_connect = λ conn host user passwd db port w. (conn, w);
  close = λ h w. w;
  real_query = λ conn sql w. (pos 0, 1);
  use_result = λ conn w. (some 2, w);
  fields = λ res w. (fields, w);
  fetch_row = fetch_down;
  free_result = λ res w. w;
  select_db = λ conn db w. (pos 0, w);
  change_user = λ conn user passwd w. (pos 0, w);
  ping = λ conn w. (pos 0, w);
  errno = λ conn w. pos 0;
  error = λ conn w. [];
}

blank-Exact : Exact blank
blank-Exact r i h = refl

bits_lem_example : bits blank (codes "001") ≡ ok 4
unfolding bit_value
bits_lem_example =
    bits_lem blank (codes "001") blank-Exact (inl refl, (inl refl, (inr refl, tt))) (omega arith)

abbrev pub one_row : Row
one_row = row_of ((codes "c", Any.std_string (codes "x")) ∷ []) []

query_repeats_example :
    query small_mysql ops blank 2 (some 1) (codes "a;b") collect [] 0
    ≡ repeat small_mysql ops blank 2
        (some 1)
        (codes "a;b")
        collect
        (statements (split (codes "a;b") b';'))
        0
        []
        0
query_repeats_example = query_repeats small_mysql ops blank 2 (some 1) (codes "a;b") collect [] 0

abbrev arguments : List (Bytes × Any)
arguments =
    (codes "host", Any.std_string (codes "h"))
    ∷ (codes "user", Any.std_string (codes "u"))
    ∷ (codes "passwd", Any.std_string (codes "p"))
    ∷ []

abbrev opened_session : Outcome (Unit {0}) × MysqlSession × ℕ
opened_session = open_session small_mysql ops arguments new_mysql_session 0

never_open_example :
    (opened_session.1.is_open ≡ false)
    × ((is_open small_mysql opened_session.1 opened_session.2).0 ≡ false)
never_open_example =
    never_open small_mysql ops (Reachable.open_call (Reachable.start 0) arguments refl)
