-- ===== src/Tests/SqliteRuns.antt =====
-- Examples for SQLite/SQLiteSession.cpp, with a small database in place of the SQLite library.
use lite_database.Common.{
  ℕ, ◌≡◌, refl, Bool, true, List, [], ◌∷◌, codes, arith, suc, zero, Bytes, Option, some, none, ℤ,
  pos, false, length, ◌<◌, ap, sym, subst, ◌+◌, ◌-◌,
}
use lite_database.Outcome.{Outcome, ok}
use lite_database.Any.{Any}
use lite_database.Row.{Row, Results}
use lite_database.Tests.Values.{ops}
use lite_database.Sqlite.{
  Sqlite, SqliteSession, Column, column_row, query, new_sqlite_session, close_session, open_session,
  is_ok, is_row, open_args,
}
use lite_database.Sqlite.Visits.{Reading, Reads, visits, query-visits}
use lite_database.Sqlite.Connections.{Connects, after_close, open-close_lem}
use lite_database.Sqlite.State.{Reachable, IsConnected, session_states}

-- Every byte of a text is a statement, with one row: the state counts the rows that are left.
abbrev prepare_byte : Option ℕ → Bytes → ℕ → ℤ × Option ℕ × Bytes × ℕ
prepare_byte conn [] w = (pos 1, none, [], w)
prepare_byte conn (c ∷ tail) w = (pos 0, some c, tail, 1)

abbrev step_down : Option ℕ → ℕ → ℤ × ℕ
step_down stmt zero = (pos 101, zero)
step_down stmt (suc n) = (pos 100, n)

abbrev small_sqlite : Sqlite ℕ
small_sqlite = record {
  open_file = λ name w. (pos 0, some 1, w);
  open_v2 = λ name flags w. (pos 14, some 1, w);
  close = λ h w. w;
  exec = λ conn sql w. (pos 0, [], w);
  prepare = prepare_byte;
  step = step_down;
  columns = λ stmt w. (codes "n", Column.integer (pos w)) ∷ [];
  finalize = λ stmt w. w;
  errcode = λ conn w. pos 1;
  errmsg = λ conn w. codes "error";
}

abbrev one_row : Row
one_row = column_row ((codes "n", Column.integer (pos 0)) ∷ [])

abbrev opened_session : Outcome (Unit {0}) × SqliteSession × ℕ
opened_session =
    open_session small_sqlite ops ((codes "target", Any.std_string (codes ":memory:")) ∷ [])
      new_sqlite_session 0

session_states_example :
    IsConnected opened_session.1
    × ((close_session small_sqlite opened_session.1 opened_session.2).0 ≡ new_sqlite_session)
session_states_example = session_states small_sqlite ops (
    Reachable.open_call (Reachable.start 0)
      ((codes "target", Any.std_string (codes ":memory:")) ∷ []) refl)

-- A statement's rows count down to 0.
abbrev rows_left : ℕ → Results
rows_left zero = []
rows_left (suc n) = column_row ((codes "n", Column.integer (pos n)) ∷ []) ∷ rows_left n

abbrev read_byte : Reading
read_byte [] = none
read_byte (c ∷ tail) = some (tail, rows_left 1)

abbrev Running : Option ℕ → Results → ℕ → Type 0
Running stmt rows w = rows ≡ rows_left w

byte_prepared :
    (sql tail : Bytes) (rows : Results) (w : ℕ)
    → Unit {0}
    → read_byte sql ≡ some (tail, rows)
    → (rc : ℤ) × (stmt : Option ℕ) × (w' : ℕ) × (prepare_byte (some 1) sql w ≡ (rc, stmt, tail, w'))
      × (is_ok rc ≡ true)
      × (length rows < 2)
      × Running stmt rows w'
byte_prepared [] tail rows w u e = absurd (cc)
byte_prepared (c ∷ behind) tail rows w u e =
    let same : rows_left 1 ≡ rows = cc in
    let rest : behind ≡ tail = cc in
    (
      pos 0,
      some c,
      1,
      ap (λ t. (pos 0, some c, t, 1)) rest,
      refl,
      subst (λ r. length r < 2) same (omega arith),
      sym same,
    )

row_stepped :
    (stmt : Option ℕ) (row : Row) (rows : Results) (w : ℕ)
    → Running stmt (row ∷ rows) w
    → (rc : ℤ) × (w' : ℕ) × (step_down stmt w ≡ (rc, w'))
      × (is_row rc ≡ true)
      × (column_row ((codes "n", Column.integer (pos w')) ∷ []) ≡ row)
      × Running stmt rows w'
row_stepped stmt row rows zero run = absurd (cc)
row_stepped stmt row rows (suc n) run = (pos 100, n, refl, refl, cc, cc)

rows_ended :
    (stmt : Option ℕ) (w : ℕ)
    → Running stmt [] w
    → (rc : ℤ) × (w' : ℕ) × (step_down stmt w ≡ (rc, w')) × (is_row rc ≡ false) × Running stmt [] w'
rows_ended stmt zero run = (pos 101, zero, refl, refl, refl)
rows_ended stmt (suc n) run = absurd (cc)

small-Reads : Reads small_sqlite 2 (some 1) read_byte (λ w. Unit) Running
small-Reads = record {
  prepared = byte_prepared;
  stepped = row_stepped;
  ended = rows_ended;
  finalized = λ stmt rows w run. tt;
}

-- A callback that returns false at once is called on the second statement all the same.
abbrev keep_and_stop : Results → Row → ℕ → Results × Outcome Bool
keep_and_stop rows row n = (row ∷ rows, ok false)

query-visits_example :
    (w' : ℕ) × (query small_sqlite 2 2 (some 1) (codes "ab") keep_and_stop 0 [] 0
      ≡ some (ok tt, one_row ∷ one_row ∷ [], w'))
    × Unit {0}
unfolding visits
query-visits_example =
    query-visits small_sqlite 2 2 (some 1) read_byte (λ w. Unit) Running small-Reads (codes "ab")
      keep_and_stop 0 [] (one_row ∷ one_row ∷ []) 0 (ok tt) tt refl

-- The same library, which counts its connections.
abbrev connecting_sqlite : Sqlite ℕ
connecting_sqlite = record small_sqlite {
  open_file = λ name w. (pos 0, some 1, w + 1);
  open_v2 = λ name flags w. (pos 14, some 1, w + 1);
  close = λ h w. w - 1;
}

-- No connection has statements that are left.
abbrev none_left : ℕ → ℕ → Option ℕ
none_left h w = some 0

connecting-Connects : Connects connecting_sqlite (λ w. w) none_left
connecting-Connects = record {
  open_file_holds = λ name w. refl;
  open_v2_holds = λ name flags w. refl;
  open_file_fresh = λ name w. refl;
  open_v2_fresh = λ name flags w. refl;
  close_frees = λ h w. refl;
}

abbrev memory : List (Bytes × Any)
memory = (codes "target", Any.std_string (codes ":memory:")) ∷ []

abbrev with_seven : SqliteSession
with_seven = record { is_open = true; conn = some 7 }

-- A session that had connection 7 is opened again.
abbrev opened_again : Outcome (Unit {0}) × SqliteSession × ℕ
opened_again = open_session connecting_sqlite ops memory with_seven 1

open-close_lem_example :
    ((close_session connecting_sqlite with_seven 1).0.conn ≡ none)
    × ((close_session connecting_sqlite with_seven 1).1 ≡ 0)
    × ((close_session connecting_sqlite opened_again.1 opened_again.2).1
        ≡ after_close (open_args ops memory) 1 1)
open-close_lem_example =
    open-close_lem connecting_sqlite (λ w. w) none_left connecting-Connects ops memory with_seven 1
