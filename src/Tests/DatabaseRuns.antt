-- ===== src/Tests/DatabaseRuns.antt =====
-- Examples for sessions over an abstract database, with small libraries that serve it.
use lite_database.Common.{
  ℕ, ◌≡◌, refl, ap, subst, ◌⊎◌, ◌+◌, ◌-◌, Bool, true, List, [], ◌∷◌, codes, arith, suc, zero, Bytes,
  Option, some, none, ℤ, pos, length, ◌<◌, ◌∙◌,
}
use lite_database.Std.Handles.{one}
use lite_database.Outcome.{Error, raise, Outcome, ok}
use lite_database.Row.{Row, Results}
use lite_database.Session.{query}
use lite_database.Sqlite.{
  Sqlite, SqliteSession, Column, column_row, is_ok, step_loop, query as sqlite_query,
}
use lite_database.Sqlite.Rows.{Steps}
use lite_database.Sqlite.Resources.{Counts, ThrownBy, query_finalizes, query_throw_leaks}
use lite_database.Once.Template.{filled}
use lite_database.Database.{Statements, script}
use lite_database.Database.Client.{Template, TemplatesFit, run, run-answers, answers_all}
use lite_database.Database.OverSqlite.{Serves, sqlite_methods, query-script, sqlite-Implements}

-- The library's state: the rows that are left, the open statements and the statements that were run.
pub record Server : Type 0 where
  pub rows : ℕ
  pub opened : ℕ
  pub ran : ℕ

-- Every byte of a text is a statement with one row.
abbrev prepare_byte : Option ℕ → Bytes → Server → ℤ × Option ℕ × Bytes × Server
prepare_byte conn [] w = (pos 1, none, [], w)
prepare_byte conn (c ∷ tail) w =
    (pos 0, some c, tail, record { rows = 1; opened = w.opened + 1; ran = w.ran })

abbrev step_on : ℕ → ℕ → ℕ → ℤ × Server
step_on zero o n = (pos 101, record { rows = zero; opened = o; ran = n })
step_on (suc r) o n = (pos 100, record { rows = r; opened = o; ran = n })

abbrev finalize_one : Option ℕ → Server → Server
finalize_one none w = w
finalize_one (some h) w = record { rows = w.rows; opened = w.opened - 1; ran = suc w.ran }

abbrev served_sqlite : Sqlite Server
served_sqlite = record {
  open_file = λ name w. (pos 0, some 1, w);
  open_v2 = λ name flags w. (pos 14, some 1, w);
  close = λ h w. w;
  exec = λ conn sql w. (pos 0, [], w);
  prepare = prepare_byte;
  step = λ stmt w. step_on w.rows w.opened w.ran;
  columns = λ stmt w. (codes "n", Column.integer (pos w.rows)) ∷ [];
  finalize = finalize_one;
  errcode = λ conn w. pos 1;
  errmsg = λ conn w. codes "error";
}

abbrev fresh : Server
fresh = record { rows = 0; opened = 0; ran = 0 }

prepare_counts :
    (conn : Option ℕ) (sql : Bytes) (w : Server)
    → let (rc, stmt, tail, w') = prepare_byte conn sql w in w'.opened ≡ w.opened + one stmt
prepare_counts conn [] w = omega arith
prepare_counts conn (c ∷ tail) w = refl

step_counts : (r o n : ℕ) → (step_on r o n).1.opened ≡ o
step_counts zero o n = refl
step_counts (suc r) o n = refl

finalize_counts :
    (stmt : Option ℕ) (w : Server) → (finalize_one stmt w).opened ≡ w.opened - one stmt
finalize_counts none w = omega arith
finalize_counts (some h) w = refl

served-Counts : Counts served_sqlite (λ w. w.opened)
served-Counts = record {
  prepare_opens = prepare_counts;
  step_keeps = λ stmt w. step_counts w.rows w.opened w.ran;
  finalize_closes = finalize_counts;
}

-- A callback that throws at once.
abbrev throws : ℕ → Row → ℕ → ℕ × Outcome Bool
throws k row n = (suc k, raise Error.out_of_range)

abbrev one_row : Row
one_row = column_row ((codes "n", Column.integer (pos 0)) ∷ [])

-- The first statement is left open, and the second is not run.
abbrev stopped : Server
stopped = record { rows = 0; opened = 1; ran = 0 }

query_finalizes_example :
    (stopped.opened ≡ fresh.opened)
    ⊎ ((stopped.opened ≡ fresh.opened + 1) × ThrownBy throws (raise Error.out_of_range))
unfolding sqlite_query step_loop
query_finalizes_example =
    query_finalizes served_sqlite (λ w. w.opened) served-Counts 2 2 (some 1) (codes "ab") throws 0 5
      6 fresh stopped (raise Error.out_of_range) refl

query_throw_leaks_example :
    (sqlite_query served_sqlite 2 2 (some 1) (codes "ab") throws 0 5 fresh
      ≡ some (raise Error.out_of_range, 6, stopped))
    × (stopped.opened ≡ fresh.opened + 1)
query_throw_leaks_example =
    query_throw_leaks served_sqlite (λ w. w.opened) served-Counts 1 1 (some 1) (codes "ab")
      (codes "b") throws 0 5 6 fresh (record { rows = 1; opened = 1; ran = 0 }) stopped (pos 0)
      (pos 100) b'a' Error.out_of_range refl refl refl refl refl

-- The abstract database: every byte is a statement, which has one row and is counted.
abbrev bytes_run : Statements ℕ
bytes_run [] d = none
bytes_run (c ∷ tail) d = some (tail, one_row ∷ [], suc d)

abbrev HasRun : Option ℕ → Server → ℕ → Type 0
HasRun conn w d = w.ran ≡ d

byte_served :
    (conn : Option ℕ) (sql tail : Bytes) (w : Server) (d d' : ℕ) (rows : Results)
    → HasRun conn w d
    → bytes_run sql d ≡ some (tail, rows, d')
    → (rc : ℤ) × (stmt : Option ℕ) × (w₁ : Server) × (w₂ : Server) × (prepare_byte conn sql w
        ≡ (rc, stmt, tail, w₁))
      × (is_ok rc ≡ true)
      × Steps served_sqlite stmt w₁ rows w₂
      × (length rows < 2)
      × HasRun conn (finalize_one stmt w₂) d'
byte_served conn [] tail w d d' rows h e = absurd (cc)
byte_served conn (c ∷ rest) tail w d d' rows h e =
    let behind : rest ≡ tail = cc in
    let same : one_row ∷ [] ≡ rows = cc in
    let counted : suc d ≡ d' = cc in
    let v : Server = record { rows = 1; opened = w.opened + 1; ran = w.ran } in
    let u : Server = record { rows = 0; opened = w.opened + 1; ran = w.ran } in
    (
      pos 0,
      some c,
      v,
      u,
      ap (λ t. (pos 0, some c, t, v)) behind,
      refl,
      subst (λ r. Steps served_sqlite (some c) v r u) same
          (Steps.row refl refl (Steps.done refl refl)),
      subst (λ r. length r < 2) same (omega arith),
      ap suc h ∙ counted,
    )

served : Serves served_sqlite 2 bytes_run HasRun
served = record { serves = byte_served }

abbrev session : SqliteSession
session = record { is_open = true; conn = some 1 }

query-script_example :
    (w' : Server) × (query (sqlite_methods served_sqlite 2 2) (codes "ab") (session, fresh)
      ≡ (ok (one_row ∷ one_row ∷ []), (session, w')))
    × (w'.ran ≡ 2)
unfolding script
query-script_example =
    query-script served_sqlite 2 2 bytes_run HasRun served session (codes "ab") fresh 0 2
      (one_row ∷ one_row ∷ []) refl refl

-- Two statements with one value each: `a?` with `7`, and `b?` with `8`.
abbrev program : List Template
program = (codes "a", (codes "7", []) ∷ []) ∷ (codes "b", (codes "8", []) ∷ []) ∷ []

program-TemplatesFit : TemplatesFit program
unfolding filled
program-TemplatesFit = (
  (omega arith, ((λ e. cc), omega arith, tt, tt, tt), (λ e. cc), omega arith),
  ((omega arith, ((λ e. cc), omega arith, tt, tt, tt), (λ e. cc), omega arith), tt),
)

abbrev two_rows : Results
two_rows = one_row ∷ one_row ∷ []

run-answers_example :
    (p : SqliteSession × Server) × (run (sqlite_methods served_sqlite 2 2) program (session, fresh)
      ≡ (ok (two_rows ∷ two_rows ∷ []), 2, p))
    × (p.1.ran ≡ 4)
unfolding script answers_all filled
run-answers_example =
    run-answers (sqlite_methods served_sqlite 2 2) (script bytes_run 2)
      (λ p d. HasRun p.0.conn p.1 d) (sqlite-Implements served_sqlite 2 2 bytes_run HasRun served)
      program (session, fresh) 0 4 (two_rows ∷ two_rows ∷ []) program-TemplatesFit refl refl
