-- ===== src/Tests/PgsqlPrints.antt =====
-- An example for what PostgreSQL/PgSQLSession.cpp prints, with a small library and console.
use lite_database.Common.{
  ℕ, ◌≡◌, refl, ap, ◌<◌, Bool, true, false, List, [], ◌∷◌, ◌++◌, codes, arith, suc, zero, Bytes,
  Option, some, none, length,
}
use lite_database.Outcome.{Outcome, ok}
use lite_database.Exception.{append_stream}
use lite_database.Std.Decimal.{print_ℕ}
use lite_database.Row.{Row}
use lite_database.Utils.Split.{split, pieces, split-pieces}
use lite_database.Pgsql.{Pgsql, Status, query, is_skipped}
use lite_database.Pgsql.Calls.{Pending}
use lite_database.Pgsql.Printing.{Columns, Console, Serves, printed, rows_of_all}
use lite_database.Pgsql.Printing.Ends.{query-prints}

-- The results that are left, and what the console shows. The last result of a statement, with
-- handle 0, is not a row.
pub record Terminal : Type 0 where
  pub left : ℕ
  pub shows : Bytes

abbrev take_one : ℕ → Bytes → Option ℕ × Terminal
take_one zero t = (none, record { left = zero; shows = t })
take_one (suc n) t = (some n, record { left = n; shows = t })

abbrev is_tuple : ℕ → Bool
is_tuple zero = false
is_tuple (suc n) = true

abbrev one_column : Columns
one_column = (codes "c", codes "x") ∷ []

-- Every statement has one row.
abbrev printing_pgsql : Pgsql Terminal
printing_pgsql = record {
  connectdb = λ info w. (some 1, w);
  status = λ conn w. Status.connection_ok;
  finish = λ h w. w;
  get_result = λ conn w. take_one w.left w.shows;
  send_query = λ conn sql w. (true, record { left = 2; shows = w.shows });
  set_single_row_mode = λ conn w. (true, w);
  is_single_tuple = λ r w. is_tuple r;
  columns = λ r w. one_column;
  clear = λ r w. w;
  error_message = λ conn w. [];
  printf = λ text w. record { left = w.left; shows = w.shows ++ text };
}

take_shows : (n : ℕ) (t : Bytes) → (take_one n t).1.shows ≡ t
take_shows zero t = refl
take_shows (suc n) t = refl

console : Console printing_pgsql (λ w. w.shows)
console = record {
  printf_shows = λ text w. refl;
  get_result_keeps = λ conn w. take_shows w.left w.shows;
  clear_keeps = λ r w. refl;
  send_query_keeps = λ conn sql w. refl;
  set_mode_keeps = λ conn w. refl;
}

abbrev Idle : Terminal → Type 0
Idle w = w.left ≡ 0

abbrev same_rows : ℕ → List Columns
same_rows zero = []
same_rows (suc n) = one_column ∷ same_rows n

abbrev Running : List Columns → Terminal → Type 0
Running rows w = (w.left ≡ suc (length rows)) × (rows ≡ same_rows (length rows))

abbrev answers : Bytes → Option (List Columns)
answers sql = some (one_column ∷ [])

row_stepped :
    (columns : Columns) (rows : List Columns) (w : Terminal)
    → Running (columns ∷ rows) w
    → (r : ℕ) × (w' : Terminal) × (take_one w.left w.shows ≡ (some r, w'))
      × (is_tuple r ≡ true)
      × (one_column ≡ columns)
      × Running rows w'
row_stepped columns rows w (left, same) = (
  suc (length rows),
  record { left = suc (length rows); shows = w.shows },
  ap (λ n. take_one n w.shows) left,
  refl,
  cc,
  (refl, cc),
)

rows_answered :
    (sql : Bytes) (rows : List Columns) (w : Terminal)
    → Idle w
    → answers sql ≡ some rows
    → (w₁ : Terminal) × (w₂ : Terminal) × (printing_pgsql.send_query (some 1) sql w ≡ (true, w₁))
      × (printing_pgsql.set_single_row_mode (some 1) w₁ ≡ (true, w₂))
      × (length rows < 2)
      × Running rows w₂
rows_answered sql [] w idle e = absurd (cc)
rows_answered sql (columns ∷ []) w idle e =
    let v : Terminal = record { left = 2; shows = w.shows } in
    (v, v, refl, refl, omega arith, (refl, cc))
rows_answered sql (columns ∷ other ∷ rows) w idle e = absurd (cc)

served : Serves printing_pgsql 2 (some 1) answers Idle Running
served = record {
  drained = λ w idle. (
    0,
    record { left = 0; shows = w.shows },
    Pending.none_left (ap (λ n. take_one n w.shows) idle),
    omega arith,
    refl,
  );
  answered = rows_answered;
  stepped = row_stepped;
  ended = λ w run. (
    some 0,
    record { left = 0; shows = w.shows },
    ap (λ n. take_one n w.shows) run.0,
    refl,
    refl,
  );
  print_keeps = λ rows text w run. run;
  clear_keeps = λ rows r w run. run;
}

abbrev ignore_rows : ℕ → Row → ℕ → ℕ × Outcome Bool
ignore_rows k row n = (k, ok true)

two_answered : rows_of_all answers (split (codes "a;;b") b';') ≡ some (one_column ∷ one_column ∷ [])
unfolding rows_of_all pieces is_skipped
two_answered = rw (split-pieces (codes "a;;b") b';') refl

query-prints_example :
    (w' : Terminal) × (query printing_pgsql 2
        (some 1)
        (codes "a;;b")
        ignore_rows
        5
        (record { left = 0; shows = [] })
      ≡ some (ok tt, 5, w'))
    × Idle w'
    × (w'.shows ≡ codes "#0# c = x\n#0# c = x\n")
unfolding printed append_stream print_ℕ
query-prints_example =
    query-prints printing_pgsql 2 (some 1) answers Idle Running (λ w. w.shows) served console
      (codes "a;;b") ignore_rows 5 (record { left = 0; shows = [] }) (one_column ∷ one_column ∷ [])
      refl two_answered
