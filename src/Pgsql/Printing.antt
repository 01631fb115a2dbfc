-- ===== src/Pgsql/Printing.antt =====
-- PostgreSQL/PgSQLSession.cpp, `query`: what is printed for a text of several statements.
pub mod Ends
use lite_database.Common.{
  ℕ, zero, suc, ◌+◌, ◌<◌, ◌≡◌, refl, sym, ap, ◌∙◌, Bool, true, false, Option, none, some, List, [],
  ◌∷◌, ◌++◌, append_assoc, append-nil, arith, Bytes, codes, length, if◌then◌else◌, Bool-cases, inl,
  inr,
}
use lite_database.Outcome.{Outcome, ok}
use lite_database.Exception.{append_stream}
use lite_database.Std.Decimal.{print_ℕ}
use lite_database.Row.{Row}
use lite_database.Utils.Split.{split}
use lite_database.Pgsql.{
  Pgsql, is_skipped, send, exec, print_columns, row_loop, rows_of, query_loop, query,
}
use lite_database.Pgsql.Calls.{Pending, exec_drains}

-- The names and the values of a row's columns.
abbrev pub Columns : Type 0
Columns = List (Bytes × Bytes)

-- The lines that are printed for a row, from column i on.
pub row_lines : ℕ → Columns → Bytes
row_lines i [] = []
row_lines i ((name, v) ∷ columns) =
    append_stream (codes "#" ∷ print_ℕ i ∷ codes "# " ∷ name ∷ codes " = " ∷ v ∷ codes "\n" ∷ [])
    ++ row_lines (i + 1) columns

unfoldable pub printed : List Columns → Bytes
unfolding row_lines
printed [] = []
printed (columns ∷ rows) = row_lines 0 columns ++ printed rows

abbrev pub with_rows : List Columns → Option (List Columns) → Option (List Columns)
with_rows rows none = none
with_rows rows (some rest) = some (rows ++ rest)

abbrev pub then_rows : Option (List Columns) → Option (List Columns) → Option (List Columns)
then_rows none rest = none
then_rows (some rows) rest = with_rows rows rest

-- The rows of the statements of a text, one behind the other.
unfoldable pub rows_of_all : (Bytes → Option (List Columns)) → List Bytes → Option (List Columns)
rows_of_all answers [] = some []
rows_of_all answers (p ∷ ps) =
    let rest = rows_of_all answers ps in if is_skipped p then rest else then_rows (answers p) rest

pub then_rows_inv :
    (o rest : Option (List Columns)) (all : List Columns)
    → then_rows o rest ≡ some all
    → (rows : List Columns) × (later : List Columns) × (o ≡ some rows)
      × (rest ≡ some later)
      × (all ≡ rows ++ later)
then_rows_inv none rest all e = absurd (cc)
then_rows_inv (some rows) none all e = absurd (cc)
then_rows_inv (some rows) (some later) all e = (rows, later, refl, refl, cc)

pub printed-append : (xs ys : List Columns) → printed (xs ++ ys) ≡ printed xs ++ printed ys
unfolding printed
printed-append [] ys = refl
printed-append (columns ∷ xs) ys =
    rw (printed-append xs ys) (sym (append_assoc (row_lines 0 columns) (printed xs) (printed ys)))

-- What is relied on of the console and of libpq: `shown` is what the console shows, and only `printf`
-- adds to it.
pub record Console {W : Type 0} (api : Pgsql W) (shown : W → Bytes) : Type 0 where
  pub printf_shows : (text : Bytes) (w : W) → shown (api.printf text w) ≡ shown w ++ text
  pub get_result_keeps : (conn : Option ℕ) (w : W) → shown (api.get_result conn w).1 ≡ shown w
  pub clear_keeps : (r : ℕ) (w : W) → shown (api.clear r w) ≡ shown w
  pub send_query_keeps :
      (conn : Option ℕ) (sql : Bytes) (w : W) → shown (api.send_query conn sql w).1 ≡ shown w
  pub set_mode_keeps :
      (conn : Option ℕ) (w : W) → shown (api.set_single_row_mode conn w).1 ≡ shown w

-- The result that ends a statement's rows: none, or one that is not a row.
abbrev pub IsEnd : {W : Type 0} → Pgsql W → Option ℕ → W → Type 0
IsEnd api none w = Unit
IsEnd api (some r) w = api.is_single_tuple r w ≡ false

-- What is relied on of libpq: `Idle w`, fewer than `fuel` results are left of what was done before;
-- `Running rows w`, the rows are still to come of a statement. A statement is answered with fewer
-- than `fuel` rows, which come one by one, and printing and clearing do not disturb them.
pub record Serves {W : Type 0} (api : Pgsql W) (fuel : ℕ) (conn : Option ℕ)
    (answers : Bytes → Option (List Columns)) (Idle : W → Type 0)
    (Running : List Columns → W → Type 0) : Type 0 where
  pub drained :
      (w : W) → Idle w → (n : ℕ) × (w' : W) × Pending api conn n w w' × (n < fuel) × Idle w'
  pub answered :
      (sql : Bytes) (rows : List Columns) (w : W)
      → Idle w
      → answers sql ≡ some rows
      → (w₁ : W) × (w₂ : W) × (api.send_query conn sql w ≡ (true, w₁))
        × (api.set_single_row_mode conn w₁ ≡ (true, w₂))
        × (length rows < fuel)
        × Running rows w₂
  pub stepped :
      (columns : Columns) (rows : List Columns) (w : W)
      → Running (columns ∷ rows) w
      → (r : ℕ) × (w' : W) × (api.get_result conn w ≡ (some r, w'))
        × (api.is_single_tuple r w' ≡ true)
        × (api.columns r w' ≡ columns)
        × Running rows w'
  pub ended :
      (w : W)
      → Running [] w
      → (res : Option ℕ) × (w' : W) × (api.get_result conn w ≡ (res, w'))
        × IsEnd api res w'
        × Idle w'
  pub print_keeps :
      (rows : List Columns) (text : Bytes) (w : W)
      → Running rows w
      → Running rows (api.printf text w)
  pub clear_keeps :
      (rows : List Columns) (r : ℕ) (w : W) → Running rows w → Running rows (api.clear r w)
