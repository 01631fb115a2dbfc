-- ===== src/Sqlite.antt =====
-- SQLite/SQLiteSession.h and SQLite/SQLiteSession.cpp: the session of an SQLite database.
pub mod State
pub mod Rows
pub mod Resources
pub mod Visits
pub mod Connections
use lite_database.Common.{
  ℕ, zero, suc, ◌+◌, Bool, true, false, ◌||◌, not, Option, none, some, List, [], ◌∷◌, ◌++◌, Bytes,
  codes, ◌==◌, str_eq, if◌then◌else◌, map, ℤ, pos, eq_ℤ,
}
use lite_database.DatabaseType.{DatabaseType}
use lite_database.Exception.{Exception, new_exception}
use lite_database.Callback.{go_on_if}
use lite_database.Outcome.{Outcome, ok, raise, throw, undefined, ◌>>=◌}
use lite_database.Std.Stream.{is_nil}
use lite_database.Utils.Arguments.{ConnectionArgs, get_string_arg, get_bool_arg}
use lite_database.Any.{Any}
use lite_database.Any.Numbers.{FloatOps}
use lite_database.Row.{Row, row_of}

-- A column of a row as SQLite gives it, by its type.
pub data Column : Type 0 where
  blob : ℕ → Column
  text : Bytes → Column
  integer : ℤ → Column
  floating : ℕ → Column
  null : Column

-- The functions of the SQLite library that the session calls, over the state `W` of the library. A
-- connection and a statement are handles, `none` a null pointer. `columns` stands for the calls of
-- `sqlite3_column_name`, `sqlite3_column_type` and the readers, up to the first null name.
pub record Sqlite (W : Type 0) : Type 0 where
  pub open_file : Bytes → W → ℤ × Option ℕ × W
  pub open_v2 : Bytes → ℕ → W → ℤ × Option ℕ × W
  pub close : ℕ → W → W
  pub exec : Option ℕ → Bytes → W → ℤ × Bytes × W
  pub prepare : Option ℕ → Bytes → W → ℤ × Option ℕ × Bytes × W
  pub step : Option ℕ → W → ℤ × W
  pub columns : Option ℕ → W → List (Bytes × Column)
  pub finalize : Option ℕ → W → W
  pub errcode : Option ℕ → W → ℤ
  pub errmsg : Option ℕ → W → Bytes

-- SQLITE_OK and SQLITE_ROW.
abbrev pub is_ok : ℤ → Bool
is_ok rc = eq_ℤ rc (pos 0)

abbrev pub is_row : ℤ → Bool
is_row rc = eq_ℤ rc (pos 100)

-- The object: `_isOpen` and `conn`.
pub record SqliteSession : Type 0 where
  pub is_open : Bool
  pub conn : Option ℕ

unfoldable pub new_sqlite_session : SqliteSession
new_sqlite_session = record { is_open = false; conn = none }

unfoldable pub get_type : DatabaseType
get_type = DatabaseType.sqlite

-- `buildException`, of a code and a message, and of a connection.
unfoldable pub build_exception : ℤ → Bytes → Exception
build_exception code msg = new_exception msg code DatabaseType.sqlite

abbrev is_none : Option ℕ → Bool
is_none none = true
is_none (some h) = false

-- The value that a column becomes.
unfoldable pub column_value : Column → Any
column_value (Column.blob p) = Any.void_ptr p
column_value (Column.text s) = Any.std_string s
column_value (Column.integer z) = Any.long_long z
column_value (Column.floating x) = Any.double x
column_value Column.null = Any.empty

abbrev named_value : Bytes × Column → Bytes × Any
named_value (name, c) = (name, column_value c)

unfoldable pub column_row : List (Bytes × Column) → Row
unfolding column_value row_of
column_row columns = row_of (map named_value columns) []

-- SQLITE_OPEN_READONLY, SQLITE_OPEN_READWRITE and SQLITE_OPEN_CREATE.
abbrev flags_of : Bool → Bool → ℕ
flags_of create read_only = (if read_only then 1 else 2) + (if create then 4 else 0)

-- The four arguments, the target first.
unfoldable pub open_args : FloatOps → ConnectionArgs → Outcome (Bytes × Bool × Bool × Bool)
open_args ops args = do
  target ← get_string_arg ops (codes "target") false [] args
  create ← get_bool_arg (codes "create") true true args
  read_only ← get_bool_arg (codes "readOnly") true false args
  uri ← get_bool_arg (codes "uri") true false args
  ok (target, create, read_only, uri)

module _ {W : Type 0} (api : Sqlite W) where
  abbrev conn_exception : Option ℕ → W → Exception
  conn_exception conn w = build_exception (api.errcode conn w) (api.errmsg conn w)

  -- The end of `open`: the result of the library is checked, and `conn` is kept in any case.
  unfoldable pub opened : ℤ × Option ℕ × W → Outcome (Unit {0}) × SqliteSession × W
  unfolding build_exception
  opened (res, conn, w) =
      if not (is_ok res) || is_none conn
      then (throw (conn_exception conn w), record { is_open = false; conn = conn }, w)
      else (ok tt, record { is_open = true; conn = conn }, w)

  -- Which way the database is opened.
  unfoldable pub open_target : Bytes × Bool × Bool × Bool → W → ℤ × Option ℕ × W
  open_target (target, create, read_only, uri) w =
      if str_eq target (codes ":memory:")
      then api.open_file (codes ":memory:") w
      else if uri
      then api.open_v2 target (if create then 4 else 0) w
      else api.open_v2 target (flags_of create read_only) w

  -- The rest of `open`, after the arguments are read.
  abbrev pub open_with :
      SqliteSession
      → W
      → Outcome (Bytes × Bool × Bool × Bool)
      → Outcome (Unit {0}) × SqliteSession × W
  unfolding opened
  open_with s w (ok a) = opened (open_target a w)
  open_with s w (raise e) = (raise e, s, w)
  open_with s w undefined = (undefined, s, w)

  unfoldable pub open_session :
      FloatOps → ConnectionArgs → SqliteSession → W → Outcome (Unit {0}) × SqliteSession × W
  open_session ops args s w = open_with s w (open_args ops args)

  -- `close`, by the pointer.
  abbrev pub close_conn : Option ℕ → SqliteSession → W → SqliteSession × W
  close_conn none s w = (s, w)
  close_conn (some h) s w = (record { is_open = false; conn = none }, api.close h w)

  unfoldable pub close_session : SqliteSession → W → SqliteSession × W
  close_session s w = close_conn s.conn s w

  unfoldable pub exec : SqliteSession → Bytes → W → Outcome (Unit {0}) × W
  unfolding build_exception
  exec s sql w =
      let (res, msg, w') = api.exec s.conn sql w in
      (if is_ok res then ok tt else throw (build_exception res msg), w')

  -- The loop over the rows of a statement: how it ended, the callback's state and the library's
  -- afterwards; `none` means that the fuel ran out.
  unfoldable pub step_loop :
      {S : Type 0}
      → ℕ
      → Option ℕ
      → (S → Row → ℕ → S × Outcome Bool)
      → ℕ
      → S
      → W
      → Option (Outcome (Unit {0}) × S × W)
  unfolding column_row
  step_loop zero stmt cb num s w = none
  step_loop (suc f) stmt cb num s w =
      let (rc, w') = api.step stmt w in
      let went =
        go_on_if (cb s (column_row (api.columns stmt w')) num) w' (step_loop f stmt cb num) in
      if is_row rc then went else some (ok tt, s, w')

  -- `query`. The first fuel bounds the calls of `query` in itself, the second the rows of each
  -- statement. The static variable `stmt_num` is handed on from call to call, as the argument
  -- `stmt_num`: each call sets it to 0, and counts it up before it calls `query` for the rest. An
  -- exception of the callback passes through before the statement is finalized.
  unfoldable pub query :
      {S : Type 0}
      → ℕ
      → ℕ
      → Option ℕ
      → Bytes
      → (S → Row → ℕ → S × Outcome Bool)
      → ℕ
      → S
      → W
      → Option (Outcome (Unit {0}) × S × W)
  query zero rows conn sql cb stmt_num s w = none
  query {S} (suc f) rows conn sql cb stmt_num s w =
      let num : ℕ = 0 in
      let (res, stmt, tail, w') = api.prepare conn sql w in
      let w₁ = api.finalize stmt w' in
      let failed : Option (Outcome (Unit {0}) × S × W) =
        some (throw (conn_exception conn w₁), s, w₁) in
      let ran : Option (Outcome (Unit {0}) × S × W) = elim (step_loop rows stmt cb num s w') [
        | none ↦ none
        | some (raise e, s', w'') ↦ some (raise e, s', w'')
        | some (undefined, s', w'') ↦ some (undefined, s', w'')
        | some (ok u, s', w'') ↦
            let rest = query f rows conn tail cb (num + 1) s' (api.finalize stmt w'') in
            if is_nil tail then some (ok tt, s', api.finalize stmt w'') else rest
      ] in
      if is_ok res then ran else failed
