-- ===== src/Pgsql.antt =====
-- PostgreSQL/PgSQLSession.h and PostgreSQL/PgSQLSession.cpp: the session of a PostgreSQL database,
-- over the functions of libpq that it calls.
pub mod Calls
pub mod Resources
pub mod Connections
pub mod Printing
pub mod Connection
pub mod Info
use lite_database.Common.{
  ℕ, zero, suc, ◌+◌, Bool, true, false, not, ◌||◌, Option, none, some, List, [], ◌∷◌, ◌++◌, Bytes,
  codes, ◌==◌, if◌then◌else◌, ℤ, pos, negsuc, str_eq,
}
use lite_database.DatabaseType.{DatabaseType}
use lite_database.Exception.{Exception, new_exception, append_stream}
use lite_database.Outcome.{Outcome, ok, raise, throw, undefined, ◌>>=◌}
use lite_database.Std.Decimal.{print_ℕ, print_ℤ}
use lite_database.Std.Stream.{is_nil}
use lite_database.Utils.Arguments.{ConnectionArgs, get_string_arg, get_int_arg, get_bool_arg}
use lite_database.Utils.Split.{split}
use lite_database.Any.Numbers.{FloatOps, IntType, cast}
use lite_database.Pgsql.Info.{conninfo}
use lite_database.Row.{Row}

-- The states of a connection that the code tells apart.
pub data Status : Type 0 where
  connection_ok connection_bad connection_other : Status

-- The functions of libpq, over its state `W`, which holds what is printed too. A connection and a
-- result are handles, `none` a null pointer. `columns` stands for the calls of `PQnfields`,
-- `PQfname` and `PQgetvalue`.
pub record Pgsql (W : Type 0) : Type 0 where
  pub connectdb : Bytes → W → Option ℕ × W
  pub status : Option ℕ → W → Status
  pub finish : ℕ → W → W
  pub get_result : Option ℕ → W → Option ℕ × W
  pub send_query : Option ℕ → Bytes → W → Bool × W
  pub set_single_row_mode : Option ℕ → W → Bool × W
  pub is_single_tuple : ℕ → W → Bool
  pub columns : ℕ → W → List (Bytes × Bytes)
  pub clear : ℕ → W → W
  pub error_message : Option ℕ → W → Bytes
  pub printf : Bytes → W → W

-- The object: `_isOpen` and `conn`.
pub record PgsqlSession : Type 0 where
  pub is_open : Bool
  pub conn : Option ℕ

unfoldable pub new_pgsql_session : PgsqlSession
new_pgsql_session = record { is_open = false; conn = none }

unfoldable pub get_type : DatabaseType
get_type = DatabaseType.postgresql

abbrev pub is_connected : Status → Bool
is_connected Status.connection_ok = true
is_connected _ = false

abbrev is_bad : Status → Bool
is_bad Status.connection_bad = true
is_bad _ = false

-- `s.empty() || s.back() == '\\'`.
unfoldable pub is_skipped : Bytes → Bool
is_skipped [] = true
is_skipped (c ∷ []) = c == b'\\'
is_skipped (c ∷ d ∷ s) = is_skipped (d ∷ s)

module _ {W : Type 0} (api : Pgsql W) where
  -- `buildException(conn)`.
  unfoldable pub build_exception : Option ℕ → W → Exception
  build_exception conn w =
      new_exception (api.error_message conn w) (negsuc 0) DatabaseType.postgresql

  -- The rest of `open`, after the arguments are read.
  abbrev pub open_with : PgsqlSession → W → Outcome Bytes → Outcome (Unit {0}) × PgsqlSession × W
  unfolding build_exception
  open_with s w (raise e) = (raise e, s, w)
  open_with s w undefined = (undefined, s, w)
  open_with s w (ok info) =
      let (conn, w') = api.connectdb info w in
      if is_connected (api.status conn w')
      then (ok tt, record { is_open = true; conn = conn }, w')
      else (throw (build_exception conn w'), record { is_open = s.is_open; conn = conn }, w')

  unfoldable pub open_session :
      FloatOps → ConnectionArgs → PgsqlSession → W → Outcome (Unit {0}) × PgsqlSession × W
  open_session ops args s w = open_with s w (conninfo ops args)

  -- `close`, by the pointer: `_isOpen` stays as it is.
  abbrev pub close_conn : Option ℕ → PgsqlSession → W → PgsqlSession × W
  close_conn none s w = (s, w)
  close_conn (some h) s w = (record { is_open = s.is_open; conn = none }, api.finish h w)

  unfoldable pub close_session : PgsqlSession → W → PgsqlSession × W
  close_session s w = close_conn s.conn s w

  -- `PgSQLSession::isOpen`.
  unfoldable pub is_open : PgsqlSession → W → Bool × PgsqlSession × W
  unfolding close_session
  is_open s w =
      let (s', w') = close_session s w in
      if is_bad (api.status s.conn w)
      then (false, record { is_open = false; conn = s'.conn }, w')
      else (s.is_open, s, w)

  -- `while (PQgetResult(conn)) {}`; `none` means that the fuel ran out.
  unfoldable pub drain : ℕ → Option ℕ → W → Option W
  drain zero conn w = none
  drain (suc f) conn w =
      let (res, w') = api.get_result conn w in
      let rest = drain f conn w' in elim res [ none ↦ some w' | some r ↦ rest ]

  -- The rest of `exec`, after the old results are read.
  unfoldable pub send : Option ℕ → Bytes → Option W → Option (Outcome (Unit {0}) × W)
  unfolding build_exception
  send conn sql none = none
  send conn sql (some w) =
      let (sent, w') = api.send_query conn sql w in
      some (if sent then ok tt else throw (build_exception conn w'), w')

  unfoldable pub exec : ℕ → Option ℕ → Bytes → W → Option (Outcome (Unit {0}) × W)
  exec f conn sql w = send conn sql (drain f conn w)

  -- The loop over the columns of a row prints each.
  unfoldable pub print_columns : ℕ → List (Bytes × Bytes) → W → W
  print_columns i [] w = w
  print_columns i ((name, v) ∷ columns) w = print_columns (i + 1) columns (
      api.printf
        (append_stream
          (codes "#" ∷ print_ℕ i ∷ codes "# " ∷ name ∷ codes " = " ∷ v ∷ codes "\n" ∷ []))
        w)

  -- The loop over the rows; it ends at a result that is no row, which is not cleared.
  unfoldable pub row_loop : ℕ → Option ℕ → W → Option W
  unfolding print_columns
  row_loop zero conn w = none
  row_loop (suc f) conn w =
      let (res, w') = api.get_result conn w in
      let next : W → Option W = row_loop f conn in
      elim res [
        | none ↦ some w'
        | some r ↦
            let rest = next (api.clear r (print_columns 0 (api.columns r w') w')) in
            if api.is_single_tuple r w' then rest else some w'
      ]

  -- What follows `exec(s)` in the loop of `query`.
  unfoldable pub rows_of : ℕ → Option ℕ → W → Option W
  unfolding row_loop
  rows_of f conn w =
      let (succ, w') = api.set_single_row_mode conn w in
      if succ then row_loop f conn w' else some w'

  -- The loop of `query` over the pieces of the text. The callback is not called.
  query_loop :
      {S : Type 0}
      → ℕ
      → Option ℕ
      → (S → Row → ℕ → S × Outcome Bool)
      → List Bytes
      → ℕ
      → S
      → W
      → Option (Outcome (Unit {0}) × S × W)
  unfolding exec
  query_loop f conn cb [] num s w = some (ok tt, s, w)
  query_loop {S} f conn cb (p ∷ ps) num s w =
      let next : ℕ → W → Option (Outcome (Unit {0}) × S × W) =
        λ n v. query_loop f conn cb ps n s v in
      if is_skipped p then next num w else elim (exec f conn p w) [
        | none ↦ none
        | some (raise e, w') ↦ some (raise e, s, w')
        | some (undefined, w') ↦ some (undefined, s, w')
        | some (ok u, w') ↦ elim (rows_of f conn w') [ none ↦ none | some w'' ↦ next (num + 1) w'' ]
      ]

  unfoldable pub query :
      {S : Type 0}
      → ℕ
      → Option ℕ
      → Bytes
      → (S → Row → ℕ → S × Outcome Bool)
      → S
      → W
      → Option (Outcome (Unit {0}) × S × W)
  unfolding query_loop
  query f conn sql cb s w = query_loop f conn cb (split sql b';') 0 s w
