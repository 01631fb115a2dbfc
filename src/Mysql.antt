-- ===== src/Mysql.antt =====
-- MySQL/MySQLSession.h and MySQL/MySQLSession.cpp: the session of a MySQL database, over the
-- functions of the MySQL library that it calls.
pub mod Columns
pub mod Statements
pub mod Resources
pub mod State
pub mod Api
use lite_database.Common.{
  ℕ, zero, suc, ◌+◌, Bool, true, false, not, Option, none, some, List, [], ◌∷◌, ◌++◌, Bytes, codes,
  ◌==◌, if◌then◌else◌, ℤ, pos, eq_ℤ,
}
use lite_database.DatabaseType.{DatabaseType}
use lite_database.Exception.{Exception, new_exception, append_stream}
use lite_database.Callback.{go_on_if}
use lite_database.Outcome.{Outcome, ok, raise, throw, undefined, ◌>>=◌}
use lite_database.Std.Decimal.{print_ℤ}
use lite_database.Std.Stream.{is_nil}
use lite_database.Utils.Arguments.{ConnectionArgs, get_string_arg, get_int_arg}
use lite_database.Utils.Split.{split}
use lite_database.Any.Numbers.{FloatOps, IntType, cast}
use lite_database.Row.{Row}
use lite_database.Mysql.Columns.{FieldType, row_loop, Blank}
pub use lite_database.Mysql.Api.{Mysql, is_ok}

-- The object: `_isOpen` and `conn`.
pub record MysqlSession : Type 0 where
  pub is_open : Bool
  pub conn : Option ℕ

unfoldable pub new_mysql_session : MysqlSession
new_mysql_session = record { is_open = false; conn = none }

unfoldable pub get_type : DatabaseType
get_type = DatabaseType.mysql

-- `buildException`, of a code and the parts of a message.
unfoldable pub build_exception : ℤ → List Bytes → Exception
build_exception code args = new_exception (append_stream args) code DatabaseType.mysql

-- The value of a pointer, and two pointers compared.
abbrev pointer : Option ℕ → ℕ
pointer none = 0
pointer (some h) = h

abbrev same_pointer : Option ℕ → Option ℕ → Bool
same_pointer p q = pointer p == pointer q

-- The arguments: host, port, database, user and password.
abbrev pub Target : Type 0
Target = Bytes × ℤ × Bytes × Bytes × Bytes

unfoldable pub open_args : FloatOps → ConnectionArgs → Outcome Target
open_args ops args = do
  host ← get_string_arg ops (codes "host") false [] args
  port ← get_int_arg ops (codes "port") true (pos 3306) args
  db ← get_string_arg ops (codes "database") true [] args
  user ← get_string_arg ops (codes "user") false [] args
  passwd ← get_string_arg ops (codes "passwd") false [] args
  ok (host, cast IntType.unsigned_short port, db, user, passwd)

module _ {W : Type 0} (api : Mysql W) where
  -- `buildException(conn)`.
  abbrev conn_exception : Option ℕ → W → Exception
  conn_exception conn w = new_exception (api.error conn w) (api.errno conn w) DatabaseType.mysql

  -- The rest of `open`, after `mysql_init` and the arguments.
  abbrev pub open_with :
      Bool → Option ℕ → W → Outcome Target → Outcome (Unit {0}) × MysqlSession × W
  unfolding build_exception
  open_with flag conn w (raise e) = (raise e, record { is_open = flag; conn = conn }, w)
  open_with flag conn w undefined = (undefined, record { is_open = flag; conn = conn }, w)
  open_with flag conn w (ok (host, port, db, user, passwd)) =
      let (res, w') =
        api.real_connect conn host user passwd (if is_nil db then none else some db) port w in
      let failed =
        build_exception (cast IntType.int (pos (pointer res)))
          (codes "Failed to connect MySQL[" ∷ host ∷ codes ":" ∷ print_ℤ port ∷ codes "]" ∷ []) in
      (
        if same_pointer res conn then ok tt else throw failed,
        record { is_open = flag; conn = conn },
        w',
      )

  unfoldable pub open_session :
      FloatOps → ConnectionArgs → MysqlSession → W → Outcome (Unit {0}) × MysqlSession × W
  open_session ops args s w =
      let (conn, w') = api.init s.conn w in open_with s.is_open conn w' (open_args ops args)

  -- `close`, by the pointer.
  abbrev pub close_conn : Option ℕ → MysqlSession → W → MysqlSession × W
  close_conn none s w = (s, w)
  close_conn (some h) s w = (record { is_open = false; conn = none }, api.close h w)

  unfoldable pub close_session : MysqlSession → W → MysqlSession × W
  close_session s w = close_conn s.conn s w

  -- What `exec`, `setCurrentDB` and `changeUser` do with the code that the library returns.
  abbrev checked : Option ℕ → ℤ × W → Outcome (Unit {0}) × W
  checked conn (rc, w) = (if is_ok rc then ok tt else throw (conn_exception conn w), w)

  unfoldable pub exec : MysqlSession → Bytes → W → Outcome (Unit {0}) × W
  exec s sql w = checked s.conn (api.real_query s.conn sql w)

  unfoldable pub set_current_db : MysqlSession → Bytes → W → Outcome (Unit {0}) × W
  set_current_db s db w = checked s.conn (api.select_db s.conn db w)

  unfoldable pub change_user : MysqlSession → Bytes → Bytes → W → Outcome (Unit {0}) × W
  change_user s user passwd w = checked s.conn (api.change_user s.conn user passwd w)

  -- `MySQLSession::isOpen`.
  unfoldable pub is_open : MysqlSession → W → Bool × MysqlSession × W
  unfolding close_session
  is_open s w =
      let (rc, w') = api.ping s.conn w in
      let (s', w'') = close_session s w' in
      if is_ok rc
      then (s.is_open, s, w')
      else (false, record { is_open = false; conn = s'.conn }, w'')

  -- The loop over the rows of a result; `none` means that the fuel ran out.
  unfoldable pub fetch_loop :
      {S : Type 0}
      → FloatOps
      → Blank
      → ℕ
      → ℕ
      → List (Bytes × FieldType)
      → (S → Row → ℕ → S × Outcome Bool)
      → ℕ
      → S
      → W
      → Option (Outcome (Unit {0}) × S × W)
  fetch_loop ops blank zero res fields cb num s w = none
  fetch_loop {S} ops blank (suc f) res fields cb num s w =
      let next : S → W → Option (Outcome (Unit {0}) × S × W) =
        fetch_loop ops blank f res fields cb num in
      elim (api.fetch_row res w).0 [
        | none ↦ some (ok tt, s, (api.fetch_row res w).1)
        | some values ↦ elim (row_loop ops blank fields values []) [
          | ok row ↦ go_on_if (cb s row num) (api.fetch_row res w).1 next
          | raise e ↦ some (raise e, s, (api.fetch_row res w).1)
          | undefined ↦ some (undefined, s, (api.fetch_row res w).1)
        ]
      ]

  -- The result of a statement is freed, unless an exception passes through.
  abbrev pub freed :
      {S : Type 0} → ℕ → Option (Outcome (Unit {0}) × S × W) → Option (Outcome (Unit {0}) × S × W)
  freed res none = none
  freed res (some (ok u, s, w)) = some (ok u, s, api.free_result res w)
  freed res (some (raise e, s, w)) = some (raise e, s, w)
  freed res (some (undefined, s, w)) = some (undefined, s, w)

  -- What the loop of `query` does for one piece of the text that is not empty: it sends `sql`.
  unfoldable pub run_statement :
      {S : Type 0}
      → FloatOps
      → Blank
      → ℕ
      → Option ℕ
      → Bytes
      → (S → Row → ℕ → S × Outcome Bool)
      → ℕ
      → S
      → W
      → Option (Outcome (Unit {0}) × S × W)
  run_statement ops blank f conn sql cb num s w =
      let (errc, w₁) = api.real_query conn sql w in
      let (result, w₂) = api.use_result conn w₁ in
      if is_ok errc
      then elim result [
        | none ↦ some (throw (conn_exception conn w₂), s, w₂)
        | some res ↦
            let (fields, w₃) = api.fields res w₂ in
            freed res (fetch_loop ops blank f res fields cb num s w₃)
      ]
      else some (throw (conn_exception conn w₁), s, w₁)

  -- What follows a statement, unless an exception left it.
  abbrev pub then_go_on :
      {S : Type 0}
      → Option (Outcome (Unit {0}) × S × W)
      → (S → W → Option (Outcome (Unit {0}) × S × W))
      → Option (Outcome (Unit {0}) × S × W)
  then_go_on none next = none
  then_go_on (some (ok u, s, w)) next = next s w
  then_go_on (some (raise e, s, w)) next = some (raise e, s, w)
  then_go_on (some (undefined, s, w)) next = some (undefined, s, w)

  -- The loop of `query` over the pieces of the text.
  query_loop :
      {S : Type 0}
      → FloatOps
      → Blank
      → ℕ
      → Option ℕ
      → Bytes
      → (S → Row → ℕ → S × Outcome Bool)
      → List Bytes
      → ℕ
      → S
      → W
      → Option (Outcome (Unit {0}) × S × W)
  query_loop ops blank f conn sql cb [] num s w = some (ok tt, s, w)
  query_loop {S} ops blank f conn sql cb (p ∷ ps) num s w =
      let skipped = query_loop ops blank f conn sql cb ps num s w in
      let next : S → W → Option (Outcome (Unit {0}) × S × W) =
        query_loop ops blank f conn sql cb ps (num + 1) in
      let ran = then_go_on (run_statement ops blank f conn sql cb num s w) next in
      if is_nil p then skipped else ran

  unfoldable pub query :
      {S : Type 0}
      → FloatOps
      → Blank
      → ℕ
      → Option ℕ
      → Bytes
      → (S → Row → ℕ → S × Outcome Bool)
      → S
      → W
      → Option (Outcome (Unit {0}) × S × W)
  unfolding query_loop
  query ops blank f conn sql cb s w = query_loop ops blank f conn sql cb (split sql b';') 0 s w
