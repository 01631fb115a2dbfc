-- ===== src/Pgsql/Connections.antt =====
-- PostgreSQL/PgSQLSession.cpp, `open` and `close`: which connections are handed back.
use lite_database.Common.{
  ℕ, ◌+◌, ◌-◌, ◌≡◌, true, Option, none, some, arith, Bytes, Bool-cases, inl, inr,
}
use lite_database.Outcome.{ok, raise, undefined}
use lite_database.Std.Handles.{one, after_close}
use lite_database.Utils.Arguments.{ConnectionArgs}
use lite_database.Any.Numbers.{FloatOps}
use lite_database.Pgsql.Info.{conninfo}
use lite_database.Pgsql.{
  Pgsql, PgsqlSession, is_connected, open_with, open_session, close_conn, close_session,
}

-- What is relied on of libpq: how many connections are held, for each of its calls. A connection
-- that could not be made is held like any other.
pub record Connects {W : Type 0} (api : Pgsql W) (held : W → ℕ) : Type 0 where
  pub connectdb_holds :
      (info : Bytes) (w : W) → held (api.connectdb info w).1 ≡ held w + one (api.connectdb info w).0
  pub finish_frees : (h : ℕ) (w : W) → held (api.finish h w) ≡ held w - 1

module _ {W : Type 0} (api : Pgsql W) (held : W → ℕ) (lib : Connects api held) where
  close_conn_holds :
      (conn : Option ℕ) (s : PgsqlSession) (w : W)
      → held (close_conn api conn s w).1 ≡ held w - one conn
  close_conn_holds none s w = omega arith
  close_conn_holds (some h) s w = lib.finish_frees h w

  close_session_holds :
      (n : ℕ) (s : PgsqlSession) (w : W)
      → held w ≡ n + one s.conn
      → held (close_session api s w).1 ≡ n
  unfolding close_session
  close_session_holds n s w e = omega (arith, e, close_conn_holds s.conn s w)

  connected_holds :
      (info : Bytes) (s : PgsqlSession) (w : W)
      → let (r, s', w') = open_with api s w (ok info) in held (close_session api s' w').1 ≡ held w
  unfolding open_with
  connected_holds info s w =
      let (conn, w') = api.connectdb info w in
      elim (Bool-cases (is_connected (api.status conn w'))) [
        | inl fine ↦ rw fine (
            close_session_holds (held w) (record { is_open = true; conn = conn }) w'
              (lib.connectdb_holds info w))
        | inr bad ↦ rw bad (
            close_session_holds (held w) (record { is_open = s.is_open; conn = conn }) w'
              (lib.connectdb_holds info w))
      ]

-- `close` behind `open`, with a value or an exception, hands back the connection that `open` made,
-- so that as many are held as before. A connection that the session had before is handed back only
-- if `open` threw for an argument: otherwise `open` overwrites it, and it stays held.
pub open-finish_lem :
    {W : Type 0} (api : Pgsql W) (held : W → ℕ)
    → Connects api held
    → (ops : FloatOps) (args : ConnectionArgs) (s : PgsqlSession) (w : W)
    → let (r, s', w') = open_session api ops args s w in
      held (close_session api s' w').1 ≡ after_close (conninfo ops args) s.conn (held w)
unfolding open_session open_with close_session
open-finish_lem api held lib ops args s w =
    elim (conninfo ops args)
      as (λ o.
        let (r, s', w') = open_with api s w o in
        held (close_session api s' w').1 ≡ after_close o s.conn (held w)) [
          | ok info ↦ connected_holds api held lib info s w
          | raise e ↦ close_conn_holds api held lib s.conn s w
          | undefined ↦ close_conn_holds api held lib s.conn s w
        ]
