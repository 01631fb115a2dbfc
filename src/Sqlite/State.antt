-- ===== src/Sqlite/State.antt =====
-- SQLite/SQLiteSession.cpp, `open` and `close`: the flag `_isOpen` and the pointer `conn`.
use lite_database.Common.{
  ℕ, ◌≡◌, ◌≢◌, refl, subst, true, Option, none, some, ℤ, Bool-cases, inl, inr,
}
use lite_database.Outcome.{Outcome, ok, raise, undefined}
use lite_database.Utils.Arguments.{ConnectionArgs}
use lite_database.Any.Numbers.{FloatOps}
use lite_database.Sqlite.{
  Sqlite, SqliteSession, new_sqlite_session, opened, open_args, open_target, open_session,
  close_session, open_with, close_conn, is_ok,
}

-- A session that says that it is open has a connection.
pub IsConnected : SqliteSession → Type 0
IsConnected s = s.is_open ≡ true → s.conn ≢ none

module _ {W : Type 0} (api : Sqlite W) (ops : FloatOps) where
  -- The sessions and library states that calls of `open` and `close` lead to, from a new session,
  -- in any order, whether a call throws or not; between them the library's state may change.
  pub data Reachable : SqliteSession → W → Type 0 where
    start : (w : W) → Reachable new_sqlite_session w
    elsewhere : {s : SqliteSession} {w : W} → Reachable s w → (w' : W) → Reachable s w'
    open_call :
        {s s' : SqliteSession} {w w' : W} {r : Outcome (Unit {0})}
        → Reachable s w
        → (args : ConnectionArgs) → open_session api ops args s w ≡ (r, s', w')
        → Reachable s' w'
    close_call :
        {s s' : SqliteSession} {w w' : W}
        → Reachable s w
        → close_session api s w ≡ (s', w')
        → Reachable s' w'

  opened-IsConnected : (t : ℤ × Option ℕ × W) → IsConnected ((opened api t).1)
  unfolding opened IsConnected
  opened-IsConnected (res, none, w) = elim (Bool-cases (is_ok res)) [
    | inl e ↦ rw e (λ h g. cc)
    | inr e ↦ rw e (λ h g. cc)
  ]
  opened-IsConnected (res, some c, w) = elim (Bool-cases (is_ok res)) [
    | inl e ↦ rw e (λ h g. cc)
    | inr e ↦ rw e (λ h g. cc)
  ]

  open_session-IsConnected :
      (args : ConnectionArgs) (s : SqliteSession) (w : W)
      → IsConnected s
      → IsConnected ((open_session api ops args s w).1)
  unfolding open_session open_with opened
  open_session-IsConnected args s w h =
      elim (open_args ops args) as (λ r. IsConnected ((open_with api s w r).1)) [
        | ok a ↦ opened-IsConnected (open_target api a w)
        | raise e ↦ h
        | undefined ↦ h
      ]

  close_conn-IsConnected :
      (conn : Option ℕ) (s : SqliteSession) (w : W)
      → IsConnected s
      → IsConnected ((close_conn api conn s w).0)
  unfolding IsConnected
  close_conn-IsConnected none s w h = h
  close_conn-IsConnected (some c) s w h = λ o g. cc

  close_session-IsConnected :
      (s : SqliteSession) (w : W) → IsConnected s → IsConnected ((close_session api s w).0)
  unfolding close_session
  close_session-IsConnected s w h = close_conn-IsConnected s.conn s w h

  Reachable-IsConnected : {s : SqliteSession} {w : W} → Reachable s w → IsConnected s
  unfolding IsConnected new_sqlite_session
  Reachable-IsConnected (Reachable.start w) = λ h g. cc
  Reachable-IsConnected (Reachable.elsewhere r w') = Reachable-IsConnected r
  Reachable-IsConnected (Reachable.open_call {s = s} {w = w} r args e) =
      subst (λ t. IsConnected (t.1)) e (open_session-IsConnected args s w (Reachable-IsConnected r))
  Reachable-IsConnected (Reachable.close_call {s = s} {w = w} r e) =
      subst (λ t. IsConnected (t.0)) e (close_session-IsConnected s w (Reachable-IsConnected r))

  close_conn_new :
      (s : SqliteSession) (conn : Option ℕ) (w : W)
      → IsConnected s
      → s.conn ≡ conn
      → (close_conn api conn s w).0 ≡ new_sqlite_session
  unfolding IsConnected new_sqlite_session
  close_conn_new s (some c) w h e = refl
  close_conn_new s none w h e = elim (Bool-cases s.is_open) [
    | inl o ↦ absurd (h o e)
    | inr o ↦ rw (o, e) refl
  ]

-- After any sequence of `open` and `close` calls, those that throw included, a session that says
-- that it is open has a connection, and `close` makes every session the new session: not open, and
-- without a connection.
pub session_states :
    {W : Type 0} (api : Sqlite W) (ops : FloatOps) {s : SqliteSession} {w : W}
    → Reachable api ops s w
    → IsConnected s × ((close_session api s w).0 ≡ new_sqlite_session)
unfolding close_session
session_states api ops {s} {w} r = (
  Reachable-IsConnected api ops r,
  close_conn_new api ops s s.conn w (Reachable-IsConnected api ops r) refl,
)
