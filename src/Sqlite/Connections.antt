-- ===== src/Sqlite/Connections.antt =====
-- SQLite/SQLiteSession.cpp, `open` and `close`: which connections are handed back.
use lite_database.Common.{
  ℕ, ◌+◌, ◌-◌, ◌≡◌, refl, Bool, Option, none, some, arith, Bytes, ℤ, Bool-cases, inl, inr, str_eq,
  codes, ◌==◌, if◌then◌else◌,
}
use lite_database.Outcome.{Outcome, ok, raise, undefined}
use lite_database.Utils.Arguments.{ConnectionArgs}
use lite_database.Any.Numbers.{FloatOps}
use lite_database.Sqlite.{
  Sqlite, SqliteSession, opened, open_args, open_target, open_with, open_session, close_conn,
  close_session, is_ok,
}
use lite_database.Std.Handles.{one}

-- How many connections `sqlite3_close` frees, by the statements, or the like, of the handle that are
-- not finalized: one where there are none, and none where the connection is busy with some, where
-- the handle is no open connection, or for a null pointer.
abbrev pub closable : {W : Type 0} → (ℕ → W → Option ℕ) → Option ℕ → W → ℕ
closable unfinalized none w = 0
closable unfinalized (some h) w = elim (unfinalized h w) [
  | none ↦ 0
  | some n ↦ if n == 0 then 1 else 0
]

-- What is relied on of the SQLite library: how many connections are held, and how many statements of
-- each are not finalized, which is `none` for a handle that is no open connection. A call that fails
-- to open a file may still hand out a connection, which is held like any other; a new connection has
-- no statements. `sqlite3_close` leaves a busy connection open, and returns a code for that which
-- the session does not look at.
pub record Connects {W : Type 0} (api : Sqlite W) (held : W → ℕ) (unfinalized : ℕ → W → Option ℕ)
    : Type 0 where
  pub open_file_holds :
      (name : Bytes) (w : W) → held (api.open_file name w).2 ≡ held w + one (api.open_file name w).1
  pub open_v2_holds :
      (name : Bytes) (flags : ℕ) (w : W)
      → held (api.open_v2 name flags w).2 ≡ held w + one (api.open_v2 name flags w).1
  pub open_file_fresh :
      (name : Bytes) (w : W)
      → let (rc, conn, w') = api.open_file name w in closable unfinalized conn w' ≡ one conn
  pub open_v2_fresh :
      (name : Bytes) (flags : ℕ) (w : W)
      → let (rc, conn, w') = api.open_v2 name flags w in closable unfinalized conn w' ≡ one conn
  pub close_frees :
      (h : ℕ) (w : W) → held (api.close h w) ≡ held w - closable unfinalized (some h) w

-- The connections held after `open` and `close`, by how the arguments were read: those before, and
-- where `open` threw for an argument, without that of the session, if it could be closed.
abbrev pub after_close : {A : Type 0} → Outcome A → ℕ → ℕ → ℕ
after_close (ok a) closed n = n
after_close (raise e) closed n = n - closed
after_close undefined closed n = n - closed

module _ {W : Type 0} (api : Sqlite W) (held : W → ℕ) (unfinalized : ℕ → W → Option ℕ)
    (lib : Connects api held unfinalized) where
  open_target_holds :
      (t : Bytes × Bool × Bool × Bool) (w : W)
      → let (rc, conn, w') = open_target api t w in
        (held w' ≡ held w + one conn) × (closable unfinalized conn w' ≡ one conn)
  unfolding open_target
  open_target_holds (target, create, read_only, uri) w =
      elim (Bool-cases (str_eq target (codes ":memory:"))) [
        | inl memory ↦
            rw memory
              (lib.open_file_holds (codes ":memory:") w, lib.open_file_fresh (codes ":memory:") w)
        | inr file ↦ elim (Bool-cases uri) [
          | inl by_uri ↦
              rw (file, by_uri) (lib.open_v2_holds target _ w, lib.open_v2_fresh target _ w)
          | inr by_name ↦
              rw (file, by_name) (lib.open_v2_holds target _ w, lib.open_v2_fresh target _ w)
        ]
      ]

  close_conn_holds :
      (conn : Option ℕ) (s : SqliteSession) (w : W)
      → held (close_conn api conn s w).1 ≡ held w - closable unfinalized conn w
  close_conn_holds none s w = omega arith
  close_conn_holds (some h) s w = lib.close_frees h w

  -- `open` keeps the library's connection in any case, and `close` hands it back.
  opened_holds :
      (n : ℕ) (t : ℤ × Option ℕ × W)
      → (held t.2 ≡ n + one t.1) × (closable unfinalized t.1 t.2 ≡ one t.1)
      → held (close_session api (opened api t).1 (opened api t).2).1 ≡ n
  unfolding opened close_session
  opened_holds n (res, none, w) (e, fresh) = elim (Bool-cases (is_ok res)) [
    | inl fine ↦ rw fine (omega (arith, e))
    | inr bad ↦ rw bad (omega (arith, e))
  ]
  opened_holds n (res, some h, w) (e, fresh) = elim (Bool-cases (is_ok res)) [
    | inl fine ↦ rw fine (omega (arith, e, fresh, lib.close_frees h w))
    | inr bad ↦ rw bad (omega (arith, e, fresh, lib.close_frees h w))
  ]

  close_conn_forgets :
      (conn : Option ℕ) (s : SqliteSession) (w : W)
      → s.conn ≡ conn
      → (close_conn api conn s w).0.conn ≡ none
  close_conn_forgets none s w e = e
  close_conn_forgets (some h) s w e = refl

-- `close` forgets the session's connection in any case, and hands it back unless statements of it
-- are not finalized: such a connection stays held. Behind `open`, with a value or an exception, it
-- hands back the connection that `open` made, so that as many are held as before. A connection
-- that the session had before is handed back by that only if `open` threw for an argument, and it
-- is not busy: otherwise `open` overwrites it, and it stays held.
pub open-close_lem :
    {W : Type 0} (api : Sqlite W) (held : W → ℕ) (unfinalized : ℕ → W → Option ℕ)
    → Connects api held unfinalized
    → (ops : FloatOps) (args : ConnectionArgs) (s : SqliteSession) (w : W)
    → let (r, s', w') = open_session api ops args s w in
      ((close_session api s w).0.conn ≡ none)
      × (held (close_session api s w).1 ≡ held w - closable unfinalized s.conn w)
      × (held (close_session api s' w').1
          ≡ after_close (open_args ops args) (closable unfinalized s.conn w) (held w))
unfolding open_session close_session open_with opened
open-close_lem api held unfinalized lib ops args s w = (
  close_conn_forgets api held unfinalized lib s.conn s w refl,
  close_conn_holds api held unfinalized lib s.conn s w,
  elim (open_args ops args)
      as (λ o.
        let (r, s', w') = open_with api s w o in
        held (close_session api s' w').1 ≡ after_close o (closable unfinalized s.conn w) (held w)) [
          | ok t ↦
              opened_holds api held unfinalized lib (held w) (open_target api t w)
                (open_target_holds api held unfinalized lib t w)
          | raise e ↦ close_conn_holds api held unfinalized lib s.conn s w
          | undefined ↦ close_conn_holds api held unfinalized lib s.conn s w
        ],
)
