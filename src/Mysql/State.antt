-- ===== src/Mysql/State.antt =====
-- MySQL/MySQLSession.cpp, `open`, `close` and `isOpen`: the flag `_isOpen`.
use lite_database.Common.{
  ℕ, ◌≡◌, refl, ap, sym, ◌∙◌, Bool, false, Option, none, some, Bool-cases, inl, inr,
}
use lite_database.Outcome.{Outcome, ok, raise, undefined}
use lite_database.Utils.Arguments.{ConnectionArgs}
use lite_database.Any.Numbers.{FloatOps}
use lite_database.Mysql.{
  Mysql, MysqlSession, Target, new_mysql_session, open_args, open_with, open_session, close_conn,
  close_session, is_open, is_ok,
}

module _ {W : Type 0} (api : Mysql W) (ops : FloatOps) where
  -- The sessions and library states that calls of `open`, `close` and `isOpen` lead to, from a new
  -- session, in any order, whether a call throws or not.
  pub data Reachable : MysqlSession → W → Type 0 where
    start : (w : W) → Reachable new_mysql_session w
    elsewhere : {s : MysqlSession} {w : W} → Reachable s w → (w' : W) → Reachable s w'
    open_call :
        {s s' : MysqlSession} {w w' : W} {r : Outcome (Unit {0})}
        → Reachable s w
        → (args : ConnectionArgs) → open_session api ops args s w ≡ (r, s', w')
        → Reachable s' w'
    close_call :
        {s s' : MysqlSession} {w w' : W}
        → Reachable s w
        → close_session api s w ≡ (s', w')
        → Reachable s' w'
    is_open_call :
        {s s' : MysqlSession} {w w' : W} {b : Bool}
        → Reachable s w
        → is_open api s w ≡ (b, s', w')
        → Reachable s' w'

  open_with_flag :
      (flag : Bool) (conn : Option ℕ) (w : W) (r : Outcome Target)
      → (open_with api flag conn w r).1.is_open ≡ flag
  unfolding open_with
  open_with_flag flag conn w (ok (host, port, db, user, passwd)) = refl
  open_with_flag flag conn w (raise e) = refl
  open_with_flag flag conn w undefined = refl

  close_conn_flag :
      (conn : Option ℕ) (s : MysqlSession) (w : W)
      → s.is_open ≡ false
      → (close_conn api conn s w).0.is_open ≡ false
  close_conn_flag none s w h = h
  close_conn_flag (some c) s w h = refl

  is_open_flag :
      (s : MysqlSession) (w : W)
      → s.is_open ≡ false
      → ((is_open api s w).0 ≡ false) × ((is_open api s w).1.is_open ≡ false)
  unfolding is_open
  is_open_flag s w h = elim (Bool-cases (is_ok (api.ping s.conn w).0)) [
    | inl e ↦ (rw e h, rw e h)
    | inr e ↦ (rw e refl, rw e refl)
  ]

  Reachable-flag : {s : MysqlSession} {w : W} → Reachable s w → s.is_open ≡ false
  unfolding new_mysql_session open_session close_session
  Reachable-flag (Reachable.start w) = refl
  Reachable-flag (Reachable.elsewhere r w') = Reachable-flag r
  Reachable-flag (Reachable.open_call {s = s} {w = w} r args e) =
      sym (ap (λ t. t.1.is_open) e)
      ∙ open_with_flag s.is_open (api.init s.conn w).0 (api.init s.conn w).1 (open_args ops args)
      ∙ Reachable-flag r
  Reachable-flag (Reachable.close_call {s = s} {w = w} r e) =
      sym (ap (λ t. t.0.is_open) e) ∙ close_conn_flag s.conn s w (Reachable-flag r)
  Reachable-flag (Reachable.is_open_call {s = s} {w = w} r e) =
      sym (ap (λ t. t.1.is_open) e) ∙ (is_open_flag s w (Reachable-flag r)).1

-- After any sequence of `open`, `close` and `isOpen` calls, those of `open` that succeed included,
-- `_isOpen` is false, and `isOpen` answers that the session is not open.
pub never_open :
    {W : Type 0} (api : Mysql W) (ops : FloatOps) {s : MysqlSession} {w : W}
    → Reachable api ops s w
    → (s.is_open ≡ false) × ((is_open api s w).0 ≡ false)
never_open api ops {s} {w} r =
    (Reachable-flag api ops r, (is_open_flag api ops s w (Reachable-flag api ops r)).0)
