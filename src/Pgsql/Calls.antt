-- ===== src/Pgsql/Calls.antt =====
-- PostgreSQL/PgSQLSession.cpp: `exec`, `close` with `isOpen`, and the callback of `query`.
use lite_database.Common.{
  ℕ, zero, suc, ◌+◌, ◌<◌, ◌≡◌, refl, Bool, true, false, Option, none, some, List, [], ◌∷◌, arith,
  Bytes, Bool-cases, Option-cases, inl, inr,
}
use lite_database.Outcome.{Outcome, ok, raise, undefined}
use lite_database.Utils.Split.{split}
use lite_database.Row.{Row}
use lite_database.Pgsql.{
  Pgsql, PgsqlSession, Status, close_conn, close_session, is_open, drain, send, exec, rows_of,
  query_loop, query, is_skipped,
}

module _ {W : Type 0} (api : Pgsql W) (conn : Option ℕ) where
  -- The connection holds n results, and then none.
  pub data Pending : ℕ → W → W → Type 0 where
    none_left : {w w' : W} → api.get_result conn w ≡ (none, w') → Pending 0 w w'
    one_more :
        {n r : ℕ} {w w' w'' : W}
        → api.get_result conn w ≡ (some r, w')
        → Pending n w' w''
        → Pending (suc n) w w''

  drain-Pending :
      {n : ℕ} {w w' : W} → Pending n w w' → (f : ℕ) → n < f → drain api f conn w ≡ some w'
  unfolding drain
  drain-Pending (Pending.none_left e) zero lt = absurd (omega arith)
  drain-Pending (Pending.one_more e p) zero lt = absurd (omega arith)
  drain-Pending (Pending.none_left e) (suc f) lt = rw (e, drain) (rw e refl)
  drain-Pending (Pending.one_more e p) (suc f) lt =
      rw (e, drain) (rw e (drain-Pending p f (omega arith)))

-- `exec` reads away all results of the statement before it, however many, and then sends the text;
-- the fuel is enough where it is larger than their number.
pub exec_drains :
    {W : Type 0} (api : Pgsql W) (conn : Option ℕ) (sql : Bytes) {n : ℕ} {w w' : W} (f : ℕ)
    → Pending api conn n w w'
    → n < f
    → exec api f conn sql w ≡ send api conn sql (some w')
unfolding exec
exec_drains api conn sql f p lt = rw (drain-Pending api conn p f lt) refl

closed_state :
    {W : Type 0} (api : Pgsql W) (s : PgsqlSession) (w : W)
    → ((v : W) → api.status none v ≡ Status.connection_bad)
    → (conn : Option ℕ) → s.conn ≡ conn
    → ((close_conn api conn s w).0.is_open ≡ s.is_open)
      × ((close_conn api conn s w).0.conn ≡ none)
      × (is_open api (close_conn api conn s w).0 (close_conn api conn s w).1
          ≡ (false, record { is_open = false; conn = none }, (close_conn api conn s w).1))
unfolding is_open close_session
closed_state api s w bad none e = (refl, e, rw (e, bad w) refl)
closed_state api s w bad (some h) e = (refl, refl, rw (bad (api.finish h w)) refl)

-- `close` ends the connection but leaves `_isOpen` as it was; a call of `isOpen` behind it answers
-- false and clears the flag, where libpq calls a null connection bad.
pub is_open-close :
    {W : Type 0} (api : Pgsql W) (s : PgsqlSession) (w : W)
    → ((v : W) → api.status none v ≡ Status.connection_bad)
    → ((close_session api s w).0.is_open ≡ s.is_open)
      × ((close_session api s w).0.conn ≡ none)
      × (is_open api (close_session api s w).0 (close_session api s w).1
          ≡ (false, record { is_open = false; conn = none }, (close_session api s w).1))
unfolding is_open close_session
is_open-close api s w bad = closed_state api s w bad s.conn refl

-- A run's result with the state of the callback put in.
abbrev pub with_state :
    {S W : Type 0}
    → S
    → Option (Outcome (Unit {0}) × Unit {0} × W)
    → Option (Outcome (Unit {0}) × S × W)
with_state s none = none
with_state s (some (r, u, w)) = some (r, s, w)

-- The callback without a state.
abbrev pub no_callback : Unit {0} → Row → ℕ → Unit {0} × Outcome Bool
no_callback u row n = (u, ok true)

module _ {S W : Type 0} (api : Pgsql W) (f : ℕ) (conn : Option ℕ)
    (cb : S → Row → ℕ → S × Outcome Bool) where
  query_loop_piece :
      (p : Bytes) (ps : List Bytes) (num : ℕ) (s : S) (w : W) (r : Option (Outcome (Unit {0}) × W))
      → is_skipped p ≡ false
      → exec api f conn p w ≡ r
      → ((n : ℕ) (v : W)
          → query_loop api f conn cb ps n s v
            ≡ with_state s (query_loop api f conn no_callback ps n tt v))
      → query_loop api f conn cb (p ∷ ps) num s w
        ≡ with_state s (query_loop api f conn no_callback (p ∷ ps) num tt w)
  unfolding query_loop
  query_loop_piece p ps num s w none k e ih = rw (k, e) refl
  query_loop_piece p ps num s w (some (raise x, v)) k e ih = rw (k, e) refl
  query_loop_piece p ps num s w (some (undefined, v)) k e ih = rw (k, e) refl
  query_loop_piece p ps num s w (some (ok u, v)) k e ih =
      elim (Option-cases (rows_of api f conn v)) [
        | inl g ↦ rw (k, e) (rw g refl)
        | inr (v', g) ↦ rw (k, e) (rw g (ih (num + 1) v'))
      ]

  query_loop-no_callback :
      (ps : List Bytes) (num : ℕ) (s : S) (w : W)
      → query_loop api f conn cb ps num s w
        ≡ with_state s (query_loop api f conn no_callback ps num tt w)
  unfolding query_loop
  query_loop-no_callback [] num s w = refl
  query_loop-no_callback (p ∷ ps) num s w = elim (Bool-cases (is_skipped p)) [
    | inl k ↦ rw (query_loop, k) (query_loop-no_callback ps num s w)
    | inr k ↦
        query_loop_piece p ps num s w (exec api f conn p w) k refl
          (λ n v. query_loop-no_callback ps n s v)
  ]

-- `query` never calls the callback: a run with any callback leaves the callback's state as it was,
-- and does otherwise what the run with a callback without a state does.
pub query-no_callback :
    {S W : Type 0} (api : Pgsql W) (f : ℕ) (conn : Option ℕ) (sql : Bytes)
    (cb : S → Row → ℕ → S × Outcome Bool) (s : S) (w : W)
    → query api f conn sql cb s w ≡ with_state s (query api f conn sql no_callback tt w)
unfolding query
query-no_callback api f conn sql cb s w =
    query_loop-no_callback api f conn cb (split sql b';') 0 s w
