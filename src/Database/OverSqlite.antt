-- ===== src/Database/OverSqlite.antt =====
-- SQLite/SQLiteSession.cpp as a session that implements an abstract database.
use lite_database.Common.{
  ℕ, zero, suc, ◌≤◌, ◌<◌, ◌≡◌, refl, sym, ap, true, Option, none, some, [], ◌∷◌, arith, Bytes,
  length, ℤ, subst,
}
use lite_database.Outcome.{Outcome, ok, undefined}
use lite_database.Row.{Results}
use lite_database.Session.{Methods, collected, query, query_rows}
use lite_database.Sqlite.{Sqlite, SqliteSession, is_ok, exec, close_session, query as sqlite_query}
use lite_database.Sqlite.Rows.{Steps, Script, query_all_rows}
use lite_database.Database.{Statements, Answers, Implements, join_inv, script, script_next}

-- A call that ran out of fuel is taken for an undefined one.
abbrev pub finished :
    {S W : Type 0}
    → SqliteSession
    → S
    → W
    → Option (Outcome (Unit {0}) × S × W)
    → Outcome (Unit {0}) × S × (SqliteSession × W)
finished session s w none = (undefined, s, (session, w))
finished session s w (some (r, s', w')) = (r, s', (session, w'))

-- The methods of an SQLite session, for at most n statements in a text, each with fewer than
-- `bound` rows.
unfoldable pub sqlite_methods : {W : Type 0} → Sqlite W → ℕ → ℕ → Methods (SqliteSession × W)
unfolding close_session
sqlite_methods api n bound = record {
  exec = λ sql p. let (r, w') = exec api p.0 sql p.1 in (r, (p.0, w'));
  query_each =
      λ S sql cb s p. finished p.0 s p.1 (sqlite_query api n bound p.0.conn sql cb 0 s p.1);
  close = λ p. close_session api p.0 p.1;
}

-- What is relied on of the SQLite library: over a connection, it answers each statement of the
-- abstract database with that statement's rows, fewer than `bound`, hands back the text behind it,
-- and keeps the relation to the database's state when the statement is finalized.
pub record Serves {W D : Type 0} (api : Sqlite W) (bound : ℕ) (st : Statements D)
    (R : Option ℕ → W → D → Type 0) : Type 0 where
  pub serves :
      (conn : Option ℕ) (sql tail : Bytes) (w : W) (d d' : D) (rows : Results)
      → R conn w d
      → st sql d ≡ some (tail, rows, d')
      → (rc : ℤ) × (stmt : Option ℕ) × (w₁ : W) × (w₂ : W) × (api.prepare conn sql w
          ≡ (rc, stmt, tail, w₁))
        × (is_ok rc ≡ true)
        × Steps api stmt w₁ rows w₂
        × (length rows < bound)
        × R conn (api.finalize stmt w₂) d'

module _ {W D : Type 0} (api : Sqlite W) (bound : ℕ) (st : Statements D)
    (R : Option ℕ → W → D → Type 0) (s : Serves api bound st R) (conn : Option ℕ) where
  -- The library runs, for a text with an abstract answer, at most n statements with its rows.
  abbrev Runs : ℕ → Answers D → Type 0
  Runs n answers =
      (sql : Bytes) (w : W) (d d' : D) (rows : Results)
      → R conn w d
      → answers sql d ≡ some (rows, d')
      → (m : ℕ) × (w' : W) × Script api bound conn m sql w rows w' × (m ≤ n) × R conn w' d'

  script_next-Runs :
      (n : ℕ)
      → Runs n (script st n)
      → (sql : Bytes) (w : W) (d d' : D) (rows : Results) → R conn w d
      → (o : Option (Bytes × Results × D)) → st sql d ≡ o
      → script_next o (script st n) ≡ some (rows, d')
      → (m : ℕ) × (w' : W) × Script api bound conn m sql w rows w' × (m ≤ suc n) × R conn w' d'
  script_next-Runs n ih sql w d d' rows rel none e h = absurd (cc)
  script_next-Runs n ih sql w d d' rows rel (some ([], rs, d₁)) e h =
      let (rc, stmt, w₁, w₂, p, fine, steps, lt, rel') = s.serves conn sql [] w d d₁ rs rel e in
      (
        1,
        api.finalize stmt w₂,
        subst (λ r. Script api bound conn 1 sql w r (api.finalize stmt w₂)) (cc)
            (Script.last p fine steps lt),
        omega arith,
        subst (R conn (api.finalize stmt w₂)) (cc) rel',
      )
  script_next-Runs n ih sql w d d' rows rel (some (c ∷ tail, rs, d₁)) e h =
      let (rc, stmt, w₁, w₂, p, fine, steps, lt, rel₁) =
        s.serves conn sql (c ∷ tail) w d d₁ rs rel e in
      let (rest, f, all) = join_inv rs (script st n (c ∷ tail) d₁) rows d' h in
      let (m, w', later, le, rel') = ih (c ∷ tail) (api.finalize stmt w₂) d₁ d' rest rel₁ f in
      (
        suc m,
        w',
        subst (λ r. Script api bound conn (suc m) sql w r w') (sym all)
            (Script.more p fine steps lt later),
        omega arith,
        rel',
      )

  script-Runs : (n : ℕ) → Runs n (script st n)
  unfolding script
  script-Runs zero sql w d d' rows rel e = absurd (cc)
  script-Runs (suc n) sql w d d' rows rel e =
      script_next-Runs n (script-Runs n) sql w d d' rows rel (st sql d) refl e

-- Over an SQLite library that serves an abstract database, `query` of the base class answers a text
-- of at most n statements with the rows of all of them, in their order, and keeps the relation.
pub query-script :
    {W D : Type 0} (api : Sqlite W) (n bound : ℕ) (st : Statements D)
    (R : Option ℕ → W → D → Type 0)
    → Serves api bound st R
    → (session : SqliteSession) (sql : Bytes) (w : W) (d d' : D) (rows : Results)
    → R session.conn w d
    → script st n sql d ≡ some (rows, d')
    → (w' : W) × (query (sqlite_methods api n bound) sql (session, w) ≡ (ok rows, (session, w')))
      × R session.conn w' d'
unfolding sqlite_methods query query_rows
query-script api n bound st R s session sql w d d' rows rel e =
    let (m, w', run, le, rel') =
      script-Runs api bound st R s session.conn n sql w d d' rows rel e in
    (
      w',
      ap (λ r. collected (finished {S = Results} session [] w r)) (query_all_rows api run n 0 le),
      rel',
    )

-- So the session serves programs over that database.
pub sqlite-Implements :
    {W D : Type 0} (api : Sqlite W) (n bound : ℕ) (st : Statements D)
    (R : Option ℕ → W → D → Type 0)
    → Serves api bound st R
    → Implements (sqlite_methods api n bound) (script st n) (λ p d. R p.0.conn p.1 d)
sqlite-Implements api n bound st R s = record {
  implements = λ sql p d d' rows rel e.
      let (w', ran, rel') = query-script api n bound st R s p.0 sql p.1 d d' rows rel e in
      ((p.0, w'), ran, rel');
}
