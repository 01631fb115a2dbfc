-- ===== src/Database/OverMysql.antt =====
-- MySQL/MySQLSession.cpp as a session that implements an abstract database, for texts with one
-- statement.
use lite_database.Common.{
  ℕ, ◌<◌, ◌≡◌, ap, true, Option, none, some, List, [], Bytes, length, ℤ, ◌==◌, ==_iff,
  if◌then◌else◌, Bool-cases, inl, inr,
}
use lite_database.Outcome.{Outcome, ok, undefined}
use lite_database.Row.{Results}
use lite_database.Utils.Split.{split}
use lite_database.Any.Numbers.{FloatOps}
use lite_database.Session.{Methods, collected, query, query_rows}
use lite_database.Mysql.{Mysql, MysqlSession, is_ok, exec, close_session, query as mysql_query}
use lite_database.Mysql.Columns.{FieldType, Blank}
use lite_database.Mysql.Statements.{Fetched, statements, query_result_rows}
use lite_database.Database.{Answers, Implements}

-- A call that ran out of fuel is taken for an undefined one.
abbrev pub finished :
    {S W : Type 0}
    → MysqlSession
    → S
    → W
    → Option (Outcome (Unit {0}) × S × W)
    → Outcome (Unit {0}) × S × (MysqlSession × W)
finished session s w none = (undefined, s, (session, w))
finished session s w (some (r, s', w')) = (r, s', (session, w'))

-- The methods of a MySQL session, for results with fewer than `bound` rows.
unfoldable pub mysql_methods :
    {W : Type 0} → Mysql W → FloatOps → Blank → ℕ → Methods (MysqlSession × W)
unfolding close_session
mysql_methods api ops blank bound = record {
  exec = λ sql p. let (r, w') = exec api p.0 sql p.1 in (r, (p.0, w'));
  query_each =
      λ S sql cb s p. finished p.0 s p.1 (mysql_query api ops blank bound p.0.conn sql cb s p.1);
  close = λ p. close_session api p.0 p.1;
}

-- What is relied on of the MySQL library: over a connection, it answers the texts of the abstract
-- database with a result of that answer's rows, fewer than `bound` and each readable, and keeps the
-- relation to the database's state when the result is freed.
pub record Serves {W D : Type 0} (api : Mysql W) (ops : FloatOps) (blank : Blank) (bound : ℕ)
    (answers : Answers D) (R : Option ℕ → W → D → Type 0) : Type 0 where
  pub serves :
      (conn : Option ℕ) (sql : Bytes) (w : W) (d d' : D) (rows : Results)
      → R conn w d
      → answers sql d ≡ some (rows, d')
      → (errc : ℤ) × (res : ℕ) × (fields : List (Bytes × FieldType)) × (w₁ : W) × (w₂ : W)
        × (w₃ : W) × (w₄ : W) × (api.real_query conn sql w ≡ (errc, w₁))
        × (is_ok errc ≡ true)
        × (api.use_result conn w₁ ≡ (some res, w₂))
        × (api.fields res w₂ ≡ (fields, w₃))
        × Fetched api ops blank res fields w₃ rows w₄
        × (length rows < bound)
        × R conn (api.free_result res w₄) d'

-- The answers to texts with one statement, that is with one piece between semicolons that is not
-- empty; nothing is promised for other texts.
abbrev pub single : {D : Type 0} → Answers D → Answers D
single answers sql d = if statements (split sql b';') == 1 then answers sql d else none

-- Over a MySQL library that serves an abstract database, `query` of the base class, given a text
-- with one statement, returns the rows of that statement's answer, and keeps the relation.
pub query-single :
    {W D : Type 0} (api : Mysql W) (ops : FloatOps) (blank : Blank) (bound : ℕ)
    (answers : Answers D) (R : Option ℕ → W → D → Type 0)
    → Serves api ops blank bound answers R
    → (session : MysqlSession) (sql : Bytes) (w : W) (d d' : D) (rows : Results)
    → statements (split sql b';') ≡ 1
    → R session.conn w d
    → answers sql d ≡ some (rows, d')
    → (w' : W) × (query (mysql_methods api ops blank bound) sql (session, w)
        ≡ (ok rows, (session, w')))
      × R session.conn w' d'
unfolding mysql_methods query query_rows
query-single api ops blank bound answers R s session sql w d d' rows single_one rel e =
    let (errc, res, fields, w₁, w₂, w₃, w₄, sent, fine, used, named, fetched, lt, rel') =
      s.serves session.conn sql w d d' rows rel e in
    (
      api.free_result res w₄,
      ap (λ r. collected (finished {S = Results} session [] w r))
          (query_result_rows api ops blank bound session.conn sql w single_one sent fine used named
            fetched lt),
      rel',
    )

single_inv :
    {D : Type 0} (answers : Answers D) (sql : Bytes) (d : D) (r : Results × D)
    → single answers sql d ≡ some r
    → (statements (split sql b';') ≡ 1) × (answers sql d ≡ some r)
single_inv answers sql d r e = elim (Bool-cases (statements (split sql b';') == 1)) [
  | inl one ↦ ((==_iff (statements (split sql b';')) 1).0 one, rw one at e)
  | inr other ↦ absurd (let h : none ≡ some r = rw other at e in cc)
]

-- So the session serves programs of such texts.
pub mysql-Implements :
    {W D : Type 0} (api : Mysql W) (ops : FloatOps) (blank : Blank) (bound : ℕ)
    (answers : Answers D) (R : Option ℕ → W → D → Type 0)
    → Serves api ops blank bound answers R
    → Implements (mysql_methods api ops blank bound) (single answers) (λ p d. R p.0.conn p.1 d)
mysql-Implements api ops blank bound answers R s = record {
  implements = λ sql p d d' rows rel e.
      let (one, f) = single_inv answers sql d (rows, d') e in
      let (w', ran, rel') =
        query-single api ops blank bound answers R s p.0 sql p.1 d d' rows one rel f in
      ((p.0, w'), ran, rel');
}
