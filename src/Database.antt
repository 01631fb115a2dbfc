-- ===== src/Database.antt =====
-- What a session promises its user: a database that answers texts of statements. The abstract
-- database has a state of its own, without connections, handles, fuel or callbacks; `Implements`
-- says that a session's methods answer as the database does.
pub mod Client
pub mod OverSqlite
pub mod OverMysql
use lite_database.Common.{ℕ, zero, suc, ◌≡◌, Option, none, some, List, [], ◌∷◌, ◌++◌, Bytes}
use lite_database.Outcome.{ok}
use lite_database.Row.{Results}
use lite_database.Session.{Methods, query}

-- How the first statement of a text is answered: the text behind it, its rows and the state after
-- it; `none` where nothing is promised, as for a statement with an error.
abbrev pub Statements : Type 0 → Type 0
Statements D = Bytes → D → Option (Bytes × Results × D)

-- How a whole text is answered.
abbrev pub Answers : Type 0 → Type 0
Answers D = Bytes → D → Option (Results × D)

abbrev pub join : {D : Type 0} → Results → Option (Results × D) → Option (Results × D)
join rows none = none
join rows (some (rest, d)) = some (rows ++ rest, d)

-- What follows the answer to the first statement of a text.
abbrev pub script_next :
    {D : Type 0} → Option (Bytes × Results × D) → Answers D → Option (Results × D)
script_next none next = none
script_next (some ([], rows, d)) next = some (rows, d)
script_next (some (c ∷ tail, rows, d)) next = join rows (next (c ∷ tail) d)

-- The answer to a text of at most n statements: the rows of all of them, one behind the other.
unfoldable pub script : {D : Type 0} → Statements D → ℕ → Answers D
script st zero sql d = none
script st (suc n) sql d = script_next (st sql d) (script st n)

pub join_inv :
    {D : Type 0} (rows : Results) (o : Option (Results × D)) (all : Results) (d : D)
    → join rows o ≡ some (all, d)
    → (rest : Results) × (o ≡ some (rest, d)) × (all ≡ rows ++ rest)
join_inv rows none all d e = absurd (cc)
join_inv rows (some (rest, d')) all d e = (rest, cc, cc)

-- A session's `query` answers as the abstract database does: from related states it returns the
-- rows of the abstract answer, and the states are related afterwards.
pub record Implements {W D : Type 0} (methods : Methods W) (answers : Answers D)
    (R : W → D → Type 0) : Type 0 where
  pub implements :
      (sql : Bytes) (w : W) (d d' : D) (rows : Results)
      → R w d
      → answers sql d ≡ some (rows, d')
      → (w' : W) × (query methods sql w ≡ (ok rows, w')) × R w' d'
