-- ===== src/Session.antt =====
-- headers/Session.h and Core/Session.cpp: the methods that every kind of database shares, over
-- those that each kind implements.
pub mod Into
pub mod IntoRules
use lite_database.Common.{ℕ, Bool, true, List, [], ◌∷◌, ◌++◌, Bytes, codes}
use lite_database.Exception.{Exception, build}
use lite_database.Outcome.{Outcome, ok, throw, raise, undefined}
use lite_database.Row.{Row, Results}
use lite_database.Once.{Once, new_once, append}

-- What a kind of database implements, over the state `W` of the session and of its server. A
-- callback changes a state of its own and says whether to go on, or throws; it gets the row and the
-- number of the statement.
pub record Methods (W : Type 0) : Type 1 where
  pub exec : Bytes → W → Outcome (Unit {0}) × W
  pub query_each :
      (S : Type 0) → Bytes → (S → Row → ℕ → S × Outcome Bool) → S → W → Outcome (Unit {0}) × S × W
  pub close : W → W

-- `NotSupportedException`.
unfoldable pub not_supported_exception : Exception
not_supported_exception = build (codes "This kind of database doesn't support this operation" ∷ [])

-- The rows that were collected, unless an exception passed through.
abbrev pub collected : {W : Type 0} → Outcome (Unit {0}) × Results × W → Outcome Results × W
collected (ok u, rows, w) = (ok rows, w)
collected (raise e, rows, w) = (raise e, w)
collected (undefined, rows, w) = (undefined, w)

module _ {W : Type 0} (methods : Methods W) where
  -- `query` with a callback that does not get the statement's number.
  unfoldable pub query_rows :
      (S : Type 0) → Bytes → (S → Row → S × Outcome Bool) → S → W → Outcome (Unit {0}) × S × W
  query_rows S sql cb = methods.query_each S sql (λ s row n. cb s row)

  -- `query` that collects all rows.
  unfoldable pub query : Bytes → W → Outcome Results × W
  unfolding query_rows
  query sql w =
      collected (query_rows Results sql (λ (rows : Results) row. (rows ++ row ∷ [], ok true)) [] w)

  -- `release(sess)`: the connection is closed; the object itself is gone afterwards.
  unfoldable pub release_session : W → W
  release_session w = methods.close w

  -- `release`, which calls it.
  unfoldable pub release : W → W
  unfolding release_session
  release w = release_session w

-- The defaults of `setCurrentDB` and `changeUser`.
unfoldable pub set_current_db : Bytes → Outcome (Unit {0})
unfolding not_supported_exception
set_current_db dbname = throw not_supported_exception

unfoldable pub change_user : Bytes → Bytes → Outcome (Unit {0})
unfolding not_supported_exception
change_user user passwd = throw not_supported_exception

-- `sess << sql`: a statement on the heap.
unfoldable pub begin_statement : Bytes → Once
unfolding new_once append
begin_statement sql = append sql (record new_once { heap = true })

-- `Session::isOpen`, of the member `_isOpen`.
unfoldable pub is_open : Bool → Bool
is_open flag = flag
