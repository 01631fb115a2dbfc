-- ===== src/Session/Into.antt =====
-- headers/Once.h and Core/Once.cpp, `once, into(...)`: the statement is run, its result is stored,
-- and a statement on the heap is deleted.
use lite_database.Common.{Bool, true, false, List, [], ◌∷◌, ◌++◌, Bytes}
use lite_database.Outcome.{Outcome, ok, raise, undefined, ◌>>=◌}
use lite_database.Row.{Row, Results}
use lite_database.Types.{index}
use lite_database.Once.{Once, get_sql}
use lite_database.Session.{Methods, query}

-- `into_type<T>`, by what the variable holds, and `into(v)`, which makes it.
pub record IntoType (A : Type 0) : Type 0 where
  pub val : A

unfoldable pub into : {A : Type 0} → A → IntoType A
into v = record { val = v }

-- What such a call leaves behind: how it ended, with the value stored; whether it deleted the
-- statement; and the state of the database.
pub record Ended (A W : Type 0) : Type 0 where
  pub result : Outcome A
  pub freed : Bool
  pub world : W

-- `release()` is the last line of each: an exception before it skips it.
abbrev pub finish : {A W : Type 0} → Once → Outcome A → W → Ended A W
finish once (ok a) w = record { result = ok a; freed = once.heap; world = w }
finish once (raise e) w = record { result = raise e; freed = false; world = w }
finish once undefined w = record { result = undefined; freed = false; world = w }

-- A call on the text of the statement.
abbrev pub with_sql : {A W : Type 0} → Once → (Bytes → W → Outcome A × W) → W → Outcome A × W
with_sql once run w = elim (get_sql once) [
  | ok sql ↦ run sql w
  | raise e ↦ (raise e, w)
  | undefined ↦ (undefined, w)
]

-- `catch (...)`.
abbrev pub succeeded : {A : Type 0} → Outcome A → Outcome Bool
succeeded (ok a) = ok true
succeeded (raise e) = ok false
succeeded undefined = undefined

-- The loop over the rows of `into(vector)`.
unfoldable pub push_rows : {A : Type 0} → (Row → Outcome A) → Results → List A → Outcome (List A)
push_rows from_row [] out = ok out
push_rows from_row (row ∷ rows) out = from_row row >>= λ v. push_rows from_row rows (out ++ v ∷ [])

-- The first row, if there is one, by the user's `from_row`.
abbrev pub first_row : {A : Type 0} → (Row → Outcome A) → A → Results → Outcome A
first_row from_row old [] = ok old
first_row from_row old (row ∷ rows) = from_row row

module _ {W : Type 0} (methods : Methods W) where
  -- `into(v)` of a type with `from_row`; `old` is what `v` holds before.
  unfoldable pub into_value : {A : Type 0} → (Row → Outcome A) → A → Once → W → Ended A W
  into_value from_row old once w =
      let (r, w') = with_sql once (query methods) w in finish once (r >>= first_row from_row old) w'

  unfoldable pub into_vector :
      {A : Type 0} → (Row → Outcome A) → List A → Once → W → Ended (List A) W
  into_vector from_row old once w =
      let (r, w') = with_sql once (query methods) w in
      finish once (r >>= λ rows. push_rows from_row rows old) w'

  -- `into(row)`, which takes `res[0]`.
  unfoldable pub into_row : Once → W → Ended Row W
  unfolding index
  into_row once w =
      let (r, w') = with_sql once (query methods) w in finish once (r >>= λ rows. index rows 0) w'

  unfoldable pub into_results : Once → W → Ended Results W
  into_results once w = let (r, w') = with_sql once (query methods) w in finish once r w'

  -- `into(b)` of a `bool`: whether the statement ran without an exception.
  unfoldable pub into_bool : Once → W → Ended Bool W
  into_bool once w = let (r, w') = with_sql once methods.exec w in finish once (succeeded r) w'

  unfoldable pub into_null : Once → W → Ended (Unit {0}) W
  into_null once w = let (r, w') = with_sql once methods.exec w in finish once r w'
