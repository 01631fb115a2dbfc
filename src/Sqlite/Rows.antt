-- ===== src/Sqlite/Rows.antt =====
-- SQLite/SQLiteSession.cpp, `query`: the rows that the callback gets, and the statement's number.
use lite_database.Common.{
  ℕ, zero, suc, ◌≤◌, ◌<◌, ◌≡◌, refl, sym, ap, ◌∙◌, Bool, true, false, Option, some, [], ◌∷◌, ◌++◌,
  append_assoc, append-nil, arith, Bytes, length, ℤ, Bool-cases, Option-cases, inl, inr,
}
use lite_database.Callback.{go_on_if_same}
use lite_database.Outcome.{Outcome, ok, raise, undefined}
use lite_database.Row.{Row, Results}
use lite_database.Sqlite.{Sqlite, is_row, is_ok, column_row, step_loop, query}

-- The callback that is told number 0 whatever the number is.
abbrev at_zero : {S : Type 0} → (S → Row → ℕ → S × Outcome Bool) → S → Row → ℕ → S × Outcome Bool
at_zero cb s row n = cb s row 0

module _ {W : Type 0} (api : Sqlite W) where
  step_loop-at_zero :
      {S : Type 0} (f : ℕ) (stmt : Option ℕ) (cb : S → Row → ℕ → S × Outcome Bool) (s : S) (w : W)
      → step_loop api f stmt cb 0 s w ≡ step_loop api f stmt (at_zero cb) 0 s w
  unfolding step_loop
  step_loop-at_zero zero stmt cb s w = refl
  step_loop-at_zero (suc f) stmt cb s w =
      let (rc, w') = api.step stmt w in
      let row = column_row (api.columns stmt w') in
      elim (Bool-cases (is_row rc)) [
        | inr last ↦ rw last refl
        | inl more ↦ rw more (
            go_on_if_same (cb s row 0) w' (step_loop api f stmt cb 0)
              (step_loop api f stmt (at_zero cb) 0) (step_loop-at_zero f stmt cb))
      ]

  query-at_zero :
      {S : Type 0} (f rows : ℕ) (conn : Option ℕ) (sql : Bytes)
      (cb : S → Row → ℕ → S × Outcome Bool) (n m : ℕ) (s : S) (w : W)
      → query api f rows conn sql cb n s w ≡ query api f rows conn sql (at_zero cb) m s w
  unfolding query
  query-at_zero zero rows conn sql cb n m s w = refl
  query-at_zero (suc f) rows conn sql cb n m s w =
      let (res, stmt, tail, w') = api.prepare conn sql w in
      rw (step_loop-at_zero rows stmt cb s w')
        (elim (Option-cases (step_loop api rows stmt (at_zero cb) 0 s w')) [
          | inl e ↦ rw e
          | inr ((raise x, s', w''), e) ↦ rw e
          | inr ((undefined, s', w''), e) ↦ rw e
          | inr ((ok u, s', w''), e) ↦
              rw e (rw (query-at_zero f rows conn tail cb 1 1 s' (api.finalize stmt w'')))
        ])

-- The callback of `query` gets 0 as the number of every statement, not only of the first: a run
-- with any callback is the run with the callback that is told 0, whatever the static variable held.
query_numbers :
    {S W : Type 0} (api : Sqlite W) (f rows : ℕ) (conn : Option ℕ) (sql : Bytes)
    (cb : S → Row → ℕ → S × Outcome Bool) (n m : ℕ) (s : S) (w : W)
    → query api f rows conn sql cb n s w ≡ query api f rows conn sql (at_zero cb) m s w
query_numbers api = query-at_zero api

-- The callback of `query(sql)`, which keeps every row.
abbrev pub collect : Results → Row → ℕ → Results × Outcome Bool
collect rows row n = (rows ++ row ∷ [], ok true)

module _ {W : Type 0} (api : Sqlite W) where
  -- The library gives a statement's rows one by one, and then no row.
  pub data Steps (stmt : Option ℕ) : W → Results → W → Type 0 where
    done : {w w' : W} {rc : ℤ} → api.step stmt w ≡ (rc, w') → is_row rc ≡ false → Steps stmt w [] w'
    row :
        {w w' w'' : W} {rc : ℤ} {rows : Results}
        → api.step stmt w ≡ (rc, w')
        → is_row rc ≡ true
        → Steps stmt w' rows w''
        → Steps stmt w (column_row (api.columns stmt w') ∷ rows) w''

  step_loop-Steps :
      {stmt : Option ℕ} {w w' : W} {rows : Results}
      → Steps stmt w rows w'
      → (f : ℕ) (s : Results) → length rows < f
      → step_loop api f stmt collect 0 s w ≡ some (ok tt, s ++ rows, w')
  unfolding step_loop
  step_loop-Steps (Steps.done e last) zero s lt = absurd (omega arith)
  step_loop-Steps {w' = w'} (Steps.done e last) (suc f) s lt =
      rw (e, last) (ap (λ t. some (ok tt, t, w')) (sym (append-nil s)))
  step_loop-Steps (Steps.row e more steps) zero s lt = absurd (omega arith)
  step_loop-Steps {stmt} {w' = end} (Steps.row {w' = w'} {rows = rows} e more steps) (suc f) s lt =
      rw (e, more)
        (step_loop-Steps steps f (s ++ column_row (api.columns stmt w') ∷ []) (omega arith)
          ∙ ap (λ t. some (ok tt, t, end))
              (append_assoc s (column_row (api.columns stmt w') ∷ []) rows))

  -- The library prepares the statements of a text one by one, each but the last with a rest, and
  -- each gives fewer rows than `bound`.
  pub data Script (bound : ℕ) (conn : Option ℕ) : ℕ → Bytes → W → Results → W → Type 0 where
    last :
        {sql : Bytes} {w w₁ w₂ : W} {rc : ℤ} {stmt : Option ℕ} {rows : Results}
        → api.prepare conn sql w ≡ (rc, stmt, [], w₁)
        → is_ok rc ≡ true
        → Steps stmt w₁ rows w₂
        → length rows < bound
        → Script bound conn 1 sql w rows (api.finalize stmt w₂)
    more :
        {n : ℕ} {sql tail : Bytes} {c : ℕ} {w w₁ w₂ w₃ : W} {rc : ℤ} {stmt : Option ℕ}
        {rows rest : Results}
        → api.prepare conn sql w ≡ (rc, stmt, c ∷ tail, w₁)
        → is_ok rc ≡ true
        → Steps stmt w₁ rows w₂
        → length rows < bound
        → Script bound conn n (c ∷ tail) (api.finalize stmt w₂) rest w₃
        → Script bound conn (suc n) sql w (rows ++ rest) w₃

  query-Script :
      {bound : ℕ} {conn : Option ℕ} {n : ℕ} {sql : Bytes} {w w' : W} {rows : Results}
      → Script bound conn n sql w rows w'
      → (f num : ℕ) (s : Results) → n ≤ f
      → query api f bound conn sql collect num s w ≡ some (ok tt, s ++ rows, w')
  unfolding query
  query-Script (Script.last e fine steps lt) zero num s le = absurd (omega arith)
  query-Script {bound} (Script.last e fine steps lt) (suc f) num s le =
      rw (e, fine) (rw (step_loop-Steps steps bound s lt) (rw e refl))
  query-Script (Script.more e fine steps lt script) zero num s le = absurd (omega arith)
  query-Script {bound} {w' = end} (Script.more {rows = rows} {rest = rest} e fine steps lt script)
        (suc f) num s le =
      rw (e, fine)
        (rw (step_loop-Steps steps bound s lt) (
          rw e (
            query-Script script f 1 (s ++ rows) (omega arith)
            ∙ ap (λ t. some (ok tt, t, end)) (append_assoc s rows rest))))

-- Where every statement of the text is prepared and run by the library, `query` returns, with the
-- rows of all statements in their order, and every statement is finalized after its rows; the fuel
-- is enough where it is the number of statements, and that for the rows is larger than any count.
pub query_all_rows :
    {W : Type 0} (api : Sqlite W) {bound : ℕ} {conn : Option ℕ} {n : ℕ} {sql : Bytes} {w w' : W}
    {rows : Results}
    → Script api bound conn n sql w rows w'
    → (f num : ℕ) → n ≤ f
    → query api f bound conn sql collect num [] w ≡ some (ok tt, rows, w')
query_all_rows api script f num le = query-Script api script f num [] le
