-- ===== src/Mysql/Statements.antt =====
-- MySQL/MySQLSession.cpp, `query`: what is sent, and the rows that come back.
use lite_database.Common.{
  ℕ, zero, suc, ◌+◌, ◌<◌, ◌≡◌, refl, sym, ap, ◌∙◌, Bool, true, Option, none, some, List, [], ◌∷◌,
  ◌++◌, append_assoc, append-nil, arith, Bytes, if◌then◌else◌, length, ℤ,
}
use lite_database.Outcome.{Outcome, ok, raise, undefined}
use lite_database.Std.Stream.{is_nil}
use lite_database.Utils.Split.{split}
use lite_database.Any.Numbers.{FloatOps}
use lite_database.Row.{Row, Results}
use lite_database.Mysql.Columns.{FieldType, Blank, row_loop}
use lite_database.Mysql.{Mysql, is_ok, fetch_loop, then_go_on, run_statement, query_loop, query}

-- The pieces of a text that are not empty.
abbrev pub statements : List Bytes → ℕ
statements [] = 0
statements (p ∷ ps) = if is_nil p then statements ps else suc (statements ps)

module _ {W : Type 0} (api : Mysql W) (ops : FloatOps) (blank : Blank) (f : ℕ)
    (conn : Option ℕ) where
  -- One text sent n times, until a run of it does not end well; the runs are numbered.
  pub repeat :
      {S : Type 0}
      → Bytes
      → (S → Row → ℕ → S × Outcome Bool)
      → ℕ
      → ℕ
      → S
      → W
      → Option (Outcome (Unit {0}) × S × W)
  repeat sql cb zero num s w = some (ok tt, s, w)
  repeat {S} sql cb (suc n) num s w =
      then_go_on api (run_statement api ops blank f conn sql cb num s w) (repeat sql cb n (num + 1))

  then_go_on_same :
      {S : Type 0} (r : Option (Outcome (Unit {0}) × S × W))
      (k l : S → W → Option (Outcome (Unit {0}) × S × W))
      → ((s : S) (w : W) → k s w ≡ l s w)
      → then_go_on api r k ≡ then_go_on api r l
  then_go_on_same none k l h = refl
  then_go_on_same (some (ok u, s, w)) k l h = h s w
  then_go_on_same (some (raise e, s, w)) k l h = refl
  then_go_on_same (some (undefined, s, w)) k l h = refl

  query_loop-repeat :
      {S : Type 0} (sql : Bytes) (cb : S → Row → ℕ → S × Outcome Bool) (ps : List Bytes) (num : ℕ)
      (s : S) (w : W)
      → query_loop api ops blank f conn sql cb ps num s w ≡ repeat sql cb (statements ps) num s w
  unfolding query_loop repeat
  query_loop-repeat sql cb [] num s w = refl
  query_loop-repeat sql cb ([] ∷ ps) num s w = query_loop-repeat sql cb ps num s w
  query_loop-repeat sql cb ((c ∷ p) ∷ ps) num s w =
      then_go_on_same (run_statement api ops blank f conn sql cb num s w)
        (query_loop api ops blank f conn sql cb ps (num + 1))
        (repeat sql cb (statements ps) (num + 1)) (query_loop-repeat sql cb ps (num + 1))

-- `query` sends its whole text once for each piece of it between semicolons that is not empty, not
-- the pieces one by one, and numbers these runs; it stops at a run that throws.
pub query_repeats :
    {S W : Type 0} (api : Mysql W) (ops : FloatOps) (blank : Blank) (f : ℕ) (conn : Option ℕ)
    (sql : Bytes) (cb : S → Row → ℕ → S × Outcome Bool) (s : S) (w : W)
    → query api ops blank f conn sql cb s w
      ≡ repeat api ops blank f conn sql cb (statements (split sql b';')) 0 s w
unfolding query
query_repeats api ops blank f conn sql cb s w =
    query_loop-repeat api ops blank f conn sql cb (split sql b';') 0 s w

-- The callback of `query(sql)`, which keeps every row.
abbrev pub collect : Results → Row → ℕ → Results × Outcome Bool
collect rows row n = (rows ++ row ∷ [], ok true)

module _ {W : Type 0} (api : Mysql W) (ops : FloatOps) (blank : Blank) where
  -- The library gives the rows of a result one by one, each with columns that can be read.
  pub data Fetched (res : ℕ) (fields : List (Bytes × FieldType)) : W → Results → W → Type 0 where
    done : {w w' : W} → api.fetch_row res w ≡ (none, w') → Fetched res fields w [] w'
    row :
        {w w' w'' : W} {values : List (Option Bytes)} {r : Row} {rows : Results}
        → api.fetch_row res w ≡ (some values, w')
        → row_loop ops blank fields values [] ≡ ok r
        → Fetched res fields w' rows w''
        → Fetched res fields w (r ∷ rows) w''

  fetch_loop-Fetched :
      {res : ℕ} {fields : List (Bytes × FieldType)} {w w' : W} {rows : Results}
      → Fetched res fields w rows w'
      → (f num : ℕ) (s : Results) → length rows < f
      → fetch_loop api ops blank f res fields collect num s w ≡ some (ok tt, s ++ rows, w')
  unfolding fetch_loop
  fetch_loop-Fetched (Fetched.done e) zero num s lt = absurd (omega arith)
  fetch_loop-Fetched {w' = end} (Fetched.done e) (suc f) num s lt =
      rw (e, fetch_loop) (rw e (ap (λ t. some (ok tt, t, end)) (sym (append-nil s))))
  fetch_loop-Fetched (Fetched.row e g more) zero num s lt = absurd (omega arith)
  fetch_loop-Fetched {w' = end} (Fetched.row {r = r} {rows = rows} e g more) (suc f) num s lt =
      rw (e, fetch_loop, g)
        (rw e (
          fetch_loop-Fetched more f num (s ++ r ∷ []) (omega arith)
          ∙ ap (λ t. some (ok tt, t, end)) (append_assoc s (r ∷ []) rows)))

-- One run of a text, where the library accepts it and gives a result with these rows.
run_statement-Fetched :
    {W : Type 0} (api : Mysql W) (ops : FloatOps) (blank : Blank) (f : ℕ) (conn : Option ℕ)
    (sql : Bytes) (num : ℕ) {errc : ℤ} {res : ℕ} {fields : List (Bytes × FieldType)}
    {rows : Results} (w : W) {w₁ w₂ w₃ w₄ : W}
    → api.real_query conn sql w ≡ (errc, w₁)
    → is_ok errc ≡ true
    → api.use_result conn w₁ ≡ (some res, w₂)
    → api.fields res w₂ ≡ (fields, w₃)
    → Fetched api ops blank res fields w₃ rows w₄
    → length rows < f
    → run_statement api ops blank f conn sql collect num [] w
      ≡ some (ok tt, rows, api.free_result res w₄)
unfolding run_statement
run_statement-Fetched api ops blank f conn sql num w e fine u fs fetched lt =
    rw (e, fine, u) (rw (e, u, fs) (rw (fetch_loop-Fetched api ops blank fetched f num [] lt) refl))

-- A text with one piece between semicolons that is not empty is sent once. Where the library
-- accepts it and gives a result, `query` returns, with all rows of the result in their order, and
-- the result is freed; the fuel is enough where it is larger than the number of rows.
pub query_result_rows :
    {W : Type 0} (api : Mysql W) (ops : FloatOps) (blank : Blank) (f : ℕ) (conn : Option ℕ)
    (sql : Bytes) {errc : ℤ} {res : ℕ} {fields : List (Bytes × FieldType)} {rows : Results} (w : W)
    {w₁ w₂ w₃ w₄ : W}
    → statements (split sql b';') ≡ 1
    → api.real_query conn sql w ≡ (errc, w₁)
    → is_ok errc ≡ true
    → api.use_result conn w₁ ≡ (some res, w₂)
    → api.fields res w₂ ≡ (fields, w₃)
    → Fetched api ops blank res fields w₃ rows w₄
    → length rows < f
    → query api ops blank f conn sql collect [] w ≡ some (ok tt, rows, api.free_result res w₄)
unfolding repeat
query_result_rows api ops blank f conn sql w once e fine u fs fetched lt =
    query_repeats api ops blank f conn sql collect [] w
    ∙ rw once (rw (run_statement-Fetched api ops blank f conn sql 0 w e fine u fs fetched lt) refl)
