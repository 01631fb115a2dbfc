-- ===== src/Sqlite/Visits.antt =====
-- SQLite/SQLiteSession.cpp, `query`, with any callback: which rows the callback is called on.
use lite_database.Common.{
  ℕ, zero, suc, ◌<◌, ◌≡◌, refl, Bool, true, false, Option, none, some, [], ◌∷◌, arith, Bytes,
  length, ℤ, if◌then◌else◌, subst,
}
use lite_database.Callback.{go_on_if}
use lite_database.Std.Stream.{is_nil}
use lite_database.Outcome.{Outcome, ok, raise, undefined}
use lite_database.Row.{Row, Results}
use lite_database.Sqlite.{Sqlite, is_row, is_ok, column_row, step_loop, query}

-- What follows a call of the callback, on a state of its own.
abbrev visit_on :
    {S : Type 0} → S × Outcome Bool → (S → Outcome (Unit {0}) × S) → Outcome (Unit {0}) × S
visit_on (s, ok true) next = next s
visit_on (s, ok false) next = (ok tt, s)
visit_on (s, raise e) next = (raise e, s)
visit_on (s, undefined) next = (undefined, s)

-- The callback on the rows of a statement, one by one, up to the first for which it returns false or
-- throws.
abbrev pub visit :
    {S : Type 0} → (S → Row → ℕ → S × Outcome Bool) → Results → S → Outcome (Unit {0}) × S
visit cb [] s = (ok tt, s)
visit cb (row ∷ rows) s = visit_on (cb s row 0) (visit cb rows)

-- The first statement of a text: the text behind it and its rows, or `none`.
abbrev pub Reading : Type 0
Reading = Bytes → Option (Bytes × Results)

-- What follows a statement: the next one, unless an exception left it.
abbrev pub visits_then :
    {S : Type 0}
    → Outcome (Unit {0}) × S
    → (S → Option (Outcome (Unit {0}) × S))
    → Option (Outcome (Unit {0}) × S)
visits_then (ok u, s) next = next s
visits_then (raise e, s) next = some (raise e, s)
visits_then (undefined, s) next = some (undefined, s)

abbrev pub visits_next :
    {S : Type 0}
    → (S → Row → ℕ → S × Outcome Bool)
    → Option (Bytes × Results)
    → (Bytes → S → Option (Outcome (Unit {0}) × S))
    → S
    → Option (Outcome (Unit {0}) × S)
visits_next cb none next s = none
visits_next cb (some ([], rows)) next s = some (visit cb rows s)
visits_next cb (some (c ∷ tail, rows)) next s = visits_then (visit cb rows s) (next (c ∷ tail))

-- The callback on the rows of each of at most n statements of a text.
unfoldable pub visits :
    {S : Type 0}
    → Reading
    → (S → Row → ℕ → S × Outcome Bool)
    → ℕ
    → Bytes
    → S
    → Option (Outcome (Unit {0}) × S)
visits read cb zero sql s = none
visits read cb (suc n) sql s = visits_next cb (read sql) (visits read cb n) s

-- What is relied on of the SQLite library while it only reads. `Ready w`: the connection can prepare
-- a statement. `Running stmt rows w`: the rows are still to come of a statement. It hands them out
-- one by one, and the statement can be finalized at any time, also with rows left.
pub record Reads {W : Type 0} (api : Sqlite W) (bound : ℕ) (conn : Option ℕ) (read : Reading)
    (Ready : W → Type 0) (Running : Option ℕ → Results → W → Type 0) : Type 0 where
  pub prepared :
      (sql tail : Bytes) (rows : Results) (w : W)
      → Ready w
      → read sql ≡ some (tail, rows)
      → (rc : ℤ) × (stmt : Option ℕ) × (w' : W) × (api.prepare conn sql w ≡ (rc, stmt, tail, w'))
        × (is_ok rc ≡ true)
        × (length rows < bound)
        × Running stmt rows w'
  pub stepped :
      (stmt : Option ℕ) (row : Row) (rows : Results) (w : W)
      → Running stmt (row ∷ rows) w
      → (rc : ℤ) × (w' : W) × (api.step stmt w ≡ (rc, w'))
        × (is_row rc ≡ true)
        × (column_row (api.columns stmt w') ≡ row)
        × Running stmt rows w'
  pub ended :
      (stmt : Option ℕ) (w : W)
      → Running stmt [] w
      → (rc : ℤ) × (w' : W) × (api.step stmt w ≡ (rc, w'))
        × (is_row rc ≡ false)
        × Running stmt [] w'
  pub finalized :
      (stmt : Option ℕ) (rows : Results) (w : W) → Running stmt rows w → Ready (api.finalize stmt w)

-- A call that ended well left the library ready.
abbrev pub ReadyAfter : {W : Type 0} → (W → Type 0) → Outcome (Unit {0}) → W → Type 0
ReadyAfter Ready (ok u) w = Ready w
ReadyAfter Ready (raise e) w = Unit
ReadyAfter Ready undefined w = Unit

module _ {S W : Type 0} (api : Sqlite W) (bound : ℕ) (conn : Option ℕ) (read : Reading)
    (Ready : W → Type 0) (Running : Option ℕ → Results → W → Type 0)
    (lib : Reads api bound conn read Ready Running) (cb : S → Row → ℕ → S × Outcome Bool) where
  -- The loop ends as the visit does, with rows of the statement left or not.
  abbrev Visited : Option (Outcome (Unit {0}) × S × W) → Option ℕ → Outcome (Unit {0}) × S → Type 0
  Visited o stmt (r, s') =
      (w' : W) × (left : Results) × (o ≡ some (r, s', w')) × Running stmt left w'

  go_on_if-visit :
      (stmt : Option ℕ) (rows : Results) (t : S × Outcome Bool) (w : W)
      (next : S → W → Option (Outcome (Unit {0}) × S × W)) (o : Option (Outcome (Unit {0}) × S × W))
      → o ≡ go_on_if t w next
      → Running stmt rows w
      → ((s : S) → Visited (next s w) stmt (visit cb rows s))
      → Visited o stmt (visit_on t (visit cb rows))
  go_on_if-visit stmt rows (s, ok true) w next o e run more = rw e (more s)
  go_on_if-visit stmt rows (s, ok false) w next o e run more = (w, rows, e, run)
  go_on_if-visit stmt rows (s, raise x) w next o e run more = (w, rows, e, run)
  go_on_if-visit stmt rows (s, undefined) w next o e run more = (w, rows, e, run)

  step_loop-visit :
      (f : ℕ) (stmt : Option ℕ) (rows : Results) (s : S) (w : W)
      → length rows < f
      → Running stmt rows w
      → Visited (step_loop api f stmt cb 0 s w) stmt (visit cb rows s)
  unfolding step_loop
  step_loop-visit zero stmt rows s w lt run = absurd (omega arith)
  step_loop-visit (suc f) stmt [] s w lt run =
      let (rc, w', e, last, run') = lib.ended stmt w run in (w', [], rw e (rw last refl), run')
  step_loop-visit (suc f) stmt (row ∷ rows) s w lt run =
      let (rc, w', e, more, given, run') = lib.stepped stmt row rows w run in
      go_on_if-visit stmt rows (cb s row 0) w' (step_loop api f stmt cb 0)
        (step_loop api (suc f) stmt cb 0 s w) (rw e (rw (more, given) refl)) run'
        (λ t. step_loop-visit f stmt rows t w' (omega arith) run')

  -- What follows the rows of a statement.
  abbrev followed : ℕ → Bytes → Outcome (Unit {0}) × S → W → Option (Outcome (Unit {0}) × S × W)
  followed n tail (ok u, s) w =
      if is_nil tail then some (ok tt, s, w) else query api n bound conn tail cb 1 s w
  followed n tail (raise e, s) w = some (raise e, s, w)
  followed n tail (undefined, s) w = some (undefined, s, w)

  statement_visits :
      (n : ℕ) (sql tail : Bytes) (rows : Results) (num : ℕ) (s : S) (w : W)
      (v : Outcome (Unit {0}) × S)
      → Ready w
      → read sql ≡ some (tail, rows)
      → visit cb rows s ≡ v
      → (w₁ : W) × ReadyAfter Ready v.0 w₁
        × (query api (suc n) bound conn sql cb num s w ≡ followed n tail v w₁)
  unfolding query
  statement_visits n sql tail rows num s w v ready e same =
      let (rc, stmt, w₁, p, fine, lt, run) = lib.prepared sql tail rows w ready e in
      let (w₂, left, looped, run') =
        subst (Visited (step_loop api bound stmt cb 0 s w₁) stmt) same
          (step_loop-visit bound stmt rows s w₁ lt run) in
      elim v.0
          as (λ r.
            step_loop api bound stmt cb 0 s w₁ ≡ some (r, v.1, w₂)
            → (u : W) × ReadyAfter Ready r u
              × (query api (suc n) bound conn sql cb num s w ≡ followed n tail (r, v.1) u)) [
                | ok u ↦ λ l. (
                  api.finalize stmt w₂,
                  lib.finalized stmt left w₂ run',
                  rw (p, fine) (rw l (rw p refl)),
                )
                | raise x ↦ λ l. (w₂, tt, rw (p, fine) (rw l refl))
                | undefined ↦ λ l. (w₂, tt, rw (p, fine) (rw l refl))
              ]
        looped

  abbrev Ends : Option (Outcome (Unit {0}) × S × W) → Outcome (Unit {0}) × S → Type 0
  Ends o (r, s') = (w' : W) × (o ≡ some (r, s', w')) × ReadyAfter Ready r w'

  -- Behind the last statement.
  end_visits :
      (n : ℕ) (v : Outcome (Unit {0}) × S) (w : W)
      → ReadyAfter Ready v.0 w
      → Ends (followed n [] v w) v
  end_visits n (ok u, s) w ready = (w, refl, ready)
  end_visits n (raise e, s) w ready = (w, refl, ready)
  end_visits n (undefined, s) w ready = (w, refl, ready)

  -- Behind a statement with others to come, where `query` visits those.
  later_visits :
      (n c : ℕ) (tail : Bytes) (v final : Outcome (Unit {0}) × S) (w : W)
      → ReadyAfter Ready v.0 w
      → visits_then v (visits read cb n (c ∷ tail)) ≡ some final
      → ((s : S)
          → Ready w
          → visits read cb n (c ∷ tail) s ≡ some final
          → Ends (query api n bound conn (c ∷ tail) cb 1 s w) final)
      → Ends (followed n (c ∷ tail) v w) final
  later_visits n c tail (ok u, s) final w ready h more = more s ready h
  later_visits n c tail (raise e, s) final w ready h more =
      subst (Ends (some (raise e, s, w))) (cc) (w, refl, tt)
  later_visits n c tail (undefined, s) final w ready h more =
      subst (Ends (some (undefined, s, w))) (cc) (w, refl, tt)

  text_visits :
      (n : ℕ)
      → ((sql : Bytes) (num : ℕ) (s : S) (final : Outcome (Unit {0}) × S) (w : W)
          → Ready w
          → visits read cb n sql s ≡ some final
          → Ends (query api n bound conn sql cb num s w) final)
      → (sql : Bytes) (num : ℕ) (s : S) (final : Outcome (Unit {0}) × S) (w : W) → Ready w
      → (o : Option (Bytes × Results)) → read sql ≡ o
      → visits_next cb o (visits read cb n) s ≡ some final
      → Ends (query api (suc n) bound conn sql cb num s w) final
  text_visits n ih sql num s final w ready none e h = absurd (cc)
  text_visits n ih sql num s final w ready (some ([], rows)) e h =
      let same : visit cb rows s ≡ final = cc in
      let (w₁, ready₁, ran) = statement_visits n sql [] rows num s w final ready e same in
      rw ran (end_visits n final w₁ ready₁)
  text_visits n ih sql num s final w ready (some (c ∷ tail, rows)) e h =
      let (w₁, ready₁, ran) =
        statement_visits n sql (c ∷ tail) rows num s w (visit cb rows s) ready e refl in
      rw ran (
        later_visits n c tail (visit cb rows s) final w₁ ready₁ h
          (λ t r. ih (c ∷ tail) 1 t final w₁ r))

  script_visits :
      (n : ℕ) (sql : Bytes) (num : ℕ) (s : S) (final : Outcome (Unit {0}) × S) (w : W)
      → Ready w
      → visits read cb n sql s ≡ some final
      → Ends (query api n bound conn sql cb num s w) final
  unfolding visits
  script_visits zero sql num s final w ready h = absurd (cc)
  script_visits (suc n) sql num s final w ready h =
      text_visits n (script_visits n) sql num s final w ready (read sql) refl h

-- Over an SQLite library that only reads, `query` calls any callback, always with the number 0, on
-- the rows of each statement of the text, up to the first row for which it returns false, and then
-- goes on with the next statement: false ends one statement, not the query. An exception of the
-- callback ends both. A text of at most n statements with fewer than `bound` rows each is run to its
-- end, unless the callback throws, and then the connection is ready for another.
pub query-visits :
    {S W : Type 0} (api : Sqlite W) (n bound : ℕ) (conn : Option ℕ) (read : Reading)
    (Ready : W → Type 0) (Running : Option ℕ → Results → W → Type 0)
    → Reads api bound conn read Ready Running
    → (sql : Bytes) (cb : S → Row → ℕ → S × Outcome Bool) (num : ℕ) (s s' : S) (w : W)
      (r : Outcome (Unit {0}))
    → Ready w
    → visits read cb n sql s ≡ some (r, s')
    → (w' : W) × (query api n bound conn sql cb num s w ≡ some (r, s', w')) × ReadyAfter Ready r w'
query-visits api n bound conn read Ready Running lib sql cb num s s' w r ready h =
    script_visits api bound conn read Ready Running lib cb n sql num s (r, s') w ready h
