-- ===== src/Sqlite/Resources.antt =====
-- SQLite/SQLiteSession.cpp, `query`: every statement that is prepared is finalized.
use lite_database.Common.{
  ℕ, zero, suc, ◌+◌, ◌-◌, ◌≡◌, ◌≢◌, ◌⊎◌, refl, sym, ap, Bool, true, false, Option, none, some,
  arith, Bytes, Bool-cases, Option-cases, inl, inr, subst, ℤ,
}
use lite_database.Std.Handles.{one}
use lite_database.Callback.{go_on_if}
use lite_database.Outcome.{Outcome, Error, ok, raise, undefined}
use lite_database.Std.Stream.{is_nil}
use lite_database.Row.{Row}
use lite_database.Sqlite.{Sqlite, is_row, is_ok, column_row, step_loop, query}

-- What is relied on of the SQLite library: how many statements are open, for each of its calls.
pub record Counts {W : Type 0} (api : Sqlite W) (open_statements : W → ℕ) : Type 0 where
  pub prepare_opens :
      (conn : Option ℕ) (sql : Bytes) (w : W)
      → let (rc, stmt, tail, w') = api.prepare conn sql w in
        open_statements w' ≡ open_statements w + one stmt
  pub step_keeps :
      (stmt : Option ℕ) (w : W) → open_statements (api.step stmt w).1 ≡ open_statements w
  pub finalize_closes :
      (stmt : Option ℕ) (w : W)
      → open_statements (api.finalize stmt w) ≡ open_statements w - one stmt

-- The exception, or the undefined step, is one that the callback ended with.
abbrev pub ThrownBy : {S : Type 0} → (S → Row → ℕ → S × Outcome Bool) → Outcome (Unit {0}) → Type 0
ThrownBy cb (ok u) = ⊥
ThrownBy {S} cb (raise e) = (t : S) × (row : Row) × ((cb t row 0).1 ≡ raise e)
ThrownBy {S} cb undefined = (t : S) × (row : Row) × ((cb t row 0).1 ≡ undefined)

module _ {W : Type 0} (api : Sqlite W) (open_statements : W → ℕ)
    (counts : Counts api open_statements) where
  -- As many statements are open as before the loop, and it ended well or with the callback.
  abbrev LoopKeeps :
      {S : Type 0}
      → (S → Row → ℕ → S × Outcome Bool)
      → ℕ
      → Option (Outcome (Unit {0}) × S × W)
      → Type 0
  LoopKeeps cb n none = Unit
  LoopKeeps cb n (some (r, s, w)) = (open_statements w ≡ n) × ((r ≡ ok tt) ⊎ ThrownBy cb r)

  -- As many statements are open as before the call, or one more if the callback threw.
  abbrev CallKeeps :
      {S : Type 0}
      → (S → Row → ℕ → S × Outcome Bool)
      → ℕ
      → Option (Outcome (Unit {0}) × S × W)
      → Type 0
  CallKeeps cb n none = Unit
  CallKeeps cb n (some (r, s, w)) =
      (open_statements w ≡ n) ⊎ ((open_statements w ≡ n + 1) × ThrownBy cb r)

  go_on_if_keeps :
      {S : Type 0} (cb : S → Row → ℕ → S × Outcome Bool) (n : ℕ) (t : S) (row : Row)
      (r : S × Outcome Bool) (w : W) (next : S → W → Option (Outcome (Unit {0}) × S × W))
      → cb t row 0 ≡ r
      → open_statements w ≡ n
      → ((t : S) (v : W) → LoopKeeps cb (open_statements v) (next t v))
      → LoopKeeps cb n (go_on_if r w next)
  go_on_if_keeps cb n t row (s, ok true) w next e h more =
      subst (λ k. LoopKeeps cb k (next s w)) h (more s w)
  go_on_if_keeps cb n t row (s, ok false) w next e h more = (h, inl refl)
  go_on_if_keeps cb n t row (s, raise x) w next e h more = (h, inr (t, row, ap (λ r. r.1) e))
  go_on_if_keeps cb n t row (s, undefined) w next e h more = (h, inr (t, row, ap (λ r. r.1) e))

  step_loop_keeps :
      {S : Type 0} (f : ℕ) (stmt : Option ℕ) (cb : S → Row → ℕ → S × Outcome Bool) (s : S) (w : W)
      → LoopKeeps cb (open_statements w) (step_loop api f stmt cb 0 s w)
  unfolding step_loop
  step_loop_keeps zero stmt cb s w = tt
  step_loop_keeps (suc f) stmt cb s w =
      let (rc, v) = api.step stmt w in
      let row = column_row (api.columns stmt v) in
      let kept = counts.step_keeps stmt w in
      elim (Bool-cases (is_row rc)) [
        | inr last ↦ rw last (kept, inl refl)
        | inl more ↦ rw more (
            go_on_if_keeps cb (open_statements w) s row (cb s row 0) v (step_loop api f stmt cb 0)
              refl kept (step_loop_keeps f stmt cb))
      ]

  closed_again :
      (conn stmt : Option ℕ) (sql : Bytes) (w v : W)
      → open_statements v ≡ open_statements (api.prepare conn sql w).3
      → stmt ≡ (api.prepare conn sql w).1
      → open_statements (api.finalize stmt v) ≡ open_statements w
  closed_again conn stmt sql w v e same =
      omega (arith, counts.finalize_closes stmt v, counts.prepare_opens conn sql w, ap one same)

  -- An exception of the callback leaves the statement, if there is one.
  left_open :
      {S : Type 0} (cb : S → Row → ℕ → S × Outcome Bool) (r : Outcome (Unit {0}))
      (conn stmt : Option ℕ) (sql : Bytes) (w v : W)
      → open_statements v ≡ open_statements (api.prepare conn sql w).3
      → stmt ≡ (api.prepare conn sql w).1
      → ThrownBy cb r
      → (open_statements v ≡ open_statements w)
        ⊎ ((open_statements v ≡ open_statements w + 1) × ThrownBy cb r)
  left_open cb r conn none sql w v e same thrown =
      inl (omega (arith, e, counts.prepare_opens conn sql w, ap one same))
  left_open cb r conn (some h) sql w v e same thrown =
      inr (omega (arith, e, counts.prepare_opens conn sql w, ap one same), thrown)

  thrown_only :
      {S : Type 0} (cb : S → Row → ℕ → S × Outcome Bool) (r : Outcome (Unit {0}))
      → ((r ≡ ok tt) ⊎ ThrownBy cb r)
      → r ≢ ok tt
      → ThrownBy cb r
  thrown_only cb r (inl e) ne = absurd (ne e)
  thrown_only cb r (inr t) ne = t

  query_keeps :
      {S : Type 0} (f rows : ℕ) (conn : Option ℕ) (sql : Bytes)
      (cb : S → Row → ℕ → S × Outcome Bool) (num : ℕ) (s : S) (w : W)
      → CallKeeps cb (open_statements w) (query api f rows conn sql cb num s w)
  unfolding query
  query_keeps zero rows conn sql cb num s w = tt
  query_keeps (suc f) rows conn sql cb num s w =
      let (res, stmt, tail, w') = api.prepare conn sql w in
      let looped = step_loop_keeps rows stmt cb s w' in
      elim (Bool-cases (is_ok res)) [
        | inr bad ↦ rw bad (inl (closed_again conn stmt sql w w' refl refl))
        | inl fine ↦ elim (Option-cases (step_loop api rows stmt cb 0 s w')) [
          | inl out ↦ rw (fine, out) tt
          | inr ((raise x, s', w''), e) ↦
              let (kept, why) = rw e at looped in
              rw (fine, e)
                (left_open cb (raise x) conn stmt sql w w'' kept refl
                  (thrown_only cb (raise x) why (λ h. cc)))
          | inr ((undefined, s', w''), e) ↦
              let (kept, why) = rw e at looped in
              rw (fine, e)
                (left_open cb undefined conn stmt sql w w'' kept refl
                  (thrown_only cb undefined why (λ h. cc)))
          | inr ((ok u, s', w''), e) ↦
              let (kept, why) = rw e at looped in
              let closed : open_statements (api.finalize stmt w'') ≡ open_statements w =
                closed_again conn stmt sql w w'' kept refl in
              elim (Bool-cases (is_nil tail)) [
                | inl end ↦ rw fine (rw e (rw end (inl closed)))
                | inr more ↦ rw fine (
                    rw e (
                      rw more (
                        rw (sym closed)
                          (query_keeps f rows conn tail cb 1 s' (api.finalize stmt w'')))))
              ]
        ]
      ]

-- Where `query` ends with a value, or with an exception that is not the callback's, as many
-- statements are open in the library as before: each one that was prepared has been finalized. An
-- exception of the callback may leave one statement open.
pub query_finalizes :
    {S W : Type 0} (api : Sqlite W) (open_statements : W → ℕ)
    → Counts api open_statements
    → (f rows : ℕ) (conn : Option ℕ) (sql : Bytes) (cb : S → Row → ℕ → S × Outcome Bool) (num : ℕ)
      (s s' : S) (w w' : W) (r : Outcome (Unit {0}))
    → query api f rows conn sql cb num s w ≡ some (r, s', w')
    → (open_statements w' ≡ open_statements w)
      ⊎ ((open_statements w' ≡ open_statements w + 1) × ThrownBy cb r)
query_finalizes api open_statements counts f rows conn sql cb num s s' w w' r e =
    subst (CallKeeps api open_statements counts cb (open_statements w)) e
      (query_keeps api open_statements counts f rows conn sql cb num s w)

-- A callback that throws for the first row of a statement leaves that statement open: one more than
-- before, and the exception is that of `query`.
pub query_throw_leaks :
    {S W : Type 0} (api : Sqlite W) (open_statements : W → ℕ)
    → Counts api open_statements
    → (f rows : ℕ) (conn : Option ℕ) (sql tail : Bytes) (cb : S → Row → ℕ → S × Outcome Bool)
      (num : ℕ) (s s' : S) (w w₁ w₂ : W) (rc step_rc : ℤ) (stmt : ℕ) (e : Error)
    → api.prepare conn sql w ≡ (rc, some stmt, tail, w₁)
    → is_ok rc ≡ true
    → api.step (some stmt) w₁ ≡ (step_rc, w₂)
    → is_row step_rc ≡ true
    → cb s (column_row (api.columns (some stmt) w₂)) 0 ≡ (s', raise e)
    → (query api (suc f) (suc rows) conn sql cb num s w ≡ some (raise e, s', w₂))
      × (open_statements w₂ ≡ open_statements w + 1)
unfolding query step_loop
query_throw_leaks api open_statements counts f rows conn sql tail cb num s s' w w₁ w₂ rc step_rc
      stmt e prepared fine stepped more threw =
    (
      rw (prepared, fine) (rw (stepped, more) (rw threw (rw threw refl))),
      omega (
        arith,
        counts.prepare_opens conn sql w,
        counts.step_keeps (some stmt) w₁,
        ap (λ t. open_statements t.3) prepared,
        ap (λ t. one t.1) prepared,
        ap (λ t. open_statements t.1) stepped,
      ),
    )
