-- ===== src/Mysql/Resources.antt =====
-- MySQL/MySQLSession.cpp, `query`: which results are freed.
use lite_database.Common.{
  ℕ, zero, suc, ◌+◌, ◌-◌, ◌≤◌, ◌≡◌, refl, sym, Bool, Option, none, some, List, [], ◌∷◌, arith,
  Bytes, Bool, true, false, Bool-cases, Option-cases, inl, inr, subst,
}
use lite_database.Std.Handles.{one}
use lite_database.Callback.{go_on_if}
use lite_database.Outcome.{Outcome, ok, raise, undefined}
use lite_database.Utils.Split.{split}
use lite_database.Any.Numbers.{FloatOps}
use lite_database.Row.{Row}
use lite_database.Mysql.Columns.{FieldType, Blank, row_loop}
use lite_database.Mysql.{
  Mysql, is_ok, fetch_loop, freed, then_go_on, run_statement, query_loop, query,
}

-- What is relied on of the MySQL library: how many results are held, for each of its calls.
pub record Counts {W : Type 0} (api : Mysql W) (held : W → ℕ) : Type 0 where
  pub real_query_keeps :
      (conn : Option ℕ) (sql : Bytes) (w : W) → held (api.real_query conn sql w).1 ≡ held w
  pub use_result_holds :
      (conn : Option ℕ) (w : W)
      → held (api.use_result conn w).1 ≡ held w + one (api.use_result conn w).0
  pub fields_keep : (res : ℕ) (w : W) → held (api.fields res w).1 ≡ held w
  pub fetch_row_keeps : (res : ℕ) (w : W) → held (api.fetch_row res w).1 ≡ held w
  pub free_result_frees : (res : ℕ) (w : W) → held (api.free_result res w) ≡ held w - 1

-- The results held before a call and after it: as many if it ends well, or one more if not.
abbrev pub HeldAfter : Outcome (Unit {0}) → ℕ → ℕ → Type 0
HeldAfter (ok u) n m = m ≡ n
HeldAfter (raise e) n m = (n ≤ m) × (m ≤ n + 1)
HeldAfter undefined n m = (n ≤ m) × (m ≤ n + 1)

module _ {W : Type 0} (api : Mysql W) (held : W → ℕ) (counts : Counts api held) (ops : FloatOps)
    (blank : Blank) where
  abbrev LoopKeeps : {S : Type 0} → ℕ → Option (Outcome (Unit {0}) × S × W) → Type 0
  LoopKeeps n none = Unit
  LoopKeeps n (some (r, s, w)) = held w ≡ n

  abbrev CallKeeps : {S : Type 0} → ℕ → Option (Outcome (Unit {0}) × S × W) → Type 0
  CallKeeps n none = Unit
  CallKeeps n (some (r, s, w)) = HeldAfter r n (held w)

  go_on_if_keeps :
      {S : Type 0} (n : ℕ) (r : S × Outcome Bool) (w : W)
      (next : S → W → Option (Outcome (Unit {0}) × S × W))
      → held w ≡ n
      → ((t : S) (v : W) → LoopKeeps (held v) (next t v))
      → LoopKeeps n (go_on_if r w next)
  go_on_if_keeps n (s, ok true) w next h more = subst (λ k. LoopKeeps k (next s w)) h (more s w)
  go_on_if_keeps n (s, ok false) w next h more = h
  go_on_if_keeps n (s, raise e) w next h more = h
  go_on_if_keeps n (s, undefined) w next h more = h

  fetched_row_keeps :
      {S : Type 0} (f res : ℕ) (fields : List (Bytes × FieldType))
      (cb : S → Row → ℕ → S × Outcome Bool) (num : ℕ) (s : S) (w : W) (values : List (Option Bytes))
      (r : Outcome Row)
      → (api.fetch_row res w).0 ≡ some values
      → row_loop ops blank fields values [] ≡ r
      → ((t : S) (v : W) → LoopKeeps (held v) (fetch_loop api ops blank f res fields cb num t v))
      → LoopKeeps (held w) (fetch_loop api ops blank (suc f) res fields cb num s w)
  unfolding fetch_loop
  fetched_row_keeps f res fields cb num s w values (ok row) e g ih =
      let kept = counts.fetch_row_keeps res w in
      rw (e, fetch_loop, g)
        (go_on_if_keeps (held w) (cb s row num) (api.fetch_row res w).1
          (fetch_loop api ops blank f res fields cb num) kept ih)
  fetched_row_keeps f res fields cb num s w values (raise x) e g ih =
      rw (e, fetch_loop, g) (counts.fetch_row_keeps res w)
  fetched_row_keeps f res fields cb num s w values undefined e g ih =
      rw (e, fetch_loop, g) (counts.fetch_row_keeps res w)

  fetch_loop_keeps :
      {S : Type 0} (f res : ℕ) (fields : List (Bytes × FieldType))
      (cb : S → Row → ℕ → S × Outcome Bool) (num : ℕ) (s : S) (w : W)
      → LoopKeeps (held w) (fetch_loop api ops blank f res fields cb num s w)
  unfolding fetch_loop
  fetch_loop_keeps zero res fields cb num s w = tt
  fetch_loop_keeps (suc f) res fields cb num s w = elim (Option-cases (api.fetch_row res w).0) [
    | inl over ↦ rw (over, fetch_loop) (counts.fetch_row_keeps res w)
    | inr (values, e) ↦
        fetched_row_keeps f res fields cb num s w values (row_loop ops blank fields values []) e
          refl (fetch_loop_keeps f res fields cb num)
  ]

  freed_keeps :
      {S : Type 0} (n res : ℕ) (o : Option (Outcome (Unit {0}) × S × W))
      → LoopKeeps (n + 1) o
      → CallKeeps n (freed api res o)
  freed_keeps n res none h = tt
  freed_keeps n res (some (ok u, s, w)) h = omega (arith, counts.free_result_frees res w)
  freed_keeps n res (some (raise e, s, w)) h = omega arith
  freed_keeps n res (some (undefined, s, w)) h = omega arith

  run_statement_keeps :
      {S : Type 0} (f : ℕ) (conn : Option ℕ) (sql : Bytes) (cb : S → Row → ℕ → S × Outcome Bool)
      (num : ℕ) (s : S) (w : W)
      → CallKeeps (held w) (run_statement api ops blank f conn sql cb num s w)
  unfolding run_statement
  run_statement_keeps f conn sql cb num s w =
      let (errc, w₁) = api.real_query conn sql w in
      let (result, w₂) = api.use_result conn w₁ in
      let sent = counts.real_query_keeps conn sql w in
      let used = counts.use_result_holds conn w₁ in
      elim (Bool-cases (is_ok errc)) [
        | inr bad ↦ rw bad (omega (arith, sent), omega (arith, sent))
        | inl fine ↦ elim (Option-cases result) [
          | inl none_left ↦
              rw (fine, none_left)
                (let same : one result ≡ 0 = rw none_left refl in
                  (omega (arith, sent, used, same), omega (arith, sent, used, same)))
          | inr (res, e) ↦
              let same : one result ≡ 1 = rw e refl in
              let total : held (api.fields res w₂).1 ≡ held w + 1 =
                omega (arith, sent, used, same, counts.fields_keep res w₂) in
              rw (fine, e)
                (freed_keeps (held w) res
                  (fetch_loop api ops blank f res (api.fields res w₂).0 cb num s
                    (api.fields res w₂).1)
                  (rw (sym total)
                    (fetch_loop_keeps f res (api.fields res w₂).0 cb num s (api.fields res w₂).1)))
        ]
      ]

  then_go_on_keeps :
      {S : Type 0} (n : ℕ) (o : Option (Outcome (Unit {0}) × S × W))
      (next : S → W → Option (Outcome (Unit {0}) × S × W))
      → CallKeeps n o
      → ((s : S) (w : W) → CallKeeps (held w) (next s w))
      → CallKeeps n (then_go_on api o next)
  then_go_on_keeps n none next h more = tt
  then_go_on_keeps n (some (ok u, s, w)) next h more =
      subst (λ k. CallKeeps k (next s w)) h (more s w)
  then_go_on_keeps n (some (raise e, s, w)) next h more = h
  then_go_on_keeps n (some (undefined, s, w)) next h more = h

  query_loop_keeps :
      {S : Type 0} (f : ℕ) (conn : Option ℕ) (sql : Bytes) (cb : S → Row → ℕ → S × Outcome Bool)
      (ps : List Bytes) (num : ℕ) (s : S) (w : W)
      → CallKeeps (held w) (query_loop api ops blank f conn sql cb ps num s w)
  unfolding query_loop
  query_loop_keeps f conn sql cb [] num s w = refl
  query_loop_keeps f conn sql cb ([] ∷ ps) num s w = query_loop_keeps f conn sql cb ps num s w
  query_loop_keeps f conn sql cb ((c ∷ p) ∷ ps) num s w =
      then_go_on_keeps (held w) (run_statement api ops blank f conn sql cb num s w)
        (query_loop api ops blank f conn sql cb ps (num + 1))
        (run_statement_keeps f conn sql cb num s w) (query_loop_keeps f conn sql cb ps (num + 1))

-- A call of `query` that ends well has freed every result that it held, for any text and callback;
-- one that ends otherwise, as with a column that cannot be read, may leave one result behind.
pub query_frees :
    {S W : Type 0} (api : Mysql W) (held : W → ℕ)
    → Counts api held
    → (ops : FloatOps) (blank : Blank) (f : ℕ) (conn : Option ℕ) (sql : Bytes)
      (cb : S → Row → ℕ → S × Outcome Bool) (s s' : S) (w w' : W) (r : Outcome (Unit {0}))
    → query api ops blank f conn sql cb s w ≡ some (r, s', w')
    → HeldAfter r (held w) (held w')
unfolding query
query_frees api held counts ops blank f conn sql cb s s' w w' r e =
    subst (CallKeeps api held counts ops blank (held w)) e
      (query_loop_keeps api held counts ops blank f conn sql cb (split sql b';') 0 s w)
