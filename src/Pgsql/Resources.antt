-- ===== src/Pgsql/Resources.antt =====
-- PostgreSQL/PgSQLSession.cpp: which results are cleared.
use lite_database.Common.{
  ℕ, zero, suc, ◌+◌, ◌-◌, ◌<◌, ◌≡◌, refl, sym, ap, ◌∙◌, true, Option, none, some, List, [], ◌∷◌,
  arith, Bytes, Bool-cases, Option-cases, inl, inr, subst,
}
use lite_database.Std.Handles.{one}
use lite_database.Outcome.{ok}
use lite_database.Pgsql.{Pgsql, send, exec, print_columns, row_loop, rows_of}
use lite_database.Pgsql.Printing.{IsEnd}
use lite_database.Pgsql.Calls.{Pending, exec_drains}

-- What is relied on of libpq: how many results are held, for each of its calls.
pub record Counts {W : Type 0} (api : Pgsql W) (held : W → ℕ) : Type 0 where
  pub get_result_holds :
      (conn : Option ℕ) (w : W)
      → held (api.get_result conn w).1 ≡ held w + one (api.get_result conn w).0
  pub clear_frees : (r : ℕ) (w : W) → held (api.clear r w) ≡ held w - 1
  pub send_query_keeps :
      (conn : Option ℕ) (sql : Bytes) (w : W) → held (api.send_query conn sql w).1 ≡ held w
  pub set_mode_keeps : (conn : Option ℕ) (w : W) → held (api.set_single_row_mode conn w).1 ≡ held w
  pub printf_keeps : (text : Bytes) (w : W) → held (api.printf text w) ≡ held w

module _ {W : Type 0} (api : Pgsql W) (held : W → ℕ) (counts : Counts api held)
    (conn : Option ℕ) where
  Pending-held : {n : ℕ} {w w' : W} → Pending api conn n w w' → held w' ≡ held w + n
  Pending-held (Pending.none_left {w = w} e) =
      omega (arith, counts.get_result_holds conn w, ap (λ t. one t.0) e, ap (λ t. held t.1) e)
  Pending-held (Pending.one_more {w = w} e p) = omega (
    arith,
    counts.get_result_holds conn w,
    ap (λ t. one t.0) e,
    ap (λ t. held t.1) e,
    Pending-held p,
  )

  print_columns_keeps :
      (i : ℕ) (columns : List (Bytes × Bytes)) (w : W)
      → held (print_columns api i columns w) ≡ held w
  unfolding print_columns
  print_columns_keeps i [] w = refl
  print_columns_keeps i ((name, v) ∷ columns) w =
      print_columns_keeps (i + 1) columns _ ∙ counts.printf_keeps _ w

  -- If the loop comes to an end, then at a result that is none or not a row, which is all that it
  -- holds more than before.
  abbrev Ended : ℕ → Option W → Type 0
  Ended n none = Unit
  Ended n (some u) =
      (last : Option ℕ) × (v : W) × (api.get_result conn v ≡ (last, u))
      × IsEnd api last u
      × (held u ≡ n + one last)

  row_loop_ends : (f : ℕ) (w : W) → Ended (held w) (row_loop api f conn w)
  unfolding row_loop
  row_loop_ends zero w = tt
  row_loop_ends (suc f) w =
      let v = (api.get_result conn w).1 in
      let got = counts.get_result_holds conn w in
      elim (Option-cases (api.get_result conn w).0) [
        | inl over ↦
            rw (over, row_loop)
              (none, w, ap (λ o. (o, v)) over, tt, omega (arith, got, ap one over))
        | inr (r, e) ↦ elim (Bool-cases (api.is_single_tuple r v)) [
          | inl tuple ↦
              let next = api.clear r (print_columns api 0 (api.columns r v) v) in
              let same : held next ≡ held w = omega (
                arith,
                got,
                ap one e,
                counts.clear_frees r (print_columns api 0 (api.columns r v) v),
                print_columns_keeps 0 (api.columns r v) v,
              ) in
              rw (e, row_loop) (rw tuple (rw (sym same) (row_loop_ends f next)))
          | inr last ↦
              rw (e, row_loop)
                (rw last (some r, w, ap (λ o. (o, v)) e, last, omega (arith, got, ap one e)))
        ]
      ]

  rows_of_ends :
      (f : ℕ) (w : W)
      → (api.set_single_row_mode conn w).0 ≡ true
      → Ended (held w) (rows_of api f conn w)
  unfolding rows_of
  rows_of_ends f w mode =
      rw mode (
        rw (sym (counts.set_mode_keeps conn w))
          (row_loop_ends f (api.set_single_row_mode conn w).1))

-- What a statement of `query` leaves in libpq, once the single row mode is set: `exec` reads the n
-- results that were left and clears none of them, and the loop clears each row that it prints, but
-- not the result at which it ends. So the n results stay held, and that last one, if it is not
-- null.
pub statement_leaks :
    {W : Type 0} (api : Pgsql W) (held : W → ℕ)
    → Counts api held
    → (conn : Option ℕ) (sql : Bytes) {n : ℕ} {w w' : W} (f f' : ℕ) (v u : W)
    → Pending api conn n w w'
    → n < f
    → exec api f conn sql w ≡ some (ok tt, v)
    → (api.set_single_row_mode conn v).0 ≡ true
    → rows_of api f' conn v ≡ some u
    → (last : Option ℕ) × (before : W) × (api.get_result conn before ≡ (last, u))
      × IsEnd api last u
      × (held u ≡ held w + n + one last)
unfolding send
statement_leaks api held counts conn sql {n} {w} {w'} f f' v u p lt e mode g =
    let sent : send api conn sql (some w') ≡ some (ok tt, v) =
      sym (exec_drains api conn sql f p lt) ∙ e in
    let state : (api.send_query conn sql w').1 ≡ v = cc in
    let kept : held v ≡ held w + n = omega (
      arith,
      ap held state,
      counts.send_query_keeps conn sql w',
      Pending-held api held counts conn p,
    ) in
    rw (sym kept)
      (subst (Ended api held counts conn (held v)) g (rows_of_ends api held counts conn f' v mode))
