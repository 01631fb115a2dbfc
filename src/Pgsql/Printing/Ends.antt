-- ===== src/Pgsql/Printing/Ends.antt =====
-- PostgreSQL/PgSQLSession.cpp, `query`: it ends, and prints every row.
use lite_database.Common.{
  ℕ, zero, suc, ◌+◌, ◌<◌, ◌≡◌, refl, sym, ap, ◌∙◌, Bool, Option, none, some, List, [], ◌∷◌, ◌++◌,
  append_assoc, append-nil, arith, Bytes, length, Bool-cases, inl, inr,
}
use lite_database.Outcome.{Outcome, ok}
use lite_database.Row.{Row}
use lite_database.Utils.Split.{split}
use lite_database.Pgsql.{
  Pgsql, is_skipped, send, exec, print_columns, row_loop, rows_of, query_loop, query,
}
use lite_database.Pgsql.Calls.{Pending, exec_drains}
use lite_database.Pgsql.Printing.{
  Columns, row_lines, printed, rows_of_all, then_rows_inv, printed-append, Console, IsEnd, Serves,
}

module _ {W : Type 0} (api : Pgsql W) (fuel : ℕ) (conn : Option ℕ)
    (answers : Bytes → Option (List Columns)) (Idle : W → Type 0)
    (Running : List Columns → W → Type 0) (lib : Serves api fuel conn answers Idle Running)
    (shown : W → Bytes) (console : Console api shown) where
  print_columns_shows :
      (i : ℕ) (columns : Columns) (w : W)
      → shown (print_columns api i columns w) ≡ shown w ++ row_lines i columns
  unfolding print_columns row_lines
  print_columns_shows i [] w = sym (append-nil (shown w))
  print_columns_shows i ((name, v) ∷ columns) w =
      print_columns_shows (i + 1) columns _
      ∙ (ap (λ t. t ++ row_lines (i + 1) columns) (console.printf_shows _ w)
          ∙ append_assoc (shown w) _ (row_lines (i + 1) columns))

  print_columns_keeps :
      (rows : List Columns) (i : ℕ) (columns : Columns) (w : W)
      → Running rows w
      → Running rows (print_columns api i columns w)
  unfolding print_columns
  print_columns_keeps rows i [] w run = run
  print_columns_keeps rows i ((name, v) ∷ columns) w run =
      print_columns_keeps rows (i + 1) columns _ (lib.print_keeps rows _ w run)

  Pending-shown : {n : ℕ} {w w' : W} → Pending api conn n w w' → shown w' ≡ shown w
  Pending-shown (Pending.none_left {w = w} e) =
      sym (ap (λ t. shown t.1) e) ∙ console.get_result_keeps conn w
  Pending-shown (Pending.one_more {w = w} e p) =
      Pending-shown p ∙ (sym (ap (λ t. shown t.1) e) ∙ console.get_result_keeps conn w)

  -- The loop over the rows comes to an end, idle, and has printed them.
  abbrev Printed : Option W → W → List Columns → Type 0
  Printed o w rows = (w' : W) × (o ≡ some w') × Idle w' × (shown w' ≡ shown w ++ printed rows)

  row_loop_prints :
      (f : ℕ) (rows : List Columns) (w : W)
      → length rows < f
      → Running rows w
      → Printed (row_loop api f conn w) w rows
  unfolding row_loop printed
  row_loop_prints zero rows w lt run = absurd (omega arith)
  row_loop_prints (suc f) [] w lt run =
      let (res, w', e, end, idle) = lib.ended w run in
      let same : shown w' ≡ shown w ++ [] =
        sym (ap (λ t. shown t.1) e)
        ∙ (console.get_result_keeps conn w ∙ sym (append-nil (shown w))) in
      elim res
          as (λ o.
            api.get_result conn w ≡ (o, w')
            → IsEnd api o w'
            → Printed (row_loop api (suc f) conn w) w []) [
              | none ↦ λ g last. (w', rw (g, row_loop) (rw g refl), idle, same)
              | some r ↦ λ g last. (w', rw (g, row_loop) (rw g (rw last refl)), idle, same)
            ]
        e end
  row_loop_prints (suc f) (columns ∷ rows) w lt run =
      let (r, w₁, e, tuple, given, run₁) = lib.stepped columns rows w run in
      let w₂ = print_columns api 0 columns w₁ in
      let w₃ = api.clear r w₂ in
      let run₃ = lib.clear_keeps rows r w₂ (print_columns_keeps rows 0 columns w₁ run₁) in
      let (w', looped, idle, later) = row_loop_prints f rows w₃ (omega arith) run₃ in
      let first : shown w₃ ≡ shown w ++ row_lines 0 columns =
        console.clear_keeps r w₂
        ∙ (print_columns_shows 0 columns w₁
            ∙ ap (λ t. t ++ row_lines 0 columns)
                (sym (ap (λ t. shown t.1) e) ∙ console.get_result_keeps conn w)) in
      (
        w',
        rw (e, row_loop) (rw e (rw (tuple, given) looped)),
        idle,
        later
            ∙ (ap (λ t. t ++ printed rows) first
                ∙ append_assoc (shown w) (row_lines 0 columns) (printed rows)),
      )

  -- `exec` and the loop behind it, for one statement.
  statement_prints :
      (sql : Bytes) (rows : List Columns) (w : W)
      → Idle w
      → answers sql ≡ some rows
      → (w₁ : W) × (exec api fuel conn sql w ≡ some (ok tt, w₁))
        × Printed (rows_of api fuel conn w₁) w rows
  unfolding send rows_of
  statement_prints sql rows w idle e =
      let (n, v, pending, lt, idle₁) = lib.drained w idle in
      let (w₁, w₂, sent, mode, small, run) = lib.answered sql rows v idle₁ e in
      let (w', looped, idle', shows) = row_loop_prints fuel rows w₂ small run in
      let same : shown w₂ ≡ shown w =
        sym (ap (λ t. shown t.1) mode)
        ∙ (console.set_mode_keeps conn w₁
            ∙ (sym (ap (λ t. shown t.1) sent)
                ∙ (console.send_query_keeps conn sql v ∙ Pending-shown pending))) in
      (
        w₁,
        exec_drains api conn sql fuel pending lt ∙ rw sent refl,
        (w', rw mode looped, idle', shows ∙ ap (λ t. t ++ printed rows) same),
      )

  abbrev Ends : {S : Type 0} → Option (Outcome (Unit {0}) × S × W) → S → W → List Columns → Type 0
  Ends o s w rows =
      (w' : W) × (o ≡ some (ok tt, s, w')) × Idle w' × (shown w' ≡ shown w ++ printed rows)

  query_loop_prints :
      {S : Type 0} (cb : S → Row → ℕ → S × Outcome Bool) (s : S) (ps : List Bytes) (num : ℕ) (w : W)
      (all : List Columns)
      → Idle w
      → rows_of_all answers ps ≡ some all
      → Ends (query_loop api fuel conn cb ps num s w) s w all
  unfolding query_loop rows_of_all printed
  query_loop_prints cb s [] num w all idle e =
      let none_left : [] ≡ all = cc in
      (w, refl, idle, rw (sym none_left) (sym (append-nil (shown w))))
  query_loop_prints cb s (p ∷ ps) num w all idle e = elim (Bool-cases (is_skipped p)) [
    | inl skip ↦ rw skip (query_loop_prints cb s ps num w all idle (rw skip at e))
    | inr more ↦
        let (rows, later, f, g, h) =
          then_rows_inv (answers p) (rows_of_all answers ps) all (rw more at e) in
        let (w₁, ran, (w₂, looped, idle₂, shows)) = statement_prints p rows w idle f in
        let (w', rest, idle', shows') = query_loop_prints cb s ps (num + 1) w₂ later idle₂ g in
        (
          w',
          rw (more, query_loop) (rw ran (rw looped rest)),
          idle',
          shows'
              ∙ (ap (λ t. t ++ printed later) shows
                  ∙ (append_assoc (shown w) (printed rows) (printed later)
                      ∙ ap (λ t. shown w ++ t)
                          (sym (printed-append rows later) ∙ ap printed (sym h)))),
        )
  ]

-- Over a libpq that answers the statements of a text, each with fewer than `fuel` rows, `query` ends
-- and has printed every row of every statement in their order, one line for a column; pieces of
-- the text that are empty or end with a backslash are passed over, and the state of the callback is
-- as it was.
pub query-prints :
    {S W : Type 0} (api : Pgsql W) (fuel : ℕ) (conn : Option ℕ)
    (answers : Bytes → Option (List Columns)) (Idle : W → Type 0)
    (Running : List Columns → W → Type 0) (shown : W → Bytes)
    → Serves api fuel conn answers Idle Running
    → Console api shown
    → (sql : Bytes) (cb : S → Row → ℕ → S × Outcome Bool) (s : S) (w : W) (all : List Columns)
    → Idle w
    → rows_of_all answers (split sql b';') ≡ some all
    → (w' : W) × (query api fuel conn sql cb s w ≡ some (ok tt, s, w'))
      × Idle w'
      × (shown w' ≡ shown w ++ printed all)
unfolding query
query-prints api fuel conn answers Idle Running shown lib console sql cb s w all idle e =
    query_loop_prints api fuel conn answers Idle Running lib shown console cb s (split sql b';') 0 w
      all idle e
