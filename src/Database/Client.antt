-- ===== src/Database/Client.antt =====
-- A program that runs templated statements one behind the other, over a session that implements an
-- abstract database.
use lite_database.Common.{
  ℕ, ◌≡◌, ◌≢◌, refl, sym, ap, subst, Bool, true, false, Option, none, some, List, [], ◌∷◌, ◌++◌,
  map, Bytes, if◌then◌else◌, suc, length, Lacks, ◌<◌, ◌^◌,
}
use lite_database.Outcome.{Outcome, ok, raise, undefined}
use lite_database.Row.{Results}
use lite_database.Once.Template.{Slot, holes, filled, use_all, SlotsFit, get_sql-use_all}
use lite_database.Session.{Methods, query, begin_statement}
use lite_database.Session.Into.{Ended, with_sql, into_results}
use lite_database.Database.{Answers, Implements}

-- A text up to its first placeholder, and its placeholders with their values.
abbrev pub Template : Type 0
Template = Bytes × List Slot

-- The text with every value in its place.
abbrev pub spelt : Template → Bytes
spelt (l, slots) = l ++ filled slots

-- The conditions under which the values reach their places.
abbrev pub TemplateFits : Template → Type 0
TemplateFits (l, slots) =
    Lacks b'?' l × SlotsFit slots × (l ++ filled slots ≢ []) × (length (l ++ filled slots) < 2 ^ 64)

abbrev pub TemplatesFit : List Template → Type 0
TemplatesFit [] = Unit {0}
TemplatesFit (t ∷ ts) = TemplateFits t × TemplatesFit ts

-- How the statements of a program ended: their results, and how many were deleted from the heap.
abbrev pub Run : Type 0 → Type 0
Run W = Outcome (List Results) × ℕ × W

abbrev add_result : {W : Type 0} → Results → Bool → Run W → Run W
add_result rows freed (ok rest, n, w) = (ok (rows ∷ rest), (if freed then suc n else n), w)
add_result rows freed (raise e, n, w) = (raise e, (if freed then suc n else n), w)
add_result rows freed (undefined, n, w) = (undefined, (if freed then suc n else n), w)

module _ {W : Type 0} (methods : Methods W) where
  -- `sess << text, use(v₁), …, use(vₙ), into(results)`.
  pub run_one : Template → W → Ended Results W
  run_one (l, slots) w = elim (use_all slots (begin_statement (l ++ holes slots))) [
    | ok once ↦ into_results methods once w
    | raise e ↦ record { result = raise e; freed = false; world = w }
    | undefined ↦ record { result = undefined; freed = false; world = w }
  ]

  abbrev go_on : Ended Results W → (W → Run W) → Run W
  go_on e next = elim e.result [
    | ok rows ↦ add_result rows e.freed (next e.world)
    | raise x ↦ (raise x, 0, e.world)
    | undefined ↦ (undefined, 0, e.world)
  ]

  -- Such statements one behind the other, up to the first that throws.
  pub run : List Template → W → Run W
  unfolding run_one
  run [] w = (ok [], 0, w)
  run (t ∷ ts) w = go_on (run_one t w) (run ts)

abbrev put_first : {D : Type 0} → Results → Option (List Results × D) → Option (List Results × D)
put_first rows none = none
put_first rows (some (rest, d)) = some (rows ∷ rest, d)

abbrev then_all :
    {D : Type 0}
    → Option (Results × D)
    → (D → Option (List Results × D))
    → Option (List Results × D)
then_all none next = none
then_all (some (rows, d)) next = put_first rows (next d)

-- The abstract answers to texts one behind the other.
unfoldable pub answers_all : {D : Type 0} → Answers D → List Bytes → D → Option (List Results × D)
answers_all answers [] d = some ([], d)
answers_all answers (sql ∷ sqls) d = then_all (answers sql d) (answers_all answers sqls)

put_first_inv :
    {D : Type 0} (rows : Results) (o : Option (List Results × D)) (all : List Results) (d' : D)
    → put_first rows o ≡ some (all, d')
    → (rest : List Results) × (o ≡ some (rest, d')) × (all ≡ rows ∷ rest)
put_first_inv rows none all d' e = absurd (cc)
put_first_inv rows (some (rest, d)) all d' e = (rest, cc, cc)

then_all_inv :
    {D : Type 0} (r : Option (Results × D)) (next : D → Option (List Results × D))
    (all : List Results) (d' : D)
    → then_all r next ≡ some (all, d')
    → (rows : Results) × (mid : D) × (rest : List Results) × (r ≡ some (rows, mid))
      × (next mid ≡ some (rest, d'))
      × (all ≡ rows ∷ rest)
then_all_inv none next all d' e = absurd (cc)
then_all_inv (some (rows, d)) next all d' e =
    let (rest, f, g) = put_first_inv rows (next d) all d' e in (rows, d, rest, refl, f, g)

run_one-query :
    {W : Type 0} (methods : Methods W) (t : Template) (w w' : W) (rows : Results)
    → TemplateFits t
    → query methods (spelt t) w ≡ (ok rows, w')
    → run_one methods t w ≡ record { result = ok rows; freed = true; world = w' }
unfolding run_one begin_statement into_results
run_one-query methods (l, slots) w w' rows (hl, fit, ne, small) e =
    let (last, ran, sent, heap) =
      get_sql-use_all (begin_statement (l ++ holes slots)) l slots refl refl hl fit ne small in
    rw (run_one, ran) (rw (sent, into_results, with_sql) (rw (e, heap) refl))

-- Over a session that implements an abstract database, a program of templated statements ends with
-- the abstract answers to the texts with every value in its place, one after the other, and deletes
-- every statement, if each template meets the conditions on its texts and values.
pub run-answers :
    {W D : Type 0} (methods : Methods W) (answers : Answers D) (R : W → D → Type 0)
    → Implements methods answers R
    → (ts : List Template) (w : W) (d d' : D) (all : List Results) → TemplatesFit ts
    → R w d
    → answers_all answers (map spelt ts) d ≡ some (all, d')
    → (w' : W) × (run methods ts w ≡ (ok all, length ts, w')) × R w' d'
unfolding run answers_all
run-answers methods answers R impl [] w d d' all fits rel e =
    (w, ap (λ (a : List Results). (ok a, 0, w)) (cc), subst (R w) (cc) rel)
run-answers methods answers R impl (t ∷ ts) w d d' all (fit, fits) rel e =
    let (rows, mid, rest, f, g, h) =
      then_all_inv (answers (spelt t) d) (answers_all answers (map spelt ts)) all d' e in
    let (w₁, queried, rel₁) = impl.implements (spelt t) w d mid rows rel f in
    let (w', ran, rel') = run-answers methods answers R impl ts w₁ mid d' rest fits rel₁ g in
    (
      w',
      rw (run_one-query methods t w w₁ rows fit queried)
          (rw ran (ap (λ (a : List Results). (ok a, suc (length ts), w')) (sym h))),
      rel',
    )
