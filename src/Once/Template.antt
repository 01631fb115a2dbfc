-- ===== src/Once/Template.antt =====
-- Core/Once.cpp: a statement with question marks, and the values that `use` puts in for them.
use lite_database.Common.{
  ℕ, ◌+◌, ◌-◌, ◌%◌, ◌^◌, ◌≤◌, ◌<◌, ◌≡◌, ◌≢◌, refl, sym, ap, ◌∙◌, true, List, [], ◌∷◌, ◌++◌,
  append_assoc, arith, Bytes, length, length-append, Lacks, All-append,
}
use lite_database.Outcome.{Outcome, ok, ◌>>=◌}
use lite_database.Once.{Once, use_next, with_value, apply_use, replace_next, get_sql}
use lite_database.Once.Holes.{NoMark, replace_next_within}
use lite_database.Once.Collapse.{get_sql-collapse, collapse-Lacks}

-- A placeholder's value and the text behind the placeholder.
abbrev pub Slot : Type 0
Slot = Bytes × Bytes

-- The text from the first placeholder on, as it is written, and with the values in place.
unfoldable pub holes : List Slot → Bytes
holes [] = []
holes ((v, l) ∷ slots) = b'?' ∷ (l ++ holes slots)

unfoldable pub filled : List Slot → Bytes
filled [] = []
filled ((v, l) ∷ slots) = v ++ (l ++ filled slots)

-- `once, use(v₁), use(v₂), …`.
unfoldable pub use_all : List Slot → Once → Outcome Once
use_all [] once = ok once
use_all ((v, l) ∷ slots) once = apply_use (with_value v true) once >>= use_all slots

-- The texts that the theorem is about: no text and no value holds a question mark, no value is
-- empty, and between two placeholders stands some text.
abbrev pub Separates : Bytes → List Slot → Type 0
Separates l [] = Unit
Separates l (s ∷ slots) = l ≢ []

abbrev pub SlotsFit : List Slot → Type 0
SlotsFit [] = Unit
SlotsFit ((v, l) ∷ slots) =
    (v ≢ []) × Lacks b'?' v × Lacks b'?' l × Separates l slots × SlotsFit slots

-- A slot's text keeps the next placeholder from being read as one of a pair.
separated-NoMark :
    (l : Bytes) (slots : List Slot) → Lacks b'?' l → Separates l slots → NoMark (l ++ holes slots)
unfolding holes
separated-NoMark [] [] h sep = tt
separated-NoMark [] (s ∷ slots) h sep = absurd (sep refl)
separated-NoMark (c ∷ l) slots h sep = h.0

length_pos : (v : Bytes) → v ≢ [] → 0 < length v
length_pos [] h = absurd (h refl)
length_pos (c ∷ v) h = omega arith

filled-Lacks : (slots : List Slot) → SlotsFit slots → Lacks b'?' (filled slots)
unfolding filled
filled-Lacks [] h = tt
filled-Lacks ((v, l) ∷ slots) (ne, hv, hl, sep, h) =
    All-append _ v _ hv (All-append _ l _ hl (filled-Lacks slots h))

-- `start` moves to the last byte of the value at most; nothing wraps around.
start_within :
    (n : ℕ) (pre v l r : Bytes)
    → n ≤ length pre
    → 0 < length v
    → length (pre ++ (v ++ (l ++ r))) < 2 ^ 64
    → (n + (length v + 2 ^ 64 - 1)) % 2 ^ 64 ≤ length (pre ++ (v ++ l))
start_within n pre v l r h pv small = omega (
  arith,
  length-append {0} pre (v ++ (l ++ r)),
  length-append {0} v (l ++ r),
  length-append {0} pre (v ++ l),
  length-append {0} v l,
)

-- With all text before the first placeholder free of question marks and `start` within it, every
-- value reaches its own placeholder.
use_all_fills :
    (slots : List Slot) (pre : Bytes) (once : Once)
    → once.sql ≡ pre ++ holes slots
    → once.start ≤ length pre
    → Lacks b'?' pre
    → SlotsFit slots
    → length (pre ++ filled slots) < 2 ^ 64
    → (once' : Once) × (use_all slots once ≡ ok once')
      × (once'.sql ≡ pre ++ filled slots)
      × (once'.heap ≡ once.heap)
unfolding use_all holes filled apply_use with_value use_next
use_all_fills [] pre once e at_start lacks fit small = (once, refl, e, refl)
use_all_fills ((v, l) ∷ slots) pre once e at_start lacks (ne, hv, hl, sep, fit) small =
    let next : Once = record once {
      sql = pre ++ (v ++ (l ++ holes slots));
      start = (once.start + (length v + 2 ^ 64 - 1)) % 2 ^ 64;
    } in
    let (last, run, spelt, heap) =
      use_all_fills slots (pre ++ (v ++ l)) next (simp append_assoc)
        (start_within once.start pre v l (filled slots) at_start (length_pos v ne) small)
        (All-append _ pre _ lacks (All-append _ v _ hv hl)) fit (simp append_assoc small) in
    let step : replace_next v true once ≡ next =
      replace_next_within once pre (l ++ holes slots) v e at_start lacks
        (separated-NoMark l slots hl sep) in
    (last, rw step run, simp append_assoc at spelt, heap)

-- A statement that is written with question marks and given its values one by one is sent as the
-- text with every value in its place, if no text and no value holds a question mark, no value is
-- empty, some text stands between two placeholders, and the whole is shorter than 2^64 bytes.
pub get_sql-use_all :
    (once : Once) (l : Bytes) (slots : List Slot)
    → once.sql ≡ l ++ holes slots
    → once.start ≡ 0
    → Lacks b'?' l
    → SlotsFit slots
    → l ++ filled slots ≢ []
    → length (l ++ filled slots) < 2 ^ 64
    → (last : Once) × (use_all slots once ≡ ok last)
      × (get_sql last ≡ ok (l ++ filled slots))
      × (last.heap ≡ once.heap)
get_sql-use_all once l slots e at_start hl fit ne small =
    let (last, run, spelt, heap) = use_all_fills slots l once e (omega arith) hl fit small in
    (
      last,
      run,
      get_sql-collapse last (λ empty. ne (sym spelt ∙ empty))
          ∙ ap ok (
              rw spelt (
                collapse-Lacks (l ++ filled slots) (All-append _ l _ hl (filled-Lacks slots fit)))),
      heap,
    )
