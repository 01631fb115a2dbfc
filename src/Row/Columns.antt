-- ===== src/Row/Columns.antt =====
-- Core/Row.cpp: what a row built from the columns of a result holds.
use lite_database.Common.{
  ℕ, zero, suc, ◌≡◌, refl, sym, ap, ◌∙◌, Bool, false, ◌||◌, none, some, List, [], ◌∷◌, ◌++◌,
  append-nil, append_assoc, arith, Bytes, str_eq, Bool-cases, Option-cases, inl, inr,
}
use mathlib.Core.List.{Permᴰ}
use lite_database.Std.Map.{
  lookup, contains, emplace, insert_all, lookup-insert_all, contains-lookup,
}
use lite_database.Any.{Any}
use lite_database.Row.{Row, has, headers, headers_loop, get, at_or_empty, empty, row_of}

row_of-insert_all :
    (columns : List (Bytes × Any)) (row : Row) → row_of columns row ≡ insert_all columns row
unfolding row_of insert_all
row_of-insert_all [] row = refl
row_of-insert_all ((k, v) ∷ columns) row = row_of-insert_all columns (emplace k v row)

get-lookup : (row : Row) (h : Bytes) → get row h ≡ at_or_empty (lookup h row)
unfolding get
get-lookup row h =
    rw (contains-lookup h row)
      (elim (Option-cases (lookup h row)) [ inl e ↦ rw e | inr (a, e) ↦ rw e ])

-- `get` of a row that was filled from columns gives the first column of that name, or the empty
-- value if there is none; later columns of the same name are lost.
pub get-row_of :
    (columns : List (Bytes × Any)) (h : Bytes)
    → get (row_of columns []) h ≡ elim (lookup h columns) [ some a ↦ a | none ↦ Any.empty ]
get-row_of columns h =
    get-lookup (row_of columns []) h
    ∙ rw (row_of-insert_all columns []) (
        rw (lookup-insert_all columns [] h) (
          unfold lookup in
          (elim (Option-cases (lookup h columns)) [ inl e ↦ rw e | inr (a, e) ↦ rw e ])))

-- The text is one of the list.
abbrev pub listed : Bytes → List Bytes → Bool
listed h [] = false
listed h (k ∷ ks) = str_eq k h || listed h ks

abbrev pub keys : Row → List Bytes
keys [] = []
keys ((k, v) ∷ row) = k ∷ keys row

headers_loop-keys : (row : Row) (result : List Bytes) → headers_loop row result ≡ result ++ keys row
unfolding headers_loop
headers_loop-keys [] result = sym (append-nil result)
headers_loop-keys ((k, v) ∷ row) result =
    headers_loop-keys row (result ++ k ∷ []) ∙ append_assoc result (k ∷ []) (keys row)

contains-keys : (row : Row) (h : Bytes) → contains h row ≡ listed h (keys row)
unfolding contains
contains-keys [] h = refl
contains-keys ((k, v) ∷ row) h = rw (contains-keys row h)

-- No text is listed twice.
abbrev pub Distinct : List Bytes → Type 0
Distinct [] = Unit
Distinct (k ∷ ks) = (listed k ks ≡ false) × Distinct ks

listed-append :
    (h k : Bytes) (ks : List Bytes) → listed h (ks ++ k ∷ []) ≡ (listed h ks || str_eq k h)
listed-append h k [] = ground arith
listed-append h k (j ∷ ks) = ground (arith, listed-append h k ks)

keys-append : (row : Row) (k : Bytes) (v : Any) → keys (row ++ (k, v) ∷ []) ≡ keys row ++ k ∷ []
keys-append [] k v = refl
keys-append ((j, w) ∷ row) k v = ap (λ ks. j ∷ ks) (keys-append row k v)

str_eq_comm : (s t : Bytes) → str_eq s t ≡ str_eq t s
str_eq_comm [] [] = refl
str_eq_comm [] (b ∷ t) = refl
str_eq_comm (a ∷ s) [] = refl
str_eq_comm (a ∷ s) (b ∷ t) = ground (arith, str_eq_comm s t)

Distinct-append :
    (ks : List Bytes) (k : Bytes) → listed k ks ≡ false → Distinct ks → Distinct (ks ++ k ∷ [])
Distinct-append [] k h d = (refl, tt)
Distinct-append (j ∷ ks) k h (dj, d) =
    ground (arith, listed-append j k ks, str_eq_comm j k, Distinct-append ks k)

row_of-Distinct :
    (columns : List (Bytes × Any)) (row : Row)
    → Distinct (keys row)
    → Distinct (keys (row_of columns row))
unfolding row_of emplace
row_of-Distinct [] row d = d
row_of-Distinct ((k, v) ∷ columns) row d = elim (Bool-cases (contains k row)) [
  | inl there ↦ rw there (row_of-Distinct columns row d)
  | inr new ↦ rw new (
      row_of-Distinct columns (row ++ (k, v) ∷ []) (
        rw (keys-append row k v)
          (Distinct-append (keys row) k (sym (contains-keys row k) ∙ new) d)))
]

listed-reordered :
    (h : Bytes) {row other : Row} → Permᴰ row other → listed h (keys row) ≡ listed h (keys other)
listed-reordered h Permᴰ.nil = refl
listed-reordered h (Permᴰ.cons {a = (k, v)} {b = (j, w)} e p) =
    let same : k ≡ j = ap (λ t. t.0) e in rw (same, listed-reordered h p) refl
listed-reordered h
      (Permᴰ.swap {a = (k, v)} {b = (j, w)} {a' = (j', w')} {b' = (k', v')} {l = l} e f) =
    let same : k ≡ k' = ap (λ t. t.0) e in
    let other : j ≡ j' = ap (λ t. t.0) f in rw (same, other) (ground arith)
listed-reordered h (Permᴰ.trans p q) = listed-reordered h p ∙ listed-reordered h q

Distinct-reordered :
    {row other : Row} → Permᴰ row other → Distinct (keys row) → Distinct (keys other)
Distinct-reordered Permᴰ.nil d = d
Distinct-reordered (Permᴰ.cons {a = (k, v)} {b = (j, w)} e p) (dk, d) =
    let same : k ≡ j = ap (λ t. t.0) e in
    (sym (listed-reordered j p) ∙ rw same at dk, Distinct-reordered p d)
Distinct-reordered
      (Permᴰ.swap {a = (k, v)} {b = (j, w)} {a' = (j', w')} {b' = (k', v')} {l = l} e f)
      (dk, (dj, d)) =
    let same : k ≡ k' = ap (λ t. t.0) e in
    let other : j ≡ j' = ap (λ t. t.0) f in ground (arith, str_eq_comm k j)
Distinct-reordered (Permᴰ.trans p q) d = Distinct-reordered q (Distinct-reordered p d)

-- Whatever the order in which an `unordered_map` is walked, `headers` lists exactly the names for
-- which `has` holds, and, for a row filled from columns, each of them once.
pub headers_lem :
    (order : Row → Row)
    → ((row : Row) → Permᴰ row (order row))
    → (columns : List (Bytes × Any)) (h : Bytes)
    → let row = row_of columns [] in
      (has row h ≡ listed h (headers order row)) × Distinct (headers order row)
unfolding has headers
headers_lem order permutes columns h =
    let row = row_of columns [] in
    rw (headers_loop-keys (order row) []) (
      contains-keys row h ∙ listed-reordered h (permutes row),
      Distinct-reordered (permutes row) (row_of-Distinct columns [] tt),
    )

-- `empty` calls itself without end: no number of calls is enough for a result.
pub empty_never_returns : (f : ℕ) (row : Row) → empty f row ≡ none
unfolding empty
empty_never_returns zero row = refl
empty_never_returns (suc f) row = empty_never_returns f row
