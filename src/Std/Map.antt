-- ===== src/Std/Map.antt =====
-- `std::unordered_map` with text keys, as the list of its entries in the order in which a loop meets
-- them. That order is the library's choice; an insertion is shown here as the last entry.
use lite_database.Common.{
  ◌≡◌, refl, ◌∙◌, Bool, true, false, ◌||◌, Option, none, some, List, [], ◌∷◌, ◌++◌, arith, Bytes,
  str_eq, str_eq→eq, if◌then◌else◌, Bool-cases, Option-cases, inl, inr,
}

abbrev pub Map {ℓ} : Type ℓ → Type ℓ
Map V = List (Bytes × V)

module _ {ℓ} {V : Type ℓ} where
  unfoldable pub lookup : Bytes → Map V → Option V
  lookup k [] = none
  lookup k ((j, v) ∷ m) = if str_eq j k then some v else lookup k m

  -- `m.count(k)`, as a truth value.
  unfoldable pub contains : Bytes → Map V → Bool
  contains k [] = false
  contains k ((j, v) ∷ m) = str_eq j k || contains k m

  -- `m.emplace(k, v)`: nothing happens if the key is there.
  unfoldable pub emplace : Bytes → V → Map V → Map V
  unfolding contains
  emplace k v m = if contains k m then m else m ++ (k, v) ∷ []

  -- `m.insert(first, last)`, entry by entry.
  unfoldable pub insert_all : List (Bytes × V) → Map V → Map V
  unfolding emplace
  insert_all [] m = m
  insert_all ((k, v) ∷ il) m = insert_all il (emplace k v m)

  lookup-append :
      (k j : Bytes) (v : V) (m : Map V)
      → lookup j (m ++ (k, v) ∷ [])
        ≡ elim (lookup j m) [ some w ↦ some w | none ↦ if str_eq k j then some v else none ]
  unfolding lookup
  lookup-append k j v [] = refl
  lookup-append k j v ((i, w) ∷ m) = ground (arith, lookup-append k j v m)

  pub contains-lookup :
      (k : Bytes) (m : Map V) → contains k m ≡ elim (lookup k m) [ some w ↦ true | none ↦ false ]
  unfolding contains lookup
  contains-lookup k [] = refl
  contains-lookup k ((j, w) ∷ m) = ground (arith, contains-lookup k m)

  there-ne :
      (k j : Bytes) (m : Map V) → contains k m ≡ true → lookup j m ≡ none → str_eq k j ≡ false
  there-ne k j m there e = elim (Bool-cases (str_eq k j)) [
    | inl same ↦
        let equal = str_eq→eq k j same in
        let here : contains j m ≡ true = rw (← equal) there in
        absurd (ground (arith, contains-lookup j m))
    | inr other ↦ other
  ]

  -- The first entry of a key wins: an insertion is seen only by a key that was not there.
  pub lookup-emplace :
      (k j : Bytes) (v : V) (m : Map V)
      → lookup j (emplace k v m)
        ≡ elim (lookup j m) [ some w ↦ some w | none ↦ if str_eq k j then some v else none ]
  unfolding emplace
  lookup-emplace k j v m = elim (Bool-cases (contains k m)) [
    | inl there ↦ rw there (elim (Option-cases (lookup j m)) [
      | inl e ↦ rw e (rw (there-ne k j m there e))
      | inr (w, e) ↦ rw e
    ])
    | inr new ↦ rw new (lookup-append k j v m)
  ]

  lookup-cons :
      (k j : Bytes) (v : V) (il : List (Bytes × V))
      → (elim (if str_eq k j then some v else none) [ some w ↦ some w | none ↦ lookup j il ])
        ≡ lookup j ((k, v) ∷ il)
  unfolding lookup
  lookup-cons k j v il = ground arith

  -- Among the entries inserted into an empty map the first one of each key is found.
  pub lookup-insert_all :
      (il : List (Bytes × V)) (m : Map V) (j : Bytes)
      → lookup j (insert_all il m) ≡ elim (lookup j m) [ some w ↦ some w | none ↦ lookup j il ]
  unfolding insert_all
  lookup-insert_all [] m j = elim (Option-cases (lookup j m)) [
    | inl e ↦ rw e (unfold lookup in refl)
    | inr (w, e) ↦ rw e
  ]
  lookup-insert_all ((k, v) ∷ il) m j =
      lookup-insert_all il (emplace k v m) j
      ∙ rw (lookup-emplace k j v m) (elim (Option-cases (lookup j m)) [
        | inl e ↦ rw e (lookup-cons k j v il)
        | inr (w, e) ↦ rw e
      ])
