-- ===== src/Std/Text.antt =====
-- `std::string`: `find`, `substr`, and what the search returns.
use lite_database.Common.{
  ℕ, suc, ◌≤◌, ◌≡◌, refl, ap, Bool, true, false, ◌&&◌, Option, none, some, [], ◌∷◌, ◌++◌, arith,
  Bytes, ◌==◌, if◌then◌else◌, length, Bool-cases, Option-cases, codes, inl, inr,
}
use mathlib.Core.Option

-- `s` begins with `p`.
pub starts_with : Bytes → Bytes → Bool
starts_with s [] = true
starts_with [] (b ∷ p) = false
starts_with (a ∷ s) (b ∷ p) = (a == b) && starts_with s p

-- `s.find(p)`: the first position at which `p` stands; `none` is `npos`.
unfoldable pub find : Bytes → Bytes → Option ℕ
unfolding starts_with
find [] p = if starts_with [] p then some 0 else none
find (c ∷ s) p = if starts_with (c ∷ s) p then some 0 else Option.map suc (find s p)

starts_with-append : (p rest : Bytes) → starts_with (p ++ rest) p ≡ true
unfolding starts_with
starts_with-append [] rest = refl
starts_with-append (b ∷ p) rest = ground (arith, starts_with-append p rest)

starts_with→append : (s p : Bytes) → starts_with s p ≡ true → (r : Bytes) × (s ≡ p ++ r)
unfolding starts_with
starts_with→append s [] h = (s, refl)
starts_with→append [] (b ∷ p) h = absurd (cc)
starts_with→append (a ∷ s) (b ∷ p) h =
    let (r, e) = starts_with→append s p (ground arith) in (r, ground (arith, e))

-- The text up to a hit, the pattern and the rest spell the whole text, and no earlier position hits.
pub find_sound :
    (s p : Bytes) (n : ℕ)
    → find s p ≡ some n
    → (before : Bytes) × (after : Bytes) × (s ≡ before ++ (p ++ after)) × (length before ≡ n)
unfolding find
find_sound [] p n h = elim (Bool-cases (starts_with [] p)) [
  | inl hit ↦ let (r, e) = starts_with→append [] p hit in ([], r, e, ground arith)
  | inr miss ↦ absurd (ground arith)
]
find_sound (c ∷ s) p n h = elim (Bool-cases (starts_with (c ∷ s) p)) [
  | inl hit ↦ let (r, e) = starts_with→append (c ∷ s) p hit in ([], r, e, ground arith)
  | inr miss ↦ elim (Option-cases (find s p)) [
    | inl nowhere ↦ absurd (ground arith)
    | inr (m, e) ↦
        let (b, a, spelt, len) = find_sound s p m e in
        (c ∷ b, a, ap (λ t. c ∷ t) spelt, ground arith)
  ]
]

-- Where the pattern stands at all, the search succeeds, and no later than there.
pub find_complete :
    (before p after : Bytes)
    → (n : ℕ) × (find (before ++ (p ++ after)) p ≡ some n) × (n ≤ length before)
unfolding find
find_complete [] [] [] = (0, refl, omega arith)
find_complete [] [] (c ∷ after) = (0, refl, omega arith)
find_complete [] (b ∷ p) after = (0, rw (starts_with-append (b ∷ p) after), omega arith)
find_complete (c ∷ before) p after =
    elim (Bool-cases (starts_with (c ∷ (before ++ (p ++ after))) p)) [
      | inl hit ↦ (0, rw hit, omega arith)
      | inr miss ↦
          let (n, e, le) = find_complete before p after in (suc n, rw (miss, e), omega arith)
    ]

find_second : find (codes "a=${b}") (codes "${b}") ≡ some 2
unfolding find
find_second = refl

find_nowhere : find (codes "a=$b}") (codes "${b}") ≡ none
unfolding find
find_nowhere = refl
