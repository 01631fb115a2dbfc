-- ===== src/Utils/Split/Lines.antt =====
-- What `split` of Core/Utils.cpp keeps and what it loses.
use lite_database.Common.{
  ℕ, ◌≡◌, ◌≢◌, refl, sym, ap, ◌∙◌, List, [], ◌∷◌, ◌++◌, arith, Bytes, ◌==◌, if◌then◌else◌, Lacks,
  All,
}
use lite_database.Utils.Split.{split, pieces, cons_first, pieces-take_line, split-pieces}

-- Every line with the delimiter put back behind it.
unfoldable pub terminated : List Bytes → ℕ → Bytes
terminated [] d = []
terminated (p ∷ ps) d = p ++ d ∷ terminated ps d

-- The text, ended by the delimiter if it has a last line without one.
abbrev pub ended : Bytes → ℕ → Bytes
ended [] d = []
ended (c ∷ []) d = if c == d then c ∷ [] else c ∷ d ∷ []
ended (c ∷ b ∷ s) d = c ∷ ended (b ∷ s) d

cons_first_lines :
    (c d : ℕ) (ps qs : List Bytes) (p : Bytes)
    → ps ≡ p ∷ qs
    → (terminated (cons_first c ps) d ≡ c ∷ terminated ps d)
unfolding terminated
cons_first_lines c d ps qs p e = rw e

terminated-pieces : (s : Bytes) (d : ℕ) → terminated (pieces s d) d ≡ ended s d
unfolding terminated pieces
terminated-pieces [] d = refl
terminated-pieces (c ∷ []) d = ground arith
terminated-pieces (c ∷ b ∷ s) d =
    let rest = pieces (b ∷ s) d in
    ground (
      arith,
      cons_first_lines c d (pieces (b ∷ s) d) _ _ (pieces-take_line d b s),
      terminated-pieces (b ∷ s) d,
    )

cons_first-All :
    (c d : ℕ) (ps : List Bytes) → c ≢ d → All (Lacks d) ps → All (Lacks d) (cons_first c ps)
cons_first-All c d [] ne h = ((ne, tt), tt)
cons_first-All c d (p ∷ ps) ne (hp, hps) = ((ne, hp), hps)

pieces-All : (s : Bytes) (d : ℕ) → All (Lacks d) (pieces s d)
unfolding pieces
pieces-All [] d = tt
pieces-All (c ∷ s) d = ground (arith, pieces-All s d, cons_first-All c d (pieces s d))

pieces-append : (p rest : Bytes) (d : ℕ) → Lacks d p → pieces (p ++ d ∷ rest) d ≡ p ∷ pieces rest d
unfolding pieces
pieces-append [] rest d h = ground arith
pieces-append (c ∷ p) rest d h = ground (arith, pieces-append p rest d h.1)

pieces-terminated : (ps : List Bytes) (d : ℕ) → All (Lacks d) ps → pieces (terminated ps d) d ≡ ps
unfolding terminated
pieces-terminated [] d h = unfold pieces in refl
pieces-terminated (p ∷ ps) d (hp, hps) =
    pieces-append p (terminated ps d) d hp ∙ ap (λ qs. p ∷ qs) (pieces-terminated ps d hps)

-- No line holds the delimiter, and with the delimiter put back behind every line they spell the
-- text: `split` loses nothing but whether the last line was ended.
pub split_keeps :
    (s : Bytes) (d : ℕ) → (terminated (split s d) d ≡ ended s d) × All (Lacks d) (split s d)
split_keeps s d = rw (split-pieces s d) (terminated-pieces s d, pieces-All s d)

-- Lines that do not hold the delimiter are cut apart again, empty lines among them.
split-terminated : (ps : List Bytes) (d : ℕ) → All (Lacks d) ps → split (terminated ps d) d ≡ ps
split-terminated ps d h = split-pieces (terminated ps d) d ∙ pieces-terminated ps d h

pieces-single : (c : ℕ) (s : Bytes) (d : ℕ) → Lacks d (c ∷ s) → pieces (c ∷ s) d ≡ (c ∷ s) ∷ []
unfolding pieces
pieces-single c [] d h = ground arith
pieces-single c (b ∷ s) d h = ground (arith, pieces-single b s d h.1)

-- A text without the delimiter is one line.
pub split-single : (s : Bytes) (d : ℕ) → s ≢ [] → Lacks d s → split s d ≡ s ∷ []
split-single [] d ne h = absurd (ne refl)
split-single (c ∷ s) d ne h = split-pieces (c ∷ s) d ∙ pieces-single c s d h

-- The text up to the first delimiter is the first line.
pub split_front : (p rest : Bytes) (d : ℕ) → Lacks d p → split (p ++ d ∷ rest) d ≡ p ∷ split rest d
split_front p rest d h =
    split-pieces (p ++ d ∷ rest) d
    ∙ (pieces-append p rest d h ∙ ap (λ qs. p ∷ qs) (sym (split-pieces rest d)))
