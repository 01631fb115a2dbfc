-- ===== src/Utils/Split.antt =====
-- `split` of Core/Utils.cpp.
pub mod Lines
use lite_database.Common.{
  ℕ, zero, suc, ◌+◌, ◌≤◌, ◌<◌, ◌≡◌, ◌≢◌, refl, sym, ap, ◌∙◌, Bool, true, false, Option, none, some,
  List, [], ◌∷◌, ◌++◌, append_assoc, append-nil, arith, Bytes, codes, ◌==◌, if◌then◌else◌, length,
  Lacks, All,
}
use lite_database.Std.Stream.{Stream, opened, good}
use lite_database.Std.Getline.{take_line, get_line}

-- `while (getline(iss, line, delim)) result.push_back(line)`: the loop ends when the stream fails.
-- Each round reads a byte or the end of the text, so fuel above the length is enough.
split_loop : ℕ → ℕ → Stream → List Bytes → Bytes → List Bytes
unfolding get_line
split_loop zero d s result line = result
split_loop (suc f) d s result line =
    let (next, s') = get_line d line s in
    let rest = split_loop f d s' (result ++ next ∷ []) next in if s'.fail then result else rest

unfoldable pub split : Bytes → ℕ → List Bytes
unfolding split_loop
split str d = split_loop (suc (length str)) d (opened str) [] []

abbrev pub cons_first : ℕ → List Bytes → List Bytes
cons_first c [] = (c ∷ []) ∷ []
cons_first c (p ∷ ps) = (c ∷ p) ∷ ps

-- The lines of a text by recursion on it: a delimiter ends a line, and nothing behind the last
-- delimiter is no line.
unfoldable pub pieces : Bytes → ℕ → List Bytes
pieces [] d = []
pieces (c ∷ s) d = if c == d then [] ∷ pieces s d else cons_first c (pieces s d)

abbrev pieces_after : ℕ → Option Bytes → List Bytes
pieces_after d none = []
pieces_after d (some s) = pieces s d

abbrev left_over : Option Bytes → ℕ
left_over none = 0
left_over (some s) = length s

pub pieces-take_line :
    (d c : ℕ) (s : Bytes)
    → pieces (c ∷ s) d ≡ (take_line d (c ∷ s)).0 ∷ pieces_after d (take_line d (c ∷ s)).1
unfolding pieces take_line
pieces-take_line d c [] = ground arith
pieces-take_line d c (b ∷ s) = ground (arith, pieces-take_line d b s)

take_line_shortens : (d c : ℕ) (s : Bytes) → left_over (take_line d (c ∷ s)).1 ≤ length s
unfolding take_line
take_line_shortens d c [] = ground arith
take_line_shortens d c (b ∷ s) = ground (arith, take_line_shortens d b s)

split_loop_fails :
    (f d : ℕ) (result : List Bytes) (line : Bytes)
    → (split_loop f d (record { rest = []; eof = true; fail = false }) result line ≡ result)
      × (split_loop f d (opened []) result line ≡ result)
unfolding split_loop
split_loop_fails zero d result line = (refl, refl)
split_loop_fails (suc f) d result line = (refl, refl)

-- One round, given what the rounds behind it do.
split_loop_round :
    (f d : ℕ) (c : ℕ) (s : Bytes) (result : List Bytes) (line : Bytes) (next : Bytes × Option Bytes)
    → take_line d (c ∷ s) ≡ next
    → ((t : Bytes) (done : List Bytes)
        → length t < f
        → split_loop f d (opened t) done next.0 ≡ done ++ pieces t d)
    → left_over next.1 < f
    → split_loop (suc f) d (opened (c ∷ s)) result line ≡ result ++ next.0 ∷ pieces_after d next.1
unfolding split_loop
split_loop_round f d c s result line (l, none) e ih h =
    rw e (rw ((split_loop_fails f d (result ++ l ∷ []) l).0) refl)
split_loop_round f d c s result line (l, some t) e ih h =
    rw e (rw (ih t (result ++ l ∷ []) h) (append_assoc result (l ∷ []) (pieces t d)))

split_loop-pieces :
    (f d : ℕ) (s : Bytes) (result : List Bytes) (line : Bytes)
    → length s < f
    → split_loop f d (opened s) result line ≡ result ++ pieces s d
split_loop-pieces zero d s result line h = absurd (omega arith)
split_loop-pieces (suc f) d [] result line h =
    (split_loop_fails (suc f) d result line).1 ∙ unfold pieces in sym (append-nil result)
split_loop-pieces (suc f) d (c ∷ s) result line h = rw (pieces-take_line d c s) (
    split_loop_round f d c s result line (take_line d (c ∷ s)) refl
      (λ t done lt. split_loop-pieces f d t done (take_line d (c ∷ s)).0 lt)
      (omega (arith, take_line_shortens d c s)))

-- The loop over `getline` ends by itself and cuts the text into its lines, for every text.
pub split-pieces : (s : Bytes) (d : ℕ) → split s d ≡ pieces s d
unfolding split
split-pieces s d = split_loop-pieces (suc (length s)) d s [] [] (omega arith)
