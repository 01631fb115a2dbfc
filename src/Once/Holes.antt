-- ===== src/Once/Holes.antt =====
-- Core/Once.cpp, the positional `replace`: where the next placeholder is found.
use lite_database.Common.{
  ℕ, suc, ◌+◌, ◌-◌, ◌%◌, ◌^◌, ◌≤◌, ◌≡◌, ◌≢◌, refl, sym, ap, ◌∙◌, true, Option, none, some, [], ◌∷◌,
  ◌++◌, append_assoc, append-nil, arith, Bytes, length, take, drop, take-append-drop,
  length-take-le, All-drop, Lacks,
}
use mathlib.Core.Option
use lite_database.Once.{Once, replace_next, replace_loop}
use lite_database.Once.Search.{fill, replace_loop_lem}

fill_plain : (c : ℕ) (s v : Bytes) → c ≢ b'?' → fill (c ∷ s) v ≡ Option.map (λ t. c ∷ t) (fill s v)
unfolding fill
fill_plain c [] v h = ground arith
fill_plain c (b ∷ s) v h = ground arith

map-cons :
    (c : ℕ) (p : Bytes) (o : Option Bytes)
    → Option.map (λ t. c ∷ t) (Option.map (λ t. p ++ t) o) ≡ Option.map (λ t. c ∷ (p ++ t)) o
map-cons c p none = refl
map-cons c p (some t) = refl

map_id : (o : Option Bytes) → o ≡ Option.map (λ t. t) o
map_id none = refl
map_id (some t) = refl

pub fill-Lacks :
    (p r v : Bytes) → Lacks b'?' p → fill (p ++ r) v ≡ Option.map (λ t. p ++ t) (fill r v)
fill-Lacks [] r v h = map_id (fill r v)
fill-Lacks (c ∷ p) r v (ne, h) =
    fill_plain c (p ++ r) v ne
    ∙ (ap (λ o. Option.map (λ t. c ∷ t) o) (fill-Lacks p r v h) ∙ map-cons c p (fill r v))

-- The text does not begin with a question mark.
abbrev pub NoMark : Bytes → Type 0
NoMark [] = Unit
NoMark (c ∷ s) = c ≢ b'?'

pub fill_hole : (r v : Bytes) → NoMark r → fill (b'?' ∷ r) v ≡ some (v ++ r)
unfolding fill
fill_hole [] v h = ap some (sym (append-nil v))
fill_hole (c ∷ r) v h = ground arith

replace_loop_hole :
    (before between r v : Bytes)
    → Lacks b'?' between
    → NoMark r
    → replace_loop
        (suc (length (before ++ (between ++ b'?' ∷ r))))
        (before ++ (between ++ b'?' ∷ r))
        (length before)
        v
      ≡ some (before ++ (between ++ (v ++ r)))
replace_loop_hole before between r v lacks mark =
    replace_loop_lem before (between ++ b'?' ∷ r) v
    ∙ rw (fill-Lacks between (b'?' ∷ r) v lacks) (rw (fill_hole r v mark))

-- One positional `use`: the next single question mark is replaced, and `start` moves on.
pub replace_next_hole :
    (once : Once) (before between r v : Bytes)
    → once.sql ≡ before ++ (between ++ b'?' ∷ r)
    → once.start ≡ length before
    → Lacks b'?' between
    → NoMark r
    → replace_next v true once ≡ record once {
      sql = before ++ (between ++ (v ++ r));
      start = (once.start + (length v + 2 ^ 64 - 1)) % 2 ^ 64;
    }
unfolding replace_next
replace_next_hole once before between r v e at_start lacks mark =
    let found : replace_loop (suc (length once.sql)) once.sql once.start v
        ≡ some (before ++ (between ++ (v ++ r))) =
      rw e (rw at_start (replace_loop_hole before between r v lacks mark)) in
    rw (found, replace_next)

-- The same from anywhere before the placeholder, as long as no other question mark stands there.
pub replace_next_within :
    (once : Once) (pre r v : Bytes)
    → once.sql ≡ pre ++ b'?' ∷ r
    → once.start ≤ length pre
    → Lacks b'?' pre
    → NoMark r
    → replace_next v true once ≡ record once {
      sql = pre ++ (v ++ r);
      start = (once.start + (length v + 2 ^ 64 - 1)) % 2 ^ 64;
    }
replace_next_within once pre r v e at_start lacks mark =
    let n = once.start in
    let joined = λ (s : Bytes).
      ap (λ p. p ++ s) (sym (take-append-drop n pre)) ∙ append_assoc (take n pre) (drop n pre) s in
    replace_next_hole once (take n pre) (drop n pre) r v (e ∙ joined (b'?' ∷ r))
      (sym (length-take-le n pre at_start)) (All-drop _ n pre lacks) mark
    ∙ ap (λ (s : Bytes). record once { sql = s; start = (n + (length v + 2 ^ 64 - 1)) % 2 ^ 64 })
        (sym (joined (v ++ r)))
