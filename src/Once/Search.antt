-- ===== src/Once/Search.antt =====
-- Core/Once.cpp: the loops over positions as recursions on the text.
use lite_database.Common.{
  ℕ, zero, suc, ◌+◌, ◌≤◌, ◌<◌, ◌≡◌, refl, sym, ap, ◌∙◌, Option, none, some, [], ◌∷◌, ◌++◌,
  append_assoc, arith, Bytes, ◌==◌, if◌then◌else◌, length, length-append, get_elem?-append,
  get_elem?-append_next, drop-append_next, take-length-append,
}
use mathlib.Core.Option
use lite_database.Once.{byte_at, replace_loop}

-- The text with `v` in place of its first question mark that is not one of a pair.
unfoldable pub fill : Bytes → Bytes → Option Bytes
fill [] v = none
fill (c ∷ []) v = if c == b'?' then some v else none
fill (c ∷ b ∷ s) v =
    if c == b'?'
    then (if b == b'?' then Option.map (λ r. c ∷ b ∷ r) (fill s v) else some (v ++ b ∷ s))
    else Option.map (λ r. c ∷ r) (fill (b ∷ s) v)

-- What the loops read at the position behind `pre`.
pub byte_at-append : (pre s : Bytes) (c : ℕ) → byte_at (pre ++ c ∷ s) (length pre) ≡ c
byte_at-append pre s c = rw (byte_at, get_elem?-append pre s c)

pub byte_at-append_next :
    (pre s : Bytes) (c b : ℕ) → byte_at (pre ++ c ∷ b ∷ s) (length pre + 1) ≡ b
byte_at-append_next pre s c b = rw (byte_at, get_elem?-append_next pre s c b)

-- Putting the bytes read so far in front, in one step or in two.
map-prepend :
    (pre mid : Bytes) (o : Option Bytes)
    → Option.map (λ r. pre ++ r) (Option.map (λ r. mid ++ r) o)
      ≡ Option.map (λ r. (pre ++ mid) ++ r) o
map-prepend pre mid none = refl
map-prepend pre mid (some r) = ap some (sym (append_assoc pre mid r))

-- The same claim, seen from a position further left.
replace_loop_shift :
    (f : ℕ) (pre mid s v : Bytes)
    → replace_loop f ((pre ++ mid) ++ s) (length (pre ++ mid)) v
      ≡ Option.map (λ r. (pre ++ mid) ++ r) (fill s v)
    → replace_loop f (pre ++ (mid ++ s)) (length pre + length mid) v
      ≡ Option.map (λ r. pre ++ r) (Option.map (λ r. mid ++ r) (fill s v))
replace_loop_shift f pre mid s v h =
    rw (← append_assoc pre mid s)
      (rw (← length-append {0} pre mid) (h ∙ sym (map-prepend pre mid (fill s v))))

-- Behind the end of the text the loop finds nothing.
pub replace_loop_end :
    (f : ℕ) (str : Bytes) (i : ℕ) (v : Bytes) → length str ≤ i → replace_loop f str i v ≡ none
unfolding replace_loop
replace_loop_end zero str i v h = refl
replace_loop_end (suc f) str i v h = ground arith

replace_loop_last :
    (f : ℕ) (pre v : Bytes) (c : ℕ)
    → replace_loop (suc f) (pre ++ c ∷ []) (length pre) v
      ≡ Option.map (λ r. pre ++ r) (fill (c ∷ []) v)
unfolding replace_loop fill
replace_loop_last f pre v c = ground (
  arith,
  byte_at-append pre [] c,
  replace_loop_end f (pre ++ c ∷ []) (length pre + 1) v,
  length-append {0} pre (c ∷ []),
  take-length-append pre (c ∷ []),
)

replace_loop_pair :
    (f : ℕ) (pre s v : Bytes) (c b : ℕ)
    → replace_loop f (pre ++ c ∷ b ∷ s) (length pre + 1) v
      ≡ Option.map (λ r. pre ++ r) (Option.map (λ r. c ∷ r) (fill (b ∷ s) v))
    → replace_loop f (pre ++ c ∷ b ∷ s) (length pre + 2) v
      ≡ Option.map (λ r. pre ++ r) (Option.map (λ r. c ∷ b ∷ r) (fill s v))
    → replace_loop (suc f) (pre ++ c ∷ b ∷ s) (length pre) v
      ≡ Option.map (λ r. pre ++ r) (fill (c ∷ b ∷ s) v)
unfolding replace_loop fill
replace_loop_pair f pre s v c b one two = ground (
  arith,
  length-append {0} pre (c ∷ b ∷ s),
  byte_at-append pre (b ∷ s) c,
  byte_at-append_next pre s c b,
  take-length-append pre (c ∷ b ∷ s),
  drop-append_next pre (b ∷ s) c,
)

replace_loop-fill :
    (f : ℕ) (pre s v : Bytes)
    → length s < f
    → replace_loop f (pre ++ s) (length pre) v ≡ Option.map (λ r. pre ++ r) (fill s v)
unfolding fill
replace_loop-fill zero pre s v h = absurd (omega arith)
replace_loop-fill (suc f) pre [] v h =
    replace_loop_end (suc f) (pre ++ []) (length pre) v (omega (arith, length-append {0} pre []))
replace_loop-fill (suc f) pre (c ∷ []) v h = replace_loop_last f pre v c
replace_loop-fill (suc f) pre (c ∷ b ∷ s) v h =
    replace_loop_pair f pre s v c b
      (replace_loop_shift f pre (c ∷ []) (b ∷ s) v
        (replace_loop-fill f (pre ++ c ∷ []) (b ∷ s) v (omega arith)))
      (replace_loop_shift f pre (c ∷ b ∷ []) s v
        (replace_loop-fill f (pre ++ c ∷ b ∷ []) s v (omega arith)))

-- So the loop over positions is `fill` behind the start position, for every text and start.
pub replace_loop_lem :
    (pre s v : Bytes)
    → replace_loop (suc (length (pre ++ s))) (pre ++ s) (length pre) v
      ≡ Option.map (λ r. pre ++ r) (fill s v)
replace_loop_lem pre s v =
    replace_loop-fill (suc (length (pre ++ s))) pre s v (omega (arith, length-append {0} pre s))
