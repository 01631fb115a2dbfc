-- ===== src/Mysql/Columns/Bits.antt =====
-- MySQL/MySQLSession.cpp, `query`: the value that a BIT column gets.
use lite_database.Common.{
  ℕ, zero, suc, ◌+◌, ◌*◌, ◌^◌, ◌≤◌, ◌<◌, ◌≡◌, refl, ap, ◌∙◌, ◌⊎◌, inl, inr, some, [], ◌∷◌, arith,
  Bytes, ◌==◌, if◌then◌else◌, length, take, get_elem?, All,
}
use lite_database.Outcome.{ok}
use lite_database.Mysql.Columns.{Blank, bit_loop, bits}

abbrev pub IsBit : ℕ → Type 0
IsBit c = (c ≡ b'0') ⊎ (c ≡ b'1')

-- A text of bits read with its first character as the lowest bit.
unfoldable pub bit_value : Bytes → ℕ
bit_value [] = 0
bit_value (c ∷ s) = (if c == b'1' then 1 else 0) + 2 * bit_value s

-- The bits of a text below position i.
below : ℕ → Bytes → ℕ
unfolding bit_value
below i s = bit_value (take i s)

-- The bit at position i is worth `2 ^ i`.
below_next :
    (s : Bytes) (i : ℕ)
    → i < length s
    → All IsBit s
    → ((get_elem? s i ≡ some b'0') × (below (suc i) s ≡ below i s))
      ⊎ ((get_elem? s i ≡ some b'1') × (below (suc i) s ≡ below i s + 2 ^ i))
unfolding below bit_value
below_next [] i h all = absurd (omega arith)
below_next (c ∷ s) zero h (inl e, all) = inl (ap some e, rw e refl)
below_next (c ∷ s) zero h (inr e, all) = inr (ap some e, rw e refl)
below_next (c ∷ s) (suc i) h (b, all) = elim (below_next s i (omega arith) all) [
  | inl (g, q) ↦ inl (g, rw q refl)
  | inr (g, q) ↦ inr (g, omega (arith, q))
]

-- A sum of `result += pow(2, i)` is exact as long as it is below `2 ^ 53`, as a `double` holds it.
abbrev pub Exact : Blank → Type 0
Exact blank = (r i : ℕ) → r + 2 ^ i < 2 ^ 53 → blank.add_pow r i ≡ r + 2 ^ i

bit_loop-below :
    (blank : Blank) (s : Bytes) (i result : ℕ)
    → Exact blank
    → All IsBit s
    → i ≤ length s
    → result + below i s < 2 ^ 53
    → bit_loop blank s i result ≡ ok (result + below i s)
unfolding bit_loop below bit_value
bit_loop-below blank s zero result exact all le small = ap ok (omega arith)
bit_loop-below blank s (suc i) result exact all le small = elim (below_next s i (omega arith) all) [
  | inl (g, q) ↦
      rw (g, bit_loop)
        (bit_loop-below blank s i result exact all (omega arith) (omega (arith, q))
          ∙ ap ok (omega (arith, q)))
  | inr (g, q) ↦
      rw (g, bit_loop)
        (rw (exact result i (omega (arith, q))) (
          bit_loop-below blank s i (result + 2 ^ i) exact all (omega arith) (omega (arith, q))
          ∙ ap ok (omega (arith, q))))
]

take_all : (s : Bytes) → take (length s) s ≡ s
take_all [] = refl
take_all (c ∷ s) = ap (λ t. c ∷ t) (take_all s)

-- A text of `0` and `1` becomes the number that has it as its bits from the lowest to the highest,
-- where this is below `2 ^ 53` and the sums below that are exact: the first character counts 1.
pub bits_lem :
    (blank : Blank) (s : Bytes)
    → Exact blank
    → All IsBit s
    → bit_value s < 2 ^ 53
    → bits blank s ≡ ok (bit_value s)
unfolding bits below
bits_lem blank s exact all small =
    bit_loop-below blank s (length s) 0 exact all (omega arith) (rw (take_all s) (omega arith))
    ∙ ap ok (omega (arith, ap bit_value (take_all s)))
