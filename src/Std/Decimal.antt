-- ===== src/Std/Decimal.antt =====
-- Decimal numbers: what `operator<<`, `std::to_string` write, and what a run of digits means.
use lite_database.Common.{
  ℕ, zero, suc, ◌+◌, ◌-◌, ◌*◌, ◌/◌, ◌%◌, ◌≤◌, ◌<◌, ◌^◌, ◌≡◌, refl, inl, inr, Bool, false,
  Bool-cases, ◌&&◌, [], ◌∷◌, ◌++◌, arith, Bytes, codes, ltb, leb, if◌then◌else◌, ℤ, pos, negsuc,
  All,
}

abbrev pub is_digit : ℕ → Bool
is_digit c = leb b'0' c && leb c b'9'

abbrev pub IsDigit : ℕ → Type 0
IsDigit c = (b'0' ≤ c) × (c ≤ b'9')

-- The digits of `n` before `out`. The number falls at each round, so fuel above `n` is enough.
pub digits_from : ℕ → ℕ → Bytes → Bytes
digits_from zero n out = out
digits_from (suc f) n out =
    let rest = digits_from f (n / 10) ((b'0' + n % 10) ∷ out) in
    if ltb n 10 then (b'0' + n) ∷ out else rest

unfoldable pub print_ℕ : ℕ → Bytes
unfolding digits_from
print_ℕ n = digits_from (suc n) n []

unfoldable pub print_ℤ : ℤ → Bytes
print_ℤ (pos n) = print_ℕ n
print_ℤ (negsuc n) = b'-' ∷ print_ℕ (n + 1)

-- The value of the digits in front, behind the value `n` so far, and the rest of the text.
unfoldable pub scan_digits : ℕ → Bytes → ℕ × Bytes
scan_digits n [] = (n, [])
scan_digits n (c ∷ s) = if is_digit c then scan_digits (n * 10 + (c - b'0')) s else (n, c ∷ s)

digits_from-append :
    (f n : ℕ) (out rest : Bytes) → digits_from f n out ++ rest ≡ digits_from f n (out ++ rest)
unfolding digits_from
digits_from-append zero n out rest = refl
digits_from-append (suc f) n out rest =
    ground (arith, digits_from-append f (n / 10) ((b'0' + n % 10) ∷ out) rest)

scan_digits-digits_from :
    (f n : ℕ) (out : Bytes) → n < f → scan_digits 0 (digits_from f n out) ≡ scan_digits n out
unfolding digits_from scan_digits
scan_digits-digits_from zero n out h = absurd (omega arith)
scan_digits-digits_from (suc f) n out h =
    ground (arith, scan_digits-digits_from f (n / 10) ((b'0' + n % 10) ∷ out))

-- Reading the digits of `n` gives `n` and leaves what follows, up to further digits.
pub scan_digits-print_ℕ :
    (n : ℕ) (rest : Bytes) → scan_digits 0 (print_ℕ n ++ rest) ≡ scan_digits n rest
unfolding print_ℕ
scan_digits-print_ℕ n rest =
    rw (digits_from-append (suc n) n [] rest) (scan_digits-digits_from (suc n) n rest (omega arith))

-- A print begins with a digit.
digits_from_head :
    (f n : ℕ) (out : Bytes)
    → n < f
    → (c : ℕ) × (s : Bytes) × (digits_from f n out ≡ c ∷ s) × IsDigit c
unfolding digits_from
digits_from_head zero n out h = absurd (omega arith)
digits_from_head (suc f) n out h = elim (Bool-cases (ltb n 10)) [
  | inl last ↦ rw last (b'0' + n, out, refl, ground arith)
  | inr more ↦ rw more (digits_from_head f (n / 10) ((b'0' + n % 10) ∷ out) (ground arith))
]

pub print_ℕ_head : (n : ℕ) → (c : ℕ) × (s : Bytes) × (print_ℕ n ≡ c ∷ s) × IsDigit c
unfolding print_ℕ
print_ℕ_head n = digits_from_head (suc n) n [] (omega arith)

digits_from-All :
    (f n : ℕ) (out : Bytes) → n < f → All IsDigit out → All IsDigit (digits_from f n out)
unfolding digits_from
digits_from-All zero n out h d = d
digits_from-All (suc f) n out h d =
    ground (arith, digits_from-All f (n / 10) ((b'0' + n % 10) ∷ out))

-- A print of a natural number is made of digits.
pub print_ℕ-All : (n : ℕ) → All IsDigit (print_ℕ n)
unfolding print_ℕ
print_ℕ-All n = digits_from-All (suc n) n [] (omega arith) tt

print_u64 : print_ℕ (2 ^ 64 - 1) ≡ codes "18446744073709551615"
unfolding print_ℕ
print_u64 = refl

-- A byte that is no digit ends the run.
pub scan_digits_end :
    (n : ℕ) (c : ℕ) (s : Bytes) → is_digit c ≡ false → scan_digits n (c ∷ s) ≡ (n, c ∷ s)
unfolding scan_digits
scan_digits_end n c s h = rw h
