-- ===== src/Std/Stream/Padded.antt =====
-- Numbers with zeros in front, read from a `std::istringstream`.
use lite_database.Common.{
  ℕ, zero, suc, ◌-◌, ◌<◌, ◌^◌, ◌≡◌, refl, ◌∙◌, Bool, true, false, [], ◌∷◌, ◌++◌, arith, Bytes, ℤ,
  pos, signed, in_signed, length, All, All-append, append_assoc,
}
use lite_database.Std.Decimal.{IsDigit, scan_digits, print_ℕ, print_ℕ-All}
use lite_database.Std.Stream.{
  EndsNumber, behind, opened, extract_int, extract_int_digit, extract_int-pos, read_digits,
  starts_digit, scan-print_ℕ, starts_digit-print_ℕ,
}

-- k zeros.
abbrev pub zeros : ℕ → Bytes
zeros zero = []
zeros (suc k) = b'0' ∷ zeros k

-- A number in at least w digits.
abbrev pub padded : ℕ → ℕ → Bytes
padded w n = zeros (w - length (print_ℕ n)) ++ print_ℕ n

zeros-All : (k : ℕ) → All IsDigit (zeros k)
zeros-All zero = tt
zeros-All (suc k) = (omega arith, zeros-All k)

pub padded-All : (w n : ℕ) → All IsDigit (padded w n)
padded-All w n =
    All-append _ (zeros (w - length (print_ℕ n))) (print_ℕ n) (zeros-All _) (print_ℕ-All n)

scan-zeros : (k : ℕ) (s : Bytes) → scan_digits 0 (zeros k ++ s) ≡ scan_digits 0 s
unfolding scan_digits
scan-zeros zero s = refl
scan-zeros (suc k) s = scan-zeros k s

starts_digit-zeros :
    (k : ℕ) (s : Bytes) → starts_digit s ≡ true → starts_digit (zeros k ++ s) ≡ true
starts_digit-zeros zero s h = h
starts_digit-zeros (suc k) s h = refl

read_digits-zeros :
    (neg : Bool) (k n : ℕ) (r : Bytes)
    → EndsNumber r
    → in_signed 32 (signed neg n) ≡ true
    → read_digits neg (zeros k ++ (print_ℕ n ++ r)) ≡ (signed neg n, behind r)
unfolding read_digits
read_digits-zeros neg k n r h fits = rw (
  scan-zeros k (print_ℕ n ++ r),
  scan-print_ℕ n r h,
  starts_digit-zeros k (print_ℕ n ++ r) (starts_digit-print_ℕ n r),
  fits,
)

extract_int-zeros :
    (old : ℤ) (k n : ℕ) (r : Bytes)
    → EndsNumber r
    → n < 2 ^ 31
    → extract_int old (opened (zeros k ++ (print_ℕ n ++ r))) ≡ (pos n, behind r)
extract_int-zeros old zero n r h fits = extract_int-pos old n r h fits
extract_int-zeros old (suc k) n r h fits =
    extract_int_digit old b'0' (zeros k ++ (print_ℕ n ++ r)) (omega arith)
    ∙ read_digits-zeros false (suc k) n r h (ground arith)

-- A padded number is read as the number, whatever the variable held before.
pub extract_int-padded :
    (old : ℤ) (w n : ℕ) (r : Bytes)
    → EndsNumber r
    → n < 2 ^ 31
    → extract_int old (opened (padded w n ++ r)) ≡ (pos n, behind r)
extract_int-padded old w n r h fits =
    rw (append_assoc (zeros (w - length (print_ℕ n))) (print_ℕ n) r)
      (extract_int-zeros old (w - length (print_ℕ n)) n r h fits)

-- Behind a minus it is the negative number; there is no negative zero.
pub extract_int-minus_padded :
    (old : ℤ) (w n : ℕ) (r : Bytes)
    → EndsNumber r
    → n < 2 ^ 31
    → extract_int old (opened (b'-' ∷ (padded w n ++ r))) ≡ (signed true n, behind r)
unfolding extract_int
extract_int-minus_padded old w n r h fits =
    rw (append_assoc (zeros (w - length (print_ℕ n))) (print_ℕ n) r)
      (read_digits-zeros true (w - length (print_ℕ n)) n r h (ground arith))
