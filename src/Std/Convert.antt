-- ===== src/Std/Convert.antt =====
-- `std::stoi`, `std::stol` and `std::stoll`: the readers of whole integers, for the widths that
-- the three types have on 64-bit Windows (32, 32 and 64).
use lite_database.Common.{
  ℕ, ◌≡◌, refl, ◌∙◌, ◌+◌, arith, Bool, true, false, [], ◌∷◌, ◌++◌, append-nil, Bytes, codes,
  if◌then◌else◌, ℤ, pos, negsuc, signed, in_signed,
}
use lite_database.Outcome.{Outcome, Error, ok, raise}
use lite_database.Std.Decimal.{scan_digits, print_ℕ, print_ℤ, IsDigit, print_ℕ_head}
use lite_database.Std.Stream.{
  skip_space, read_sign, starts_digit, EndsNumber, scan-print_ℕ, starts_digit-print_ℕ,
  skip_space-digit,
}

-- The integer that begins behind the white space.
unfoldable pub convert : ℕ → Bool → Bytes → Outcome ℤ
unfolding scan_digits
convert w neg s =
    let z = signed neg (scan_digits 0 s).0 in
    if starts_digit s
    then if in_signed w z then ok z else raise Error.out_of_range
    else raise Error.invalid_argument

unfoldable pub string_to_int : ℕ → Bytes → Outcome ℤ
unfolding skip_space convert
string_to_int w s = let (neg, r) = read_sign (skip_space s) in convert w neg r

abbrev pub stoi : Bytes → Outcome ℤ
stoi = string_to_int 32

abbrev pub stol : Bytes → Outcome ℤ
stol = string_to_int 32

abbrev pub stoll : Bytes → Outcome ℤ
stoll = string_to_int 64

convert-print_ℕ :
    (w : ℕ) (neg : Bool) (n : ℕ) (r : Bytes)
    → EndsNumber r
    → in_signed w (signed neg n) ≡ true
    → convert w neg (print_ℕ n ++ r) ≡ ok (signed neg n)
unfolding convert
convert-print_ℕ w neg n r h fits = rw (scan-print_ℕ n r h, starts_digit-print_ℕ n r, fits)

string_to_int_digit :
    (w c : ℕ) (s : Bytes) → IsDigit c → string_to_int w (c ∷ s) ≡ convert w false (c ∷ s)
unfolding string_to_int
string_to_int_digit w c s d = let (same, no_sign) = skip_space-digit c s d in rw (same, no_sign)

-- A printed natural number is read as itself.
pub string_to_int-print_ℕ :
    (w n : ℕ) (r : Bytes)
    → EndsNumber r
    → in_signed w (pos n) ≡ true
    → string_to_int w (print_ℕ n ++ r) ≡ ok (pos n)
string_to_int-print_ℕ w n r h fits =
    let (c, s, e, d) = print_ℕ_head n in
    let first : string_to_int w (print_ℕ n ++ r) ≡ convert w false (print_ℕ n ++ r) =
      rw e (string_to_int_digit w c (s ++ r) d) in
    first ∙ convert-print_ℕ w false n r h fits

stoi_overflow : stoi (codes " 2147483648") ≡ raise Error.out_of_range
unfolding string_to_int
stoi_overflow = refl

stoi_no_digits : stoi (codes "-") ≡ raise Error.invalid_argument
unfolding string_to_int
stoi_no_digits = refl

convert_printed :
    (w : ℕ) (neg : Bool) (n : ℕ)
    → convert w neg (print_ℕ n)
      ≡ (if in_signed w (signed neg n) then ok (signed neg n) else raise Error.out_of_range)
unfolding convert
convert_printed w neg n =
    let scanned : scan_digits 0 (print_ℕ n) ≡ (n, []) = simp append-nil at (scan-print_ℕ n [] tt) in
    let begins : starts_digit (print_ℕ n) ≡ true = simp append-nil at (starts_digit-print_ℕ n []) in
    rw (scanned, begins) refl

-- Reading a printed integer gives that integer, or throws if the type cannot hold it.
pub string_to_int-print_ℤ :
    (w : ℕ) (z : ℤ)
    → string_to_int w (print_ℤ z) ≡ (if in_signed w z then ok z else raise Error.out_of_range)
unfolding print_ℤ
string_to_int-print_ℤ w (pos n) =
    let (c, s, e, d) = print_ℕ_head n in
    let first : string_to_int w (print_ℕ n) ≡ convert w false (print_ℕ n) =
      rw e (string_to_int_digit w c s d) in
    first ∙ convert_printed w false n
string_to_int-print_ℤ w (negsuc n) =
    let same : signed true (n + 1) ≡ negsuc n = ground arith in
    unfold string_to_int skip_space in convert_printed w true (n + 1) ∙ rw same refl
