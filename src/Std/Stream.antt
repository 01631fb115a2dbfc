-- ===== src/Std/Stream.antt =====
-- Formatted reading from a `std::istringstream` and the number readers of `<string>`.
pub mod Padded
use lite_database.Common.{
  ℕ, ◌+◌, ◌-◌, ◌^◌, ◌≡◌, refl, ◌∙◌, Bool, true, false, not, ◌&&◌, ◌||◌, [], ◌∷◌, ◌++◌, arith, Bytes,
  ◌==◌, leb, if◌then◌else◌, ℤ, pos, negsuc, signed, IsSigned, in_signed,
}
use lite_database.Std.Decimal.{
  scan_digits_end, is_digit, IsDigit, scan_digits, print_ℕ, print_ℤ, scan_digits-print_ℕ,
  print_ℕ_head,
}

-- The unread bytes, and `eofbit` and `failbit`.
pub record Stream : Type 0 where
  pub rest : Bytes
  pub eof : Bool
  pub fail : Bool

-- A stream that is `good()` on the text.
abbrev pub opened : Bytes → Stream
opened s = record { rest = s; eof = false; fail = false }

abbrev pub good : Stream → Bool
good s = not s.eof && not s.fail

-- `isspace` in the "C" locale.
abbrev pub is_space : ℕ → Bool
is_space c = (c == b' ') || (leb 9 c && leb c 13)

unfoldable pub skip_space : Bytes → Bytes
skip_space [] = []
skip_space (c ∷ s) = if is_space c then skip_space s else c ∷ s

-- An optional sign: whether it is a minus, and what follows it.
abbrev pub read_sign : Bytes → Bool × Bytes
read_sign [] = (false, [])
read_sign (c ∷ s) =
    if c == b'-' then (true, s) else if c == b'+' then (false, s) else (false, c ∷ s)

abbrev pub starts_digit : Bytes → Bool
starts_digit [] = false
starts_digit (c ∷ s) = is_digit c

abbrev pub is_nil : Bytes → Bool
is_nil [] = true
is_nil (c ∷ s) = false

-- The greatest or the least w-bit integer: what a reader stores on overflow.
abbrev pub saturated : ℕ → ℤ → ℤ
saturated w (pos n) = pos (2 ^ (w - 1) - 1)
saturated w (negsuc n) = negsuc (2 ^ (w - 1) - 1)

-- What the digits behind a sign give to `>>`: the value stored, what is left, and `failbit`.
pub read_digits : Bool → Bytes → ℤ × Stream
unfolding scan_digits
read_digits neg s =
    let (n, r) = scan_digits 0 s in
    let z = signed neg n in
    if starts_digit s
    then if in_signed 32 z
      then (z, record { rest = r; eof = is_nil r; fail = false })
      else (saturated 32 z, record { rest = r; eof = is_nil r; fail = true })
    else (pos 0, record { rest = r; eof = is_nil r; fail = true })

-- A field that follows the white space.
pub read_field : ℤ → Bytes → ℤ × Stream
unfolding read_digits
read_field old [] = (old, record { rest = []; eof = true; fail = true })
read_field old (c ∷ s) = let (neg, r) = read_sign (c ∷ s) in read_digits neg r

-- `stream >> i` for an `int i`. A stream that is not good, or that has nothing but white space
-- left, leaves `i` as it was.
unfoldable pub extract_int : ℤ → Stream → ℤ × Stream
unfolding read_field skip_space
extract_int old s =
    if good s then read_field old (skip_space s.rest) else (old, record s { fail = true })

abbrev ignored : Bytes → Stream
ignored [] = record { rest = []; eof = true; fail = false }
ignored (c ∷ s) = opened s

-- `stream.ignore()`: drops one byte.
unfoldable pub ignore : Stream → Stream
ignore s = if good s then ignored s.rest else record s { fail = true }

-- What may follow a number in the texts here: nothing, or a byte that is no digit.
abbrev pub EndsNumber : Bytes → Type 0
EndsNumber [] = Unit
EndsNumber (c ∷ s) = is_digit c ≡ false

-- The stream behind a number that was read well.
abbrev pub behind : Bytes → Stream
behind r = record { rest = r; eof = is_nil r; fail = false }

pub scan-print_ℕ : (n : ℕ) (r : Bytes) → EndsNumber r → scan_digits 0 (print_ℕ n ++ r) ≡ (n, r)
scan-print_ℕ n [] h = scan_digits-print_ℕ n [] ∙ unfold scan_digits in refl
scan-print_ℕ n (c ∷ s) h = scan_digits-print_ℕ n (c ∷ s) ∙ scan_digits_end n c s h

pub starts_digit-print_ℕ : (n : ℕ) (r : Bytes) → starts_digit (print_ℕ n ++ r) ≡ true
starts_digit-print_ℕ n r = let (c, s, e, d) = print_ℕ_head n in rw e (ground arith)

read_digits-print_ℕ :
    (neg : Bool) (n : ℕ) (r : Bytes)
    → EndsNumber r
    → in_signed 32 (signed neg n) ≡ true
    → read_digits neg (print_ℕ n ++ r) ≡ (signed neg n, behind r)
unfolding read_digits
read_digits-print_ℕ neg n r h fits = rw (scan-print_ℕ n r h, starts_digit-print_ℕ n r, fits)

pub skip_space-digit :
    (c : ℕ) (s : Bytes)
    → IsDigit c
    → (skip_space (c ∷ s) ≡ c ∷ s) × (read_sign (c ∷ s) ≡ (false, c ∷ s))
unfolding skip_space
skip_space-digit c s d = (ground arith, ground arith)

extract_int_digit :
    (old : ℤ) (c : ℕ) (s : Bytes)
    → IsDigit c
    → extract_int old (opened (c ∷ s)) ≡ read_digits false (c ∷ s)
unfolding extract_int
extract_int_digit old c s d =
    let (same, no_sign) = skip_space-digit c s d in rw same (rw (no_sign, read_field))

extract_int-pos :
    (old : ℤ) (n : ℕ) (r : Bytes)
    → EndsNumber r
    → IsSigned 32 (pos n)
    → extract_int old (opened (print_ℕ n ++ r)) ≡ (pos n, behind r)
extract_int-pos old n r h fits =
    let (c, s, e, d) = print_ℕ_head n in
    let first : extract_int old (opened (print_ℕ n ++ r)) ≡ read_digits false (print_ℕ n ++ r) =
      rw e (extract_int_digit old c (s ++ r) d) in
    first ∙ read_digits-print_ℕ false n r h (ground arith)

-- A number that was printed is read back from a good stream, whatever the variable held before.
pub extract_int-print_ℤ :
    (old : ℤ) (z : ℤ) (r : Bytes)
    → IsSigned 32 z
    → EndsNumber r
    → extract_int old (opened (print_ℤ z ++ r)) ≡ (z, behind r)
unfolding print_ℤ
extract_int-print_ℤ old (pos n) r fits h = extract_int-pos old n r h fits
extract_int-print_ℤ old (negsuc n) r fits h =
    unfold extract_int in read_digits-print_ℕ true (n + 1) r h (ground arith) ∙ ground arith
