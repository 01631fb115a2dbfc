-- ===== src/Common/Integers.antt =====
-- Signed integers over the native numbers: the order, and the casts between the integer types.
use Prim.Native.Nat.{ℕ, ◌-◌, ◌%◌, ◌^◌, ◌<◌}
use mathlib.Core.Path.{◌≡◌}
use mathlib.Core.Bool.{Bool, true, false}
use native.Mathlib.Omega.{arith}
use lite_database.Common.Tests.{ltb, ◌==◌, if◌then◌else◌}

-- `negsuc n` is -(n + 1).
pub data ℤ : Type 0 where
  pos : ℕ → ℤ
  negsuc : ℕ → ℤ

-- The integer with the given sign and magnitude; there is one zero.
abbrev pub signed : Bool → ℕ → ℤ
signed false n = pos n
signed true n = if n == 0 then pos 0 else negsuc (n - 1)

-- The representatives of a residue modulo 2^w, without and with a sign bit.
abbrev pub residue : ℕ → ℤ → ℕ
residue w (pos n) = n % 2 ^ w
residue w (negsuc n) = 2 ^ w - 1 - n % 2 ^ w

abbrev pub with_sign : ℕ → ℕ → ℤ
with_sign w r = if ltb r (2 ^ (w - 1)) then pos r else negsuc (2 ^ w - 1 - r)

-- What a w-bit signed or unsigned type can hold.
abbrev pub IsSigned : ℕ → ℤ → Type 0
IsSigned w (pos n) = n < 2 ^ (w - 1)
IsSigned w (negsuc n) = n < 2 ^ (w - 1)

abbrev pub in_signed : ℕ → ℤ → Bool
in_signed w (pos n) = ltb n (2 ^ (w - 1))
in_signed w (negsuc n) = ltb n (2 ^ (w - 1))

abbrev pub eq_ℤ : ℤ → ℤ → Bool
eq_ℤ (pos a) (pos b) = a == b
eq_ℤ (negsuc a) (negsuc b) = a == b
eq_ℤ _ _ = false

pub eq_ℤ_refl : (a : ℤ) → eq_ℤ a a ≡ true
eq_ℤ_refl (pos n) = ground arith
eq_ℤ_refl (negsuc n) = ground arith
