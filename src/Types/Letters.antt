-- ===== src/Types/Letters.antt =====
-- Which bytes the texts of Core/Mess.cpp hold.
use lite_database.Common.{
  ℕ, ◌+◌, ◌≡◌, ◌≢◌, refl, inl, inr, Bool-cases, eq_ℤ, true, false, [], ◌∷◌, ◌++◌, arith, Bytes, ℤ,
  pos, negsuc, All, All-append, Lacks,
}
use lite_database.Std.Decimal.{is_digit, IsDigit, print_ℕ, print_ℤ, print_ℕ-All, print_ℕ_head}
use lite_database.Types.{Date, Time, contains, date_to_string, time_to_string, zone_to_string}

pub digits-Lacks : (b : ℕ) (s : Bytes) → is_digit b ≡ false → All IsDigit s → Lacks b s
digits-Lacks b [] h d = tt
digits-Lacks b (c ∷ s) h (dc, ds) = (ground arith, digits-Lacks b s h ds)

-- A printed integer holds digits and at most a dash.
pub print_ℤ-Lacks : (b : ℕ) (z : ℤ) → is_digit b ≡ false → b ≢ b'-' → Lacks b (print_ℤ z)
unfolding print_ℤ
print_ℤ-Lacks b (pos n) h ne = digits-Lacks b (print_ℕ n) h (print_ℕ-All n)
print_ℤ-Lacks b (negsuc n) h ne =
    (ground arith, digits-Lacks b (print_ℕ (n + 1)) h (print_ℕ-All (n + 1)))

abbrev pub IsNonneg : ℤ → Type 0
IsNonneg (pos n) = Unit
IsNonneg (negsuc n) = ⊥

nonneg-Lacks : (b : ℕ) (z : ℤ) → is_digit b ≡ false → IsNonneg z → Lacks b (print_ℤ z)
unfolding print_ℤ
nonneg-Lacks b (pos n) h nn = digits-Lacks b (print_ℕ n) h (print_ℕ-All n)
nonneg-Lacks b (negsuc n) h nn = absurd nn

-- Three texts with a byte between them, none of which is `b`.
pub joined-Lacks :
    (b sep : ℕ) (x y z : Bytes)
    → sep ≢ b
    → Lacks b x
    → Lacks b y
    → Lacks b z
    → Lacks b (x ++ sep ∷ (y ++ sep ∷ z))
joined-Lacks b sep x y z ne hx hy hz = All-append _ x _ hx (ne, All-append _ y _ hy (ne, hz))

pub date-Lacks : (d : Date) → Lacks b' ' (date_to_string d)
unfolding date_to_string
date-Lacks d =
    joined-Lacks b' ' b'-' _ _ _ (omega arith) (print_ℤ-Lacks b' ' d.year refl (omega arith))
      (print_ℤ-Lacks b' ' d.month refl (omega arith)) (print_ℤ-Lacks b' ' d.day refl (omega arith))

pub time-Lacks : (t : Time) → Lacks b' ' (time_to_string t)
unfolding time_to_string
time-Lacks t =
    joined-Lacks b' ' b':' _ _ _ (omega arith) (print_ℤ-Lacks b' ' t.hour refl (omega arith))
      (print_ℤ-Lacks b' ' t.minute refl (omega arith))
      (print_ℤ-Lacks b' ' t.second refl (omega arith))

abbrev pub TimeNonneg : Time → Type 0
TimeNonneg t = IsNonneg t.hour × IsNonneg t.minute × IsNonneg t.second

pub time_no_dash : (t : Time) → TimeNonneg t → Lacks b'-' (time_to_string t)
unfolding time_to_string
time_no_dash t (nh, nm, ns) =
    joined-Lacks b'-' b':' _ _ _ (omega arith) (nonneg-Lacks b'-' t.hour refl nh)
      (nonneg-Lacks b'-' t.minute refl nm) (nonneg-Lacks b'-' t.second refl ns)

pub contains-Lacks : (s : Bytes) (b : ℕ) → Lacks b s → contains s b ≡ false
unfolding contains
contains-Lacks [] b h = refl
contains-Lacks (c ∷ s) b (ne, h) = ground (arith, contains-Lacks s b h)

pub contains_after : (s r : Bytes) (b : ℕ) → contains (s ++ b ∷ r) b ≡ true
unfolding contains
contains_after [] r b = ground arith
contains_after (c ∷ s) r b = ground (arith, contains_after s r b)

pub append_cons-ne-nil : (s r : Bytes) (b : ℕ) → s ++ b ∷ r ≢ []
append_cons-ne-nil [] r b = λ e. cc
append_cons-ne-nil (c ∷ s) r b = λ e. cc

append-ne-nil : (s r : Bytes) → s ≢ [] → s ++ r ≢ []
append-ne-nil [] r h = absurd (h refl)
append-ne-nil (c ∷ s) r h = λ e. cc

pub time-ne-nil : (t : Time) (r : Bytes) → time_to_string t ++ r ≢ []
unfolding time_to_string
time-ne-nil t r =
    append-ne-nil (print_ℤ t.hour ++ b':' ∷ (print_ℤ t.minute ++ b':' ∷ print_ℤ t.second)) r
      (append_cons-ne-nil (print_ℤ t.hour) (print_ℤ t.minute ++ b':' ∷ print_ℤ t.second) b':')

pub zone-Lacks : (z : ℤ) → Lacks b' ' (zone_to_string z)
unfolding zone_to_string
zone-Lacks z = elim (Bool-cases (eq_ℤ z (negsuc 0))) [
  | inl e ↦ rw e tt
  | inr e ↦ rw e (omega arith, print_ℤ-Lacks b' ' z refl (omega arith))
]

pub print_ℕ_no_dash : (n : ℕ) → Lacks b'-' (print_ℕ n)
print_ℕ_no_dash n = digits-Lacks b'-' (print_ℕ n) refl (print_ℕ-All n)

pub print_ℕ-ne-nil : (n : ℕ) → print_ℕ n ≢ []
print_ℕ-ne-nil n = let (c, s, e, d) = print_ℕ_head n in λ h. cc
