-- ===== src/Mysql/Columns/Reading.antt =====
-- MySQL/MySQLSession.cpp, `query`: what the columns of the integer types, and of DECIMAL with whole
-- numbers, become, for the texts that the server writes for them.
use lite_database.Common.{
  residue, ◌∙◌, ℕ, ◌≡◌, refl, Bool, true, false, some, arith, if◌then◌else◌, ℤ, pos, negsuc,
  in_signed, IsSigned, ◌⊎◌, inl, inr, Bool-cases,
}
use lite_database.Outcome.{Error, ok, raise, ◌>>=◌}
use lite_database.Std.Decimal.{print_ℤ}
use lite_database.Std.Convert.{string_to_int, string_to_int-print_ℤ}
use lite_database.Any.{Any}
use lite_database.Any.Numbers.{FloatOps, IntType, int_target, get_number, cast, bits}
use lite_database.Any.Conversions.{integer_of, cast_exact, cast-Fits, Fits, get_number_exact}
use lite_database.Types.Letters.{print_ℤ-Lacks, contains-Lacks}
use lite_database.Mysql.Columns.{FieldType, Blank, column_value, text_value}

-- The column types of whole numbers, and DECIMAL, which may hold one.
pub data IntColumn : Type 0 where
  tiny short year int24 long longlong decimal : IntColumn

abbrev pub field_type : IntColumn → FieldType
field_type IntColumn.tiny = FieldType.tiny
field_type IntColumn.short = FieldType.short
field_type IntColumn.year = FieldType.year
field_type IntColumn.int24 = FieldType.int24
field_type IntColumn.long = FieldType.long
field_type IntColumn.longlong = FieldType.longlong
field_type IntColumn.decimal = FieldType.decimal

-- The bits that the text is read with.
abbrev pub scanned : IntColumn → ℕ
scanned IntColumn.longlong = 64
scanned IntColumn.decimal = 64
scanned _ = 32

-- The integer type that the number is kept in.
abbrev pub kept_in : IntColumn → IntType
kept_in IntColumn.tiny = IntType.char
kept_in IntColumn.short = IntType.short
kept_in IntColumn.longlong = IntType.long_long
kept_in IntColumn.decimal = IntType.long_long
kept_in _ = IntType.int

-- The number of the type that is congruent to `z` modulo two to the power of its bits.
pub IsWrapped : IntType → ℤ → ℤ → Type 0
IsWrapped t z v = Fits t v × (residue (bits t) v ≡ residue (bits t) z)

-- The value of a number.
abbrev pub made : IntColumn → ℤ → Any
made IntColumn.tiny z = Any.char z
made IntColumn.short z = Any.short z
made IntColumn.year z = Any.int z
made IntColumn.int24 z = Any.int z
made IntColumn.long z = Any.long z
made IntColumn.longlong z = Any.long_long z
made IntColumn.decimal z = Any.long_long z

bind_read :
    {A B : Type 0} (b : Bool) (x : A) (e : Error) (f : A → B)
    → ((if b then ok x else raise e) >>= λ y. ok (f y)) ≡ (if b then ok (f x) else raise e)
bind_read true x e f = refl
bind_read false x e f = refl

scan_column :
    (w : ℕ) (z : ℤ) (f : ℤ → Any)
    → (string_to_int w (print_ℤ z) >>= λ y. ok (f y))
      ≡ (if in_signed w z then ok (f z) else raise Error.out_of_range)
scan_column w z f =
    rw (string_to_int-print_ℤ w z) (bind_read (in_signed w z) z Error.out_of_range f)

-- As long as the number is cast to a type that holds all that can be read.
scan_exact :
    (w : ℕ) (t : IntType) (z : ℤ) (f : ℤ → Any)
    → (in_signed w z ≡ true → cast t z ≡ z)
    → (string_to_int w (print_ℤ z) >>= λ y. ok (f y))
      ≡ (if in_signed w z then ok (f (cast t z)) else raise Error.out_of_range)
scan_exact w t z f exact = scan_column w z f ∙ elim (Bool-cases (in_signed w z)) [
  | inl fits ↦ rw (fits, exact fits) refl
  | inr wide ↦ rw wide refl
]

in_signed-IsSigned : (w : ℕ) (z : ℤ) → in_signed w z ≡ true → IsSigned w z
in_signed-IsSigned w (pos n) e = ground arith
in_signed-IsSigned w (negsuc n) e = ground arith

read_int : (z : ℤ) → in_signed 32 z ≡ true → cast IntType.int z ≡ z
read_int z e = cast_exact IntType.int z (in_signed-IsSigned 32 z e)

read_long_long : (z : ℤ) → in_signed 64 z ≡ true → cast IntType.long_long z ≡ z
read_long_long z e = cast_exact IntType.long_long z (in_signed-IsSigned 64 z e)

column_scanned :
    (ops : FloatOps) (blank : Blank) (c : IntColumn) (z : ℤ)
    → column_value ops blank (field_type c) (some (print_ℤ z)) ≡ (
        if in_signed (scanned c) z
        then ok (made c (cast (kept_in c) z))
        else raise Error.out_of_range)
unfolding column_value text_value
column_scanned ops blank IntColumn.tiny z = scan_column 32 z (λ y. Any.char (cast IntType.char y))
column_scanned ops blank IntColumn.short z =
    scan_column 32 z (λ y. Any.short (cast IntType.short y))
column_scanned ops blank IntColumn.year z = scan_exact 32 IntType.int z Any.int (read_int z)
column_scanned ops blank IntColumn.int24 z = scan_exact 32 IntType.int z Any.int (read_int z)
column_scanned ops blank IntColumn.long z = scan_exact 32 IntType.int z Any.long (read_int z)
column_scanned ops blank IntColumn.longlong z =
    scan_exact 64 IntType.long_long z Any.long_long (read_long_long z)
column_scanned ops blank IntColumn.decimal z =
    rw (contains-Lacks (print_ℤ z) b'.' (print_ℤ-Lacks b'.' z refl (omega arith)))
      (scan_exact 64 IntType.long_long z Any.long_long (read_long_long z))

residue-cast :
    (c : IntColumn) (z : ℤ)
    → residue (bits (kept_in c)) (cast (kept_in c) z) ≡ residue (bits (kept_in c)) z
unfolding cast
residue-cast IntColumn.tiny (pos n) = ground arith
residue-cast IntColumn.tiny (negsuc n) = ground arith
residue-cast IntColumn.short (pos n) = ground arith
residue-cast IntColumn.short (negsuc n) = ground arith
residue-cast IntColumn.year (pos n) = ground arith
residue-cast IntColumn.year (negsuc n) = ground arith
residue-cast IntColumn.int24 (pos n) = ground arith
residue-cast IntColumn.int24 (negsuc n) = ground arith
residue-cast IntColumn.long (pos n) = ground arith
residue-cast IntColumn.long (negsuc n) = ground arith
residue-cast IntColumn.longlong (pos n) = ground arith
residue-cast IntColumn.longlong (negsuc n) = ground arith
residue-cast IntColumn.decimal (pos n) = ground arith
residue-cast IntColumn.decimal (negsuc n) = ground arith

-- Every type here has at most the 64 bits of `long long`.
widen : (c : IntColumn) (z : ℤ) → Fits (kept_in c) z → IsSigned 64 z
widen IntColumn.tiny (pos n) h = omega arith
widen IntColumn.tiny (negsuc n) h = omega arith
widen IntColumn.short (pos n) h = omega arith
widen IntColumn.short (negsuc n) h = omega arith
widen IntColumn.year (pos n) h = omega arith
widen IntColumn.year (negsuc n) h = omega arith
widen IntColumn.int24 (pos n) h = omega arith
widen IntColumn.int24 (negsuc n) h = omega arith
widen IntColumn.long (pos n) h = omega arith
widen IntColumn.long (negsuc n) h = omega arith
widen IntColumn.longlong (pos n) h = omega arith
widen IntColumn.longlong (negsuc n) h = omega arith
widen IntColumn.decimal (pos n) h = omega arith
widen IntColumn.decimal (negsuc n) h = omega arith

made_holds : (c : IntColumn) (z : ℤ) → integer_of (made c z) ≡ some z
made_holds IntColumn.tiny z = refl
made_holds IntColumn.short z = refl
made_holds IntColumn.year z = refl
made_holds IntColumn.int24 z = refl
made_holds IntColumn.long z = refl
made_holds IntColumn.longlong z = refl
made_holds IntColumn.decimal z = refl

kept_exact :
    (c : IntColumn) (z : ℤ) → in_signed (bits (kept_in c)) z ≡ true → cast (kept_in c) z ≡ z
kept_exact IntColumn.tiny z e = cast_exact IntType.char z (in_signed-IsSigned 8 z e)
kept_exact IntColumn.short z e = cast_exact IntType.short z (in_signed-IsSigned 16 z e)
kept_exact IntColumn.year z e = cast_exact IntType.int z (in_signed-IsSigned 32 z e)
kept_exact IntColumn.int24 z e = cast_exact IntType.int z (in_signed-IsSigned 32 z e)
kept_exact IntColumn.long z e = cast_exact IntType.int z (in_signed-IsSigned 32 z e)
kept_exact IntColumn.longlong z e = cast_exact IntType.long_long z (in_signed-IsSigned 64 z e)
kept_exact IntColumn.decimal z e = cast_exact IntType.long_long z (in_signed-IsSigned 64 z e)

exact_or_wide :
    (c : IntColumn) (z : ℤ) → (cast (kept_in c) z ≡ z) ⊎ (in_signed (bits (kept_in c)) z ≡ false)
exact_or_wide c z = elim (Bool-cases (in_signed (bits (kept_in c)) z)) [
  | inl fits ↦ inl (kept_exact c z fits)
  | inr wide ↦ inr wide
]

-- The text of a whole number in a column of an integer type or of DECIMAL is read by `std::stoi`,
-- `std::stol` or `std::stoll`, which throw out_of_range for a number that their 32 or 64 bits do not
-- hold, as those above 2^31 - 1 of an unsigned INT. Otherwise the value is made of the number v that
-- the type it is kept in wraps it to, a `char` for TINYINT and a `short` for SMALLINT: congruent to
-- the number, and the number itself if that type holds it. So an unsigned TINYINT above 127 becomes
-- a negative number. The value is read as v again.
pub integer_column_lem :
    (ops : FloatOps) (blank : Blank) (c : IntColumn) (z : ℤ)
    → (v : ℤ) × IsWrapped (kept_in c) z v
      × (column_value ops blank (field_type c) (some (print_ℤ z))
          ≡ (if in_signed (scanned c) z then ok (made c v) else raise Error.out_of_range))
      × ((v ≡ z) ⊎ (in_signed (bits (kept_in c)) z ≡ false))
      × (get_number (int_target ops IntType.long_long) (made c v) ≡ ok v)
unfolding IsWrapped
integer_column_lem ops blank c z =
    let v = cast (kept_in c) z in
    (
      v,
      (cast-Fits (kept_in c) z, residue-cast c z),
      column_scanned ops blank c z,
      exact_or_wide c z,
      get_number_exact ops IntType.long_long (made c v) v (made_holds c v)
          (widen c v (cast-Fits (kept_in c) z)),
    )
