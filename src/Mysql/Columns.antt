-- ===== src/Mysql/Columns.antt =====
-- MySQL/MySQLSession.cpp, `query`: the switch that turns a column's text into a value, by its type.
pub mod Bits
pub mod Reading
pub mod Moments
use lite_database.Common.{
  ℕ, zero, suc, ◌+◌, Bool, true, false, Option, none, some, List, [], ◌∷◌, Bytes, codes, ◌==◌,
  if◌then◌else◌, get_elem?, length, pos,
}
use lite_database.Exception.{Exception, build}
use lite_database.Outcome.{Outcome, ok, raise, throw, undefined, ◌>>=◌}
use lite_database.Std.Map.{emplace}
use lite_database.Std.Convert.{stoi, stol, stoll}
use lite_database.Types.{
  Date, Time, date_from_string, time_from_string, date_time_from_string, contains,
}
use lite_database.Any.{Any}
use lite_database.Any.Numbers.{FloatOps, IntType, cast}
use lite_database.Row.{Row}

-- `enum_field_types`; `other` stands for the types that the switch has no case for.
pub data FieldType : Type 0 where
  null bit date time datetime timestamp decimal double float tiny year short int24 long longlong :
      FieldType
  geometry set enumeration json blob tiny_blob medium_blob long_blob varchar string var_string
        other :
      FieldType

-- What the members of a `Date` and of a `Time` hold before they are read, and the sum that
-- `result += pow(2, i)` computes through `double`.
pub record Blank : Type 0 where
  pub date : Date
  pub time : Time
  pub add_pow : ℕ → ℕ → ℕ

-- A column that is SQL's NULL is a null pointer, which no `std::string` can be made of.
abbrev text_of : Option Bytes → Outcome Bytes
text_of none = undefined
text_of (some s) = ok s

abbrev invalid_character : ℕ → Exception
invalid_character c = build (codes "Invalid character '" ∷ (c ∷ []) ∷ codes "' in the result" ∷ [])

-- The loop over the bits, from the last character down to the first; `i + 1` is its counter.
bit_loop : Blank → Bytes → ℕ → ℕ → Outcome ℕ
bit_loop blank str zero result = ok result
bit_loop blank str (suc i) result =
    let skipped = bit_loop blank str i result in
    let added = bit_loop blank str i (blank.add_pow result i) in
    elim (get_elem? str i) [
      | none ↦ undefined
      | some c ↦
          if c == b'0' then skipped else if c == b'1' then added else throw (invalid_character c)
    ]

unfoldable pub bits : Blank → Bytes → Outcome ℕ
unfolding bit_loop
bits blank str = bit_loop blank str (length str) 0

-- A DECIMAL, which may be an integer.
abbrev decimal_value : FloatOps → Bytes → Outcome Any
decimal_value ops str =
    if contains str b'.'
    then (do x ← ops.string_to_double str; ok (Any.double x))
    else (do z ← stoll str; ok (Any.long_long z))

-- The value of a text, by the type.
unfoldable pub text_value : FloatOps → Blank → FieldType → Bytes → Outcome Any
unfolding bits
text_value ops blank FieldType.null str = ok Any.empty
text_value ops blank FieldType.bit str = do n ← bits blank str; ok (Any.unsigned_long_long (pos n))
text_value ops blank FieldType.date str = ok (Any.date (date_from_string blank.date str))
text_value ops blank FieldType.time str = ok (Any.time (time_from_string blank.time str))
text_value ops blank FieldType.datetime str = do
  t ← date_time_from_string blank.date blank.time str
  ok (Any.date_time t)
text_value ops blank FieldType.timestamp str = do
  t ← date_time_from_string blank.date blank.time str
  ok (Any.date_time t)
text_value ops blank FieldType.decimal str = decimal_value ops str
text_value ops blank FieldType.double str = do x ← ops.string_to_double str; ok (Any.double x)
text_value ops blank FieldType.float str = do x ← ops.string_to_double str; ok (Any.double x)
text_value ops blank FieldType.tiny str = do z ← stoi str; ok (Any.char (cast IntType.char z))
text_value ops blank FieldType.year str = do z ← stoi str; ok (Any.int z)
text_value ops blank FieldType.short str = do z ← stoi str; ok (Any.short (cast IntType.short z))
text_value ops blank FieldType.int24 str = do z ← stoi str; ok (Any.int z)
text_value ops blank FieldType.long str = do z ← stol str; ok (Any.long z)
text_value ops blank FieldType.longlong str = do z ← stoll str; ok (Any.long_long z)
text_value ops blank FieldType.other str = throw (build (codes "Invalid field type!" ∷ []))
text_value ops blank _ str = ok (Any.std_string str)

-- The switch; two of its cases do not read the column.
unfoldable pub column_value : FloatOps → Blank → FieldType → Option Bytes → Outcome Any
unfolding text_value
column_value ops blank FieldType.null value = ok Any.empty
column_value ops blank FieldType.other value = throw (build (codes "Invalid field type!" ∷ []))
column_value ops blank t value = do str ← text_of value; text_value ops blank t str

-- The loop over the fields of a row; a field without a column is a read past the row's end.
unfoldable pub row_loop :
    FloatOps → Blank → List (Bytes × FieldType) → List (Option Bytes) → Row → Outcome Row
unfolding column_value
row_loop ops blank [] values row = ok row
row_loop ops blank ((name, t) ∷ fields) [] row = undefined
row_loop ops blank ((name, t) ∷ fields) (value ∷ values) row = do
  val ← column_value ops blank t value
  row_loop ops blank fields values (emplace name val row)
