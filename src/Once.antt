-- ===== src/Once.antt =====
-- `class Once` of headers/Once.h and Core/Once.cpp: a statement that is written piece by piece, the
-- values put in for its placeholders, and the text that goes to the database. `size_t` has 64 bits,
-- and `str[str.size()]` is the zero byte.
pub mod Search
pub mod Collapse
pub mod Holes
pub mod Template
pub mod Keys
pub mod Hazards
pub mod Quotes
use lite_database.Common.{
  ℕ, zero, suc, ◌+◌, ◌-◌, ◌%◌, ◌^◌, Bool, true, false, ◌&&◌, not, Option, none, some, [], ◌∷◌, ◌++◌,
  Bytes, codes, ltb, ◌==◌, if◌then◌else◌, length, get_elem?, take, drop, ℤ, negsuc,
}
use lite_database.Exception.{build}
use lite_database.Outcome.{Outcome, ok, undefined, throw}
use lite_database.Std.Stream.{is_nil}
use lite_database.Std.Text.{find}

pub record Once : Type 0 where
  pub sql : Bytes
  pub executed : Bool
  pub set : Bool
  pub result : ℤ
  pub start : ℕ
  pub heap : Bool

-- `Once::Once`, with the members' default values.
unfoldable pub new_once : Once
new_once = record {
  sql = [];
  executed = false;
  set = false;
  result = negsuc 0;
  start = 0;
  heap = false;
}

-- `once << v`, for a value that prints as the text.
unfoldable pub append : Bytes → Once → Once
append v once = record once { sql = once.sql ++ v }

-- `str[i]`.
abbrev pub byte_at : Bytes → ℕ → ℕ
byte_at str i = elim (get_elem? str i) [ some c ↦ c | none ↦ 0 ]

-- `Once::replace` of a key. `escape` is not looked at.
unfoldable pub replace_key : Bytes → Bytes → Bool → Once → Outcome Once
replace_key k v escape once =
    let sym = codes "${" ++ (k ++ codes "}") in
    elim (find once.sql sym) [
      | none ↦ throw (build (codes "Once::replace: ${" ∷ k ∷ codes "} not found" ∷ []))
      | some p ↦ ok (record once { sql = take p once.sql ++ (v ++ drop (p + length sym) once.sql) })
    ]

-- The loop that looks for the next single question mark from position `i`, and puts `v` in its
-- place; `none` if the loop ends without one. A round moves on by one or two, so fuel above the
-- distance to the end is enough.
pub replace_loop : ℕ → Bytes → ℕ → Bytes → Option Bytes
replace_loop zero str i v = none
replace_loop (suc f) str i v =
    let rest = replace_loop f str (if byte_at str i == b'?' then i + 2 else i + 1) v in
    if ltb i (length str)
    then (if byte_at str i == b'?'
        then (if i + 1 == length str
            then some (take (length str - 1) str ++ v)
            else if not (byte_at str (i + 1) == b'?')
            then some (take i str ++ (v ++ drop (i + 1) str))
            else rest)
        else rest)
    else none

-- `Once::replace` of the next question mark. `escape` is not looked at, and `start += v.size() - 1`
-- wraps around.
unfoldable pub replace_next : Bytes → Bool → Once → Once
replace_next v escape once = elim (replace_loop (suc (length once.sql)) once.sql once.start v) [
  | none ↦ once
  | some str ↦ record once { sql = str; start = (once.start + (length v + 2 ^ 64 - 1)) % 2 ^ 64 }
]

-- `use_type`.
pub record UseType : Type 0 where
  pub escape : Bool
  pub no_key : Bool
  pub key : Bytes
  pub val : Bytes

-- The constructors of `use_type`.
unfoldable pub use_key : Bytes → Bytes → Bool → UseType
use_key k v escape = record { escape = escape; no_key = false; key = k; val = v }

unfoldable pub use_next : Bytes → Bool → UseType
use_next v escape = record { escape = escape; no_key = true; key = []; val = v }

-- `use(k, v, escape)` and `use(v, escape)`, for values that print as the text.
unfoldable pub with_key : Bytes → Bytes → Bool → UseType
unfolding use_key
with_key k v escape = use_key k v escape

unfoldable pub with_value : Bytes → Bool → UseType
unfolding use_next
with_value v escape = use_next v escape

-- `once, u`.
unfoldable pub apply_use : UseType → Once → Outcome Once
apply_use u once =
    if u.no_key
    then ok (replace_next u.val u.escape once)
    else replace_key u.key u.val u.escape once

-- The loop of `getSQL`: of two question marks side by side one is erased.
pub get_sql_loop : ℕ → Bytes → ℕ → Bytes
get_sql_loop zero str i = str
get_sql_loop (suc f) str i =
    let both = (byte_at str i == b'?') && (byte_at str (i + 1) == b'?') in
    let rest = get_sql_loop f (if both then take i str ++ drop (i + 1) str else str) (i + 1) in
    if ltb i (length str - 1) then rest else str

-- `Once::getSQL`. For an empty text `str.size() - 1` wraps around and the loop reads behind the end.
unfoldable pub get_sql : Once → Outcome Bytes
get_sql once =
    if is_nil once.sql then undefined else ok (get_sql_loop (suc (length once.sql)) once.sql 0)

-- `escapeSingleQuote` and `escapeDoubleQuote`: before each `quote` that does not follow a `mark` a
-- `mark` is put. At position 0 the test reads `str[-1]`.
pub escape_loop : ℕ → ℕ → ℕ → Bytes → ℕ → Outcome Bytes
escape_loop quote mark zero str i = ok str
escape_loop quote mark (suc f) str i =
    let put = (byte_at str i == quote) && not (byte_at str (i - 1) == mark) in
    let rest =
      escape_loop quote mark f (if put then take i str ++ mark ∷ drop i str else str)
        (if put then i + 2 else i + 1) in
    if ltb i (length str)
    then (if (byte_at str i == quote) && (i == 0) then undefined else rest)
    else ok str

unfoldable pub escape_single_quote : Bytes → Outcome Bytes
escape_single_quote str = escape_loop b'\'' b'\'' (suc (length str)) str 0

unfoldable pub escape_double_quote : Bytes → Outcome Bytes
escape_double_quote str = escape_loop b'"' b'\\' (suc (length str)) str 0
