-- ===== src/Exception.antt =====
-- `class Exception` of headers/Utils.h and Core/Utils.cpp. The member `msg` of the class is a
-- pointer that nothing reads, so an exception is its three readable parts.
use lite_database.Common.{
  Bool, true, false, [], ◌∷◌, ◌++◌, List, Bytes, codes, if◌then◌else◌, ℤ, negsuc, eq_ℤ,
}
use lite_database.Std.Decimal.{print_ℤ}
use lite_database.DatabaseType.{DatabaseType, database_type_to_string}

pub record Exception : Type 0 where
  pub dt : DatabaseType
  pub errcode : ℤ
  -- what `std::exception` holds
  pub text : Bytes

-- `dt != DatabaseType::UNKNOWN`.
abbrev pub is_known : DatabaseType → Bool
is_known DatabaseType.unknown = false
is_known _ = true

abbrev pub or_empty : Bytes → Bytes
or_empty [] = codes "Empty exception"
or_empty (c ∷ s) = c ∷ s

-- `Exception::toString`.
unfoldable pub to_string : Bytes → ℤ → DatabaseType → Bytes
to_string msg errc dt =
    (if is_known dt then database_type_to_string dt else codes "LLDB")
    ++ ((if eq_ℤ errc (negsuc 0) then [] else b'[' ∷ (print_ℤ errc ++ b']' ∷ []))
        ++ (codes ": " ++ or_empty msg))

-- The constructor, of a literal or of a string.
unfoldable pub new_exception : Bytes → ℤ → DatabaseType → Exception
new_exception msg errc dt = record { dt = dt; errcode = errc; text = to_string msg errc dt }

unfoldable pub get_database_type : Exception → DatabaseType
get_database_type e = e.dt

unfoldable pub code : Exception → ℤ
code e = e.errcode

unfoldable pub what : Exception → Bytes
what e = e.text

-- `appendStream`: the arguments' prints, one behind the other.
unfoldable pub append_stream : List Bytes → Bytes
append_stream [] = []
append_stream (v ∷ args) = v ++ append_stream args

-- `Exception::build`: the default code and type.
unfoldable pub build : List Bytes → Exception
build args = new_exception (append_stream args) (negsuc 0) DatabaseType.unknown
