-- ===== src/Utils/Arguments.antt =====
-- `class ConnectionArgs` of headers/Utils.h and Core/Utils.cpp.
use lite_database.Common.{
  Bool, ◌&&◌, not, none, some, List, [], ◌∷◌, Bytes, codes, if◌then◌else◌, ℤ,
}
use lite_database.Exception.{Exception, build}
use lite_database.Outcome.{Outcome, ok, throw}
use lite_database.Std.Map.{Map, lookup, contains, insert_all}
use lite_database.TypeIds.{TypeId}
use lite_database.Any.{Any, is_string, is_integer, is_type, as_bool, get_as}
use lite_database.Any.Numbers.{FloatOps, IntType, int_target, get_integer}
use lite_database.Any.Text.{get_string}

abbrev pub ConnectionArgs : Type 0
ConnectionArgs = Map Any

-- The constructor from an initializer list.
unfoldable pub connection_args : List (Bytes × Any) → ConnectionArgs
connection_args il = insert_all il []

-- The exceptions of the readers: of an argument that is not there, and of one with another type.
abbrev pub not_found : Bytes → Bytes → Exception
not_found kind key = build (codes "Connection argument not found(" ∷ kind ∷ codes "): " ∷ key ∷ [])

abbrev pub wrong_argument : Bytes → Exception
wrong_argument key =
    build (codes "The type of connection argument '" ∷ key ∷ codes "' is wrong!" ∷ [])

-- What the three readers share: the two guards, then the test of the value's type and its reader.
unfoldable pub argument :
    {A : Type 0}
    → Bytes
    → (Any → Bool)
    → (Any → Outcome A)
    → Bytes
    → Bool
    → A
    → ConnectionArgs
    → Outcome A
argument kind accepts read key option def args =
    if not option && not (contains key args)
    then throw (not_found kind key)
    else if not (contains key args)
    then ok def
    else elim (lookup key args) [
      | none ↦ throw (wrong_argument key)
      | some a ↦ if accepts a then read a else throw (wrong_argument key)
    ]

unfoldable pub get_string_arg : FloatOps → Bytes → Bool → Bytes → ConnectionArgs → Outcome Bytes
unfolding argument
get_string_arg ops = argument (codes "string") is_string (get_string ops)

unfoldable pub get_int_arg : FloatOps → Bytes → Bool → ℤ → ConnectionArgs → Outcome ℤ
unfolding argument
get_int_arg ops = argument (codes "int") is_integer (get_integer (int_target ops IntType.int))

unfoldable pub get_bool_arg : Bytes → Bool → Bool → ConnectionArgs → Outcome Bool
unfolding argument
get_bool_arg = argument (codes "bool") (is_type TypeId.bool) (get_as TypeId.bool as_bool)
