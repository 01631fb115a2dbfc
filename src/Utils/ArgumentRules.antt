-- ===== src/Utils/ArgumentRules.antt =====
-- Core/Utils.cpp, `class ConnectionArgs`: what the readers return, for every list of arguments.
use lite_database.Common.{
  ◌≡◌, refl, ◌∙◌, Bool, Option, none, some, List, [], ◌∷◌, arith, Bytes, codes, if◌then◌else◌, ℤ,
  residue, Option-cases, inl, inr,
}
use lite_database.Outcome.{Outcome, ok, throw}
use lite_database.Std.Map.{lookup, contains-lookup, lookup-insert_all}
use lite_database.Any.{Any, as_bool, get_as, is_string, is_integer, is_type}
use lite_database.Any.Numbers.{FloatOps, IntType, int_target, get_integer, cast}
use lite_database.Any.Text.{get_string}
use lite_database.TypeIds.{TypeId}
use lite_database.Utils.Arguments.{
  connection_args, argument, not_found, wrong_argument, get_string_arg, get_int_arg, get_bool_arg,
}

-- The first argument of the list with the key.
lookup-connection_args :
    (il : List (Bytes × Any)) (key : Bytes) → lookup key (connection_args il) ≡ lookup key il
unfolding connection_args
lookup-connection_args il key = lookup-insert_all il [] key ∙ unfold lookup in refl

module _ {A : Type 0} (kind : Bytes) (accepts : Any → Bool) (read : Any → Outcome A) where
  -- A reader's result, by the first argument that has the key.
  pub argument_lem :
      (il : List (Bytes × Any)) (key : Bytes) (option : Bool) (def : A)
      → argument kind accepts read key option def (connection_args il) ≡ elim (lookup key il) [
        | none ↦ if option then ok def else throw (not_found kind key)
        | some a ↦ if accepts a then read a else throw (wrong_argument key)
      ]
  unfolding argument
  argument_lem il key option def =
      let e = lookup-connection_args il key in
      rw (contains-lookup key (connection_args il)) (
        rw e (elim (Option-cases (lookup key il)) [
          | inl missing ↦ rw missing (ground arith)
          | inr (a, found) ↦ rw found (ground arith)
        ]))

-- The arguments that each reader takes, constructor by constructor.
abbrev pub string_arg : Bytes → Any → Outcome Bytes
string_arg key (Any.char z) = ok (residue 8 z ∷ [])
string_arg key (Any.char_ptr s) = ok s
string_arg key (Any.const_char_ptr s) = ok s
string_arg key (Any.std_string s) = ok s
string_arg key (Any.std_string_ptr s) = ok s
string_arg key (Any.const_std_string_ptr s) = ok s
string_arg key _ = throw (wrong_argument key)

abbrev pub int_arg : Bytes → Any → Outcome ℤ
int_arg key (Any.char z) = ok (cast IntType.int z)
int_arg key (Any.unsigned_char z) = ok (cast IntType.int z)
int_arg key (Any.short z) = ok (cast IntType.int z)
int_arg key (Any.unsigned_short z) = ok (cast IntType.int z)
int_arg key (Any.int z) = ok (cast IntType.int z)
int_arg key (Any.unsigned_int z) = ok (cast IntType.int z)
int_arg key (Any.long_long z) = ok (cast IntType.int z)
int_arg key (Any.unsigned_long_long z) = ok (cast IntType.int z)
int_arg key _ = throw (wrong_argument key)

abbrev pub bool_arg : Bytes → Any → Outcome Bool
bool_arg key (Any.bool b) = ok b
bool_arg key _ = throw (wrong_argument key)

read_string :
    (ops : FloatOps) (key : Bytes) (a : Any)
    → (if is_string a then get_string ops a else throw (wrong_argument key)) ≡ string_arg key a
unfolding is_string get_string
read_string ops key (Any.char z) = refl
read_string ops key a = refl

read_int :
    (ops : FloatOps) (key : Bytes) (a : Any)
    → (if is_integer a
        then get_integer (int_target ops IntType.int) a
        else throw (wrong_argument key))
      ≡ int_arg key a
unfolding is_integer get_integer
read_int ops key (Any.char z) = refl
read_int ops key a = refl

read_bool :
    (key : Bytes) (a : Any)
    → (if is_type TypeId.bool a then get_as TypeId.bool as_bool a else throw (wrong_argument key))
      ≡ bool_arg key a
unfolding is_type get_as
read_bool key (Any.bool b) = refl
read_bool key a = refl

-- The result of a reader: the default or an exception if the key is not there, and otherwise what
-- `take` makes of the first value given for the key.
abbrev pub answer :
    {A : Type 0}
    → Bytes
    → (Bytes → Any → Outcome A)
    → List (Bytes × Any)
    → Bytes
    → Bool
    → A
    → Outcome A
answer kind take il key option def = elim (lookup key il) [
  | none ↦ if option then ok def else throw (not_found kind key)
  | some a ↦ take key a
]

answer_lem :
    {A : Type 0} (kind : Bytes) (accepts : Any → Bool) (read : Any → Outcome A)
    (take : Bytes → Any → Outcome A) (il : List (Bytes × Any)) (key : Bytes) (option : Bool)
    (def : A)
    → ((a : Any) → (if accepts a then read a else throw (wrong_argument key)) ≡ take key a)
    → argument kind accepts read key option def (connection_args il)
      ≡ answer kind take il key option def
answer_lem kind accepts read take il key option def h =
    argument_lem kind accepts read il key option def ∙ pointwise (lookup key il) h
  where
    pointwise :
        (o : Option Any)
        → ((a : Any) → (if accepts a then read a else throw (wrong_argument key)) ≡ take key a)
        → (elim o [
          | none ↦ if option then ok def else throw (not_found kind key)
          | some a ↦ if accepts a then read a else throw (wrong_argument key)
        ])
          ≡ elim o [
            | none ↦ if option then ok def else throw (not_found kind key)
            | some a ↦ take key a
          ]
    pointwise none g = refl
    pointwise (some a) g = g a

-- The three readers of connection arguments: a missing key gives the default if it is optional and
-- throws if not, a value of a type that the reader does not take throws, and any other is returned,
-- an integer as an `int`; of two values given for one key the first counts.
pub readers_lem :
    (ops : FloatOps) (il : List (Bytes × Any)) (key : Bytes) (option : Bool) (s : Bytes) (z : ℤ)
    (b : Bool)
    → let args = connection_args il in
      (get_string_arg ops key option s args ≡ answer (codes "string") string_arg il key option s)
      × (get_int_arg ops key option z args ≡ answer (codes "int") int_arg il key option z)
      × (get_bool_arg key option b args ≡ answer (codes "bool") bool_arg il key option b)
unfolding get_string_arg get_int_arg get_bool_arg
readers_lem ops il key option s z b = (
  answer_lem (codes "string") is_string (get_string ops) string_arg il key option s
      (read_string ops key),
  answer_lem (codes "int") is_integer (get_integer (int_target ops IntType.int)) int_arg il key
      option z (read_int ops key),
  answer_lem (codes "bool") (is_type TypeId.bool) (get_as TypeId.bool as_bool) bool_arg il key
      option b (read_bool key),
)
