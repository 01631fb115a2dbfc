-- ===== src/TypeIds.antt =====
-- headers/TypeIDs.h: the hash codes by which Core/Any.cpp and headers/Any.h switch on the type of a
-- value. `type_info` is that of Microsoft's runtime on 64-bit Windows: a type is known by its
-- decorated name, and `hash_code()` is the FNV-1a hash of that name, its upper half folded in.
pub mod Hashes
use lite_database.Common.{
  ℕ, ◌+◌, ◌*◌, ◌/◌, ◌%◌, ◌^◌, bit_xor, Bool, true, false, Option, none, some, List, [], ◌∷◌, ◌++◌,
  Bytes, codes, ◌==◌, str_eq,
}

-- The types that the header names, and the others that the library stores in an `Any`.
pub data TypeId : Type 0 where
  bool char char_ptr const_bool_ptr const_char_ptr double float int long long_long : TypeId
  short std_string const_std_string_ptr unsigned_char unsigned_int unsigned_long : TypeId
  unsigned_long_long unsigned_short std_string_ptr : TypeId
  date time date_time void_ptr void : TypeId

-- The macros of the header; a `const` type has the code of the type itself.
unfoldable pub hashcode : TypeId → Option ℕ
hashcode TypeId.bool = some 671907190918037511
hashcode TypeId.char = some 12638219084838855839
hashcode TypeId.char_ptr = some 17651634549964990482
hashcode TypeId.const_bool_ptr = some 9235036615271127602
hashcode TypeId.const_char_ptr = some 17648624087129316105
hashcode TypeId.double = some 12638230079955414429
hashcode TypeId.float = some 12638226781420530164
hashcode TypeId.int = some 12638232278978672507
hashcode TypeId.long = some 12638234478001926865
hashcode TypeId.long_long = some 671911588964549323
hashcode TypeId.short = some 12638221283862108789
hashcode TypeId.std_string = some 10283618467285603348
hashcode TypeId.const_std_string_ptr = some 1834653525535884014
hashcode TypeId.unsigned_char = some 12638217985327228012
hashcode TypeId.unsigned_int = some 12638231179467044040
hashcode TypeId.unsigned_long = some 12638233378490299814
hashcode TypeId.unsigned_long_long = some 671912688476192120
hashcode TypeId.unsigned_short = some 12638220184350483914
hashcode TypeId.std_string_ptr = some 12085272788949009172
hashcode _ = none

abbrev string_name : Bytes
string_name = codes "V?$basic_string@DU?$char_traits@D@std@@V?$allocator@D@2@@std@@"

-- The decorated name of a type.
unfoldable pub raw_name : TypeId → Bytes
raw_name TypeId.bool = codes "_N"
raw_name TypeId.char = codes "D"
raw_name TypeId.char_ptr = codes "PEAD"
raw_name TypeId.const_bool_ptr = codes "PEB_N"
raw_name TypeId.const_char_ptr = codes "PEBD"
raw_name TypeId.double = codes "N"
raw_name TypeId.float = codes "M"
raw_name TypeId.int = codes "H"
raw_name TypeId.long = codes "J"
raw_name TypeId.long_long = codes "_J"
raw_name TypeId.short = codes "F"
raw_name TypeId.std_string = codes "?A" ++ string_name
raw_name TypeId.const_std_string_ptr = codes "PEB" ++ string_name
raw_name TypeId.unsigned_char = codes "E"
raw_name TypeId.unsigned_int = codes "I"
raw_name TypeId.unsigned_long = codes "K"
raw_name TypeId.unsigned_long_long = codes "_K"
raw_name TypeId.unsigned_short = codes "G"
raw_name TypeId.std_string_ptr = codes "PEA" ++ string_name
raw_name TypeId.date = codes "?AUDate@@"
raw_name TypeId.time = codes "?AUTime@@"
raw_name TypeId.date_time = codes "?AUDateTime@@"
raw_name TypeId.void_ptr = codes "PEAX"
raw_name TypeId.void = codes "X"

abbrev string_class : Bytes
string_class =
    codes "class std::basic_string<char,struct std::char_traits<char>,class std::allocator<char> >"

-- `name()`, which the messages of exceptions show.
unfoldable pub type_name : TypeId → Bytes
type_name TypeId.bool = codes "bool"
type_name TypeId.char = codes "char"
type_name TypeId.char_ptr = codes "char * __ptr64"
type_name TypeId.const_bool_ptr = codes "bool const * __ptr64"
type_name TypeId.const_char_ptr = codes "char const * __ptr64"
type_name TypeId.double = codes "double"
type_name TypeId.float = codes "float"
type_name TypeId.int = codes "int"
type_name TypeId.long = codes "long"
type_name TypeId.long_long = codes "__int64"
type_name TypeId.short = codes "short"
type_name TypeId.std_string = string_class
type_name TypeId.const_std_string_ptr = string_class ++ codes " const * __ptr64"
type_name TypeId.unsigned_char = codes "unsigned char"
type_name TypeId.unsigned_int = codes "unsigned int"
type_name TypeId.unsigned_long = codes "unsigned long"
type_name TypeId.unsigned_long_long = codes "unsigned __int64"
type_name TypeId.unsigned_short = codes "unsigned short"
type_name TypeId.std_string_ptr = string_class ++ codes " * __ptr64"
type_name TypeId.date = codes "struct Date"
type_name TypeId.time = codes "struct Time"
type_name TypeId.date_time = codes "struct DateTime"
type_name TypeId.void_ptr = codes "void * __ptr64"
type_name TypeId.void = codes "void"

-- FNV-1a over the bytes of a name, in 64 bits.
unfoldable pub fnv_1a : ℕ → Bytes → ℕ
fnv_1a h [] = h
fnv_1a h (c ∷ s) = fnv_1a (bit_xor h c * 1099511628211 % 2 ^ 64) s

-- `type_info::hash_code()`.
unfoldable pub hash_code : TypeId → ℕ
unfolding fnv_1a raw_name
hash_code t = let h = fnv_1a 14695981039346656037 (raw_name t) in bit_xor h (h / 2 ^ 32)

-- `==` of `type_info`.
unfoldable pub same_type : TypeId → TypeId → Bool
unfolding raw_name
same_type t u = str_eq (raw_name t) (raw_name u)

-- `case HASHCODE_U:` in a switch over the hash code `h`.
unfoldable pub case_of : ℕ → TypeId → Bool
unfolding hashcode
case_of h u = elim (hashcode u) [ none ↦ false | some m ↦ h == m ]
