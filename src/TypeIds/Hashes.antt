-- ===== src/TypeIds/Hashes.antt =====
-- headers/TypeIDs.h: every code is the runtime's hash of its type, and no two types share one.
use lite_database.Common.{
  ℕ, ◌≡◌, refl, sym, ap, ◌∙◌, some, ◌==◌, if◌then◌else◌, arith, true, ◌↔◌, ==_iff,
}
use lite_database.TypeIds.{TypeId, hashcode, hash_code, case_of}

-- The hashes of the types, computed.
abbrev computed : TypeId → ℕ
computed TypeId.bool = 671907190918037511
computed TypeId.char = 12638219084838855839
computed TypeId.char_ptr = 17651634549964990482
computed TypeId.const_bool_ptr = 9235036615271127602
computed TypeId.const_char_ptr = 17648624087129316105
computed TypeId.double = 12638230079955414429
computed TypeId.float = 12638226781420530164
computed TypeId.int = 12638232278978672507
computed TypeId.long = 12638234478001926865
computed TypeId.long_long = 671911588964549323
computed TypeId.short = 12638221283862108789
computed TypeId.std_string = 10283618467285603348
computed TypeId.const_std_string_ptr = 1834653525535884014
computed TypeId.unsigned_char = 12638217985327228012
computed TypeId.unsigned_int = 12638231179467044040
computed TypeId.unsigned_long = 12638233378490299814
computed TypeId.unsigned_long_long = 671912688476192120
computed TypeId.unsigned_short = 12638220184350483914
computed TypeId.std_string_ptr = 12085272788949009172
computed TypeId.date = 3751525146447923378
computed TypeId.time = 8539850075608744284
computed TypeId.date_time = 10533473616753589511
computed TypeId.void_ptr = 17651647744104509558
computed TypeId.void = 12638249871164725291

hash_code-computed : (t : TypeId) → hash_code t ≡ computed t
unfolding hash_code
hash_code-computed TypeId.bool = refl
hash_code-computed TypeId.char = refl
hash_code-computed TypeId.char_ptr = refl
hash_code-computed TypeId.const_bool_ptr = refl
hash_code-computed TypeId.const_char_ptr = refl
hash_code-computed TypeId.double = refl
hash_code-computed TypeId.float = refl
hash_code-computed TypeId.int = refl
hash_code-computed TypeId.long = refl
hash_code-computed TypeId.long_long = refl
hash_code-computed TypeId.short = refl
hash_code-computed TypeId.std_string = refl
hash_code-computed TypeId.const_std_string_ptr = refl
hash_code-computed TypeId.unsigned_char = refl
hash_code-computed TypeId.unsigned_int = refl
hash_code-computed TypeId.unsigned_long = refl
hash_code-computed TypeId.unsigned_long_long = refl
hash_code-computed TypeId.unsigned_short = refl
hash_code-computed TypeId.std_string_ptr = refl
hash_code-computed TypeId.date = refl
hash_code-computed TypeId.time = refl
hash_code-computed TypeId.date_time = refl
hash_code-computed TypeId.void_ptr = refl
hash_code-computed TypeId.void = refl

-- Every macro of the header holds the hash code that the runtime gives to its type.
pub hashcode_correct : (t : TypeId) (h : ℕ) → hashcode t ≡ some h → h ≡ hash_code t
unfolding hashcode
hashcode_correct TypeId.bool h e = ground (arith, hash_code-computed TypeId.bool)
hashcode_correct TypeId.char h e = ground (arith, hash_code-computed TypeId.char)
hashcode_correct TypeId.char_ptr h e = ground (arith, hash_code-computed TypeId.char_ptr)
hashcode_correct TypeId.const_bool_ptr h e =
    ground (arith, hash_code-computed TypeId.const_bool_ptr)
hashcode_correct TypeId.const_char_ptr h e =
    ground (arith, hash_code-computed TypeId.const_char_ptr)
hashcode_correct TypeId.double h e = ground (arith, hash_code-computed TypeId.double)
hashcode_correct TypeId.float h e = ground (arith, hash_code-computed TypeId.float)
hashcode_correct TypeId.int h e = ground (arith, hash_code-computed TypeId.int)
hashcode_correct TypeId.long h e = ground (arith, hash_code-computed TypeId.long)
hashcode_correct TypeId.long_long h e = ground (arith, hash_code-computed TypeId.long_long)
hashcode_correct TypeId.short h e = ground (arith, hash_code-computed TypeId.short)
hashcode_correct TypeId.std_string h e = ground (arith, hash_code-computed TypeId.std_string)
hashcode_correct TypeId.const_std_string_ptr h e =
    ground (arith, hash_code-computed TypeId.const_std_string_ptr)
hashcode_correct TypeId.unsigned_char h e = ground (arith, hash_code-computed TypeId.unsigned_char)
hashcode_correct TypeId.unsigned_int h e = ground (arith, hash_code-computed TypeId.unsigned_int)
hashcode_correct TypeId.unsigned_long h e = ground (arith, hash_code-computed TypeId.unsigned_long)
hashcode_correct TypeId.unsigned_long_long h e =
    ground (arith, hash_code-computed TypeId.unsigned_long_long)
hashcode_correct TypeId.unsigned_short h e =
    ground (arith, hash_code-computed TypeId.unsigned_short)
hashcode_correct TypeId.std_string_ptr h e =
    ground (arith, hash_code-computed TypeId.std_string_ptr)
hashcode_correct TypeId.date h e = ground (arith, hash_code-computed TypeId.date)
hashcode_correct TypeId.time h e = ground (arith, hash_code-computed TypeId.time)
hashcode_correct TypeId.date_time h e = ground (arith, hash_code-computed TypeId.date_time)
hashcode_correct TypeId.void_ptr h e = ground (arith, hash_code-computed TypeId.void_ptr)
hashcode_correct TypeId.void h e = ground (arith, hash_code-computed TypeId.void)

-- The type of a hash code.
abbrev type_of : ℕ → TypeId
type_of h =
    if h == 671907190918037511
    then TypeId.bool
    else if h == 12638219084838855839
    then TypeId.char
    else if h == 17651634549964990482
    then TypeId.char_ptr
    else if h == 9235036615271127602
    then TypeId.const_bool_ptr
    else if h == 17648624087129316105
    then TypeId.const_char_ptr
    else if h == 12638230079955414429
    then TypeId.double
    else if h == 12638226781420530164
    then TypeId.float
    else if h == 12638232278978672507
    then TypeId.int
    else if h == 12638234478001926865
    then TypeId.long
    else if h == 671911588964549323
    then TypeId.long_long
    else if h == 12638221283862108789
    then TypeId.short
    else if h == 10283618467285603348
    then TypeId.std_string
    else if h == 1834653525535884014
    then TypeId.const_std_string_ptr
    else if h == 12638217985327228012
    then TypeId.unsigned_char
    else if h == 12638231179467044040
    then TypeId.unsigned_int
    else if h == 12638233378490299814
    then TypeId.unsigned_long
    else if h == 671912688476192120
    then TypeId.unsigned_long_long
    else if h == 12638220184350483914
    then TypeId.unsigned_short
    else if h == 12085272788949009172
    then TypeId.std_string_ptr
    else if h == 3751525146447923378
    then TypeId.date
    else if h == 8539850075608744284
    then TypeId.time
    else if h == 10533473616753589511
    then TypeId.date_time
    else if h == 17651647744104509558
    then TypeId.void_ptr
    else TypeId.void

type_of-computed : (t : TypeId) → type_of (computed t) ≡ t
type_of-computed TypeId.bool = refl
type_of-computed TypeId.char = refl
type_of-computed TypeId.char_ptr = refl
type_of-computed TypeId.const_bool_ptr = refl
type_of-computed TypeId.const_char_ptr = refl
type_of-computed TypeId.double = refl
type_of-computed TypeId.float = refl
type_of-computed TypeId.int = refl
type_of-computed TypeId.long = refl
type_of-computed TypeId.long_long = refl
type_of-computed TypeId.short = refl
type_of-computed TypeId.std_string = refl
type_of-computed TypeId.const_std_string_ptr = refl
type_of-computed TypeId.unsigned_char = refl
type_of-computed TypeId.unsigned_int = refl
type_of-computed TypeId.unsigned_long = refl
type_of-computed TypeId.unsigned_long_long = refl
type_of-computed TypeId.unsigned_short = refl
type_of-computed TypeId.std_string_ptr = refl
type_of-computed TypeId.date = refl
type_of-computed TypeId.time = refl
type_of-computed TypeId.date_time = refl
type_of-computed TypeId.void_ptr = refl
type_of-computed TypeId.void = refl

-- Types with equal hash codes are the same type, so a switch on the codes is a switch on the types.
pub hash_code_injective : (t u : TypeId) → hash_code t ≡ hash_code u → t ≡ u
hash_code_injective t u e =
    sym (type_of-computed t)
    ∙ (ap type_of (sym (hash_code-computed t) ∙ (e ∙ hash_code-computed u)) ∙ type_of-computed u)

-- A switch on the hash code of a type takes the case of a macro exactly if the macro is named for
-- that type, whichever types have a macro.
case_of-hash_code :
    (t u : TypeId) (m : ℕ) → hashcode u ≡ some m → (case_of (hash_code t) u ≡ true) ↔ (t ≡ u)
unfolding case_of
case_of-hash_code t u m e =
    rw (case_of, e)
      (
        (λ h. hash_code_injective t u ((==_iff (hash_code t) m).0 h ∙ hashcode_correct u m e)),
        (λ same. (==_iff (hash_code t) m).1 (ap hash_code same ∙ sym (hashcode_correct u m e))),
      )
