-- ===== src/Tests/Values.antt =====
-- Examples for `split`, the connection arguments, dates and times, `Any`, the type codes and rows.
use lite_database.Common.{
  ◌≡◌, refl, true, false, List, [], ◌∷◌, ◌++◌, codes, arith, Bytes, some, All, Lacks, pos, negsuc,
}
use lite_database.Outcome.{Error, ok, raise, throw, ◌>>=◌}
use lite_database.Utils.Split.{split}
use lite_database.Utils.Split.Lines.{terminated, split_keeps}
use lite_database.Utils.Arguments.{
  get_string_arg, get_int_arg, get_bool_arg, connection_args, wrong_argument,
}
use lite_database.Utils.ArgumentRules.{readers_lem}
use lite_database.Types.{Date, Time, date_time_from_string, date_time_to_string}
use lite_database.Types.Zone.{date_time_from_string-date_time_to_string, date_time_from_string_west}
use lite_database.TypeIds.{TypeId, hashcode, hash_code}
use lite_database.TypeIds.Hashes.{hashcode_correct}
use lite_database.Any.{Any}
use lite_database.Any.Numbers.{FloatOps, IntType, int_target, get_number}
use lite_database.Any.Text.{get_string, get_date, get_time}
use lite_database.Any.Conversions.{get_number_exact}
use lite_database.Any.Strings.{get_string_lem, get_date-get_string, shown}
use lite_database.Std.Decimal.{print_ℤ, print_ℕ}
use lite_database.Std.Map.{lookup}
use mathlib.Core.List.{Permᴰ}
use lite_database.Row.{Row, row_of, get, has, headers}
use lite_database.Row.Columns.{get-row_of, headers_lem, listed, Distinct}

-- Operations on floating point numbers, which the examples do not look into.
abbrev pub ops : FloatOps
ops = record {
  truncate_float = λ x. some (pos x);
  truncate_double = λ x. some (pos x);
  float_to_double = λ x. x;
  double_to_float = λ x. x;
  float_of = λ z. 0;
  double_of = λ z. 0;
  print_double = λ x. codes "0";
  string_to_double = λ s. ok 0;
}

abbrev pub day : Date
day = record { day = pos 2; month = pos 7; year = pos 2022 }

abbrev pub noon : Time
noon = record { hour = pos 12; minute = pos 0; second = pos 5 }

split_keeps_example :
    (terminated (split (codes "a;b") b';') b';' ≡ codes "a;b;")
    × All (Lacks b';') (split (codes "a;b") b';')
split_keeps_example = split_keeps (codes "a;b") b';'

date_time_from_string-date_time_to_string_example :
    date_time_from_string day noon
      (date_time_to_string (record { date = day; time = noon; time_zone = pos 8 }))
    ≡ ok (record { date = day; time = noon; time_zone = pos 8 })
date_time_from_string-date_time_to_string_example =
    date_time_from_string-date_time_to_string day noon
      (record { date = day; time = noon; time_zone = pos 8 }) (omega arith) (omega arith)
      (tt, tt, tt) (omega arith)

date_time_from_string_west_example :
    date_time_from_string day noon
      (date_time_to_string (record { date = day; time = noon; time_zone = negsuc 4 }))
    ≡ raise Error.invalid_argument
date_time_from_string_west_example =
    date_time_from_string_west day noon day noon 3 (omega arith) (tt, tt, tt)

-- host = "h", host = "i", port = 3306 as a short
abbrev arguments : List (Bytes × Any)
arguments =
    (codes "host", Any.const_char_ptr (codes "h"))
    ∷ (codes "host", Any.const_char_ptr (codes "i"))
    ∷ (codes "port", Any.short (pos 3306))
    ∷ []

readers_lem_example :
    (get_string_arg ops (codes "host") false [] (connection_args arguments) ≡ ok (codes "h"))
    × (get_int_arg ops (codes "host") false (pos 1) (connection_args arguments)
        ≡ throw (wrong_argument (codes "host")))
    × (get_bool_arg (codes "host") false true (connection_args arguments)
        ≡ throw (wrong_argument (codes "host")))
unfolding lookup
readers_lem_example = readers_lem ops arguments (codes "host") false [] (pos 1) true

get_number_exact_example :
    get_number (int_target ops IntType.short) (Any.long_long (negsuc 299)) ≡ ok (negsuc 299)
get_number_exact_example =
    get_number_exact ops IntType.short (Any.long_long (negsuc 299)) (negsuc 299) refl (omega arith)

get_string_lem_example : get_string ops (Any.int (negsuc 41)) ≡ ok (codes "-42")
unfolding shown print_ℤ print_ℕ
get_string_lem_example = get_string_lem ops (Any.int (negsuc 41)) (omega arith)

get_date-get_string_example :
    ((get_string ops (Any.date day) >>= λ s. get_date ops day (Any.std_string s)) ≡ ok day)
    × ((get_string ops (Any.time noon) >>= λ s. get_time ops noon (Any.std_string s)) ≡ ok noon)
get_date-get_string_example = get_date-get_string ops day day noon noon (omega arith) (omega arith)

hashcode_correct_example : 671911588964549323 ≡ hash_code TypeId.long_long
unfolding hashcode
hashcode_correct_example = hashcode_correct TypeId.long_long 671911588964549323 refl

-- Two columns with the same name.
abbrev columns : List (Bytes × Any)
columns =
    (codes "id", Any.int (pos 1)) ∷ (codes "x", Any.empty) ∷ (codes "id", Any.int (pos 2)) ∷ []

get-row_of_example : get (row_of columns []) (codes "id") ≡ Any.int (pos 1)
unfolding lookup
get-row_of_example = get-row_of columns (codes "id")

-- The entries from the last to the first.
abbrev backwards : Row → Row
backwards [] = []
backwards (e ∷ row) = backwards row ++ e ∷ []

moved_back : (e : Bytes × Any) (row : Row) → Permᴰ (e ∷ row) (row ++ e ∷ [])
moved_back e [] = Permᴰ.cons refl Permᴰ.nil
moved_back e (f ∷ row) = Permᴰ.trans (Permᴰ.swap refl refl) (Permᴰ.cons refl (moved_back e row))

backwards_permutes : (row : Row) → Permᴰ row (backwards row)
backwards_permutes [] = Permᴰ.nil
backwards_permutes (e ∷ row) =
    Permᴰ.trans (Permᴰ.cons refl (backwards_permutes row)) (moved_back e (backwards row))

headers_lem_example :
    (has (row_of columns []) (codes "id")
      ≡ listed (codes "id") (headers backwards (row_of columns [])))
    × Distinct (headers backwards (row_of columns []))
headers_lem_example = headers_lem backwards backwards_permutes columns (codes "id")
