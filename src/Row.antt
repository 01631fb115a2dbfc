-- ===== src/Row.antt =====
-- headers/Row.h and Core/Row.cpp, headers/Results.h: a row of a result, and a list of rows.
pub mod Columns
use lite_database.Common.{
  ℕ, zero, suc, Bool, true, false, Option, none, some, List, [], ◌∷◌, ◌++◌, Bytes, if◌then◌else◌,
}
use lite_database.Outcome.{Outcome, ok}
use lite_database.Std.Map.{Map, lookup, contains, emplace}
use lite_database.Any.{Any}

abbrev pub Row : Type 0
Row = Map Any

abbrev pub Results : Type 0
Results = List Row

unfoldable pub has : Row → Bytes → Bool
has row header = contains header row

-- The loop appends the key of each entry.
headers_loop : Row → List Bytes → List Bytes
headers_loop [] result = result
headers_loop ((k, v) ∷ row) result = headers_loop row (result ++ k ∷ [])

-- `order` gives the entries in the order in which an `unordered_map` is walked.
unfoldable pub headers : (Row → Row) → Row → List Bytes
unfolding headers_loop
headers order row = headers_loop (order row) []

-- `at(header)` where the key is there.
abbrev at_or_empty : Option Any → Any
at_or_empty none = Any.empty
at_or_empty (some a) = a

-- `get`, and `operator[]`, which calls it.
unfoldable pub get : Row → Bytes → Any
unfolding has
get row header = if has row header then at_or_empty (lookup header row) else Any.empty

-- `empty`, which calls itself; `none` means that the fuel ran out first.
unfoldable pub empty : ℕ → Row → Option Bool
empty zero row = none
empty (suc f) row = empty f row

-- `row.emplace(name, value)` for the columns of a result, from the left.
unfoldable pub row_of : List (Bytes × Any) → Row → Row
row_of [] row = row
row_of ((name, v) ∷ columns) row = row_of columns (emplace name v row)
