-- ===== src/Session/IntoRules.antt =====
-- headers/Once.h and Core/Once.cpp, `once, into(...)`: the result, and the life of the statement.
use lite_database.Common.{◌≡◌, ◌≢◌, refl, true, false, [], Bytes}
use lite_database.Outcome.{Outcome, ok, raise, undefined}
use lite_database.Row.{Row}
use lite_database.Once.{Once, get_sql}
use lite_database.Session.{Methods, query}
use lite_database.Types.{index}
use lite_database.Session.Into.{with_sql, into_bool, into_row, into_value}

-- `into(b)` never throws: whether `exec` threw is what it stores, and in both cases a statement on
-- the heap is deleted.
into_bool_lem :
    {W : Type 0} (methods : Methods W) (once : Once) (w w' : W) (sql : Bytes)
    (r : Outcome (Unit {0}))
    → get_sql once ≡ ok sql
    → methods.exec sql w ≡ (r, w')
    → r ≢ undefined
    → into_bool methods once w ≡ record {
      result = ok (elim r [ ok u ↦ true | raise e ↦ false | undefined ↦ false ]);
      freed = once.heap;
      world = w';
    }
unfolding into_bool
into_bool_lem methods once w w' sql (ok u) e x ne = rw (e, into_bool, with_sql) (rw x)
into_bool_lem methods once w w' sql (raise u) e x ne = rw (e, into_bool, with_sql) (rw x)
into_bool_lem methods once w w' sql undefined e x ne = absurd (ne refl)

-- For a query without rows `into(row)` reads `res[0]` of an empty vector, while `into(v)` leaves
-- `v` as it was.
into_no_rows :
    {A W : Type 0} (methods : Methods W) (from_row : Row → Outcome A) (old : A) (once : Once)
    (w w' : W) (sql : Bytes)
    → get_sql once ≡ ok sql
    → query methods sql w ≡ (ok [], w')
    → ((into_row methods once w).result ≡ undefined)
      × ((into_value methods from_row old once w).result ≡ ok old)
unfolding into_row into_value index
into_no_rows methods from_row old once w w' sql e x =
    (rw (e, into_row, with_sql) (rw x), rw (e, into_value, with_sql) (rw x))
