-- ===== src/Tests/PgsqlResults.antt =====
-- An example for the results of PostgreSQL/PgSQLSession.cpp, with a small library that counts them.
use lite_database.Common.{
  ℕ, ◌≡◌, refl, ◌+◌, ◌-◌, Bool, true, false, [], ◌∷◌, codes, arith, suc, zero, Option, some, none,
}
use lite_database.Std.Handles.{one}
use lite_database.Outcome.{ok}
use lite_database.Pgsql.{Pgsql, Status, exec, send, rows_of, row_loop, print_columns}
use lite_database.Pgsql.Printing.{IsEnd}
use lite_database.Pgsql.Calls.{Pending, exec_drains}
use lite_database.Pgsql.Resources.{Counts, statement_leaks}

-- The library's state: the results that are left and the results held. The last result of a
-- statement, with handle 0, is not a single tuple.
pub record Server : Type 0 where
  pub left : ℕ
  pub held : ℕ

abbrev take_one : ℕ → ℕ → Option ℕ × Server
take_one zero h = (none, record { left = zero; held = h })
take_one (suc n) h = (some n, record { left = n; held = h + 1 })

abbrev is_tuple : ℕ → Bool
is_tuple zero = false
is_tuple (suc n) = true

-- Every statement has one row.
abbrev counted_pgsql : Pgsql Server
counted_pgsql = record {
  connectdb = λ info w. (some 1, w);
  status = λ conn w. Status.connection_ok;
  finish = λ h w. w;
  get_result = λ conn w. take_one w.left w.held;
  send_query = λ conn sql w. (true, record { left = 2; held = w.held });
  set_single_row_mode = λ conn w. (true, w);
  is_single_tuple = λ r w. is_tuple r;
  columns = λ r w. (codes "c", codes "x") ∷ [];
  clear = λ r w. record { left = w.left; held = w.held - 1 };
  error_message = λ conn w. [];
  printf = λ text w. w;
}

take_counts : (n h : ℕ) → (take_one n h).1.held ≡ h + one (take_one n h).0
take_counts zero h = omega arith
take_counts (suc n) h = refl

counted-Counts : Counts counted_pgsql (λ w. w.held)
counted-Counts = record {
  get_result_holds = λ conn w. take_counts w.left w.held;
  clear_frees = λ r w. refl;
  send_query_keeps = λ conn sql w. refl;
  set_mode_keeps = λ conn w. refl;
  printf_keeps = λ text w. refl;
}

abbrev before : Server
before = record { left = 1; held = 0 }

abbrev after : Server
after = record { left = 0; held = 2 }

one_left : Pending counted_pgsql (some 1) 1 before (record { left = 0; held = 1 })
one_left = Pending.one_more refl (Pending.none_left refl)

sent :
    exec counted_pgsql 2 (some 1) (codes "q") before ≡ some (ok tt, record { left = 2; held = 1 })
unfolding send
sent = exec_drains counted_pgsql (some 1) (codes "q") 2 one_left (omega arith)

-- One result was left by the statement before; it stays held, and so does the one, with handle 0,
-- that ends the rows.
statement_leaks_example :
    (last : Option ℕ) × (v : Server) × (counted_pgsql.get_result (some 1) v ≡ (last, after))
    × IsEnd counted_pgsql last after
    × (after.held ≡ before.held + 1 + one last)
unfolding rows_of row_loop print_columns
statement_leaks_example =
    statement_leaks counted_pgsql (λ w. w.held) counted-Counts (some 1) (codes "q") 2 3
      (record { left = 2; held = 1 }) after one_left (omega arith) sent refl refl
