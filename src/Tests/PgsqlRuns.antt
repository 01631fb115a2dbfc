-- ===== src/Tests/PgsqlRuns.antt =====
-- Examples for PostgreSQL/PgSQLSession.cpp and for the search of Core/Session.cpp, with a small
-- database and a small file system.
use lite_database.Common.{
  List, ℕ, ◌≡◌, refl, Bool, true, false, [], ◌∷◌, codes, arith, suc, zero, pos, ◌+◌, ◌-◌, Bytes,
  Option, some, none, str_eq,
}
use lite_database.Outcome.{Outcome, ok}
use lite_database.Row.{Row}
use lite_database.Pgsql.Info.{conninfo, base_info}
use lite_database.Pgsql.{Pgsql, PgsqlSession, Status, query, is_open, close_session, open_session}
use lite_database.Pgsql.Calls.{is_open-close, query-no_callback, no_callback, with_state}
use lite_database.Any.{Any, is_string}
use lite_database.Any.Text.{get_string}
use lite_database.Any.Numbers.{cast}
use lite_database.Exception.{append_stream}
use lite_database.Std.Map.{lookup, contains}
use lite_database.Std.Decimal.{print_ℤ, print_ℕ}
use lite_database.Utils.Arguments.{get_string_arg, get_int_arg, get_bool_arg, argument}
use lite_database.Pgsql.Connections.{Connects, open-finish_lem}
use lite_database.Std.Handles.{after_close}
use lite_database.Pgsql.Connection.{Parts, IsPlain}
use lite_database.Pgsql.Connection.Arguments.{parts_of, conninfo_injective}
use lite_database.Tests.Values.{ops}
use lite_database.Loader.{System}

-- The state counts the results that are left.
abbrev take_result : Option ℕ → ℕ → Option ℕ × ℕ
take_result conn zero = (none, zero)
take_result conn (suc n) = (some n, n)

abbrev status_of : Option ℕ → ℕ → Status
status_of none w = Status.connection_bad
status_of (some h) w = Status.connection_ok

abbrev small_pgsql : Pgsql ℕ
small_pgsql = record {
  connectdb = λ info w. (some 1, w);
  status = status_of;
  finish = λ h w. w;
  get_result = take_result;
  send_query = λ conn sql w. (true, 3);
  set_single_row_mode = λ conn w. (true, w);
  is_single_tuple = λ r w. true;
  columns = λ r w. (codes "c", codes "x") ∷ [];
  clear = λ r w. w;
  error_message = λ conn w. [];
  printf = λ text w. w;
}

abbrev open_one : PgsqlSession
open_one = record { is_open = true; conn = some 1 }

is_open-close_example :
    ((close_session small_pgsql open_one 0).0.is_open ≡ true)
    × ((close_session small_pgsql open_one 0).0.conn ≡ none)
    × (is_open small_pgsql
          (close_session small_pgsql open_one 0).0
          (close_session small_pgsql open_one 0).1
        ≡ (
          false,
          record { is_open = false; conn = none },
          (close_session small_pgsql open_one 0).1,
        ))
is_open-close_example = is_open-close small_pgsql open_one 0 (λ v. refl)

abbrev count_rows : ℕ → Row → ℕ → ℕ × Outcome Bool
count_rows k row n = (suc k, ok true)

query-no_callback_example :
    query small_pgsql 9 (some 1) (codes "a;b") count_rows 0 0
    ≡ with_state 0 (query small_pgsql 9 (some 1) (codes "a;b") no_callback tt 0)
query-no_callback_example = query-no_callback small_pgsql 9 (some 1) (codes "a;b") count_rows 0 0

-- One file, in the second entry of the search path.
abbrev small_system : System
small_system = record {
  path = some (codes "C:\\a;C:\\b");
  exists = λ p. ok (str_eq p (codes "C:\\b\\lib.dll"));
  is_directory = λ p. ok false;
  load_library = λ p. some 1;
  last_error = 0;
  proc_address = λ h name. some 2;
}

-- The arguments of a connection with the defaults.
abbrev arguments : List (Bytes × Any)
arguments =
    (codes "host", Any.std_string (codes "h"))
    ∷ (codes "database", Any.std_string (codes "d"))
    ∷ (codes "user", Any.std_string (codes "u"))
    ∷ (codes "passwd", Any.std_string (codes "p"))
    ∷ []

conninfo_default :
    conninfo ops arguments
    ≡ ok (
        codes
          "host='h' port=5432 user='u' password='p' connect_timeout=20 sslmode=disable dbname=d")
unfolding conninfo base_info append_stream get_string_arg get_int_arg argument contains lookup
    is_string get_string cast print_ℤ print_ℕ
conninfo_default = refl

-- The arguments with another encryption, and with a key for it.
abbrev with_key : Bytes → List (Bytes × Any)
with_key k =
    (codes "sslmode", Any.std_string (codes "require"))
    ∷ (codes "sslkey", Any.std_string k)
    ∷ arguments

abbrev parts : Bytes → Parts
parts k = record {
  host = codes "h";
  port = pos 5432;
  user = codes "u";
  passwd = codes "p";
  timeout = pos 20;
  sslmode = codes "require";
  dbname = codes "d";
  ssl = some (record {
    key = k;
    cert = codes "~/.postgresql/postgresql.crt";
    rootcert = codes "~/.postgresql/root.crt";
    crl = codes "~/.postgresql/root.crl";
    compression = true;
  });
}

with_key-parts : parts_of ops (with_key (codes "k")) ≡ ok (parts (codes "k"))
unfolding parts_of get_string_arg get_int_arg get_bool_arg argument contains lookup is_string
    get_string cast
with_key-parts = refl

parts-IsPlain : IsPlain (parts (codes "k"))
parts-IsPlain = record {
  host_plain = omega arith;
  user_plain = omega arith;
  passwd_plain = omega arith;
  mode_plain = omega arith;
  name_plain = omega arith;
  ssl_plain = (omega arith, omega arith, omega arith, omega arith);
  port_fits = omega arith;
  timeout_fits = omega arith;
}

conninfo_injective_example : parts (codes "k") ≡ parts (codes "k")
conninfo_injective_example =
    conninfo_injective ops (with_key (codes "k")) (with_key (codes "k")) (parts (codes "k"))
      (parts (codes "k")) with_key-parts with_key-parts parts-IsPlain parts-IsPlain refl

-- The same library, which counts its connections.
abbrev connecting_pgsql : Pgsql ℕ
connecting_pgsql = record small_pgsql {
  connectdb = λ info w. (some 1, w + 1);
  finish = λ h w. w - 1;
}

connecting-Connects : Connects connecting_pgsql (λ w. w)
connecting-Connects = record { connectdb_holds = λ info w. refl; finish_frees = λ h w. refl }

abbrev opened_again : Outcome (Unit {0}) × PgsqlSession × ℕ
opened_again = open_session connecting_pgsql ops arguments open_one 1

open-finish_lem_example :
    (close_session connecting_pgsql opened_again.1 opened_again.2).1
    ≡ after_close (conninfo ops arguments) (some 1) 1
open-finish_lem_example =
    open-finish_lem connecting_pgsql (λ w. w) connecting-Connects ops arguments open_one 1
