-- ===== src/Pgsql/Info.antt =====
-- PostgreSQL/PgSQLSession.cpp, `open`: the connection string.
use lite_database.Common.{
  Bool, true, false, [], ◌∷◌, ◌++◌, Bytes, codes, if◌then◌else◌, ℤ, pos, str_eq,
}
use lite_database.Exception.{append_stream}
use lite_database.Outcome.{Outcome, ok, ◌>>=◌}
use lite_database.Std.Decimal.{print_ℤ}
use lite_database.Std.Stream.{is_nil}
use lite_database.Utils.Arguments.{ConnectionArgs, get_string_arg, get_int_arg, get_bool_arg}
use lite_database.Any.Numbers.{FloatOps, IntType, cast}

abbrev pub print_bool : Bool → Bytes
print_bool b = if b then codes "1" else codes "0"

-- The part of the connection string for an `sslmode` that is not `disable`.
unfoldable pub ssl_info : FloatOps → ConnectionArgs → Outcome Bytes
ssl_info ops args = do
  key ← get_string_arg ops (codes "sslkey") true (codes "~/.postgresql/postgresql.key") args
  cert ← get_string_arg ops (codes "sslcert") true (codes "~/.postgresql/postgresql.crt") args
  rootcert ← get_string_arg ops (codes "sslrootcert") true (codes "~/.postgresql/root.crt") args
  crl ← get_string_arg ops (codes "sslcrl") true (codes "~/.postgresql/root.crl") args
  compression ← get_bool_arg (codes "sslcompression") true true args
  ok (
      append_stream (
        codes " sslkey="
        ∷ key
        ∷ codes " sslcert='"
        ∷ cert
        ∷ codes "' sslrootcert='"
        ∷ rootcert
        ∷ codes "' sslcrl='"
        ∷ crl
        ∷ codes "' sslcompression="
        ∷ print_bool compression
        ∷ []))

-- The part of the connection string for every mode.
unfoldable pub base_info : Bytes → ℤ → Bytes → Bytes → ℤ → Bytes → Bytes → Bytes
base_info host port user passwd timeout sslmode dbname = append_stream (
    codes "host='"
    ∷ host
    ∷ codes "' port="
    ∷ print_ℤ port
    ∷ codes " user='"
    ∷ user
    ∷ codes "' password='"
    ∷ passwd
    ∷ codes "' connect_timeout="
    ∷ print_ℤ timeout
    ∷ codes " sslmode="
    ∷ sslmode
    ∷ (if is_nil dbname then [] else codes " dbname=" ++ dbname)
    ∷ [])

-- The string that `open` connects with.
unfoldable pub conninfo : FloatOps → ConnectionArgs → Outcome Bytes
unfolding ssl_info base_info
conninfo ops args = do
  host ← get_string_arg ops (codes "host") false [] args
  port ← get_int_arg ops (codes "port") true (pos 5432) args
  dbname ← get_string_arg ops (codes "database") false [] args
  user ← get_string_arg ops (codes "user") false [] args
  passwd ← get_string_arg ops (codes "passwd") false [] args
  timeout ← get_int_arg ops (codes "timeout") true (pos 20) args
  sslmode ← get_string_arg ops (codes "sslmode") true (codes "disable") args
  ssl ← (if str_eq sslmode (codes "disable") then ok [] else ssl_info ops args)
  ok (base_info host (cast IntType.unsigned_short port) user passwd timeout sslmode dbname ++ ssl)
