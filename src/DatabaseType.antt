-- ===== src/DatabaseType.antt =====
-- headers/Session.h, `enum DatabaseType`, with its names and the tables of headers/Config.h and
-- `DatabaseTypeToString` of Core/Session.cpp.
use lite_database.Common.{ℕ, Bytes, codes, List, [], ◌∷◌}

pub data DatabaseType : Type 0 where
  unknown sqlite mysql postgresql oracle odbc : DatabaseType

-- The value of the enumerator, `(int)dt`.
abbrev pub to_int : DatabaseType → ℕ
to_int unknown = 0
to_int sqlite = 1
to_int mysql = 2
to_int postgresql = 3
to_int oracle = 4
to_int odbc = 5

abbrev pub dll_prefix : Bytes
dll_prefix = codes "LLDB-"

abbrev pub dll_suffix : Bytes
dll_suffix = codes ".dll"

abbrev pub dt_sqlite : Bytes
dt_sqlite = codes "SQLite"

abbrev pub dt_mysql : Bytes
dt_mysql = codes "MySQL"

abbrev pub dt_pgsql : Bytes
dt_pgsql = codes "PostgreSQL"

abbrev pub dt_oracle : Bytes
dt_oracle = codes "Oracle"

abbrev pub dt_odbc : Bytes
dt_odbc = codes "ODBC"

abbrev pub dt_unknown : Bytes
dt_unknown = codes "Unknown"

-- The map from a type's name to the exported function that creates a session.
abbrev pub creation_functions : List (Bytes × Bytes)
creation_functions =
    (dt_sqlite, codes "newSQLiteSession")
    ∷ (dt_mysql, codes "newMySQLSession")
    ∷ (dt_pgsql, codes "newPgSQLSession")
    ∷ (dt_oracle, codes "newOracleSession")
    ∷ (dt_odbc, codes "newODBCSession")
    ∷ []

unfoldable pub database_type_to_string : DatabaseType → Bytes
database_type_to_string sqlite = dt_sqlite
database_type_to_string mysql = dt_mysql
database_type_to_string postgresql = dt_pgsql
database_type_to_string oracle = dt_oracle
database_type_to_string odbc = dt_odbc
database_type_to_string _ = dt_unknown
