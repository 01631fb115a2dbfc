-- ===== src/Loader/Path.antt =====
-- Core/Session.cpp: which library `newSession` loads.
use lite_database.Common.{
  ◌≡◌, ◌≢◌, refl, Bool, ◌⊎◌, true, false, Option, none, some, List, [], ◌∷◌, ◌++◌, Bytes, codes,
  All,
}
use lite_database.DatabaseType.{DatabaseType}
use lite_database.Exception.{build}
use lite_database.Outcome.{Outcome, ok, raise, undefined, throw, ◌>>=◌}
use lite_database.Loader.{
  System, file_in, is_file, search_environment, dll_name, dll_path, load, new_session,
}
use lite_database.Std.Map.{lookup, contains}
use lite_database.Std.Decimal.{print_ℕ}

-- The entry is not empty, and the library is no file in it.
abbrev pub Lacking : System → Bytes → Bytes → Type 0
Lacking sys lib dir = (dir ≢ []) × (is_file sys (file_in dir lib) ≡ ok false)

-- The loop ends at a path, by what the file system answers there: it is a file, or a call fails.
abbrev pub Stops : Outcome Bool → Bytes → Outcome Bytes → Type 0
Stops (ok there) path result = (there ≡ true) × (result ≡ ok path)
Stops (raise e) path result = result ≡ raise e
Stops undefined path result = result ≡ undefined

-- No entry holds the library as a file, and the result is empty, or the search stops at the first
-- entry that does not lack it.
abbrev pub FirstHit : System → Bytes → List Bytes → Outcome Bytes → Type 0
FirstHit sys lib env result =
    (All (Lacking sys lib) env × (result ≡ ok []))
    ⊎ ((before : List Bytes) × (dir : Bytes) × (after : List Bytes) × (env ≡ before ++ dir ∷ after)
        × All (Lacking sys lib) before
        × Stops (is_file sys (file_in dir lib)) (file_in dir lib) result)

-- The name of the function that creates a session, by the type.
abbrev pub creator_name : DatabaseType → Option Bytes
creator_name DatabaseType.unknown = none
creator_name DatabaseType.sqlite = some (codes "newSQLiteSession")
creator_name DatabaseType.mysql = some (codes "newMySQLSession")
creator_name DatabaseType.postgresql = some (codes "newPgSQLSession")
creator_name DatabaseType.oracle = some (codes "newOracleSession")
creator_name DatabaseType.odbc = some (codes "newODBCSession")

-- `newSession` throws for the unknown type only by its guard, and for every other type it loads
-- that type's library, from the search path or else from the working directory, and asks it for
-- that type's creation function.
new_session_lem :
    (sys : System) (dt : DatabaseType)
    → new_session sys dt ≡ elim (creator_name dt) [
      | none ↦ throw (build (codes "Unknown DatabaseType: " ∷ codes "0" ∷ []))
      | some func_name ↦ search_environment sys (dll_name dt) >>= λ found.
          dll_path sys (dll_name dt) found >>= λ path. load sys (dll_name dt) func_name path
    ]
unfolding new_session print_ℕ lookup contains
new_session_lem sys DatabaseType.unknown = refl
new_session_lem sys _ = refl
