-- ===== src/Loader.antt =====
-- Core/Session.cpp, `searchEnvironment` and `newSession`: the library of a database is looked for in
-- the search path, loaded, and asked for the function that creates a session.
pub mod Path
use lite_database.Common.{
  ℕ, Bool, true, false, ◌&&◌, ◌||◌, not, Option, none, some, List, [], ◌∷◌, ◌++◌, Bytes, codes,
  ◌==◌, leb, ltb, if◌then◌else◌,
}
use lite_database.DatabaseType.{
  DatabaseType, to_int, database_type_to_string, dll_prefix, dll_suffix, creation_functions,
}
use lite_database.Exception.{build}
use lite_database.Outcome.{Outcome, ok, raise, throw, undefined, ◌>>=◌}
use lite_database.Std.Decimal.{print_ℕ}
use lite_database.Std.Map.{contains, lookup}
use lite_database.Std.Stream.{is_nil}
use lite_database.Utils.Split.{split}

-- What the operating system answers: the variable `Path`, the file system, the loader of libraries
-- with its last error, and the address of a function in a library. `fs::exists` and
-- `fs::is_directory` may throw.
pub record System : Type 0 where
  pub path : Option Bytes
  pub exists : Bytes → Outcome Bool
  pub is_directory : Bytes → Outcome Bool
  pub load_library : Bytes → Option ℕ
  pub last_error : ℕ
  pub proc_address : ℕ → Bytes → Option ℕ

abbrev pub last : Bytes → ℕ
last [] = 0
last (c ∷ []) = c
last (c ∷ b ∷ s) = last (b ∷ s)

-- A directory's name with a separator behind it, and the file's name behind that.
unfoldable pub file_in : Bytes → Bytes → Bytes
file_in dir lib =
    (if not (last dir == b'\\') && not (last dir == b'/') then dir ++ b'\\' ∷ [] else dir) ++ lib

-- A directory is asked for only where the path exists.
unfoldable pub is_file : System → Bytes → Outcome Bool
is_file sys path = sys.exists path >>= λ there.
    if there then (sys.is_directory path >>= λ dir. ok (not dir)) else ok false

-- The path if it is a file, and the rest of the loop if it is none.
abbrev pub found_or : Outcome Bool → Bytes → Outcome Bytes → Outcome Bytes
found_or (ok true) path rest = ok path
found_or (ok false) path rest = rest
found_or (raise e) path rest = raise e
found_or undefined path rest = undefined

-- The loop over the entries. `back()` of an empty entry is undefined.
unfoldable pub search_entries : System → Bytes → List Bytes → Outcome Bytes
unfolding file_in is_file
search_entries sys lib [] = ok []
search_entries sys lib (dir ∷ env) =
    let rest = search_entries sys lib env in
    if is_nil dir
    then undefined
    else found_or (is_file sys (file_in dir lib)) (file_in dir lib) rest

-- A null result of `getenv` cannot be made a `std::string`.
abbrev search_value : System → Bytes → Option Bytes → Outcome Bytes
search_value sys lib none = undefined
search_value sys lib (some env_str) = search_entries sys lib (split env_str b';')

unfoldable pub search_environment : System → Bytes → Outcome Bytes
unfolding search_entries
search_environment sys lib = search_value sys lib sys.path

abbrev pub dll_name : DatabaseType → Bytes
dll_name dt = dll_prefix ++ (database_type_to_string dt ++ dll_suffix)

-- The function's address in the loaded library.
unfoldable pub get_creator : System → Bytes → ℕ → Outcome ℕ
get_creator sys func_name handler = elim (sys.proc_address handler func_name) [
  | none ↦ throw (build (codes "Error when getting proc address: " ∷ func_name ∷ []))
  | some func ↦ ok func
]

unfoldable pub load : System → Bytes → Bytes → Bytes → Outcome ℕ
unfolding get_creator
load sys dll func_name path = elim (sys.load_library path) [
  | none ↦ throw (
      build (
        codes "Error when loading dynamic link library: "
        ∷ dll
        ∷ codes " ErrCode: "
        ∷ print_ℕ sys.last_error
        ∷ []))
  | some handler ↦ get_creator sys func_name handler
]

-- The path to load from: what the search found, or the library in the working directory.
unfoldable pub dll_path : System → Bytes → Bytes → Outcome Bytes
dll_path sys dll found =
    if is_nil found
    then (sys.exists dll >>= λ there.
        if there
        then ok (codes ".\\" ++ dll)
        else throw (build (codes "Dynamic link library(" ∷ dll ∷ codes ") not found!" ∷ [])))
    else ok found

-- The function that `newSession` calls.
unfoldable pub new_session : System → DatabaseType → Outcome ℕ
unfolding search_environment dll_path load database_type_to_string
new_session sys dt =
    let type = database_type_to_string dt in
    if not (contains type creation_functions) || (leb (to_int dt) 0 || ltb 5 (to_int dt))
    then throw (build (codes "Unknown DatabaseType: " ∷ print_ℕ (to_int dt) ∷ []))
    else elim (lookup type creation_functions) [
      | none ↦ undefined
      | some func_name ↦ search_environment sys (dll_name dt) >>= λ found.
          dll_path sys (dll_name dt) found >>= λ path. load sys (dll_name dt) func_name path
    ]
