-- ===== src/Lib.antt =====
-- LiteDatabase: a C++ library that opens SQLite, MySQL and PostgreSQL databases behind one class
-- `Session`. A program streams a text into a session, gives values for its placeholders with
-- `use`, and runs it with `into`; the session's kind sends it to the database's own client library
-- and returns rows of `Any` values.
--
-- Which file models which part of the repository:
--
-- DatabaseType: `DatabaseType`, headers/Config.h, `DatabaseTypeToString` of Core/Session.cpp.
-- Exception, Outcome: `class Exception` (headers/Utils.h, Core/Utils.cpp); how a call ends: with a
--   value, with an exception, or with a step that C++ leaves undefined, such as a read past an
--   array.
-- Utils (Split, Split/Lines, Arguments, ArgumentRules): `split` and `class ConnectionArgs`.
-- Types (RoundTrip, Letters, Zone): `Date`, `Time`, `DateTime` (headers/Types.h, Core/Mess.cpp).
-- Once (Search, Holes, Template, Keys, Collapse, Hazards, Quotes): the statement builder
--   (headers/Once.h, Core/Once.cpp). `start` is a `size_t`, so its sums are taken modulo 2^64.
-- TypeIds (Hashes): the macros of headers/TypeIDs.h, next to the FNV-1a hash that the 64-bit
--   Microsoft runtime computes of a type's decorated name.
-- Any (Numbers, Text, Conversions, Strings): `class Any` (headers/Any.h, Core/Any.cpp).
-- Row (Columns): `class Row` and `class Results`.
-- Session (Into, IntoRules): the base class of the sessions (headers/Session.h, Core/Session.cpp)
--   over the methods that each kind implements, and the six `into` overloads of `Once`.
-- Loader (Path): `searchEnvironment` and `newSession` of Core/Session.cpp.
-- Sqlite (Rows, State), Mysql (Columns, Columns/Bits, Statements, State), Pgsql (Calls): the three
--   kinds of session (SQLite/SQLiteSession.cpp, MySQL/MySQLSession.cpp,
--   PostgreSQL/PgSQLSession.cpp).
-- Callback: the callbacks of `query`, and how its loops go on behind a call of one.
-- Common, Std: what the parts share, and what they use of the C++ library: string streams,
--   `getline`, `std::stoi`, `find`, maps as association lists.
-- Sqlite/Resources, Mysql/Resources, Pgsql/Resources: which statements and results of the client
--   library the sessions hand back; Sqlite/Connections, Pgsql/Connections: which connections.
--   Sqlite/Visits: `query` with any callback. Mysql/Columns/Reading, Mysql/Columns/Moments: what
--   integer columns and those of dates and times become. Pgsql/Info, Pgsql/Connection,
--   Pgsql/Connection/Arguments: the connection string; Pgsql/Printing: what `query` prints.
-- Database (OverSqlite, OverMysql, Client): an abstract database, which answers texts without
--   connections, handles or callbacks; the SQLite and MySQL sessions as implementations of one, each
--   with its methods as the base class calls them; and programs of streamed statements over a
--   session that implements one, by the record `Implements`.
-- Tests: examples of the theorems at concrete inputs.
--
-- A text is a list of bytes. An integer is a ℤ whose width is written out where it matters; `int`
-- and `long` have 32 bits, `long long` and `size_t` 64. A float or double is its bit pattern, and
-- what is computed with it is an argument (`FloatOps`). The client libraries, the file system, the
-- environment and the console are arguments as well: records of functions over a state of theirs
-- (`Sqlite`, `Mysql`, `Pgsql`, `System`). A callback is a function on a state of its own,
-- and may throw, and so may the calls of the file system.
--
-- Loops that need it run on fuel. `split` gets one more than the length of its text, and the loops
-- over positions of a statement one more than its length, which is enough for every text, as the
-- theorems on them show. The fuel for the rows of a result and for the statements of a text is an
-- argument, since the database decides how many there are; `none` says that it ran out, and the
-- theorems on `query` and `exec` name the fuel that is enough. Where a session's methods are handed
-- to the base class (`sqlite_methods`, `mysql_methods`), a call that ran out of fuel counts as
-- undefined, so that a theorem with a result says that the fuel was enough.
--
-- An `unordered_map` is an association list without double keys; where its order shows, in
-- `headers`, the walk is an argument, any reordering of the entries. A pointer into a destroyed
-- string, as `get<const char*>` returns it, is undefined.
--
-- Not modelled: the vendored client libraries and their headers, and the demonstration in
-- Test/main.cpp. A callback that calls `query` again is not modelled either.
pub mod Common
pub mod Std
pub mod DatabaseType
pub mod Exception
pub mod Outcome
pub mod Utils
pub mod Types
pub mod Once
pub mod TypeIds
pub mod Any
pub mod Row
pub mod Session
pub mod Loader
pub mod Sqlite
pub mod Mysql
pub mod Pgsql
pub mod Callback
pub mod Database
pub mod Tests
