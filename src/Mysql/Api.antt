-- ===== src/Mysql/Api.antt =====
-- MySQL/MySQLSession.cpp: the functions of the MySQL library that it calls.
use lite_database.Common.{ℕ, Bool, Option, List, Bytes, ℤ, pos, eq_ℤ}
use lite_database.Mysql.Columns.{FieldType}

-- The functions of the library, over its state `W`. A connection and a result are handles, `none`
-- a null pointer; `fields` stands for the loop over `mysql_fetch_field`.
pub record Mysql (W : Type 0) : Type 0 where
  pub init : Option ℕ → W → Option ℕ × W
  pub real_connect : Option ℕ → Bytes → Bytes → Bytes → Option Bytes → ℤ → W → Option ℕ × W
  pub close : ℕ → W → W
  pub real_query : Option ℕ → Bytes → W → ℤ × W
  pub use_result : Option ℕ → W → Option ℕ × W
  pub fields : ℕ → W → List (Bytes × FieldType) × W
  pub fetch_row : ℕ → W → Option (List (Option Bytes)) × W
  pub free_result : ℕ → W → W
  pub select_db : Option ℕ → Bytes → W → ℤ × W
  pub change_user : Option ℕ → Bytes → Bytes → W → ℤ × W
  pub ping : Option ℕ → W → ℤ × W
  pub errno : Option ℕ → W → ℤ
  pub error : Option ℕ → W → Bytes

-- `OK`.
abbrev pub is_ok : ℤ → Bool
is_ok rc = eq_ℤ rc (pos 0)
