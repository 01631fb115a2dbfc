-- ===== src/Outcome.antt =====
-- What a call ends with: a value, an exception that is thrown, or a step that C++ leaves undefined.
use lite_database.Exception.{Exception}

-- The exceptions that the code throws: its own, and those of `std::stoi` and its like.
pub data Error : Type 0 where
  lldb : Exception → Error
  invalid_argument out_of_range : Error

pub data Outcome {ℓ} (A : Type ℓ) : Type ℓ where
  ok : A → Outcome A
  raise : Error → Outcome A
  undefined : Outcome A

infixl 5 ◌>>=◌ ◌>>◌
abbrev pub ◌>>=◌ {ℓ κ} : {A : Type ℓ} {B : Type κ} → Outcome A → (A → Outcome B) → Outcome B
ok a >>= f = f a
raise e >>= f = raise e
undefined >>= f = undefined

abbrev pub ◌>>◌ {ℓ κ} : {A : Type ℓ} {B : Type κ} → Outcome A → Outcome B → Outcome B
m >> k = m >>= λ _. k

-- `throw e` for an exception of the library.
abbrev pub throw {ℓ} : {A : Type ℓ} → Exception → Outcome A
throw e = raise (lldb e)
