-- ===== src/Std/Handles.antt =====
-- Handles of the client libraries, as the sessions keep them: `none` is a null pointer.
use lite_database.Common.{ℕ, ◌-◌, Option, none, some}
use lite_database.Outcome.{Outcome, ok, raise, undefined}

-- How many resources a handle stands for.
abbrev pub one : Option ℕ → ℕ
one none = 0
one (some h) = 1

-- The connections held after `open` and `close`, by how the arguments were read: those before, and
-- where `open` threw for an argument, without that of the session.
abbrev pub after_close : {A : Type 0} → Outcome A → Option ℕ → ℕ → ℕ
after_close (ok a) conn n = n
after_close (raise e) conn n = n - one conn
after_close undefined conn n = n - one conn
