-- ===== src/Callback.antt =====
-- The callbacks of `query` (headers/Session.h): functions on a state of their own, which get a row and
-- the number of a statement, and say whether to go on, or throw.
use lite_database.Common.{◌≡◌, refl, Bool, true, false, Option, some}
use lite_database.Outcome.{Outcome, ok, raise, undefined}

-- What follows a call of the callback in the loop over the rows: the next row, the end of the loop,
-- or the exception.
abbrev pub go_on_if :
    {S W : Type 0}
    → S × Outcome Bool
    → W
    → (S → W → Option (Outcome (Unit {0}) × S × W))
    → Option (Outcome (Unit {0}) × S × W)
go_on_if (s, ok true) w next = next s w
go_on_if (s, ok false) w next = some (ok tt, s, w)
go_on_if (s, raise e) w next = some (raise e, s, w)
go_on_if (s, undefined) w next = some (undefined, s, w)

-- Only what the loop goes on with matters, call by call.
pub go_on_if_same :
    {S W : Type 0} (r : S × Outcome Bool) (w : W)
    (k l : S → W → Option (Outcome (Unit {0}) × S × W))
    → ((s : S) (w : W) → k s w ≡ l s w)
    → go_on_if r w k ≡ go_on_if r w l
go_on_if_same (s, ok true) w k l h = h s w
go_on_if_same (s, ok false) w k l h = refl
go_on_if_same (s, raise e) w k l h = refl
go_on_if_same (s, undefined) w k l h = refl
