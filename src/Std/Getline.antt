-- ===== src/Std/Getline.antt =====
-- `std::getline(stream, line, delim)`.
use lite_database.Common.{ℕ, true, false, Option, none, some, [], ◌∷◌, Bytes, ◌==◌, if◌then◌else◌}
use lite_database.Std.Stream.{Stream, opened, good}

abbrev prepend : ℕ → Bytes × Option Bytes → Bytes × Option Bytes
prepend c (line, r) = (c ∷ line, r)

-- The bytes up to the delimiter, and what follows it; `none` if the text ends first.
unfoldable pub take_line : ℕ → Bytes → Bytes × Option Bytes
take_line d [] = ([], none)
take_line d (c ∷ s) =
    let further = take_line d s in if c == d then ([], some s) else prepend c further

abbrev pub after_line : Option Bytes → Stream
after_line none = record { rest = []; eof = true; fail = false }
after_line (some s) = opened s

-- A text that has nothing left is read as no line at all.
abbrev pub line_of : ℕ → Bytes → Bytes × Stream
line_of d [] = ([], record { rest = []; eof = true; fail = true })
line_of d (c ∷ s) = let (line, r) = take_line d (c ∷ s) in (line, after_line r)

unfoldable pub get_line : ℕ → Bytes → Stream → Bytes × Stream
unfolding take_line
get_line d old s = if good s then line_of d s.rest else (old, record s { fail = true })
