-- ===== src/Once/Keys.antt =====
-- Core/Once.cpp, `replace` of a key: `${key}` and the value in its place.
use lite_database.Common.{
  ℕ, ◌+◌, ◌≤◌, ◌≡◌, ap, ◌⊎◌, inl, inr, Bool, none, some, [], ◌∷◌, ◌++◌, append_assoc, arith, Bytes,
  codes, Option-cases, length, take, drop, length-append, take-length-append, drop-length-append,
}
use lite_database.Exception.{build}
use lite_database.Outcome.{ok, throw}
use lite_database.Std.Text.{find, find_sound, find_complete}
use lite_database.Once.{Once, replace_key}

-- The text that stands for a key in a statement.
abbrev pub symbol : Bytes → Bytes
symbol k = codes "${" ++ (k ++ codes "}")

-- The statement holds the key's symbol behind `before` and in front of `after`.
abbrev pub Occurs : Once → Bytes → Bytes → Bytes → Type 0
Occurs once k before after = once.sql ≡ before ++ (symbol k ++ after)

-- What `replace` of a key does: it throws if the symbol does not occur, and otherwise puts the value
-- in place of the symbol's first occurrence.
abbrev pub Missing : Once → Bytes → Type 0
Missing once k = (before after : Bytes) → ¬ (Occurs once k before after)

abbrev pub IsFirst : Once → Bytes → Bytes → Type 0
IsFirst once k before = (b a : Bytes) → Occurs once k b a → length before ≤ length b

cut_at :
    (str before p after v : Bytes) (n : ℕ)
    → str ≡ before ++ (p ++ after)
    → length before ≡ n
    → take n str ++ (v ++ drop (n + length p) str) ≡ before ++ (v ++ after)
cut_at str before p after v n e at = rw (← at) (
    rw e (
      rw (take-length-append before (p ++ after)) (
        rw (← length-append {0} before p)
          (rw (← append_assoc before p after) (rw (drop-length-append (before ++ p) after))))))

replace_key_found :
    (once : Once) (k v before after : Bytes) (escape : Bool) (n : ℕ)
    → find once.sql (symbol k) ≡ some n
    → Occurs once k before after
    → length before ≡ n
    → replace_key k v escape once ≡ ok (record once { sql = before ++ (v ++ after) })
unfolding replace_key
replace_key_found once k v before after escape n hit occurs at =
    rw (hit, replace_key)
      (ap (λ (s : Bytes). ok (record once { sql = s }))
        (cut_at once.sql before (symbol k) after v n occurs at))

replace_key_missed :
    (once : Once) (k v : Bytes) (escape : Bool)
    → find once.sql (symbol k) ≡ none
    → replace_key k v escape once
      ≡ throw (build (codes "Once::replace: ${" ∷ k ∷ codes "} not found" ∷ []))
unfolding replace_key
replace_key_missed once k v escape miss = rw (miss, replace_key)

-- No position before the one that the search returns, and none at all if it returns none.
find_bounds :
    (once : Once) (k b a : Bytes)
    → Occurs once k b a
    → (n : ℕ) × (find once.sql (symbol k) ≡ some n) × (n ≤ length b)
find_bounds once k b a occurs = rw occurs (find_complete b (symbol k) a)

-- Replacing a key throws exactly if its symbol stands nowhere in the statement, and otherwise puts
-- the value in place of the first occurrence and leaves all else as it was, whatever `escape` says.
pub replace_key_lem :
    (once : Once) (k v : Bytes) (escape : Bool)
    → (Missing once k
        × (replace_key k v escape once
            ≡ throw (build (codes "Once::replace: ${" ∷ k ∷ codes "} not found" ∷ []))))
      ⊎ ((before : Bytes) × (after : Bytes) × Occurs once k before after
          × IsFirst once k before
          × (replace_key k v escape once ≡ ok (record once { sql = before ++ (v ++ after) })))
replace_key_lem once k v escape = elim (Option-cases (find once.sql (symbol k))) [
  | inl miss ↦ inl (
    λ b a occurs. let (n, hit, le) = find_bounds once k b a occurs in cc,
    replace_key_missed once k v escape miss,
  )
  | inr (n, hit) ↦
      let (before, after, occurs, at) = find_sound once.sql (symbol k) n hit in
      inr (
        before,
        after,
        occurs,
        (λ b a other.
            let (m, hit', le) = find_bounds once k b a other in
            let same : n ≡ m = ground arith in omega arith),
        replace_key_found once k v before after escape n hit occurs at,
      )
]
