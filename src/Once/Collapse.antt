-- ===== src/Once/Collapse.antt =====
-- Core/Once.cpp, `getSQL`: the loop that erases is a recursion on the text.
use lite_database.Common.{
  ℕ, zero, suc, ◌+◌, ◌≤◌, ◌<◌, ◌≡◌, ◌≢◌, refl, sym, ap, ◌∙◌, Bool-cases, inl, inr, false, ◌&&◌, [],
  ◌∷◌, ◌++◌, append_assoc, arith, Bytes, ◌==◌, if◌then◌else◌, length, length-append,
  take-length-append, drop-append_next, Lacks,
}
use lite_database.Outcome.{ok, undefined}
use lite_database.Std.Stream.{is_nil}
use lite_database.Once.{Once, get_sql_loop, get_sql}
use lite_database.Once.Search.{byte_at-append, byte_at-append_next}

-- The text with each pair of question marks made one.
unfoldable pub collapse : Bytes → Bytes
collapse [] = []
collapse (c ∷ []) = c ∷ []
collapse (c ∷ b ∷ s) = if (c == b'?') && (b == b'?') then c ∷ collapse s else c ∷ collapse (b ∷ s)

-- One round at a pair that is erased, and at any other two bytes.
get_sql_round :
    (f : ℕ) (pre s : Bytes) (c b : ℕ)
    → get_sql_loop (suc f) (pre ++ c ∷ b ∷ s) (length pre)
      ≡ get_sql_loop f
          (if (c == b'?') && (b == b'?') then pre ++ c ∷ s else pre ++ c ∷ b ∷ s)
          (length pre + 1)
unfolding get_sql_loop
get_sql_round f pre s c b = ground (
  arith,
  length-append {0} pre (c ∷ b ∷ s),
  byte_at-append pre (b ∷ s) c,
  byte_at-append_next pre s c b,
  take-length-append pre (c ∷ b ∷ s),
  drop-append_next pre (b ∷ s) c,
)

get_sql_loop_end : (f : ℕ) (str : Bytes) (i : ℕ) → length str ≤ i + 1 → get_sql_loop f str i ≡ str
unfolding get_sql_loop
get_sql_loop_end zero str i h = refl
get_sql_loop_end (suc f) str i h = ground arith

-- The claim for the text behind one more byte, from where the loop stands.
get_sql_shift :
    (f : ℕ) (pre s r : Bytes) (c : ℕ)
    → get_sql_loop f ((pre ++ c ∷ []) ++ s) (length (pre ++ c ∷ [])) ≡ (pre ++ c ∷ []) ++ r
    → get_sql_loop f (pre ++ c ∷ s) (length pre + 1) ≡ pre ++ c ∷ r
get_sql_shift f pre s r c h =
    rw (← append_assoc pre (c ∷ []) r)
      (rw (← append_assoc pre (c ∷ []) s) (rw (← length-append {0} pre (c ∷ [])) h))

get_sql_loop-collapse :
    (f : ℕ) (pre s : Bytes)
    → length s < f
    → get_sql_loop f (pre ++ s) (length pre) ≡ pre ++ collapse s
unfolding collapse
get_sql_loop-collapse zero pre s h = absurd (omega arith)
get_sql_loop-collapse (suc f) pre [] h =
    get_sql_loop_end (suc f) (pre ++ []) (length pre) (omega (arith, length-append {0} pre []))
get_sql_loop-collapse (suc f) pre (c ∷ []) h =
    get_sql_loop_end (suc f) (pre ++ c ∷ []) (length pre)
      (omega (arith, length-append {0} pre (c ∷ [])))
get_sql_loop-collapse (suc f) pre (c ∷ b ∷ s) h = elim (Bool-cases ((c == b'?') && (b == b'?'))) [
  | inl pair ↦ rw (get_sql_round f pre s c b) (
      rw pair (
        get_sql_shift f pre s (collapse s) c
          (get_sql_loop-collapse f (pre ++ c ∷ []) s (omega arith))))
  | inr other ↦ rw (get_sql_round f pre s c b) (
      rw other (
        get_sql_shift f pre (b ∷ s) (collapse (b ∷ s)) c
          (get_sql_loop-collapse f (pre ++ c ∷ []) (b ∷ s) (omega arith))))
]

not_nil : (s : Bytes) → s ≢ [] → is_nil s ≡ false
not_nil [] h = absurd (h refl)
not_nil (c ∷ s) h = refl

-- `getSQL` of a statement that is not empty reads pairs of question marks as one, from left to
-- right; its loop stays within the text and ends.
pub get_sql-collapse : (once : Once) → once.sql ≢ [] → get_sql once ≡ ok (collapse once.sql)
unfolding get_sql
get_sql-collapse once h =
    rw (not_nil once.sql h)
      (ap ok (get_sql_loop-collapse (suc (length once.sql)) [] once.sql (omega arith)))

-- The text with each question mark doubled.
unfoldable pub doubled : Bytes → Bytes
doubled [] = []
doubled (c ∷ s) = if c == b'?' then c ∷ c ∷ doubled s else c ∷ doubled s

collapse_plain : (c : ℕ) (s : Bytes) → c ≢ b'?' → collapse (c ∷ s) ≡ c ∷ collapse s
unfolding collapse
collapse_plain c [] h = refl
collapse_plain c (b ∷ s) h = ground arith

collapse-doubled : (s : Bytes) → collapse (doubled s) ≡ s
unfolding collapse doubled
collapse-doubled [] = refl
collapse-doubled (c ∷ s) = ground (arith, collapse-doubled s, collapse_plain c (doubled s))

doubled-ne-nil : (c : ℕ) (s : Bytes) → doubled (c ∷ s) ≢ []
unfolding doubled
doubled-ne-nil c s = ground arith

-- Text whose question marks are all doubled is sent to the database as it was meant, and sending
-- the empty statement reads outside the text.
pub get_sql-doubled :
    (once : Once) (s : Bytes)
    → once.sql ≡ doubled s
    → get_sql once ≡ (if is_nil s then undefined else ok s)
unfolding get_sql doubled
get_sql-doubled once [] e = rw e
get_sql-doubled once (c ∷ s) e =
    get_sql-collapse once (λ h. doubled-ne-nil c s (sym e ∙ h)) ∙ rw (e, collapse-doubled (c ∷ s))

pub collapse-Lacks : (s : Bytes) → Lacks b'?' s → collapse s ≡ s
unfolding collapse
collapse-Lacks [] h = refl
collapse-Lacks (c ∷ []) h = refl
collapse-Lacks (c ∷ b ∷ s) h = ground (arith, collapse-Lacks (b ∷ s) h.1)
