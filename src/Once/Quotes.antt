-- ===== src/Once/Quotes.antt =====
-- Core/Once.cpp, `escapeSingleQuote` and `escapeDoubleQuote`: the loop that inserts while it walks.
use lite_database.Common.{
  ℕ, zero, suc, ◌+◌, ◌<◌, ◌≡◌, refl, ap, ◌&&◌, not, [], ◌∷◌, ◌++◌, append_assoc, arith, Bytes, ◌==◌,
  if◌then◌else◌, length, take, length-append, drop-append_next,
}
use native.Mathlib.Numerals.{towards_suc}
use lite_database.Outcome.{ok, undefined}
use lite_database.Once.{escape_loop, escape_single_quote, escape_double_quote}
use lite_database.Once.Search.{byte_at-append, byte_at-append_next}

-- The text with `mark` before each `quote` that does not follow a `mark`, given the byte before it.
unfoldable pub escaped : ℕ → ℕ → ℕ → Bytes → Bytes
escaped quote mark prev [] = []
escaped quote mark prev (c ∷ s) =
    if (c == quote) && not (prev == mark)
    then mark ∷ c ∷ escaped quote mark c s
    else c ∷ escaped quote mark c s

take-append_next : (xs ys : Bytes) (x : ℕ) → take (length xs + 1) (xs ++ x ∷ ys) ≡ xs ++ x ∷ []
take-append_next [] ys x = refl
take-append_next (z ∷ xs) ys x =
    simp towards_suc (ap (λ zs. z ∷ zs) (simp towards_suc at (take-append_next xs ys x)))

module _ (quote mark : ℕ) where
  escape_loop_shift :
      (f : ℕ) (pre mid s r : Bytes)
      → escape_loop quote mark f ((pre ++ mid) ++ s) (length (pre ++ mid) + 1)
        ≡ ok ((pre ++ mid) ++ r)
      → escape_loop quote mark f (pre ++ (mid ++ s)) (length pre + length mid + 1)
        ≡ ok (pre ++ (mid ++ r))
  escape_loop_shift f pre mid s r h =
      rw (← append_assoc pre mid r)
        (rw (← append_assoc pre mid s) (rw (← length-append {0} pre mid) h))

  -- One round at a byte `c` behind a byte `p`, given what the rest of the loop does.
  escape_round :
      (f : ℕ) (pre s : Bytes) (p c : ℕ)
      → escape_loop quote mark f (pre ++ p ∷ c ∷ s) (length pre + 1 + 1)
        ≡ ok (pre ++ p ∷ c ∷ escaped quote mark c s)
      → escape_loop quote mark f (pre ++ p ∷ mark ∷ c ∷ s) (length pre + 2 + 1)
        ≡ ok (pre ++ p ∷ mark ∷ c ∷ escaped quote mark c s)
      → escape_loop quote mark (suc f) (pre ++ p ∷ c ∷ s) (length pre + 1)
        ≡ ok (pre ++ p ∷ escaped quote mark p (c ∷ s))
  unfolding escape_loop escaped
  escape_round f pre s p c plain put = ground (
    arith,
    length-append {0} pre (p ∷ c ∷ s),
    byte_at-append pre (c ∷ s) p,
    byte_at-append_next pre s p c,
    take-append_next pre (c ∷ s) p,
    drop-append_next pre (c ∷ s) p,
    append_assoc pre (p ∷ []) (mark ∷ c ∷ s),
  )

  escape_loop-escaped :
      (f : ℕ) (pre s : Bytes) (p : ℕ)
      → length s < f
      → escape_loop quote mark f (pre ++ p ∷ s) (length pre + 1)
        ≡ ok (pre ++ p ∷ escaped quote mark p s)
  escape_loop-escaped zero pre s p h = absurd (omega arith)
  escape_loop-escaped (suc f) pre [] p h =
      unfold escape_loop escaped in ground (arith, length-append {0} pre (p ∷ []))
  escape_loop-escaped (suc f) pre (c ∷ s) p h =
      escape_round f pre s p c
        (escape_loop_shift f pre (p ∷ []) (c ∷ s) (c ∷ escaped quote mark c s)
          (escape_loop-escaped f (pre ++ p ∷ []) s c (omega arith)))
        (escape_loop_shift f pre (p ∷ mark ∷ []) (c ∷ s) (c ∷ escaped quote mark c s)
          (escape_loop-escaped f (pre ++ p ∷ mark ∷ []) s c (omega arith)))

  escape_first :
      (c : ℕ) (s : Bytes)
      → escape_loop quote mark (suc (length (c ∷ s))) (c ∷ s) 0
        ≡ (if c == quote then undefined else ok (c ∷ escaped quote mark c s))
  unfolding escape_loop
  escape_first c s = ground (arith, escape_loop-escaped (length (c ∷ s)) [] s c (omega arith))

-- Both escape functions: a text that begins with the quote makes the test read `str[-1]`; any other
-- text is returned with a mark inserted before each quote that does not follow a mark, so the loop
-- ends although the text grows.
pub escape_lem :
    (c : ℕ) (s : Bytes)
    → (escape_single_quote (c ∷ s)
        ≡ (if c == b'\'' then undefined else ok (c ∷ escaped b'\'' b'\'' c s)))
      × (escape_double_quote (c ∷ s)
          ≡ (if c == b'"' then undefined else ok (c ∷ escaped b'"' b'\\' c s)))
unfolding escape_single_quote escape_double_quote
escape_lem c s = (escape_first b'\'' b'\'' c s, escape_first b'"' b'\\' c s)
