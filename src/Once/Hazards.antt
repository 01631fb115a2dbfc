-- ===== src/Once/Hazards.antt =====
-- Core/Once.cpp, the positional `replace`: values for which a later value does not reach its
-- placeholder.
use lite_database.Common.{
  suc, ◌+◌, ◌-◌, ◌%◌, ◌^◌, ◌≤◌, ◌<◌, ◌≡◌, refl, ap, ◌∙◌, Bool, true, [], ◌∷◌, ◌++◌, append_assoc,
  arith, Bytes, length, length-append, All-append, Lacks,
}
use lite_database.Once.{Once, replace_next, new_once, append}
use lite_database.Once.Search.{replace_loop_end}
use lite_database.Once.Holes.{NoMark, replace_next_hole, replace_next_within}

-- A statement that was just begun.
abbrev fresh : Bytes → Once
fresh s = append s new_once

past_end :
    (once : Once) (v : Bytes) (escape : Bool)
    → length once.sql ≤ once.start
    → replace_next v escape once ≡ once
unfolding replace_next
past_end once v escape h =
    rw (replace_loop_end (suc (length once.sql)) once.sql once.start v h, replace_next)

-- After an empty value for the first placeholder `start` is 2^64 - 1, and every later positional
-- value is dropped: the statement keeps its other question marks.
pub replace_next_after_empty :
    (l r v : Bytes) (escape : Bool)
    → Lacks b'?' l
    → NoMark r
    → length (l ++ r) < 2 ^ 64
    → replace_next v escape (replace_next [] true (append (l ++ b'?' ∷ r) new_once))
      ≡ replace_next [] true (append (l ++ b'?' ∷ r) new_once)
unfolding append new_once
replace_next_after_empty l r v escape hl mark small =
    let step = replace_next_hole (append (l ++ b'?' ∷ r) new_once) [] l r [] refl refl hl mark in
    rw step (past_end _ v escape (omega arith))

-- A question mark inside a value is taken for the next placeholder if no more bytes follow it in
-- the value than stand before the value: the next value lands inside the one before it.
pub replace_next_inside :
    (l a b r w : Bytes)
    → Lacks b'?' l
    → Lacks b'?' a
    → NoMark r
    → NoMark (b ++ r)
    → length b ≤ length l
    → length (l ++ (a ++ b'?' ∷ (b ++ r))) < 2 ^ 64
    → (replace_next w true
        (replace_next (a ++ b'?' ∷ b) true (append (l ++ b'?' ∷ r) new_once))).sql
      ≡ l ++ (a ++ (w ++ (b ++ r)))
unfolding append new_once
replace_next_inside l a b r w hl ha mr mb short small =
    let v = a ++ b'?' ∷ b in
    let first =
      replace_next_within (append (l ++ b'?' ∷ r) new_once) l r v refl (omega arith) hl mr in
    let once' : Once = record (append (l ++ b'?' ∷ r) new_once) {
      sql = l ++ (v ++ r);
      start = (0 + (length v + 2 ^ 64 - 1)) % 2 ^ 64;
    } in
    let spelt : l ++ ((a ++ b'?' ∷ b) ++ r) ≡ (l ++ a) ++ b'?' ∷ (b ++ r) = simp append_assoc in
    let second =
      replace_next_within once' (l ++ a) (b ++ r) w spelt
        (omega (
          arith,
          length-append {0} a (b'?' ∷ b),
          length-append {0} l a,
          length-append {0} l (a ++ b'?' ∷ (b ++ r)),
          length-append {0} a (b'?' ∷ (b ++ r)),
          length-append {0} b r,
        ))
        (All-append _ l a hl ha) mb in
    rw first (ap (λ o. o.sql) second ∙ append_assoc l a (w ++ (b ++ r)))
