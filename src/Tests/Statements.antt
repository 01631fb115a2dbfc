-- ===== src/Tests/Statements.antt =====
-- Examples for Core/Once.cpp and for `into` of headers/Once.h.
use lite_database.Common.{
  ℕ, ◌≡◌, refl, true, false, List, [], ◌∷◌, ◌++◌, codes, arith, suc, Bytes, some, ◌⊎◌,
}
use lite_database.Outcome.{Outcome, ok, throw}
use lite_database.Exception.{build}
use lite_database.Once.{
  Once, new_once, append, get_sql, replace_loop, replace_key, replace_next, escape_single_quote,
  escape_double_quote,
}
use lite_database.Once.Search.{fill, replace_loop_lem}
use lite_database.Once.Keys.{replace_key_lem, Missing, IsFirst, Occurs}
use lite_database.Once.Collapse.{collapse, get_sql-collapse, doubled, get_sql-doubled}
use lite_database.Once.Template.{Slot, use_all, get_sql-use_all, holes, filled, SlotsFit}
use lite_database.Once.Hazards.{replace_next_after_empty, replace_next_inside}
use lite_database.Once.Quotes.{escape_lem, escaped}
use lite_database.Session.{Methods}
use lite_database.Row.{Row}

-- insert into t values(?, ?)
abbrev insert_text : Bytes
insert_text = codes "insert into t values("

abbrev insert_slots : List Slot
insert_slots = (codes "1", codes ", ") ∷ (codes "'a'", codes ")") ∷ []

insert_slots-SlotsFit : SlotsFit insert_slots
insert_slots-SlotsFit =
    ((λ e. cc), omega arith, omega arith, (λ e. cc), ((λ e. cc), omega arith, omega arith, tt, tt))

unfoldable insert_once : Once
unfolding new_once
insert_once = record new_once { sql = codes "insert into t values(?, ?)" }

get_sql-use_all_example :
    (last : Once) × (use_all insert_slots insert_once ≡ ok last)
    × (get_sql last ≡ ok (codes "insert into t values(1, 'a')"))
    × (last.heap ≡ false)
unfolding filled holes insert_once new_once
get_sql-use_all_example =
    get_sql-use_all insert_once insert_text insert_slots refl refl (omega arith)
      insert_slots-SlotsFit (λ e. cc) (omega arith)

replace_loop_lem_example : replace_loop 9 (codes "a=??,b=?") 2 (codes "7") ≡ some (codes "a=??,b=7")
unfolding fill
replace_loop_lem_example = replace_loop_lem (codes "a=") (codes "??,b=?") (codes "7")

-- A statement with one key.
abbrev keyed : Once
unfolding new_once
keyed = record new_once { sql = codes "a=${k}" }

replace_key_lem_example :
    (Missing keyed (codes "k")
      × (replace_key (codes "k") (codes "1") true keyed
          ≡ throw (build (codes "Once::replace: ${" ∷ codes "k" ∷ codes "} not found" ∷ []))))
    ⊎ ((before : Bytes) × (after : Bytes) × Occurs keyed (codes "k") before after
        × IsFirst keyed (codes "k") before
        × (replace_key (codes "k") (codes "1") true keyed
            ≡ ok (record keyed { sql = before ++ (codes "1" ++ after) })))
replace_key_lem_example = replace_key_lem keyed (codes "k") (codes "1") true

get_sql-doubled_example : get_sql (record keyed { sql = codes "a????b" }) ≡ ok (codes "a??b")
unfolding doubled
get_sql-doubled_example =
    get_sql-doubled (record keyed { sql = codes "a????b" }) (codes "a??b") refl

-- Two positional values, the first empty: the second is dropped.
replace_next_after_empty_example :
    replace_next (codes "9") true (replace_next [] true (append (codes "a=?,b=?") new_once))
    ≡ replace_next [] true (append (codes "a=?,b=?") new_once)
replace_next_after_empty_example =
    replace_next_after_empty (codes "a=") (codes ",b=?") (codes "9") true (omega arith)
      (omega arith) (omega arith)

replace_next_inside_example :
    (replace_next
      (codes "9")
      true
      (replace_next (codes "x?") true (append (codes "a=?,b=?") new_once))).sql
    ≡ codes "a=x9,b=?"
replace_next_inside_example =
    replace_next_inside (codes "a=") (codes "x") [] (codes ",b=?") (codes "9") (omega arith)
      (omega arith) (omega arith) (omega arith) (omega arith) (omega arith)

escape_lem_example :
    (escape_single_quote (codes "it's") ≡ ok (codes "it''s"))
    × (escape_double_quote (codes "it's") ≡ ok (codes "it's"))
unfolding escaped
escape_lem_example = escape_lem b'i' (codes "t's")

keyed_sent : get_sql keyed ≡ ok (codes "a=${k}")
unfolding keyed new_once collapse
keyed_sent = get_sql-collapse keyed (λ e. cc)

-- A server that counts the statements and answers every query with no rows.
abbrev counting : Methods ℕ
counting = record {
  exec = λ sql w. (ok tt, suc w);
  query_each = λ S sql cb s w. (ok tt, s, suc w);
  close = λ w. w;
}

abbrev no_value : Row → Outcome ℕ
no_value row = ok 0
