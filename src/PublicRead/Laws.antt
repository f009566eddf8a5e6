-- ===== src/PublicRead/Laws.antt =====
-- What the check of a select lets through.
use stseen.Prelude.{
  ℕ, suc, ◌≤◌, ◌≡◌, refl, ◌∙◌, Bool, true, false, ◌&&◌, [], ◌∷◌, ◌++◌, Option, some, length,
  length-append, Text, arith, Option-cases, zero, inl, inr,
}
use stseen.PublicRead.{
  ReadCheck, passed, refused, type_error, unfinished, Columns, listed, inherited, columns_of,
  check_column, then_check, check_part, check_parts, check_select, assert_public_select,
}
use stseen.PublicRead.Pattern.{embedded}
use stseen.PublicRead.Select.{
  Item, Items, embed, one, more, print_alias, print_hint, print_item, print_items, has_names,
  all_have_names, is_listed, is_readable_item, is_readable,
}
use stseen.PublicRead.Parts.{printed, printed-not_empty, top_level_parts-print_items}
use stseen.PublicRead.Matches.{embedded-column, embedded-embed}

abbrev pub is_passed : ReadCheck → Bool
is_passed passed = true
is_passed refused = false
is_passed type_error = false
is_passed unfinished = false

is_passed-then_check : (a b : ReadCheck) → is_passed (then_check a b) ≡ (is_passed a && is_passed b)
is_passed-then_check passed b = refl
is_passed-then_check refused b = refl
is_passed-then_check type_error b = refl
is_passed-then_check unfinished b = refl

and_true : (b : Bool) → (b && true) ≡ b
and_true true = refl
and_true false = refl

is_passed-check_column :
    (columns : Columns) (name : Text)
    → is_passed (check_column columns (some name)) ≡ is_listed columns name
is_passed-check_column (listed allowed) name = ground arith
is_passed-check_column inherited name = refl

embed_longer :
    (alias : Option Text) (name : Text) (hint : Option Text) (items : Items)
    → suc (length (print_items items)) ≤ length (print_item (embed alias name hint items))
unfolding print_item
embed_longer alias name hint items = omega (
  arith,
  length-append (print_alias alias)
      (name ++ (print_hint hint ++ (40 ∷ (print_items items ++ 41 ∷ [])))),
  length-append name (print_hint hint ++ (40 ∷ (print_items items ++ 41 ∷ []))),
  length-append (print_hint hint) (40 ∷ (print_items items ++ 41 ∷ [])),
  length-append (print_items items) (41 ∷ []),
)

check_select-print_items :
    (rounds : ℕ) (table : Text) (items : Items)
    → all_have_names items ≡ true
    → ((columns : Columns)
        → is_passed (check_parts (check_select rounds) columns (printed items))
          ≡ is_readable (some columns) items)
    → is_passed (check_select (suc rounds) table (print_items items))
      ≡ is_readable (columns_of table) items
unfolding check_select is_readable
check_select-print_items rounds table items h inner =
    rw (top_level_parts-print_items items h) (elim (Option-cases (columns_of table)) [
      | inl e ↦ rw e refl
      | inr e ↦ rw (e.1, printed-not_empty items h) (inner e.0)
    ])

mutual
  unfolding has_names all_have_names is_readable_item is_readable print_items

  check_part-print_item :
      (rounds : ℕ) (columns : Columns) (item : Item)
      → has_names item ≡ true
      → length (print_item item) ≤ rounds
      → is_passed
          (check_part (check_select rounds) columns (embedded (print_item item)) (print_item item))
        ≡ is_readable_item columns item
  check_part-print_item rounds columns (Item.column alias name) h k =
      rw ((embedded-column alias name h).0, (embedded-column alias name h).1)
        (is_passed-check_column columns name)
  check_part-print_item zero columns (embed alias name hint items) h k =
      absurd (omega (arith, embed_longer alias name hint items))
  check_part-print_item (suc rounds) columns (embed alias name hint items) h k =
      rw (embedded-embed alias name hint items h) (
        check_select-print_items rounds name items (ground arith) λ inner.
          check_parts-printed rounds inner items (ground arith)
            (omega (arith, embed_longer alias name hint items)))

  check_parts-printed :
      (rounds : ℕ) (columns : Columns) (items : Items)
      → all_have_names items ≡ true
      → length (print_items items) ≤ rounds
      → is_passed (check_parts (check_select rounds) columns (printed items))
        ≡ is_readable (some columns) items
  check_parts-printed rounds columns (one item) h k =
      is_passed-then_check _ passed
      ∙ and_true (
          is_passed (
            check_part (check_select rounds) columns (embedded (print_item item))
              (print_item item)))
      ∙ check_part-print_item rounds columns item h k
  check_parts-printed rounds columns (more item items) h k =
      is_passed-then_check
        (check_part (check_select rounds) columns (embedded (print_item item)) (print_item item)) _
      ∙ rw
          (
            check_part-print_item rounds columns item (ground arith)
                (omega (arith, length-append (print_item item) (44 ∷ print_items items))),
            check_parts-printed rounds columns items (ground arith)
                (omega (arith, length-append (print_item item) (44 ∷ print_items items))),
          )
          refl

-- A select that is written from a tree of names is let through exactly where each of its columns, at
-- every depth, is listed for the relation that it is read from.
pub assert_public_select-print_items :
    (table : Text) (items : Items)
    → all_have_names items ≡ true
    → is_passed (assert_public_select table (print_items items))
      ≡ is_readable (columns_of table) items
unfolding assert_public_select
assert_public_select-print_items table items h =
    check_select-print_items (length (print_items items)) table items h
      λ columns. check_parts-printed (length (print_items items)) columns items h (omega arith)
