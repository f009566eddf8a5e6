-- ===== src/PublicRead/Never.antt =====
-- No select that is let through reads a relation that must never be public.
use stseen.Prelude.{
  ◌≡◌, ◌∙◌, refl, sym, Bool, true, false, List, [], ◌∷◌, ◌++◌, Option, none, some, any, All,
  All-append, Text, text_eq, arith, Bool-cases, inl, inr,
}
use stseen.Prelude.Words.{test_of_found}
use stseen.PublicRead.{Columns, columns_of, assert_public_select}
use stseen.PublicRead.Tables.{never_public_relations}
use stseen.PublicRead.Select.{
  Item, Items, column, embed, one, more, print_items, all_have_names, is_readable_item, is_readable,
}
use stseen.PublicRead.Laws.{is_passed, assert_public_select-print_items}

-- The relations that a select embeds, at every depth.
unfoldable mutual
  pub relations_of_item : Item → List Text
  relations_of_item (column alias name) = []
  relations_of_item (embed alias name hint items) = name ∷ relations_of items

  pub relations_of : Items → List Text
  relations_of (one item) = relations_of_item item
  relations_of (more item items) = relations_of_item item ++ relations_of items

abbrev is_unlisted : Option Columns → Bool
is_unlisted none = true
is_unlisted (some columns) = false

never_listed :
    (table : Text)
    → any (text_eq table) never_public_relations ≡ true
    → is_unlisted (columns_of table) ≡ true
unfolding columns_of
never_listed table =
    test_of_found (λ t. is_unlisted (columns_of t)) table never_public_relations refl

unreadable :
    (o : Option Columns) (items : Items) → is_unlisted o ≡ true → ¬ (is_readable o items ≡ true)
unfolding is_readable
unreadable none items h k = cc
unreadable (some columns) items h k = cc

-- A relation that may be read.
abbrev pub IsPublic : Text → Type 0
IsPublic table = any (text_eq table) never_public_relations ≡ false

readable-IsPublic :
    (table : Text) (items : Items) → is_readable (columns_of table) items ≡ true → IsPublic table
unfolding is_readable
readable-IsPublic table items h = elim (Bool-cases (any (text_eq table) never_public_relations)) [
  | inl e ↦ absurd (unreadable (columns_of table) items (never_listed table e) h)
  | inr e ↦ e
]

mutual
  unfolding relations_of_item relations_of is_readable_item is_readable

  item_relations-IsPublic :
      (columns : Columns) (item : Item)
      → is_readable_item columns item ≡ true
      → All IsPublic (relations_of_item item)
  item_relations-IsPublic columns (column alias name) h = tt
  item_relations-IsPublic columns (embed alias name hint items) h =
      (readable-IsPublic name items h, relations-IsPublic (columns_of name) items h)

  relations-IsPublic :
      (columns : Option Columns) (items : Items)
      → is_readable columns items ≡ true
      → All IsPublic (relations_of items)
  relations-IsPublic none items h = cc
  relations-IsPublic (some columns) (one item) h = item_relations-IsPublic columns item h
  relations-IsPublic (some columns) (more item items) h =
      All-append IsPublic (relations_of_item item) (relations_of items)
        (item_relations-IsPublic columns item (ground arith))
        (relations-IsPublic (some columns) items (ground arith))

-- A select that is written from a tree of names and let through reads no relation of
-- `NEVER_PUBLIC_RELATIONS`, neither as its own nor embedded at any depth.
pub assert_public_select-IsPublic :
    (table : Text) (items : Items)
    → all_have_names items ≡ true
    → is_passed (assert_public_select table (print_items items)) ≡ true
    → All IsPublic (table ∷ relations_of items)
assert_public_select-IsPublic table items h k =
    let readable = sym (assert_public_select-print_items table items h) ∙ k in
    (readable-IsPublic table items readable, relations-IsPublic (columns_of table) items readable)
