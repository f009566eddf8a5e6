-- ===== src/PublicRead/Select.antt =====
-- Selects as trees, as they are written, and which of them read listed columns only: what the
-- check of a select is meant to decide.
use stseen.PublicRead.{Columns, listed, inherited, columns_of}
use stseen.PublicRead.Pattern.{is_name_start, is_name_char}
use stseen.Prelude.{
  Bool, true, false, ◌&&◌, [], ◌∷◌, ◌++◌, Option, none, some, all, any, Text, text_eq,
}

mutual
  -- A column, or a resource that is embedded, each under an alias or not.
  pub data Item : Type 0 where
    column : Option Text → Text → Item
    embed : Option Text → Text → Option Text → Items → Item

  pub data Items : Type 0 where
    one : Item → Items
    more : Item → Items → Items

abbrev pub print_alias : Option Text → Text
print_alias none = []
print_alias (some alias) = alias ++ 58 ∷ []

abbrev pub print_hint : Option Text → Text
print_hint none = []
print_hint (some hint) = 33 ∷ hint

unfoldable mutual
  pub print_item : Item → Text
  print_item (column alias name) = print_alias alias ++ name
  print_item (embed alias name hint items) =
      print_alias alias ++ (name ++ (print_hint hint ++ (40 ∷ (print_items items ++ 41 ∷ []))))

  pub print_items : Items → Text
  print_items (one item) = print_item item
  print_items (more item items) = print_item item ++ 44 ∷ print_items items

abbrev pub is_name : Text → Bool
is_name [] = false
is_name (c ∷ t) = is_name_start c && all is_name_char t

abbrev pub is_optional_name : Option Text → Bool
is_optional_name none = true
is_optional_name (some t) = is_name t

-- Whether the words of a select are names.
unfoldable mutual
  pub has_names : Item → Bool
  has_names (column alias name) = is_optional_name alias && is_name name
  has_names (embed alias name hint items) =
      is_optional_name alias && is_name name && is_optional_name hint && all_have_names items

  pub all_have_names : Items → Bool
  all_have_names (one item) = has_names item
  all_have_names (more item items) = has_names item && all_have_names items

abbrev pub is_listed : Columns → Text → Bool
is_listed (listed allowed) name = any (text_eq name) allowed
is_listed inherited name = false

-- Whether every column of a select is listed for the relation that it is read from.
unfoldable mutual
  pub is_readable_item : Columns → Item → Bool
  is_readable_item columns (column alias name) = is_listed columns name
  is_readable_item columns (embed alias name hint items) = is_readable (columns_of name) items

  pub is_readable : Option Columns → Items → Bool
  is_readable none items = false
  is_readable (some columns) (one item) = is_readable_item columns item
  is_readable (some columns) (more item items) =
      is_readable_item columns item && is_readable (some columns) items
