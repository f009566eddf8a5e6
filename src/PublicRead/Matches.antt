-- ===== src/PublicRead/Matches.antt =====
-- What the two patterns make of a part that is written from a tree.
use mathlib.Core.List.{append_assoc, append-nil, reverse-append, reverse-reverse}
use stseen.Prelude.{
  ◌≡◌, refl, ap, ◌∙◌, sym, Bool, true, not, ◌&&◌, [], ◌∷◌, ◌++◌, Option, none, some, reverse, ◌==◌,
  all, Text, arith,
}
use stseen.PublicRead.Pattern.{
  is_name_char, name_chars, name, without_alias, without_hint, before_paren, embedded, embedded_in,
  column, whole_name,
}
use stseen.PublicRead.Select.{
  Item, Items, print_alias, print_hint, print_item, print_items, is_name, is_optional_name,
  has_names,
}

-- A text that does not go on with a character of a name.
abbrev ends_name : Text → Bool
ends_name [] = true
ends_name (c ∷ t) = not (is_name_char c)

name_chars-append :
    (w rest : Text)
    → all is_name_char w ≡ true
    → ends_name rest ≡ true
    → name_chars (w ++ rest) ≡ (w, rest)
name_chars-append [] [] h k = refl
name_chars-append [] (c ∷ rest) h k = ground arith
name_chars-append (c ∷ w) rest h k = rw (name_chars-append w rest (ground arith) k) (ground arith)

name-append :
    (w rest : Text) → is_name w ≡ true → ends_name rest ≡ true → name (w ++ rest) ≡ some (w, rest)
unfolding name
name-append [] rest h k = cc
name-append (c ∷ w) rest h k = rw (name_chars-append w rest (ground arith) k) (ground arith)

-- A text that does not go on with a colon either.
abbrev no_colon : Text → Bool
no_colon [] = true
no_colon (c ∷ t) = not (is_name_char c) && not (c == 58)

without_alias-print :
    (alias : Option Text) (w rest : Text)
    → is_optional_name alias ≡ true
    → is_name w ≡ true
    → no_colon rest ≡ true
    → without_alias (print_alias alias ++ (w ++ rest)) ≡ w ++ rest
without_alias-print none w [] h k l = rw (name-append w [] k refl) refl
without_alias-print none w (c ∷ rest) h k l =
    rw (name-append w (c ∷ rest) k (ground arith)) (ground arith)
without_alias-print (some alias) w rest h k l =
    rw (append_assoc alias (58 ∷ []) (w ++ rest), name-append alias (58 ∷ (w ++ rest)) h refl) refl

name-print :
    (alias : Option Text) (w rest : Text)
    → is_optional_name alias ≡ true
    → is_name w ≡ true
    → no_colon rest ≡ true
    → name (without_alias (print_alias alias ++ (w ++ rest))) ≡ some (w, rest)
name-print alias w [] h k l =
    ap name (without_alias-print alias w [] h k l) ∙ name-append w [] k refl
name-print alias w (c ∷ rest) h k l =
    ap name (without_alias-print alias w (c ∷ rest) h k l)
    ∙ name-append w (c ∷ rest) k (ground arith)

no_colon-hint :
    (hint : Option Text) (rest : Text) → no_colon (print_hint hint ++ (40 ∷ rest)) ≡ true
no_colon-hint none rest = refl
no_colon-hint (some t) rest = refl

without_hint-print :
    (hint : Option Text) (rest : Text)
    → is_optional_name hint ≡ true
    → without_hint (print_hint hint ++ (40 ∷ rest)) ≡ some (40 ∷ rest)
without_hint-print none rest h = refl
without_hint-print (some t) rest h = rw (name-append t (40 ∷ rest) h refl) refl

before_paren-append : (w : Text) → before_paren (reverse (w ++ 41 ∷ [])) ≡ some w
before_paren-append w = rw (reverse-append w (41 ∷ []), reverse-reverse w) refl

-- A column that is written is no embedded resource, and its name is read.
pub embedded-column :
    (alias : Option Text) (w : Text)
    → has_names (Item.column alias w) ≡ true
    → (embedded (print_item (Item.column alias w)) ≡ none)
      × (column (print_item (Item.column alias w)) ≡ some w)
unfolding embedded column print_item has_names
embedded-column alias w h = (
  ap (λ t. embedded_in (name (without_alias (print_alias alias ++ t)))) (sym (append-nil w))
      ∙ ap embedded_in (name-print alias w [] (ground arith) (ground arith) refl),
  ap (λ t. whole_name (name (without_alias (print_alias alias ++ t)))) (sym (append-nil w))
      ∙ ap whole_name (name-print alias w [] (ground arith) (ground arith) refl),
)

-- The relation and the select of an embedded resource that is written are read back.
pub embedded-embed :
    (alias : Option Text) (w : Text) (hint : Option Text) (items : Items)
    → has_names (Item.embed alias w hint items) ≡ true
    → embedded (print_item (Item.embed alias w hint items)) ≡ some (w, print_items items)
unfolding embedded print_item has_names
embedded-embed alias w hint items h =
    ap embedded_in (
      name-print alias w (print_hint hint ++ (40 ∷ (print_items items ++ 41 ∷ []))) (ground arith)
        (ground arith) (no_colon-hint hint (print_items items ++ 41 ∷ [])))
    ∙ rw
        (
          without_hint-print hint (print_items items ++ 41 ∷ []) (ground arith),
          before_paren-append (print_items items),
        )
        refl
