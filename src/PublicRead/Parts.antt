-- ===== src/PublicRead/Parts.antt =====
-- The parts of a select that is written from a tree.
use mathlib.Core.List.{append_assoc, append-nil}
use stseen.Prelude.{
  ℕ, suc, ◌≡◌, refl, ap, ◌∙◌, sym, Bool, true, false, not, ◌&&◌, List, [], ◌∷◌, ◌++◌, Option, none,
  some, ◌==◌, all, all-append, all_imp, any, Text, text_eq, arith,
}
use stseen.Prelude.Words.{is_space, trim_of_all}
use stseen.PublicRead.{parts_from, prepend, top_level_parts}
use stseen.PublicRead.Pattern.{is_name_char}
use stseen.PublicRead.Select.{
  Item, Items, column, embed, one, more, print_alias, print_hint, print_item, print_items, is_name,
  is_optional_name, has_names, all_have_names,
}

prepend-false : (current : Text) (o : Option (List Text)) → prepend false current o ≡ o
prepend-false current none = refl
prepend-false current (some parts) = refl

-- A text that the loop takes over whole, at the depths that `up` leads to: all of them, or those
-- inside a parenthesis.
abbrev IsWhole : (ℕ → ℕ) → Text → Type 0
IsWhole up w =
    (depth : ℕ) (current rest : Text)
    → parts_from (up depth) current (w ++ rest) ≡ parts_from (up depth) (current ++ w) rest

abbrev anywhere : ℕ → ℕ
anywhere depth = depth

module _ (up : ℕ → ℕ) where
  nil-IsWhole : IsWhole up []
  nil-IsWhole depth current rest = rw (append-nil current) refl

  append-IsWhole : (v w : Text) → IsWhole up v → IsWhole up w → IsWhole up (v ++ w)
  append-IsWhole v w h k depth current rest =
      rw
        (
          append_assoc v w rest,
          h depth current (w ++ rest),
          k depth (current ++ v) rest,
          append_assoc current v w,
        )
        refl

  -- A character that is no parenthesis, and no comma outside every parenthesis.
  char-IsWhole :
      (c : ℕ)
      → (c == 40) ≡ false
      → (c == 41) ≡ false
      → ((depth : ℕ) → (c == 44 && up depth == 0) ≡ false)
      → IsWhole up (c ∷ [])
  unfolding parts_from
  char-IsWhole c h k l depth current rest =
      rw (parts_from, h, k, l depth)
        (prepend-false current (parts_from (up depth) (current ++ c ∷ []) rest))

paren-IsWhole : (w : Text) → IsWhole suc w → IsWhole anywhere (40 ∷ (w ++ 41 ∷ []))
unfolding parts_from
paren-IsWhole w h depth current rest =
    prepend-false current _
    ∙ ap (parts_from (suc depth) (current ++ 40 ∷ [])) (append_assoc w (41 ∷ []) rest)
    ∙ h depth (current ++ 40 ∷ []) (41 ∷ rest)
    ∙ prepend-false ((current ++ 40 ∷ []) ++ w) _
    ∙ ap (λ done. parts_from depth done rest)
        (append_assoc (current ++ 40 ∷ []) w (41 ∷ [])
          ∙ append_assoc current (40 ∷ []) (w ++ 41 ∷ []))

chars-IsWhole : (up : ℕ → ℕ) (t : Text) → all is_name_char t ≡ true → IsWhole up t
chars-IsWhole up [] h = nil-IsWhole up
chars-IsWhole up (c ∷ t) h =
    append-IsWhole up (c ∷ []) t
      (char-IsWhole up c (ground arith) (ground arith) (λ depth. ground arith))
      (chars-IsWhole up t (ground arith))

name-chars : (t : Text) → is_name t ≡ true → all is_name_char t ≡ true
name-chars [] h = refl
name-chars (c ∷ t) h = ground arith

alias-IsWhole :
    (up : ℕ → ℕ) (alias : Option Text)
    → is_optional_name alias ≡ true
    → IsWhole up (print_alias alias)
alias-IsWhole up none h = nil-IsWhole up
alias-IsWhole up (some t) h =
    append-IsWhole up t (58 ∷ []) (chars-IsWhole up t (name-chars t h))
      (char-IsWhole up 58 refl refl (λ depth. refl))

hint-IsWhole :
    (up : ℕ → ℕ) (hint : Option Text) → is_optional_name hint ≡ true → IsWhole up (print_hint hint)
hint-IsWhole up none h = nil-IsWhole up
hint-IsWhole up (some t) h =
    append-IsWhole up (33 ∷ []) t (char-IsWhole up 33 refl refl (λ depth. refl))
      (chars-IsWhole up t (name-chars t h))

mutual
  unfolding print_item print_items has_names all_have_names

  item-IsWhole : (up : ℕ → ℕ) (item : Item) → has_names item ≡ true → IsWhole up (print_item item)
  item-IsWhole up (column alias name) h =
      append-IsWhole up (print_alias alias) name (alias-IsWhole up alias (ground arith))
        (chars-IsWhole up name (name-chars name (ground arith)))
  item-IsWhole up (embed alias name hint items) h =
      append-IsWhole up (print_alias alias) _ (alias-IsWhole up alias (ground arith)) (
        append-IsWhole up name _ (chars-IsWhole up name (name-chars name (ground arith))) (
          append-IsWhole up (print_hint hint) _ (hint-IsWhole up hint (ground arith)) (λ depth.
            paren-IsWhole (print_items items) (items-IsWhole items (ground arith)) (up depth))))

  items-IsWhole : (items : Items) → all_have_names items ≡ true → IsWhole suc (print_items items)
  items-IsWhole (one item) h = item-IsWhole suc item h
  items-IsWhole (more item items) h =
      append-IsWhole suc (print_item item) _ (item-IsWhole suc item (ground arith)) (
        append-IsWhole suc (44 ∷ []) (print_items items)
          (char-IsWhole suc 44 refl refl (λ depth. ground arith))
          (items-IsWhole items (ground arith)))

abbrev no_space : ℕ → Bool
no_space c = not (is_space c)

name_char-no_space : (c : ℕ) → is_name_char c ≡ true → no_space c ≡ true
unfolding is_space
name_char-no_space c h = ground arith

name-no_space : (t : Text) → is_name t ≡ true → all no_space t ≡ true
name-no_space t h = all_imp is_name_char no_space t name_char-no_space (name-chars t h)

append-no_space :
    (v w : Text) → all no_space v ≡ true → all no_space w ≡ true → all no_space (v ++ w) ≡ true
append-no_space v w h k = rw (all-append no_space v w, h) k

alias-no_space :
    (alias : Option Text) → is_optional_name alias ≡ true → all no_space (print_alias alias) ≡ true
unfolding is_space
alias-no_space none h = refl
alias-no_space (some t) h = append-no_space t (58 ∷ []) (name-no_space t h) refl

hint-no_space :
    (hint : Option Text) → is_optional_name hint ≡ true → all no_space (print_hint hint) ≡ true
unfolding is_space
hint-no_space none h = refl
hint-no_space (some t) h = name-no_space t h

mutual
  unfolding print_item print_items has_names all_have_names is_space

  item-no_space : (item : Item) → has_names item ≡ true → all no_space (print_item item) ≡ true
  item-no_space (column alias name) h =
      append-no_space (print_alias alias) name (alias-no_space alias (ground arith))
        (name-no_space name (ground arith))
  item-no_space (embed alias name hint items) h =
      append-no_space (print_alias alias) _ (alias-no_space alias (ground arith)) (
        append-no_space name _ (name-no_space name (ground arith)) (
          append-no_space (print_hint hint) _ (hint-no_space hint (ground arith)) (
            append-no_space (print_items items) (41 ∷ []) (items-no_space items (ground arith))
              refl)))

  items-no_space :
      (items : Items) → all_have_names items ≡ true → all no_space (print_items items) ≡ true
  items-no_space (one item) h = item-no_space item h
  items-no_space (more item items) h =
      append-no_space (print_item item) (44 ∷ print_items items) (item-no_space item (ground arith))
        (items-no_space items (ground arith))

name-not_empty : (t w : Text) → is_name t ≡ true → text_eq [] (t ++ w) ≡ false
name-not_empty [] w h = cc
name-not_empty (c ∷ t) w h = refl

alias-not_empty :
    (alias : Option Text) (name w : Text)
    → is_optional_name alias ≡ true
    → is_name name ≡ true
    → text_eq [] (print_alias alias ++ (name ++ w)) ≡ false
alias-not_empty none name w h k = name-not_empty name w k
alias-not_empty (some t) name w h k =
    rw (append_assoc t (58 ∷ []) (name ++ w)) (name-not_empty t (58 ∷ (name ++ w)) h)

item-not_empty : (item : Item) → has_names item ≡ true → text_eq [] (print_item item) ≡ false
unfolding print_item has_names
item-not_empty (column alias name) h =
    ap (λ t. text_eq [] (print_alias alias ++ t)) (sym (append-nil name))
    ∙ alias-not_empty alias name [] (ground arith) (ground arith)
item-not_empty (embed alias name hint items) h =
    alias-not_empty alias name _ (ground arith) (ground arith)

-- The parts of a select that is written from a tree.
abbrev pub printed : Items → List Text
printed (one item) = print_item item ∷ []
printed (more item items) = print_item item ∷ printed items

pub printed-not_empty :
    (items : Items) → all_have_names items ≡ true → any (text_eq []) (printed items) ≡ false
unfolding all_have_names
printed-not_empty (one item) h = ground (arith, item-not_empty item)
printed-not_empty (more item items) h = ground (arith, item-not_empty item, printed-not_empty items)

pub top_level_parts-print_items :
    (items : Items)
    → all_have_names items ≡ true
    → top_level_parts (print_items items) ≡ some (printed items)
unfolding top_level_parts parts_from print_items all_have_names
top_level_parts-print_items (one item) h =
    ap (parts_from 0 []) (sym (append-nil (print_item item)))
    ∙ item-IsWhole anywhere item h 0 [] []
    ∙ rw (trim_of_all (print_item item) (item-no_space item h)) refl
top_level_parts-print_items (more item items) h =
    item-IsWhole anywhere item (ground arith) 0 [] (44 ∷ print_items items)
    ∙ ap (prepend true (print_item item)) (top_level_parts-print_items items (ground arith))
    ∙ ap (λ t. some (t ∷ printed items))
        (trim_of_all (print_item item) (item-no_space item (ground arith)))
