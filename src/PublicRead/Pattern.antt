-- ===== src/PublicRead/Pattern.antt =====
-- The two patterns that a part of a select is matched against (apps/web/lib/public-read-policy.ts).
use stseen.Prelude.{
  ℕ, Bool, ◌&&◌, ◌||◌, [], ◌∷◌, Option, none, some, reverse, if◌then◌else◌, leb, ◌==◌, Text,
}

abbrev pub is_name_start : ℕ → Bool
is_name_start c = leb 97 c && leb c 122 || c == 95

abbrev pub is_name_char : ℕ → Bool
is_name_char c = is_name_start c || leb 48 c && leb c 57

abbrev pub name_chars : Text → Text × Text
name_chars [] = ([], [])
name_chars (c ∷ t) =
    let rest = name_chars t in if is_name_char c then (c ∷ rest.0, rest.1) else ([], c ∷ t)

-- `[a-z_][a-z0-9_]*` and what follows it.
unfoldable pub name : Text → Option (Text × Text)
name [] = none
name (c ∷ t) =
    let rest = name_chars t in if is_name_start c then some (c ∷ rest.0, rest.1) else none

abbrev pub after_colon : Text → Option (Text × Text) → Text
after_colon t none = t
after_colon t (some (alias, [])) = t
after_colon t (some (alias, c ∷ rest)) = if c == 58 then rest else t

-- `(?:[a-z_][a-z0-9_]*:)?`
abbrev pub without_alias : Text → Text
without_alias t = after_colon t (name t)

abbrev pub after_name : Option (Text × Text) → Option Text
after_name none = none
after_name (some found) = some found.1

-- `(?:!(?:inner|left|[a-z_][a-z0-9_]*))?`
abbrev pub without_hint : Text → Option Text
without_hint [] = some []
without_hint (c ∷ t) = if c == 33 then after_name (name t) else some (c ∷ t)

abbrev pub before_paren : Text → Option Text
before_paren [] = none
before_paren (c ∷ t) = if c == 41 then some (reverse t) else none

-- `\(([\s\S]*)\)$`
abbrev pub in_parens : Option Text → Option Text
in_parens none = none
in_parens (some []) = none
in_parens (some (c ∷ t)) = if c == 40 then before_paren (reverse t) else none

abbrev pub with_name : Text → Option Text → Option (Text × Text)
with_name relation none = none
with_name relation (some select) = some (relation, select)

abbrev pub embedded_in : Option (Text × Text) → Option (Text × Text)
embedded_in none = none
embedded_in (some found) = with_name found.0 (in_parens (without_hint found.1))

-- `part.match(EMBEDDED)`: the relation and the select of it.
unfoldable pub embedded : Text → Option (Text × Text)
unfolding name
embedded part = embedded_in (name (without_alias part))

abbrev pub whole_name : Option (Text × Text) → Option Text
whole_name none = none
whole_name (some (found, [])) = some found
whole_name (some (found, c ∷ rest)) = none

-- `part.match(COLUMN)?.[1]`
unfoldable pub column : Text → Option Text
unfolding name
column part = whole_name (name (without_alias part))
