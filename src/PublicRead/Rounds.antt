-- ===== src/PublicRead/Rounds.antt =====
-- The check of a select ends, whatever the select: an embedded select is shorter.
use stseen.Prelude.{
  ◌&&◌, ℕ, zero, suc, ◌+◌, ◌≤◌, ◌≡◌, refl, Bool, true, false, List, [], ◌∷◌, ◌++◌, Option, none,
  some, reverse, if◌then◌else◌, ◌==◌, any, All, All-map, length, length-append, Text, text_eq,
  arith, Bool-cases, Option-cases, inl, inr,
}
use stseen.Prelude.Words.{length-trim-le, length-reverse}
use stseen.PublicRead.{
  ReadCheck, passed, refused, type_error, unfinished, Columns, listed, inherited, columns_of,
  next_depth, prepend, parts_from, top_level_parts, check_column, then_check, check_part,
  check_parts, check_table, check_select, assert_public_select,
}
use stseen.PublicRead.Pattern.{
  name_chars, name, without_alias, after_colon, after_name, with_name, without_hint, in_parens,
  before_paren, embedded, embedded_in, column,
}

-- The parts that a loop returns, none of them longer than the bound.
abbrev AreShort : ℕ → Option (List Text) → Type 0
AreShort n none = Unit
AreShort n (some parts) = All (λ part. length part ≤ n) parts

AreShort-mono : (m n : ℕ) (o : Option (List Text)) → m ≤ n → AreShort m o → AreShort n o
AreShort-mono m n none h k = tt
AreShort-mono m n (some parts) h k =
    All-map (λ part. length part ≤ m) (λ part. length part ≤ n) parts (λ part e. omega arith) k

prepend-AreShort :
    (n : ℕ) (splits : Bool) (current : Text) (o : Option (List Text))
    → length current ≤ n
    → AreShort n o
    → AreShort n (prepend splits current o)
prepend-AreShort n splits current none h k = tt
prepend-AreShort n true current (some parts) h k = (omega (arith, length-trim-le current), k)
prepend-AreShort n false current (some parts) h k = k

short_step :
    (splits : Bool) (current select : Text) (c : ℕ)
    → length (if splits then [] else current ++ c ∷ []) + length select
      ≤ length current + suc (length select)
short_step splits current select c = ground (arith, length-append current (c ∷ []))

parts_from-AreShort :
    (depth : ℕ) (current select : Text)
    → AreShort (length current + length select) (parts_from depth current select)
unfolding parts_from
parts_from-AreShort zero current [] = (omega (arith, length-trim-le current), tt)
parts_from-AreShort (suc depth) current [] = tt
parts_from-AreShort depth current (c ∷ select) = elim (Option-cases (next_depth depth c)) [
  | inl e ↦ rw (parts_from, e) tt
  | inr e ↦
      (rw (parts_from, e.1)
        (prepend-AreShort (length current + suc (length select)) (c == 44 && depth == 0) current _
          (omega arith)
          (AreShort-mono _ (length current + suc (length select)) _
            (short_step (c == 44 && depth == 0) current select c)
            (parts_from-AreShort e.0 (if c == 44 && depth == 0 then [] else current ++ c ∷ [])
              select))))
]

length-name_chars : (t : Text) → length (name_chars t).1 ≤ length t
length-name_chars [] = omega arith
length-name_chars (c ∷ t) = ground (arith, length-name_chars t)

-- What follows the name that a text begins with.
abbrev rest_of : Option (Text × Text) → Text
rest_of none = []
rest_of (some found) = found.1

length-name : (t : Text) → length (rest_of (name t)) ≤ length t
unfolding name
length-name [] = omega arith
length-name (c ∷ t) = ground (arith, length-name_chars t)

length-after_colon :
    (t : Text) (o : Option (Text × Text))
    → length (rest_of o) ≤ length t
    → length (after_colon t o) ≤ length t
length-after_colon t none h = omega arith
length-after_colon t (some (alias, [])) h = omega arith
length-after_colon t (some (alias, c ∷ rest)) h = ground arith

abbrev text_of : Option Text → Text
text_of none = []
text_of (some t) = t

length-after_name :
    (o : Option (Text × Text)) → length (text_of (after_name o)) ≤ length (rest_of o)
length-after_name none = omega arith
length-after_name (some found) = omega arith

length-without_hint : (t : Text) → length (text_of (without_hint t)) ≤ length t
length-without_hint [] = omega arith
length-without_hint (c ∷ t) = elim (Bool-cases (c == 33)) [
  | inl e ↦ rw e (omega (arith, length-after_name (name t), length-name t))
  | inr e ↦ rw e (omega arith)
]

-- An option whose text, where it has one, is shorter.
abbrev IsShorter : ℕ → Option Text → Type 0
IsShorter n none = Unit
IsShorter n (some t) = suc (length t) ≤ n

IsShorter-mono : (m n : ℕ) (o : Option Text) → m ≤ n → IsShorter m o → IsShorter n o
IsShorter-mono m n none h k = tt
IsShorter-mono m n (some t) h k = omega arith

before_paren-IsShorter : (t : Text) → IsShorter (length t) (before_paren t)
before_paren-IsShorter [] = tt
before_paren-IsShorter (c ∷ t) = elim (Bool-cases (c == 41)) [
  | inl e ↦ rw e (omega (arith, length-reverse t))
  | inr e ↦ rw e tt
]

in_parens-IsShorter : (o : Option Text) → IsShorter (length (text_of o)) (in_parens o)
in_parens-IsShorter none = tt
in_parens-IsShorter (some []) = tt
in_parens-IsShorter (some (c ∷ t)) = elim (Bool-cases (c == 40)) [
  | inl e ↦ rw e (
      IsShorter-mono (length (reverse t)) (suc (length t)) (before_paren (reverse t))
        (omega (arith, length-reverse t)) (before_paren-IsShorter (reverse t)))
  | inr e ↦ rw e tt
]

-- A resource whose select, where there is one, is shorter.
abbrev Embeds : ℕ → Option (Text × Text) → Type 0
Embeds n none = Unit
Embeds n (some found) = suc (length found.1) ≤ n

with_name-Embeds :
    (n : ℕ) (relation : Text) (o : Option Text) → IsShorter n o → Embeds n (with_name relation o)
with_name-Embeds n relation none h = tt
with_name-Embeds n relation (some t) h = h

embedded_in-Embeds : (o : Option (Text × Text)) → Embeds (length (rest_of o)) (embedded_in o)
embedded_in-Embeds none = tt
embedded_in-Embeds (some found) =
    with_name-Embeds (length found.1) found.0 (in_parens (without_hint found.1)) (
      IsShorter-mono _ (length found.1) _ (length-without_hint found.1)
        (in_parens-IsShorter (without_hint found.1)))

Embeds-mono : (m n : ℕ) (o : Option (Text × Text)) → m ≤ n → Embeds m o → Embeds n o
Embeds-mono m n none h k = tt
Embeds-mono m n (some found) h k = omega arith

-- A select that a part embeds is shorter than the part.
embedded-Embeds : (part : Text) → Embeds (length part) (embedded part)
unfolding embedded
embedded-Embeds part =
    Embeds-mono _ (length part) (embedded_in (name (without_alias part)))
      (omega (
        arith,
        length-name (without_alias part),
        length-after_colon part (name part) (length-name part),
      ))
      (embedded_in-Embeds (name (without_alias part)))

abbrev pub is_unfinished : ReadCheck → Bool
is_unfinished passed = false
is_unfinished refused = false
is_unfinished type_error = false
is_unfinished unfinished = true

finished-then_check :
    (a b : ReadCheck)
    → is_unfinished a ≡ false
    → is_unfinished b ≡ false
    → is_unfinished (then_check a b) ≡ false
finished-then_check passed b h k = k
finished-then_check refused b h k = refl
finished-then_check type_error b h k = refl
finished-then_check unfinished b h k = cc

finished-check_column :
    (columns : Columns) (o : Option Text) → is_unfinished (check_column columns o) ≡ false
finished-check_column columns none = refl
finished-check_column (listed allowed) (some name) = ground arith
finished-check_column inherited (some name) = refl

module _ (rounds : ℕ) (inner : Text → Text → ReadCheck)
    (inner-finished : (table select : Text)
      → suc (length select) ≤ rounds
      → is_unfinished (inner table select) ≡ false) where
  finished-check_part :
      (columns : Columns) (o : Option (Text × Text)) (part : Text)
      → Embeds rounds o
      → is_unfinished (check_part inner columns o part) ≡ false
  finished-check_part columns none part h = finished-check_column columns (column part)
  finished-check_part columns (some found) part h = inner-finished found.0 found.1 h

  finished-check_parts :
      (columns : Columns) (parts : List Text)
      → All (λ part. length part ≤ rounds) parts
      → is_unfinished (check_parts inner columns parts) ≡ false
  finished-check_parts columns [] h = refl
  finished-check_parts columns (part ∷ parts) h =
      finished-then_check (check_part inner columns (embedded part) part) _
        (finished-check_part columns (embedded part) part
          (Embeds-mono (length part) rounds (embedded part) h.0 (embedded-Embeds part)))
        (finished-check_parts columns parts h.1)

  finished-check_table :
      (columns : Option Columns) (parts : Option (List Text))
      → AreShort rounds parts
      → is_unfinished (check_table inner columns parts) ≡ false
  finished-check_table none parts h = refl
  finished-check_table (some columns) none h = refl
  finished-check_table (some columns) (some parts) h = elim (Bool-cases (any (text_eq []) parts)) [
    | inl e ↦ rw e refl
    | inr e ↦ rw e (finished-check_parts columns parts h)
  ]

check_select-finished :
    (rounds : ℕ) (table select : Text)
    → suc (length select) ≤ rounds
    → is_unfinished (check_select rounds table select) ≡ false
unfolding check_select top_level_parts
check_select-finished zero table select h = absurd (omega arith)
check_select-finished (suc rounds) table select h =
    finished-check_table rounds (check_select rounds) (check_select-finished rounds)
      (columns_of table) (top_level_parts select)
      (AreShort-mono (0 + length select) rounds (top_level_parts select) (omega arith)
        (parts_from-AreShort 0 [] select))

-- Whatever the select, the check of it ends: no chain of embedded selects is longer than the
-- select itself.
pub assert_public_select-finished :
    (table select : Text) → is_unfinished (assert_public_select table select) ≡ false
unfolding assert_public_select
assert_public_select-finished table select =
    check_select-finished (suc (length select)) table select (omega arith)
