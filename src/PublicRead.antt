-- ===== src/PublicRead.antt =====
-- The reads of a signed-out render: which selects and which calls of functions are let through
-- (apps/web/lib/public-read-policy.ts).
pub mod Tables
pub mod Pattern
pub mod Select
pub mod Parts
pub mod Matches
pub mod Laws
pub mod Rounds
pub mod Never
mod Examples
use stseen.Prelude.{
  ℕ, zero, suc, ◌+◌, Bool, true, false, ◌&&◌, ◌||◌, List, [], ◌∷◌, ◌++◌, Option, none, some,
  if◌then◌else◌, leb, ◌==◌, any, length, Text, text_eq, includes, map, codes,
}
use stseen.Prelude.Words.{trim}
use stseen.PublicRead.Pattern.{embedded, column}
use stseen.PublicRead.Tables.{public_table_columns, public_functions, inherited_names}

-- What a check does: it returns, throws `PublicReadRefused`, or throws the engine's `TypeError`;
-- `unfinished` is a check whose rounds have run out.
pub data ReadCheck : Type 0 where
  passed : ReadCheck
  refused : ReadCheck
  type_error : ReadCheck
  unfinished : ReadCheck

-- What `PUBLIC_TABLE_COLUMNS[table]` is: the columns, or a thing that the object inherits.
pub data Columns : Type 0 where
  listed : List Text → Columns
  inherited : Columns

abbrev columns_in : List (Text × List Text) → Text → Option Columns
columns_in [] table = if any (text_eq table) inherited_names then some inherited else none
columns_in (entry ∷ rest) table =
    if text_eq entry.0 table then some (listed entry.1) else columns_in rest table

unfoldable pub columns_of : Text → Option Columns
columns_of = columns_in public_table_columns

-- The depth after a character, none where a parenthesis closes that none opened.
abbrev pub next_depth : ℕ → ℕ → Option ℕ
next_depth depth c =
    if c == 40 then some (suc depth) else if c == 41 then outer depth else some depth
  where
    outer : ℕ → Option ℕ
    outer zero = none
    outer (suc d) = some d

abbrev pub prepend : Bool → Text → Option (List Text) → Option (List Text)
prepend splits current none = none
prepend splits current (some parts) = some (if splits then trim current ∷ parts else parts)

abbrev last_part : ℕ → Text → Option (List Text)
last_part zero current = some (trim current ∷ [])
last_part (suc depth) current = none

unfoldable pub parts_from : ℕ → Text → Text → Option (List Text)
parts_from depth current [] = last_part depth current
parts_from depth current (c ∷ select) = elim (next_depth depth c) [
  | none ↦ none
  | some d ↦
      (let splits = c == 44 && depth == 0 in
        prepend splits current (parts_from d (if splits then [] else current ++ c ∷ []) select))
]

-- `topLevelParts`; none where it throws.
unfoldable pub top_level_parts : Text → Option (List Text)
unfolding parts_from
top_level_parts = parts_from 0 []

-- `!column || !allowed.includes(column)`
abbrev pub check_column : Columns → Option Text → ReadCheck
check_column columns none = refused
check_column (listed allowed) (some name) = if any (text_eq name) allowed then passed else refused
check_column inherited (some name) = type_error

abbrev pub then_check : ReadCheck → ReadCheck → ReadCheck
then_check passed next = next
then_check refused next = refused
then_check type_error next = type_error
then_check unfinished next = unfinished

-- One round of the loop, for the relation and the select that the part embeds.
abbrev pub check_part :
    (Text → Text → ReadCheck) → Columns → Option (Text × Text) → Text → ReadCheck
check_part inner columns none part = check_column columns (column part)
check_part inner columns (some found) part = inner found.0 found.1

-- The loop over the parts; `inner` is the check of an embedded select.
abbrev pub check_parts : (Text → Text → ReadCheck) → Columns → List Text → ReadCheck
check_parts inner columns [] = passed
check_parts inner columns (part ∷ parts) =
    then_check (check_part inner columns (embedded part) part) (check_parts inner columns parts)

abbrev pub check_table : (Text → Text → ReadCheck) → Option Columns → Option (List Text) → ReadCheck
check_table inner none parts = refused
check_table inner (some columns) none = refused
check_table inner (some columns) (some parts) =
    if any (text_eq []) parts then refused else check_parts inner columns parts

unfoldable pub check_select : ℕ → Text → Text → ReadCheck
unfolding columns_of top_level_parts
check_select zero table select = unfinished
check_select (suc rounds) table select =
    check_table (check_select rounds) (columns_of table) (top_level_parts select)

-- `assertPublicSelect`; an embedded select is shorter than the select that it stands in.
unfoldable pub assert_public_select : Text → Text → ReadCheck
unfolding check_select
assert_public_select table select = check_select (suc (length select)) table select

-- A value of an argument of a function.
pub data ArgValue : Type 0 where
  null : ArgValue
  undefined : ArgValue
  given : ArgValue

abbrev is_given : ArgValue → Bool
is_given null = false
is_given undefined = false
is_given given = true

abbrev small_letter : ℕ → ℕ
small_letter c = if leb 65 c && leb c 90 then c + 32 else c

-- `/user/i.test(name)`
unfoldable pub names_user : Text → Bool
names_user name = includes (map small_letter name) (codes "user")

abbrev check_arguments : List (Text × ArgValue) → ReadCheck
check_arguments [] = passed
check_arguments (arg ∷ args) =
    let rest = check_arguments args in if names_user arg.0 && is_given arg.1 then refused else rest

-- `assertPublicRpc`
unfoldable pub assert_public_rpc : Text → List (Text × ArgValue) → ReadCheck
assert_public_rpc fn args =
    if any (text_eq fn) public_functions then check_arguments args else refused
