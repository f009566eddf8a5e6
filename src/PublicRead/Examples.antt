-- ===== src/PublicRead/Examples.antt =====
-- Selects of the signed-out pages, calls of functions, and a select of a name that objects inherit.
use stseen.Prelude.{◌≡◌, refl, false, [], ◌∷◌, none, some, All, codes}
use stseen.PublicRead.{
  passed, refused, type_error, null, given, columns_of, parts_from, top_level_parts, check_select,
  assert_public_select, names_user, assert_public_rpc,
}
use stseen.PublicRead.Pattern.{name, embedded, column}
use stseen.PublicRead.Select.{
  Item, Items, embed, one, more, print_item, print_items, has_names, all_have_names,
  is_readable_item, is_readable,
}
use stseen.PublicRead.Laws.{is_passed, assert_public_select-print_items}
use stseen.PublicRead.Rounds.{is_unfinished, assert_public_select-finished}
use stseen.PublicRead.Never.{relations_of, IsPublic, assert_public_select-IsPublic}
use stseen.Prelude.Words.{trim, trim_start, is_space}

-- `id,role:canonical_roles!inner(canonical_title,companies(name))`
abbrev items : Items
items = more (Item.column none (codes "id")) (
    one (
      embed (some (codes "role")) (codes "canonical_roles") (some (codes "inner")) (
        more (Item.column none (codes "canonical_title"))
          (one (embed none (codes "companies") none (one (Item.column none (codes "name"))))))))

print_items_test :
    print_items items ≡ codes "id,role:canonical_roles!inner(canonical_title,companies(name))"
unfolding print_items print_item
print_items_test = refl

assert_public_select_tests :
    (assert_public_select (codes "signals") (codes "id, companies(name,domain)") ≡ passed)
    × (assert_public_select (codes "signals") (codes "id,companies(*)") ≡ refused)
    × (assert_public_select (codes "profiles") (codes "id") ≡ refused)
    × (assert_public_select (codes "signals") (codes "id)") ≡ refused)
    × (assert_public_select (codes "signals") (codes "id,") ≡ refused)
unfolding assert_public_select check_select columns_of top_level_parts parts_from embedded column
    name trim trim_start is_space
assert_public_select_tests = (refl, refl, refl, refl, refl)

-- A name that objects inherit counts as a relation, whose own columns are not looked up.
inherited_tests :
    (assert_public_select (codes "constructor") (codes "companies(id)") ≡ passed)
    × (assert_public_select (codes "constructor") (codes "id") ≡ type_error)
unfolding assert_public_select check_select columns_of top_level_parts parts_from embedded column
    name trim trim_start is_space
inherited_tests = (refl, refl)

assert_public_rpc_tests :
    (assert_public_rpc (codes "forecast_basis") ((codes "p_User_id", null) ∷ []) ≡ passed)
    × (assert_public_rpc (codes "forecast_basis") ((codes "p_User_id", given) ∷ []) ≡ refused)
    × (assert_public_rpc (codes "delete_account") [] ≡ refused)
unfolding assert_public_rpc names_user
assert_public_rpc_tests = (refl, refl, refl)

assert_public_select-print_items_example :
    is_passed (assert_public_select (codes "forecast_changes") (print_items items))
    ≡ is_readable (columns_of (codes "forecast_changes")) items
unfolding has_names all_have_names
assert_public_select-print_items_example =
    assert_public_select-print_items (codes "forecast_changes") items refl

assert_public_select-finished_example :
    is_unfinished (assert_public_select (codes "signals") (codes "id,companies(name)")) ≡ false
assert_public_select-finished_example =
    assert_public_select-finished (codes "signals") (codes "id,companies(name)")

assert_public_select-IsPublic_example : All IsPublic (codes "forecast_changes" ∷ relations_of items)
unfolding has_names all_have_names is_readable is_readable_item columns_of
assert_public_select-IsPublic_example =
    assert_public_select-IsPublic (codes "forecast_changes") items refl
      (assert_public_select-print_items (codes "forecast_changes") items refl)
