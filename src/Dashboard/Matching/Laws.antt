-- ===== src/Dashboard/Matching/Laws.antt =====
-- Taking a filter off.
use stseen.Dashboard.{FilterKey, same_key, filter_keys, DashboardFilters, RoleFacts, cleared}
use stseen.Dashboard.Matching.{filter_matches, matches_all}
use stseen.Prelude.{◌≡◌, refl, ◌||◌, [], all, arith, Text}
use stseen.Prelude.Words.{trim, words}

module _ (lower : Text → Text) (lower_empty : lower [] ≡ []) where
  -- With a filter taken off, its own predicate holds and every other is as it was.
  pub filter_matches-cleared :
      (r : RoleFacts) (f : DashboardFilters) (k j : FilterKey)
      → filter_matches lower r (cleared k f) j ≡ (same_key j k || filter_matches lower r f j)
  unfolding filter_matches cleared
  filter_matches-cleared r f FilterKey.query FilterKey.query = unfold trim words in rw lower_empty
  filter_matches-cleared r f FilterKey.query _ = refl
  filter_matches-cleared r f FilterKey.discipline FilterKey.discipline = ground arith
  filter_matches-cleared r f FilterKey.discipline _ = refl
  filter_matches-cleared r f FilterKey.company FilterKey.company = refl
  filter_matches-cleared r f FilterKey.company _ = refl
  filter_matches-cleared r f FilterKey.type FilterKey.type = ground arith
  filter_matches-cleared r f FilterKey.type _ = refl
  filter_matches-cleared r f FilterKey.season FilterKey.season = refl
  filter_matches-cleared r f FilterKey.season _ = refl
  filter_matches-cleared r f FilterKey.year FilterKey.year = refl
  filter_matches-cleared r f FilterKey.year _ = refl
  filter_matches-cleared r f FilterKey.window FilterKey.window = refl
  filter_matches-cleared r f FilterKey.window _ = refl
  filter_matches-cleared r f FilterKey.confidence FilterKey.confidence = refl
  filter_matches-cleared r f FilterKey.confidence _ = refl
  filter_matches-cleared r f FilterKey.cycles FilterKey.cycles = refl
  filter_matches-cleared r f FilterKey.cycles _ = refl
  filter_matches-cleared r f FilterKey.precision FilterKey.precision = refl
  filter_matches-cleared r f FilterKey.precision _ = refl
  filter_matches-cleared r f FilterKey.location FilterKey.location = refl
  filter_matches-cleared r f FilterKey.location _ = refl
  filter_matches-cleared r f FilterKey.listed FilterKey.listed = refl
  filter_matches-cleared r f FilterKey.listed _ = refl
  filter_matches-cleared r f FilterKey.watched FilterKey.watched = refl
  filter_matches-cleared r f FilterKey.watched _ = refl

  -- So the roles that match without a filter are those that pass every other one.
  pub matches_all-cleared :
      (r : RoleFacts) (f : DashboardFilters) (k : FilterKey)
      → matches_all lower r (cleared k f)
        ≡ all (λ j. same_key j k || filter_matches lower r f j) filter_keys
  unfolding matches_all
  matches_all-cleared r f k = simp (filter_matches-cleared r f k)
