-- ===== src/Dashboard/Bands.antt =====
-- The list cut into the months that its roles open in, apps/web/lib/list-groups.ts.
pub mod Laws
mod Examples
use stseen.Dashboard.{DashboardSort, by_window, by_confidence, by_evidence, by_company}
use stseen.Dashboard.View.{ListItem}
use stseen.Prelude.{
  ℕ, Bool, true, false, List, [], ◌∷◌, ◌++◌, Option, none, some, if◌then◌else◌, take, Text, text_eq,
  codes,
}
use stseen.Prelude.Int.{ℤ, leb_ℤ}

-- The dates of a row, as texts.
pub record Outlook : Type 0 where
  pub expected : Text
  pub start : Text
  pub end : Text

pub record RoleBand (F : Type 0) : Type 0 where
  pub key : Text
  pub title : Text
  pub items : List (ListItem F Outlook)

-- Whether a parsed date is no later than another: a comparison with NaN is false.
abbrev no_later : Option ℤ → Option ℤ → Bool
no_later none later = false
no_later (some time) none = false
no_later (some time) (some later) = leb_ℤ time later

abbrev midnight : Text → Text
midnight date = take 10 date ++ codes "T00:00:00Z"

-- `parse` is Date.parse, none where that is NaN, `month_title` the title of the month that a date
-- is in, and `now` the current time in ISO form.
module _ (F : Type 0) (parse : Text → Option ℤ) (month_title : Text → Text) (now : Text) where
  -- The key and the title of the band.
  abbrev pub band_of_outlook : Option Outlook → Text × Text
  band_of_outlook none = (codes "undated", codes "No date yet")
  band_of_outlook (some outlook) =
      if no_later (parse (midnight outlook.start)) (parse (midnight now))
      then (codes "open", codes "Open now, or its window has started")
      else (take 7 outlook.expected, month_title (take 7 outlook.expected ++ codes "-01T00:00:00Z"))

  abbrev pub band_for : ListItem F Outlook → Text × Text
  band_for item = band_of_outlook item.outlook

  abbrev pub new_band : ListItem F Outlook → RoleBand F
  new_band item = record { key = (band_for item).0; title = (band_for item).1; items = item ∷ [] }

  -- The bands after a row, in the last of them or in a new one.
  abbrev pub add_after : RoleBand F → List (RoleBand F) → ListItem F Outlook → List (RoleBand F)
  add_after last [] item =
      if text_eq last.key (band_for item).0
      then record last { items = last.items ++ item ∷ [] } ∷ []
      else last ∷ new_band item ∷ []
  add_after band (next ∷ bands) item = band ∷ add_after next bands item

  abbrev pub add_to : List (RoleBand F) → ListItem F Outlook → List (RoleBand F)
  add_to [] item = new_band item ∷ []
  add_to (band ∷ bands) item = add_after band bands item

  abbrev pub add_all : List (RoleBand F) → List (ListItem F Outlook) → List (RoleBand F)
  add_all bands [] = bands
  add_all bands (item ∷ items) = add_all (add_to bands item) items

  abbrev pub one_run : List (ListItem F Outlook) → List (RoleBand F)
  one_run items = record { key = codes "all"; title = []; items = items } ∷ []

  unfoldable pub band_roles : List (ListItem F Outlook) → DashboardSort → List (RoleBand F)
  band_roles [] sort = one_run []
  band_roles (item ∷ items) by_window = add_all [] (item ∷ items)
  band_roles (item ∷ items) by_confidence = one_run (item ∷ items)
  band_roles (item ∷ items) by_evidence = one_run (item ∷ items)
  band_roles (item ∷ items) by_company = one_run (item ∷ items)
