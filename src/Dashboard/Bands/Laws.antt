-- ===== src/Dashboard/Bands/Laws.antt =====
-- The bands of a list hold its rows in its order, under a heading for each run of rows.
use stseen.Dashboard.{by_window}
use stseen.Dashboard.Bands.{Outlook, RoleBand, band_for, new_band, add_after, add_all, band_roles}
use stseen.Dashboard.View.{ListItem}
use stseen.Prelude.{
  ◌≡◌, refl, ◌∙◌, false, List, [], ◌∷◌, ◌++◌, Option, All, All-append, Text, text_eq, text_eq→eq,
  sym, Bool-cases, inl, inr,
}
use mathlib.Core.List.{append-nil, append_assoc}
use stseen.Prelude.Int.{ℤ}

append_item : {A : Type 0} (xs : List A) (x : A) → (xs ++ x ∷ [] ≡ []) → ⊥
append_item [] x h = cc
append_item (y ∷ xs) x h = cc

module _ (F : Type 0) (parse : Text → Option ℤ) (month_title : Text → Text) (now : Text) where
  -- The rows of the bands, one band after the other.
  abbrev pub rows_of : List (RoleBand F) → List (ListItem F Outlook)
  rows_of [] = []
  rows_of (band ∷ bands) = band.items ++ rows_of bands

  -- A band with rows, each of them of this band.
  abbrev pub IsFilled : RoleBand F → Type 0
  IsFilled band =
      ((band.items ≡ []) → ⊥)
      × All (λ item. (band_for F parse month_title now item).0 ≡ band.key) band.items

  abbrev ApartFrom : Text → List (RoleBand F) → Type 0
  ApartFrom key [] = Unit
  ApartFrom key (band ∷ bands) = (text_eq key band.key ≡ false) × ApartFrom band.key bands

  -- No two bands next to each other have the same key.
  abbrev pub AreApart : List (RoleBand F) → Type 0
  AreApart [] = Unit
  AreApart (band ∷ bands) = ApartFrom band.key bands

  add_after-rows :
      (band : RoleBand F) (bands : List (RoleBand F)) (item : ListItem F Outlook)
      → rows_of (add_after F parse month_title now band bands item)
        ≡ rows_of (band ∷ bands) ++ item ∷ []
  add_after-rows band [] item =
      elim (Bool-cases (text_eq band.key (band_for F parse month_title now item).0)) [
        | inl e ↦ rw e (simp (append-nil))
        | inr e ↦ rw e (simp (append-nil))
      ]
  add_after-rows band (next ∷ bands) item =
      rw (add_after-rows next bands item)
        (sym (append_assoc band.items (rows_of (next ∷ bands)) (item ∷ [])))

  add_after-IsFilled :
      (band : RoleBand F) (bands : List (RoleBand F)) (item : ListItem F Outlook)
      → All IsFilled (band ∷ bands)
      → All IsFilled (add_after F parse month_title now band bands item)
  add_after-IsFilled band [] item h =
      elim (Bool-cases (text_eq band.key (band_for F parse month_title now item).0)) [
        | inl e ↦
            (rw e (
              (
                append_item band.items item,
                All-append (λ x. (band_for F parse month_title now x).0 ≡ band.key) band.items
                    (item ∷ []) h.0.1 (sym (text_eq→eq band.key _ e), tt),
              ),
              tt,
            ))
        | inr e ↦ rw e (h.0, ((λ d. cc, (refl, tt)), tt))
      ]
  add_after-IsFilled band (next ∷ bands) item h = (h.0, add_after-IsFilled next bands item h.1)

  add_after-ApartFrom :
      (key : Text) (band : RoleBand F) (bands : List (RoleBand F)) (item : ListItem F Outlook)
      → ApartFrom key (band ∷ bands)
      → ApartFrom key (add_after F parse month_title now band bands item)
  add_after-ApartFrom key band [] item h =
      elim (Bool-cases (text_eq band.key (band_for F parse month_title now item).0)) [
        | inl e ↦ rw e (h.0, tt)
        | inr e ↦ rw e (h.0, (e, tt))
      ]
  add_after-ApartFrom key band (next ∷ bands) item h =
      (h.0, add_after-ApartFrom band.key next bands item h.1)

  add_all-rows :
      (bands : List (RoleBand F)) (items : List (ListItem F Outlook))
      → rows_of (add_all F parse month_title now bands items) ≡ rows_of bands ++ items
  add_all-rows bands [] = sym (append-nil (rows_of bands))
  add_all-rows [] (item ∷ items) = add_all-rows (new_band F parse month_title now item ∷ []) items
  add_all-rows (band ∷ bands) (item ∷ items) =
      add_all-rows (add_after F parse month_title now band bands item) items
      ∙ rw (add_after-rows band bands item)
          (append_assoc (rows_of (band ∷ bands)) (item ∷ []) items)

  add_all-IsFilled :
      (bands : List (RoleBand F)) (items : List (ListItem F Outlook))
      → All IsFilled bands
      → All IsFilled (add_all F parse month_title now bands items)
  add_all-IsFilled bands [] h = h
  add_all-IsFilled [] (item ∷ items) h =
      add_all-IsFilled (new_band F parse month_title now item ∷ []) items
        ((λ d. cc, (refl, tt)), tt)
  add_all-IsFilled (band ∷ bands) (item ∷ items) h =
      add_all-IsFilled (add_after F parse month_title now band bands item) items
        (add_after-IsFilled band bands item h)

  add_after-AreApart :
      (band : RoleBand F) (bands : List (RoleBand F)) (item : ListItem F Outlook)
      → ApartFrom band.key bands
      → AreApart (add_after F parse month_title now band bands item)
  add_after-AreApart band [] item h =
      elim (Bool-cases (text_eq band.key (band_for F parse month_title now item).0)) [
        | inl e ↦ rw e tt
        | inr e ↦ rw e (e, tt)
      ]
  add_after-AreApart band (next ∷ bands) item h = add_after-ApartFrom band.key next bands item h

  add_all-AreApart :
      (bands : List (RoleBand F)) (items : List (ListItem F Outlook))
      → AreApart bands
      → AreApart (add_all F parse month_title now bands items)
  add_all-AreApart bands [] h = h
  add_all-AreApart [] (item ∷ items) h =
      add_all-AreApart (new_band F parse month_title now item ∷ []) items tt
  add_all-AreApart (band ∷ bands) (item ∷ items) h =
      add_all-AreApart (add_after F parse month_title now band bands item) items
        (add_after-AreApart band bands item h)

  -- The bands of a list by date, unless it is empty, hold its rows in its order: every band has a
  -- row and only rows of its key, and no two bands next to each other have the same key.
  pub band_roles-banded :
      (item : ListItem F Outlook) (items : List (ListItem F Outlook))
      → (rows_of (band_roles F parse month_title now (item ∷ items) by_window) ≡ item ∷ items)
        × All IsFilled (band_roles F parse month_title now (item ∷ items) by_window)
        × AreApart (band_roles F parse month_title now (item ∷ items) by_window)
  unfolding band_roles
  band_roles-banded item items = (
    add_all-rows [] (item ∷ items),
    add_all-IsFilled [] (item ∷ items) tt,
    add_all-AreApart [] (item ∷ items) tt,
  )
