-- ===== src/Dashboard/Matching/Keys.antt =====
-- The filter keys: their equality, and tests that every one of them passes.
use stseen.Dashboard.{
  FilterKey, query, discipline, company, type, season, year, window, confidence, cycles, precision,
  location, listed, watched, filter_keys, same_key,
}
use stseen.Prelude.{
  ◌≡◌, ◌∙◌, refl, ap, sym, Bool, true, false, ◌&&◌, ◌||◌, List, [], ◌∷◌, all, any, arith,
}

pub same_key→eq : (j k : FilterKey) → same_key j k ≡ true → j ≡ k
same_key→eq query query h = refl
same_key→eq query _ h = cc
same_key→eq discipline discipline h = refl
same_key→eq discipline _ h = cc
same_key→eq company company h = refl
same_key→eq company _ h = cc
same_key→eq type type h = refl
same_key→eq type _ h = cc
same_key→eq season season h = refl
same_key→eq season _ h = cc
same_key→eq year year h = refl
same_key→eq year _ h = cc
same_key→eq window window h = refl
same_key→eq window _ h = cc
same_key→eq confidence confidence h = refl
same_key→eq confidence _ h = cc
same_key→eq cycles cycles h = refl
same_key→eq cycles _ h = cc
same_key→eq precision precision h = refl
same_key→eq precision _ h = cc
same_key→eq location location h = refl
same_key→eq location _ h = cc
same_key→eq listed listed h = refl
same_key→eq listed _ h = cc
same_key→eq watched watched h = refl
same_key→eq watched _ h = cc

listed_key : (k : FilterKey) → any (λ j. same_key j k) filter_keys ≡ true
listed_key query = refl
listed_key discipline = refl
listed_key company = refl
listed_key type = refl
listed_key season = refl
listed_key year = refl
listed_key window = refl
listed_key confidence = refl
listed_key cycles = refl
listed_key precision = refl
listed_key location = refl
listed_key listed = refl
listed_key watched = refl

-- `same` picks out one key: the two lemmas say what becomes of `all` by the test's answer there.
module _ (same p : FilterKey → Bool) where
  all_but_of_holds :
      (ks : List FilterKey)
      → ((j : FilterKey) → same j ≡ true → p j ≡ true)
      → all (λ j. same j || p j) ks ≡ all p ks
  all_but_of_holds [] h = refl
  all_but_of_holds (j ∷ ks) h = ground (arith, all_but_of_holds ks h, h j)

  all_of_fails :
      (ks : List FilterKey)
      → ((j : FilterKey) → same j ≡ true → p j ≡ false)
      → any same ks ≡ true
      → all p ks ≡ false
  all_of_fails [] h m = cc
  all_of_fails (j ∷ ks) h m = ground (arith, all_of_fails ks h, h j)

-- A test passes at every key when it does at one and at all the others.
pub all-split :
    (p : FilterKey → Bool) (k : FilterKey)
    → all p filter_keys ≡ (p k && all (λ j. same_key j k || p j) filter_keys)
all-split p k = by_answer (p k) refl
  where
    at_key : (b : Bool) → p k ≡ b → (j : FilterKey) → same_key j k ≡ true → p j ≡ b
    at_key b e j h = ap p (same_key→eq j k h) ∙ e

    by_answer :
        (b : Bool)
        → p k ≡ b
        → all p filter_keys ≡ (p k && all (λ j. same_key j k || p j) filter_keys)
    by_answer true e =
        rw e (sym (all_but_of_holds (λ j. same_key j k) p filter_keys (at_key true e)))
    by_answer false e =
        rw e (all_of_fails (λ j. same_key j k) p filter_keys (at_key false e) (listed_key k))
