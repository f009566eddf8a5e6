-- ===== src/GuestCache/Headers.antt =====
-- The headers of a response by name, after headers are set or left out.
use stseen.GuestCache.Serve.{header, without, with_header, no_header}
use stseen.Prelude.{
  ◌≡◌, refl, sym, subst, inl, inr, Bool, true, false, List, [], ◌∷◌, Option, none, some, All, ◌↔◌,
  ◌||◌, Text, text_eq, text_eq→eq, if◌then◌else◌, Bool-cases, arith,
}

header-without_other :
    (name other : Text) (headers : List (Text × Text))
    → text_eq other name ≡ false
    → header name (without other headers) ≡ header name headers
header-without_other name other [] h = refl
header-without_other name other (x ∷ headers) h = elim (Bool-cases (text_eq x.0 other)) [
  | inl e ↦
      (rw
        (
          e,
          subst (λ t. text_eq t name ≡ false) (sym (text_eq→eq x.0 other e)) h,
          header-without_other name other headers h,
        )
        refl)
  | inr e ↦ rw (e, header-without_other name other headers h) refl
]

header-without_same :
    (name : Text) (headers : List (Text × Text)) → header name (without name headers) ≡ none
header-without_same name [] = refl
header-without_same name (x ∷ headers) = elim (Bool-cases (text_eq x.0 name)) [
  | inl e ↦ rw e (header-without_same name headers)
  | inr e ↦ rw (e, e) (header-without_same name headers)
]

pub header-without :
    (name key : Text) (headers : List (Text × Text))
    → header name (without key headers) ≡ (if text_eq key name then none else header name headers)
header-without name key headers = elim (Bool-cases (text_eq key name)) [
  | inl e ↦ rw (e, text_eq→eq key name e) (header-without_same name headers)
  | inr e ↦ rw e (header-without_other name key headers e)
]

header-with_header :
    (name key value : Text) (headers : List (Text × Text))
    → header name (with_header key value headers)
      ≡ (if text_eq key name then some value else header name headers)
header-with_header name key value headers = elim (Bool-cases (text_eq key name)) [
  | inl e ↦ rw (header-without name key headers, e) refl
  | inr e ↦ rw (e, header-without name key headers, e) refl
]

pub header-two :
    (name a v b w : Text) (headers : List (Text × Text))
    → header name (with_header a v (with_header b w headers))
      ≡ (if text_eq a name then some v else if text_eq b name then some w else header name headers)
header-two name a v b w headers =
    rw (header-with_header name a v (with_header b w headers), header-with_header name b w headers)
      refl

pub header-stripped :
    (name c d : Text) (headers : List (Text × Text))
    → header name (without c (without d headers))
      ≡ (if text_eq c name || text_eq d name then none else header name headers)
header-stripped name c d headers =
    rw (header-without name c (without d headers), header-without name d headers) (ground arith)

pub hit_of_stored :
    (a b c d e : Bool) (hit fresh told kept value : Option Text)
    → (if a
        then hit
        else if b
        then fresh
        else if c
        then none
        else if c
        then told
        else if b
        then kept
        else if d || e
        then none
        else value)
      ≡ (if a then hit else if b then fresh else if c || d || e then none else value)
hit_of_stored true b c d e hit fresh told kept value = refl
hit_of_stored false true c d e hit fresh told kept value = refl
hit_of_stored false false true d e hit fresh told kept value = refl
hit_of_stored false false false d e hit fresh told kept value = refl

pub no_header-All :
    (name : Text) (headers : List (Text × Text))
    → (no_header (header name headers) ≡ true) ↔ All (λ h. text_eq h.0 name ≡ false) headers
no_header-All name [] = (λ e. tt, λ a. refl)
no_header-All name (h ∷ headers) = ground (arith, no_header-All name headers)
