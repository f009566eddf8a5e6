-- ===== src/GuestCache/Trim.antt =====
-- A trimmed text is trimmed already.
use mathlib.Core.List.{reverse-append, reverse-reverse}
use stseen.Prelude.{
  ◌≡◌, refl, ap, sym, ◌∙◌, subst, Bool, true, not, [], ◌∷◌, ◌++◌, reverse, Text, Bool-cases, inl,
  inr, arith,
}
use stseen.Prelude.Words.{is_space, trim_start, trim}

-- A text that does not begin with white space.
abbrev begins_well : Text → Bool
begins_well [] = true
begins_well (c ∷ t) = not (is_space c)

trim_start_of_begins : (t : Text) → begins_well t ≡ true → trim_start t ≡ t
unfolding trim_start
trim_start_of_begins [] h = refl
trim_start_of_begins (c ∷ t) h = ground arith

begins_well-trim_start : (t : Text) → begins_well (trim_start t) ≡ true
unfolding trim_start
begins_well-trim_start [] = refl
begins_well-trim_start (c ∷ t) = elim (Bool-cases (is_space c)) [
  | inl e ↦ rw e (begins_well-trim_start t)
  | inr e ↦ rw (e, e) refl
]

begins_well-append : (u v : Text) → begins_well (u ++ v) ≡ true → begins_well u ≡ true
begins_well-append [] v h = refl
begins_well-append (c ∷ u) v h = h

-- What `trim_start` drops.
trim_start-suffix : (t : Text) → (u : Text) × (u ++ trim_start t ≡ t)
unfolding trim_start
trim_start-suffix [] = ([], refl)
trim_start-suffix (c ∷ t) = elim (Bool-cases (is_space c)) [
  | inl e ↦ (c ∷ (trim_start-suffix t).0, rw e (ap (λ s. c ∷ s) (trim_start-suffix t).1))
  | inr e ↦ ([], rw e refl)
]

-- What is kept of the end of a text that begins well begins well.
begins_well-reverse :
    (t : Text) → begins_well t ≡ true → begins_well (reverse (trim_start (reverse t))) ≡ true
begins_well-reverse t h =
    let dropped = trim_start-suffix (reverse t) in
    begins_well-append (reverse (trim_start (reverse t))) (reverse dropped.0) (
      subst (λ s. begins_well s ≡ true)
        (sym (reverse-reverse t)
          ∙ ap reverse (sym dropped.1)
          ∙ reverse-append dropped.0 (trim_start (reverse t)))
        h)

pub trim-trim : (s : Text) → trim (trim s) ≡ trim s
unfolding trim
trim-trim s =
    let kept = trim_start (reverse (trim_start s)) in
    rw
      (
        trim_start_of_begins (reverse kept)
            (begins_well-reverse (trim_start s) (begins_well-trim_start s)),
        reverse-reverse kept,
        trim_start_of_begins kept (begins_well-trim_start (reverse (trim_start s))),
      )
      refl
