-- ===== src/Auth/Address.antt =====
-- What a normalized address looks like.
use stseen.Auth.{
  at_sign, dot, has_dot_inside, is_domain, is_after_local, email_pattern, normalize_email,
}
use stseen.Prelude.{
  ℕ, ◌≤◌, ◌≡◌, refl, ap, ◌∙◌, inl, inr, Bool, true, not, ◌&&◌, [], ◌∷◌, ◌++◌, Option, none, some,
  ◌==◌, length, all, Text, arith, Bool-cases,
}
use stseen.Prelude.Words.{is_space}

-- Neither white space nor an at sign.
abbrev pub is_plain : ℕ → Bool
is_plain c = not (is_space c) && not (c == at_sign)

abbrev pub IsPart : Text → Type 0
IsPart s = (all is_plain s ≡ true) × (1 ≤ length s)

-- `local@name.suffix`, of three parts that are not empty.
abbrev pub IsAddress : Text → Type 0
IsAddress e =
    (local : Text) × (name : Text) × (suffix : Text) × (e
      ≡ local ++ at_sign ∷ (name ++ dot ∷ suffix))
    × IsPart local
    × IsPart name
    × IsPart suffix

abbrev DotSplit : Text → Type 0
DotSplit s = (a : Text) × (b : Text) × (s ≡ a ++ dot ∷ b) × (all is_plain a ≡ true) × IsPart b

dot_split : (s : Text) → has_dot_inside s ≡ true → all is_plain s ≡ true → DotSplit s
dot_split [] h p = absurd (ground arith)
dot_split (c ∷ []) h p = absurd (ground arith)
dot_split (c ∷ d ∷ s) h p = elim (Bool-cases (c == dot)) [
  | inl e ↦ ([], d ∷ s, ground arith, refl, (ground arith, omega arith))
  | inr e ↦
      let (a, b, eq, plain, part) = dot_split (d ∷ s) (ground arith) (ground arith) in
      (c ∷ a, b, ap (◌∷◌ c) eq, ground arith, part)
]

abbrev AtSplit : Text → Type 0
AtSplit s =
    (local : Text) × (domain : Text) × (s ≡ local ++ at_sign ∷ domain)
    × (all is_plain local ≡ true)
    × (is_domain domain ≡ true)
    × (all (λ c. not (is_space c)) domain ≡ true)

at_split : (s : Text) → is_after_local s ≡ true → all (λ c. not (is_space c)) s ≡ true → AtSplit s
at_split [] h p = absurd (ground arith)
at_split (c ∷ s) h p = elim (Bool-cases (c == at_sign)) [
  | inl e ↦ ([], s, ground arith, refl, ground arith, ground arith)
  | inr e ↦
      let (local, domain, eq, plain, d, q) = at_split s (ground arith) (ground arith) in
      (c ∷ local, domain, ap (◌∷◌ c) eq, ground arith, d, q)
]

plain-domain :
    (s : Text)
    → all (λ c. not (is_space c)) s ≡ true
    → all (λ c. not (c == at_sign)) s ≡ true
    → all is_plain s ≡ true
plain-domain [] h k = refl
plain-domain (c ∷ s) h k = ground (arith, plain-domain s)

email_pattern-IsAddress : (e : Text) → email_pattern e ≡ true → IsAddress e
unfolding email_pattern
email_pattern-IsAddress [] h = absurd (ground arith)
email_pattern-IsAddress (c ∷ s) h =
    let (local, domain, eq, plain, d, spaceless) = at_split s (ground arith) (ground arith) in
    let (name, suffix, eq', part, part') = domain_parts domain d spaceless in
    (
      c ∷ local,
      name,
      suffix,
      ap (◌∷◌ c) (eq ∙ ap (λ t. local ++ at_sign ∷ t) eq'),
      (ground arith, omega arith),
      part,
      part',
    )
  where
    domain_parts :
        (t : Text)
        → is_domain t ≡ true
        → all (λ x. not (is_space x)) t ≡ true
        → (a : Text) × (b : Text) × (t ≡ a ++ dot ∷ b) × IsPart a × IsPart b
    domain_parts [] k p = absurd (ground arith)
    domain_parts (x ∷ t) k p =
        let plain = plain-domain (x ∷ t) p (ground arith) in
        let (a, b, eq, plain_a, part) = dot_split t (ground arith) (ground arith) in
        (x ∷ a, b, ap (◌∷◌ x) eq, (ground arith, omega arith), part)

-- An address that is accepted has at most 254 code units and is of the form `local@name.suffix`,
-- the three parts not empty and free of white space and at signs.
pub normalize_email-IsAddress :
    (lower : Text → Text) (value : Option Text) (e : Text)
    → normalize_email lower value ≡ some e
    → IsAddress e × (length e ≤ 254)
unfolding normalize_email
normalize_email-IsAddress lower none e h = absurd (ground arith)
normalize_email-IsAddress lower (some value) e h =
    (email_pattern-IsAddress e (ground arith), ground arith)
