-- ===== src/Prelude/Words.antt =====
-- White space, words and decimal numerals of texts, as the JavaScript engine reads and writes them.
use mathlib.Core.List.{reverse-reverse, reverse-append}
use stseen.Prelude.{
  text_eq, text_eq→eq, subst, sym, ◌≤◌, length, length-append, all, all-reverse, true, not, ◌∙◌, ℕ,
  zero, suc, ap, Bool-cases, inl, inr, arith, ◌<◌, ◌+◌, ◌*◌, ◌-◌, ◌/◌, ◌%◌, ◌≡◌, refl, Bool, ◌||◌,
  ◌&&◌, List, [], ◌∷◌, ◌++◌, reverse, if◌then◌else◌, ltb, leb, ◌==◌, any, Text, codes,
}

-- The white space and line ends of ECMAScript, which `trim` and `\s` share.
unfoldable pub is_space : ℕ → Bool
is_space c =
    leb 9 c && leb c 13
    || leb 8192 c && leb c 8202
    || any (λ d. c == d) (32 ∷ 160 ∷ 5760 ∷ 8232 ∷ 8233 ∷ 8239 ∷ 8287 ∷ 12288 ∷ 65279 ∷ [])

unfoldable pub trim_start : Text → Text
unfolding is_space
trim_start [] = []
trim_start (c ∷ s) = if is_space c then trim_start s else c ∷ s

-- `s.trim()`
unfoldable pub trim : Text → Text
unfolding trim_start
trim s = reverse (trim_start (reverse (trim_start s)))

abbrev flush : Text → List Text → List Text
flush [] rest = rest
flush (c ∷ s) rest = (c ∷ s) ∷ rest

words_from : Text → Text → List Text
words_from cur [] = flush cur []
words_from cur (c ∷ s) =
    if is_space c then flush cur (words_from [] s) else words_from (cur ++ c ∷ []) s

-- `s.split(/\s+/).filter(Boolean)`
unfoldable pub words : Text → List Text
unfolding words_from is_space
words s = words_from [] s

-- `s.split(separator)`, for a separator of one code unit.
abbrev pub split_on : ℕ → Text → List Text
split_on separator [] = [] ∷ []
split_on separator (c ∷ s) = elim (split_on separator s) [
  | [] ↦ [] ∷ []
  | part ∷ parts ↦ if c == separator then [] ∷ part ∷ parts else (c ∷ part) ∷ parts
]

unfoldable pub decimal_from : ℕ → ℕ → Text → Text
decimal_from zero n acc = acc
decimal_from (suc fuel) n acc =
    let rest = decimal_from fuel (n / 10) ((48 + n % 10) ∷ acc) in
    if ltb n 10 then (48 + n) ∷ acc else rest

-- `String(n)`; a number has no more digits than one more than itself.
unfoldable pub decimal : ℕ → Text
unfolding decimal_from
decimal n = decimal_from (suc n) n []

trim_start_of_all : (s : Text) → all (λ c. not (is_space c)) s ≡ true → trim_start s ≡ s
unfolding trim_start
trim_start_of_all [] h = refl
trim_start_of_all (c ∷ s) h = ground arith

-- A text without white space is trimmed.
pub trim_of_all : (s : Text) → all (λ c. not (is_space c)) s ≡ true → trim s ≡ s
unfolding trim
trim_of_all s h =
    rw
      (
        trim_start_of_all s h,
        trim_start_of_all (reverse s) (all-reverse (λ c. not (is_space c)) s ∙ h),
      )
      (reverse-reverse s)

length-trim_start-le : (s : Text) → length (trim_start s) ≤ length s
unfolding trim_start
length-trim_start-le [] = omega arith
length-trim_start-le (c ∷ s) = ground (arith, length-trim_start-le s)

pub length-reverse : (s : Text) → length (reverse s) ≡ length s
length-reverse [] = refl
length-reverse (c ∷ s) =
    ap length (reverse-append (c ∷ []) s)
    ∙ omega (arith, length-append (reverse s) (c ∷ []), length-reverse s)

pub length-trim-le : (s : Text) → length (trim s) ≤ length s
unfolding trim
length-trim-le s = omega (
  arith,
  length-reverse (trim_start (reverse (trim_start s))),
  length-trim_start-le (reverse (trim_start s)),
  length-reverse (trim_start s),
  length-trim_start-le s,
)

-- A text that is found in a list passes a test that all of the list pass.
pub test_of_found :
    (p : Text → Bool) (t : Text) (ts : List Text)
    → all p ts ≡ true
    → any (text_eq t) ts ≡ true
    → p t ≡ true
test_of_found p t [] h k = cc
test_of_found p t (s ∷ ts) h k = elim (Bool-cases (text_eq t s)) [
  | inl e ↦ subst (λ x. p x ≡ true) (sym (text_eq→eq t s e)) (ground arith)
  | inr e ↦ test_of_found p t ts (ground arith) (ground arith)
]

-- The number that digits state, after the digits of `n`.
abbrev pub digits_value : ℕ → Text → ℕ
digits_value n [] = n
digits_value n (c ∷ t) = digits_value (n * 10 + (c - 48)) t

digits_value-decimal_from :
    (fuel n : ℕ) (acc : Text)
    → n < fuel
    → digits_value 0 (decimal_from fuel n acc) ≡ digits_value n acc
unfolding decimal_from
digits_value-decimal_from zero n acc h = absurd (omega arith)
digits_value-decimal_from (suc fuel) n acc h = elim (Bool-cases (ltb n 10)) [
  | inl e ↦ rw e (ap (λ m. digits_value m acc) (omega arith))
  | inr e ↦
      rw (e, digits_value-decimal_from fuel (n / 10) ((48 + n % 10) ∷ acc) (ground arith))
        (ap (λ m. digits_value m acc) (omega arith))
]

-- A number that is written and read back.
pub digits_value-decimal : (n : ℕ) → digits_value 0 (decimal n) ≡ n
unfolding decimal
digits_value-decimal n = digits_value-decimal_from (suc n) n [] (omega arith)

words_test : words (codes "  big  data ") ≡ codes "big" ∷ codes "data" ∷ []
unfolding words
words_test = refl

decimal_test : decimal 2027 ≡ codes "2027"
unfolding decimal
decimal_test = refl

trim_test : trim (codes "  big data ") ≡ codes "big data"
unfolding trim
trim_test = refl
