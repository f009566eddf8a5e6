-- ===== src/Dashboard/Query/Plain.antt =====
-- Values of the query that are read back as they are: no comma, no white space, not empty.
use stseen.Dashboard.Query.{
  SearchParams, all_values, concat, dedupe, is_text, is_hex, hex_groups, is_uuid, is_year,
}
use stseen.Prelude.{
  ℕ, zero, suc, ◌+◌, ◌/◌, ◌%◌, ◌≤◌, ◌≡◌, refl, sym, Bool, true, not, ◌&&◌, List, [], ◌∷◌, map, ◌==◌,
  all, all_imp, All, filter, length, Text, text_eq, arith, take_of_length-le, any, subst,
  Bool-cases, inl, inr, text_eq→eq, codes,
}
use stseen.Prelude.Words.{is_space, trim, trim_of_all, split_on, decimal_from, decimal}

abbrev pub is_plain_char : ℕ → Bool
is_plain_char c = not (c == 44) && not (is_space c)

abbrev pub IsPlain : Text → Type 0
IsPlain v = (all is_plain_char v ≡ true) × (is_text v ≡ true)

split_on-plain : (v : Text) → all is_plain_char v ≡ true → split_on 44 v ≡ v ∷ []
split_on-plain [] h = refl
split_on-plain (c ∷ v) h = rw (split_on-plain v (ground arith)) (ground arith)

pub trim-plain : (v : Text) → all is_plain_char v ≡ true → trim v ≡ v
trim-plain v h =
    trim_of_all v (all_imp is_plain_char (λ c. not (is_space c)) v (λ c e. ground arith) h)

concat-plain : (vs : List Text) → All IsPlain vs → concat (map (split_on 44) vs) ≡ vs
unfolding concat
concat-plain [] h = refl
concat-plain (v ∷ vs) h = rw (split_on-plain v h.0.0, concat-plain vs h.1) refl

trims-plain : (vs : List Text) → All IsPlain vs → filter is_text (map trim vs) ≡ vs
trims-plain [] h = refl
trims-plain (v ∷ vs) h = rw (trim-plain v h.0.0, h.0.1, trims-plain vs h.1) refl

-- Different values, at most twenty of them, each plain.
abbrev pub IsSetOf : List Text → Type 0
IsSetOf vs = All IsPlain vs × (dedupe [] vs ≡ vs) × (length vs ≤ 20)

-- Such values are read back as they are.
pub all_values-IsSetOf :
    (params : SearchParams) (key : Text) (vs : List Text)
    → IsSetOf vs
    → params key ≡ vs
    → all_values params key ≡ vs
unfolding all_values
all_values-IsSetOf params key vs h e =
    rw (e, concat-plain vs h.0, trims-plain vs h.0, h.1) (take_of_length-le 20 vs h.2)

-- Letters, digits, the dash and the underscore are plain.
plain_of_bounds : (c : ℕ) → 45 ≤ c → c ≤ 122 → is_plain_char c ≡ true
unfolding is_space
plain_of_bounds c h k = ground arith

pub decimal_from-plain :
    (fuel n : ℕ) (acc : Text)
    → all is_plain_char acc ≡ true
    → all is_plain_char (decimal_from fuel n acc) ≡ true
unfolding decimal_from
decimal_from-plain zero n acc h = h
decimal_from-plain (suc fuel) n acc h = ground (
  arith,
  decimal_from-plain fuel (n / 10) ((48 + n % 10) ∷ acc),
  plain_of_bounds (48 + n % 10),
  plain_of_bounds (48 + n),
)

pub decimal-plain : (n : ℕ) → all is_plain_char (decimal n) ≡ true
unfolding decimal
decimal-plain n = decimal_from-plain (suc n) n [] refl

decimal_from-long :
    (fuel n : ℕ) (acc : Text) → is_text acc ≡ true → is_text (decimal_from fuel n acc) ≡ true
unfolding decimal_from
decimal_from-long zero n acc h = h
decimal_from-long (suc fuel) n acc h =
    ground (arith, decimal_from-long fuel (n / 10) ((48 + n % 10) ∷ acc))

pub decimal-IsPlain : (n : ℕ) → IsPlain (decimal n)
unfolding decimal decimal_from
decimal-IsPlain n =
    (decimal-plain n, ground (arith, decimal_from-long n (n / 10) ((48 + n % 10) ∷ [])))

is_hex-plain : (c : ℕ) → is_hex c ≡ true → is_plain_char c ≡ true
is_hex-plain c h = ground (arith, plain_of_bounds c)

hex_groups-plain :
    (groups : List ℕ) (n : ℕ) (t : Text) → hex_groups groups n t ≡ true → all is_plain_char t ≡ true
unfolding hex_groups
hex_groups-plain groups zero [] h = refl
hex_groups-plain [] zero (c ∷ t) h = cc
hex_groups-plain (n ∷ groups) zero (c ∷ t) h =
    ground (arith, hex_groups-plain groups n t, plain_of_bounds c)
hex_groups-plain groups (suc n) [] h = cc
hex_groups-plain groups (suc n) (c ∷ t) h =
    ground (arith, hex_groups-plain groups n t, is_hex-plain c)

pub is_uuid-IsPlain : (t : Text) → is_uuid t ≡ true → IsPlain t
unfolding is_uuid hex_groups
is_uuid-IsPlain [] h = cc
is_uuid-IsPlain (c ∷ t) h = (hex_groups-plain (4 ∷ 4 ∷ 4 ∷ 12 ∷ []) 8 (c ∷ t) h, refl)

unstated-IsPlain : (t : Text) → text_eq t (codes "unstated") ≡ true → IsPlain t
unfolding is_space
unstated-IsPlain t h = subst IsPlain (sym (text_eq→eq t (codes "unstated") h)) (refl, refl)

pub is_year-IsPlain : (t : Text) → is_year t ≡ true → IsPlain t
is_year-IsPlain [] h = cc
is_year-IsPlain (a ∷ []) h = unstated-IsPlain (a ∷ []) h
is_year-IsPlain (a ∷ b ∷ []) h = unstated-IsPlain (a ∷ b ∷ []) h
is_year-IsPlain (a ∷ b ∷ c ∷ []) h = unstated-IsPlain (a ∷ b ∷ c ∷ []) h
is_year-IsPlain (a ∷ b ∷ c ∷ d ∷ []) h = (
  ground (arith, plain_of_bounds a, plain_of_bounds b, plain_of_bounds c, plain_of_bounds d),
  refl,
)
is_year-IsPlain (a ∷ b ∷ c ∷ d ∷ e ∷ t) h = unstated-IsPlain (a ∷ b ∷ c ∷ d ∷ e ∷ t) h

-- A value of a table of plain values is plain.
pub of_table-IsPlain :
    (table : List Text) (v : Text) → All IsPlain table → any (text_eq v) table ≡ true → IsPlain v
of_table-IsPlain [] v h k = cc
of_table-IsPlain (w ∷ table) v h k = elim (Bool-cases (text_eq v w)) [
  | inl e ↦ subst IsPlain (sym (text_eq→eq v w e)) h.0
  | inr e ↦ of_table-IsPlain table v h.1 (ground arith)
]
