-- ===== src/Auth.antt =====
-- Signing in and up: apps/web/lib/auth/policy.ts and the routes under apps/web/app/api/auth.
pub mod Address
pub mod Delay
pub mod Routes
pub mod Laws
pub mod Uniform
mod Examples
use stseen.Prelude.{
  ℕ, zero, suc, ◌+◌, ◌-◌, ◌*◌, ◌/◌, Bool, true, false, not, ◌&&◌, ◌||◌, List, [], ◌∷◌, ◌++◌, Option,
  none, some, if◌then◌else◌, ltb, leb, ◌==◌, length, all, any, Text, codes, text_eq, starts_with,
  includes,
}
use stseen.Prelude.Words.{is_space, trim}

abbrev pub password_min_length : ℕ
password_min_length = 8

abbrev pub password_max_bytes : ℕ
password_max_bytes = 72

abbrev pub email_max_length : ℕ
email_max_length = 254

abbrev is_high : ℕ → Bool
is_high c = leb 55296 c && leb c 56319

abbrev is_low : ℕ → Bool
is_low c = leb 56320 c && leb c 57343

-- `[...s].length`: two surrogates that make a pair are one character.
unfoldable pub characters : Text → ℕ
characters [] = 0
characters (c ∷ []) = 1
characters (c ∷ d ∷ s) =
    let whole = characters s in
    let rest = characters (d ∷ s) in if is_high c && is_low d then suc whole else suc rest

abbrev bytes_of : ℕ → ℕ
bytes_of c = if ltb c 128 then 1 else if ltb c 2048 then 2 else 3

-- `new TextEncoder().encode(s).byteLength`; a lone surrogate is replaced by a character of three.
unfoldable pub utf8_bytes : Text → ℕ
utf8_bytes [] = 0
utf8_bytes (c ∷ []) = bytes_of c
utf8_bytes (c ∷ d ∷ s) =
    let whole = utf8_bytes s in
    let rest = utf8_bytes (d ∷ s) in if is_high c && is_low d then 4 + whole else bytes_of c + rest

pub data PasswordProblem : Type 0 where
  too_short too_long : PasswordProblem

-- `passwordProblems`
unfoldable pub password_problems : Text → List PasswordProblem
password_problems password =
    (if ltb (characters password) password_min_length then too_short ∷ [] else [])
    ++ (if ltb password_max_bytes (utf8_bytes password) then too_long ∷ [] else [])

abbrev at_sign : ℕ
at_sign = 64

abbrev dot : ℕ
dot = 46

-- A dot with something after it.
abbrev pub has_dot_inside : Text → Bool
has_dot_inside [] = false
has_dot_inside (c ∷ []) = false
has_dot_inside (c ∷ d ∷ s) = c == dot || has_dot_inside (d ∷ s)

-- What follows the at sign: no second one, and a dot inside, past the first character.
abbrev is_domain : Text → Bool
is_domain [] = false
is_domain (c ∷ s) = all (λ d. not (d == at_sign)) (c ∷ s) && has_dot_inside s

-- What follows the first character of the address.
abbrev is_after_local : Text → Bool
is_after_local [] = false
is_after_local (c ∷ s) = if c == at_sign then is_domain s else is_after_local s

abbrev is_address : Text → Bool
is_address [] = false
is_address (c ∷ s) = not (c == at_sign) && is_after_local s

-- `EMAIL_PATTERN`, `^[^\s@]+@[^\s@]+\.[^\s@]+$`
unfoldable pub email_pattern : Text → Bool
email_pattern s = all (λ c. not (is_space c)) s && is_address s

-- `lower` is `String.prototype.toLowerCase`; a value that is no string is `none`.
unfoldable pub normalize_email : (Text → Text) → Option Text → Option Text
unfolding email_pattern
normalize_email lower none = none
normalize_email lower (some value) =
    let email = lower (trim value) in
    if leb (length email) email_max_length && email_pattern email then some email else none

-- `Math.ceil(n / step)` of whole numbers, for a step of at least one.
abbrev pub ceil_div : ℕ → ℕ → ℕ
ceil_div n step = (n + (step - 1)) / step

-- `uniformDelay`; `elapsed` is `Math.max(0, now - startedAt)`.
unfoldable pub uniform_delay : (started_at now floor step : ℕ) → ℕ
uniform_delay started_at now floor step =
    let elapsed = now - started_at in
    let target =
      if leb elapsed floor then floor else floor + ceil_div (elapsed - floor) step * step in
    target - elapsed

-- `SignInFailure`
pub data SignInFailure : Type 0 where
  invalid_credentials email_not_confirmed rate_limited sign_in_failed : SignInFailure

-- An error of the auth service: its code and its status, if it has them.
pub record ServiceError : Type 0 where
  pub code : Option Text
  pub status : Option ℕ

abbrev pub has_code : List Text → Option Text → Bool
has_code known none = false
has_code known (some code) = any (text_eq code) known

abbrev has_status : ℕ → Option ℕ → Bool
has_status known none = false
has_status known (some status) = status == known

-- `publicSignInFailure`
unfoldable pub public_sign_in_failure : ServiceError → SignInFailure
public_sign_in_failure e =
    if has_code (codes "email_not_confirmed" ∷ []) e.code
    then email_not_confirmed
    else if has_code (codes "over_request_rate_limit" ∷ []) e.code || has_status 429 e.status
    then rate_limited
    else if has_code
          (codes "invalid_credentials" ∷ codes "user_not_found" ∷ codes "validation_failed" ∷ [])
          e.code
        || has_status 400 e.status
    then invalid_credentials
    else sign_in_failed

pub data LinkFailure : Type 0 where
  link_unusable link_invalid : LinkFailure

-- `publicLinkFailure`
unfoldable pub public_link_failure : Option Text → LinkFailure
public_link_failure code =
    if has_code (codes "validation_failed" ∷ []) code then link_invalid else link_unusable

pub data PasswordUpdateFailure : Type 0 where
  same_password weak_password reset_session_expired update_failed : PasswordUpdateFailure

-- `publicPasswordUpdateFailure`
unfoldable pub public_password_update_failure : ServiceError → PasswordUpdateFailure
public_password_update_failure e =
    if has_code (codes "same_password" ∷ []) e.code
    then same_password
    else if has_code (codes "weak_password" ∷ []) e.code
    then weak_password
    else if has_code
          (codes "session_not_found"
            ∷ codes "session_expired"
            ∷ codes "refresh_token_not_found"
            ∷ [])
          e.code
        || has_status 401 e.status
    then reset_session_expired
    else update_failed

-- `AuthLinkType`
pub data AuthLinkType : Type 0 where
  email recovery : AuthLinkType

abbrev type_matches : AuthLinkType → Text → Bool
type_matches email type = text_eq type (codes "email") || text_eq type (codes "signup")
type_matches recovery type = text_eq type (codes "recovery")

-- `[A-Za-z0-9_-]`
abbrev is_token_char : ℕ → Bool
is_token_char c =
    leb 65 c && leb c 90 || leb 97 c && leb c 122 || leb 48 c && leb c 57 || c == 95 || c == 45

unfoldable pub is_token : Text → Bool
is_token t = all is_token_char t && leb 16 (length t) && leb (length t) 256

-- `parseAuthFragment`, from the two parameters that it reads: the token of a link of that type.
unfoldable pub parse_auth_fragment : (token_hash type : Option Text) → AuthLinkType → Option Text
parse_auth_fragment (some token) (some type) expected =
    if type_matches expected type && is_token token then some token else none
parse_auth_fragment (some token) none expected = none
parse_auth_fragment none type expected = none

-- A parsed URL, and the parser `new URL(value, base)`, which throws or gives one.
pub record Url : Type 0 where
  pub origin : Text
  pub pathname : Text
  pub search : Text

abbrev base : Text
base = codes "https://firstseen.invalid"

abbrev is_auth_page : Text → Bool
is_auth_page path =
    text_eq path (codes "/signin")
    || starts_with path (codes "/auth/")
    || starts_with path (codes "/api/")

abbrev landing : Option Url → Text
landing none = codes "/"
landing (some url) =
    if not (text_eq url.origin base) || is_auth_page url.pathname
    then codes "/"
    else url.pathname ++ url.search

-- `safeReturnTo`
unfoldable pub safe_return_to : (Text → Option Url) → Option Text → Text
safe_return_to parse none = codes "/"
safe_return_to parse (some value) =
    if not (starts_with value (codes "/"))
      || starts_with value (codes "//")
      || includes value (92 ∷ [])
    then codes "/"
    else landing (parse value)
