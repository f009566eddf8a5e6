-- ===== src/Auth/Laws.antt =====
-- What the handlers give away, and when they ask the auth service.
use stseen.Auth.{
  PasswordProblem, password_problems, normalize_email, parse_auth_fragment, AuthLinkType, Url,
  public_sign_in_failure, ServiceError, is_token,
}
use stseen.Auth.Delay.{uniform_delay-boundary}
use stseen.Auth.Routes.{
  AuthRequest, AuthCall, sign_in_call, sign_up_call, reset_call, resend_call, sleep, verify_call,
  get_user_call, update_user_call, sign_out_others_call, sign_out_local_call, log_call, Reply,
  signed_in, sign_in_error, AuthRun, ServiceAnswer, ServiceAnswer.failed, done, sign_in,
  same_origin, VerifyAnswer, confirm, recover, UserAnswer, update_password, password_updated,
  confirmed, recovery_session, verified,
}
use stseen.Prelude.{
  ℕ, ◌+◌, ◌-◌, ◌*◌, ◌≡◌, ◌≢◌, Bool, true, false, ◌&&◌, List, [], ◌∷◌, Option, none, some, codes,
  Text, arith, all, any,
}

-- How long the calls sleep in all.
abbrev pub slept : List AuthCall → ℕ
slept [] = 0
slept (sleep ms ∷ calls) = ms + slept calls
slept (sign_in_call e p ∷ calls) = slept calls
slept (sign_up_call e p ∷ calls) = slept calls
slept (reset_call e ∷ calls) = slept calls
slept (resend_call e ∷ calls) = slept calls
slept (verify_call t k ∷ calls) = slept calls
slept (get_user_call ∷ calls) = slept calls
slept (sign_out_others_call ∷ calls) = slept calls
slept (sign_out_local_call ∷ calls) = slept calls
slept (update_user_call p ∷ calls) = slept calls
slept (log_call ∷ calls) = slept calls

-- All that a visitor sees of a run: the reply, and how long it is held back.
abbrev pub seen : AuthRun → Reply × ℕ
seen (calls, reply) = (reply, slept calls)

abbrev pub is_done : ServiceAnswer → Bool
is_done done = true
is_done _ = false

abbrev pub is_signed_in : Reply → Bool
is_signed_in (signed_in redirect) = true
is_signed_in _ = false

abbrev pub is_some : {A : Type 0} → Option A → Bool
is_some none = false
is_some (some a) = true

abbrev pub has_password : Option Text → Bool
has_password (some (c ∷ s)) = true
has_password (some []) = false
has_password none = false

abbrev pub is_sign_in_call : AuthCall → Bool
is_sign_in_call (sign_in_call e p) = true
is_sign_in_call _ = false

-- The end of a failed sign-in, counted from its beginning.
abbrev pub OnBoundary : (elapsed slept : ℕ) → Reply → Type 0
OnBoundary elapsed s (sign_in_error status failure) = (k : ℕ) × (elapsed + s ≡ 800 + k * 400)
OnBoundary elapsed s _ = Unit

module _ (lower : Text → Text) (origin_of : Text → Option Text) (parse : Text → Option Url)
    (r : AuthRequest) (started_at now : ℕ) where
  -- The auth service is asked exactly for a same-origin request with a plausible address and a
  -- password, and the visitor is signed in exactly when it then accepts them.
  pub sign_in-accepts :
      (a : ServiceAnswer)
      → let asked =
          r.configured
          && same_origin origin_of r
          && is_some (normalize_email lower r.fields.email)
          && has_password r.fields.password in
        let (calls, reply) = sign_in lower origin_of parse r started_at now a in
        (any is_sign_in_call calls ≡ asked) × (is_signed_in reply ≡ (asked && is_done a))
  unfolding sign_in
  sign_in-accepts a = (ground arith, ground arith)

  -- A failed sign-in is replied to at a time after its beginning that is the floor of 800
  -- milliseconds or a whole number of 400 millisecond steps more, whatever the failure.
  pub sign_in-boundary :
      (a : ServiceAnswer)
      → let run = sign_in lower origin_of parse r started_at now a in
        OnBoundary (now - started_at) (slept run.0) run.1
  unfolding sign_in
  sign_in-boundary a = ground (arith, uniform_delay-boundary started_at now 800 400 (omega arith))

  -- An address that the auth service does not know is answered as a wrong password is: with the
  -- same reply, held back as long.
  pub sign_in-unknown_address :
      (status : ℕ)
      → status ≢ 429
      → let unknown : ServiceError = record {
        code = some (codes "user_not_found");
        status = some status;
      } in
        let wrong : ServiceError = record {
          code = some (codes "invalid_credentials");
          status = some status;
        } in
        seen (sign_in lower origin_of parse r started_at now (failed unknown))
        ≡ seen (sign_in lower origin_of parse r started_at now (failed wrong))
  unfolding sign_in public_sign_in_failure
  sign_in-unknown_address status h = ground arith

abbrev pub is_verify : AuthLinkType → AuthCall → Bool
is_verify AuthLinkType.email (verify_call t AuthLinkType.email) = is_token t
is_verify AuthLinkType.recovery (verify_call t AuthLinkType.recovery) = is_token t
is_verify _ _ = false

abbrev pub opens_session : Reply → Bool
opens_session (confirmed redirect) = true
opens_session recovery_session = true
opens_session _ = false

abbrev pub is_verified : VerifyAnswer → Bool
is_verified (verified user) = true
is_verified _ = false

parse_auth_fragment-is_token :
    (token type : Option Text) (expected : AuthLinkType) (t : Text)
    → parse_auth_fragment token type expected ≡ some t
    → is_token t ≡ true
unfolding parse_auth_fragment
parse_auth_fragment-is_token token type expected t h = ground arith

module _ (origin_of : Text → Option Text) (load_onboarding : Text → Option (Bool × Bool))
    (r : AuthRequest) (a : VerifyAnswer) where
  -- A confirmation or a reset asks the auth service about a well-formed token of its own type, or
  -- about nothing; the session opens exactly when it asks and the service verifies the token.
  pub links-verified :
      let c = confirm origin_of load_onboarding r a in
      let v = recover origin_of r a in
      (all (is_verify AuthLinkType.email) c.0 ≡ true)
      × (all (is_verify AuthLinkType.recovery) v.0 ≡ true)
      × (opens_session c.1 ≡ (any (is_verify AuthLinkType.email) c.0 && is_verified a))
      × (opens_session v.1 ≡ (any (is_verify AuthLinkType.recovery) v.0 && is_verified a))
  unfolding confirm recover parse_auth_fragment
  links-verified = (ground arith, ground arith, ground arith, ground arith)

abbrev pub is_update : AuthCall → Bool
is_update (update_user_call p) = true
is_update _ = false

abbrev pub is_updated : Reply → Bool
is_updated password_updated = true
is_updated _ = false

abbrev pub no_problems : List PasswordProblem → Bool
no_problems [] = true
no_problems (p ∷ ps) = false

abbrev pub is_present : UserAnswer → Bool
is_present UserAnswer.thrown = false
is_present (UserAnswer.user present) = present

abbrev pub password_of : Option Text → Text
password_of none = []
password_of (some p) = p

-- A password is set exactly for a same-origin request of a signed-in user with a password that
-- meets the policy; the change is reported when the service made it and the other sessions ended.
pub update_password-accepts :
    (origin_of : Text → Option Text) (r : AuthRequest) (who : UserAnswer) (a : ServiceAnswer)
    (others_out : Bool)
    → let asked =
        r.configured
        && same_origin origin_of r
        && no_problems (password_problems (password_of r.fields.password))
        && is_present who in
      let (calls, reply) = update_password origin_of r who a others_out in
      (any is_update calls ≡ asked) × (is_updated reply ≡ (asked && is_done a && others_out))
unfolding update_password
update_password-accepts origin_of r who a others_out = (ground arith, ground arith)
