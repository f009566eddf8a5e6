-- ===== src/Auth/Routes.antt =====
-- The handlers of apps/web/app/api/auth: from a request and what the auth service answers to the
-- calls made, in their order, and the reply. A handler reads the clock when it begins to count and
-- again when the service has answered.
use stseen.Auth.{
  PasswordProblem, password_problems, normalize_email, uniform_delay, SignInFailure, sign_in_failed,
  rate_limited, invalid_credentials, email_not_confirmed, ServiceError, has_code,
  public_sign_in_failure, LinkFailure, link_invalid, public_link_failure, PasswordUpdateFailure,
  reset_session_expired, same_password, weak_password, update_failed,
  public_password_update_failure, AuthLinkType, AuthLinkType.recovery, parse_auth_fragment, Url,
  safe_return_to,
}
use stseen.Prelude.{
  ℕ, Bool, true, false, not, ◌||◌, List, [], ◌∷◌, ◌++◌, Option, none, some, if◌then◌else◌, Text,
  codes, text_eq,
}

-- The string fields of the body that `readJson` gives, and what `String` gives of the link's two.
pub record Fields : Type 0 where
  pub email : Option Text
  pub password : Option Text
  pub return_to : Option Text
  pub token_hash : Text
  pub type : Text

pub record AuthRequest : Type 0 where
  pub configured : Bool
  pub origin : Option Text
  pub sec_fetch_site : Option Text
  pub url : Text
  pub fields : Fields

-- What a call of the auth service comes to: an exception, there or in making its client, an error
-- in the result, or success.
pub data ServiceAnswer : Type 0 where
  thrown : ServiceAnswer
  failed : ServiceError → ServiceAnswer
  done : ServiceAnswer

pub data AuthCall : Type 0 where
  sign_in_call sign_up_call : (email password : Text) → AuthCall
  reset_call resend_call : (email : Text) → AuthCall
  verify_call : (token : Text) → AuthLinkType → AuthCall
  get_user_call sign_out_others_call sign_out_local_call : AuthCall
  update_user_call : (password : Text) → AuthCall
  log_call : AuthCall
  sleep : (ms : ℕ) → AuthCall

pub data Reply : Type 0 where
  supabase_unavailable cross_origin invalid_email : Reply
  invalid_password : List PasswordProblem → Reply
  check_email : Reply
  sign_in_error : (status : ℕ) → SignInFailure → Reply
  signed_in : (redirect : Text) → Reply
  link_error : LinkFailure → Reply
  confirmed : (redirect : Text) → Reply
  recovery_session password_updated signed_out : Reply
  update_error : (status : ℕ) → PasswordUpdateFailure → Reply

abbrev pub AuthRun : Type 0
AuthRun = List AuthCall × Reply

abbrev is_cross_site : Option Text → Bool
is_cross_site none = false
is_cross_site (some site) = text_eq site (codes "cross-site")

abbrev same_text : Option Text → Option Text → Bool
same_text (some a) (some b) = text_eq a b
same_text (some a) none = false
same_text none b = false

-- `sameOrigin`; `origin_of` is `new URL(text).origin`, `none` where the constructor throws.
unfoldable pub same_origin : (Text → Option Text) → AuthRequest → Bool
same_origin origin_of r = elim r.origin [
  | none ↦ not (is_cross_site r.sec_fetch_site)
  | some o ↦ elim o [
    | [] ↦ not (is_cross_site r.sec_fetch_site)
    | c ∷ s ↦ same_text (origin_of (c ∷ s)) (origin_of r.url)
  ]
]

-- The two checks that every handler begins with.
abbrev guarded : (Text → Option Text) → AuthRequest → AuthRun → AuthRun
guarded origin_of r run =
    if not r.configured
    then ([], supabase_unavailable)
    else if not (same_origin origin_of r)
    then ([], cross_origin)
    else run

abbrev text_or_empty : Option Text → Text
text_or_empty none = []
text_or_empty (some t) = t

-- `failureDelay`
abbrev pub failure_delay : ℕ → ℕ → ℕ
failure_delay started_at now = uniform_delay started_at now 800 400

abbrev fail : (started_at now : ℕ) → SignInFailure → ℕ → AuthRun
fail started_at now failure status =
    (sleep (failure_delay started_at now) ∷ [], sign_in_error status failure)

abbrev failure_status : SignInFailure → ℕ
failure_status rate_limited = 429
failure_status sign_in_failed = 502
failure_status invalid_credentials = 400
failure_status email_not_confirmed = 400

abbrev with_call : AuthCall → AuthRun → AuthRun
with_call call (calls, reply) = (call ∷ calls, reply)

abbrev answer_sign_in : Text → (started_at now : ℕ) → ServiceAnswer → AuthRun
answer_sign_in redirect started_at now thrown = fail started_at now sign_in_failed 502
answer_sign_in redirect started_at now (failed e) =
    let failure = public_sign_in_failure e in fail started_at now failure (failure_status failure)
answer_sign_in redirect started_at now done = ([], signed_in redirect)

abbrev try_sign_in : Text → (started_at now : ℕ) → ServiceAnswer → Option Text → Text → AuthRun
try_sign_in redirect started_at now answer none password =
    fail started_at now invalid_credentials 400
try_sign_in redirect started_at now answer (some email) [] =
    fail started_at now invalid_credentials 400
try_sign_in redirect started_at now answer (some email) (c ∷ password) =
    with_call (sign_in_call email (c ∷ password)) (answer_sign_in redirect started_at now answer)

-- The waits of `EMAIL_REQUEST_FLOOR_MS` and `EMAIL_REQUEST_STEP_MS`.
abbrev pub email_request_delay : ℕ → ℕ → ℕ
email_request_delay started_at now = uniform_delay started_at now 1500 500

-- What is logged of an answer: an exception, or an error whose code is not among the expected.
abbrev logged : List Text → ServiceAnswer → List AuthCall
logged expected thrown = log_call ∷ []
logged expected (failed e) = if has_code expected e.code then [] else log_call ∷ []
logged expected done = []

abbrev request_email : AuthCall → List Text → (started_at now : ℕ) → ServiceAnswer → AuthRun
request_email call expected started_at now answer = (
  call ∷ (logged expected answer ++ sleep (email_request_delay started_at now) ∷ []),
  check_email,
)

abbrev too_many_emails : Text
too_many_emails = codes "over_email_send_rate_limit"

abbrev check_password :
    Text → List PasswordProblem → (started_at now : ℕ) → ServiceAnswer → Text → AuthRun
check_password email (p ∷ ps) started_at now answer password = ([], invalid_password (p ∷ ps))
check_password email [] started_at now answer password =
    request_email (sign_up_call email password) (codes "user_already_exists" ∷ too_many_emails ∷ [])
      started_at now answer

abbrev start_sign_up : Option Text → Text → (started_at now : ℕ) → ServiceAnswer → AuthRun
start_sign_up none password started_at now answer = ([], invalid_email)
start_sign_up (some email) password started_at now answer =
    check_password email (password_problems password) started_at now answer password

abbrev start_request :
    (Text → AuthCall) → Option Text → (started_at now : ℕ) → ServiceAnswer → AuthRun
start_request call none started_at now answer = ([], invalid_email)
start_request call (some email) started_at now answer =
    request_email (call email) (too_many_emails ∷ []) started_at now answer

-- What `verifyOtp` comes to: the id of the user, if it succeeds.
pub data VerifyAnswer : Type 0 where
  thrown : VerifyAnswer
  failed : (code : Option Text) → VerifyAnswer
  verified : (user : Option Text) → VerifyAnswer

-- `load_onboarding` gives whether the first run is completed and whether it is skipped, `none`
-- where it throws.
abbrev is_done : Option (Bool × Bool) → Bool
is_done none = false
is_done (some (completed, skipped)) = completed || skipped

abbrev onboarding_done : (Text → Option (Bool × Bool)) → Option Text → Bool
onboarding_done load_onboarding none = false
onboarding_done load_onboarding (some []) = false
onboarding_done load_onboarding (some (c ∷ id)) = is_done (load_onboarding (c ∷ id))

abbrev confirm_link : (Text → Option (Bool × Bool)) → VerifyAnswer → Option Text → AuthRun
confirm_link load_onboarding answer none = ([], link_error link_invalid)
confirm_link load_onboarding answer (some token) = (
  verify_call token AuthLinkType.email ∷ [],
  elim answer [
    | thrown ↦ link_error link_invalid
    | failed code ↦ link_error (public_link_failure code)
    | verified user ↦
        confirmed
          (if onboarding_done load_onboarding user then codes "/roles" else codes "/welcome")
  ],
)

abbrev recover_link : VerifyAnswer → Option Text → AuthRun
recover_link answer none = ([], link_error link_invalid)
recover_link answer (some token) = (
  verify_call token recovery ∷ [],
  elim answer [
    | thrown ↦ link_error link_invalid
    | failed code ↦ link_error (public_link_failure code)
    | verified user ↦ recovery_session
  ],
)

-- What `getUser` comes to.
pub data UserAnswer : Type 0 where
  thrown : UserAnswer
  user : (present : Bool) → UserAnswer

abbrev update_failure : PasswordUpdateFailure → Reply
update_failure reset_session_expired = update_error 401 reset_session_expired
update_failure same_password = update_error 400 same_password
update_failure weak_password = update_error 400 weak_password
update_failure update_failed = update_error 400 update_failed

-- `others_out` is whether signing out the other sessions returned.
abbrev update_user : Text → ServiceAnswer → (others_out : Bool) → AuthRun
update_user password thrown others_out =
    (update_user_call password ∷ [], update_error 502 update_failed)
update_user password (failed e) others_out =
    (update_user_call password ∷ [], update_failure (public_password_update_failure e))
update_user password done others_out = (
  update_user_call password ∷ sign_out_others_call ∷ [],
  if others_out then password_updated else update_error 502 update_failed,
)

abbrev set_password : Text → List PasswordProblem → UserAnswer → ServiceAnswer → Bool → AuthRun
set_password password (p ∷ ps) who answer others_out = ([], invalid_password (p ∷ ps))
set_password password [] thrown answer others_out =
    (get_user_call ∷ [], update_error 502 update_failed)
set_password password [] (user false) answer others_out =
    (get_user_call ∷ [], update_error 401 reset_session_expired)
set_password password [] (user true) answer others_out =
    with_call get_user_call (update_user password answer others_out)

module _ (lower : Text → Text) (origin_of : Text → Option Text) where
  -- `POST` of sign-in; `parse` is `new URL(value, base)`.
  unfoldable pub sign_in :
      (Text → Option Url) → AuthRequest → (started_at now : ℕ) → ServiceAnswer → AuthRun
  sign_in parse r started_at now answer = guarded origin_of r (
      try_sign_in (safe_return_to parse r.fields.return_to) started_at now answer
        (normalize_email lower r.fields.email) (text_or_empty r.fields.password))

  -- `POST` of sign-up.
  unfoldable pub sign_up : AuthRequest → (started_at now : ℕ) → ServiceAnswer → AuthRun
  sign_up r started_at now answer = guarded origin_of r (
      start_sign_up (normalize_email lower r.fields.email) (text_or_empty r.fields.password)
        started_at now answer)

  -- `POST` of forgot.
  unfoldable pub forgot : AuthRequest → (started_at now : ℕ) → ServiceAnswer → AuthRun
  forgot r started_at now answer =
      guarded origin_of r
        (start_request reset_call (normalize_email lower r.fields.email) started_at now answer)

  -- `POST` of resend.
  unfoldable pub resend : AuthRequest → (started_at now : ℕ) → ServiceAnswer → AuthRun
  resend r started_at now answer =
      guarded origin_of r
        (start_request resend_call (normalize_email lower r.fields.email) started_at now answer)

module _ (origin_of : Text → Option Text) where
  -- `POST` of confirm.
  unfoldable pub confirm : (Text → Option (Bool × Bool)) → AuthRequest → VerifyAnswer → AuthRun
  confirm load_onboarding r answer = guarded origin_of r (
      confirm_link load_onboarding answer
        (parse_auth_fragment (some r.fields.token_hash) (some r.fields.type) AuthLinkType.email))

  -- `POST` of recovery.
  unfoldable pub recover : AuthRequest → VerifyAnswer → AuthRun
  recover r answer = guarded origin_of r (
      recover_link answer
        (parse_auth_fragment (some r.fields.token_hash) (some r.fields.type) recovery))

  -- `POST` of update-password.
  unfoldable pub update_password :
      AuthRequest → UserAnswer → ServiceAnswer → (others_out : Bool) → AuthRun
  update_password r who answer others_out =
      let password = text_or_empty r.fields.password in
      guarded origin_of r (set_password password (password_problems password) who answer others_out)

  -- `POST` of sign-out, which an exception does not change.
  unfoldable pub sign_out : AuthRequest → AuthRun
  sign_out r = guarded origin_of r (sign_out_local_call ∷ [], signed_out)
