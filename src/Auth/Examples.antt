-- ===== src/Auth/Examples.antt =====
-- Requests to the handlers, and the theorems at them.
use stseen.Auth.{
  password_problems, too_short, characters, utf8_bytes, normalize_email, uniform_delay,
  AuthLinkType, Url, safe_return_to, public_sign_in_failure, SignInFailure.rate_limited,
}
use stseen.Auth.Routes.{
  AuthRequest, sign_in_call, sleep, signed_in, sign_in_error, ServiceAnswer, ServiceAnswer.failed,
  done, sign_in, sign_up, forgot, resend, same_origin, VerifyAnswer.verified, confirm, recover,
}
use stseen.Auth.Laws.{
  is_done, is_signed_in, is_some, has_password, is_sign_in_call, sign_in-accepts, is_verify,
  opens_session, is_verified, links-verified,
}
use stseen.Auth.Uniform.{AreAlike, email_requests_uniform}
use stseen.Prelude.{◌≡◌, refl, Bool, true, ◌&&◌, [], ◌∷◌, Option, none, some, Text, codes, all, any}
use stseen.Prelude.Words.{trim, is_space}

-- The letters are small already.
abbrev same_letters : Text → Text
same_letters s = s

abbrev site : Text → Option Text
site url = some (codes "https://1stseen.app")

-- Every path is on the site.
abbrev parse_path : Text → Option Url
parse_path path =
    some (record { origin = codes "https://firstseen.invalid"; pathname = path; search = [] })

abbrev token : Text
token = codes "abcdefghijklmnop"

abbrev request : AuthRequest
request = record {
  configured = true;
  origin = some (codes "https://1stseen.app");
  sec_fetch_site = none;
  url = codes "https://1stseen.app/api/auth/sign-in";
  fields = record {
    email = some (codes " a@b.co ");
    password = some (codes "correct horse");
    return_to = some (codes "/roles");
    token_hash = token;
    type = codes "signup";
  };
}

password_tests :
    (password_problems (codes "short") ≡ too_short ∷ [])
    × (password_problems (codes "long enough") ≡ [])
    × (characters (55357 ∷ 56832 ∷ []) ≡ 1)
    × (utf8_bytes (55357 ∷ 56832 ∷ []) ≡ 4)
unfolding password_problems characters utf8_bytes
password_tests = (refl, refl, refl, refl)

safe_return_to_tests :
    (safe_return_to parse_path (some (codes "//evil.com")) ≡ codes "/")
    × (safe_return_to parse_path (some (codes "/auth/reset")) ≡ codes "/")
    × (safe_return_to parse_path (some (codes "/roles")) ≡ codes "/roles")
unfolding safe_return_to
safe_return_to_tests = (refl, refl, refl)

-- A parser that resolves the dots of `/a/..//evil.com`, as URL parsers do, leaves the path
-- `//evil.com`, and that is where the visitor is sent: another site.
safe_return_to_leaves_the_site :
    (parse : Text → Option Url)
    → parse (codes "/a/..//evil.com")
      ≡ some (record {
        origin = codes "https://firstseen.invalid";
        pathname = codes "//evil.com";
        search = [];
      })
    → safe_return_to parse (some (codes "/a/..//evil.com")) ≡ codes "//evil.com"
unfolding safe_return_to
safe_return_to_leaves_the_site parse h = rw h refl

sign_in_test :
    sign_in same_letters site parse_path request 1000 1200 done
    ≡ (sign_in_call (codes "a@b.co") (codes "correct horse") ∷ [], signed_in (codes "/roles"))
unfolding sign_in same_origin normalize_email trim is_space safe_return_to
sign_in_test = refl

sign_in_failing_test :
    sign_in same_letters site parse_path request 1000 2000
      (failed (record { code = none; status = some 429 }))
    ≡ (
      sign_in_call (codes "a@b.co") (codes "correct horse") ∷ sleep 200 ∷ [],
      sign_in_error 429 rate_limited,
    )
unfolding sign_in same_origin normalize_email trim is_space public_sign_in_failure uniform_delay
    safe_return_to
sign_in_failing_test = refl

email_requests_uniform_example :
    AreAlike 40 2100
      (sign_up same_letters site request 0 40 done)
      (sign_up same_letters site request 0 2100 ServiceAnswer.thrown)
    × AreAlike 40 2100
        (forgot same_letters site request 0 40 done)
        (forgot same_letters site request 0 2100 ServiceAnswer.thrown)
    × AreAlike 40 2100
        (resend same_letters site request 0 40 done)
        (resend same_letters site request 0 2100 ServiceAnswer.thrown)
email_requests_uniform_example =
    email_requests_uniform same_letters site request 0 40 2100 done ServiceAnswer.thrown

sign_in-accepts_example :
    let asked =
      request.configured
      && same_origin site request
      && is_some (normalize_email same_letters request.fields.email)
      && has_password request.fields.password in
    let (calls, reply) = sign_in same_letters site parse_path request 0 40 done in
    (any is_sign_in_call calls ≡ asked) × (is_signed_in reply ≡ (asked && is_done done))
sign_in-accepts_example = sign_in-accepts same_letters site parse_path request 0 40 done

abbrev no_onboarding : Text → Option (Bool × Bool)
no_onboarding id = none

links-verified_example :
    let c = confirm site no_onboarding request (verified none) in
    let v = recover site request (verified none) in
    (all (is_verify AuthLinkType.email) c.0 ≡ true)
    × (all (is_verify AuthLinkType.recovery) v.0 ≡ true)
    × (opens_session c.1 ≡ (any (is_verify AuthLinkType.email) c.0 && is_verified (verified none)))
    × (opens_session v.1
        ≡ (any (is_verify AuthLinkType.recovery) v.0 && is_verified (verified none)))
links-verified_example = links-verified site no_onboarding request (verified none)
