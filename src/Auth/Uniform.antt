-- ===== src/Auth/Uniform.antt =====
-- The requests that send an e-mail: what their replies and the times of these tell of the auth
-- service's answer.
use stseen.Auth.Delay.{uniform_delay-boundary, uniform_delay-next}
use stseen.Auth.Laws.{slept}
use stseen.Auth.Routes.{
  AuthRequest, AuthCall, sign_up_call, reset_call, resend_call, AuthRun, ServiceAnswer, sign_up,
  forgot, resend, check_email, Reply, email_request_delay,
}
use stseen.Prelude.{
  ℕ, ◌+◌, ◌-◌, ◌*◌, ◌≤◌, ◌≡◌, Bool, true, false, List, any, Option, Text, max, arith,
}

-- Whether the auth service is asked to send an e-mail.
abbrev pub is_email_call : AuthCall → Bool
is_email_call (sign_up_call email password) = true
is_email_call (reset_call email) = true
is_email_call (resend_call email) = true
is_email_call _ = false

-- The end of a request that reaches the auth service: 1500 milliseconds or a whole number of 500
-- millisecond steps more, the first such time that is not before the work is done. A request that
-- is refused before that does not sleep.
abbrev pub EndsOnStep : ℕ → List AuthCall → Reply → Type 0
EndsOnStep elapsed calls check_email =
    (any is_email_call calls ≡ true)
    × ((k : ℕ) × (elapsed + slept calls ≡ 1500 + k * 500))
    × (elapsed + slept calls ≤ max 1500 (elapsed + 499))
EndsOnStep elapsed calls reply = (any is_email_call calls ≡ false) × (slept calls ≡ 0)

-- Two runs with one reply, whose ends are on the steps.
abbrev pub AreAlike : (elapsed elapsed' : ℕ) → AuthRun → AuthRun → Type 0
AreAlike elapsed elapsed' run run' =
    (run.1 ≡ run'.1) × EndsOnStep elapsed run.0 run.1 × EndsOnStep elapsed' run'.0 run'.1

module _ (lower : Text → Text) (origin_of : Text → Option Text) (r : AuthRequest)
    (started_at now : ℕ) (a : ServiceAnswer) where
  email_request_delay_lem :
      let end = now - started_at + email_request_delay started_at now in
      ((k : ℕ) × (end ≡ 1500 + k * 500)) × (end ≤ max 1500 (now - started_at + 499))
  email_request_delay_lem =
      let on_step = uniform_delay-boundary started_at now 1500 500 (omega arith) in
      ((on_step.0, on_step.1), uniform_delay-next started_at now 1500 500 (omega arith))

  Ends : (AuthRequest → ℕ → ℕ → ServiceAnswer → AuthRun) → Type 0
  Ends route = let run = route r started_at now a in EndsOnStep (now - started_at) run.0 run.1

  sign_up-Ends : Ends (sign_up lower origin_of)
  unfolding Ends sign_up
  sign_up-Ends = ground (arith, email_request_delay_lem)

  forgot-Ends : Ends (forgot lower origin_of)
  unfolding Ends forgot
  forgot-Ends = ground (arith, email_request_delay_lem)

  resend-Ends : Ends (resend lower origin_of)
  unfolding Ends resend
  resend-Ends = ground (arith, email_request_delay_lem)

module _ (lower : Text → Text) (origin_of : Text → Option Text) (r : AuthRequest)
    (started_at now now' : ℕ) (a b : ServiceAnswer) where
  -- Two sign-ups, reset requests or resends that are the same but for what the auth service
  -- answers and when have the same reply. One that reached the service is replied to at the first
  -- time that is not before its work is done and is 1500 milliseconds after its beginning or a
  -- whole number of 500 millisecond steps later; a refused one is not held back.
  pub email_requests_uniform :
      AreAlike
        (now - started_at)
        (now' - started_at)
        (sign_up lower origin_of r started_at now a)
        (sign_up lower origin_of r started_at now' b)
      × AreAlike
          (now - started_at)
          (now' - started_at)
          (forgot lower origin_of r started_at now a)
          (forgot lower origin_of r started_at now' b)
      × AreAlike
          (now - started_at)
          (now' - started_at)
          (resend lower origin_of r started_at now a)
          (resend lower origin_of r started_at now' b)
  unfolding sign_up forgot resend Ends
  email_requests_uniform = (
    (
      ground arith,
      sign_up-Ends lower origin_of r started_at now a,
      sign_up-Ends lower origin_of r started_at now' b,
    ),
    (
      ground arith,
      forgot-Ends lower origin_of r started_at now a,
      forgot-Ends lower origin_of r started_at now' b,
    ),
    (
      ground arith,
      resend-Ends lower origin_of r started_at now a,
      resend-Ends lower origin_of r started_at now' b,
    ),
  )
