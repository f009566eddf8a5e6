-- ===== src/Calendar/Access.antt =====
-- The access to a visitor's Google calendar (apps/web/lib/google-calendar/google-api.ts).
use stseen.Calendar.Calls.{Outcome, done, thrown}
use stseen.Prelude.{
  ℕ, ◌+◌, ◌*◌, List, [], ◌∷◌, Option, none, some, if◌then◌else◌, leb, ◌==◌, Text, codes,
}

-- `Connection`; the time at which the token expires, in milliseconds.
pub record Connection : Type 0 where
  pub calendar_id : Text
  pub access_token_ciphertext : Text
  pub refresh_token_ciphertext : Text
  pub token_expires_at : ℕ

pub data ConnectionRead : Type 0 where
  read_failed : ConnectionRead
  no_row : ConnectionRead
  row : Connection → ConnectionRead

-- The answer of Google's token endpoint.
pub data TokenReply : Type 0 where
  token : Text → Option ℕ → TokenReply
  token_refused : ℕ → TokenReply
  token_unreachable : Text → TokenReply

-- An update of the visitor's connection, whose own result is not looked at.
pub data ConnectionUpdate : Type 0 where
  record_error : Text → ConnectionUpdate
  store_token : Text → ℕ → ConnectionUpdate

pub record Access : Type 0 where
  pub access_token : Text
  pub calendar_id : Text

abbrev refresh_code : ℕ → Text
refresh_code status =
    if status == 400
    then codes "google_reauthorization_required"
    else codes "google_token_refresh_failed"

abbrev seconds_or_hour : Option ℕ → ℕ
seconds_or_hour none = 3600
seconds_or_hour (some seconds) = seconds

abbrev store_refreshed : Text → ℕ → Outcome Text → List ConnectionUpdate × Outcome Text
store_refreshed access_token expires_at (thrown failure) = ([], thrown failure)
store_refreshed access_token expires_at (done ciphertext) =
    (store_token ciphertext expires_at ∷ [], done access_token)

-- `encrypt` and `decrypt` are those of the visitor's tokens, `exchange` is the request that trades a
-- refresh token for an access token.
module _ (encrypt decrypt : Text → Outcome Text) (exchange : Text → TokenReply) (now : ℕ) where
  abbrev token_answered : TokenReply → List ConnectionUpdate × Outcome Text
  token_answered (token_unreachable message) = ([], thrown record { code = message; status = none })
  token_answered (token_refused status) = (
    record_error (refresh_code status) ∷ [],
    thrown record { code = refresh_code status; status = none },
  )
  token_answered (token access_token expires_in) =
      store_refreshed access_token (now + seconds_or_hour expires_in * 1000) (encrypt access_token)

  abbrev exchanged : Outcome Text → List ConnectionUpdate × Outcome Text
  exchanged (thrown failure) = ([], thrown failure)
  exchanged (done refresh_token) = token_answered (exchange refresh_token)

  -- `refreshAccessToken`
  unfoldable pub refresh_access_token : Connection → List ConnectionUpdate × Outcome Text
  refresh_access_token connection = exchanged (decrypt connection.refresh_token_ciphertext)

  abbrev access_with :
      Text → List ConnectionUpdate × Outcome Text → List ConnectionUpdate × Outcome Access
  access_with calendar_id (updates, thrown failure) = (updates, thrown failure)
  access_with calendar_id (updates, done access_token) =
      (updates, done record { access_token = access_token; calendar_id = calendar_id })

  -- `getCalendarAccess`
  unfoldable pub get_calendar_access : ConnectionRead → List ConnectionUpdate × Outcome Access
  unfolding refresh_access_token
  get_calendar_access read_failed =
      ([], thrown record { code = codes "calendar_connection_read_failed"; status = none })
  get_calendar_access no_row =
      ([], thrown record { code = codes "google_calendar_not_connected"; status = none })
  get_calendar_access (row connection) = access_with connection.calendar_id (
      if leb connection.token_expires_at (now + 60000)
      then refresh_access_token connection
      else ([], decrypt connection.access_token_ciphertext))
