-- ===== src/Calendar/Event.antt =====
-- The events that a visitor selects and the events that Google's calendar takes
-- (apps/web/lib/google-calendar/events.ts, apps/web/lib/confidence.ts).
use stseen.Prelude.{ℕ, [], ◌∷◌, ◌++◌, Option, none, some, take, Text, codes}
use stseen.Prelude.Words.{decimal}

-- `selectableCalendarEventTypes`
pub data EventType : Type 0 where
  networking : EventType
  referrals : EventType
  resume_ready : EventType
  portfolio_ready : EventType
  high_alert : EventType
  predicted_start : EventType
  predicted_end : EventType
  confirmed_opening : EventType
  confirmed_closing : EventType

-- `SelectedCalendarEvent`; the confidence is a whole number.
pub record SelectedEvent : Type 0 where
  pub source_key : Text
  pub event_type : EventType
  pub date : Text
  pub end_date : Option Text
  pub company : Text
  pub role : Text
  pub label : Text
  pub detail : Text
  pub confidence : Option ℕ
  pub role_url : Text

-- `GoogleEvent`, whose `transparency` is always the same.
pub record GoogleEvent : Type 0 where
  pub id : Text
  pub summary : Text
  pub description : Text
  pub start_date : Text
  pub end_date : Text
  pub source_key : Text
  pub semantics : Text

pub data SourceKind : Type 0 where
  forecast_window : SourceKind
  opening : SourceKind
  closing : SourceKind
  readiness_milestone : SourceKind

unfoldable pub source_kind_for : EventType → SourceKind
source_kind_for predicted_start = forecast_window
source_kind_for predicted_end = forecast_window
source_kind_for confirmed_opening = opening
source_kind_for confirmed_closing = closing
source_kind_for networking = readiness_milestone
source_kind_for referrals = readiness_milestone
source_kind_for resume_ready = readiness_milestone
source_kind_for portfolio_ready = readiness_milestone
source_kind_for high_alert = readiness_milestone

abbrev pub kind_text : SourceKind → Text
kind_text forecast_window = codes "forecast_window"
kind_text opening = codes "confirmed_opening"
kind_text closing = codes "confirmed_closing"
kind_text readiness_milestone = codes "readiness_milestone"

abbrev semantics_of : SourceKind → Text
semantics_of forecast_window = codes "forecast"
semantics_of opening = codes "confirmed"
semantics_of closing = codes "confirmed"
semantics_of readiness_milestone = codes "readiness"

abbrev prefix_of : SourceKind → Text
prefix_of forecast_window = codes "1stSeen forecast"
prefix_of opening = codes "Confirmed"
prefix_of closing = codes "Confirmed"
prefix_of readiness_milestone = codes "1stSeen"

abbrev notice_of : SourceKind → Text
notice_of forecast_window =
    codes
      "This is a 1stSeen statistical forecast, not a confirmed company date. Forecasts can change as new evidence arrives."
notice_of opening = codes "This date was recorded from confirmed recruiting evidence in 1stSeen."
notice_of closing = codes "This date was recorded from confirmed recruiting evidence in 1stSeen."
notice_of readiness_milestone = codes "You chose this prep step in 1stSeen."

-- `confidencePhrase` of a whole number, without decimals.
unfoldable pub confidence_phrase : ℕ → Text
confidence_phrase value = codes "confidence score " ++ (decimal value ++ codes " of 100")

abbrev confidence_note : SourceKind → Option ℕ → Text
confidence_note forecast_window none = []
confidence_note forecast_window (some value) =
    10
    ∷ (codes "Forecast "
        ++ (confidence_phrase value
            ++ codes
                ": how much consistent evidence backs the window, not the chance it is right."))
confidence_note opening value = []
confidence_note closing value = []
confidence_note readiness_milestone value = []

-- The empty text counts as no date.
abbrev end_or : Option Text → Text → Text
end_or none date = date
end_or (some []) date = date
end_or (some (c ∷ t)) date = c ∷ t

-- The engine's parts: `sha256` in hexadecimal digits, `add_day` for `addDays(value, 1)`, and `json`
-- for `JSON.stringify` of an event.
module _ (sha256 : Text → Text) (add_day : Text → Text) where
  -- `deterministicGoogleEventId`
  unfoldable pub deterministic_google_event_id : Text → SourceKind → Text → Text
  deterministic_google_event_id user kind source_key =
      codes "1stseen"
      ++ take 48 (sha256 (user ++ (codes "|" ++ (kind_text kind ++ (codes "|" ++ source_key)))))

  -- `mapSelectedEvent`
  unfoldable pub map_selected_event : SelectedEvent → Text → GoogleEvent
  unfolding deterministic_google_event_id source_kind_for confidence_phrase
  map_selected_event input user =
      let kind = source_kind_for input.event_type in
      record {
        id = deterministic_google_event_id user kind input.source_key;
        summary =
            prefix_of kind
            ++ (codes ": "
                ++ (input.label ++ (codes " — " ++ (input.company ++ (codes " " ++ input.role)))));
        description =
            notice_of kind
            ++ (confidence_note kind input.confidence
                ++ (10
                    ∷ (10
                        ∷ (input.detail
                            ++ (10 ∷ (10 ∷ (codes "Role intelligence: " ++ input.role_url)))))));
        start_date = input.date;
        end_date = add_day (end_or input.end_date input.date);
        source_key = input.source_key;
        semantics = semantics_of kind;
      }
