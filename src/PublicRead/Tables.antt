-- ===== src/PublicRead/Tables.antt =====
-- The relations, columns and functions that a signed-out render may read
-- (apps/web/lib/public-read-policy.ts).
use stseen.Prelude.{List, [], ◌∷◌, Text, codes}

abbrev companies_columns : List Text
companies_columns = codes "id" ∷ codes "name" ∷ codes "domain" ∷ codes "careers_url" ∷ []

abbrev canonical_roles_columns : List Text
canonical_roles_columns =
    codes "id"
    ∷ codes "company_id"
    ∷ codes "canonical_title"
    ∷ codes "track"
    ∷ codes "level"
    ∷ codes "location_scope"
    ∷ codes "role_family"
    ∷ codes "recruiting_season"
    ∷ codes "scope_status"
    ∷ codes "discipline"
    ∷ codes "early_career_type"
    ∷ codes "forecast_refused_at"
    ∷ codes "forecast_refusal_reason"
    ∷ []

abbrev historical_opening_events_columns : List Text
historical_opening_events_columns =
    codes "id"
    ∷ codes "canonical_role_id"
    ∷ codes "opened_on"
    ∷ codes "closed_on"
    ∷ codes "opening_window_start"
    ∷ codes "opening_window_end"
    ∷ codes "date_precision"
    ∷ codes "uncertainty_days"
    ∷ codes "uncertainty_reason"
    ∷ codes "evidence_quote"
    ∷ []

abbrev raw_job_observations_columns : List Text
raw_job_observations_columns =
    codes "id"
    ∷ codes "raw_title"
    ∷ codes "apply_url"
    ∷ codes "source_url"
    ∷ codes "published_at"
    ∷ codes "last_seen_at"
    ∷ codes "source_type"
    ∷ codes "observed_at"
    ∷ codes "archive_capture_at"
    ∷ codes "location"
    ∷ []

abbrev observation_role_matches_columns : List Text
observation_role_matches_columns =
    codes "observation_id" ∷ codes "canonical_role_id" ∷ codes "evidence_kind" ∷ []

abbrev role_aliases_columns : List Text
role_aliases_columns =
    codes "id" ∷ codes "canonical_role_id" ∷ codes "alias_title" ∷ codes "last_seen_at" ∷ []

abbrev forecasts_columns : List Text
forecasts_columns =
    codes "id"
    ∷ codes "canonical_role_id"
    ∷ codes "as_of"
    ∷ codes "point_date"
    ∷ codes "window_start"
    ∷ codes "window_end"
    ∷ codes "confidence"
    ∷ codes "confidence_factors"
    ∷ codes "method"
    ∷ codes "model_version"
    ∷ codes "history_count"
    ∷ codes "input_fingerprint"
    ∷ codes "forecasted_at"
    ∷ codes "calibrated_probability"
    ∷ codes "last_verified_at"
    ∷ codes "prior_effective_sample_size"
    ∷ []

abbrev forecast_provenance_columns : List Text
forecast_provenance_columns =
    codes "forecast_id"
    ∷ codes "observation_id"
    ∷ codes "source_url"
    ∷ codes "observed_at"
    ∷ codes "content_hash"
    ∷ codes "extraction_method"
    ∷ codes "contribution"
    ∷ codes "weight"
    ∷ codes "rationale"
    ∷ codes "date_precision"
    ∷ codes "signal_kind"
    ∷ codes "evidence_id"
    ∷ []

abbrev forecast_changes_columns : List Text
forecast_changes_columns =
    codes "id"
    ∷ codes "before_forecast_id"
    ∷ codes "after_forecast_id"
    ∷ codes "confidence_delta"
    ∷ codes "point_date_delta_days"
    ∷ codes "interval_start_delta_days"
    ∷ codes "interval_end_delta_days"
    ∷ codes "material"
    ∷ codes "reasons"
    ∷ codes "created_at"
    ∷ []

abbrev signals_columns : List Text
signals_columns =
    codes "id"
    ∷ codes "canonical_role_id"
    ∷ codes "kind"
    ∷ codes "observed_at"
    ∷ codes "strength"
    ∷ codes "reliability"
    ∷ codes "evidence_quote"
    ∷ codes "source_url"
    ∷ codes "extraction_method"
    ∷ []

abbrev backtest_runs_columns : List Text
backtest_runs_columns =
    codes "id"
    ∷ codes "status"
    ∷ codes "started_at"
    ∷ codes "finished_at"
    ∷ codes "target_count"
    ∷ codes "completed_cases"
    ∷ codes "skipped_cases"
    ∷ codes "aggregate_metrics"
    ∷ []

-- `PUBLIC_TABLE_COLUMNS`
abbrev pub public_table_columns : List (Text × List Text)
public_table_columns =
    (codes "companies", companies_columns)
    ∷ (codes "canonical_roles", canonical_roles_columns)
    ∷ (codes "historical_opening_events", historical_opening_events_columns)
    ∷ (codes "raw_job_observations", raw_job_observations_columns)
    ∷ (codes "observation_role_matches", observation_role_matches_columns)
    ∷ (codes "role_aliases", role_aliases_columns)
    ∷ (codes "forecasts", forecasts_columns)
    ∷ (codes "forecast_provenance", forecast_provenance_columns)
    ∷ (codes "forecast_changes", forecast_changes_columns)
    ∷ (codes "signals", signals_columns)
    ∷ (codes "backtest_runs", backtest_runs_columns)
    ∷ []

-- `PUBLIC_FUNCTIONS`
abbrev pub public_functions : List Text
public_functions =
    codes "dashboard_role_page"
    ∷ codes "dashboard_role_summary"
    ∷ codes "dashboard_filter_options"
    ∷ codes "replay_candidate_page"
    ∷ codes "replay_candidate_summary"
    ∷ codes "replay_candidate_companies"
    ∷ codes "replay_backtest_reasons"
    ∷ codes "public_agent_activity"
    ∷ codes "forecast_history_depth"
    ∷ codes "forecast_basis"
    ∷ codes "forecast_basis_for_forecasts"
    ∷ []

-- `NEVER_PUBLIC_RELATIONS`
abbrev pub never_public_relations : List Text
never_public_relations =
    codes "profiles"
    ∷ codes "watchlists"
    ∷ codes "watchlist_items"
    ∷ codes "recruiting_preferences"
    ∷ codes "priority_companies"
    ∷ codes "readiness_milestones"
    ∷ codes "calendar_event_syncs"
    ∷ codes "email_digest_deliveries"
    ∷ codes "email_digest_items"
    ∷ codes "gmail_connections"
    ∷ codes "google_calendar_connections"
    ∷ codes "agent_runs"
    ∷ codes "agent_tool_calls"
    ∷ codes "model_usage"
    ∷ codes "inference_decisions"
    ∷ codes "collection_checkpoints"
    ∷ codes "account_deletions"
    ∷ []

-- The names that every object of the engine inherits.
abbrev pub inherited_names : List Text
inherited_names =
    codes "constructor"
    ∷ codes "__proto__"
    ∷ codes "toString"
    ∷ codes "toLocaleString"
    ∷ codes "valueOf"
    ∷ codes "hasOwnProperty"
    ∷ codes "isPrototypeOf"
    ∷ codes "propertyIsEnumerable"
    ∷ codes "__defineGetter__"
    ∷ codes "__defineSetter__"
    ∷ codes "__lookupGetter__"
    ∷ codes "__lookupSetter__"
    ∷ []
