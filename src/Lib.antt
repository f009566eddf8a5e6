-- ===== src/Lib.antt =====
-- 1stSeen, a site that forecasts when internship programs open: the logic of its web app in
-- TypeScript, apps/web.
--
-- The parts, and how they interact:
--
-- - Limiter (apps/web/cloudflare/guest-limiter.ts, guest-agent.ts, auth-limits.ts). A Durable
--   Object keeps the times of the questions it let in (record `Limiter`, its field and its
--   storage); `take_from_window` is takeFromWindow, `fetch` the object's handler, `load` its
--   constructor, which also runs after an eviction. Limiter/Window has the laws of one decision,
--   Limiter/Object those of a whole history of requests and evictions. Limiter/Allowance is
--   durableLimit over a namespace of objects, by name, with guestAgentAllowance and
--   authLimitAllowance on top; its child Histories follows guests' questions over time, and
--   Separate shows what guests and sign-in attempts count by to be apart. An object handles one
--   request at a time, so a history is a sequence.
-- - Worker (apps/web/cloudflare/index.ts, front-door.ts), the entry of every request. `admit` is
--   worker.fetch up to the rendering: the image route, the redirect of the front page, the limits
--   of the auth routes and of guests' questions, for which it uses Limiter/Allowance. Worker/Gates
--   is about one request, Worker/Histories about all the requests over time.
-- - Auth (apps/web/lib/auth/policy.ts, route-helpers.ts and the routes under
--   apps/web/app/api/auth). Auth has the policy's functions, Auth/Routes a function for each
--   handler, from the request, the clock's readings and what the auth service answers to the calls
--   made and the reply. Auth/Delay is about the duration floor, Auth/Address about accepted
--   addresses, Auth/Laws about the handlers, and Auth/Uniform about what the replies to the
--   requests that send an e-mail, and their times, tell of the auth service's answer.
-- - Dashboard (apps/web/lib/dashboard-query.ts), the roles view. Dashboard has its data and
--   filters, Dashboard/Matching filterMatches, Dashboard/Order compareRoles, Dashboard/View
--   buildDashboardView: matching, ordering, the limit on each company's roles, the page, the
--   counts. Dashboard/Query is parseDashboardFilters, its child Href the parameters of
--   dashboardHref, RoundTrip about the two together, and Dashboard/Relax is appliedFilterKeys and
--   relaxSuggestion; Relax/Followed is about its link. Dashboard/Bands is
--   apps/web/lib/list-groups.ts, the page cut into months.
-- - GuestCache (apps/web/cloudflare/guest-cache.ts, apps/web/lib/just-opened-filters.ts,
--   role-page-params.ts), the edge cache of the guests' pages. `guest_cache_path` is
--   guestCachePath, which keys the roles view by Dashboard/Query's link of the filters in one
--   order; GuestCache/Serve is serveGuestPage and memoizedVersion. GuestCache/Sound sets the keys
--   against Dashboard/View, GuestCache/Headers is about the headers of a response by name,
--   GuestCache/Laws about storing, serving and the age of the version.
-- - Feed (apps/web/lib/just-opened.ts), the Just opened feed: interleaveByCompany, and
--   keepsCompanyRule, the program's own check of its result.
-- - Deletion (apps/web/lib/account/deletion.ts, apps/web/lib/google-revocation.ts).
--   `delete_account` is deleteAccount, from what the database, the auth service and Google answer
--   (record `Services`) to the calls made and the result; Deletion/Retry is retryRevocations,
--   which it hands to the platform, and Retry/Told sets what it records against the answers;
--   Deletion/Route is the handler, app/api/auth/delete-account/route.ts, and the landing page's
--   notes of apps/web/lib/account/policy.ts.
-- - PublicRead (apps/web/lib/public-read-policy.ts), what a signed-out render may read. PublicRead
--   has assertPublicSelect and assertPublicRpc, PublicRead/Tables the relations and functions,
--   PublicRead/Pattern the two regular expressions. PublicRead/Select has selects as trees, how
--   they are written, and which of them read listed columns only.
-- - Calendar (apps/web/lib/google-calendar/events.ts, google-api.ts,
--   apps/web/app/api/integrations/google-calendar/sync/route.ts). `sync_selected_event` is
--   syncSelectedEvent over the record `SyncOperations`, which `route_operations` of
--   Calendar/Google fills as the route does; Calendar/Event is mapSelectedEvent, Calendar/Access
--   getCalendarAccess with the refresh of a token. Calendar/Triples has the rules for chains of
--   calls that return or throw.
-- - Onboarding (apps/web/lib/onboarding.ts, guest-onboarding.ts), the first run: Onboarding has
--   its answers, their link, the filters that they make and the stored preferences,
--   Onboarding/Guest the record that a guest keeps in the browser. Onboarding/Browse follows the
--   answers into the roles view of Dashboard, and Onboarding/Route is the handler of
--   apps/web/app/api/onboarding/route.ts: the writes it tries, in their order, and its reply.
-- - Prelude: the numbers' tests, lists, texts as UTF-16 code units, integers, the engine's stable
--   sort, tallies by key, words and decimal numerals.
--
-- Numbers. Times are natural numbers of milliseconds. Counts and times stay far below 2^53, where
-- JavaScript's numbers are exact, so they are not bounded. Confidences are in hundredths, as
-- stored.
--
-- Fuel. `place` of Feed has a round for each item, and a round that does not end the loop places
-- one. `decimal` has one more round than the number, which has no more digits than that.
-- `check_select` of PublicRead has one more round than the select has characters: an embedded
-- select is shorter than the one that it stands in. Every other loop is a recursion on a list.
--
-- Parameters. `lower` of Dashboard and Auth is String.prototype.toLowerCase, which follows the
-- engine's Unicode tables; the theorems about a filter taken off use that it maps the empty text
-- to itself. `number` and `parse_int` of Dashboard/Query are Number and Number.parseInt.
-- `forecast_for` and `outlook_for` are the callbacks of buildDashboardView, and `parse` and
-- `month_title` of Dashboard/Bands are Date.parse and the date's format. In Auth `parse` and
-- `origin_of` are the URL parser, and `load_onboarding` the read of the first run's state. In
-- Calendar `request` is Google's calendar, `read` and `upsert` the table of mappings, and `sha256`,
-- `json` and `add_day` the engine's hash, JSON and dates: what the calendar and the table document
-- is in the records `GoogleLaws` and `AnswersAlways` and in `UpsertReads`. In Onboarding/Route
-- `reads`, `write` and `plan` are what the database and the planner answer, and `ReadsTrue` of
-- Onboarding/Route/Follows is what the database documents of its reads. In GuestCache `match` and
-- `put` are the Cache API, and `replace` is replaceAll.
--
-- Not modelled: rendering, the read paths that only query Postgres, the other route handlers
-- around these parts, the encoding of requests and responses, the worker in Python, and the SQL.
pub mod Prelude
pub mod Auth
pub mod Worker
pub mod Limiter
pub mod Dashboard
pub mod Feed
pub mod Deletion
pub mod PublicRead
pub mod Calendar
pub mod Onboarding
pub mod GuestCache
