-- ===== src/GuestCache/Serve.antt =====
-- Serving a page from the cache or rendering and storing it, and the reader of the data version that
-- is part of its key (apps/web/cloudflare/guest-cache.ts).
use stseen.Prelude.{
  ℕ, ◌+◌, Bool, true, false, not, ◌&&◌, List, [], ◌∷◌, ◌++◌, Option, none, some, filter,
  if◌then◌else◌, ltb, ◌==◌, Text, text_eq, includes, codes,
}

-- A response: its status, its headers in small letters, and its body.
pub record Response : Type 0 where
  pub status : ℕ
  pub headers : List (Text × Text)
  pub body : Text

abbrev joined : Text → Option Text → Option Text
joined value none = some value
joined value (some rest) = some (value ++ (codes ", " ++ rest))

-- `headers.get`: the values of repeated headers are joined.
abbrev pub header : Text → List (Text × Text) → Option Text
header name [] = none
header name (h ∷ headers) =
    let rest = header name headers in if text_eq h.0 name then joined h.1 rest else rest

abbrev pub without : Text → List (Text × Text) → List (Text × Text)
without name = filter λ h. not (text_eq h.0 name)

-- `headers.set`
abbrev pub with_header : Text → Text → List (Text × Text) → List (Text × Text)
with_header name value headers = (name, value) ∷ without name headers

abbrev text_or_nil : Option Text → Text
text_or_nil none = []
text_or_nil (some t) = t

abbrev pub no_header : Option Text → Bool
no_header none = true
no_header (some t) = false

-- `cacheable`
unfoldable pub cacheable : Response → Bool
cacheable r =
    r.status == 200
    && no_header (header (codes "set-cookie") r.headers)
    && includes (text_or_nil (header (codes "content-type") r.headers)) (codes "text/html")

abbrev pub status_header : Text
status_header = codes "x-firstseen-cache"

abbrev pub nonce_header : Text
nonce_header = codes "x-firstseen-stored-nonce"

-- A nonce of no characters counts as none.
abbrev pub stored_nonce : Option Response → Option (Response × Text)
stored_nonce none = none
stored_nonce (some hit) = nonce_of (header nonce_header hit.headers)
  where
    nonce_of : Option Text → Option (Response × Text)
    nonce_of none = none
    nonce_of (some []) = none
    nonce_of (some (c ∷ t)) = some (hit, c ∷ t)

-- A cache `C` of responses under keys `K`, which are made of the origin, the build, the data version
-- and the canonical path; `replace` is `replaceAll`.
module _ {C K : Type 0} (match : K → C → Option Response) (put : K → Response → C → C)
    (replace : Text → Text → Text → Text) where
  -- The copy that is stored, with the nonce that it was rendered with.
  abbrev pub stored_copy : Text → Response → Response
  stored_copy nonce rendered = record {
    status = 200;
    headers = with_header nonce_header nonce (
        with_header (codes "cache-control") (codes "public, max-age=300")
          (without (codes "content-security-policy") (without (codes "vary") rendered.headers)));
    body = rendered.body;
  }

  abbrev pub serve_rendered : K → Text → Response → C → C × Response
  serve_rendered key nonce rendered c =
      if cacheable rendered
      then (
        put key (stored_copy nonce rendered) c,
        record {
          status = 200;
          headers = with_header status_header (codes "miss") rendered.headers;
          body = rendered.body;
        },
      )
      else (
        c,
        record rendered { headers = with_header status_header (codes "bypass") rendered.headers },
      )

  abbrev serve_hit : Text → Response × Text → Response
  serve_hit nonce (hit, stored) = record {
    status = 200;
    headers = with_header status_header (codes "hit") (
        with_header (codes "cache-control") (codes "no-store, must-revalidate")
          (without nonce_header hit.headers));
    body = replace stored nonce hit.body;
  }

  abbrev pub served : K → Text → Response → C → Option (Response × Text) → C × Response
  served key nonce render c none = serve_rendered key nonce render c
  served key nonce render c (some found) = (c, serve_hit nonce found)

  -- `serveGuestPage`; `render` is asked only where nothing usable is stored.
  unfoldable pub serve_guest_page : K → Text → Response → C → C × Response
  unfolding cacheable
  serve_guest_page key nonce render c = served key nonce render c (stored_nonce (match key c))

-- A version that is remembered until a time.
pub record Memo : Type 0 where
  pub value : ℕ
  pub expires : ℕ

-- `VERSION_MEMO_MS`
abbrev version_memo_ms : ℕ
version_memo_ms = 10000

abbrev pub remembered : ℕ → Option Memo → Option ℕ
remembered now none = none
remembered now (some memo) = if ltb now memo.expires then some memo.value else none

abbrev pub memo_of : ℕ → Option ℕ → Option Memo
memo_of now none = none
memo_of now (some value) = some record { value = value; expires = now + version_memo_ms }

abbrev pub or_asked : ℕ → Option ℕ → Option Memo → Option ℕ → Option Memo × Bool × Option ℕ
or_asked now read memo none = (memo_of now read, true, read)
or_asked now read memo (some value) = (memo, false, some value)

-- A call of the reader that `memoizedVersion` makes: the memo after it, whether the version was
-- asked for, and what it returns. `read` is what asking returns at this time.
unfoldable pub memoized_version : ℕ → Option ℕ → Option Memo → Option Memo × Bool × Option ℕ
memoized_version now read memo = or_asked now read memo (remembered now memo)
