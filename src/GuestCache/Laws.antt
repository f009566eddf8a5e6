-- ===== src/GuestCache/Laws.antt =====
-- What is stored and served, and how old the data version is.
use stseen.GuestCache.Serve.{
  Response, header, without, with_header, cacheable, nonce_header, stored_copy, stored_nonce,
  status_header, serve_guest_page, Memo, memo_of, memoized_version,
}
use stseen.GuestCache.Headers.{
  header-two, header-stripped, hit_of_stored, no_header-All, header-without,
}
use stseen.Prelude.{
  ℕ, ◌+◌, ◌≡◌, refl, ◌∙◌, ◌⊎◌, inl, inr, Bool, true, false, ◌&&◌, List, [], ◌∷◌, Option, none, some,
  ltb, ◌==◌, any, All, ◌↔◌, Option-cases, includes, ◌||◌, Text, text_eq, codes, if◌then◌else◌,
  Bool-cases, arith,
}

abbrev is_html : Option Text → Bool
is_html none = false
is_html (some t) = includes t (codes "text/html")

-- A page that guests can share: status 200, HTML, and no header that sets a cookie.
abbrev pub IsShareable : Response → Type 0
IsShareable r =
    (r.status ≡ 200)
    × All (λ h. text_eq h.0 (codes "set-cookie") ≡ false) r.headers
    × (is_html (header (codes "content-type") r.headers) ≡ true)

cacheable-IsShareable : (r : Response) → (cacheable r ≡ true) ↔ IsShareable r
unfolding cacheable
cacheable-IsShareable r = ground (arith, no_header-All (codes "set-cookie") r.headers)

-- The header of a stored page under a name, given what the rendered page has there.
abbrev pub stored_header : (nonce name : Text) → Option Text → Option Text
stored_header nonce name value =
    if text_eq (codes "x-firstseen-stored-nonce") name
    then some nonce
    else if text_eq (codes "cache-control") name
    then some (codes "public, max-age=300")
    else if text_eq (codes "content-security-policy") name || text_eq (codes "vary") name
    then none
    else value

-- The header of a page that is served from the cache.
abbrev pub hit_header : (name : Text) → Option Text → Option Text
hit_header name value =
    if text_eq (codes "x-firstseen-cache") name
    then some (codes "hit")
    else if text_eq (codes "cache-control") name
    then some (codes "no-store, must-revalidate")
    else if text_eq (codes "x-firstseen-stored-nonce") name
        || text_eq (codes "content-security-policy") name
        || text_eq (codes "vary") name
    then none
    else value

module _ {C K : Type 0} (match : K → C → Option Response) (put : K → Response → C → C)
    (replace : Text → Text → Text → Text) where
  abbrev pub serve : K → Text → Response → C → C × Response
  serve = serve_guest_page match put replace

  header-stored_copy :
      (nonce name : Text) (rendered : Response)
      → header name (stored_copy match put replace nonce rendered).headers
        ≡ stored_header nonce name (header name rendered.headers)
  header-stored_copy nonce name rendered =
      header-two name nonce_header nonce (codes "cache-control") (codes "public, max-age=300")
        (without (codes "content-security-policy") (without (codes "vary") rendered.headers))
      ∙ rw (header-stripped name (codes "content-security-policy") (codes "vary") rendered.headers)
          refl

  header-hit :
      (nonce name : Text) (rendered : Response)
      → header name (
          with_header status_header (codes "hit") (
            with_header
              (codes "cache-control")
              (codes "no-store, must-revalidate")
              (without nonce_header (stored_copy match put replace nonce rendered).headers)))
        ≡ hit_header name (header name rendered.headers)
  header-hit nonce name rendered =
      let copy = (stored_copy match put replace nonce rendered).headers in
      header-two name status_header (codes "hit") (codes "cache-control")
        (codes "no-store, must-revalidate") (without nonce_header copy)
      ∙ rw (header-without name nonce_header copy, header-stored_copy nonce name rendered)
          (hit_of_stored (text_eq status_header name) (text_eq (codes "cache-control") name)
            (text_eq nonce_header name) (text_eq (codes "content-security-policy") name)
            (text_eq (codes "vary") name) (some (codes "hit"))
            (some (codes "no-store, must-revalidate")) (some nonce)
            (some (codes "public, max-age=300")) (header name rendered.headers))

  -- Serving a page changes the cache only by storing, under the page's key, what was rendered, and
  -- only where guests can share it: status 200, HTML, and no cookie set. What is stored has
  -- its body and its headers, but for the nonce that it was rendered with, the time to keep it,
  -- and `content-security-policy` and `vary`, which are left out.
  pub serve_guest_page-stores :
      (key : K) (nonce : Text) (rendered : Response) (c : C)
      → ((serve key nonce rendered c).0 ≡ c)
        ⊎ (IsShareable rendered
            × (page : Response) × ((serve key nonce rendered c).0 ≡ put key page c)
            × (page.status ≡ 200)
            × (page.body ≡ rendered.body)
            × ((name : Text)
                → header name page.headers
                  ≡ stored_header nonce name (header name rendered.headers)))
  unfolding serve_guest_page
  serve_guest_page-stores key nonce rendered c = elim (Option-cases (stored_nonce (match key c))) [
    | inr (found, e) ↦ rw e (inl refl)
    | inl e ↦ elim (Bool-cases (cacheable rendered)) [
      | inl k ↦
          rw (e, k)
            (inr (
              (cacheable-IsShareable rendered).0 k,
              stored_copy match put replace nonce rendered,
              refl,
              refl,
              refl,
              λ name. header-stored_copy nonce name rendered,
            ))
      | inr k ↦ rw (e, k) (inl refl)
    ]
  ]

  -- Where nothing usable is stored, in a cache that finds what was put last, a page that guests can
  -- share and that is rendered with a nonce is stored and is served to the next visitor, whatever the
  -- app would render then, and without a change of the cache: with the visitor's nonce in place of
  -- the one that the page was rendered with, and with the headers that it was rendered with, but for
  -- the cache's status and the time to keep it, and without `content-security-policy`, `vary` and the
  -- stored nonce.
  pub serve_guest_page-again :
      ((key : K) (r : Response) (c : C) → match key (put key r c) ≡ some r)
      → (key : K) (digit : ℕ) (digits nonce : Text) (rendered later : Response) (c : C)
      → stored_nonce (match key c) ≡ none
      → IsShareable rendered
      → let stored = (serve key (digit ∷ digits) rendered c).0 in
        let again = (serve key nonce later stored).1 in
        ((serve key nonce later stored).0 ≡ stored)
        × (again.status ≡ 200)
        × (again.body ≡ replace (digit ∷ digits) nonce rendered.body)
        × ((name : Text)
            → header name again.headers ≡ hit_header name (header name rendered.headers))
  unfolding serve_guest_page
  serve_guest_page-again kept key digit digits nonce rendered later c h k =
      let copy = stored_copy match put replace (digit ∷ digits) rendered in
      rw
        (
          h,
          (cacheable-IsShareable rendered).1 k,
          kept key copy c,
          header-stored_copy (digit ∷ digits) nonce_header rendered,
        )
        (refl, refl, refl, λ name. header-hit (digit ∷ digits) name rendered)

abbrev is_value : ℕ → Option ℕ → Bool
is_value v none = false
is_value v (some w) = v == w

-- A version that was read less than ten seconds ago, by the log of the times and answers of reads.
abbrev pub IsFresh : List (ℕ × Option ℕ) → ℕ → Option ℕ → Type 0
IsFresh log now none = Unit
IsFresh log now (some v) = any (λ r. is_value v r.1 && ltb now (r.0 + 10000)) log ≡ true

abbrev logged : Bool → ℕ → Option ℕ → List (ℕ × Option ℕ) → List (ℕ × Option ℕ)
logged true now read log = (now, read) ∷ log
logged false now read log = log

-- Calls of the reader, each with its time and what asking would return then: what each returns is
-- fresh by the log of the reads so far.
abbrev pub AllFresh : List (ℕ × Option ℕ) → Option Memo → List (ℕ × Option ℕ) → Type 0
AllFresh log memo [] = Unit
AllFresh log memo ((now, read) ∷ calls) =
    let call = memoized_version now read memo in
    IsFresh (logged call.1 now read log) now call.2
    × AllFresh (logged call.1 now read log) call.0 calls

-- A memo that a read of the log has left.
abbrev IsLogged : List (ℕ × Option ℕ) → Option Memo → Type 0
IsLogged log none = Unit
IsLogged log (some memo) =
    any (λ r. is_value memo.value r.1 && r.0 + 10000 == memo.expires) log ≡ true

fresh_of_logged :
    (value expires now : ℕ) (log : List (ℕ × Option ℕ))
    → ltb now expires ≡ true
    → any (λ r. is_value value r.1 && r.0 + 10000 == expires) log ≡ true
    → any (λ r. is_value value r.1 && ltb now (r.0 + 10000)) log ≡ true
fresh_of_logged value expires now [] h k = cc
fresh_of_logged value expires now (r ∷ log) h k =
    ground (arith, fresh_of_logged value expires now log h)

read-IsLogged :
    (now : ℕ) (read : Option ℕ) (log : List (ℕ × Option ℕ))
    → IsFresh ((now, read) ∷ log) now read × IsLogged ((now, read) ∷ log) (memo_of now read)
read-IsLogged now none log = (tt, tt)
read-IsLogged now (some v) log = (ground arith, ground arith)

AllFresh-IsLogged :
    (log : List (ℕ × Option ℕ)) (memo : Option Memo) (calls : List (ℕ × Option ℕ))
    → IsLogged log memo
    → AllFresh log memo calls
unfolding memoized_version
AllFresh-IsLogged log memo [] h = tt
AllFresh-IsLogged log none ((now, read) ∷ calls) h =
    let fresh = read-IsLogged now read log in
    (fresh.0, AllFresh-IsLogged ((now, read) ∷ log) (memo_of now read) calls fresh.1)
AllFresh-IsLogged log (some memo) ((now, read) ∷ calls) h =
    elim (Bool-cases (ltb now memo.expires)) [
      | inl e ↦
          (rw e (
            fresh_of_logged memo.value memo.expires now log e h,
            AllFresh-IsLogged log (some memo) calls h,
          ))
      | inr e ↦
          (let fresh = read-IsLogged now read log in
            rw e (fresh.0, AllFresh-IsLogged ((now, read) ∷ log) (memo_of now read) calls fresh.1))
    ]

-- Whatever the times of the calls and the answers of the reads, no call returns a version that was
-- not read, or was read ten seconds ago or earlier.
pub memoized_version-AllFresh : (calls : List (ℕ × Option ℕ)) → AllFresh [] none calls
memoized_version-AllFresh calls = AllFresh-IsLogged [] none calls tt
