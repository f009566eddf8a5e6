-- ===== src/Limiter/Allowance/Histories.antt =====
-- Guests' questions over time, all passing through one namespace.
use native.Mathlib.Nat.{le_refl, le_trans}
use mathlib.Core.List.{append-nil, append_assoc, map-append}
use stseen.Limiter.{Limiter, is_recent, load, fetch, decided}
use stseen.Limiter.Object.{Tracks, in_window, request, granted_at, ask-Tracks, new_object-Tracks}
use stseen.Limiter.{TakeResponse, invalid_limit}
use stseen.Limiter.Allowance.{
  Namespace, outcome, limit_key, GuestDecision, GuestDecision.allow, GuestDecision.refuse,
  client_of, address_key, overall_key, check_overall, guest_agent_allowance, address, overall,
}
use stseen.Limiter.Allowance.Laws.{
  limit_key-other, limit_key_self, limit_key-outcome, address_key-ne, address_key-ne-overall_key,
  guest_period_ms,
}
use stseen.Prelude.{
  ℕ, ◌*◌, ◌≤◌, ◌≡◌, refl, inl, inr, Bool, true, false, List, [], ◌∷◌, ◌++◌, Option, none, some,
  arith, if◌then◌else◌, count, Text, text_eq, text_eq→eq, Bool-cases, subst, ◌∙◌, sym, map, ◌&&◌,
  count_congr, count-append,
}

-- A guest's question: when, and the address it comes from.
abbrev pub Question : Type 0
Question = ℕ × Option Text

abbrev pub IsTimeline : ℕ → List Question → Type 0
IsTimeline now [] = Unit
IsTimeline now ((at, ip) ∷ qs) = (now ≤ at) × IsTimeline at qs

abbrev pub granted : ℕ → Text → GuestDecision → List (ℕ × Text)
granted at client allow = (at, client) ∷ []
granted at client (refuse r) = []

-- The questions that are allowed, in order, each with its client.
unfoldable pub guest_grants : Option Namespace → List Question → List (ℕ × Text)
guest_grants o [] = []
guest_grants o ((at, ip) ∷ qs) =
    let (o', decision) = guest_agent_allowance o at ip in
    granted at (client_of ip) decision ++ guest_grants o' qs

-- A namespace none of whose objects has been asked yet.
abbrev pub fresh : Namespace
fresh key = load none

abbrev pub times : List (ℕ × Text) → List ℕ
times = map (λ g. g.0)

module _ (limit period : ℕ) where
  Tracks-later :
      {now at : ℕ} {log : List ℕ} {l : Limiter}
      → now ≤ at
      → Tracks limit period now log l
      → Tracks limit period at log l
  Tracks-later {now} {at} {log} {l} h k = record {
    saved = k.saved;
    same = λ q.
        count_congr _ (λ a. (q a && is_recent at period a) && is_recent now period a) l.hits
          (λ a. ground arith)
        ∙ k.same (λ a. q a && is_recent at period a)
        ∙ count_congr _ (λ a. q a && is_recent at period a) log (λ a. ground arith);
    bound = k.bound;
  }

granted_at-outcome :
    (at : ℕ) (r : TakeResponse) → granted_at at r ≡ (if (outcome r).success then at ∷ [] else [])
granted_at-outcome at invalid_limit = refl
granted_at-outcome at (decided true s) = refl
granted_at-outcome at (decided false s) = refl

module _ (limit seconds : ℕ) (limit_ok : 1 ≤ limit) (seconds_ok : 1 ≤ seconds) where
  limit_key-Tracks :
      {now at : ℕ} (log : List ℕ) (ns : Namespace) (key : Text)
      → now ≤ at
      → Tracks limit (seconds * 1000) now log (ns key)
      → let (ns', o) = limit_key limit seconds ns at key in
        Tracks limit (seconds * 1000) at (log ++ (if o.success then at ∷ [] else [])) (ns' key)
  limit_key-Tracks {now} {at} log ns key h k =
      let t = ask-Tracks limit (seconds * 1000) limit_ok (omega arith) log (ns key) h k in
      rw (limit_key-outcome limit seconds ns at key, limit_key_self limit seconds ns at key)
        (rw (granted_at-outcome at (fetch (ns key) at (request limit (seconds * 1000))).1) at t)

-- What the namespace knows of the questions it has allowed.
record Knows (now : ℕ) (log : List (ℕ × Text)) (ns : Namespace) : Type 0 where
  everyone : Tracks 10 guest_period_ms now (times log) (ns overall_key)
  own : Text → List ℕ
  mine : (c : Text) → Tracks 5 guest_period_ms now (own c) (ns (address_key c))
  covers : (c : Text) (q : ℕ → Bool) → count (λ g. text_eq g.1 c && q g.0) log ≤ count q (own c)

module _ {now at : ℕ} {log : List (ℕ × Text)} {ns : Namespace} (ip : Option Text) (h : now ≤ at)
    (k : Knows now log ns) where
  abbrev client : Text
  client = client_of ip

  abbrev ns' : Namespace
  ns' = (limit_key 5 60 ns at (address_key client)).0

  abbrev passed : Bool
  passed = (limit_key 5 60 ns at (address_key client)).1.success

  abbrev ns'' : Namespace
  ns'' = (limit_key 10 60 ns' at overall_key).0

  abbrev won : Bool
  won = (limit_key 10 60 ns' at overall_key).1.success

  abbrev own' : Text → List ℕ
  own' c = if text_eq client c then k.own client ++ (if passed then at ∷ [] else []) else k.own c

  address-mine : (c : Text) → Tracks 5 guest_period_ms at (own' c) (ns' (address_key c))
  address-mine c = elim (Bool-cases (text_eq client c)) [
    | inl same ↦ rw same (
        rw (← text_eq→eq client c same) (
          limit_key-Tracks 5 60 (omega arith) (omega arith) (k.own client) ns (address_key client) h
            (k.mine client)))
    | inr other ↦ rw other (
        rw
          (limit_key-other 5 60 ns at (address_key client) (address_key c)
            (address_key-ne client c other))
          (Tracks-later 5 guest_period_ms h (k.mine c)))
  ]

  address-everyone : Tracks 10 guest_period_ms at (times log) (ns' overall_key)
  address-everyone =
      rw
        (limit_key-other 5 60 ns at (address_key client) overall_key
          (address_key-ne-overall_key client))
        (Tracks-later 10 guest_period_ms h k.everyone)

  overall-mine : (c : Text) → Tracks 5 guest_period_ms at (own' c) (ns'' (address_key c))
  overall-mine c =
      rw
        (limit_key-other 10 60 ns' at overall_key (address_key c)
          (λ e. address_key-ne-overall_key c (sym e)))
        (address-mine c)

  overall-everyone :
      Tracks 10 guest_period_ms at (times log ++ (if won then at ∷ [] else [])) (ns'' overall_key)
  overall-everyone =
      limit_key-Tracks 10 60 (omega arith) (omega arith) (times log) ns' overall_key (le_refl at)
        address-everyone

  -- `own'` grows only by the question that has passed its address's limit.
  covers-kept :
      (c : Text) (q : ℕ → Bool) → count (λ g. text_eq g.1 c && q g.0) log ≤ count q (own' c)
  covers-kept c q = elim (Bool-cases (text_eq client c)) [
    | inl same ↦ rw same (
        omega (
          arith,
          count-append q (k.own client) (if passed then at ∷ [] else []),
          subst (λ x. count (λ g. text_eq g.1 c && q g.0) log ≤ count q (k.own x))
              (sym (text_eq→eq client c same)) (k.covers c q),
        ))
    | inr other ↦ rw other (k.covers c q)
  ]

  covers-granted :
      passed ≡ true
      → (c : Text) (q : ℕ → Bool)
      → count (λ g. text_eq g.1 c && q g.0) (log ++ (at, client) ∷ []) ≤ count q (own' c)
  covers-granted e c q =
      rw (count-append (λ g. text_eq g.1 c && q g.0) log ((at, client) ∷ []))
        (elim (Bool-cases (text_eq client c)) [
          | inl same ↦
              rw (same, e)
                (ground (
                  arith,
                  count-append q (k.own client) (at ∷ []),
                  subst (λ x. count (λ g. text_eq g.1 c && q g.0) log ≤ count q (k.own x))
                      (sym (text_eq→eq client c same)) (k.covers c q),
                ))
          | inr other ↦ rw other (omega (arith, k.covers c q))
        ])

  allowance_lem : guest_agent_allowance (some ns) at ip ≡ (
      if passed
      then (some ns'', (if won then allow else refuse overall))
      else (some ns', refuse address))
  unfolding guest_agent_allowance check_overall
  allowance_lem = refl

  -- After the question, the state is one that knows the log with the question, if allowed.
  abbrev Next : Type 0
  Next =
      (after : Namespace) × (d : GuestDecision) × (guest_agent_allowance (some ns) at ip
        ≡ (some after, d))
      × Knows at (log ++ granted at client d) after

  next : Next
  next = elim (Bool-cases passed) [
    | inr stopped ↦ (
      ns',
      refuse address,
      allowance_lem ∙ rw stopped,
      record {
        everyone = rw (append-nil log) address-everyone;
        own = own';
        mine = address-mine;
        covers = rw (append-nil log) covers-kept;
      },
    )
    | inl through ↦ elim (Bool-cases won) [
      | inl yes_ ↦ (
        ns'',
        allow,
        allowance_lem ∙ rw (through, yes_),
        record {
          everyone =
              rw (map-append (λ (g : ℕ × Text). g.0) log ((at, client) ∷ []))
                (rw yes_ at overall-everyone);
          own = own';
          mine = overall-mine;
          covers = covers-granted through;
        },
      )
      | inr no_ ↦ (
        ns'',
        refuse overall,
        allowance_lem ∙ rw (through, no_),
        record {
          everyone = rw (append-nil log) (rw (no_, append-nil) at overall-everyone);
          own = own';
          mine = overall-mine;
          covers = rw (append-nil log) covers-kept;
        },
      )
    ]
  ]

-- What holds of the whole log, whatever was asked.
record IsBounded (log : List (ℕ × Text)) : Type 0 where
  site : (t : ℕ) → count (in_window guest_period_ms t) (times log) ≤ 10
  each : (c : Text) (t : ℕ) → count (λ g. text_eq g.1 c && in_window guest_period_ms t g.0) log ≤ 5

Knows-IsBounded :
    {now : ℕ} {log : List (ℕ × Text)} {ns : Namespace} → Knows now log ns → IsBounded log
Knows-IsBounded k = record {
  site = k.everyone.bound;
  each = λ c t. le_trans (k.covers c (in_window guest_period_ms t)) ((k.mine c).bound t);
}

guest_grants-IsBounded :
    (now : ℕ) (log : List (ℕ × Text)) (ns : Namespace) (qs : List Question)
    → IsTimeline now qs
    → Knows now log ns
    → IsBounded (log ++ guest_grants (some ns) qs)
unfolding guest_grants
guest_grants-IsBounded now log ns [] line k = rw (append-nil log) (Knows-IsBounded k)
guest_grants-IsBounded now log ns ((at, ip) ∷ qs) line k =
    let (after, d, e, k') = next ip line.0 k in
    rw (e, ← append_assoc log (granted at (client_of ip) d) (guest_grants (some after) qs))
      (guest_grants-IsBounded at (log ++ granted at (client_of ip) d) after qs line.1 k')

fresh-Knows : Knows 0 [] fresh
fresh-Knows = record {
  everyone = new_object-Tracks 10 guest_period_ms (omega arith) (omega arith);
  own = λ c. [];
  mine = λ c. new_object-Tracks 5 guest_period_ms (omega arith) (omega arith);
  covers = λ c q. omega arith;
}

-- From limiter objects that have not been asked yet, and at times that do not decrease, in every
-- sixty seconds guests together are allowed at most ten questions, and each address at most five.
pub guest_grants-in_window :
    (qs : List Question)
    → IsTimeline 0 qs
    → (t : ℕ)
    → let log = guest_grants (some fresh) qs in
      (count (in_window guest_period_ms t) (times log) ≤ 10)
      × ((c : Text) → count (λ g. text_eq g.1 c && in_window guest_period_ms t g.0) log ≤ 5)
guest_grants-in_window qs line t =
    let b = guest_grants-IsBounded 0 [] fresh qs line fresh-Knows in (b.site t, λ c. b.each c t)
