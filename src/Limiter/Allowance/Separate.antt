-- ===== src/Limiter/Allowance/Separate.antt =====
-- Guests' questions and sign-in attempts are counted apart.
use stseen.Limiter.Allowance.{
  Namespace, limit_key, client_of, address_key, overall_key, check_overall, guest_agent_allowance,
  AuthKind, attempt, verification, auth_key, auth_limit_allowance, auth_per_address,
  auth_limit_period_seconds,
}
use stseen.Limiter.Allowance.Laws.{limit_key-other}
use stseen.Prelude.{ℕ, ◌≡◌, ◌≢◌, refl, Option, some, Text, ne_of_text_eq, Bool-cases, inl, inr}

-- Two namespaces that agree on the objects that guests' questions are counted by.
abbrev pub Agree : Namespace → Namespace → Type 0
Agree ns ms =
    ((client : Text) → ns (address_key client) ≡ ms (address_key client))
    × (ns overall_key ≡ ms overall_key)

limit_key-agree :
    (limit period : ℕ) (ns ms : Namespace) (now : ℕ) (key other : Text)
    → ns key ≡ ms key
    → ns other ≡ ms other
    → ((limit_key limit period ns now key).0 other ≡ (limit_key limit period ms now key).0 other)
      × ((limit_key limit period ns now key).1 ≡ (limit_key limit period ms now key).1)
unfolding limit_key
limit_key-agree limit period ns ms now key other h k = rw (h, k) (refl, refl)

auth_key-ne : (kind : AuthKind) (c client : Text) → auth_key kind c ≢ address_key client
auth_key-ne attempt c client = ne_of_text_eq (auth_key attempt c) (address_key client) refl
auth_key-ne verification c client =
    ne_of_text_eq (auth_key verification c) (address_key client) refl

auth_key-ne_overall : (kind : AuthKind) (c : Text) → auth_key kind c ≢ overall_key
auth_key-ne_overall attempt c = ne_of_text_eq (auth_key attempt c) overall_key refl
auth_key-ne_overall verification c = ne_of_text_eq (auth_key verification c) overall_key refl

limit_key-Agree :
    (limit period : ℕ) (ns ms : Namespace) (now : ℕ) (key : Text)
    → ns key ≡ ms key
    → Agree ns ms
    → Agree (limit_key limit period ns now key).0 (limit_key limit period ms now key).0
limit_key-Agree limit period ns ms now key h a = (
  λ client. (limit_key-agree limit period ns ms now key (address_key client) h (a.0 client)).0,
  (limit_key-agree limit period ns ms now key overall_key h a.1).0,
)

-- What a question leaves of two namespaces that agree, and what it is answered.
pub guest_agent_allowance-Agree :
    (ns ms : Namespace) (now : ℕ) (ip : Option Text)
    → Agree ns ms
    → (ns' : Namespace) × (ms' : Namespace) × ((guest_agent_allowance (some ns) now ip).0
        ≡ some ns')
      × ((guest_agent_allowance (some ms) now ip).0 ≡ some ms')
      × Agree ns' ms'
      × ((guest_agent_allowance (some ns) now ip).1 ≡ (guest_agent_allowance (some ms) now ip).1)
unfolding guest_agent_allowance check_overall
guest_agent_allowance-Agree ns ms now ip a =
    let key = address_key (client_of ip) in
    let first = limit_key 5 60 ns now key in
    let first' = limit_key 5 60 ms now key in
    let a1 = limit_key-Agree 5 60 ns ms now key (a.0 (client_of ip)) a in
    let same =
      (limit_key-agree 5 60 ns ms now key key (a.0 (client_of ip)) (a.0 (client_of ip))).1 in
    let a2 = limit_key-Agree 10 60 first.0 first'.0 now overall_key a1.1 a1 in
    let same2 = (limit_key-agree 10 60 first.0 first'.0 now overall_key overall_key a1.1 a1.1).1 in
    elim (Bool-cases first'.1.success) [
      | inl e ↦ (
        (limit_key 10 60 first.0 now overall_key).0,
        (limit_key 10 60 first'.0 now overall_key).0,
        rw (same, e) refl,
        rw e refl,
        a2,
        rw (same, e, same2) refl,
      )
      | inr e ↦ (first.0, first'.0, rw (same, e) refl, rw e refl, a1, rw (same, e) refl)
    ]

-- A sign-in attempt leaves what guests are counted by as it was.
pub auth_limit_allowance-Agree :
    (ns : Namespace) (now : ℕ) (kind : AuthKind) (ip : Option Text)
    → (ns' : Namespace) × ((auth_limit_allowance (some ns) now kind ip).0 ≡ some ns') × Agree ns' ns
unfolding auth_limit_allowance
auth_limit_allowance-Agree ns now kind ip =
    let key = auth_key kind (client_of ip) in
    (
      (limit_key auth_per_address auth_limit_period_seconds ns now key).0,
      refl,
      (
        λ client.
            limit_key-other auth_per_address auth_limit_period_seconds ns now key
              (address_key client) (auth_key-ne kind (client_of ip) client),
        limit_key-other auth_per_address auth_limit_period_seconds ns now key overall_key
            (auth_key-ne_overall kind (client_of ip)),
      ),
    )
