-- ===== src/Deletion/Outcome.antt =====
-- What the result of a deletion says, and what has been called when it says it.
use mathlib.Core.Option.{some-injective}
use stseen.Deletion.{
  Provider, google_calendar, gmail, RevocationOutcome, revoked, already_invalid, unreachable,
  refused, GoogleAnswer, revoke_google_token, google, undecryptable, stored_revocation, Answer,
  Services, DeletionResult, escaped, failed, deleted, EventRemoval, remove_synced,
  RevocationAttempt, connection, attempts_of, is_confirmed, auth_user_deleted, finish_deletion,
  delete_auth_user, delete_rows, delete_connected, reads_thrown, reads_failed, row_of, count_of,
  delete_account, attempt_token,
}
use stseen.Prelude.{
  ℕ, ◌≡◌, refl, sym, ap, subst, ◌∙◌, ◌↔◌, ◌⊎◌, inl, inr, Bool, true, false, not, ◌&&◌, ◌||◌, List,
  [], ◌∷◌, ◌++◌, Option, none, some, any, All, Text, arith, Option-cases,
}

abbrev pub is_deleted : DeletionResult → Bool
is_deleted escaped = false
is_deleted (failed status e n g) = false
is_deleted (deleted a b c) = true

abbrev succeeded : Answer (Unit {0}) → Bool
succeeded Answer.thrown = false
succeeded Answer.error = false
succeeded (Answer.ok _) = true

-- What a deletion needs: the four reads, the deletion of the rows, and the auth user gone.
abbrev pub can_delete : Services → Bool
can_delete s =
    not (reads_thrown s)
    && not (reads_failed s)
    && succeeded s.delete_data
    && (auth_user_deleted s).1

is_deleted-delete_rows :
    (s : Services) (events : EventRemoval) (attempts : List RevocationAttempt)
    → is_deleted (delete_rows s events attempts).1
      ≡ (succeeded s.delete_data && (auth_user_deleted s).1)
unfolding delete_rows delete_auth_user finish_deletion
is_deleted-delete_rows s events attempts = ground arith

is_deleted-delete_connected :
    (s : Services) (asked : Bool) (calendar gmail_row : Option Text) (active any_events : ℕ)
    → is_deleted (delete_connected s asked calendar gmail_row active any_events).1
      ≡ (succeeded s.delete_data && (auth_user_deleted s).1)
unfolding delete_connected
is_deleted-delete_connected s asked calendar gmail_row active any_events =
    is_deleted-delete_rows s (remove_synced s asked calendar active any_events).1
      (attempts_of s (connection google_calendar calendar ++ connection gmail gmail_row)).1

-- The user is told that the account is deleted exactly when the reads succeeded, the rows are
-- deleted and the auth user is gone, whatever Google answers.
pub is_deleted-delete_account :
    (s : Services) (asked : Bool) → is_deleted (delete_account s asked).1 ≡ can_delete s
unfolding delete_account
is_deleted-delete_account s asked = ground (
  arith,
  is_deleted-delete_connected s asked (row_of s.calendar) (row_of s.gmail_row)
      (count_of s.active_events) (count_of s.any_events),
)

-- Nothing that Google does, and no choice about the calendar's events, stops a deletion or makes
-- one succeed.
pub google_cannot_stop :
    (s : Services) (asked asked' : Bool) (removal : Option ℕ)
    (decrypt : Provider → Text → Option Text) (revoke : Text → GoogleAnswer)
    → let s' = record s { remove_events = removal; decrypt = decrypt; revoke = revoke } in
      is_deleted (delete_account s' asked').1 ≡ is_deleted (delete_account s asked).1
unfolding reads_thrown reads_failed auth_user_deleted
google_cannot_stop s asked asked' removal decrypt revoke =
    is_deleted-delete_account
      (record s { remove_events = removal; decrypt = decrypt; revoke = revoke }) asked'
    ∙ sym (is_deleted-delete_account s asked)

-- Google has confirmed that the token of a connection can no longer be used.
abbrev pub IsRevoked : Services → Provider × Text → Type 0
IsRevoked s (p, ciphertext) =
    (token : Text) × (s.decrypt p ciphertext ≡ some token)
    × ((revoke_google_token (s.revoke token) ≡ revoked)
        ⊎ (revoke_google_token (s.revoke token) ≡ already_invalid))

abbrev unconfirmed_attempt : RevocationAttempt → Bool
unconfirmed_attempt a = not (is_confirmed (stored_revocation (some a.outcome)))

confirmed_outcome :
    (o : RevocationOutcome)
    → (is_confirmed (stored_revocation (some (google o))) ≡ true)
      ↔ ((o ≡ revoked) ⊎ (o ≡ already_invalid))
unfolding stored_revocation
confirmed_outcome revoked = (λ h. inl refl, λ h. refl)
confirmed_outcome already_invalid = (λ h. inr refl, λ h. refl)
confirmed_outcome unreachable = (λ h. cc, λ h. absurd (ground arith))
confirmed_outcome refused = (λ h. cc, λ h. absurd (ground arith))

attempt-IsRevoked :
    (s : Services) (p : Provider) (ciphertext : Text)
    → (unconfirmed_attempt (attempt_token s p (s.decrypt p ciphertext)).1 ≡ false)
      ↔ IsRevoked s (p, ciphertext)
unfolding stored_revocation
attempt-IsRevoked s p ciphertext = elim (Option-cases (s.decrypt p ciphertext)) [
  | inl e ↦ rw e (λ h. absurd (undecrypted h), λ c. absurd (none-ne-some c.0 c.1))
  | inr (token, e) ↦
      let iff = confirmed_outcome (revoke_google_token (s.revoke token)) in
      rw e (
        λ h. (token, refl, iff.0 (ground arith)),
        λ c. ap not (
            iff.1 (
              subst
                (λ t.
                  (revoke_google_token (s.revoke t) ≡ revoked)
                  ⊎ (revoke_google_token (s.revoke t) ≡ already_invalid))
                (sym (some-injective token c.0 c.1)) c.2)),
      )
]
  where
    undecrypted : not (is_confirmed (stored_revocation (some undecryptable))) ≡ false → ⊥
    undecrypted h = ground arith

    none-ne-some : (t : Text) → ◌≡◌ {A = Option Text} none (some t) → ⊥
    none-ne-some t h = ground arith

attempts-IsRevoked :
    (s : Services) (connections : List (Provider × Text))
    → (any unconfirmed_attempt (attempts_of s connections).1 ≡ false)
      ↔ All (IsRevoked s) connections
unfolding attempts_of
attempts-IsRevoked s [] = (λ h. tt, λ h. refl)
attempts-IsRevoked s ((p, ciphertext) ∷ rest) =
    let this = attempt-IsRevoked s p ciphertext in
    let others = attempts-IsRevoked s rest in
    (
      λ h. (this.0 (or_false_left _ _ h), others.0 (or_false_right _ _ h)),
      λ h. rw (this.1 h.0, others.1 h.1),
    )
  where
    or_false_left : (a b : Bool) → (a || b) ≡ false → a ≡ false
    or_false_left a b h = ground arith

    or_false_right : (a b : Bool) → (a || b) ≡ false → b ≡ false
    or_false_right a b h = ground arith

-- The connections that the reads found.
abbrev pub connections_of : Services → List (Provider × Text)
connections_of s =
    connection google_calendar (row_of s.calendar) ++ connection gmail (row_of s.gmail_row)

-- What a deleted account's page says of Google, if the account is deleted.
abbrev pub says_not_revoked : DeletionResult → Bool
says_not_revoked escaped = false
says_not_revoked (failed status e n g) = false
says_not_revoked (deleted not_revoked k n) = not_revoked

says_not_revoked-delete_account :
    (s : Services) (asked : Bool)
    → can_delete s ≡ true
    → says_not_revoked (delete_account s asked).1
      ≡ any unconfirmed_attempt (attempts_of s (connections_of s)).1
unfolding delete_account delete_connected delete_rows delete_auth_user finish_deletion
says_not_revoked-delete_account s asked h = ground arith

-- When the account is deleted, the user is spared the advice to revoke access at Google exactly
-- when every stored token decrypted and Google confirmed that it can no longer be used.
pub google-IsRevoked_iff :
    (s : Services) (asked : Bool)
    → is_deleted (delete_account s asked).1 ≡ true
    → (says_not_revoked (delete_account s asked).1 ≡ false) ↔ All (IsRevoked s) (connections_of s)
google-IsRevoked_iff s asked h =
    rw (says_not_revoked-delete_account s asked (sym (is_deleted-delete_account s asked) ∙ h))
      (attempts-IsRevoked s (connections_of s))
