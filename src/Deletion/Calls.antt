-- ===== src/Deletion/Calls.antt =====
-- The calls that a deletion makes, and what must have succeeded before each.
use stseen.Deletion.{
  Provider, Answer, Services, Effect, remove_events_call, revoke_call, delete_data_call,
  delete_user_call, finish_call, Run, EventRemoval, remove_synced, RevocationAttempt, attempts_of,
  attempt_token, auth_user_deleted, finish_deletion, delete_auth_user, delete_rows,
  delete_connected, delete_account, connection, google_calendar, gmail, row_of, count_of,
}
use stseen.Deletion.Outcome.{is_deleted}
use stseen.Prelude.{
  ℕ, ◌≡◌, refl, inl, inr, Bool, true, false, ◌||◌, List, [], ◌∷◌, ◌++◌, Option, any, Text, arith,
  Option-cases,
}

abbrev pub is_delete_data : Effect → Bool
is_delete_data delete_data_call = true
is_delete_data _ = false

abbrev pub is_delete_user : Effect → Bool
is_delete_user delete_user_call = true
is_delete_user _ = false

abbrev pub is_finish : Effect → Bool
is_finish (finish_call c g e) = true
is_finish _ = false

any-append : (p : Effect → Bool) (xs ys : List Effect) → any p (xs ++ ys) ≡ (any p xs || any p ys)
any-append p [] ys = refl
any-append p (x ∷ xs) ys = ground (arith, any-append p xs ys)

any-attempts_of :
    (p : Effect → Bool) (s : Services) (cs : List (Provider × Text))
    → ((q : Provider) (t : Text) → p (revoke_call q t) ≡ false)
    → any p (attempts_of s cs).0 ≡ false
unfolding attempts_of
any-attempts_of p s [] h = refl
any-attempts_of p s ((q, ciphertext) ∷ rest) h =
    rw (any-append p (attempt_token s q (s.decrypt q ciphertext)).0 (attempts_of s rest).0)
      (elim (Option-cases (s.decrypt q ciphertext)) [
        | inl e ↦ rw e (any-attempts_of p s rest h)
        | inr (t, e) ↦ rw (e, h q t) (any-attempts_of p s rest h)
      ])

any-remove_synced :
    (p : Effect → Bool) (s : Services) (asked : Bool) (c : Option Text) (n m : ℕ)
    → p remove_events_call ≡ false
    → any p (remove_synced s asked c n m).0 ≡ false
unfolding remove_synced
any-remove_synced p s asked c n m h = ground arith

-- Before the rows are deleted, only the calendar and Google's revocation endpoint are called.
any-delete_connected :
    (p : Effect → Bool) (s : Services) (asked : Bool) (c g : Option Text) (n m : ℕ)
    → p remove_events_call ≡ false
    → ((q : Provider) (t : Text) → p (revoke_call q t) ≡ false)
    → any p (delete_connected s asked c g n m).0
      ≡ any p
          (delete_rows s
            (remove_synced s asked c n m).1
            (attempts_of s (connection google_calendar c ++ connection gmail g)).1).0
unfolding delete_connected
any-delete_connected p s asked c g n m h k =
    let cs = connection google_calendar c ++ connection gmail g in
    rw (
      any-append p (remove_synced s asked c n m).0,
      any-remove_synced p s asked c n m h,
      any-append p (attempts_of s cs).0,
      any-attempts_of p s cs k,
    )

abbrev Ordered : Services → Run → Type 0
Ordered s (calls, result) =
    (any is_delete_user calls ≡ true → s.delete_data ≡ Answer.ok tt)
    × (any is_finish calls ≡ is_deleted result)
    × (is_deleted result ≡ true
        → (any is_delete_data calls ≡ true) × (any is_delete_user calls ≡ true))

delete_rows-Ordered :
    (s : Services) (events : EventRemoval) (attempts : List RevocationAttempt)
    → Ordered s (delete_rows s events attempts)
unfolding delete_rows delete_auth_user auth_user_deleted finish_deletion
delete_rows-Ordered s events attempts = ground arith

result-delete_connected :
    (s : Services) (asked : Bool) (c g : Option Text) (n m : ℕ)
    → (delete_connected s asked c g n m).1
      ≡ (delete_rows s
          (remove_synced s asked c n m).1
          (attempts_of s (connection google_calendar c ++ connection gmail g)).1).1
unfolding delete_connected
result-delete_connected s asked c g n m = refl

delete_connected-Ordered :
    (s : Services) (asked : Bool) (c g : Option Text) (n m : ℕ)
    → Ordered s (delete_connected s asked c g n m)
delete_connected-Ordered s asked c g n m =
    rw
      (
        any-delete_connected is_delete_user s asked c g n m refl (λ q t. refl),
        any-delete_connected is_finish s asked c g n m refl (λ q t. refl),
        any-delete_connected is_delete_data s asked c g n m refl (λ q t. refl),
        result-delete_connected s asked c g n m,
      )
      (delete_rows-Ordered s (remove_synced s asked c n m).1
        (attempts_of s (connection google_calendar c ++ connection gmail g)).1)

-- Whatever is answered: the auth user is deleted only after the rows have been, and the deletion
-- is recorded only for an account that is deleted; a deleted account has gone through both.
pub delete_account-calls :
    (s : Services) (asked : Bool)
    → let (calls, result) = delete_account s asked in
      (any is_delete_user calls ≡ true → s.delete_data ≡ Answer.ok tt)
      × (any is_finish calls ≡ is_deleted result)
      × (is_deleted result ≡ true
          → (any is_delete_data calls ≡ true) × (any is_delete_user calls ≡ true))
unfolding delete_account
delete_account-calls s asked = ground (
  arith,
  delete_connected-Ordered s asked (row_of s.calendar) (row_of s.gmail_row)
      (count_of s.active_events) (count_of s.any_events),
)
