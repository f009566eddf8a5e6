-- ===== src/Onboarding/Route/Follows.antt =====
-- What finishing a first run follows.
use stseen.Dashboard.Query.{dedupe}
use stseen.Onboarding.{disciplines_for_fields}
use stseen.Onboarding.Route.{
  FactRow, RunReads, RunEffect, save_skipped, save_completed, follow_companies, follow_roles,
  ask_plan, RunReply, RunBody, skip, complete, has_row, find_landing, landed, write_fresh, fresh_of,
  with_followed, with_chosen, with_facts, follow_requested, with_already, with_known,
  follow_chosen_companies, finish_first_run,
}
use stseen.Prelude.Words.{test_of_found}
use stseen.Prelude.{
  all_of_All, filter-All, ℕ, ◌≡◌, refl, Bool, true, false, not, ◌&&◌, List, [], ◌∷◌, ◌++◌, Option,
  none, some, map, filter, any, All, All-append, All-map, Text, text_eq, text_eq_refl, Bool-cases,
  inl, inr, arith,
}

-- What the database documents of the reads, for the companies that it has and the roles in scope,
-- and those of either that the visitor follows.
pub record ReadsTrue (reads : RunReads)
    (has_company in_scope follows_company follows_role : Text → Bool) : Type 0 where
  pub companies :
      (asked found : List Text) (id : Text)
      → reads.known_companies asked ≡ some found
      → any (text_eq id) found ≡ true
      → has_company id ≡ true
  pub roles :
      (asked : List Text) (rows : List FactRow) (id : Text)
      → reads.role_facts asked ≡ some rows
      → has_row rows id ≡ true
      → in_scope id ≡ true
  pub company_follows :
      (asked found : List Text) (id : Text)
      → reads.followed_companies asked ≡ some found
      → any (text_eq id) asked ≡ true
      → any (text_eq id) found ≡ false
      → follows_company id ≡ false
  pub role_follows :
      (asked found : List Text) (id : Text)
      → reads.followed_roles asked ≡ some found
      → any (text_eq id) asked ≡ true
      → any (text_eq id) found ≡ false
      → follows_role id ≡ false

-- What a filter keeps is in the list and passes the test.
filter-members :
    (p : Text → Bool) (xs : List Text)
    → All (λ x. (any (text_eq x) xs ≡ true) × (p x ≡ true)) (filter p xs)
filter-members p [] = tt
filter-members p (x ∷ xs) =
    let rest =
      All-map (λ y. (any (text_eq y) xs ≡ true) × (p y ≡ true))
        (λ y. (any (text_eq y) (x ∷ xs) ≡ true) × (p y ≡ true)) (filter p xs)
        (λ y h. (rw h.0 (ground arith), h.1)) (filter-members p xs) in
    elim (Bool-cases (p x)) [
      | inl e ↦ rw e ((rw (text_eq_refl x) refl, e), rest)
      | inr e ↦ rw e rest
    ]

module _ (reads : RunReads) (write : RunEffect → Bool) (plan : Text → ℕ × Option Text)
    (lower : Text → Text) (today : Text)
    (has_company in_scope follows_company follows_role : Text → Bool)
    (reads_true : ReadsTrue reads has_company in_scope follows_company follows_role) where
  -- An effect that follows only what is there and is not followed yet.
  abbrev pub IsDue : RunEffect → Type 0
  IsDue save_skipped = Unit
  IsDue (save_completed disciplines) = Unit
  IsDue (follow_companies ids) =
      All (λ id. (has_company id ≡ true) × (follows_company id ≡ false)) ids
  IsDue (follow_roles ids) = All (λ id. (in_scope id ≡ true) × (follows_role id ≡ false)) ids
  IsDue (ask_plan id) = Unit

  abbrev Due : List RunEffect × RunReply → Type 0
  Due x = All IsDue x.0

  write_fresh-Due :
      (follow : List Text → RunEffect) (ids : List Text) (effects : List RunEffect)
      (next : List RunEffect → List RunEffect × RunReply)
      → All IsDue effects
      → IsDue (follow ids)
      → ((done : List RunEffect) → All IsDue done → Due (next done))
      → Due (write_fresh reads write plan lower today follow ids effects next)
  write_fresh-Due follow [] effects next h k l = l effects h
  write_fresh-Due follow (id ∷ ids) effects next h k l =
      let both = All-append IsDue effects (follow (id ∷ ids) ∷ []) h (k, tt) in
      elim (Bool-cases (write (follow (id ∷ ids)))) [
        | inl e ↦ rw e (l (effects ++ follow (id ∷ ids) ∷ []) both)
        | inr e ↦ rw e both
      ]

  landed-Due :
      (effects : List RunEffect) (chosen : List Text) (o : Option Text)
      → All IsDue effects
      → Due (landed reads write plan lower today effects chosen o)
  landed-Due effects chosen none h = h
  landed-Due effects chosen (some id) h = All-append IsDue effects (ask_plan id ∷ []) h (tt, tt)

  with_followed-Due :
      (asked : List Text) (rows : List FactRow) (chosen : List Text) (o : Option (List Text))
      (effects : List RunEffect)
      → reads.role_facts asked ≡ some rows
      → All (λ id. has_row rows id ≡ true) chosen
      → reads.followed_roles chosen ≡ o
      → All IsDue effects
      → Due (with_followed reads write plan lower today rows chosen o effects)
  with_followed-Due asked rows chosen none effects h kept k l = l
  with_followed-Due asked rows chosen (some already) effects h kept k l =
      write_fresh-Due follow_roles (fresh_of reads write plan lower today already chosen) effects
        (λ done. landed reads write plan lower today done chosen (find_landing today rows chosen)) l
        (All-map (λ id. (any (text_eq id) chosen ≡ true) × (not (any (text_eq id) already) ≡ true))
          (λ id. (in_scope id ≡ true) × (follows_role id ≡ false))
          (fresh_of reads write plan lower today already chosen)
          (λ id m. (
            reads_true.roles asked rows id h (
                test_of_found (has_row rows) id chosen (all_of_All (has_row rows) chosen kept) m.0),
            reads_true.role_follows chosen already id k m.0 (ground arith),
          ))
          (filter-members (λ id. not (any (text_eq id) already)) chosen))
        λ done d. landed-Due done chosen (find_landing today rows chosen) d

  with_chosen-Due :
      (asked : List Text) (rows : List FactRow) (chosen : List Text) (effects : List RunEffect)
      → reads.role_facts asked ≡ some rows
      → All (λ id. has_row rows id ≡ true) chosen
      → All IsDue effects
      → Due (with_chosen reads write plan lower today rows chosen effects)
  with_chosen-Due asked rows [] effects h kept l = l
  with_chosen-Due asked rows (id ∷ ids) effects h kept l =
      with_followed-Due asked rows (id ∷ ids) (reads.followed_roles (id ∷ ids)) effects h kept refl
        l

  with_facts-Due :
      (asked : List Text) (o : Option (List FactRow)) (effects : List RunEffect)
      → reads.role_facts asked ≡ o
      → All IsDue effects
      → Due (with_facts reads write plan lower today asked o effects)
  with_facts-Due asked none effects h l = l
  with_facts-Due asked (some rows) effects h l =
      with_chosen-Due asked rows (filter (has_row rows) asked) effects h
        (filter-All (λ x. has_row rows x ≡ true) (has_row rows) asked (λ x e. e)) l

  follow_requested-Due :
      (companies asked : List Text) (effects : List RunEffect)
      → All IsDue effects
      → Due (follow_requested reads write plan lower today companies asked effects)
  follow_requested-Due companies [] effects l = l
  follow_requested-Due companies (id ∷ ids) effects l =
      with_facts-Due (id ∷ ids) (reads.role_facts (id ∷ ids)) effects refl l

  module _ (next : List RunEffect → List RunEffect × RunReply)
      (next-Due : (done : List RunEffect) → All IsDue done → Due (next done)) where
    with_already-Due :
        (asked existing : List Text) (o : Option (List Text)) (effects : List RunEffect)
        → reads.known_companies asked ≡ some existing
        → reads.followed_companies asked ≡ o
        → All IsDue effects
        → Due (with_already reads write plan lower today asked existing o effects next)
    with_already-Due asked existing none effects h k l = l
    with_already-Due asked existing (some already) effects h k l =
        let test = λ (id : Text). any (text_eq id) existing && not (any (text_eq id) already) in
        write_fresh-Due follow_companies (filter test asked) effects next l
          (All-map (λ id. (any (text_eq id) asked ≡ true) × (test id ≡ true))
            (λ id. (has_company id ≡ true) × (follows_company id ≡ false)) (filter test asked)
            (λ id m. (
              reads_true.companies asked existing id h (ground arith),
              reads_true.company_follows asked already id k m.0 (ground arith),
            ))
            (filter-members test asked))
          next-Due

    with_known-Due :
        (asked : List Text) (o : Option (List Text)) (effects : List RunEffect)
        → reads.known_companies asked ≡ o
        → All IsDue effects
        → Due (with_known reads write plan lower today asked o effects next)
    with_known-Due asked none effects h l = l
    with_known-Due asked (some existing) effects h l =
        with_already-Due asked existing (reads.followed_companies asked) effects h refl l

    follow_chosen_companies-Due :
        (asked : List Text) (effects : List RunEffect)
        → All IsDue effects
        → Due (follow_chosen_companies reads write plan lower today asked effects next)
    follow_chosen_companies-Due [] effects l = next-Due effects l
    follow_chosen_companies-Due (id ∷ ids) effects l =
        with_known-Due (id ∷ ids) (reads.known_companies (id ∷ ids)) effects refl l

  -- Whatever the body, and whichever reads and writes fail, a first run follows only companies that
  -- the database has and roles in scope, and none that the visitor follows already.
  pub finish_first_run-IsDue :
      (body : RunBody) → All IsDue (finish_first_run reads write plan lower today body).0
  unfolding finish_first_run
  finish_first_run-IsDue skip = elim (Bool-cases (write save_skipped)) [
    | inl e ↦ rw e (tt, tt)
    | inr e ↦ rw e (tt, tt)
  ]
  finish_first_run-IsDue (complete fields companies role_ids) =
      elim (Bool-cases (write (save_completed (disciplines_for_fields fields)))) [
        | inl e ↦
            (rw e (
              follow_chosen_companies-Due
                (follow_requested reads write plan lower today (dedupe [] (map lower companies))
                  (dedupe [] role_ids))
                (follow_requested-Due (dedupe [] (map lower companies)) (dedupe [] role_ids))
                (dedupe [] (map lower companies))
                (save_completed (disciplines_for_fields fields) ∷ []) (tt, tt)))
        | inr e ↦ rw e (tt, tt)
      ]
