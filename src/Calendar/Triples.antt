-- ===== src/Calendar/Triples.antt =====
-- What holds after a chain of calls: in any case, where it returns, and that it returns.
use stseen.Calendar.Calls.{Outcome, done, thrown, has_status, bind, catch_status}
use stseen.Prelude.{ℕ, Bool-cases, inl, inr}

module _ {W A : Type 0} where
  -- What holds of the value and the world where a call has returned.
  abbrev pub Returns : (A → W → Type 0) → W × Outcome A → Type 0
  Returns Q (w, done a) = Q a w
  Returns Q (w, thrown failure) = Unit

  -- A call that has returned, with what then holds.
  abbrev pub Completes : (A → W → Type 0) → W × Outcome A → Type 0
  Completes Q (w, done a) = Q a w
  Completes Q (w, thrown failure) = ⊥

  pub catch_status-world :
      (P : W → Type 0) (status : ℕ) (x : W × Outcome A) (again : W → W × Outcome A)
      → P x.0
      → ((w : W) → P w → P (again w).0)
      → P (catch_status status x again).0
  catch_status-world P status (w, done a) again h k = h
  catch_status-world P status (w, thrown failure) again h k =
      elim (Bool-cases (has_status status failure)) [ inl e ↦ rw e (k w h) | inr e ↦ rw e h ]

  pub catch_status-Returns :
      (Q : A → W → Type 0) (status : ℕ) (x : W × Outcome A) (again : W → W × Outcome A)
      → Returns Q x
      → ((w : W) → Returns Q (again w))
      → Returns Q (catch_status status x again)
  catch_status-Returns Q status (w, done a) again h k = h
  catch_status-Returns Q status (w, thrown failure) again h k =
      elim (Bool-cases (has_status status failure)) [ inl e ↦ rw e (k w) | inr e ↦ rw e tt ]

module _ {W A B : Type 0} where
  pub bind-world :
      (P : W → Type 0) (x : W × Outcome A) (next : A → W → W × Outcome B)
      → P x.0
      → ((a : A) (w : W) → P w → P (next a w).0)
      → P (bind x next).0
  bind-world P (w, done a) next h k = k a w h
  bind-world P (w, thrown failure) next h k = h

  pub bind-Returns :
      (P : A → W → Type 0) (Q : B → W → Type 0) (x : W × Outcome A) (next : A → W → W × Outcome B)
      → Returns P x
      → ((a : A) (w : W) → P a w → Returns Q (next a w))
      → Returns Q (bind x next)
  bind-Returns P Q (w, done a) next h k = k a w h
  bind-Returns P Q (w, thrown failure) next h k = tt

  pub bind-Completes :
      (P : A → W → Type 0) (Q : B → W → Type 0) (x : W × Outcome A) (next : A → W → W × Outcome B)
      → Completes P x
      → ((a : A) (w : W) → P a w → Completes Q (next a w))
      → Completes Q (bind x next)
  bind-Completes P Q (w, done a) next h k = k a w h
  bind-Completes P Q (w, thrown failure) next h k = absurd h
