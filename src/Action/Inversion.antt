-- ===== src/Action/Inversion.antt =====
-- What a successful action says of its parts.
use company_service.Common.{String, ◌≡◌, refl, ap, false, true, Bool, ◌⊎◌, inl, inr}
use company_service.Errors.{GoError}
use company_service.Action.{Result, ok, err, Action, fail_if, wrap_err, ◌>>=◌, continue}

module _ {ℓ} {S A B : Type ℓ} where
  continue-eq-ok :
      (r : Result A) (f : A → Action S B) (s : S) {b : B}
      → (continue r f s).0 ≡ ok b
      → (a : A) × (r ≡ ok a) × ((f a s).0 ≡ ok b)
  continue-eq-ok (ok a) f s h = (a, refl, h)
  continue-eq-ok (err e) f s h = cc

  pub >>=-eq-ok :
      (m : Action S A) (f : A → Action S B) (s : S) {b : B}
      → ((m >>= f) s).0 ≡ ok b
      → (a : A) × ((m s).0 ≡ ok a) × ((f a (m s).1).0 ≡ ok b)
  >>=-eq-ok m f s h = continue-eq-ok (m s).0 f (m s).1 h

  continue_runs :
      (r : Result A) (f : A → Action S B) (s : S) {b : B}
      → (continue r f s).0 ≡ ok b
      → (a : A) × (r ≡ ok a) × ((f a s).0 ≡ ok b) × (continue r f s ≡ f a s)
  continue_runs (ok a) f s h = (a, refl, h, refl)
  continue_runs (err e) f s h = cc

  -- The same with the state that the action ends in.
  pub >>=_runs :
      (m : Action S A) (f : A → Action S B) (s : S) {b : B}
      → ((m >>= f) s).0 ≡ ok b
      → (a : A) × ((m s).0 ≡ ok a) × ((f a (m s).1).0 ≡ ok b) × ((m >>= f) s ≡ f a (m s).1)
  >>=_runs m f s h = continue_runs (m s).0 f (m s).1 h

  -- A step that succeeds hands over to the rest.
  pub >>=_after_ok :
      (m : Action S A) (f : A → Action S B) (s : S) (a : A)
      → (m s).0 ≡ ok a
      → (m >>= f) s ≡ f a (m s).1
  >>=_after_ok m f s a h = ap (λ (r : Result A). continue r f (m s).1) h

pub fail_if-eq-ok {ℓ} :
    {S : Type ℓ} (test : Bool) (e : GoError) (s : S) → (fail_if test e s).0 ≡ ok tt → test ≡ false
fail_if-eq-ok true e s h = cc
fail_if-eq-ok false e s h = refl

module _ {ℓ} {A : Type ℓ} where
  abbrev pub is_ok : Result A → Bool
  is_ok (ok a) = true
  is_ok (err e) = false

  pub eq-ok_of_is_ok : (r : Result A) → is_ok r ≡ true → (a : A) × (r ≡ ok a)
  eq-ok_of_is_ok (ok a) h = (a, refl)
  eq-ok_of_is_ok (err e) h = cc

  pub Result-cases : (r : Result A) → ((a : A) × (r ≡ ok a)) ⊎ ((e : GoError) × (r ≡ err e))
  Result-cases (ok a) = inl (a, refl)
  Result-cases (err e) = inr (e, refl)

  pub wrap_err-eq-ok :
      (prefix : String) (r : Result A) {a : A} → wrap_err prefix r ≡ ok a → r ≡ ok a
  wrap_err-eq-ok prefix (ok a) h = h
  wrap_err-eq-ok prefix (err e) h = cc
