-- ===== src/Action/Keeps.antt =====
-- Invariants of actions, and what holds of the result, one rule for each way to build an action.
use company_service.Common.{◌≡◌, refl, Option, none, some, Bool}
use company_service.Errors.{GoError}
use company_service.Action.{
  Result, ok, err, Action, pure, raise, lift, wrapping, check, fail_if, ◌>>=◌, attempt,
}

-- `m` keeps `P`, whether it returns a value or an error.
pub record Keeps {ℓ} {S A : Type ℓ} (P : S → Type ℓ) (m : Action S A) : Type ℓ where
  pub at : (s : S) → P s → P (m s).1

module _ {ℓ} {S A : Type ℓ} {P : S → Type ℓ} where
  pub Keeps-pure : (a : A) → Keeps P (pure a)
  Keeps-pure a = record { at = λ s h. h }

  pub Keeps-raise : (e : GoError) → Keeps P (raise {A = A} e)
  Keeps-raise e = record { at = λ s h. h }

  pub Keeps-lift : (r : Result A) → Keeps P (lift {S = S} r)
  Keeps-lift r = record { at = λ s h. h }

  pub Keeps-wrapping : (prefix : _) (m : Action S A) → Keeps P m → Keeps P (wrapping prefix m)
  Keeps-wrapping prefix m k = record { at = k.at }

module _ {ℓ} {S : Type ℓ} {P : S → Type ℓ} where
  pub Keeps-fail_if : (test : Bool) (e : GoError) → Keeps P (fail_if {S = S} test e)
  Keeps-fail_if test e = record { at = λ s h. h }

  pub Keeps-check : (e : Option GoError) → Keeps P (check {S = S} e)
  Keeps-check none = record { at = λ s h. h }
  Keeps-check (some e) = record { at = λ s h. h }

module _ {ℓ} {S A B : Type ℓ} {P : S → Type ℓ} where
  pub Keeps-continue :
      (r : Result A) (f : A → Action S B) (s : S)
      → ((a : A) → r ≡ ok a → Keeps P (f a))
      → P s
      → P ((lift r >>= f) s).1
  Keeps-continue (ok a) f s k h = (k a refl).at s h
  Keeps-continue (err e) f s k h = h

  pub Keeps-bind :
      (m : Action S A) (f : A → Action S B)
      → Keeps P m
      → ((a : A) → Keeps P (f a))
      → Keeps P (m >>= f)
  Keeps-bind m f km kf = record {
    at = λ s h. let (r, s') = m s in Keeps-continue r f s' (λ a _. kf a) (km.at s h);
  }

  pub Keeps-attempt :
      (m : Action S A) (f : Result A → Action S B)
      → Keeps P m
      → ((r : Result A) → Keeps P (f r))
      → Keeps P (attempt m f)
  Keeps-attempt m f km kf = record { at = λ s h. let (r, s') = m s in (kf r).at s' (km.at s h) }

pub ruleset keeps_rules = (
  Keeps-pure, Keeps-raise, Keeps-lift, Keeps-wrapping, Keeps-check, Keeps-fail_if, Keeps-bind,
  Keeps-attempt,
)
