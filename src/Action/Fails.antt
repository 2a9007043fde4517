-- ===== src/Action/Fails.antt =====
-- What is known of every error that an action can end at.
use company_service.Common.{◌≡◌, arith, Option, none, some, Bool, true, false, subst}
use company_service.Errors.{GoError}
use company_service.Action.{Result, ok, err, Action, continue, check, modify, fail_if, ◌>>=◌}

module _ {S : Type 0} (P : GoError → Type 0) where
  pub record Fails {A : Type 0} (m : Action S A) : Type 0 where
    pub at : (s : S) (e : GoError) → (m s).0 ≡ err e → P e

  continue-Fails :
      {A B : Type 0} (r : Result A) (f : A → Action S B) (s : S) (e : GoError)
      → ((e' : GoError) → r ≡ err e' → P e')
      → ((a : A) → Fails (f a))
      → (continue r f s).0 ≡ err e
      → P e
  continue-Fails (ok a) f s e first later h = (later a).at s e h
  continue-Fails (err e') f s e first later h = first e (cc)

  pub Fails-bind :
      {A B : Type 0} (m : Action S A) (f : A → Action S B)
      → Fails m
      → ((a : A) → Fails (f a))
      → Fails (m >>= f)
  Fails-bind m f first later = record {
    at = λ s e h. continue-Fails (m s).0 f (m s).1 e (first.at s) later h;
  }

  pub Fails-check : (o : Option GoError) → ((e : GoError) → o ≡ some e → P e) → Fails (check o)
  Fails-check none f = record { at = λ s e h. cc }
  Fails-check (some e') f = record { at = λ s e h. f e (ground arith) }

  pub Fails-modify : (f : S → S) → Fails (modify f)
  Fails-modify f = record { at = λ s e h. cc }

  pub Fails-fail_if : (test : Bool) (e' : GoError) → P e' → Fails (fail_if test e')
  Fails-fail_if true e' p = record { at = λ s e h. subst P (ground arith) p }
  Fails-fail_if false e' p = record { at = λ s e h. cc }
