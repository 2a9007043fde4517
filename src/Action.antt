-- ===== src/Action.antt =====
-- Go functions that return an error and may change a state `S` that they share with their caller:
-- the receiver of a method, or all that lies behind the interfaces. What was written before an
-- error stays written, so the state comes back beside the error too.
pub mod Fails
pub mod Keeps
pub mod Inversion
use company_service.Common.{String, Option, none, some, Bool, if◌then◌else◌}
use company_service.Errors.{GoError, wrap}

-- The pair `(value, error)` that a function returns; the value beside an error is not used.
pub data Result {ℓ} (A : Type ℓ) : Type ℓ where
  ok : A → Result A
  err : GoError → Result A

abbrev pub Action {ℓ} : Type ℓ → Type ℓ → Type ℓ
Action S A = S → Result A × S

-- `fmt.Errorf(prefix + "%w", err)`, if there is an error
abbrev pub wrap_err {ℓ} : {A : Type ℓ} → String → Result A → Result A
wrap_err prefix (ok a) = ok a
wrap_err prefix (err e) = err (wrap prefix e)

module _ {ℓ} {S A : Type ℓ} where
  abbrev pub pure : A → Action S A
  pure a s = (ok a, s)

  abbrev pub raise : GoError → Action S A
  raise e s = (err e, s)

  abbrev pub lift : Result A → Action S A
  lift r s = (r, s)

  -- `if err != nil { return fmt.Errorf(prefix + "%w", err) }`
  abbrev pub wrapping : String → Action S A → Action S A
  wrapping prefix m s = let (r, s') = m s in (wrap_err prefix r, s')

module _ {ℓ} {S : Type ℓ} where
  -- `if err := e; err != nil { return err }`
  abbrev pub check : Option GoError → Action S Unit
  check none s = (ok tt, s)
  check (some e) s = (err e, s)

  abbrev pub modify : (S → S) → Action S Unit
  modify f s = (ok tt, f s)

  -- `if test { return err }`
  abbrev pub fail_if : Bool → GoError → Action S Unit
  fail_if test e s = (if test then err e else ok tt, s)

module _ {ℓ} {S A B : Type ℓ} where
  abbrev pub continue : Result A → (A → Action S B) → Action S B
  continue (ok a) f s = f a s
  continue (err e) f s = (err e, s)

  infixl 10 ◌>>=◌ ◌>>◌
  abbrev pub ◌>>=◌ : Action S A → (A → Action S B) → Action S B
  ◌>>=◌ m f s = let (r, s') = m s in continue r f s'

  abbrev pub ◌>>◌ : Action S A → Action S B → Action S B
  m >> n = m >>= λ _. n

  -- A call whose error the caller looks at itself.
  abbrev pub attempt : Action S A → (Result A → Action S B) → Action S B
  attempt m f s = let (r, s') = m s in f r s'
