-- ===== src/Prelude/Results.antt =====
-- Results of fallible code. An error is the sentinel that `errors.Is` finds in it; the texts of the
-- messages are left out.
use mathlib.Core.Path.{◌≡◌, refl, subst, ap}
use mathlib.Core.Logic.{◌≢◌}
use mathlib.Core.Bool.{Bool, true, false}
use onym_audit.Prelude.Tests.{if◌then◌else◌}

pub data Error : Type 0 where
  malformed bad_key bad_signature uri_rule : Error
  unsupported_profile artifact_mismatch attestation_expired attestation_revoked : Error
  attestation_superseded status_unavailable issuer_untrusted attestation_invalid : Error
  auditor_manifest_invalid status_list_invalid status_rollback subject_response_invalid : Error
  -- an error that wraps no sentinel
  plain : Error
  -- no counterpart in the program: a loop of the model was given too little fuel
  out_of_fuel : Error

-- The two outcomes of a Go function that returns a value and an error.
pub data Result {κ} (X : Type κ) : Type κ where
  ok : X → Result X
  err : Error → Result X

-- `if err != nil { return err }` before the rest.
module _ {ℓ κ} {A : Type ℓ} {B : Type κ} where
  infixl 5 ◌>>=◌
  abbrev pub ◌>>=◌ : Result A → (A → Result B) → Result B
  err e >>= next = err e
  ok a >>= next = next a

module _ {κ} {B : Type κ} where
  infixl 5 ◌>>◌
  abbrev pub ◌>>◌ : Result (Unit {0}) → Result B → Result B
  check >> next = check >>= λ _. next

-- `if !cond { return e }`
abbrev pub require : Bool → Error → Result (Unit {0})
require true e = ok tt
require false e = err e

-- `if err != nil { return fmt.Errorf("%w: %v", e, err) }`
abbrev pub wrap {ℓ} : {A : Type ℓ} → Error → Result A → Result A
wrap e (ok a) = ok a
wrap e (err _) = err e

-- What a result promises: `Promise` of its value if it has one, and no shortage of fuel.
pub data Ensures {κ ι} {X : Type κ} (Promise : X → Type ι) : Result X → Type (κ ⊔ ι) where
  refused : {e : Error} → e ≢ out_of_fuel → Ensures Promise (err e)
  holds : {x : X} → Promise x → Ensures Promise (ok x)

pub Ensures-out_of_fuel {ℓ κ} :
    {A : Type ℓ} {P : A → Type κ} {m : Result A} → Ensures P m → m ≢ err out_of_fuel
Ensures-out_of_fuel (refused n) eq = n (cc)
Ensures-out_of_fuel (holds p) eq = cc

pub Ensures-ok {ℓ κ} :
    {A : Type ℓ} {P : A → Type κ} {a : A} {m : Result A} → Ensures P m → m ≡ ok a → P a
Ensures-ok (refused n) eq = cc
Ensures-ok {P} (holds p) eq = subst P (cc) p

module _ {ℓ κ} {A : Type ℓ} {P : A → Type κ} where
  pub Ensures-bind {ι ο} :
      {B : Type ι} {Q : B → Type ο} {m : Result A} {next : A → Result B}
      → Ensures P m
      → ((a : A) → P a → Ensures Q (next a))
      → Ensures Q (m >>= next)
  Ensures-bind (refused n) after = refused n
  Ensures-bind (holds {x = a} p) after = after a p

module _ {ℓ κ} {A : Type ℓ} {P : A → Type κ} where
  pub Ensures-of : (r : Result A) → ((a : A) → r ≡ ok a → P a) → r ≢ err out_of_fuel → Ensures P r
  Ensures-of (ok a) h n = holds (h a refl)
  Ensures-of (err e) h n = refused λ p. n (ap err p)

  pub Ensures-map {κ'} :
      {Q : A → Type κ'} {r : Result A} → Ensures P r → ((a : A) → P a → Q a) → Ensures Q r
  Ensures-map (holds {x = a} h) k = holds (k a h)
  Ensures-map (refused n) k = refused n

  pub Ensures-require :
      (c : Bool) {e : Error} {k : Result A}
      → e ≢ out_of_fuel
      → (c ≡ true → Ensures P k)
      → Ensures P (require c e >> k)
  Ensures-require true n h = h refl
  Ensures-require false n h = refused n

  pub Ensures-if :
      (test : Bool) {yes no : Result A}
      → (test ≡ true → Ensures P yes)
      → (test ≡ false → Ensures P no)
      → Ensures P (if test then yes else no)
  Ensures-if false hy hn = hn refl
  Ensures-if true hy hn = hy refl

pub malformed_ne : malformed ≢ out_of_fuel
malformed_ne e = cc

-- Where a chain succeeds, each of its steps has.
module _ {κ} {B : Type κ} {b : B} where
  pub >>=-eq-ok {ℓ} :
      {A : Type ℓ} (m : Result A) (next : A → Result B)
      → (m >>= next) ≡ ok b
      → (a : A) × (m ≡ ok a) × (next a ≡ ok b)
  >>=-eq-ok (err e) next h = cc
  >>=-eq-ok (ok a) next h = (a, refl, h)

  pub require-eq-ok :
      (test : Bool) (e : Error) (next : Result B)
      → (require test e >> next) ≡ ok b
      → (test ≡ true) × (next ≡ ok b)
  require-eq-ok false e next h = cc
  require-eq-ok true e next h = (refl, h)

pub require-true : (c : Bool) (e : Error) → require c e ≡ ok tt → c ≡ true
require-true true e h = refl
require-true false e h = cc
