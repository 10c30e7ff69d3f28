-- ===== src/Hub/Outcome.antt =====
-- hub/hub.go: what a handler's checks come to, and its reply.
use onym_audit.Prelude.{ℕ, Bool, true, false, Bytes, List, Result, ok, err, ◌≡◌, refl}

-- What `fail` and `reply` send: the code, and the named texts of a reply.
pub data Reply : Type 0 where
  failed : ℕ → Reply
  replied : ℕ → List (Bytes × Bytes) → Reply

-- A handler's checks either let it go on or fail it with a code.
pub data Outcome {κ} (X : Type κ) : Type κ where
  go : X → Outcome X
  stop : ℕ → Outcome X

module _ {ℓ κ} {A : Type ℓ} {B : Type κ} where
  infixl 5 ◌>>=◌
  abbrev pub ◌>>=◌ : Outcome A → (A → Outcome B) → Outcome B
  stop code >>= next = stop code
  go a >>= next = next a

module _ {κ} {B : Type κ} where
  infixl 5 ◌>>◌
  abbrev pub ◌>>◌ : Outcome (Unit {0}) → Outcome B → Outcome B
  check >> next = check >>= λ _. next

-- `if !cond { fail(w, code, …); return }`
abbrev pub check : Bool → ℕ → Outcome (Unit {0})
check true code = go tt
check false code = stop code

-- `if err != nil { fail(w, code, err); return }`
abbrev pub or_fail {ℓ} : {A : Type ℓ} → ℕ → Result A → Outcome A
or_fail code (ok a) = go a
or_fail code (err e) = stop code

module _ {κ} {B : Type κ} {b : B} where
  pub >>=-eq-go {ℓ} :
      {A : Type ℓ} (m : Outcome A) (next : A → Outcome B)
      → (m >>= next) ≡ go b
      → (a : A) × (m ≡ go a) × (next a ≡ go b)
  >>=-eq-go (stop code) next h = cc
  >>=-eq-go (go a) next h = (a, refl, h)

  pub check-eq-go :
      (test : Bool) (code : ℕ) (next : Outcome B)
      → (check test code >> next) ≡ go b
      → (test ≡ true) × (next ≡ go b)
  check-eq-go false code next h = cc
  check-eq-go true code next h = (refl, h)

pub or_fail-eq-go {ℓ} :
    {A : Type ℓ} {a : A} (code : ℕ) (r : Result A) → or_fail code r ≡ go a → r ≡ ok a
or_fail-eq-go code (ok x) h = cc
or_fail-eq-go code (err e) h = cc
