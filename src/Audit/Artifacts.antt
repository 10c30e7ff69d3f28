-- ===== src/Audit/Artifacts.antt =====
-- audit/docs.go: what the artifact of an accepted document is.
use onym_audit.Prelude.{
  ◌≡◌, refl, true, false, ◌&&◌, ◌||◌, not, Bool, Bytes, bytes_eq, bytes_eq→eq, bytes_eq_iff,
  require-true, if◌then◌else◌, Option, none, some, Result, ok, err, arith, ◌⊎◌, inl, inr, Error,
  >>=-eq-ok, require-eq-ok, plain, wrap,
}
use onym_audit.Sig.Hex.{valid_digest}
use onym_audit.UriRule.Check
use onym_audit.Audit.Terms.{
  Artifact, kind_source, kind_build, kind_deployment, is_commit, is_none, is_digest?,
  validate_artifact, validate_commit, validate_deployment,
}

-- A source has a commit and no hash, a build has a commit and the digest of what was built, and a
-- deployment has the digest of its manifest, with a digest of what is deployed or none.
pub data IsOfKind (a : Artifact) : Type 0 where
  source : a.kind ≡ kind_source → is_commit a.revision ≡ true → a.artifact_hash ≡ none → IsOfKind a
  build :
      (d : Bytes)
      → a.kind ≡ kind_build
      → is_commit a.revision ≡ true
      → a.artifact_hash ≡ some d
      → valid_digest d ≡ true
      → IsOfKind a
  deployment :
      a.kind ≡ kind_deployment
      → valid_digest a.revision ≡ true
      → (a.artifact_hash ≡ none)
        ⊎ ((d : Bytes) × (a.artifact_hash ≡ some d) × (valid_digest d ≡ true))
      → IsOfKind a

pub wrap-eq-ok : (e : Error) (r : Result (Unit {0})) → wrap e r ≡ ok tt → r ≡ ok tt
wrap-eq-ok e (ok u) h = refl
wrap-eq-ok e (err x) h = absurd (cc)

no_hash : (o : Option Bytes) → is_none o ≡ true → o ≡ none
no_hash none h = refl
no_hash (some d) h = absurd (cc)

some_hash :
    (o : Option Bytes) → is_digest? o ≡ true → (d : Bytes) × (o ≡ some d) × (valid_digest d ≡ true)
some_hash none h = absurd (cc)
some_hash (some d) h = (d, refl, h)

commit-IsOfKind :
    (a : Artifact)
    → (a.kind ≡ kind_source) ⊎ (a.kind ≡ kind_build)
    → is_commit a.revision ≡ true
    → not (bytes_eq a.kind kind_source && not (is_none a.artifact_hash)) ≡ true
    → not (bytes_eq a.kind kind_build && not (is_digest? a.artifact_hash)) ≡ true
    → IsOfKind a
commit-IsOfKind a (inl k) r s b =
    source k r (no_hash a.artifact_hash (ground (arith, (bytes_eq_iff a.kind kind_source).1 k)))
commit-IsOfKind a (inr k) r s b =
    let h : is_digest? a.artifact_hash ≡ true =
      ground (arith, (bytes_eq_iff a.kind kind_build).1 k) in
    let (d, e, v) = some_hash a.artifact_hash h in build d k r e v

validate_commit-IsOfKind :
    (a : Artifact)
    → (a.kind ≡ kind_source) ⊎ (a.kind ≡ kind_build)
    → validate_commit a ≡ ok tt
    → (Check.check a.source ≡ ok tt) × IsOfKind a
unfolding validate_commit
validate_commit-IsOfKind a k h =
    let (_, u, h1) = >>=-eq-ok (Check.check a.source) _ h in
    let (r, h2) = require-eq-ok (is_commit a.revision) plain _ h1 in
    let (s, h3) =
      require-eq-ok (not (bytes_eq a.kind kind_source && not (is_none a.artifact_hash))) plain _
        h2 in
    (u, commit-IsOfKind a k r s (require-true _ plain h3))

validate_deployment-IsOfKind :
    (a : Artifact)
    → a.kind ≡ kind_deployment
    → validate_deployment a ≡ ok tt
    → (Check.check a.source ≡ ok tt) × IsOfKind a
unfolding validate_deployment
validate_deployment-IsOfKind a k h =
    let (_, u, h1) = >>=-eq-ok (Check.check a.source) _ h in
    let (r, h2) = require-eq-ok (valid_digest a.revision) plain _ h1 in
    (u, deployment k r (by_hash a.artifact_hash (require-true _ plain h2)))
  where
    by_hash :
        (o : Option Bytes)
        → is_none o || is_digest? o ≡ true
        → (o ≡ none) ⊎ ((d : Bytes) × (o ≡ some d) × (valid_digest d ≡ true))
    by_hash none e = inl refl
    by_hash (some d) e = inr (d, refl, e)

-- The source of an accepted artifact passes the URI rule, and what the artifact has of a revision
-- and a hash is as its kind asks.
pub validate_artifact-IsOfKind :
    (a : Artifact) → validate_artifact a ≡ ok tt → (Check.check a.source ≡ ok tt) × IsOfKind a
unfolding validate_artifact
validate_artifact-IsOfKind a h =
    by_kind (bytes_eq a.kind kind_source) refl (bytes_eq a.kind kind_build) refl
      (bytes_eq a.kind kind_deployment) refl h
  where
    by_kind :
        (x : Bool)
        → bytes_eq a.kind kind_source ≡ x
        → (y : Bool) → bytes_eq a.kind kind_build ≡ y
        → (z : Bool) → bytes_eq a.kind kind_deployment ≡ z
        → (if x || y then validate_commit a else if z then validate_deployment a else err plain)
          ≡ ok tt
        → (Check.check a.source ≡ ok tt) × IsOfKind a
    by_kind true e y f z g k = validate_commit-IsOfKind a (inl (bytes_eq→eq _ _ e)) k
    by_kind false e true f z g k = validate_commit-IsOfKind a (inr (bytes_eq→eq _ _ f)) k
    by_kind false e false f true g k = validate_deployment-IsOfKind a (bytes_eq→eq _ _ g) k
    by_kind false e false f false g k = absurd (cc)
