-- ===== src/Audit/Opinions.antt =====
-- audit/attestation.go: what an accepted attestation promises.
use mathlib.Core.Path.{subst}
use onym_audit.Prelude.{
  ◌≡◌, refl, Bool, true, false, ◌&&◌, ◌||◌, not, Bytes, codes, bytes_eq, bytes_eq→eq, is_nil, all,
  Option, none, some, Result, ok, err, arith, &&-cases, >>=-eq-ok, require-eq-ok, require-true,
  require, wrap, plain, attestation_invalid, ◌==◌, ◌<◌, ◌≤◌, ltb→lt, if◌then◌else◌, inl, inr,
  Bool-cases, ◌>>=◌, ◌>>◌,
}
use onym_audit.Sig.Sign.{Crypto, verify}
use onym_audit.Sig.Hex.{public, valid_digest}
use onym_audit.Sig.Time.{Time, parse_time, after}
use onym_audit.UriRule.Check
use onym_audit.Audit.Strict.{decode_strict}
use onym_audit.Audit.Terms.{
  one_of, is_component, is_id, is_none, is_digest?, result_classes, methodology_classes,
  severity_levels, build_provenance, validate_artifact, validate_ref, validate_ref?,
}
use onym_audit.Audit.Attestation.{
  Attestation, UnsolicitedDisclosure, attestation_shape, decode_attestation, validate_attestation,
  parse_attestation, needs_scale, has_ref, has_exclusions, is_floor?, is_id?, check_expiry,
  check_unsolicited, check_engagement, no_block,
}

-- Only a build-provenance attestation is without end; another one ends after its issue.
pub data HasEnd (a : Attestation) (issued : Time) : Option Bytes → Type 0 where
  endless : a.methodology_class ≡ build_provenance → HasEnd a issued none
  ends : {s : Bytes} {t : Time} → parse_time s ≡ ok t → issued < t → HasEnd a issued (some s)

-- A commissioned attestation names its order; an unsolicited one names none and discloses that its
-- subject was notified no later than the issue.
pub data IsEngaged (a : Attestation) (issued : Time) : Option UnsolicitedDisclosure → Type 0 where
  commissioned :
      a.engagement ≡ codes "commissioned" → is_digest? a.order_ref ≡ true → IsEngaged a issued none
  unsolicited :
      {u : UnsolicitedDisclosure} {t : Time}
      → a.engagement ≡ codes "unsolicited"
      → is_none a.order_ref ≡ true
      → parse_time u.subject_notified_at ≡ ok t
      → t ≤ issued
      → IsEngaged a issued (some u)

check_expiry-HasEnd :
    (a : Attestation) (issued : Time) (e : Option Bytes)
    → check_expiry a issued e ≡ ok tt
    → HasEnd a issued e
unfolding check_expiry
check_expiry-HasEnd a issued none h = endless (bytes_eq→eq _ _ (require-true _ plain h))
check_expiry-HasEnd a issued (some s) h =
    let (t, read, h1) = >>=-eq-ok (parse_time s) _ h in
    ends read (ltb→lt issued t (require-true _ plain h1))

check_commissioned :
    (a : Attestation) (issued : Time) (u : Option UnsolicitedDisclosure)
    → bytes_eq a.engagement (codes "commissioned") ≡ true
    → (is_digest? a.order_ref && no_block u) ≡ true
    → IsEngaged a issued u
check_commissioned a issued none e h =
    commissioned (bytes_eq→eq _ _ e) (&&-cases (is_digest? a.order_ref) _ h).0
check_commissioned a issued (some u) e h =
    cc (&&-cases (is_digest? a.order_ref) (no_block (some u)) h).1

check_unsolicited-IsEngaged :
    (a : Attestation) (issued : Time) (u : Option UnsolicitedDisclosure)
    → bytes_eq a.engagement (codes "unsolicited") ≡ true
    → is_none a.order_ref ≡ true
    → check_unsolicited issued u ≡ ok tt
    → IsEngaged a issued u
unfolding check_unsolicited
check_unsolicited-IsEngaged a issued none e n h = cc
check_unsolicited-IsEngaged a issued (some u) e n h =
    let (_, h1) =
      require-eq-ok (valid_digest u.policy && not (is_nil u.subject_contact)) plain _ h in
    let (t, read, h2) = >>=-eq-ok (parse_time u.subject_notified_at) _ h1 in
    let (notified, _) = require-eq-ok (not (after t issued)) plain _ h2 in
    unsolicited (bytes_eq→eq _ _ e) n read (ground arith)

unsolicited-IsEngaged :
    (b : Bool) (a : Attestation) (issued : Time) (u : Option UnsolicitedDisclosure)
    → bytes_eq a.engagement (codes "unsolicited") ≡ b
    → (if b then require (is_none a.order_ref) plain >> check_unsolicited issued u else err plain)
      ≡ ok tt
    → IsEngaged a issued u
unsolicited-IsEngaged true a issued u e h =
    let (n, h1) = require-eq-ok (is_none a.order_ref) plain _ h in
    check_unsolicited-IsEngaged a issued u e n h1
unsolicited-IsEngaged false a issued u e h = cc

check_engagement-IsEngaged :
    (a : Attestation) (issued : Time)
    → check_engagement a issued ≡ ok tt
    → IsEngaged a issued a.unsolicited
unfolding check_engagement
check_engagement-IsEngaged a issued h =
    elim (Bool-cases (bytes_eq a.engagement (codes "commissioned"))) [
      | inl p ↦ check_commissioned a issued a.unsolicited p (require-true _ plain (rw p at h))
      | inr p ↦ unsolicited-IsEngaged _ a issued a.unsolicited refl (rw p at h)
    ]

-- What the rules of attestations ask, the signature included.
pub record IsOpinion (c : Crypto) (raw : Bytes) (a : Attestation) : Type 0 where
  pub read : decode_strict attestation_shape decode_attestation raw ≡ ok a
  pub signed : verify c raw (codes "signature") a.auditor_key ≡ ok tt
  pub known_result : one_of a.result result_classes ≡ true
  pub scaled :
      needs_scale a ≡ true → (has_ref a.severity_scale ≡ true) × (is_none a.severity_floor ≡ false)
  pub issued : Time
  pub issued_read : parse_time a.issued_at ≡ ok issued
  pub ending : HasEnd a issued a.expires_at
  pub engaged : IsEngaged a issued a.unsolicited

scale-cases :
    (needed scale no_floor : Bool)
    → not (needed && not (scale && not no_floor)) ≡ true
    → needed ≡ true
    → (scale ≡ true) × (no_floor ≡ false)
scale-cases needed scale no_floor h k = ground arith

-- What the rest of validate_attestation needs after its checks of names and documents.
abbrev late_checks : Attestation → Result (Unit {0})
late_checks a =
    require (one_of a.result result_classes) plain
    >> (require
          (not (needs_scale a && not (has_ref a.severity_scale && not (is_none a.severity_floor))))
          plain
        >> (validate_ref? a.severity_scale
            >> (require (is_floor? a.severity_floor) plain
                >> (require
                      (all (λ (k, v). one_of k severity_levels || bytes_eq k (codes "resolved"))
                        a.findings_summary)
                      plain
                    >> (validate_ref? a.findings_report
                        >> (require (not (is_nil a.sponsor_name || is_nil a.relationships)) plain
                            >> (parse_time a.issued_at >>= λ issued.
                                check_expiry a issued a.expires_at
                                >> (require (is_id? a.supersedes) plain
                                    >> (Check.check a.status >> check_engagement a issued)))))))))

validate-late : (a : Attestation) → validate_attestation a ≡ ok tt → late_checks a ≡ ok tt
unfolding validate_attestation
validate-late a h =
    let (_, h1) = require-eq-ok (a.attestation_version == 1 && is_id a.attestation_id) plain _ h in
    let (_, h2) = require-eq-ok (is_component a.auditor && is_component a.subject) plain _ h1 in
    let (_, _, h3) = >>=-eq-ok (public a.auditor_key) _ h2 in
    let (_, _, h4) = >>=-eq-ok (public a.subject_operator) _ h3 in
    let (_, _, h5) = >>=-eq-ok (public a.sponsor) _ h4 in
    let (_, _, h6) = >>=-eq-ok (validate_artifact a.artifact) _ h5 in
    let (_, h7) = require-eq-ok (one_of a.methodology_class methodology_classes) plain _ h6 in
    let (_, _, h8) = >>=-eq-ok (validate_ref a.methodology) _ h7 in
    let (_, _, h9) = >>=-eq-ok (validate_ref a.scope) _ h8 in
    (require-eq-ok (not (is_nil a.scope_summary) && has_exclusions a.exclusions) plain _ h9).1

late-IsOpinion :
    (c : Crypto) (raw : Bytes) (a : Attestation)
    → decode_strict attestation_shape decode_attestation raw ≡ ok a
    → verify c raw (codes "signature") a.auditor_key ≡ ok tt
    → late_checks a ≡ ok tt
    → IsOpinion c raw a
late-IsOpinion c raw a read signed h =
    let (known, h1) = require-eq-ok (one_of a.result result_classes) plain _ h in
    let (scaled, h2) =
      require-eq-ok
        (not (needs_scale a && not (has_ref a.severity_scale && not (is_none a.severity_floor))))
        plain _ h1 in
    let (_, _, h3) = >>=-eq-ok (validate_ref? a.severity_scale) _ h2 in
    let (_, h4) = require-eq-ok (is_floor? a.severity_floor) plain _ h3 in
    let (_, h5) =
      require-eq-ok
        (all (λ (k, v). one_of k severity_levels || bytes_eq k (codes "resolved"))
          a.findings_summary)
        plain _ h4 in
    let (_, _, h6) = >>=-eq-ok (validate_ref? a.findings_report) _ h5 in
    let (_, h7) =
      require-eq-ok (not (is_nil a.sponsor_name || is_nil a.relationships)) plain _ h6 in
    let (t, issued_read, h8) = >>=-eq-ok (parse_time a.issued_at) _ h7 in
    let (_, expiry, h9) = >>=-eq-ok (check_expiry a t a.expires_at) _ h8 in
    let (_, h10) = require-eq-ok (is_id? a.supersedes) plain _ h9 in
    let (_, _, h11) = >>=-eq-ok (Check.check a.status) _ h10 in
    record {
      read = read;
      signed = signed;
      known_result = known;
      scaled = scale-cases (needs_scale a) _ _ scaled;
      issued = t;
      issued_read = issued_read;
      ending = check_expiry-HasEnd a t a.expires_at expiry;
      engaged = check_engagement-IsEngaged a t h11;
    }

wrap-tt : (r : Result (Unit {0})) {u : Unit {0}} → wrap attestation_invalid r ≡ ok u → r ≡ ok tt
wrap-tt (ok tt) h = refl
wrap-tt (err e) h = cc

wrap-ok : (r : Result Attestation) {a : Attestation} → wrap attestation_invalid r ≡ ok a → r ≡ ok a
wrap-ok (ok a) h = h
wrap-ok (err e) h = cc

ok-eq : (k a : Attestation) → ok k ≡ ok a → k ≡ a
ok-eq k a h = cc

-- An attestation that ParseAttestation accepts is the strict reading of its bytes, is signed by its
-- auditor's key, has a known result, has a severity scale and floor where the result is clear or
-- findings-noted, ends after its issue unless it is of build provenance and has no end, and is
-- either commissioned with the digest of an order and no unsolicited block or unsolicited with no
-- order and a subject that was notified no later than the issue.
pub parse_attestation-IsOpinion :
    (c : Crypto) (raw : Bytes) (a : Attestation)
    → parse_attestation c raw ≡ ok a
    → IsOpinion c raw a
unfolding parse_attestation
parse_attestation-IsOpinion c raw a h =
    let (k, read, h1) =
      >>=-eq-ok (wrap attestation_invalid (decode_strict attestation_shape decode_attestation raw))
        _ h in
    let (_, valid, h2) = >>=-eq-ok (wrap attestation_invalid (validate_attestation k)) _ h1 in
    let (_, signed, h3) =
      >>=-eq-ok (wrap attestation_invalid (verify c raw (codes "signature") k.auditor_key)) _ h2 in
    subst (λ (x : Attestation). IsOpinion c raw x) (ok-eq k a h3)
      (late-IsOpinion c raw k (wrap-ok _ read) (wrap-tt _ signed)
        (validate-late k (wrap-tt _ valid)))
