-- ===== src/Audit/Attestation.antt =====
-- audit/attestation.go: attestations.
use onym_audit.Prelude.{
  ℕ, Bool, true, false, ◌&&◌, ◌||◌, not, [], ◌∷◌, List, ◌==◌, all, is_nil, Bytes, codes, bytes_eq,
  if◌then◌else◌, Option, none, some, Result, ok, err, plain, attestation_invalid, ◌>>=◌, ◌>>◌,
  require, wrap,
}
use onym_audit.Canon.Value
use onym_audit.Sig.Hex.{public, valid_digest}
use onym_audit.Sig.Sign.{Crypto, verify}
use onym_audit.Sig.Time.{Time, parse_time, after}
use onym_audit.UriRule.Check
use onym_audit.Audit.Strict.{Shape, shape, leaf, nest, names, decode_strict}
use onym_audit.Audit.Fields.{
  string_field, string?_field, int_field, strings_field, ints_field, struct_field, struct?_field,
}
use onym_audit.Audit.Terms.{
  build_provenance, methodology_classes, clear, findings_noted, result_classes, severity_levels,
  one_of, is_component, is_id, DocRef, no_ref, ref_shape, decode_ref, validate_ref, validate_ref?,
  Artifact, no_artifact, artifact_shape, decode_artifact, validate_artifact, is_none, is_digest?,
}

pub record UnsolicitedDisclosure : Type 0 where
  pub policy : Bytes
  pub subject_contact : Bytes
  pub subject_notified_at : Bytes
  pub embargo_until : Option Bytes

abbrev pub unsolicited_shape : Shape
unsolicited_shape =
    shape (names ("policy" ∷ "subjectContact" ∷ "subjectNotifiedAt" ∷ "embargoUntil" ∷ [])) [] leaf

unfoldable pub decode_unsolicited : Value.Fields → Result UnsolicitedDisclosure
decode_unsolicited obj = do
  x0 ← string_field "policy" obj
  x1 ← string_field "subjectContact" obj
  x2 ← string_field "subjectNotifiedAt" obj
  x3 ← string?_field "embargoUntil" obj
  ok (record { policy = x0; subject_contact = x1; subject_notified_at = x2; embargo_until = x3 })

pub record Attestation : Type 0 where
  pub attestation_version : ℕ
  pub attestation_id : Bytes
  pub auditor : Bytes
  pub auditor_key : Bytes
  pub subject : Bytes
  pub subject_operator : Bytes
  pub artifact : Artifact
  pub methodology_class : Bytes
  pub methodology : DocRef
  pub scope : DocRef
  pub scope_summary : Bytes
  pub exclusions : Option (List Bytes)
  pub result : Bytes
  pub severity_scale : Option DocRef
  pub severity_floor : Option Bytes
  pub findings_report : Option DocRef
  pub findings_summary : List (Bytes × ℕ)
  pub engagement : Bytes
  pub sponsor : Bytes
  pub sponsor_name : Bytes
  pub relationships : Bytes
  pub order_ref : Option Bytes
  pub unsolicited : Option UnsolicitedDisclosure
  pub issued_at : Bytes
  pub expires_at : Option Bytes
  pub supersedes : Option Bytes
  pub status : Bytes
  pub signature : Bytes

abbrev pub attestation_shape : Shape
attestation_shape =
    shape
      (names (
        "attestationVersion" ∷ "attestationId" ∷ "auditor" ∷ "auditorKey" ∷ "subject"
        ∷ "subjectOperator" ∷ "artifact" ∷ "methodologyClass" ∷ "methodology" ∷ "scope"
        ∷ "scopeSummary" ∷ "exclusions" ∷ "result" ∷ "severityScale" ∷ "severityFloor"
        ∷ "findingsReport" ∷ "findingsSummary" ∷ "engagement" ∷ "sponsor" ∷ "sponsorName"
        ∷ "relationships" ∷ "orderRef" ∷ "unsolicited" ∷ "issuedAt" ∷ "expiresAt" ∷ "supersedes"
        ∷ "status" ∷ "signature" ∷ []))
      []
      (nest (codes "artifact") artifact_shape (
        nest (codes "methodology") ref_shape (
          nest (codes "scope") ref_shape (
            nest (codes "severityScale") ref_shape (
              nest (codes "findingsReport") ref_shape
                (nest (codes "unsolicited") unsolicited_shape leaf))))))

unfoldable pub decode_attestation : Value.Fields → Result Attestation
decode_attestation obj = do
  x0 ← int_field "attestationVersion" obj
  x1 ← string_field "attestationId" obj
  x2 ← string_field "auditor" obj
  x3 ← string_field "auditorKey" obj
  x4 ← string_field "subject" obj
  x5 ← string_field "subjectOperator" obj
  x6 ← struct_field no_artifact decode_artifact "artifact" obj
  x7 ← string_field "methodologyClass" obj
  x8 ← struct_field no_ref decode_ref "methodology" obj
  x9 ← struct_field no_ref decode_ref "scope" obj
  x10 ← string_field "scopeSummary" obj
  x11 ← strings_field "exclusions" obj
  x12 ← string_field "result" obj
  x13 ← struct?_field decode_ref "severityScale" obj
  x14 ← string?_field "severityFloor" obj
  x15 ← struct?_field decode_ref "findingsReport" obj
  x16 ← ints_field "findingsSummary" obj
  x17 ← string_field "engagement" obj
  x18 ← string_field "sponsor" obj
  x19 ← string_field "sponsorName" obj
  x20 ← string_field "relationships" obj
  x21 ← string?_field "orderRef" obj
  x22 ← struct?_field decode_unsolicited "unsolicited" obj
  x23 ← string_field "issuedAt" obj
  x24 ← string?_field "expiresAt" obj
  x25 ← string?_field "supersedes" obj
  x26 ← string_field "status" obj
  x27 ← string_field "signature" obj
  ok (record {
    attestation_version = x0;
    attestation_id = x1;
    auditor = x2;
    auditor_key = x3;
    subject = x4;
    subject_operator = x5;
    artifact = x6;
    methodology_class = x7;
    methodology = x8;
    scope = x9;
    scope_summary = x10;
    exclusions = x11;
    result = x12;
    severity_scale = x13;
    severity_floor = x14;
    findings_report = x15;
    findings_summary = x16;
    engagement = x17;
    sponsor = x18;
    sponsor_name = x19;
    relationships = x20;
    order_ref = x21;
    unsolicited = x22;
    issued_at = x23;
    expires_at = x24;
    supersedes = x25;
    status = x26;
    signature = x27;
  })

abbrev pub is_floor? : Option Bytes → Bool
is_floor? none = true
is_floor? (some s) = one_of s severity_levels

abbrev pub is_id? : Option Bytes → Bool
is_id? none = true
is_id? (some s) = is_id s

abbrev pub has_exclusions : Option (List Bytes) → Bool
has_exclusions none = false
has_exclusions (some l) = true

abbrev pub has_ref : Option DocRef → Bool
has_ref none = false
has_ref (some r) = true

-- `clear` and `findings-noted` need both the scale and the floor.
abbrev pub needs_scale : Attestation → Bool
needs_scale a = bytes_eq a.result clear || bytes_eq a.result findings_noted

-- Only a build-provenance attestation may have no end.
unfoldable pub check_expiry : Attestation → Time → Option Bytes → Result (Unit {0})
check_expiry a issued none = require (bytes_eq a.methodology_class build_provenance) plain
check_expiry a issued (some e) = parse_time e >>= λ expires. require (after expires issued) plain

unfoldable pub check_embargo : Option Bytes → Result (Unit {0})
check_embargo none = ok tt
check_embargo (some e) = parse_time e >>= λ _. ok tt

unfoldable pub check_unsolicited : Time → Option UnsolicitedDisclosure → Result (Unit {0})
check_unsolicited issued none = err plain
check_unsolicited issued (some u) = do
  require (valid_digest u.policy && not (is_nil u.subject_contact)) plain
  notified ← parse_time u.subject_notified_at
  require (not (after notified issued)) plain
  check_embargo u.embargo_until

abbrev pub no_block : Option UnsolicitedDisclosure → Bool
no_block none = true
no_block (some u) = false

-- The switch on the engagement.
unfoldable pub check_engagement : Attestation → Time → Result (Unit {0})
unfolding check_embargo check_unsolicited
check_engagement a issued =
    if bytes_eq a.engagement (codes "commissioned")
    then require (is_digest? a.order_ref && no_block a.unsolicited) plain
    else if bytes_eq a.engagement (codes "unsolicited")
    then (require (is_none a.order_ref) plain >> check_unsolicited issued a.unsolicited)
    else err plain

-- (*Attestation).validate; decoded counts are not negative.
unfoldable pub validate_attestation : Attestation → Result (Unit {0})
unfolding check_expiry
validate_attestation a = do
  require (a.attestation_version == 1 && is_id a.attestation_id) plain
  require (is_component a.auditor && is_component a.subject) plain
  _ ← public a.auditor_key
  _ ← public a.subject_operator
  _ ← public a.sponsor
  validate_artifact a.artifact
  require (one_of a.methodology_class methodology_classes) plain
  validate_ref a.methodology
  validate_ref a.scope
  require (not (is_nil a.scope_summary) && has_exclusions a.exclusions) plain
  require (one_of a.result result_classes) plain
  require (not (needs_scale a && not (has_ref a.severity_scale && not (is_none a.severity_floor))))
      plain
  validate_ref? a.severity_scale
  require (is_floor? a.severity_floor) plain
  require
      (all (λ (k, v). one_of k severity_levels || bytes_eq k (codes "resolved")) a.findings_summary)
      plain
  validate_ref? a.findings_report
  require (not (is_nil a.sponsor_name || is_nil a.relationships)) plain
  issued ← parse_time a.issued_at
  check_expiry a issued a.expires_at
  require (is_id? a.supersedes) plain
  Check.check a.status
  check_engagement a issued

-- ParseAttestation
unfoldable pub parse_attestation : Crypto → Bytes → Result Attestation
parse_attestation c raw = do
  a ← wrap attestation_invalid (decode_strict attestation_shape decode_attestation raw)
  wrap attestation_invalid (validate_attestation a)
  wrap attestation_invalid (verify c raw (codes "signature") a.auditor_key)
  ok a
