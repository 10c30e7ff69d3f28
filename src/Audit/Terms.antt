-- ===== src/Audit/Terms.antt =====
-- audit/docs.go and audit/strict.go: the closed vocabularies, the patterns of identifiers, and the
-- parts that several documents share.
use onym_audit.Prelude.{
  ℕ, Bool, true, false, ◌&&◌, ◌||◌, not, [], ◌∷◌, List, leb, between, ◌==◌, all, length, Bytes,
  codes, bytes_eq, if◌then◌else◌, Option, none, some, Result, ok, err, plain, ◌>>=◌, ◌>>◌, require,
}
use onym_audit.Canon.Value
use onym_audit.Sig.Hex.{strip, valid_digest}
use onym_audit.UriRule.Check
use onym_audit.Audit.Strict.{Shape, shape, leaf, names, member}
use onym_audit.Audit.Fields.{string_field, string?_field, int_field, bool_field}

abbrev pub profile_id : Bytes
profile_id = codes "onym:audit-profile:static-ed25519-v1"

abbrev pub interface : Bytes
interface = codes "onym-audit-v1"

abbrev pub build_provenance : Bytes
build_provenance = codes "build-provenance"

abbrev pub methodology_classes : List Bytes
methodology_classes = names (
    "security-review" ∷ "conformance-run" ∷ "build-provenance" ∷ "privacy-review"
    ∷ "availability-measurement" ∷ [])

abbrev pub clear : Bytes
clear = codes "clear"

abbrev pub findings_noted : Bytes
findings_noted = codes "findings-noted"

abbrev pub result_classes : List Bytes
result_classes = names ("clear" ∷ "findings-noted" ∷ "fail" ∷ "inconclusive" ∷ [])

abbrev pub severity_levels : List Bytes
severity_levels = names ("critical" ∷ "high" ∷ "medium" ∷ "low" ∷ "informational" ∷ [])

abbrev pub fee_models : List Bytes
fee_models = names ("fixed-verdict-independent" ∷ "pro-bono" ∷ [])

-- oneOf
unfoldable pub one_of : Bytes → List Bytes → Bool
unfolding member
one_of v set = member v set

abbrev is_name_char : ℕ → Bool
is_name_char c = between b'a' b'z' c || between b'0' b'9' c || c == b'-'

abbrev is_id_char : ℕ → Bool
is_id_char c =
    between b'A' b'Z' c || between b'a' b'z' c || between b'0' b'9' c || c == b'_' || c == b'-'

abbrev is_hex_char : ℕ → Bool
is_hex_char c = between b'0' b'9' c || between b'a' b'f' c

abbrev named : Option Bytes → Bool
named none = false
named (some s) = between 1 64 (length s) && all is_name_char s

-- componentRE
unfoldable pub is_component : Bytes → Bool
unfolding strip
is_component s = named (strip (codes "onym:component:") s)

-- idRE
unfoldable pub is_id : Bytes → Bool
is_id s = between 16 128 (length s) && all is_id_char s

-- offerIDRE
unfoldable pub is_offer_id : Bytes → Bool
is_offer_id s = named (some s)

-- commitRE
unfoldable pub is_commit : Bytes → Bool
is_commit s = (length s == 40 || length s == 64) && all is_hex_char s

pub record DocRef : Type 0 where
  pub uri : Bytes
  pub digest : Bytes

abbrev pub no_ref : DocRef
no_ref = record { uri = []; digest = [] }

abbrev pub ref_shape : Shape
ref_shape = shape (names ("uri" ∷ "digest" ∷ [])) [] leaf

unfoldable pub decode_ref : Value.Fields → Result DocRef
decode_ref obj = do
  u ← string_field "uri" obj
  d ← string_field "digest" obj
  ok (record { uri = u; digest = d })

-- (DocRef).validate
unfoldable pub validate_ref : DocRef → Result (Unit {0})
validate_ref d = do Check.check d.uri; require (valid_digest d.digest) plain

abbrev pub validate_ref? : Option DocRef → Result (Unit {0})
validate_ref? none = ok tt
validate_ref? (some d) = validate_ref d

pub record Artifact : Type 0 where
  pub kind : Bytes
  pub source : Bytes
  pub revision : Bytes
  pub artifact_hash : Option Bytes

abbrev pub no_artifact : Artifact
no_artifact = record { kind = []; source = []; revision = []; artifact_hash = none }

abbrev pub artifact_shape : Shape
artifact_shape = shape (names ("kind" ∷ "source" ∷ "revision" ∷ "artifactHash" ∷ [])) [] leaf

unfoldable pub decode_artifact : Value.Fields → Result Artifact
decode_artifact obj = do
  k ← string_field "kind" obj
  s ← string_field "source" obj
  r ← string_field "revision" obj
  h ← string?_field "artifactHash" obj
  ok (record { kind = k; source = s; revision = r; artifact_hash = h })

-- The kinds of an artifact: what revision and artifactHash mean.
abbrev pub kind_source : Bytes
kind_source = codes "source"

abbrev pub kind_build : Bytes
kind_build = codes "build"

abbrev pub kind_deployment : Bytes
kind_deployment = codes "deployment"

abbrev pub is_none : Option Bytes → Bool
is_none none = true
is_none (some s) = false

abbrev pub is_digest? : Option Bytes → Bool
is_digest? none = false
is_digest? (some s) = valid_digest s

unfoldable pub validate_commit : Artifact → Result (Unit {0})
validate_commit a = do
  Check.check a.source
  require (is_commit a.revision) plain
  require (not (bytes_eq a.kind kind_source && not (is_none a.artifact_hash))) plain
  require (not (bytes_eq a.kind kind_build && not (is_digest? a.artifact_hash))) plain

unfoldable pub validate_deployment : Artifact → Result (Unit {0})
validate_deployment a = do
  Check.check a.source
  require (valid_digest a.revision) plain
  require (is_none a.artifact_hash || is_digest? a.artifact_hash) plain

-- (Artifact).validate
unfoldable pub validate_artifact : Artifact → Result (Unit {0})
unfolding validate_commit validate_deployment
validate_artifact a =
    if bytes_eq a.kind kind_source || bytes_eq a.kind kind_build
    then validate_commit a
    else if bytes_eq a.kind kind_deployment
    then validate_deployment a
    else err plain

pub record Disclosure : Type 0 where
  pub findings_to_subject_first : Bool
  pub embargo_days : ℕ
  pub attestation_publication : Bytes
  pub fail_publication : Bytes

abbrev pub no_disclosure : Disclosure
no_disclosure = record {
  findings_to_subject_first = false;
  embargo_days = 0;
  attestation_publication = [];
  fail_publication = [];
}

abbrev pub disclosure_shape : Shape
disclosure_shape =
    shape
      (names (
        "findingsToSubjectFirst" ∷ "embargoDays" ∷ "attestationPublication" ∷ "failPublication"
        ∷ []))
      [] leaf

unfoldable pub decode_disclosure : Value.Fields → Result Disclosure
decode_disclosure obj = do
  f ← bool_field "findingsToSubjectFirst" obj
  e ← int_field "embargoDays" obj
  a ← string_field "attestationPublication" obj
  p ← string_field "failPublication" obj
  ok (record {
    findings_to_subject_first = f;
    embargo_days = e;
    attestation_publication = a;
    fail_publication = p;
  })

abbrev pub max_embargo_days : ℕ
max_embargo_days = 90

-- (Disclosure).Check; a decoded number of days is not negative.
unfoldable pub check_disclosure : Disclosure → Result (Unit {0})
check_disclosure d = do
  require (leb d.embargo_days max_embargo_days) plain
  require (bytes_eq d.attestation_publication (codes "public-on-issuance")) plain
  require (one_of d.fail_publication (names ("public-on-issuance" ∷ "public-after-embargo" ∷ [])))
      plain

unfoldable pub same_disclosure : Disclosure → Disclosure → Bool
same_disclosure a b =
    (if a.findings_to_subject_first
      then b.findings_to_subject_first
      else not b.findings_to_subject_first)
    && a.embargo_days == b.embargo_days
    && bytes_eq a.attestation_publication b.attestation_publication
    && bytes_eq a.fail_publication b.fail_publication
