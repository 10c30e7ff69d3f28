-- ===== src/Audit/Manifest.antt =====
-- audit/docs.go: the audit profile and the auditor manifest.
use onym_audit.Prelude.{
  ℕ, ◌+◌, ◌*◌, Bool, true, ◌&&◌, ◌||◌, not, [], ◌∷◌, List, ◌==◌, all, is_nil, Bytes, codes,
  bytes_eq, Option, none, some, Result, ok, plain, unsupported_profile, auditor_manifest_invalid,
  ◌>>=◌, ◌>>◌, require, wrap,
}
use onym_audit.Canon.Value
use onym_audit.Sig.Hex.{public}
use onym_audit.Sig.Sign.{Crypto, verify}
use onym_audit.Sig.Time.{Time, parse_time, minute, after}
use onym_audit.UriRule.Check
use onym_audit.Audit.Strict.{Shape, shape, leaf, nest, names, decode_strict}
use onym_audit.Audit.Fields.{string_field, int_field, strings_field, struct_field, structs_field}
use onym_audit.Audit.Terms.{
  profile_id, interface, methodology_classes, one_of, is_component, is_offer_id, DocRef, no_ref,
  ref_shape, decode_ref, validate_ref,
}

pub record AuditProfile : Type 0 where
  pub profile_version : ℕ
  pub profile_id : Bytes
  pub interface : Bytes
  pub operations : Option (List Bytes)
  pub methodology_classes : Option (List Bytes)
  pub attestation_schema : Bytes
  pub result_classes : Option (List Bytes)
  pub freshness : Bytes
  pub error_schema : Bytes
  pub specification : DocRef
  pub publisher : Bytes
  pub signature : Bytes

abbrev pub profile_shape : Shape
profile_shape =
    shape
      (names (
        "profileVersion" ∷ "profileId" ∷ "interface" ∷ "operations" ∷ "methodologyClasses"
        ∷ "attestationSchema" ∷ "resultClasses" ∷ "freshness" ∷ "errorSchema" ∷ "specification"
        ∷ "publisher" ∷ "signature" ∷ []))
      [] (nest (codes "specification") ref_shape leaf)

unfoldable pub decode_profile : Value.Fields → Result AuditProfile
decode_profile obj = do
  x0 ← int_field "profileVersion" obj
  x1 ← string_field "profileId" obj
  x2 ← string_field "interface" obj
  x3 ← strings_field "operations" obj
  x4 ← strings_field "methodologyClasses" obj
  x5 ← string_field "attestationSchema" obj
  x6 ← strings_field "resultClasses" obj
  x7 ← string_field "freshness" obj
  x8 ← string_field "errorSchema" obj
  x9 ← struct_field no_ref decode_ref "specification" obj
  x10 ← string_field "publisher" obj
  x11 ← string_field "signature" obj
  ok (record {
    profile_version = x0;
    profile_id = x1;
    interface = x2;
    operations = x3;
    methodology_classes = x4;
    attestation_schema = x5;
    result_classes = x6;
    freshness = x7;
    error_schema = x8;
    specification = x9;
    publisher = x10;
    signature = x11;
  })

-- ParseProfile
unfoldable pub parse_profile : Crypto → Bytes → Result AuditProfile
parse_profile c raw = do
  p ← decode_strict profile_shape decode_profile raw
  require
      (p.profile_version == 1 && bytes_eq p.profile_id profile_id && bytes_eq p.interface interface)
      unsupported_profile
  validate_ref p.specification
  verify c raw (codes "signature") p.publisher
  ok p

pub record Methodology : Type 0 where
  pub class : Bytes
  pub specification : DocRef
  pub scopes_offered : Option (List Bytes)

abbrev pub no_methodology : Methodology
no_methodology = record { class = []; specification = no_ref; scopes_offered = none }

abbrev pub methodology_shape : Shape
methodology_shape =
    shape (names ("class" ∷ "specification" ∷ "scopesOffered" ∷ [])) []
      (nest (codes "specification") ref_shape leaf)

unfoldable pub decode_methodology : Value.Fields → Result Methodology
decode_methodology obj = do
  x0 ← string_field "class" obj
  x1 ← struct_field no_ref decode_ref "specification" obj
  x2 ← strings_field "scopesOffered" obj
  ok (record { class = x0; specification = x1; scopes_offered = x2 })

pub record AuditorManifest : Type 0 where
  pub version : ℕ
  pub component_id : Bytes
  pub seat : Bytes
  pub operator : Bytes
  pub display_name : Bytes
  pub contact : Bytes
  pub audit_profile_id : Bytes
  pub audit_profile : DocRef
  pub methodologies : List Methodology
  pub independence_policy : DocRef
  pub unsolicited_policy : DocRef
  pub liability : DocRef
  pub severity_scale : DocRef
  pub privacy_profile : DocRef
  pub status_endpoint : Bytes
  pub status_key : Bytes
  pub offers : Option (List Bytes)
  pub valid_until : Bytes
  pub signature : Bytes

abbrev pub manifest_shape : Shape
manifest_shape =
    shape
      (names (
        "version" ∷ "componentId" ∷ "seat" ∷ "operator" ∷ "displayName" ∷ "contact"
        ∷ "auditProfileId" ∷ "auditProfile" ∷ "methodologies" ∷ "independencePolicy"
        ∷ "unsolicitedPolicy" ∷ "liability" ∷ "severityScale" ∷ "privacyProfile" ∷ "statusEndpoint"
        ∷ "statusKey" ∷ "offers" ∷ "validUntil" ∷ "signature" ∷ []))
      []
      (nest (codes "auditProfile") ref_shape (
        nest (codes "independencePolicy") ref_shape (
          nest (codes "unsolicitedPolicy") ref_shape (
            nest (codes "liability") ref_shape (
              nest (codes "severityScale") ref_shape (
                nest (codes "privacyProfile") ref_shape
                  (nest (codes "methodologies") methodology_shape leaf)))))))

unfoldable pub decode_manifest : Value.Fields → Result AuditorManifest
decode_manifest obj = do
  x0 ← int_field "version" obj
  x1 ← string_field "componentId" obj
  x2 ← string_field "seat" obj
  x3 ← string_field "operator" obj
  x4 ← string_field "displayName" obj
  x5 ← string_field "contact" obj
  x6 ← string_field "auditProfileId" obj
  x7 ← struct_field no_ref decode_ref "auditProfile" obj
  x8 ← structs_field no_methodology decode_methodology "methodologies" obj
  x9 ← struct_field no_ref decode_ref "independencePolicy" obj
  x10 ← struct_field no_ref decode_ref "unsolicitedPolicy" obj
  x11 ← struct_field no_ref decode_ref "liability" obj
  x12 ← struct_field no_ref decode_ref "severityScale" obj
  x13 ← struct_field no_ref decode_ref "privacyProfile" obj
  x14 ← string_field "statusEndpoint" obj
  x15 ← string_field "statusKey" obj
  x16 ← strings_field "offers" obj
  x17 ← string_field "validUntil" obj
  x18 ← string_field "signature" obj
  ok (record {
    version = x0;
    component_id = x1;
    seat = x2;
    operator = x3;
    display_name = x4;
    contact = x5;
    audit_profile_id = x6;
    audit_profile = x7;
    methodologies = x8;
    independence_policy = x9;
    unsolicited_policy = x10;
    liability = x11;
    severity_scale = x12;
    privacy_profile = x13;
    status_endpoint = x14;
    status_key = x15;
    offers = x16;
    valid_until = x17;
    signature = x18;
  })

-- The clock-skew allowance.
abbrev pub skew : Time
skew = 10 * minute

validate_refs : List DocRef → Result (Unit {0})
validate_refs [] = ok tt
validate_refs (d ∷ ds) = validate_ref d >> validate_refs ds

validate_methodologies : List Methodology → Result (Unit {0})
validate_methodologies [] = ok tt
validate_methodologies (m ∷ ms) =
    require (one_of m.class methodology_classes) plain
    >> (validate_ref m.specification >> validate_methodologies ms)

abbrev offer_ids : Option (List Bytes) → Bool
offer_ids none = true
offer_ids (some l) = all is_offer_id l

-- (*AuditorManifest).validate
unfoldable pub validate_manifest : AuditorManifest → Result (Unit {0})
unfolding validate_refs validate_methodologies
validate_manifest m = do
  require (m.version == 1 && bytes_eq m.seat (codes "audit")) plain
  require (is_component m.component_id) plain
  _ ← public m.operator
  _ ← public m.status_key
  require (not (bytes_eq m.status_key m.operator)) plain
  require (not (is_nil m.display_name || is_nil m.contact)) plain
  validate_refs (
      m.audit_profile ∷ m.independence_policy ∷ m.unsolicited_policy ∷ m.liability
      ∷ m.severity_scale ∷ m.privacy_profile ∷ [])
  require (not (is_nil m.methodologies)) plain
  validate_methodologies m.methodologies
  Check.check m.status_endpoint
  require (offer_ids m.offers) plain
  _ ← parse_time m.valid_until
  ok tt

-- ParseManifest. The second reading of validUntil repeats one that `validate` has made.
unfoldable pub parse_manifest : Crypto → Bytes → Time → Result AuditorManifest
parse_manifest c raw now = do
  m ← wrap auditor_manifest_invalid (decode_strict manifest_shape decode_manifest raw)
  require (bytes_eq m.audit_profile_id profile_id) unsupported_profile
  wrap auditor_manifest_invalid (validate_manifest m)
  wrap auditor_manifest_invalid (verify c raw (codes "signature") m.operator)
  until ← wrap auditor_manifest_invalid (parse_time m.valid_until)
  require (not (after now (until + skew))) auditor_manifest_invalid
  ok m
