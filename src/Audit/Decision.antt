-- ===== src/Audit/Decision.antt =====
-- audit/verify.go: the target, the input and the decision of the local `verify` operation, and what
-- a client renders.
use onym_audit.Prelude.{
  ℕ, Bool, true, false, ◌&&◌, [], ◌++◌, List, Bytes, codes, bytes_eq, Option, none, some, Error,
  unsupported_profile, artifact_mismatch, attestation_expired, attestation_revoked,
  attestation_superseded, status_unavailable, issuer_untrusted, attestation_invalid,
  auditor_manifest_invalid, status_list_invalid, status_rollback, subject_response_invalid,
}
use onym_audit.Sig.Sign.{Crypto, digest, fingerprint}
use onym_audit.Sig.Time.{Time}
use onym_audit.Audit.Terms.{Artifact, DocRef, kind_deployment}
use onym_audit.Audit.Manifest.{AuditorManifest}
use onym_audit.Audit.Attestation.{Attestation}

pub record Target : Type 0 where
  pub kind : Bytes
  pub source : Bytes
  pub revision : Bytes
  pub artifact_hash : Option Bytes

abbrev digest_of? : Crypto → Option Bytes → Option Bytes
digest_of? c none = none
digest_of? c (some b) = some (digest c b)

-- DeploymentTarget
unfoldable pub deployment_target : Crypto → Bytes → Bytes → Option Bytes → Target
deployment_target c uri manifest pinned = record {
  kind = kind_deployment;
  source = uri;
  revision = digest c manifest;
  artifact_hash = digest_of? c pinned;
}

pub record Trust : Type 0 where
  pub credited : List Bytes
  pub omit_uncredited : Bool

pub data Display : Type 0 where
  show_attested show_uncredited show_none show_revoked show_superseded show_expired
        show_status_unknown :
      Display

-- A nil slice is `none`; `state` is the epoch that a StatusState retains.
pub record Input : Type 0 where
  pub attestation : Bytes
  pub manifest : Bytes
  pub status : Option Bytes
  pub revocation : Option Bytes
  pub responses : List (Bytes × Bytes)
  pub target : Target
  pub trust : Trust
  pub state : Option ℕ
  pub now : Time

-- AgeDays has no field: no code sets it.
pub record Render : Type 0 where
  pub issuer : Bytes
  pub issuer_key : Bytes
  pub issuer_print : Bytes
  pub credited : Bool
  pub subject : Bytes
  pub methodology_class : Bytes
  pub scope : Bytes
  pub exclusions : Option (List Bytes)
  pub result : Bytes
  pub severity_floor : Bytes
  pub findings_summary : List (Bytes × ℕ)
  pub findings_report : Bytes
  pub engagement : Bytes
  pub sponsor : Bytes
  pub relationships : Bytes
  pub issued_at : Bytes
  pub expires_at : Bytes
  pub responses : List Bytes
  pub revoked_reason : Bytes
  pub superseded_by : Bytes

-- The texts of the notes, by the place that writes them.
pub data Note : Type 0 where
  error_text : Error → Note
  other_operator another_revision no_status_list not_covered other_bytes omitted : Note
  not_fetched : Bytes → Note
  response_invalid : Error → Note
  successor : Bytes → Note

pub record Decision : Type 0 where
  pub display : Display
  pub error : Option Error
  pub notes : List Note
  pub high_stakes_ok : Bool
  pub render : Option Render

-- The errors that `code` looks for; an error of any other kind is reported as
-- attestation-invalid.
unfoldable pub code : Error → Error
code unsupported_profile = unsupported_profile
code artifact_mismatch = artifact_mismatch
code attestation_expired = attestation_expired
code attestation_revoked = attestation_revoked
code attestation_superseded = attestation_superseded
code status_unavailable = status_unavailable
code issuer_untrusted = issuer_untrusted
code auditor_manifest_invalid = auditor_manifest_invalid
code status_list_invalid = status_list_invalid
code status_rollback = status_rollback
code subject_response_invalid = subject_response_invalid
code _ = attestation_invalid

-- A decision that renders nothing.
abbrev pub bare : Display → Option Error → List Note → Decision
bare shown e notes = record {
  display = shown;
  error = e;
  notes = notes;
  high_stakes_ok = false;
  render = none;
}

-- A decision that ends the procedure and renders something.
abbrev pub final : Display → Error → List Note → Render → Decision
final shown e notes r = record {
  display = shown;
  error = some e;
  notes = notes;
  high_stakes_ok = false;
  render = some r;
}

-- Absent
abbrev pub absent : Decision
absent = bare show_none none []

abbrev same_hash : Option Bytes → Option Bytes → Bool
same_hash none none = true
same_hash (some a) (some b) = bytes_eq a b
same_hash _ _ = false

unfoldable pub matches : Artifact → Target → Bool
matches a t =
    bytes_eq a.kind t.kind
    && bytes_eq a.source t.source
    && bytes_eq a.revision t.revision
    && same_hash a.artifact_hash t.artifact_hash

abbrev pub or_blank : Option Bytes → Bytes
or_blank none = []
or_blank (some s) = s

abbrev uri_of : Option DocRef → Bytes
uri_of none = []
uri_of (some d) = d.uri

unfoldable pub render : Crypto → Attestation → AuditorManifest → Render
render c a m = record {
  issuer = m.display_name;
  issuer_key = m.operator;
  issuer_print = fingerprint c m.operator;
  credited = false;
  subject = a.subject;
  methodology_class = a.methodology_class;
  scope = a.scope_summary;
  exclusions = a.exclusions;
  result = a.result;
  severity_floor = or_blank a.severity_floor;
  findings_summary = a.findings_summary;
  findings_report = uri_of a.findings_report;
  engagement = a.engagement;
  sponsor = a.sponsor_name ++ codes " (" ++ fingerprint c a.sponsor ++ codes ")";
  relationships = a.relationships;
  issued_at = a.issued_at;
  expires_at = or_blank a.expires_at;
  responses = [];
  revoked_reason = [];
  superseded_by = [];
}

-- What is left to render of a revoked attestation.
unfoldable pub revoked_render : Crypto → AuditorManifest → Bytes → Render
revoked_render c m reason = record {
  issuer = m.display_name;
  issuer_key = m.operator;
  issuer_print = fingerprint c m.operator;
  credited = false;
  subject = [];
  methodology_class = [];
  scope = [];
  exclusions = none;
  result = [];
  severity_floor = [];
  findings_summary = [];
  findings_report = [];
  engagement = [];
  sponsor = [];
  relationships = [];
  issued_at = [];
  expires_at = [];
  responses = [];
  revoked_reason = reason;
  superseded_by = [];
}
