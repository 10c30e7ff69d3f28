-- ===== src/Audit/Replies.antt =====
-- audit/attestation.go: revocations and the subject's responses.
use onym_audit.Prelude.{
  ℕ, ◌&&◌, [], ◌∷◌, List, between, ◌==◌, length, Bytes, codes, bytes_eq, Option, Result, ok,
  malformed, subject_response_invalid, ◌>>=◌, ◌>>◌, require, wrap,
}
use onym_audit.Canon.Value
use onym_audit.Sig.Sign.{Crypto, verify}
use onym_audit.Sig.Time.{parse_time}
use onym_audit.Audit.Strict.{Shape, shape, leaf, nest, names, decode_strict}
use onym_audit.Audit.Fields.{string_field, int_field, struct?_field}
use onym_audit.Audit.Terms.{one_of, is_component, is_id, DocRef, ref_shape, decode_ref}
use onym_audit.Audit.Attestation.{Attestation}

pub record Revocation : Type 0 where
  pub revocation_version : ℕ
  pub attestation_id : Bytes
  pub auditor : Bytes
  pub auditor_key : Bytes
  pub issued_at : Bytes
  pub status_epoch : ℕ
  pub effective_from : Bytes
  pub reason : Bytes
  pub detail : Option DocRef
  pub signature : Bytes

abbrev pub revocation_shape : Shape
revocation_shape =
    shape
      (names (
        "revocationVersion" ∷ "attestationId" ∷ "auditor" ∷ "auditorKey" ∷ "issuedAt"
        ∷ "statusEpoch" ∷ "effectiveFrom" ∷ "reason" ∷ "detail" ∷ "signature" ∷ []))
      [] (nest (codes "detail") ref_shape leaf)

unfoldable pub decode_revocation : Value.Fields → Result Revocation
decode_revocation obj = do
  x0 ← int_field "revocationVersion" obj
  x1 ← string_field "attestationId" obj
  x2 ← string_field "auditor" obj
  x3 ← string_field "auditorKey" obj
  x4 ← string_field "issuedAt" obj
  x5 ← int_field "statusEpoch" obj
  x6 ← string_field "effectiveFrom" obj
  x7 ← string_field "reason" obj
  x8 ← struct?_field decode_ref "detail" obj
  x9 ← string_field "signature" obj
  ok (record {
    revocation_version = x0;
    attestation_id = x1;
    auditor = x2;
    auditor_key = x3;
    issued_at = x4;
    status_epoch = x5;
    effective_from = x6;
    reason = x7;
    detail = x8;
    signature = x9;
  })

abbrev pub revocation_reasons : List Bytes
revocation_reasons =
    names
      ("methodology-error" ∷ "new-information" ∷ "compromise-of-auditor-key" ∷ "withdrawal" ∷ [])

-- ParseRevocation
unfoldable pub parse_revocation : Crypto → Bytes → Result Revocation
parse_revocation c raw = do
  r ← decode_strict revocation_shape decode_revocation raw
  require
      (r.revocation_version == 1
        && is_id r.attestation_id
        && is_component r.auditor
        && one_of r.reason revocation_reasons)
      malformed
  _ ← parse_time r.issued_at
  _ ← parse_time r.effective_from
  verify c raw (codes "signature") r.auditor_key
  ok r

pub record SubjectResponse : Type 0 where
  pub response_version : ℕ
  pub response_id : Bytes
  pub attestation_id : Bytes
  pub attestation : Bytes
  pub subject : Bytes
  pub respondent : Bytes
  pub issued_at : Bytes
  pub text : Bytes
  pub signature : Bytes

abbrev pub response_shape : Shape
response_shape =
    shape
      (names (
        "responseVersion" ∷ "responseId" ∷ "attestationId" ∷ "attestation" ∷ "subject"
        ∷ "respondent" ∷ "issuedAt" ∷ "text" ∷ "signature" ∷ []))
      [] leaf

unfoldable pub decode_response : Value.Fields → Result SubjectResponse
decode_response obj = do
  x0 ← int_field "responseVersion" obj
  x1 ← string_field "responseId" obj
  x2 ← string_field "attestationId" obj
  x3 ← string_field "attestation" obj
  x4 ← string_field "subject" obj
  x5 ← string_field "respondent" obj
  x6 ← string_field "issuedAt" obj
  x7 ← string_field "text" obj
  x8 ← string_field "signature" obj
  ok (record {
    response_version = x0;
    response_id = x1;
    attestation_id = x2;
    attestation = x3;
    subject = x4;
    respondent = x5;
    issued_at = x6;
    text = x7;
    signature = x8;
  })

abbrev pub max_response_text : ℕ
max_response_text = 8000

-- ParseResponse
unfoldable pub parse_response : Crypto → Bytes → Attestation → Bytes → Result SubjectResponse
parse_response c raw att att_digest = do
  r ← wrap subject_response_invalid (decode_strict response_shape decode_response raw)
  require
      (r.response_version == 1
        && is_id r.response_id
        && between 1 max_response_text (length r.text))
      subject_response_invalid
  require
      (bytes_eq r.attestation_id att.attestation_id
        && bytes_eq r.attestation att_digest
        && bytes_eq r.subject att.subject)
      subject_response_invalid
  require (bytes_eq r.respondent att.subject_operator) subject_response_invalid
  _ ← wrap subject_response_invalid (parse_time r.issued_at)
  wrap subject_response_invalid (verify c raw (codes "signature") r.respondent)
  ok r
