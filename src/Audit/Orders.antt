-- ===== src/Audit/Orders.antt =====
-- audit/docs.go: orders and their signatures.
use onym_audit.Prelude.{
  ℕ, ◌&&◌, not, [], ◌∷◌, List, ◌==◌, Bytes, codes, bytes_eq, Result, ok, plain, malformed, ◌>>=◌,
  ◌>>◌, require, wrap,
}
use onym_audit.Canon.Value
use onym_audit.Sig.Sign.{Crypto, verify_detached}
use onym_audit.Audit.Strict.{Shape, shape, leaf, nest, names, decode_strict}
use onym_audit.Audit.Fields.{string_field, int_field, texts_field, struct_field, structs_field}
use onym_audit.Audit.Terms.{
  methodology_classes, fee_models, one_of, is_component, is_id, DocRef, no_ref, ref_shape,
  decode_ref, validate_ref, Artifact, no_artifact, artifact_shape, decode_artifact,
  validate_artifact, Disclosure, no_disclosure, disclosure_shape, decode_disclosure,
  check_disclosure,
}

pub record Fee : Type 0 where
  pub model : Bytes
  pub offer_id : Bytes

abbrev pub no_fee : Fee
no_fee = record { model = []; offer_id = [] }

abbrev pub fee_shape : Shape
fee_shape = shape (names ("model" ∷ "offerId" ∷ [])) [] leaf

unfoldable pub decode_fee : Value.Fields → Result Fee
decode_fee obj = do
  x0 ← string_field "model" obj
  x1 ← string_field "offerId" obj
  ok (record { model = x0; offer_id = x1 })

pub record OrderSignature : Type 0 where
  pub role : Bytes
  pub key : Bytes
  pub signature : Bytes

abbrev pub no_order_signature : OrderSignature
no_order_signature = record { role = []; key = []; signature = [] }

abbrev pub order_signature_shape : Shape
order_signature_shape = shape (names ("role" ∷ "key" ∷ "signature" ∷ [])) [] leaf

unfoldable pub decode_order_signature : Value.Fields → Result OrderSignature
decode_order_signature obj = do
  x0 ← string_field "role" obj
  x1 ← string_field "key" obj
  x2 ← string_field "signature" obj
  ok (record { role = x0; key = x1; signature = x2 })

pub record AuditOrder : Type 0 where
  pub order_version : ℕ
  pub order_id : Bytes
  pub auditor : Bytes
  pub subject : Bytes
  pub sponsor : Bytes
  pub artifact : Artifact
  pub methodology_class : Bytes
  pub scope : DocRef
  pub cooperation : Bytes
  pub disclosure : Disclosure
  pub timeline : List (Bytes × Bytes)
  pub fee : Fee
  pub signatures : List OrderSignature

abbrev pub order_shape : Shape
order_shape =
    shape
      (names (
        "orderVersion" ∷ "orderId" ∷ "auditor" ∷ "subject" ∷ "sponsor" ∷ "artifact"
        ∷ "methodologyClass" ∷ "scope" ∷ "cooperation" ∷ "disclosure" ∷ "timeline" ∷ "fee"
        ∷ "signatures" ∷ []))
      []
      (nest (codes "artifact") artifact_shape (
        nest (codes "scope") ref_shape (
          nest (codes "disclosure") disclosure_shape (
            nest (codes "timeline") (shape (names ("start" ∷ "reportDue" ∷ [])) [] leaf) (
              nest (codes "fee") fee_shape
                (nest (codes "signatures") order_signature_shape leaf))))))

unfoldable pub decode_order : Value.Fields → Result AuditOrder
decode_order obj = do
  x0 ← int_field "orderVersion" obj
  x1 ← string_field "orderId" obj
  x2 ← string_field "auditor" obj
  x3 ← string_field "subject" obj
  x4 ← string_field "sponsor" obj
  x5 ← struct_field no_artifact decode_artifact "artifact" obj
  x6 ← string_field "methodologyClass" obj
  x7 ← struct_field no_ref decode_ref "scope" obj
  x8 ← string_field "cooperation" obj
  x9 ← struct_field no_disclosure decode_disclosure "disclosure" obj
  x10 ← texts_field "timeline" obj
  x11 ← struct_field no_fee decode_fee "fee" obj
  x12 ← structs_field no_order_signature decode_order_signature "signatures" obj
  ok (record {
    order_version = x0;
    order_id = x1;
    auditor = x2;
    subject = x3;
    sponsor = x4;
    artifact = x5;
    methodology_class = x6;
    scope = x7;
    cooperation = x8;
    disclosure = x9;
    timeline = x10;
    fee = x11;
    signatures = x12;
  })

abbrev pub auditor_role : Bytes
auditor_role = codes "auditor"

abbrev pub subject_role : Bytes
subject_role = codes "subject"

abbrev pub sponsor_role : Bytes
sponsor_role = codes "sponsor"

module _ (c : Crypto) (raw : Bytes) (sponsor : Bytes) (roles : List Bytes) where
  -- The loop over the signatures: the roles that have signed.
  unfoldable pub check_signatures : List OrderSignature → Result (List Bytes)
  check_signatures [] = ok []
  check_signatures (s ∷ ss) =
      require (one_of s.role roles) malformed
      >> (verify_detached c raw s.signature s.key (codes "signatures" ∷ [])
          >> (require (not (bytes_eq s.role sponsor_role && not (bytes_eq s.key sponsor))) plain
              >> (check_signatures ss >>= λ signed. ok (s.role ∷ signed))))

-- What ParseOrder and ParseOrderRequest ask of an order's terms.
unfoldable pub check_terms : AuditOrder → Result (Unit {0})
check_terms o = do
  wrap malformed (validate_artifact o.artifact)
  require (one_of o.methodology_class methodology_classes && one_of o.fee.model fee_models)
      malformed
  wrap malformed (validate_ref o.scope)

-- ParseOrder
unfoldable pub parse_order : Crypto → Bytes → Result AuditOrder
unfolding check_terms
parse_order c raw = do
  o ← decode_strict order_shape decode_order raw
  require (o.order_version == 1 && is_id o.order_id) malformed
  require (is_component o.auditor && is_component o.subject) malformed
  check_terms o
  signed ←
      check_signatures c raw o.sponsor (auditor_role ∷ subject_role ∷ sponsor_role ∷ [])
        o.signatures
  require (one_of auditor_role signed && one_of subject_role signed && one_of sponsor_role signed)
      malformed
  ok o

-- ParseOrderRequest
unfoldable pub parse_order_request : Crypto → Bytes → Bytes → Result AuditOrder
unfolding check_terms
parse_order_request c raw auditor_component = do
  o ← decode_strict order_shape decode_order raw
  require (bytes_eq o.auditor auditor_component) malformed
  require (o.order_version == 1 && is_id o.order_id && is_component o.subject) malformed
  wrap malformed (check_disclosure o.disclosure)
  check_terms o
  signed ← check_signatures c raw o.sponsor (subject_role ∷ sponsor_role ∷ []) o.signatures
  require (one_of subject_role signed && one_of sponsor_role signed) malformed
  ok o
