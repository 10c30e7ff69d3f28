-- ===== src/Hub/Revoke.antt =====
-- hub/hub.go: revocations, and the replies of subjects.
use onym_audit.Prelude.{
  ℕ, suc, true, false, ◌&&◌, not, [], ◌∷◌, ◌++◌, ltb, is_nil, ◌==◌, Bytes, codes, bytes_eq,
  if◌then◌else◌, Result, ok, err,
}
use onym_audit.Canon.Value.{Fields, get}
use onym_audit.Canon.Decode.{parse}
use onym_audit.Sig.Sign.{digest, text_of}
use onym_audit.Sig.Time.{Time}
use onym_audit.Files.{Files, read_file, exists, has_prefix, json}
use onym_audit.Audit.Attestation.{parse_attestation}
use onym_audit.Audit.Replies.{Revocation, parse_revocation, parse_response}
use onym_audit.Site.{revocations, responses}
use onym_audit.Hub.{Hub, Tenant, base, write_files, resign, canonical, max_responses}
use onym_audit.Hub.Outcome.{Reply, failed, replied, Outcome, go, ◌>>=◌, ◌>>◌, check, or_fail}
use onym_audit.Hub.Publish.{tenant, attestation_path, or_empty, or_stop, after_resign, with_checks}
use onym_audit.Hub.Hold.{or_as_before}

abbrev pub revocation_path : Bytes → Bytes
revocation_path id = revocations ++ id ++ json

-- The checks of `revoke`: the revocation and its bytes.
unfoldable pub check_revoke : Hub → Bytes → Time → Tenant → Bytes → Outcome (Revocation × Bytes)
check_revoke h slug now t raw_in = do
  m ← tenant h slug now t
  raw ← or_fail 422 (canonical raw_in)
  rv ← or_fail 422 (parse_revocation h.crypto raw)
  check (bytes_eq rv.auditor_key m.operator && bytes_eq rv.auditor m.component_id) 422
  check (exists (attestation_path rv.attestation_id) t.tree) 404
  check (not (exists (revocation_path rv.attestation_id) t.tree)) 409
  go (rv, raw)

abbrev pub revoked :
    Hub → Bytes → Time → Tenant → Bytes → Files × Result (Unit {0}) → Reply × Tenant
revoked h slug now t path (tree, err e) = (failed 507, record t { tree = tree })
revoked h slug now t path (tree, ok _) =
    let t' = record t { tree = tree } in
    after_resign t' (replied 201 ((codes "uri", base h slug ++ path) ∷ [])) (resign h slug now t')

unfoldable pub revoke_now : Hub → Bytes → Time → Tenant → Revocation × Bytes → Reply × Tenant
revoke_now h slug now t (rv, raw) =
    let path = revocation_path rv.attestation_id in
    revoked h slug now t path (write_files h t ((path, raw) ∷ []) false)

-- revoke
unfoldable pub revoke : Hub → Bytes → Time → Tenant → Bytes → Reply × Tenant
revoke h slug now t raw_in =
    with_checks t (revoke_now h slug now t) (check_revoke h slug now t raw_in)

abbrev or_best : Bytes → Bytes → Bytes
or_best best cur = if is_nil cur then best else cur

-- The last part of a path that is not empty.
unfoldable pub last_part : Bytes → Bytes → Bytes → Bytes
last_part best cur [] = or_best best cur
last_part best cur (c ∷ s) =
    let next = last_part (or_best best cur) [] s in
    let more = last_part best (cur ++ c ∷ []) s in if c == b'/' then next else more

-- filepath.Base
unfoldable pub base_name : Bytes → Bytes
base_name [] = codes "."
base_name (c ∷ s) = or_best (codes "/") (last_part [] [] (c ∷ s))

-- How many files a directory of the tree has.
unfoldable pub count_under : Bytes → Files → ℕ
count_under dir [] = 0
count_under dir ((p, b) ∷ fs) =
    let rest = count_under dir fs in if has_prefix dir p then suc rest else rest

abbrev pub head_text : Bytes → Fields → Bytes
head_text k obj = or_empty (text_of (get k obj))

abbrev pub response_dir : Bytes → Bytes
response_dir id = responses ++ id ++ b'/' ∷ []

abbrev pub response_path : Bytes → Bytes → Bytes
response_path id rid = response_dir id ++ rid ++ json

-- The checks of `response`: the path of the reply and its bytes.
unfoldable pub check_response : Hub → Bytes → Time → Tenant → Bytes → Outcome (Bytes × Bytes)
check_response h slug now t raw_in = do
  _ ← tenant h slug now t
  raw ← or_fail 422 (canonical raw_in)
  obj ← or_fail 422 (parse raw)
  att_raw ←
      or_stop 404
        (read_file (attestation_path (base_name (head_text (codes "attestationId") obj))) t.tree)
  att ← or_fail 500 (parse_attestation h.crypto att_raw)
  _ ← or_fail 422 (parse_response h.crypto raw att (digest h.crypto att_raw))
  let path = response_path att.attestation_id (head_text (codes "responseId") obj)
  check (not (exists path t.tree)) 409
  check (ltb (count_under (response_dir att.attestation_id) t.tree) max_responses) 409
  go (path, raw)

abbrev pub answered :
    Hub → Bytes → Time → Tenant → Bytes → Files × Result (Unit {0}) → Reply × Tenant
answered h slug now t path (tree, err e) = (failed 507, record t { tree = tree })
answered h slug now t path (tree, ok _) =
    let t' = record t { tree = tree } in
    (
      replied 201 ((codes "uri", base h slug ++ path) ∷ []),
      record t' { tree = or_as_before tree (resign h slug now t') },
    )

unfoldable pub respond_now : Hub → Bytes → Time → Tenant → Bytes × Bytes → Reply × Tenant
respond_now h slug now t (path, raw) =
    answered h slug now t path (write_files h t ((path, raw) ∷ []) true)

-- response
unfoldable pub response : Hub → Bytes → Time → Tenant → Bytes → Reply × Tenant
response h slug now t raw_in =
    with_checks t (respond_now h slug now t) (check_response h slug now t raw_in)
