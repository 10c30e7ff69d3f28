-- ===== src/Audit/Build.antt =====
-- audit/status.go and audit/strict.go: the status list that the auditor's side builds and signs.
pub mod Reading
pub mod Order
pub mod Writing
pub mod RoundTrip
pub mod Lookup
pub mod Tests
use onym_audit.Prelude.{
  ℕ, ◌+◌, ◌-◌, ◌*◌, ◌/◌, Bool, true, false, ◌&&◌, not, [], ◌∷◌, List, leb, is_nil, Bytes, codes,
  bytes_eq, bytes_lt, if◌then◌else◌, Option, none, some, Result, ok, err, plain, malformed, ◌>>=◌,
  ◌>>◌, require,
}
use onym_audit.Canon.Value.{
  Value, Items, Fields, null, str, number, object, array, no_items, item, no_fields, field,
  max_safe_integer,
}
use onym_audit.Canon.Encode.{format_uint}
use onym_audit.Sig.Hex.{key_of}
use onym_audit.Sig.Sign.{Crypto, sign}
use onym_audit.Sig.Time.{Time, format_time, parse_time, before, second, or_zero_time}
use onym_audit.Audit.Terms.{DocRef}
use onym_audit.Audit.Manifest.{AuditorManifest}
use onym_audit.Audit.Attestation.{Attestation}
use onym_audit.Audit.Status.{
  StatusEntry, StatusList, active, superseded, revoked, expired, next_update_in, has_ref,
}
use onym_audit.Audit.Decision.{or_blank}

-- A nil slice of responses is the empty one, as BuildStatus makes it.
pub record Published : Type 0 where
  pub attestation : Attestation
  pub ref : DocRef
  pub revocation : Option DocRef
  pub revoked_from : Time
  pub responses : List DocRef

abbrev pub supersedes : Option Bytes → Bytes → Bool
supersedes none id = false
supersedes (some s) id = bytes_eq s id

-- The map supersededBy at a key; the last write stands.
abbrev pub later : Bytes → Published → Option Bytes → Option Bytes
later id p none =
    if supersedes p.attestation.supersedes id then some p.attestation.attestation_id else none
later id p (some by) = some by

unfoldable pub superseded_by : Bytes → List Published → Option Bytes
superseded_by id [] = none
superseded_by id (p ∷ ps) = later id p (superseded_by id ps)

abbrev pub has_ended : Time → Option Bytes → Bool
has_ended now none = false
has_ended now (some e) = not (before now (or_zero_time (parse_time e)))

-- One round of the loop over the published attestations.
abbrev pub blank_entry : Published → StatusEntry
blank_entry p = record {
  attestation_id = p.attestation.attestation_id;
  attestation = p.ref;
  state = active;
  superseded_by = none;
  revocation = none;
  responses = p.responses;
}

unfoldable pub entry_of : List Published → Time → Published → StatusEntry
entry_of pubs now p =
    let by = or_blank (superseded_by p.attestation.attestation_id pubs) in
    if has_ref p.revocation && not (before now p.revoked_from)
    then record (blank_entry p) { state = revoked; revocation = p.revocation }
    else if not (is_nil by)
    then record (blank_entry p) { state = superseded; superseded_by = some by }
    else if has_ended now p.attestation.expires_at
    then record (blank_entry p) { state = expired }
    else blank_entry p

unfoldable pub entries_of : List Published → Time → List Published → List StatusEntry
entries_of pubs now [] = []
entries_of pubs now (p ∷ ps) = entry_of pubs now p ∷ entries_of pubs now ps

-- sort.Slice by id. Of equal ids, whose order sort.Slice leaves open, the first stays first.
unfoldable pub insert_entry : StatusEntry → List StatusEntry → List StatusEntry
insert_entry e [] = e ∷ []
insert_entry e (x ∷ xs) =
    let rest = insert_entry e xs in
    if bytes_lt x.attestation_id e.attestation_id then x ∷ rest else e ∷ x ∷ xs

unfoldable pub sort_entries : List StatusEntry → List StatusEntry
unfolding insert_entry
sort_entries [] = []
sort_entries (e ∷ es) = insert_entry e (sort_entries es)

-- (Time).Unix for instants from 1970 on, which is day 719528 of this calendar.
abbrev pub unix : Time → ℕ
unix now = now / second - 719528 * 86400

unfoldable pub epoch_of : Time → ℕ → ℕ
epoch_of now min_epoch =
    let epoch = unix now in if leb epoch min_epoch then min_epoch + 1 else epoch

unfoldable pub status_list : AuditorManifest → List Published → Time → ℕ → StatusList
unfolding sort_entries entries_of
status_list m pubs now min_epoch = record {
  status_version = 1;
  auditor = m.component_id;
  auditor_key = m.operator;
  status_key = m.status_key;
  status_epoch = epoch_of now min_epoch;
  issued_at = format_time now;
  next_update = format_time (now + next_update_in);
  entries = sort_entries (entries_of pubs now pubs);
  signature = [];
}

abbrev pub opt_value : Option Bytes → Value
opt_value none = null
opt_value (some s) = str s

abbrev pub ref_value : DocRef → Value
ref_value d =
    object (field (codes "uri") (str d.uri) (field (codes "digest") (str d.digest) no_fields))

abbrev pub opt_ref_value : Option DocRef → Value
opt_ref_value none = null
opt_ref_value (some d) = ref_value d

abbrev pub ref_values : List DocRef → Items
ref_values [] = no_items
ref_values (d ∷ ds) = item (ref_value d) (ref_values ds)

abbrev pub entry_fields : StatusEntry → Fields
entry_fields e = field (codes "attestationId") (str e.attestation_id) (
    field (codes "attestation") (ref_value e.attestation) (
      field (codes "state") (str e.state) (
        field (codes "supersededBy") (opt_value e.superseded_by) (
          field (codes "revocation") (opt_ref_value e.revocation)
            (field (codes "responses") (array (ref_values e.responses)) no_fields)))))

abbrev pub entry_values : List StatusEntry → Items
entry_values [] = no_items
entry_values (e ∷ es) = item (object (entry_fields e)) (entry_values es)

-- toObject of an unsigned status list: json.Marshal in the order of the struct, and canon.Parse of
-- it, which refuses an epoch above 2^53 - 1. The texts are valid UTF-8, as those of parsed
-- documents are.
abbrev pub status_fields : StatusList → Fields
status_fields l = field (codes "statusVersion") (number (format_uint l.status_version)) (
    field (codes "auditor") (str l.auditor) (
      field (codes "auditorKey") (str l.auditor_key) (
        field (codes "statusKey") (str l.status_key) (
          field (codes "statusEpoch") (number (format_uint l.status_epoch)) (
            field (codes "issuedAt") (str l.issued_at) (
              field (codes "nextUpdate") (str l.next_update)
                (field (codes "entries") (array (entry_values l.entries)) no_fields)))))))

unfoldable pub to_object : StatusList → Result Fields
to_object l = do require (leb l.status_epoch max_safe_integer) malformed; ok (status_fields l)

-- BuildStatus
unfoldable pub build_status :
    Crypto → AuditorManifest → List Published → Time → ℕ → Bytes → Result Bytes
build_status c m pubs now min_epoch priv = do
  require (bytes_eq (key_of (c.public_key priv)) m.status_key) plain
  obj ← to_object (status_list m pubs now min_epoch)
  sign c obj (codes "signature") priv
