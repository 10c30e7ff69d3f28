-- ===== src/Audit/Status.antt =====
-- audit/status.go: the signed status list.
use onym_audit.Prelude.{
  ℕ, ◌+◌, ◌-◌, ◌*◌, Bool, true, false, ◌&&◌, not, [], ◌∷◌, List, ltb, leb, ◌==◌, Bytes, codes,
  bytes_eq, if◌then◌else◌, Option, none, some, Error, Result, ok, err, status_list_invalid,
  status_rollback, ◌>>=◌, ◌>>◌, require, wrap,
}
use onym_audit.Canon.Value
use onym_audit.Sig.Sign.{Crypto, verify}
use onym_audit.Sig.Time.{Time, parse_time, hour, after}
use onym_audit.Audit.Strict.{Shape, shape, leaf, nest, names, member, decode_strict}
use onym_audit.Audit.Fields.{
  string_field, string?_field, int_field, struct_field, struct?_field, structs_field,
}
use onym_audit.Audit.Terms.{one_of, DocRef, no_ref, ref_shape, decode_ref, is_none}
use onym_audit.Audit.Manifest.{AuditorManifest, skew}

pub record StatusEntry : Type 0 where
  pub attestation_id : Bytes
  pub attestation : DocRef
  pub state : Bytes
  pub superseded_by : Option Bytes
  pub revocation : Option DocRef
  pub responses : List DocRef

abbrev pub no_entry : StatusEntry
no_entry = record {
  attestation_id = [];
  attestation = no_ref;
  state = [];
  superseded_by = none;
  revocation = none;
  responses = [];
}

abbrev pub entry_shape : Shape
entry_shape =
    shape
      (names (
        "attestationId" ∷ "attestation" ∷ "state" ∷ "supersededBy" ∷ "revocation" ∷ "responses"
        ∷ []))
      []
      (nest (codes "attestation") ref_shape
        (nest (codes "revocation") ref_shape (nest (codes "responses") ref_shape leaf)))

unfoldable pub decode_entry : Value.Fields → Result StatusEntry
decode_entry obj = do
  x0 ← string_field "attestationId" obj
  x1 ← struct_field no_ref decode_ref "attestation" obj
  x2 ← string_field "state" obj
  x3 ← string?_field "supersededBy" obj
  x4 ← struct?_field decode_ref "revocation" obj
  x5 ← structs_field no_ref decode_ref "responses" obj
  ok (record {
    attestation_id = x0;
    attestation = x1;
    state = x2;
    superseded_by = x3;
    revocation = x4;
    responses = x5;
  })

pub record StatusList : Type 0 where
  pub status_version : ℕ
  pub auditor : Bytes
  pub auditor_key : Bytes
  pub status_key : Bytes
  pub status_epoch : ℕ
  pub issued_at : Bytes
  pub next_update : Bytes
  pub entries : List StatusEntry
  pub signature : Bytes

abbrev pub status_shape : Shape
status_shape =
    shape
      (names (
        "statusVersion" ∷ "auditor" ∷ "auditorKey" ∷ "statusKey" ∷ "statusEpoch" ∷ "issuedAt"
        ∷ "nextUpdate" ∷ "entries" ∷ "signature" ∷ []))
      [] (nest (codes "entries") entry_shape leaf)

unfoldable pub decode_status : Value.Fields → Result StatusList
decode_status obj = do
  x0 ← int_field "statusVersion" obj
  x1 ← string_field "auditor" obj
  x2 ← string_field "auditorKey" obj
  x3 ← string_field "statusKey" obj
  x4 ← int_field "statusEpoch" obj
  x5 ← string_field "issuedAt" obj
  x6 ← string_field "nextUpdate" obj
  x7 ← structs_field no_entry decode_entry "entries" obj
  x8 ← string_field "signature" obj
  ok (record {
    status_version = x0;
    auditor = x1;
    auditor_key = x2;
    status_key = x3;
    status_epoch = x4;
    issued_at = x5;
    next_update = x6;
    entries = x7;
    signature = x8;
  })

abbrev pub active : Bytes
active = codes "active"

abbrev pub superseded : Bytes
superseded = codes "superseded"

abbrev pub revoked : Bytes
revoked = codes "revoked"

abbrev pub expired : Bytes
expired = codes "expired"

abbrev pub next_update_in : Time
next_update_in = 48 * hour

abbrev pub max_next_update : Time
max_next_update = 7 * 24 * hour

abbrev pub has_ref : Option DocRef → Bool
has_ref none = false
has_ref (some r) = true

abbrev pub iff : Bool → Bool → Bool
iff true b = b
iff false b = not b

-- One round of the loop over the entries, and the loop; `seen` holds the ids so far.
unfoldable pub check_entry : List Bytes → StatusEntry → Bool
check_entry seen e =
    not (member e.attestation_id seen)
    && one_of e.state (active ∷ superseded ∷ revoked ∷ expired ∷ [])
    && iff (bytes_eq e.state revoked) (has_ref e.revocation)
    && iff (bytes_eq e.state superseded) (not (is_none e.superseded_by))

unfoldable pub check_entries : List Bytes → List StatusEntry → Bool
check_entries seen [] = true
check_entries seen (e ∷ es) = check_entry seen e && check_entries (e.attestation_id ∷ seen) es

-- Whether a list belongs to a manifest.
abbrev pub belongs : AuditorManifest → StatusList → Bool
belongs m l =
    l.status_version == 1
    && bytes_eq l.auditor m.component_id
    && bytes_eq l.auditor_key m.operator
    && bytes_eq l.status_key m.status_key

-- What ParseStatus asks of a list before it looks at the retained epoch; the result is the time of
-- the next update.
unfoldable pub check_status : Crypto → Bytes → AuditorManifest → Time → StatusList → Result Time
check_status c raw m now l = do
  require (belongs m l) status_list_invalid
  wrap status_list_invalid (verify c raw (codes "signature") m.status_key)
  issued ← wrap status_list_invalid (parse_time l.issued_at)
  next ← wrap status_list_invalid (parse_time l.next_update)
  require (after next issued && leb (next - issued) max_next_update) status_list_invalid
  require (not (after issued (now + skew))) status_list_invalid
  require (check_entries [] l.entries) status_list_invalid
  ok next

-- The two returned values of ParseStatus: no list and an error, or a list that is fresh or stale.
pub data StatusOutcome : Type 0 where
  rejected : Error → StatusOutcome
  fresh : StatusList → StatusOutcome
  stale : StatusList → StatusOutcome

-- The retained epoch is `none` where the caller keeps no state.
abbrev pub rolled_back : Option ℕ → ℕ → Bool
rolled_back none epoch = false
rolled_back (some last) epoch = ltb epoch last

abbrev pub retained : Option ℕ → ℕ → Option ℕ
retained none epoch = none
retained (some last) epoch = some epoch

abbrev pub judged : Option ℕ → Time → StatusList → Time → StatusOutcome × Option ℕ
judged st now l next =
    if rolled_back st l.status_epoch
    then (rejected status_rollback, st)
    else ((if after now (next + skew) then stale l else fresh l), retained st l.status_epoch)

abbrev pub with_list : Option ℕ → Time → Result (StatusList × Time) → StatusOutcome × Option ℕ
with_list st now (err e) = (rejected e, st)
with_list st now (ok (l, next)) = judged st now l next

-- The list and the time of its next update.
unfoldable pub read_status : Crypto → Bytes → AuditorManifest → Time → Result (StatusList × Time)
read_status c raw m now = do
  l ← wrap status_list_invalid (decode_strict status_shape decode_status raw)
  next ← check_status c raw m now l
  ok (l, next)

-- ParseStatus, with the retained epoch before and after it.
unfoldable pub parse_status :
    Crypto → Bytes → AuditorManifest → Option ℕ → Time → StatusOutcome × Option ℕ
parse_status c raw m st now = with_list st now (read_status c raw m now)

-- (*StatusList).Entry
unfoldable pub find_entry : Bytes → List StatusEntry → Option StatusEntry
find_entry id [] = none
find_entry id (e ∷ es) = if bytes_eq e.attestation_id id then some e else find_entry id es
