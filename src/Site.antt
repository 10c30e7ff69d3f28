-- ===== src/Site.antt =====
-- site/site.go: an auditor's published tree, and the status list made from it.
pub mod Resign
pub mod Limit
pub mod Tests
use onym_audit.Prelude.{
  ℕ, max, ◌+◌, Bool, true, false, ◌&&◌, not, [], ◌∷◌, ◌++◌, List, is_nil, Bytes, codes, bytes_eq,
  if◌then◌else◌, Option, none, some, Result, ok, err, plain, ◌>>=◌, ◌>>◌, require, wrap,
}
use onym_audit.Canon.Value.{Value, str, get}
use onym_audit.Canon.Decode.{parse}
use onym_audit.Sig.Sign.{Crypto, digest, text_of}
use onym_audit.Sig.Time.{Time, parse_time, or_zero_time, zero_time}
use onym_audit.Files.{Files, read_file, write_atomic, glob_json, json}
use onym_audit.Loose.{text_in, int64_in}
use onym_audit.Loose.Scan.{unmarshal}
use onym_audit.Audit.Terms.{DocRef}
use onym_audit.Audit.Manifest.{AuditorManifest, parse_manifest}
use onym_audit.Audit.Attestation.{Attestation, parse_attestation}
use onym_audit.Audit.Replies.{Revocation, parse_revocation, parse_response}
use onym_audit.Audit.Build.{Published, build_status}

abbrev pub manifest_path : Bytes
manifest_path = codes "manifest.json"

abbrev pub status_path : Bytes
status_path = codes "status.json"

abbrev pub attestations : Bytes
attestations = codes "attestations/"

abbrev pub revocations : Bytes
revocations = codes "revocations/"

abbrev pub responses : Bytes
responses = codes "responses/"

abbrev pub sig_suffix : Bytes
sig_suffix = codes ".sig"

abbrev or_fail : Option Bytes → Result Bytes
or_fail none = err plain
or_fail (some b) = ok b

-- os.ReadFile, as a result
abbrev pub load : Bytes → Files → Result Bytes
load p fs = or_fail (read_file p fs)

-- The signature that is detached: a text that is not empty, in whatever JSON.
unfoldable pub detached : Bytes → Result Bytes
detached raw = do
  obj ← unmarshal raw
  s ← text_in "signature" obj
  require (not (is_nil s)) plain
  ok s

-- WriteSigned
unfoldable pub write_signed : Bytes → Bytes → Files → Result Files
write_signed p raw fs = do
  s ← detached raw
  ok (write_atomic (p ++ sig_suffix) (s ++ b'\n' ∷ []) (write_atomic p raw fs))

-- What Collect takes from an attestation's revocation: its reference, the time it takes effect from
-- and its epoch.
abbrev Withdrawal : Type 0
Withdrawal = Option DocRef × Time × ℕ

unfoldable pub withdrawal :
    Crypto → Bytes → AuditorManifest → Bytes → Option Bytes → Result Withdrawal
withdrawal c base m id none = ok (none, zero_time, 0)
withdrawal c base m id (some rraw) = do
  rv ← wrap plain (parse_revocation c rraw)
  require (bytes_eq rv.attestation_id id && bytes_eq rv.auditor_key m.operator) plain
  ok (
    some (record { uri = base ++ revocations ++ id ++ json; digest = digest c rraw }),
    or_zero_time (parse_time rv.effective_from),
    rv.status_epoch,
  )

-- The references of the subject's responses, of these names.
unfoldable pub replies :
    Crypto → Bytes → Files → Attestation → Bytes → List Bytes → Result (List DocRef)
replies c base fs a att_digest [] = ok []
replies c base fs a att_digest (n ∷ ns) = do
  let path = responses ++ a.attestation_id ++ b'/' ∷ n
  rraw ← load path fs
  _ ← parse_response c rraw a att_digest
  rest ← replies c base fs a att_digest ns
  ok (record { uri = base ++ path; digest = digest c rraw } ∷ rest)

-- One round of the loop of Collect, for a file of attestations/, and the revocation's epoch.
unfoldable pub collect_one :
    Crypto → Bytes → AuditorManifest → Files → Bytes → Result (Published × ℕ)
collect_one c base m fs n = do
  raw ← load (attestations ++ n) fs
  a ← parse_attestation c raw
  require (bytes_eq a.auditor_key m.operator && bytes_eq a.auditor m.component_id) plain
  require (bytes_eq n (a.attestation_id ++ json)) plain
  (r, from, epoch) ←
      withdrawal c base m a.attestation_id (read_file (revocations ++ a.attestation_id ++ json) fs)
  rs ←
      replies c base fs a (digest c raw) (glob_json (responses ++ a.attestation_id ++ b'/' ∷ []) fs)
  ok (
    record {
      attestation = a;
      ref = record { uri = base ++ attestations ++ n; digest = digest c raw };
      revocation = r;
      revoked_from = from;
      responses = rs;
    },
    epoch,
  )

unfoldable pub collect_names :
    Crypto → Bytes → AuditorManifest → Files → List Bytes → Result (List Published × ℕ)
collect_names c base m fs [] = ok ([], 0)
collect_names c base m fs (n ∷ ns) = do
  (p, e) ← collect_one c base m fs n
  (ps, es) ← collect_names c base m fs ns
  ok (p ∷ ps, max e es)

-- Collect
unfoldable pub collect : Crypto → Bytes → AuditorManifest → Files → Result (List Published × ℕ)
collect c base m fs = collect_names c base m fs (glob_json attestations fs)

abbrev or_zero : Result ℕ → ℕ
or_zero (err e) = 0
or_zero (ok n) = n

abbrev epoch_of_file : Option Bytes → ℕ
epoch_of_file none = 0
epoch_of_file (some raw) = or_zero (unmarshal raw >>= λ obj. int64_in "statusEpoch" obj)

-- The epoch of the status list that is in the tree, and 0 where there is none that can be read, or
-- where it is negative.
unfoldable pub published_epoch : Files → ℕ
published_epoch fs = epoch_of_file (read_file status_path fs)

-- ResignStatus
unfoldable pub resign_status : Crypto → Bytes → Files → Bytes → Time → Result Files
resign_status c base fs priv now = do
  raw ← load manifest_path fs
  m ← parse_manifest c raw now
  (pubs, least) ← collect c base m fs
  st ← build_status c m pubs now (max least (published_epoch fs)) priv
  write_signed status_path st fs
