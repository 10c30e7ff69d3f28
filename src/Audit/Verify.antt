-- ===== src/Audit/Verify.antt =====
-- audit/verify.go: the procedure of the relying client. Its steps stand in the order of the code;
-- the value beside the decision is the epoch that the client retains from then on.
use onym_audit.Prelude.{
  ℕ, ◌+◌, Bool, true, false, ◌&&◌, not, [], ◌∷◌, ◌++◌, List, Bytes, bytes_eq, if◌then◌else◌, Option,
  none, some, Error, Result, ok, err, artifact_mismatch, attestation_expired, attestation_revoked,
  attestation_superseded, status_unavailable, issuer_untrusted, attestation_invalid,
  status_list_invalid,
}
use onym_audit.Sig.Sign.{Crypto, digest}
use onym_audit.Sig.Time.{or_zero_time, Time, parse_time, after}
use onym_audit.Audit.Strict.{member}
use onym_audit.Audit.Terms.{DocRef}
use onym_audit.Audit.Manifest.{AuditorManifest, parse_manifest, skew}
use onym_audit.Audit.Attestation.{Attestation, parse_attestation}
use onym_audit.Audit.Replies.{Revocation, SubjectResponse, parse_revocation, parse_response}
use onym_audit.Audit.Status.{
  StatusEntry, StatusOutcome, rejected, fresh, stale, parse_status, find_entry, revoked, superseded,
  expired,
}
use onym_audit.Audit.Decision.{
  Input, Trust, Display, Note, Decision, Render, show_attested, show_uncredited, show_none,
  show_revoked, show_superseded, show_expired, show_status_unknown, error_text, other_operator,
  another_revision, no_status_list, not_covered, other_bytes, omitted, not_fetched,
  response_invalid, successor, code, bare, final, matches, render, revoked_render, or_blank,
}

-- After the status step the procedure has ended, or it goes on with whether the attestation is
-- confirmed, the error, the notes and what to render.
pub data Progress : Type 0 where
  done : Decision → Progress
  going : Bool → Option Error → List Note → Render → Progress

unfoldable pub lookup : Bytes → List (Bytes × Bytes) → Option Bytes
lookup k [] = none
lookup k ((k', v) ∷ m) = if bytes_eq k k' then some v else lookup k m

module _ (c : Crypto) (raw : Bytes) (a : Attestation) where
  -- One reference to a response: its text, or a note.
  read_response : DocRef → Option Bytes → Result SubjectResponse → List Bytes × List Note
  read_response ref none parsed = ([], not_fetched ref.uri ∷ [])
  read_response ref (some body) (err e) =
      if bytes_eq (digest c body) ref.digest
      then ([], response_invalid e ∷ [])
      else ([], not_fetched ref.uri ∷ [])
  read_response ref (some body) (ok resp) =
      if bytes_eq (digest c body) ref.digest
      then (resp.text ∷ [], [])
      else ([], not_fetched ref.uri ∷ [])

  -- The loop over the references.
  unfoldable pub read_responses : List (Bytes × Bytes) → List DocRef → List Bytes × List Note
  unfolding read_response
  read_responses fetched [] = ([], [])
  read_responses fetched (ref ∷ refs) =
      let found = lookup ref.digest fetched in
      let (texts, notes) =
        read_response ref found (parse_response c (or_blank found) a (digest c raw)) in
      let (texts', notes') = read_responses fetched refs in (texts ++ texts', notes ++ notes')

-- The switch on the entry of a parsed list; a superseded entry of an accepted list names its
-- successor.
unfoldable pub entry_step :
    Crypto
    → Input
    → AuditorManifest
    → Attestation
    → Render
    → Bool
    → Option Error
    → List Note
    → Option StatusEntry
    → Progress
entry_step c inp m a r confirmed e notes none = going false e (notes ++ not_covered ∷ []) r
entry_step c inp m a r confirmed e notes (some entry) =
    let (texts, more) = read_responses c inp.attestation a inp.responses entry.responses in
    let next = or_blank entry.superseded_by in
    if bytes_eq entry.state revoked
    then done (final show_revoked attestation_revoked [] (revoked_render c m revoked))
    else if bytes_eq entry.state superseded
    then done (
        final show_superseded attestation_superseded (successor next ∷ [])
          (record r { superseded_by = next }))
    else if bytes_eq entry.state expired
    then done (final show_expired attestation_expired [] r)
    else if not (bytes_eq entry.attestation.digest (digest c inp.attestation))
    then going false (some status_list_invalid) (notes ++ other_bytes ∷ []) r
    else going confirmed e (notes ++ more) (record r { responses = r.responses ++ texts })

-- The status list, as ParseStatus has judged it.
unfoldable pub status_step :
    Crypto → Input → AuditorManifest → Attestation → Render → StatusOutcome → Progress
status_step c inp m a r (rejected e) = going false (some (code e)) (error_text e ∷ []) r
status_step c inp m a r (fresh l) =
    entry_step c inp m a r true none [] (find_entry a.attestation_id l.entries)
status_step c inp m a r (stale l) =
    entry_step c inp m a r false (some status_unavailable) (error_text status_unavailable ∷ [])
      (find_entry a.attestation_id l.entries)

unfoldable pub is_over : Time → Option Bytes → Bool
is_over now none = false
is_over now (some t) = after now (or_zero_time (parse_time t) + skew)

abbrev degraded : Bool → Display
degraded true = show_attested
degraded false = show_status_unknown

abbrev uncredited : Display → Display
uncredited show_attested = show_uncredited
uncredited shown = shown

abbrev or_untrusted : Option Error → Option Error
or_untrusted none = some issuer_untrusted
or_untrusted (some e) = some e

-- The issuer policy: the decision for an operator that the user credits, and for another one.
abbrev pub credited_decision : Bool → Option Error → List Note → Render → Decision
credited_decision confirmed e notes r = record {
  display = degraded confirmed;
  error = e;
  notes = notes;
  high_stakes_ok = confirmed;
  render = some (record r { credited = true });
}

abbrev pub uncredited_decision : Bool → Option Error → List Note → Render → Decision
uncredited_decision confirmed e notes r = record {
  display = uncredited (degraded confirmed);
  error = or_untrusted e;
  notes = notes;
  high_stakes_ok = false;
  render = some (record r { credited = false });
}

unfoldable pub trust_step :
    Trust → AuditorManifest → Bool → Option Error → List Note → Render → Decision
trust_step trust m confirmed e notes r =
    if member m.operator trust.credited
    then credited_decision confirmed e notes r
    else if trust.omit_uncredited
    then bare show_none (some issuer_untrusted) (omitted ∷ [])
    else uncredited_decision confirmed e notes r

-- From the local expiry on.
unfoldable pub finish : Input → AuditorManifest → Attestation → Progress → Decision
finish inp m a (done d) = d
finish inp m a (going confirmed e notes r) =
    if is_over inp.now a.expires_at
    then final show_expired attestation_expired [] r
    else trust_step inp.trust m confirmed e notes r

-- The status list, and the retained epoch after it.
unfoldable pub with_status :
    Crypto → Input → AuditorManifest → Attestation → Option Bytes → Decision × Option ℕ
with_status c inp m a none = (
  finish inp m a (going false (some status_unavailable) (no_status_list ∷ []) (render c a m)),
  inp.state,
)
with_status c inp m a (some list) =
    let (outcome, st) = parse_status c list m inp.state inp.now in
    (finish inp m a (status_step c inp m a (render c a m) outcome), st)

-- Whether a fetched revocation is of this attestation and this auditor.
abbrev pub reason_of : AuditorManifest → Attestation → Result Revocation → Option Bytes
reason_of m a (err e) = none
reason_of m a (ok rv) =
    if bytes_eq rv.attestation_id a.attestation_id && bytes_eq rv.auditor_key m.operator
    then some rv.reason
    else none

unfoldable pub revocation_reason :
    Crypto → AuditorManifest → Attestation → Option Bytes → Option Bytes
revocation_reason c m a none = none
revocation_reason c m a (some rev) = reason_of m a (parse_revocation c rev)

abbrev pub after_revocation :
    Crypto → Input → AuditorManifest → Attestation → Option Bytes → Decision × Option ℕ
after_revocation c inp m a (some reason) =
    (final show_revoked attestation_revoked [] (revoked_render c m reason), inp.state)
after_revocation c inp m a none = with_status c inp m a inp.status

-- From the comparison of the two documents on.
unfoldable pub judge : Crypto → Input → AuditorManifest → Attestation → Decision × Option ℕ
judge c inp m a =
    if not (bytes_eq a.auditor_key m.operator && bytes_eq a.auditor m.component_id)
    then (bare show_none (some attestation_invalid) (other_operator ∷ []), inp.state)
    else if not (matches a.artifact inp.target)
    then (
      bare show_none (some artifact_mismatch)
          (if bytes_eq a.artifact.source inp.target.source then another_revision ∷ [] else []),
      inp.state,
    )
    else after_revocation c inp m a (revocation_reason c m a inp.revocation)

-- A document that does not parse.
abbrev unreadable : Input → Error → Decision × Option ℕ
unreadable inp e = (bare show_none (some (code e)) (error_text e ∷ []), inp.state)

abbrev pub with_attestation :
    Crypto → Input → AuditorManifest → Result Attestation → Decision × Option ℕ
with_attestation c inp m (err e) = unreadable inp e
with_attestation c inp m (ok a) = judge c inp m a

abbrev pub with_manifest : Crypto → Input → Result AuditorManifest → Decision × Option ℕ
with_manifest c inp (err e) = unreadable inp e
with_manifest c inp (ok m) = with_attestation c inp m (parse_attestation c inp.attestation)

-- Verify, with the epoch that the client retains after it.
unfoldable pub verify : Crypto → Input → Decision × Option ℕ
verify c inp = with_manifest c inp (parse_manifest c inp.manifest inp.now)
