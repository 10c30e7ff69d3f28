-- ===== src/Audit/Finality.antt =====
-- audit/verify.go: revocations are final, and a relied-on entry is active.
use onym_audit.Prelude.{
  ◌≡◌, ◌≢◌, refl, true, false, Bytes, bytes_eq, bytes_eq→eq, bytes_eq_iff, Option-cases, none, some,
  ok, ◌⊎◌, inl, inr,
}
use onym_audit.Sig.Sign.{Crypto, digest}
use onym_audit.Audit.Manifest.{AuditorManifest, parse_manifest}
use onym_audit.Audit.Attestation.{Attestation, parse_attestation}
use onym_audit.Audit.Status.{
  StatusList, StatusEntry, fresh, stale, parse_status, find_entry, active, revoked, superseded,
  expired,
}
use onym_audit.Audit.Decision.{Input, show_revoked, matches}
use onym_audit.Audit.Verify.{
  entry_step, status_step, finish, with_status, revocation_reason, judge, verify,
}
use onym_audit.Audit.Reliance.{IsRelied, IsConfirming, verify-high_stakes}
use onym_audit.Audit.Entries.{IsEntry, parse_status-IsIndex}

-- Documents that parse, belong together and are of the target.
pub record IsPresented (c : Crypto) (inp : Input) (m : AuditorManifest) (a : Attestation)
    : Type 0 where
  pub manifest_read : parse_manifest c inp.manifest inp.now ≡ ok m
  pub attestation_read : parse_attestation c inp.attestation ≡ ok a
  pub same_key : a.auditor_key ≡ m.operator
  pub same_auditor : a.auditor ≡ m.component_id
  pub exact_target : matches a.artifact inp.target ≡ true

-- The auditor has revoked the attestation: by a revocation that applies to it, or by a revoked
-- entry for its id in a status list that ParseStatus accepts, fresh or stale.
pub data IsRevoked (c : Crypto) (inp : Input) (m : AuditorManifest) (a : Attestation) : Type 0 where
  by_revocation :
      {reason : Bytes} → revocation_reason c m a inp.revocation ≡ some reason → IsRevoked c inp m a
  by_list :
      {raw : Bytes} {l : StatusList} {e : StatusEntry}
      → inp.status ≡ some raw
      → ((parse_status c raw m inp.state inp.now).0 ≡ fresh l)
        ⊎ ((parse_status c raw m inp.state inp.now).0 ≡ stale l)
      → find_entry a.attestation_id l.entries ≡ some e
      → e.state ≡ revoked
      → IsRevoked c inp m a

presented-judge :
    (c : Crypto) (inp : Input) (m : AuditorManifest) (a : Attestation)
    → IsPresented c inp m a
    → verify c inp ≡ judge c inp m a
unfolding verify
presented-judge c inp m a h = rw (h.manifest_read, h.attestation_read) refl

abbrev IsListedRevoked : Crypto → Input → AuditorManifest → Attestation → Type 0
IsListedRevoked c inp m a =
    (raw : Bytes) × (l : StatusList) × (e : StatusEntry) × (inp.status ≡ some raw)
    × (((parse_status c raw m inp.state inp.now).0 ≡ fresh l)
        ⊎ ((parse_status c raw m inp.state inp.now).0 ≡ stale l))
    × (find_entry a.attestation_id l.entries ≡ some e)
    × (e.state ≡ revoked)

listed-revoked :
    (c : Crypto) (inp : Input) (m : AuditorManifest) (a : Attestation)
    → IsListedRevoked c inp m a
    → ((with_status c inp m a inp.status).0.display ≡ show_revoked)
      × ((with_status c inp m a inp.status).0.high_stakes_ok ≡ false)
unfolding with_status status_step entry_step finish
listed-revoked c inp m a (raw, l, e, given, inl o, found, r) =
    rw (given, o, found, (bytes_eq_iff _ _).1 r) (refl, refl)
listed-revoked c inp m a (raw, l, e, given, inr o, found, r) =
    rw (given, o, found, (bytes_eq_iff _ _).1 r) (refl, refl)

unlisted :
    {c : Crypto} {inp : Input} {m : AuditorManifest} {a : Attestation}
    → revocation_reason c m a inp.revocation ≡ none
    → IsRevoked c inp m a
    → IsListedRevoked c inp m a
unlisted p (by_revocation q) = cc
unlisted p (by_list {raw} {l} {e} given o found r) = (raw, l, e, given, o, found, r)

confirming-active :
    (c : Crypto) (raw : Bytes) (e : StatusEntry)
    → IsEntry e
    → IsConfirming c raw e
    → e.state ≡ active
confirming-active c raw e entry k = elim entry.known [
  | inl p ↦ p
  | inr (inl p) ↦ absurd (other superseded p k.not_superseded)
  | inr (inr (inl p)) ↦ absurd (other revoked p k.not_revoked)
  | inr (inr (inr p)) ↦ absurd (other expired p k.not_expired)
]
  where
    other : (s : Bytes) → e.state ≡ s → bytes_eq e.state s ≢ false
    other s p q = cc ((bytes_eq_iff _ _).1 p)

-- Verify shows an attestation as revoked, and allows no high-stakes reliance, whenever the
-- documents parse, belong together and are of the target, and the auditor has revoked it: whatever
-- the other inputs are, the attestation bytes that the entry pins included.
pub verify-revoked :
    (c : Crypto) (inp : Input) (m : AuditorManifest) (a : Attestation)
    → IsPresented c inp m a
    → IsRevoked c inp m a
    → ((verify c inp).0.display ≡ show_revoked) × ((verify c inp).0.high_stakes_ok ≡ false)
unfolding judge
verify-revoked c inp m a h r =
    rw
      (
        presented-judge c inp m a h,
        (bytes_eq_iff _ _).1 h.same_key,
        (bytes_eq_iff _ _).1 h.same_auditor,
        h.exact_target,
      )
      (elim (Option-cases (revocation_reason c m a inp.revocation)) [
        | inl p ↦ rw p (listed-revoked c inp m a (unlisted p r))
        | inr (reason, p) ↦ rw p (refl, refl)
      ])

-- What relies on an entry relies on an active one: where Verify allows high-stakes reliance, the
-- status list that ParseStatus found fresh has an entry for the attestation's id, of state active,
-- that pins the given attestation bytes by their digest.
pub verify-active :
    (c : Crypto) (inp : Input)
    → (verify c inp).0.high_stakes_ok ≡ true
    → (m : AuditorManifest) × (a : Attestation) × (l : StatusList) × (e : StatusEntry) × IsRelied c
        inp m a l e
      × (e.attestation_id ≡ a.attestation_id)
      × (e.state ≡ active)
      × (e.attestation.digest ≡ digest c inp.attestation)
verify-active c inp h =
    let (m, a, l, e, relied) = (verify-high_stakes c inp).0 h in
    let index =
      parse_status-IsIndex c relied.raw_status m inp.state inp.now l (inl relied.status_fresh) in
    let (same_id, entry) = index.found a.attestation_id e relied.covered in
    (
      m,
      a,
      l,
      e,
      relied,
      same_id,
      confirming-active c inp.attestation e entry relied.confirmed,
      bytes_eq→eq _ _ relied.confirmed.same_bytes,
    )
