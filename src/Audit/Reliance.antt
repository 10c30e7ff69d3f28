-- ===== src/Audit/Reliance.antt =====
-- audit/verify.go: when Verify allows high-stakes reliance.
use onym_audit.Prelude.{
  ℕ, ◌≡◌, refl, Bool, true, false, ◌&&◌, not, [], List, Bytes, bytes_eq, if◌then◌else◌, Option,
  none, some, Error, Result, ok, err, arith, ◌↔◌, &&-cases,
}
use onym_audit.Sig.Sign.{Crypto, digest}
use onym_audit.Audit.Strict.{member}
use onym_audit.Audit.Manifest.{AuditorManifest, parse_manifest}
use onym_audit.Audit.Attestation.{Attestation, parse_attestation}
use onym_audit.Audit.Status.{
  StatusList, StatusEntry, StatusOutcome, rejected, fresh, stale, parse_status, find_entry, revoked,
  superseded, expired,
}
use onym_audit.Audit.Decision.{Input, Trust, Note, Decision, Render, show_attested, matches}
use onym_audit.Audit.Verify.{
  Progress, done, going, entry_step, status_step, is_over, trust_step, finish, with_status,
  revocation_reason, after_revocation, with_attestation, with_manifest, judge, verify,
}

-- An entry that confirms the attestation bytes `raw`.
pub record IsConfirming (c : Crypto) (raw : Bytes) (e : StatusEntry) : Type 0 where
  pub not_revoked : bytes_eq e.state revoked ≡ false
  pub not_superseded : bytes_eq e.state superseded ≡ false
  pub not_expired : bytes_eq e.state expired ≡ false
  pub same_bytes : bytes_eq e.attestation.digest (digest c raw) ≡ true

trust_step-high :
    (t : Trust) (m : AuditorManifest) (k : Bool) (e : Option Error) (n : List Note) (r : Render)
    → (trust_step t m k e n r).high_stakes_ok ≡ true
    → (k ≡ true) × (member m.operator t.credited ≡ true)
unfolding trust_step
trust_step-high t m k e n r h = ground arith

finish-high :
    (inp : Input) (m : AuditorManifest) (a : Attestation) (k : Bool) (e : Option Error)
    (n : List Note) (r : Render)
    → (finish inp m a (going k e n r)).high_stakes_ok ≡ true
    → (k ≡ true)
      × (member m.operator inp.trust.credited ≡ true)
      × (is_over inp.now a.expires_at ≡ false)
unfolding finish
finish-high inp m a k e n r h = ground (arith, trust_step-high inp.trust m k e n r)

module _ (inp : Input) (m : AuditorManifest) (a : Attestation) where
  if_done-high :
      (b : Bool) (d : Decision) (p : Progress)
      → d.high_stakes_ok ≡ false
      → (finish inp m a (if b then done d else p)).high_stakes_ok ≡ true
      → (b ≡ false) × ((finish inp m a p).high_stakes_ok ≡ true)
  unfolding finish
  if_done-high true d p n h = cc
  if_done-high false d p n h = (refl, h)

  if_going-high :
      (b : Bool) (e : Option Error) (n : List Note) (r : Render) (p : Progress)
      → (finish inp m a (if not b then going false e n r else p)).high_stakes_ok ≡ true
      → (b ≡ true) × ((finish inp m a p).high_stakes_ok ≡ true)
  if_going-high true e n r p h = (refl, h)
  if_going-high false e n r p h = ground (arith, finish-high inp m a false e n r h)

-- The entry that a confirmed attestation has, and that the list is fresh.
entry_step-high :
    (c : Crypto) (inp : Input) (m : AuditorManifest) (a : Attestation) (r : Render) (k : Bool)
    (e : Option Error) (n : List Note) (found : Option StatusEntry)
    → (finish inp m a (entry_step c inp m a r k e n found)).high_stakes_ok ≡ true
    → (k ≡ true)
      × (member m.operator inp.trust.credited ≡ true)
      × (is_over inp.now a.expires_at ≡ false)
      × (entry : StatusEntry) × (found ≡ some entry)
      × IsConfirming c inp.attestation entry
unfolding entry_step
entry_step-high c inp m a r k e n none h = ground (arith, finish-high inp m a false e _ r h)
entry_step-high c inp m a r k e n (some entry) h =
    let (n1, h1) = if_done-high inp m a (bytes_eq entry.state revoked) _ _ refl h in
    let (n2, h2) = if_done-high inp m a (bytes_eq entry.state superseded) _ _ refl h1 in
    let (n3, h3) = if_done-high inp m a (bytes_eq entry.state expired) _ _ refl h2 in
    let (n4, h4) =
      if_going-high inp m a (bytes_eq entry.attestation.digest (digest c inp.attestation)) _ _ _ _
        h3 in
    let (k1, k2, k3) = finish-high inp m a k e _ _ h4 in
    (
      k1,
      k2,
      k3,
      entry,
      refl,
      record { not_revoked = n1; not_superseded = n2; not_expired = n3; same_bytes = n4 },
    )

-- What stands behind an allowed reliance: the manifest, the attestation, the fresh list and its entry.
pub record IsRelied (c : Crypto) (inp : Input) (m : AuditorManifest) (a : Attestation)
    (l : StatusList) (e : StatusEntry) : Type 0 where
  pub manifest_read : parse_manifest c inp.manifest inp.now ≡ ok m
  pub attestation_read : parse_attestation c inp.attestation ≡ ok a
  pub same_key : bytes_eq a.auditor_key m.operator ≡ true
  pub same_auditor : bytes_eq a.auditor m.component_id ≡ true
  pub exact_target : matches a.artifact inp.target ≡ true
  pub unrevoked : revocation_reason c m a inp.revocation ≡ none
  pub raw_status : Bytes
  pub status_given : inp.status ≡ some raw_status
  pub status_fresh : (parse_status c raw_status m inp.state inp.now).0 ≡ fresh l
  pub covered : find_entry a.attestation_id l.entries ≡ some e
  pub confirmed : IsConfirming c inp.attestation e
  pub not_over : is_over inp.now a.expires_at ≡ false
  pub credited : member m.operator inp.trust.credited ≡ true

abbrev pub Relied : Crypto → Input → Type 0
Relied c inp =
    (m : AuditorManifest) × (a : Attestation) × (l : StatusList) × (e : StatusEntry) × IsRelied c
      inp m a l e

status_step-high :
    (c : Crypto) (inp : Input) (m : AuditorManifest) (a : Attestation) (r : Render)
    (o : StatusOutcome)
    → (finish inp m a (status_step c inp m a r o)).high_stakes_ok ≡ true
    → (l : StatusList) × (o ≡ fresh l)
      × (member m.operator inp.trust.credited ≡ true)
      × (is_over inp.now a.expires_at ≡ false)
      × (entry : StatusEntry) × (find_entry a.attestation_id l.entries ≡ some entry)
      × IsConfirming c inp.attestation entry
unfolding status_step
status_step-high c inp m a r (rejected e) h = ground (arith, finish-high inp m a false _ _ r h)
status_step-high c inp m a r (fresh l) h =
    let (_, i, j, entry, p, q) = entry_step-high c inp m a r true none [] _ h in
    (l, refl, i, j, entry, p, q)
status_step-high c inp m a r (stale l) h =
    let (k, _, _, _, _, _) = entry_step-high c inp m a r false _ _ _ h in cc

if_pair-high :
    (b : Bool) (d : Decision) (st : Option ℕ) (q : Decision × Option ℕ)
    → d.high_stakes_ok ≡ false
    → (if not b then (d, st) else q).0.high_stakes_ok ≡ true
    → (b ≡ true) × (q.0.high_stakes_ok ≡ true)
if_pair-high true d st q n h = (refl, h)
if_pair-high false d st q n h = cc

module _ (c : Crypto) (inp : Input) (m : AuditorManifest) (a : Attestation) where
  abbrev Confirmed : Option Bytes → Type 0
  Confirmed given =
      (raw : Bytes) × (given ≡ some raw)
      × (l : StatusList) × ((parse_status c raw m inp.state inp.now).0 ≡ fresh l)
      × (member m.operator inp.trust.credited ≡ true)
      × (is_over inp.now a.expires_at ≡ false)
      × (e : StatusEntry) × (find_entry a.attestation_id l.entries ≡ some e)
      × IsConfirming c inp.attestation e

  with_status-high :
      (given : Option Bytes)
      → (with_status c inp m a given).0.high_stakes_ok ≡ true
      → Confirmed given
  unfolding with_status
  with_status-high none h = ground (arith, finish-high inp m a false _ _ _ h)
  with_status-high (some raw) h =
      let (l, o, i, j, e, p, q) =
        status_step-high c inp m a _ (parse_status c raw m inp.state inp.now).0 h in
      (raw, refl, l, o, i, j, e, p, q)

  after_revocation-high :
      (reason : Option Bytes)
      → (after_revocation c inp m a reason).0.high_stakes_ok ≡ true
      → (reason ≡ none) × ((with_status c inp m a inp.status).0.high_stakes_ok ≡ true)
  after_revocation-high none h = (refl, h)
  after_revocation-high (some reason) h = cc

  judge-high :
      parse_manifest c inp.manifest inp.now ≡ ok m
      → parse_attestation c inp.attestation ≡ ok a
      → (judge c inp m a).0.high_stakes_ok ≡ true
      → (l : StatusList) × (e : StatusEntry) × IsRelied c inp m a l e
  unfolding judge
  judge-high hm ha h =
      let (b1, h1) =
        if_pair-high (bytes_eq a.auditor_key m.operator && bytes_eq a.auditor m.component_id) _ _ _
          refl h in
      let (b2, h2) = if_pair-high (matches a.artifact inp.target) _ _ _ refl h1 in
      let (b3, h3) = after_revocation-high (revocation_reason c m a inp.revocation) h2 in
      let (raw, given, l, o, i, j, e, p, q) = with_status-high inp.status h3 in
      let (k1, k2) = &&-cases (bytes_eq a.auditor_key m.operator) _ b1 in
      (
        l,
        e,
        record {
          manifest_read = hm;
          attestation_read = ha;
          same_key = k1;
          same_auditor = k2;
          exact_target = b2;
          unrevoked = b3;
          raw_status = raw;
          status_given = given;
          status_fresh = o;
          covered = p;
          confirmed = q;
          not_over = j;
          credited = i;
        },
      )

with_attestation-high :
    (c : Crypto) (inp : Input) (m : AuditorManifest) (r : Result Attestation)
    → (with_attestation c inp m r).0.high_stakes_ok ≡ true
    → (a : Attestation) × (r ≡ ok a) × ((judge c inp m a).0.high_stakes_ok ≡ true)
with_attestation-high c inp m (ok a) h = (a, refl, h)
with_attestation-high c inp m (err e) h = cc

with_manifest-high :
    (c : Crypto) (inp : Input) (r : Result AuditorManifest)
    → (with_manifest c inp r).0.high_stakes_ok ≡ true
    → (m : AuditorManifest) × (r ≡ ok m)
      × ((with_attestation c inp m (parse_attestation c inp.attestation)).0.high_stakes_ok ≡ true)
with_manifest-high c inp (ok m) h = (m, refl, h)
with_manifest-high c inp (err e) h = cc

verify-high : (c : Crypto) (inp : Input) → (verify c inp).0.high_stakes_ok ≡ true → Relied c inp
unfolding verify
verify-high c inp h =
    let (m, hm, h1) = with_manifest-high c inp (parse_manifest c inp.manifest inp.now) h in
    let (a, ha, h2) = with_attestation-high c inp m (parse_attestation c inp.attestation) h1 in
    let (l, e, relied) = judge-high c inp m a hm ha h2 in (m, a, l, e, relied)

Relied-verify :
    (c : Crypto) (inp : Input)
    → Relied c inp
    → ((verify c inp).0.high_stakes_ok ≡ true) × ((verify c inp).0.display ≡ show_attested)
unfolding verify judge with_status status_step entry_step finish trust_step
Relied-verify c inp (m, a, l, e, h) =
    rw
      (
        h.manifest_read, h.attestation_read, h.same_key, h.same_auditor, h.exact_target,
        h.unrevoked, h.status_given, h.status_fresh, h.covered, h.confirmed.not_revoked,
        h.confirmed.not_superseded, h.confirmed.not_expired, h.confirmed.same_bytes, h.not_over,
        h.credited,
      )
      (refl, refl)

-- Verify allows high-stakes reliance exactly when: the manifest and the attestation parse at the
-- client's time, the attestation is by the manifest's operator and component, its artifact equals
-- the target, no given revocation applies to it, a status list is given, ParseStatus accepts it as
-- fresh, its entry for the attestation id is neither revoked, superseded nor expired and pins the
-- given attestation bytes, the attestation's own expiry has not passed, and the user credits the operator.
pub verify-high_stakes :
    (c : Crypto) (inp : Input) → ((verify c inp).0.high_stakes_ok ≡ true) ↔ Relied c inp
verify-high_stakes c inp = (verify-high c inp, λ r. (Relied-verify c inp r).0)
