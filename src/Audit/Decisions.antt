-- ===== src/Audit/Decisions.antt =====
-- audit/verify.go: what holds of every decision of Verify.
use onym_audit.Prelude.{
  ◌≡◌, ◌≢◌, refl, Bool, true, false, not, List, Bytes, bytes_eq, if◌then◌else◌, Option, none, some,
  Error, Result, ok, err, ◌↔◌, ◌&&◌, Bool-cases, inl, inr,
}
use onym_audit.Sig.Sign.{Crypto, digest}
use onym_audit.Audit.Strict.{member}
use onym_audit.Audit.Manifest.{AuditorManifest}
use onym_audit.Audit.Attestation.{Attestation}
use onym_audit.Audit.Status.{
  StatusEntry, StatusOutcome, rejected, fresh, stale, revoked, superseded, expired,
}
use onym_audit.Audit.Decision.{
  Input, Display, Note, Decision, Render, show_attested, show_none, show_expired, show_revoked,
  show_superseded, matches, bare, final,
}
use onym_audit.Audit.Verify.{
  Progress, done, going, entry_step, status_step, is_over, trust_step, credited_decision,
  uncredited_decision, finish, with_status, after_revocation, with_attestation, with_manifest,
  judge, verify,
}

-- A decision that a client can act on: it shows the attestation as attested exactly when it allows
-- high-stakes reliance, an allowed reliance carries no error, and whatever shows something has it to
-- render.
pub record IsCoherent (d : Decision) : Type 0 where
  pub attested : (d.display ≡ show_attested) ↔ (d.high_stakes_ok ≡ true)
  pub no_error : d.high_stakes_ok ≡ true → d.error ≡ none
  pub rendered : d.display ≢ show_none → (r : Render) × (d.render ≡ some r)

IsCoherent-bare : (e : Option Error) (n : List Note) → IsCoherent (bare show_none e n)
IsCoherent-bare e n = record {
  attested = (λ p. cc, λ p. cc);
  no_error = λ p. cc;
  rendered = λ p. absurd (p refl);
}

IsCoherent-final :
    (shown : Display) (e : Error) (n : List Note) (r : Render)
    → shown ≢ show_attested
    → IsCoherent (final shown e n r)
IsCoherent-final shown e n r h = record {
  attested = (λ p. absurd (h p), λ p. cc);
  no_error = λ p. cc;
  rendered = λ p. (r, refl);
}

IsCoherent-if :
    (b : Bool) (x y : Decision) → IsCoherent x → IsCoherent y → IsCoherent (if b then x else y)
IsCoherent-if true x y hx hy = hx
IsCoherent-if false x y hx hy = hy

credited-IsCoherent :
    (k : Bool) (e : Option Error) (n : List Note) (r : Render)
    → (k ≡ true → e ≡ none)
    → IsCoherent (credited_decision k e n r)
credited-IsCoherent true e n r h = record {
  attested = (λ p. refl, λ p. refl);
  no_error = λ p. h refl;
  rendered = λ p. (_, refl);
}
credited-IsCoherent false e n r h = record {
  attested = (λ p. cc, λ p. cc);
  no_error = λ p. cc;
  rendered = λ p. (_, refl);
}

uncredited-IsCoherent :
    (k : Bool) (e : Option Error) (n : List Note) (r : Render)
    → IsCoherent (uncredited_decision k e n r)
uncredited-IsCoherent true e n r = record {
  attested = (λ p. cc, λ p. cc);
  no_error = λ p. cc;
  rendered = λ p. (_, refl);
}
uncredited-IsCoherent false e n r = record {
  attested = (λ p. cc, λ p. cc);
  no_error = λ p. cc;
  rendered = λ p. (_, refl);
}

-- A state of the procedure after the status step from which only coherent decisions follow.
abbrev IsOnTrack : Progress → Type 0
IsOnTrack (done d) = IsCoherent d
IsOnTrack (going k e n r) = k ≡ true → e ≡ none

IsOnTrack-if :
    (b : Bool) (x y : Progress) → IsOnTrack x → IsOnTrack y → IsOnTrack (if b then x else y)
IsOnTrack-if true x y hx hy = hx
IsOnTrack-if false x y hx hy = hy

module _ (c : Crypto) (inp : Input) (m : AuditorManifest) (a : Attestation) where
  finish-IsCoherent : (p : Progress) → IsOnTrack p → IsCoherent (finish inp m a p)
  unfolding finish trust_step
  finish-IsCoherent (done d) h = h
  finish-IsCoherent (going k e n r) h =
      IsCoherent-if (is_over inp.now a.expires_at) _ _ (IsCoherent-final show_expired _ _ _ λ p. cc)
        (IsCoherent-if (member m.operator inp.trust.credited) _ _ (credited-IsCoherent k e n r h) (
          IsCoherent-if inp.trust.omit_uncredited _ _ (IsCoherent-bare _ _)
            (uncredited-IsCoherent k e n r)))

  entry_step-IsOnTrack :
      (r : Render) (k : Bool) (e : Option Error) (n : List Note) (found : Option StatusEntry)
      → (k ≡ true → e ≡ none)
      → IsOnTrack (entry_step c inp m a r k e n found)
  unfolding entry_step
  entry_step-IsOnTrack r k e n none h = λ p. cc
  entry_step-IsOnTrack r k e n (some entry) h =
      IsOnTrack-if (bytes_eq entry.state revoked) _ _ (IsCoherent-final show_revoked _ _ _ λ p. cc)
        (IsOnTrack-if (bytes_eq entry.state superseded) _ _
          (IsCoherent-final show_superseded _ _ _ λ p. cc)
          (IsOnTrack-if (bytes_eq entry.state expired) _ _
            (IsCoherent-final show_expired _ _ _ λ p. cc)
            (IsOnTrack-if (not (bytes_eq entry.attestation.digest (digest c inp.attestation))) _ _
              (λ p. cc) h)))

  status_step-IsOnTrack : (r : Render) (o : StatusOutcome) → IsOnTrack (status_step c inp m a r o)
  unfolding status_step
  status_step-IsOnTrack r (rejected e) = λ p. cc
  status_step-IsOnTrack r (fresh l) = entry_step-IsOnTrack r true _ _ _ λ p. refl
  status_step-IsOnTrack r (stale l) = entry_step-IsOnTrack r false _ _ _ λ p. cc

  with_status-IsCoherent : (given : Option Bytes) → IsCoherent (with_status c inp m a given).0
  unfolding with_status
  with_status-IsCoherent none = finish-IsCoherent _ λ p. cc
  with_status-IsCoherent (some raw) = finish-IsCoherent _ (status_step-IsOnTrack _ _)

  after_revocation-IsCoherent :
      (reason : Option Bytes) → IsCoherent (after_revocation c inp m a reason).0
  after_revocation-IsCoherent none = with_status-IsCoherent inp.status
  after_revocation-IsCoherent (some reason) = IsCoherent-final show_revoked _ _ _ λ p. cc

  judge-IsCoherent : IsCoherent (judge c inp m a).0
  unfolding judge
  judge-IsCoherent =
      elim (Bool-cases (bytes_eq a.auditor_key m.operator && bytes_eq a.auditor m.component_id)) [
        | inr p ↦ rw p (IsCoherent-bare _ _)
        | inl p ↦ elim (Bool-cases (matches a.artifact inp.target)) [
          | inr q ↦ rw (p, q) (IsCoherent-bare _ _)
          | inl q ↦ rw (p, q) (after_revocation-IsCoherent _)
        ]
      ]

with_attestation-IsCoherent :
    (c : Crypto) (inp : Input) (m : AuditorManifest) (r : Result Attestation)
    → IsCoherent (with_attestation c inp m r).0
with_attestation-IsCoherent c inp m (ok a) = judge-IsCoherent c inp m a
with_attestation-IsCoherent c inp m (err e) = IsCoherent-bare _ _

with_manifest-IsCoherent :
    (c : Crypto) (inp : Input) (r : Result AuditorManifest) → IsCoherent (with_manifest c inp r).0
with_manifest-IsCoherent c inp (ok m) = with_attestation-IsCoherent c inp m _
with_manifest-IsCoherent c inp (err e) = IsCoherent-bare _ _

-- For every input, the decision of Verify shows `attested` exactly when it allows high-stakes
-- reliance, has no error when it allows it, and has something to render unless it shows
-- `no-attestation`.
pub verify-IsCoherent : (c : Crypto) (inp : Input) → IsCoherent (verify c inp).0
unfolding verify
verify-IsCoherent c inp = with_manifest-IsCoherent c inp _
