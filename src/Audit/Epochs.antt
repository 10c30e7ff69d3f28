-- ===== src/Audit/Epochs.antt =====
-- audit/status.go: what an accepted status list promises, and the epochs that a client retains.
use onym_audit.Prelude.{
  ℕ, ◌≡◌, ◌≤◌, Bool, true, false, Bytes, if◌then◌else◌, Option, some, Error, Result, ok, err, arith,
  ◌⊎◌, Bool-cases, inl, inr, ltb, status_rollback,
}
use onym_audit.Sig.Sign.{Crypto}
use onym_audit.Sig.Time.{Time}
use onym_audit.Audit.Manifest.{AuditorManifest}
use onym_audit.Audit.Status.{
  StatusList, StatusOutcome, rejected, fresh, stale, parse_status, judged, with_list,
}

-- What ParseStatus leaves the client with: a rejected list changes nothing, an accepted one is not
-- below the retained epoch, which it replaces.
pub data IsMonotone (before_epoch : ℕ) : StatusOutcome × Option ℕ → Type 0 where
  kept : (e : Error) → IsMonotone before_epoch (rejected e, some before_epoch)
  renewed :
      (l : StatusList)
      → before_epoch ≤ l.status_epoch
      → IsMonotone before_epoch (fresh l, some l.status_epoch)
  renewed_stale :
      (l : StatusList)
      → before_epoch ≤ l.status_epoch
      → IsMonotone before_epoch (stale l, some l.status_epoch)

if_fresh-IsMonotone :
    (n : ℕ) (b : Bool) (l : StatusList)
    → n ≤ l.status_epoch
    → IsMonotone n ((if b then stale l else fresh l), some l.status_epoch)
if_fresh-IsMonotone n true l h = renewed_stale l h
if_fresh-IsMonotone n false l h = renewed l h

judged-IsMonotone :
    (n : ℕ) (now : Time) (l : StatusList) (next : Time) → IsMonotone n (judged (some n) now l next)
judged-IsMonotone n now l next = elim (Bool-cases (ltb l.status_epoch n)) [
  | inl p ↦ rw p (kept status_rollback)
  | inr p ↦ rw p (if_fresh-IsMonotone n _ l (ground arith))
]

with_list-IsMonotone :
    (n : ℕ) (now : Time) (r : Result (StatusList × Time)) → IsMonotone n (with_list (some n) now r)
with_list-IsMonotone n now (ok (l, next)) = judged-IsMonotone n now l next
with_list-IsMonotone n now (err e) = kept e

-- ParseStatus with a retained epoch: either it rejects the list and the epoch stays, or it accepts
-- the list, fresh or stale, whose epoch is at least the retained one and becomes the retained one.
pub parse_status-IsMonotone :
    (c : Crypto) (raw : Bytes) (m : AuditorManifest) (n : ℕ) (now : Time)
    → IsMonotone n (parse_status c raw m (some n) now)
unfolding parse_status
parse_status-IsMonotone c raw m n now = with_list-IsMonotone n now _

-- The refreshes of a client: it hands any bytes at any time to ParseStatus.
pub data Refreshes (c : Crypto) (m : AuditorManifest) : ℕ → ℕ → Type 0 where
  none_yet : {n : ℕ} → Refreshes c m n n
  refresh :
      {n k k' : ℕ} (raw : Bytes) (now : Time)
      → Refreshes c m n k
      → (parse_status c raw m (some k) now).1 ≡ some k'
      → Refreshes c m n k'

IsMonotone-after : {n k : ℕ} (r : StatusOutcome × Option ℕ) → IsMonotone n r → r.1 ≡ some k → n ≤ k
IsMonotone-after {n} {k} _ (kept e) h = ground arith
IsMonotone-after {n} {k} _ (renewed l p) h = ground arith
IsMonotone-after {n} {k} _ (renewed_stale l p) h = ground arith

Refreshes-≤ : {c : Crypto} {m : AuditorManifest} {n k : ℕ} → Refreshes c m n k → n ≤ k
Refreshes-≤ none_yet = omega arith
Refreshes-≤ {c} {m} (refresh {n} {k} {k'} raw now run h) =
    omega (arith, Refreshes-≤ run, IsMonotone-after _ (parse_status-IsMonotone c raw m k now) h)

IsMonotone-old :
    {n : ℕ} (r : StatusOutcome × Option ℕ)
    → IsMonotone n r
    → (l : StatusList) → (r.0 ≡ fresh l) ⊎ (r.0 ≡ stale l)
    → n ≤ l.status_epoch
IsMonotone-old _ (kept e) l (inl h) = cc
IsMonotone-old _ (kept e) l (inr h) = cc
IsMonotone-old _ (renewed l' p) l (inl h) = ground arith
IsMonotone-old _ (renewed l' p) l (inr h) = cc
IsMonotone-old _ (renewed_stale l' p) l (inl h) = cc
IsMonotone-old _ (renewed_stale l' p) l (inr h) = ground arith

-- Whatever a client has been handed since it retained an epoch, at whatever times, ParseStatus does
-- not accept, fresh or stale, a list whose epoch is below that one.
pub parse_status-no_rollback :
    {c : Crypto} {m : AuditorManifest} {n k : ℕ}
    → Refreshes c m n k
    → (raw : Bytes) (now : Time) (l : StatusList)
    → ((parse_status c raw m (some k) now).0 ≡ fresh l)
      ⊎ ((parse_status c raw m (some k) now).0 ≡ stale l)
    → n ≤ l.status_epoch
parse_status-no_rollback {c} {m} {n} {k} run raw now l h =
    omega (arith, Refreshes-≤ run, IsMonotone-old _ (parse_status-IsMonotone c raw m k now) l h)
