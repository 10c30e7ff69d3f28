-- ===== src/Hub/Safety.antt =====
-- hub/hub.go: what is published stays published, and what is under an embargo stays unpublished.
use onym_audit.Prelude.{[], ◌∷◌, List, Bytes}
use onym_audit.Sig.Time.{Time}
use onym_audit.Files.{Files}
use onym_audit.Hub.{Hub, Tenant}
use onym_audit.Hub.Publish.{publish}
use onym_audit.Hub.Revoke.{revoke, response}
use onym_audit.Hub.Hold.{upkeep}
use onym_audit.Hub.Held.{IsTidy}
use onym_audit.Hub.Held.Release.{IsGrown}
use onym_audit.Hub.Steps
use onym_audit.Hub.Handled.{publish-IsSafe, revoke-IsSafe, response-IsSafe, upkeep-IsSafe}

-- What can be asked of the hub for an auditor.
pub data Call : Type 0 where
  publication : (raw : Bytes) → (offered : Files) → Call
  withdrawal : (raw : Bytes) → Call
  answer : (raw : Bytes) → Call
  round : Call

-- The auditor's directories after a request, and after a list of them with their times.
unfoldable pub handle : Hub → Bytes → Time → Call → Tenant → Tenant
handle h slug now (publication raw offered) t = (publish h slug now t raw offered).1
handle h slug now (withdrawal raw) t = (revoke h slug now t raw).1
handle h slug now (answer raw) t = (response h slug now t raw).1
handle h slug now round t = upkeep h slug now t

unfoldable pub serve : Hub → Bytes → List (Time × Call) → Tenant → Tenant
serve h slug [] t = t
serve h slug ((now, q) ∷ qs) t = serve h slug qs (handle h slug now q t)

pub handle-IsSafe :
    (h : Hub) (slug : Bytes) (now : Time) (q : Call) (t : Tenant)
    → IsTidy t.tree t.held
    → Steps.IsSafe now t (handle h slug now q t)
unfolding handle
handle-IsSafe h slug now (publication raw offered) t d = publish-IsSafe h slug now t raw offered d
handle-IsSafe h slug now (withdrawal raw) t d = revoke-IsSafe h slug now t raw d
handle-IsSafe h slug now (answer raw) t d = response-IsSafe h slug now t raw d
handle-IsSafe h slug now round t d = upkeep-IsSafe h slug now t d

-- From directories where what is held is in order, whatever attestations, revocations and replies
-- are sent to the hub and whatever rounds of its upkeep are run, at whatever times, the manifest and
-- each attestation, revocation and reply in the tree read byte for byte as they did, and what is held
-- stays in order.
pub serve-IsGrown :
    (h : Hub) (slug : Bytes) (qs : List (Time × Call)) (t : Tenant)
    → IsTidy t.tree t.held
    → IsTidy (serve h slug qs t).tree (serve h slug qs t).held
      × IsGrown t.tree (serve h slug qs t).tree
unfolding serve
serve-IsGrown h slug [] t d = (d, λ k b r g. g)
serve-IsGrown h slug ((now, q) ∷ qs) t d =
    let s = handle-IsSafe h slug now q t d in
    let later = serve-IsGrown h slug qs (handle h slug now q t) s.tidy in
    (later.0, λ k b r g. later.1 k b r (s.grown k b r g))
