-- ===== src/Hub/Intake.antt =====
-- hub/orders.go: the orders that are posted for an auditor.
pub mod Checked
use onym_audit.Prelude.{
  ℕ, Bool, true, false, ◌&&◌, ◌||◌, not, [], ◌∷◌, ◌++◌, List, leb, between, ◌==◌, length, Bytes,
  codes, bytes_eq, if◌then◌else◌, Option, none, some, Result, ok, err, plain, ◌>>=◌, ◌>>◌, require,
}
use onym_audit.Sig.Sign.{Crypto, digest}
use onym_audit.Sig.Time.{Time, format_time}
use onym_audit.Files.{Files, exists, has_prefix, json}
use onym_audit.Audit.Strict.{member}
use onym_audit.Audit.Terms.{Artifact}
use onym_audit.Audit.Manifest.{AuditorManifest}
use onym_audit.Audit.Orders.{AuditOrder, parse_order_request}
use onym_audit.Audit.Offers.{Offer, parse_offer, order_matches_offer}
use onym_audit.Site.{load}
use onym_audit.Hub.{Hub, Tenant, QueuedOrder, base, canonical}
use onym_audit.Hub.Outcome as Outcome
use onym_audit.Hub.Outcome.{Reply, failed, replied, Outcome, go, stop, or_fail}
use onym_audit.Hub.Publish.{tenant, order_path}
use onym_audit.Hub.Hold.{held_order}
use onym_audit.Hub.Requests.{
  Request, load_request, request_of, is_open, is_scope_text, close_request,
}

abbrev pub max_inbox : ℕ
max_inbox = 100

abbrev pub max_contact : ℕ
max_contact = 256

abbrev is_c1 : ℕ → Bytes → Bool
is_c1 c [] = false
is_c1 c (d ∷ s) = c == 0xc2 && between 0x80 0x9f d

-- unicode.IsControl, at the start of a text in UTF-8.
abbrev is_control : ℕ → Bytes → Bool
is_control c s = leb c 0x1f || c == 0x7f || is_c1 c s

unfoldable pub has_control : Bytes → Bool
has_control [] = false
has_control (c ∷ s) = is_control c s || has_control s

-- contactOK
unfoldable pub is_contact : Bytes → Bool
is_contact s = leb (length s) max_contact && not (has_control s)

abbrev pub is_response_offer : Bytes → Bool
is_response_offer id = has_prefix (codes "rsp-") id

abbrev listed_in : Option (List Bytes) → Bytes → Bool
listed_in none id = false
listed_in (some ids) id = member id ids

abbrev pub stands : Time → Files → Result Request → Bool
stands now board (err e) = false
stands now board (ok q) = is_open now board q

abbrev pub offer_path : Bytes → Bytes
offer_path id = codes "offers/" ++ id ++ json

-- Whether the auditor makes an offer: its manifest lists it, or the request that it was made for
-- is open.
unfoldable pub is_listed : Time → Files → AuditorManifest → Bytes → Bool
is_listed now board m id =
    if is_response_offer id
    then stands now board (load_request (request_of id) board)
    else listed_in m.offers id

-- (*Hub).offer
unfoldable pub offer : Crypto → Time → Tenant → Files → AuditorManifest → Bytes → Result Offer
offer c now t board m id = do
  require (is_listed now board m id) plain
  raw ← load (offer_path id) t.tree
  of ← parse_offer c raw
  require
      (bytes_eq of.offer_id id
        && bytes_eq of.auditor m.component_id
        && bytes_eq of.auditor_key m.operator)
      plain
  ok of

abbrev same_hash : Option Bytes → Option Bytes → Bool
same_hash none none = true
same_hash none (some y) = false
same_hash (some x) none = false
same_hash (some x) (some y) = bytes_eq x y

-- sameArtifact
unfoldable pub same_artifact : Artifact → Artifact → Bool
same_artifact a b =
    bytes_eq a.kind b.kind
    && bytes_eq a.source b.source
    && bytes_eq a.revision b.revision
    && same_hash a.artifact_hash b.artifact_hash

-- An order that is posted, with its scope text and its orderer's contact.
pub record Posted : Type 0 where
  pub order : Bytes
  pub scope_text : Bytes
  pub contact : Bytes

abbrev pub scope_uri : Hub → Bytes → Bytes → Bytes
scope_uri h slug id = base h slug ++ codes "scopes/order-" ++ id ++ codes ".md"

-- An order under an offer made for a request is by the request's author, for what was asked.
unfoldable pub check_asked : Files → AuditOrder → Result (Unit {0})
check_asked board o = do
  q ← load_request (request_of o.fee.offer_id) board
  require (bytes_eq o.sponsor q.requester) plain
  require
      (bytes_eq o.subject q.subject
        && bytes_eq o.methodology_class q.methodology_class
        && same_artifact o.artifact q.artifact)
      plain

unfoldable pub check_author : Files → AuditOrder → Result (Unit {0})
check_author board o = if is_response_offer o.fee.offer_id then check_asked board o else ok tt

-- The checks of `postOrder` that fail it with the code 422: the order.
unfoldable pub check_order :
    Hub → Bytes → Time → Tenant → Files → AuditorManifest → Bytes → Posted → Result AuditOrder
check_order h slug now t board m raw p = do
  o ← parse_order_request h.crypto raw m.component_id
  of ← offer h.crypto now t board m o.fee.offer_id
  order_matches_offer o of now
  require (bytes_eq o.scope.uri (scope_uri h slug o.order_id)) plain
  require (is_scope_text p.scope_text) plain
  require (bytes_eq (digest h.crypto p.scope_text) o.scope.digest) plain
  require (is_contact p.contact) plain
  check_author board o
  ok o

-- What is queued under an id.
unfoldable pub queued : Bytes → List (Bytes × QueuedOrder) → Option QueuedOrder
queued id [] = none
queued id ((k, x) ∷ os) = let rest = queued id os in if bytes_eq k id then some x else rest

abbrev pub Intake : Type 0
Intake = Reply × Tenant × Files

-- The order is in the inbox: the request that it answers is closed.
abbrev pub taken : Hub → Time → Files → AuditOrder → Bytes → Tenant → Intake
taken h now board o raw t = (
  replied 202 (
      (codes "orderId", o.order_id)
      ∷ (codes "state", codes "queued-for-review")
      ∷ (codes "digest", digest h.crypto raw)
      ∷ []),
  t,
  close_request now o.fee.offer_id board,
)

abbrev pub new_entry : Time → Posted → Bytes → QueuedOrder
new_entry now p raw = record {
  order = raw;
  scope_text = p.scope_text;
  contact = p.contact;
  received_at = format_time now;
}

abbrev pub enqueue : Hub → Time → Tenant → Files → Posted → Bytes → AuditOrder → Intake
enqueue h now t board p raw o =
    if leb max_inbox (length t.inbox)
    then (failed 503, t, board)
    else taken h now board o raw (record t { inbox = (o.order_id, new_entry now p raw) ∷ t.inbox })

abbrev pub queue_or_keep :
    Hub → Time → Tenant → Files → Posted → Bytes → AuditOrder → Option QueuedOrder → Intake
queue_or_keep h now t board p raw o none = enqueue h now t board p raw o
queue_or_keep h now t board p raw o (some prev) =
    if bytes_eq prev.order raw then taken h now board o raw t else (failed 409, t, board)

abbrev is_some {ℓ} : {A : Type ℓ} → Option A → Bool
is_some none = false
is_some (some a) = true

-- Whether an order has been fulfilled: it is published, or held with its attestation.
unfoldable pub is_fulfilled : Bytes → Tenant → Bool
is_fulfilled id t = exists (order_path id) t.tree || is_some (held_order id t.held)

-- The effects of `postOrder`.
unfoldable pub queue_order : Hub → Time → Tenant → Files → Posted → Bytes × AuditOrder → Intake
queue_order h now t board p (raw, o) =
    if is_fulfilled o.order_id t
    then (failed 409, t, board)
    else queue_or_keep h now t board p raw o (queued o.order_id t.inbox)

-- The checks of `postOrder`: the order and its canonical bytes.
unfoldable pub check_posted :
    Hub → Bytes → Time → Tenant → Files → Posted → Outcome (Bytes × AuditOrder)
check_posted h slug now t board p = Outcome.◌>>=◌ (tenant h slug now t) λ m.
    Outcome.◌>>=◌ (or_fail 422 (canonical p.order))
      λ raw. Outcome.◌>>=◌ (or_fail 422 (check_order h slug now t board m raw p)) λ o. go (raw, o)

abbrev pub with_order :
    Tenant → Files → (Bytes × AuditOrder → Intake) → Outcome (Bytes × AuditOrder) → Intake
with_order t board next (stop code) = (failed code, t, board)
with_order t board next (go x) = next x

-- postOrder
unfoldable pub post_order : Hub → Bytes → Time → Tenant → Files → Posted → Intake
post_order h slug now t board p =
    with_order t board (queue_order h now t board p) (check_posted h slug now t board p)
