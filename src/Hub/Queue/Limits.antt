-- ===== src/Hub/Queue/Limits.antt =====
-- hub/orders.go: what an inbox holds at any time.
use onym_audit.Prelude.{
  ◌≤◌, ◌≡◌, refl, [], ◌∷◌, List, leb, length, Bytes, codes, bytes_eq, Option, none, some, ok, arith,
  Bool-cases, inl, inr,
}
use onym_audit.Sig.Sign.{Crypto}
use onym_audit.Sig.Time.{Time}
use onym_audit.Files.{Files}
use onym_audit.Audit.Terms.{is_id}
use onym_audit.Audit.Manifest.{AuditorManifest}
use onym_audit.Audit.Orders.{AuditOrder, parse_order_request}
use onym_audit.Hub.{Hub, Tenant, QueuedOrder}
use onym_audit.Hub.Outcome.{Outcome, go, stop}
use onym_audit.Hub.Publish.{drop_order}
use onym_audit.Hub.Intake.{
  Posted, post_order, queue_order, check_posted, queued, is_fulfilled, with_order, queue_or_keep,
  max_inbox,
}
use onym_audit.Hub.Inbox
use onym_audit.Hub.Inbox.{InboxRequest, answer_inbox, with_inbox, check_inbox, decline}
use onym_audit.Hub.Intake.Checked.{check_posted-IsAdmitted}
use onym_audit.Hub.Queue.{Task, served, posted, asked, answered, perform, perform_all}
use onym_audit.Hub.Queue.Thinning.{IsThinned, kept, dropped, handle-IsThinned, respond-IsThinned}

-- An order of the id, signed by its subject and its sponsor, for an auditor.
pub record IsOrderOf (c : Crypto) (id : Bytes) (x : QueuedOrder) : Type 0 where
  pub component : Bytes
  pub order : AuditOrder
  pub parsed : parse_order_request c x.order component ≡ ok order
  pub named : order.order_id ≡ id

-- Orders under distinct ids.
abbrev pub AreOrders : Crypto → List (Bytes × QueuedOrder) → Type 0
AreOrders c [] = Unit
AreOrders c ((id, x) ∷ os) = (queued id os ≡ none) × IsOrderOf c id x × AreOrders c os

pub record IsQueue (c : Crypto) (os : List (Bytes × QueuedOrder)) : Type 0 where
  pub bounded : length os ≤ max_inbox
  pub orders : AreOrders c os

queued-drop_order :
    (k id : Bytes) (os : List (Bytes × QueuedOrder))
    → queued k os ≡ none
    → queued k (drop_order id os) ≡ none
unfolding queued drop_order
queued-drop_order k id [] h = refl
queued-drop_order k id ((j, x) ∷ os) h = ground (arith, queued-drop_order k id os)

length-drop_order :
    (id : Bytes) (os : List (Bytes × QueuedOrder)) → length (drop_order id os) ≤ length os
unfolding drop_order
length-drop_order id [] = omega arith
length-drop_order id ((j, x) ∷ os) = ground (arith, length-drop_order id os)

drop_order-AreOrders :
    (c : Crypto) (id : Bytes) (os : List (Bytes × QueuedOrder))
    → AreOrders c os
    → AreOrders c (drop_order id os)
unfolding drop_order
drop_order-AreOrders c id [] h = tt
drop_order-AreOrders c id ((j, x) ∷ os) h = elim (Bool-cases (bytes_eq j id)) [
  | inl e ↦ rw e (drop_order-AreOrders c id os h.2)
  | inr e ↦ rw e (queued-drop_order j id os h.0, h.1, drop_order-AreOrders c id os h.2)
]

IsThinned-IsQueue :
    (c : Crypto) (os os' : List (Bytes × QueuedOrder))
    → IsQueue c os
    → IsThinned os os'
    → IsQueue c os'
IsThinned-IsQueue c os os' q kept = q
IsThinned-IsQueue c os os' q (dropped id) = record {
  bounded = omega (arith, length-drop_order id os, q.bounded);
  orders = drop_order-AreOrders c id os q.orders;
}

post_order-IsQueue :
    (h : Hub) (slug : Bytes) (now : Time) (t : Tenant) (board : Files) (p : Posted)
    → IsQueue h.crypto t.inbox
    → IsQueue h.crypto ((post_order h slug now t board p).1).inbox
unfolding post_order queue_order
post_order-IsQueue h slug now t board p q = by_checks (check_posted h slug now t board p) refl
  where
    by_queue :
        (raw : Bytes) (o : AuditOrder) (m : AuditorManifest)
        → parse_order_request h.crypto raw m.component_id ≡ ok o
        → (x : Option QueuedOrder) → queued o.order_id t.inbox ≡ x
        → IsQueue h.crypto ((queue_or_keep h now t board p raw o x).1).inbox
    by_queue raw o m e none n = elim (Bool-cases (leb max_inbox (length t.inbox))) [
      | inl f ↦ rw f q
      | inr f ↦ rw f (record {
        bounded = ground arith;
        orders = (
          n,
          record { component = m.component_id; order = o; parsed = e; named = refl },
          q.orders,
        );
      })
    ]
    by_queue raw o m e (some prev) n = elim (Bool-cases (bytes_eq prev.order raw)) [
      | inl f ↦ rw f q
      | inr f ↦ rw f q
    ]

    by_checks :
        (x : Outcome (Bytes × AuditOrder))
        → check_posted h slug now t board p ≡ x
        → IsQueue h.crypto ((with_order t board (queue_order h now t board p) x).1).inbox
    by_checks (stop code) e = q
    by_checks (go (raw, o)) e =
        let k = check_posted-IsAdmitted h slug now t board p raw o e in
        elim (Bool-cases (is_fulfilled o.order_id t)) [
          | inl f ↦ rw f q
          | inr f ↦ rw f (by_queue raw o k.manifest k.parsed (queued o.order_id t.inbox) refl)
        ]

pub inbox-IsThinned :
    (h : Hub) (slug : Bytes) (now : Time) (t : Tenant) (raw : Bytes)
    → IsThinned t.inbox ((Inbox.inbox h slug now t raw).1).inbox
unfolding Inbox.inbox answer_inbox
inbox-IsThinned h slug now t raw = by_checks (check_inbox h slug now t raw)
  where
    by_id : (o : Option Bytes) → IsThinned t.inbox ((decline t o).1).inbox
    by_id none = kept
    by_id (some id) = elim (Bool-cases (is_id id)) [ inl e ↦ rw e (dropped id) | inr e ↦ rw e kept ]

    by_checks : (x : Outcome InboxRequest) → IsThinned t.inbox ((with_inbox t x).1).inbox
    by_checks (stop code) = kept
    by_checks (go q) = elim (Bool-cases (bytes_eq q.action (codes "list"))) [
      | inl e ↦ rw e kept
      | inr e ↦ rw e (elim (Bool-cases (bytes_eq q.action (codes "decline"))) [
        | inl f ↦ rw f (by_id q.order_id)
        | inr f ↦ rw f kept
      ])
    ]

perform-IsQueue :
    (h : Hub) (slug : Bytes) (now : Time) (q : Task) (t : Tenant)
    → IsQueue h.crypto t.inbox
    → IsQueue h.crypto (perform h slug now q t).inbox
unfolding perform
perform-IsQueue h slug now (served q) t i =
    IsThinned-IsQueue h.crypto t.inbox _ i (handle-IsThinned h slug now t q)
perform-IsQueue h slug now (posted board p) t i = post_order-IsQueue h slug now t board p i
perform-IsQueue h slug now (asked raw) t i =
    IsThinned-IsQueue h.crypto t.inbox _ i (inbox-IsThinned h slug now t raw)
perform-IsQueue h slug now (answered board id raw) t i =
    IsThinned-IsQueue h.crypto t.inbox _ i (respond-IsThinned h slug now t board id raw)

-- From an inbox of at most 100 orders under distinct ids, each of which ParseOrderRequest accepts,
-- under its id, for some auditor, the inbox is such after whatever is published, ordered, asked and
-- answered, and whenever.
pub perform_all-IsQueue :
    (h : Hub) (slug : Bytes) (qs : List (Time × Task)) (t : Tenant)
    → IsQueue h.crypto t.inbox
    → IsQueue h.crypto (perform_all h slug qs t).inbox
unfolding perform_all
perform_all-IsQueue h slug [] t i = i
perform_all-IsQueue h slug ((now, q) ∷ qs) t i =
    perform_all-IsQueue h slug qs (perform h slug now q t) (perform-IsQueue h slug now q t i)
