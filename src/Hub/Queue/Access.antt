-- ===== src/Hub/Queue/Access.antt =====
-- hub/orders.go: who reads and declines the orders of an inbox, and who learns of an order.
use onym_audit.Prelude.{
  ℕ, ◌≡◌, refl, subst, ◌⊎◌, inl, inr, Bool, true, false, ◌&&◌, ◌++◌, Bytes, codes, bytes_eq,
  bytes_eq→eq, Bool-cases, Option, none, some, Result, ok, err,
}
use onym_audit.Canon.Value.{Fields}
use onym_audit.Canon.Decode.{parse}
use onym_audit.Sig.Sign.{Crypto, verify}
use onym_audit.Sig.Time.{Time, parse_time}
use onym_audit.Audit.Terms.{is_id}
use onym_audit.Audit.Manifest.{AuditorManifest}
use onym_audit.Audit.Orders.{AuditOrder, parse_order_request}
use onym_audit.Hub.{Hub, Tenant, QueuedOrder, canonical}
use onym_audit.Hub.Outcome.{Outcome, go, stop, >>=-eq-go, check-eq-go, or_fail, or_fail-eq-go}
use onym_audit.Hub.Publish.{tenant, drop_order}
use onym_audit.Hub.Intake.{queued}
use onym_audit.Hub.Inbox
use onym_audit.Hub.Inbox.{
  InboxRequest, InboxReply, refused, StatusRequest, read_inbox_request, read_status_request,
  check_inbox, check_status_request, with_inbox, succeeds, is_recent, order_status, sponsored,
  names_sponsor, decline, answer_inbox,
}

-- The members of a request as it was received, whose canonical bytes a key has signed, at a time
-- that is near.
pub record IsSignedBy (c : Crypto) (now : Time) (k raw_in issued_at : Bytes) (obj : Fields)
    : Type 0 where
  pub raw : Bytes
  pub canonical_form : canonical raw_in ≡ ok raw
  pub parsed : parse raw ≡ ok obj
  pub verified : verify c raw (codes "signature") k ≡ ok tt
  pub recent : is_recent now (parse_time issued_at) ≡ true

succeeds-eq-true : (r : Result (Unit {0})) → succeeds r ≡ true → r ≡ ok tt
succeeds-eq-true (ok u) h = refl
succeeds-eq-true (err e) h = absurd (cc)

-- A request for the inbox, read from what was received, by the operator of the auditor.
pub record IsByOperator (h : Hub) (slug : Bytes) (now : Time) (t : Tenant) (raw_in : Bytes)
    (q : InboxRequest) : Type 0 where
  pub manifest : AuditorManifest
  pub hosted : tenant h slug now t ≡ go manifest
  pub members : Fields
  pub read : read_inbox_request members ≡ ok q
  pub addressed : q.auditor ≡ manifest.component_id
  pub signed : IsSignedBy h.crypto now manifest.operator raw_in q.issued_at members

check_inbox-IsByOperator :
    (h : Hub) (slug : Bytes) (now : Time) (t : Tenant) (raw_in : Bytes) (q : InboxRequest)
    → check_inbox h slug now t raw_in ≡ go q
    → IsByOperator h slug now t raw_in q
unfolding check_inbox
check_inbox-IsByOperator h slug now t raw_in q e =
    let (m, e0, e1) = >>=-eq-go (tenant h slug now t) _ e in
    let (r, f, e2) = >>=-eq-go (or_fail 422 (canonical raw_in)) _ e1 in
    let (obj, p, e3) = >>=-eq-go (or_fail 422 (parse r)) _ e2 in
    let (x, i, e4) = >>=-eq-go (or_fail 422 (read_inbox_request obj)) _ e3 in
    let (a, e5) = check-eq-go (bytes_eq x.auditor m.component_id) 403 _ e4 in
    let (b, e6) =
      check-eq-go (succeeds (verify h.crypto r (codes "signature") m.operator)) 403 _ e5 in
    let (d, e7) = check-eq-go (is_recent now (parse_time x.issued_at)) 403 _ e6 in
    let y : IsByOperator h slug now t raw_in x = record {
      manifest = m;
      hosted = e0;
      members = obj;
      read = or_fail-eq-go 422 _ i;
      addressed = bytes_eq→eq x.auditor m.component_id a;
      signed = record {
        raw = r;
        canonical_form = or_fail-eq-go 422 _ f;
        parsed = or_fail-eq-go 422 _ p;
        verified = succeeds-eq-true _ b;
        recent = d;
      };
    } in
    subst (λ (z : InboxRequest). IsByOperator h slug now t raw_in z) (cc) y

-- The auditor is as it was, or the order that the request names to be declined is out of its inbox.
abbrev pub IsServed : Tenant → InboxRequest → Tenant → Type 0
IsServed t q t' =
    (t' ≡ t)
    ⊎ ((q.action ≡ codes "decline")
        × (id : Bytes) × (q.order_id ≡ some id)
        × (t' ≡ record t { inbox = drop_order id t.inbox }))

decline-IsServed :
    (t : Tenant) (q : InboxRequest) (o : Option Bytes)
    → q.action ≡ codes "decline"
    → q.order_id ≡ o
    → IsServed t q (decline t o).1
decline-IsServed t q none d e = inl refl
decline-IsServed t q (some id) d e = elim (Bool-cases (is_id id)) [
  | inl y ↦ rw y (inr (d, id, e, refl))
  | inr n ↦ rw n (inl refl)
]

answer_inbox-IsServed : (t : Tenant) (q : InboxRequest) → IsServed t q (answer_inbox t q).1
unfolding answer_inbox
answer_inbox-IsServed t q = elim (Bool-cases (bytes_eq q.action (codes "list"))) [
  | inl l ↦ rw l (inl refl)
  | inr l ↦ elim (Bool-cases (bytes_eq q.action (codes "decline"))) [
    | inl d ↦ rw (l, d) (decline-IsServed t q q.order_id (bytes_eq→eq _ _ d) refl)
    | inr d ↦ rw (l, d) (inl refl)
  ]
]

-- Either a request for the inbox is refused, and the auditor is as before, or the request that its
-- canonical bytes hold names the auditor and a time near now, and they are signed by the key of the
-- auditor's operator; then the auditor is as it was, or it is a request to decline, and the order
-- that it names is out of the inbox.
pub inbox-IsByOperator :
    (h : Hub) (slug : Bytes) (now : Time) (t : Tenant) (raw_in : Bytes)
    → ((code : ℕ) × (Inbox.inbox h slug now t raw_in ≡ (refused code, t)))
      ⊎ ((q : InboxRequest) × IsByOperator h slug now t raw_in q
          × IsServed t q (Inbox.inbox h slug now t raw_in).1)
inbox-IsByOperator h slug now t raw_in = by_checks (check_inbox h slug now t raw_in) refl
  where
    by_checks :
        (x : Outcome InboxRequest)
        → check_inbox h slug now t raw_in ≡ x
        → ((code : ℕ) × (Inbox.inbox h slug now t raw_in ≡ (refused code, t)))
          ⊎ ((q : InboxRequest) × IsByOperator h slug now t raw_in q
              × IsServed t q (Inbox.inbox h slug now t raw_in).1)
    by_checks (stop code) e = inl (code, unfold Inbox.inbox in rw e refl)
    by_checks (go q) e = inr (
      q,
      check_inbox-IsByOperator h slug now t raw_in q e,
      unfold Inbox.inbox in rw e (answer_inbox-IsServed t q),
    )

-- An order of a sponsor is queued.
pub record IsQueuedFor (c : Crypto) (slug : Bytes) (t : Tenant) (q : StatusRequest) : Type 0 where
  pub entry : QueuedOrder
  pub order : AuditOrder
  pub there : queued q.order_id t.inbox ≡ some entry
  pub parsed : parse_order_request c entry.order (codes "onym:component:" ++ slug) ≡ ok order
  pub sponsor : order.sponsor ≡ q.sponsor

sponsored-IsQueuedFor :
    (c : Crypto) (slug : Bytes) (t : Tenant) (q : StatusRequest) (x : Option QueuedOrder)
    → queued q.order_id t.inbox ≡ x
    → sponsored c slug q.sponsor x ≡ true
    → IsQueuedFor c slug t q
sponsored-IsQueuedFor c slug t q none e s = absurd (cc)
sponsored-IsQueuedFor c slug t q (some x) e s =
    by_order (parse_order_request c x.order (codes "onym:component:" ++ slug)) refl s
  where
    by_order :
        (r : Result AuditOrder)
        → parse_order_request c x.order (codes "onym:component:" ++ slug) ≡ r
        → elim r [ ok o ↦ bytes_eq o.sponsor q.sponsor | err e ↦ false ] ≡ true
        → IsQueuedFor c slug t q
    by_order (err e) p k = absurd (cc)
    by_order (ok o) p k = record {
      entry = x;
      order = o;
      there = e;
      parsed = p;
      sponsor = bytes_eq→eq o.sponsor q.sponsor k;
    }

-- A request for the state of an order, read from what was received, by the sponsor that it names.
pub record IsAskedBy (c : Crypto) (now : Time) (raw_in : Bytes) (q : StatusRequest) : Type 0 where
  pub members : Fields
  pub read : read_status_request members ≡ ok q
  pub signed : IsSignedBy c now q.sponsor raw_in q.issued_at members

check_status_request-IsAskedBy :
    (h : Hub) (slug : Bytes) (now : Time) (t : Tenant) (raw_in : Bytes) (q : StatusRequest)
    → check_status_request h slug now t raw_in ≡ go q
    → IsAskedBy h.crypto now raw_in q
unfolding check_status_request
check_status_request-IsAskedBy h slug now t raw_in q e =
    let (m, e0, e1) = >>=-eq-go (tenant h slug now t) _ e in
    let (r, f, e2) = >>=-eq-go (or_fail 422 (canonical raw_in)) _ e1 in
    let (obj, p, e3) = >>=-eq-go (or_fail 422 (parse r)) _ e2 in
    let (x, i, e4) = >>=-eq-go (or_fail 422 (read_status_request obj)) _ e3 in
    let (a, e5) =
      check-eq-go (bytes_eq x.action (codes "order-status") && is_id x.order_id) 422 _ e4 in
    let (d, e6) = check-eq-go (is_recent now (parse_time x.issued_at)) 403 _ e5 in
    let (b, e7) =
      check-eq-go (succeeds (verify h.crypto r (codes "signature") x.sponsor)) 403 _ e6 in
    let y : IsAskedBy h.crypto now raw_in x = record {
      members = obj;
      read = or_fail-eq-go 422 _ i;
      signed = record {
        raw = r;
        canonical_form = or_fail-eq-go 422 _ f;
        parsed = or_fail-eq-go 422 _ p;
        verified = succeeds-eq-true _ b;
        recent = d;
      };
    } in
    let z : x ≡ q = cc in subst (λ (v : StatusRequest). IsAskedBy h.crypto now raw_in v) z y

-- That an order is queued is told only where the request that the canonical bytes received hold
-- names the id of an order that is queued and a time near now, and they are signed by the key of
-- that order's sponsor.
pub order_status-IsQueuedFor :
    (h : Hub) (slug : Bytes) (now : Time) (t : Tenant) (raw_in : Bytes) (held : Bool)
    → order_status h slug now t raw_in ≡ go (true, held)
    → (q : StatusRequest) × IsAskedBy h.crypto now raw_in q × IsQueuedFor h.crypto slug t q
unfolding order_status
order_status-IsQueuedFor h slug now t raw_in held e =
    let (q, f, g) = >>=-eq-go (check_status_request h slug now t raw_in) _ e in
    (
      q,
      check_status_request-IsAskedBy h slug now t raw_in q f,
      sponsored-IsQueuedFor h.crypto slug t q (queued q.order_id t.inbox) refl (cc),
    )
