-- ===== src/Hub/Board/Exclusive.antt =====
-- hub/orders.go and hub/requests.go: an order under an offer that was made for a request, which
-- closes the request.
use onym_audit.Prelude.{
  ◌≡◌, ◌≢◌, refl, sym, subst, Bool, true, false, ◌&&◌, not, [], List, leb, length, Bytes, bytes_eq,
  bytes_eq→eq, bytes_eq_refl, Option, none, some, Result, ok, err, plain, arith, Bool-cases, inl,
  inr, require-eq-ok,
}
use onym_audit.Sig.Sign.{Crypto}
use onym_audit.Sig.Time.{Time, parse_time}
use onym_audit.Files.{Files, write_atomic, exists}
use onym_audit.Files.Laws.{read_file-write_atomic}
use onym_audit.Audit.Orders.{AuditOrder}
use onym_audit.Hub.{Hub, Tenant, QueuedOrder}
use onym_audit.Hub.Outcome.{replied, go}
use onym_audit.Hub.Requests.{
  Request, is_before, load_request, closed_path, request_of, is_open, close_request,
}
use onym_audit.Hub.Intake.{
  Posted, post_order, queue_order, check_posted, check_author, check_asked, is_listed, stands,
  is_response_offer, queued, is_fulfilled, queue_or_keep, max_inbox,
}
use onym_audit.Hub.Intake.Checked.{IsAdmitted, check_posted-IsAdmitted}
use onym_audit.Hub.Board.{ordered, Reach, here, next}
use onym_audit.Hub.Board.Naming.{IsNamed, none-IsNamed, Reach-IsNamed}
use onym_audit.Hub.Board.Closing.{Reach-loaded, Reach-settled}

-- The request that an order under one of its responses is for: open, and of the order's author.
pub record IsAsked (now : Time) (board : Files) (o : AuditOrder) (q : Request) : Type 0 where
  pub loaded : load_request (request_of o.fee.offer_id) board ≡ ok q
  pub open_now : is_open now board q ≡ true
  pub by_author : o.sponsor ≡ q.requester

stands-open :
    (now : Time) (board : Files) (r : Result Request)
    → stands now board r ≡ true
    → (q : Request) × (r ≡ ok q) × (is_open now board q ≡ true)
stands-open now board (err e) h = absurd (cc)
stands-open now board (ok q) h = (q, refl, h)

pub IsAdmitted-IsAsked :
    (c : Crypto) (now : Time) (board : Files) (posted raw : Bytes) (o : AuditOrder)
    → is_response_offer o.fee.offer_id ≡ true
    → IsAdmitted c now board posted raw o
    → (q : Request) × IsAsked now board o q
unfolding is_listed check_author check_asked
IsAdmitted-IsAsked c now board posted raw o r a =
    let (q, l, n) = stands-open now board _ (rw r at a.listed) in
    let k = rw (r, l) at a.author in
    (
      q,
      record {
        loaded = l;
        open_now = n;
        by_author =
            bytes_eq→eq o.sponsor q.requester
              (require-eq-ok (bytes_eq o.sponsor q.requester) plain _ k).0;
      },
    )

-- What the intake accepts, it closes the request of.
pub post_order-closes :
    (h : Hub) (slug : Bytes) (now : Time) (t : Tenant) (board : Files) (p : Posted) (raw : Bytes)
    (o : AuditOrder) (texts : List (Bytes × Bytes))
    → check_posted h slug now t board p ≡ go (raw, o)
    → (post_order h slug now t board p).0 ≡ replied 202 texts
    → (post_order h slug now t board p).2 ≡ close_request now o.fee.offer_id board
unfolding post_order queue_order
post_order-closes h slug now t board p raw o texts e a = rw e (by_fulfilled (rw e at a))
  where
    by_queue :
        (x : Option QueuedOrder)
        → (queue_or_keep h now t board p raw o x).0 ≡ replied 202 texts
        → (queue_or_keep h now t board p raw o x).2 ≡ close_request now o.fee.offer_id board
    by_queue none k = elim (Bool-cases (leb max_inbox (length t.inbox))) [
      | inl f ↦ let z = rw f at k in absurd (cc)
      | inr f ↦ rw f refl
    ]
    by_queue (some prev) k = elim (Bool-cases (bytes_eq prev.order raw)) [
      | inl f ↦ rw f refl
      | inr f ↦ let z = rw f at k in absurd (cc)
    ]

    by_fulfilled :
        (queue_order h now t board p (raw, o)).0 ≡ replied 202 texts
        → (queue_order h now t board p (raw, o)).2 ≡ close_request now o.fee.offer_id board
    by_fulfilled k = elim (Bool-cases (is_fulfilled o.order_id t)) [
      | inl f ↦ let z = rw f at k in absurd (cc)
      | inr f ↦ rw f (by_queue (queued o.order_id t.inbox) (rw f at k))
    ]

exists-written : (p v : Bytes) (fs : Files) → exists p (write_atomic p v fs) ≡ true
exists-written p v fs =
    subst (λ (o : Option Bytes). elim o [ none ↦ false | some y ↦ true ] ≡ true)
      (sym (read_file-write_atomic p p v fs)) (rw (bytes_eq_refl p) refl)

not_open-closed :
    (now : Time) (q : Request) (board : Files)
    → exists (closed_path q.request_id) board ≡ true
    → is_open now board q ≡ false
unfolding is_open
not_open-closed now q board e = by_test (exists (closed_path q.request_id) board) e
  where
    by_test : (x : Bool) → x ≡ true → (is_before now (parse_time q.expires_at) && not x) ≡ false
    by_test x k = ground arith

close_request-not_open :
    (now : Time) (offer_id : Bytes) (board : Files) (q : Request)
    → is_response_offer offer_id ≡ true
    → q.request_id ≡ request_of offer_id
    → is_open now (close_request now offer_id board) q ≡ false
unfolding close_request
close_request-not_open now offer_id board q r e =
    rw r
      (not_open-closed now q _ (rw e (exists-written (closed_path (request_of offer_id)) _ board)))

-- What the intake leaves of the request.
ordered-settled :
    (h : Hub) (slug : Bytes) (now : Time) (t : Tenant) (board : Files) (p : Posted) (raw : Bytes)
    (o : AuditOrder) (texts : List (Bytes × Bytes)) (q : Request)
    → IsNamed board
    → check_posted h slug now t board p ≡ go (raw, o)
    → (post_order h slug now t board p).0 ≡ replied 202 texts
    → is_response_offer o.fee.offer_id ≡ true
    → IsAsked now board o q
    → (load_request (request_of o.fee.offer_id) (post_order h slug now t board p).2 ≡ ok q)
      × (is_open now (post_order h slug now t board p).2 q ≡ false)
ordered-settled h slug now t board p raw o texts q n e a r k = (
  Reach-loaded h (request_of o.fee.offer_id) q now board now _ k.loaded
      (next here (omega arith) (ordered slug t p)),
  rw (post_order-closes h slug now t board p raw o texts e a)
      (close_request-not_open now o.fee.offer_id board q r (n _ q k.loaded)),
)

asked_open :
    (now : Time) (board : Files) (o : AuditOrder) (q x : Request)
    → load_request (request_of o.fee.offer_id) board ≡ ok q
    → IsAsked now board o x
    → is_open now board q ≡ true
asked_open now board o q x l k =
    let d : x ≡ q = cc (k.loaded) in
    subst (λ (y : Request). is_open now board y ≡ true) d (k.open_now)

-- Where the requests are those that were posted since there were none, an order that is accepted
-- under an offer made for a request is by the author of the request, which was open, and is not any
-- more.
pub post_order-answers :
    (h : Hub) (slug : Bytes) (start now : Time) (t : Tenant) (board : Files) (p : Posted)
    (raw : Bytes) (o : AuditOrder) (texts : List (Bytes × Bytes))
    → Reach h start [] now board
    → check_posted h slug now t board p ≡ go (raw, o)
    → (post_order h slug now t board p).0 ≡ replied 202 texts
    → is_response_offer o.fee.offer_id ≡ true
    → (q : Request) × IsAsked now board o q
      × (load_request (request_of o.fee.offer_id) (post_order h slug now t board p).2 ≡ ok q)
      × (is_open now (post_order h slug now t board p).2 q ≡ false)
post_order-answers h slug start now t board p raw o texts w e a r =
    let (q, k) =
      IsAdmitted-IsAsked h.crypto now board p.order raw o r
        (check_posted-IsAdmitted h slug now t board p raw o e) in
    let n = Reach-IsNamed h start [] now board none-IsNamed w in
    let (l, c) = ordered-settled h slug now t board p raw o texts q n e a r k in (q, k, l, c)

-- Where the hub handles one call after the other, at times that do not go back, and the requests are
-- those that were posted since there were none: after an order is accepted under an offer made for a
-- request, and whatever requests, answers and orders come after it, no order under an offer of that
-- name passes the checks of any auditor. Of two orders that are handled at the same time nothing is
-- said.
pub post_order-exclusive :
    (h : Hub) (slug : Bytes) (start now : Time) (t : Tenant) (board : Files) (p : Posted)
    (raw : Bytes) (o : AuditOrder) (texts : List (Bytes × Bytes)) (later : Time) (board' : Files)
    (slug' : Bytes) (t' : Tenant) (p' : Posted) (raw' : Bytes) (o' : AuditOrder)
    → Reach h start [] now board
    → check_posted h slug now t board p ≡ go (raw, o)
    → (post_order h slug now t board p).0 ≡ replied 202 texts
    → is_response_offer o.fee.offer_id ≡ true
    → Reach h now (post_order h slug now t board p).2 later board'
    → o'.fee.offer_id ≡ o.fee.offer_id
    → check_posted h slug' later t' board' p' ≢ go (raw', o')
post_order-exclusive h slug start now t board p raw o texts later board' slug' t' p' raw' o' w e a r
      s d e' =
    let (q, k, l, c) = post_order-answers h slug start now t board p raw o texts w e a r in
    let (l', c') =
      Reach-settled h (request_of o.fee.offer_id) q now (post_order h slug now t board p).2 later
        board' l c s in
    let (x, k') =
      IsAdmitted-IsAsked h.crypto later board' p'.order raw' o' (rw d r)
        (check_posted-IsAdmitted h slug' later t' board' p' raw' o' e') in
    let z = asked_open later board' o' q x (rw d l') k' in cc
