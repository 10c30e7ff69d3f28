-- ===== src/Hub/Board/Effects.antt =====
-- What one call does to the directory of requests: nothing, a new request while there is room, or a
-- file that is no request.
use onym_audit.Prelude.{
  ◌<◌, ◌≡◌, refl, true, false, ◌&&◌, ◌++◌, leb, Bytes, codes, bytes_eq, Option, none, some, Result,
  ok, err, plain, arith, length, Bool-cases, &&-cases, subst, ◌==◌, inl, inr, require-eq-ok,
  >>=-eq-ok, ◌>>=◌,
}
use onym_audit.Canon.Value.{Fields, no_fields}
use onym_audit.Canon.Decode.{parse}
use onym_audit.Sig.Time.{Time}
use onym_audit.Sig.Sign.{Crypto}
use onym_audit.Files.{
  Files, read_file, write_atomic, exists, has_byte, has_suffix, is_json_name, json,
}
use onym_audit.Files.Names.{has_byte-append, has_suffix-append}
use onym_audit.Audit.Orders.{AuditOrder}
use onym_audit.Audit.Offers.{Offer}
use onym_audit.Hub.{Hub, Tenant, QueuedOrder, canonical}
use onym_audit.Loose.{only, named, all_fields, artifact_names}
use onym_audit.Hub.Outcome.{Outcome, go, stop}
use onym_audit.Hub.Requests.{
  Request, request_names, read_request, read_fields, is_request_id, request_path, closed_path,
  responses_dir, request_of, open_requests, max_open_requests, post_request, store_request,
  read_posted, check_request, stored, close_request,
}
use onym_audit.Hub.Intake.{
  Posted, post_order, queue_order, check_posted, queued, is_fulfilled, is_response_offer, max_inbox,
  queue_or_keep, with_order,
}
use onym_audit.Hub.Steps.{none_at}
use onym_audit.Hub.Answers.{respond, check_respond, recorded, with_answer}
use onym_audit.Hub.Board.{Step, requested, answered, ordered}

-- What the bytes of a stored request are read as.
abbrev pub read_stored : Bytes → Result Request
read_stored raw = parse raw >>= λ obj. read_request false obj

pub data Effect (now : Time) (board : Files) : Files → Type 0 where
  same : Effect now board board
  added :
      (q : Request)
      → (raw : Bytes) → read_stored raw ≡ ok q
      → is_request_id q.request_id ≡ true
      → read_file (request_path q.request_id) board ≡ none
      → open_requests now board < max_open_requests
      → Effect now board (write_atomic (request_path q.request_id) raw board)
  marked :
      (path v : Bytes) → is_json_name path ≡ false → Effect now board (write_atomic path v board)

-- A request that is read strictly is read the same without.
pub read_request-strict :
    (obj : Fields) (q : Request) → read_request true obj ≡ ok q → read_request false obj ≡ ok q
unfolding read_request
read_request-strict obj q h =
    let (k, h1) = require-eq-ok (only request_names obj) plain _ h in
    let (fs, e, h2) = >>=-eq-ok (all_fields no_fields (named "artifact" obj)) _ h1 in
    let (i, h3) = require-eq-ok (only artifact_names fs) plain (read_fields obj fs) h2 in rw e h3

same_pair :
    (c : Crypto) (now : Time) (r raw : Bytes) (obj : Fields) (x q : Request)
    → parse r ≡ ok obj
    → read_request true obj ≡ ok x
    → check_request c now r x ≡ ok tt
    → ◌≡◌ {A = Result (Request × Bytes)} (ok (x, r)) (ok (q, raw))
    → (read_stored raw ≡ ok q) × (check_request c now raw q ≡ ok tt)
same_pair c now r raw obj x q p g k e =
    let d : x ≡ q = cc in
    let b : r ≡ raw = cc in
    subst (λ (y : Request). (read_stored raw ≡ ok y) × (check_request c now raw y ≡ ok tt)) d
      (subst (λ (y : Bytes). (read_stored y ≡ ok x) × (check_request c now y x ≡ ok tt)) b
        (rw p (read_request-strict obj x g), k))

pub read_posted-stored :
    (c : Crypto) (now : Time) (raw_in raw : Bytes) (q : Request)
    → read_posted c now raw_in ≡ ok (q, raw)
    → (read_stored raw ≡ ok q) × (check_request c now raw q ≡ ok tt)
unfolding read_posted
read_posted-stored c now raw_in raw q h =
    let (r, e, h1) = >>=-eq-ok (canonical raw_in) _ h in
    let (obj, f, h2) = >>=-eq-ok (parse r) _ h1 in
    let (x, g, h3) = >>=-eq-ok (read_request true obj) _ h2 in
    let (u, k, h4) = >>=-eq-ok (check_request c now r x) _ h3 in
    same_pair c now r raw obj x q f g k h4

closed_path-other : (id : Bytes) → is_json_name (closed_path id) ≡ false
closed_path-other id =
    rw (has_suffix-append json id (codes ".closed") (omega arith))
      (unfold has_suffix bytes_eq in ground arith)

response_path-other : (id slug : Bytes) → is_json_name (responses_dir id ++ slug) ≡ false
unfolding has_byte
response_path-other id slug =
    rw
      (
        has_byte-append b'/' (id ++ codes ".responses/") slug,
        has_byte-append b'/' id (codes ".responses/"),
      )
      (ground arith)

request_id-valid :
    (c : Crypto) (now : Time) (raw : Bytes) (q : Request)
    → check_request c now raw q ≡ ok tt
    → is_request_id q.request_id ≡ true
unfolding check_request
request_id-valid c now raw q h =
    (&&-cases (q.request_version == 1) (is_request_id q.request_id)
      (require-eq-ok (q.request_version == 1 && is_request_id q.request_id) plain _ h).0).1

store-Effect :
    (c : Crypto) (now : Time) (board : Files) (q : Request) (raw : Bytes)
    → read_stored raw ≡ ok q
    → is_request_id q.request_id ≡ true
    → Effect now board (store_request c now board (q, raw)).1
unfolding store_request
store-Effect c now board q raw s i = elim (Bool-cases (exists (request_path q.request_id) board)) [
  | inl e ↦ rw e same
  | inr e ↦ rw e (elim (Bool-cases (leb max_open_requests (open_requests now board))) [
    | inl f ↦ rw f same
    | inr f ↦ rw f (added q raw s i (none_at _ board e) (ground arith))
  ])
]

requested-Effect :
    (c : Crypto) (now : Time) (raw_in : Bytes) (board : Files)
    → Effect now board (post_request c now raw_in board).1
unfolding post_request
requested-Effect c now raw_in board = by_checks (read_posted c now raw_in) refl
  where
    by_checks :
        (r : Result (Request × Bytes))
        → read_posted c now raw_in ≡ r
        → Effect now board (stored c now board r).1
    by_checks (err e) h = same
    by_checks (ok (q, raw)) h =
        let (s, k) = read_posted-stored c now raw_in raw q h in
        store-Effect c now board q raw s (request_id-valid c now raw q k)

close-Effect :
    (now : Time) (offer_id : Bytes) (board : Files)
    → Effect now board (close_request now offer_id board)
unfolding close_request
close-Effect now offer_id board = elim (Bool-cases (is_response_offer offer_id)) [
  | inl e ↦ rw e (marked _ _ (closed_path-other (request_of offer_id)))
  | inr e ↦ rw e same
]

answered-Effect :
    (h : Hub) (slug : Bytes) (now : Time) (t : Tenant) (board : Files) (id raw : Bytes)
    → Effect now board (respond h slug now t board id raw).2
unfolding respond
answered-Effect h slug now t board id raw = by_checks (check_respond h slug now t board id raw)
  where
    by_write :
        (o : Offer × Bytes) (w : Files × Result (Unit {0}))
        → Effect now board (recorded h slug t board id o w).2
    by_write (of, r) (tree, err e) = same
    by_write (of, r) (tree, ok u) = marked _ _ (response_path-other id slug)

    by_checks : (o : Outcome (Offer × Bytes)) → Effect now board (with_answer h slug t board id o).2
    by_checks (stop code) = same
    by_checks (go (of, r)) = by_write (of, r) _

ordered-Effect :
    (h : Hub) (slug : Bytes) (now : Time) (t : Tenant) (board : Files) (p : Posted)
    → Effect now board (post_order h slug now t board p).2
unfolding post_order queue_order
ordered-Effect h slug now t board p = by_checks (check_posted h slug now t board p)
  where
    by_queue :
        (raw : Bytes) (o : AuditOrder) (x : Option QueuedOrder)
        → Effect now board (queue_or_keep h now t board p raw o x).2
    by_queue raw o none = elim (Bool-cases (leb max_inbox (length t.inbox))) [
      | inl e ↦ rw e same
      | inr e ↦ rw e (close-Effect now o.fee.offer_id board)
    ]
    by_queue raw o (some prev) = elim (Bool-cases (bytes_eq prev.order raw)) [
      | inl e ↦ rw e (close-Effect now o.fee.offer_id board)
      | inr e ↦ rw e same
    ]

    by_checks :
        (x : Outcome (Bytes × AuditOrder))
        → Effect now board (with_order t board (queue_order h now t board p) x).2
    by_checks (stop code) = same
    by_checks (go (raw, o)) = elim (Bool-cases (is_fulfilled o.order_id t)) [
      | inl e ↦ rw e same
      | inr e ↦ rw e (by_queue raw o (queued o.order_id t.inbox))
    ]

pub Step-Effect :
    {h : Hub} {now : Time} {board board' : Files}
    → Step h now board board'
    → Effect now board board'
Step-Effect {h} {now} {board} (requested raw) = requested-Effect h.crypto now raw board
Step-Effect {h} {now} {board} (answered slug t id raw) = answered-Effect h slug now t board id raw
Step-Effect {h} {now} {board} (ordered slug t p) = ordered-Effect h slug now t board p
