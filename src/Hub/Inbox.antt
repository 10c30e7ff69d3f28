-- ===== src/Hub/Inbox.antt =====
-- hub/orders.go: what an auditor asks of its inbox, and an orderer of an order.
use onym_audit.Prelude.{
  ℕ, Bool, true, false, ◌&&◌, [], ◌∷◌, ◌++◌, List, String, Bytes, codes, bytes_eq, bytes_lt,
  if◌then◌else◌, Option, none, some, Result, ok, err, plain, require,
}
use onym_audit.Prelude as Prelude
use onym_audit.Canon.Value.{Fields}
use onym_audit.Canon.Decode.{parse}
use onym_audit.Sig.Sign.{Crypto, verify}
use onym_audit.Sig.Time.{Time, parse_time}
use onym_audit.Audit.Terms.{is_id}
use onym_audit.Audit.Orders.{parse_order_request}
use onym_audit.Hub.{Hub, Tenant, HeldFile, QueuedOrder, canonical}
use onym_audit.Loose.{admitted, text_in, text?_in}
use onym_audit.Hub.Outcome.{Outcome, go, stop, ◌>>=◌, ◌>>◌, check, or_fail}
use onym_audit.Hub.Publish.{tenant, drop_order}
use onym_audit.Hub.Hold.{held_order}
use onym_audit.Hub.Requests.{is_near}
use onym_audit.Hub.Intake.{queued}

-- A request for the inbox.
pub record InboxRequest : Type 0 where
  pub action : Bytes
  pub auditor : Bytes
  pub order_id : Option Bytes
  pub issued_at : Bytes
  pub signature : Bytes

unfoldable pub read_inbox_request : Fields → Result InboxRequest
read_inbox_request obj =
    Prelude.◌>>◌
      (admitted true ("action" ∷ "auditor" ∷ "orderId" ∷ "issuedAt" ∷ "signature" ∷ []) obj)
      (Prelude.◌>>=◌ (text_in "action" obj) λ x0. Prelude.◌>>=◌ (text_in "auditor" obj) λ x1.
        Prelude.◌>>=◌ (text?_in "orderId" obj) λ x2. Prelude.◌>>=◌ (text_in "issuedAt" obj) λ x3.
          Prelude.◌>>=◌ (text_in "signature" obj) λ x4.
            ok
              (record { action = x0; auditor = x1; order_id = x2; issued_at = x3; signature = x4 }))

-- ParseTime succeeds with a time that RequestSkew allows.
abbrev pub is_recent : Time → Result Time → Bool
is_recent now (err e) = false
is_recent now (ok at) = is_near now at

abbrev pub succeeds : Result (Unit {0}) → Bool
succeeds (err e) = false
succeeds (ok u) = true

-- The checks of `inbox`: the request, from the auditor's own key.
unfoldable pub check_inbox : Hub → Bytes → Time → Tenant → Bytes → Outcome InboxRequest
check_inbox h slug now t raw_in = do
  m ← tenant h slug now t
  raw ← or_fail 422 (canonical raw_in)
  obj ← or_fail 422 (parse raw)
  q ← or_fail 422 (read_inbox_request obj)
  check (bytes_eq q.auditor m.component_id) 403
  check (succeeds (verify h.crypto raw (codes "signature") m.operator)) 403
  check (is_recent now (parse_time q.issued_at)) 403
  go q

-- The earlier received first; of the same second, as they are in the list.
unfoldable pub insert_order : QueuedOrder → List QueuedOrder → List QueuedOrder
insert_order x [] = x ∷ []
insert_order x (y ∷ ys) =
    let rest = insert_order x ys in
    if bytes_lt y.received_at x.received_at then y ∷ rest else x ∷ y ∷ ys

-- (*Hub).queued
unfoldable pub queued_orders : List (Bytes × QueuedOrder) → List QueuedOrder
queued_orders [] = []
queued_orders ((k, x) ∷ os) = insert_order x (queued_orders os)

-- (*Hub).held: the ids of what is held, and when it is released.
unfoldable pub held_entries : List (Bytes × HeldFile) → List (Bytes × Bytes)
held_entries [] = []
held_entries ((id, hf) ∷ hs) = (id, hf.release_at) ∷ held_entries hs

pub data InboxReply : Type 0 where
  refused : ℕ → InboxReply
  listing : List QueuedOrder → List (Bytes × Bytes) → InboxReply
  declined : Bytes → InboxReply

abbrev pub decline : Tenant → Option Bytes → InboxReply × Tenant
decline t none = (refused 422, t)
decline t (some id) =
    if is_id id then (declined id, record t { inbox = drop_order id t.inbox }) else (refused 422, t)

unfoldable pub answer_inbox : Tenant → InboxRequest → InboxReply × Tenant
answer_inbox t q =
    if bytes_eq q.action (codes "list")
    then (listing (queued_orders t.inbox) (held_entries t.held), t)
    else if bytes_eq q.action (codes "decline")
    then decline t q.order_id
    else (refused 422, t)

abbrev pub with_inbox : Tenant → Outcome InboxRequest → InboxReply × Tenant
with_inbox t (stop code) = (refused code, t)
with_inbox t (go q) = answer_inbox t q

-- inbox
unfoldable pub inbox : Hub → Bytes → Time → Tenant → Bytes → InboxReply × Tenant
inbox h slug now t raw_in = with_inbox t (check_inbox h slug now t raw_in)

-- A request for the state of an order.
pub record StatusRequest : Type 0 where
  pub action : Bytes
  pub order_id : Bytes
  pub sponsor : Bytes
  pub issued_at : Bytes
  pub signature : Bytes

unfoldable pub read_status_request : Fields → Result StatusRequest
read_status_request obj =
    Prelude.◌>>◌
      (admitted true ("action" ∷ "orderId" ∷ "sponsor" ∷ "issuedAt" ∷ "signature" ∷ []) obj)
      (Prelude.◌>>=◌ (text_in "action" obj) λ x0. Prelude.◌>>=◌ (text_in "orderId" obj) λ x1.
        Prelude.◌>>=◌ (text_in "sponsor" obj) λ x2. Prelude.◌>>=◌ (text_in "issuedAt" obj) λ x3.
          Prelude.◌>>=◌ (text_in "signature" obj) λ x4.
            ok
              (record { action = x0; order_id = x1; sponsor = x2; issued_at = x3; signature = x4 }))

-- The checks of `orderStatus`: the request, from the key that it names.
unfoldable pub check_status_request : Hub → Bytes → Time → Tenant → Bytes → Outcome StatusRequest
check_status_request h slug now t raw_in = do
  _ ← tenant h slug now t
  raw ← or_fail 422 (canonical raw_in)
  obj ← or_fail 422 (parse raw)
  q ← or_fail 422 (read_status_request obj)
  check (bytes_eq q.action (codes "order-status") && is_id q.order_id) 422
  check (is_recent now (parse_time q.issued_at)) 403
  check (succeeds (verify h.crypto raw (codes "signature") q.sponsor)) 403
  go q

abbrev pub sponsored : Crypto → Bytes → Bytes → Option QueuedOrder → Bool
sponsored c slug k none = false
sponsored c slug k (some x) =
    elim (parse_order_request c x.order (codes "onym:component:" ++ slug)) [
      | ok o ↦ bytes_eq o.sponsor k
      | err e ↦ false
    ]

abbrev pub names_sponsor : Bytes → Option Bytes → Bool
names_sponsor k none = false
names_sponsor k (some raw) = elim (Prelude.◌>>=◌ (parse raw) (λ obj. text_in "sponsor" obj)) [
  | ok s ↦ bytes_eq s k
  | err e ↦ false
]

-- orderStatus: whether an order of the sponsor is queued, and whether it is held.
unfoldable pub order_status : Hub → Bytes → Time → Tenant → Bytes → Outcome (Bool × Bool)
order_status h slug now t raw_in = do
  q ← check_status_request h slug now t raw_in
  go (
    sponsored h.crypto slug q.sponsor (queued q.order_id t.inbox),
    names_sponsor q.sponsor (held_order q.order_id t.held),
  )
