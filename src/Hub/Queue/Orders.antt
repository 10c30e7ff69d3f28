-- ===== src/Hub/Queue/Orders.antt =====
-- hub/orders.go: what the posting of an order comes to.
use onym_audit.Prelude.{◌≡◌, ◌⊎◌, false, Bytes, bytes_eq, if◌then◌else◌, none, some}
use onym_audit.Sig.Time.{Time}
use onym_audit.Files.{Files}
use onym_audit.Audit.Orders.{AuditOrder}
use onym_audit.Hub.{Hub, Tenant, QueuedOrder}
use onym_audit.Hub.Outcome.{Outcome, go}
use onym_audit.Hub.Requests.{close_request}
use onym_audit.Hub.Intake.{Posted, Intake, check_posted, queued, is_fulfilled}

-- The order is in the inbox, which otherwise is as it was, and has not been fulfilled.
pub record IsTaken (h : Hub) (slug : Bytes) (now : Time) (t : Tenant) (board : Files) (p : Posted)
    (r : Intake) : Type 0 where
  pub raw : Bytes
  pub order : AuditOrder
  pub checked : check_posted h slug now t board p ≡ go (raw, order)
  pub unfulfilled : is_fulfilled order.order_id t ≡ false
  pub entry : QueuedOrder
  pub bytes : entry.order ≡ raw
  pub before : (queued order.order_id t.inbox ≡ none) ⊎ (queued order.order_id t.inbox ≡ some entry)
  pub after :
      (id : Bytes)
      → queued id r.1.inbox ≡ (if bytes_eq order.order_id id then some entry else queued id t.inbox)
  pub closed : r.2 ≡ close_request now order.fee.offer_id board
