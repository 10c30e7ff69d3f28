-- ===== src/Hub/Queue/Tests.antt =====
-- An order that is posted, asked after and declined.
use onym_audit.Prelude.{ℕ, ◌≡◌, ◌⊎◌, refl, Bool, true, false, [], ◌∷◌, List, Bytes, codes, arith}
use onym_audit.Sig.Time.{Time}
use onym_audit.Audit.Tests.{noon}
use onym_audit.Hub.{Tenant}
use onym_audit.Hub.Outcome.{Outcome, go}
use onym_audit.Hub.Publish.{drop_order}
use onym_audit.Hub.Inbox
use onym_audit.Hub.Inbox.{
  InboxReply, InboxRequest, StatusRequest, refused, declined, is_recent, succeeds,
  read_inbox_request, read_status_request, check_inbox, check_status_request, answer_inbox,
  order_status,
}
use onym_audit.Hub.Safety.{round}
use onym_audit.Hub.Board.Tests.{
  hub, slug, auditor, posted, run_posted, request_board, order_text, decline_text, status_text,
}
use onym_audit.Hub.Queue
use onym_audit.Hub.Queue.{Task, served, asked, perform_all}
use onym_audit.Hub.Queue.Limits.{IsQueue, perform_all-IsQueue}
use onym_audit.Hub.Queue.Access.{
  IsByOperator, IsServed, inbox-IsByOperator, IsAskedBy, IsQueuedFor, order_status-IsQueuedFor,
}

abbrev queueing : Tenant
queueing = record auditor {
  inbox =
      (
        codes "order-0123456789",
        record {
          order = order_text;
          scope_text = codes "look";
          contact = codes "me";
          received_at = codes "2026-02-01T12:00:00Z";
        },
      )
      ∷ [];
}

run_inbox : Bytes → InboxReply × Tenant
unfolding run_posted drop_order Inbox.inbox answer_inbox read_inbox_request check_inbox
run_inbox raw = Inbox.inbox hub slug noon queueing raw

inbox_declined : (run_inbox decline_text) ≡ (declined (codes "order-0123456789"), auditor)
unfolding run_inbox
inbox_declined = refl

run_status : Bytes → Outcome (Bool × Bool)
unfolding run_posted order_status read_status_request check_status_request
run_status raw = order_status hub slug noon queueing raw

status-queued : order_status hub slug noon queueing status_text ≡ go (true, false)
unfolding run_status
status-queued = refl

order_status-IsQueuedFor_example :
    (q : StatusRequest) × IsAskedBy hub.crypto noon status_text q
    × IsQueuedFor hub.crypto slug queueing q
order_status-IsQueuedFor_example =
    order_status-IsQueuedFor hub slug noon queueing status_text false status-queued

inbox-IsByOperator_example :
    ((code : ℕ) × (Inbox.inbox hub slug noon queueing decline_text ≡ (refused code, queueing)))
    ⊎ ((q : InboxRequest) × IsByOperator hub slug noon queueing decline_text q
        × IsServed queueing q (Inbox.inbox hub slug noon queueing decline_text).1)
inbox-IsByOperator_example = inbox-IsByOperator hub slug noon queueing decline_text

abbrev tasks : List (Time × Task)
tasks =
    (noon, Queue.posted request_board posted)
    ∷ (noon, served round)
    ∷ (noon, asked decline_text)
    ∷ []

auditor-IsQueue : IsQueue hub.crypto auditor.inbox
auditor-IsQueue = record { bounded = omega arith; orders = tt }

perform_all-IsQueue_example : IsQueue hub.crypto (perform_all hub slug tasks auditor).inbox
perform_all-IsQueue_example = perform_all-IsQueue hub slug tasks auditor auditor-IsQueue
