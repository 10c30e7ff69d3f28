-- ===== src/Hub/Queue.antt =====
-- hub/orders.go: an auditor's inbox, through everything that the hub handles for the auditor.
pub mod Thinning
pub mod Limits
pub mod Orders
pub mod Access
pub mod Tests
use onym_audit.Prelude.{[], ◌∷◌, List, Bytes}
use onym_audit.Sig.Time.{Time}
use onym_audit.Files.{Files}
use onym_audit.Hub.{Hub, Tenant}
use onym_audit.Hub.Intake.{Posted, post_order}
use onym_audit.Hub.Inbox
use onym_audit.Hub.Answers.{respond}
use onym_audit.Hub.Safety.{Call, handle}

-- What is handled for an auditor: what it publishes, an order, a request for its inbox, and an
-- answer of it to a request for proposals. The directory of requests is in any state.
pub data Task : Type 0 where
  served : Call → Task
  posted : Files → Posted → Task
  asked : Bytes → Task
  answered : Files → Bytes → Bytes → Task

unfoldable pub perform : Hub → Bytes → Time → Task → Tenant → Tenant
perform h slug now (served q) t = handle h slug now q t
perform h slug now (posted board p) t = (post_order h slug now t board p).1
perform h slug now (asked raw) t = (Inbox.inbox h slug now t raw).1
perform h slug now (answered board id raw) t = (respond h slug now t board id raw).1

unfoldable pub perform_all : Hub → Bytes → List (Time × Task) → Tenant → Tenant
perform_all h slug [] t = t
perform_all h slug ((now, q) ∷ qs) t = perform_all h slug qs (perform h slug now q t)
