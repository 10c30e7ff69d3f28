-- ===== src/Hub/Board.antt =====
-- hub/requests.go and hub/orders.go: what becomes of the directory of requests, whatever auditors
-- and orderers ask of the hub, each at a time that is not before the one of the last.
pub mod Effects
pub mod Later
pub mod Bound
pub mod Closing
pub mod Naming
pub mod Exclusive
pub mod Tests
use onym_audit.Prelude.{◌≤◌, ◌≡◌, Bytes}
use onym_audit.Sig.Time.{Time}
use onym_audit.Files.{Files}
use onym_audit.Hub.{Hub, Tenant}
use onym_audit.Hub.Requests.{post_request}
use onym_audit.Hub.Intake.{Posted, post_order}
use onym_audit.Hub.Answers.{respond}

-- One handled call that may change the directory. The auditor that a call is about is in any state.
pub data Step (h : Hub) (now : Time) (board : Files) : Files → Type 0 where
  requested : (raw : Bytes) → Step h now board (post_request h.crypto now raw board).1
  answered :
      (slug : Bytes)
      → (t : Tenant) → (id raw : Bytes) → Step h now board (respond h slug now t board id raw).2
  ordered :
      (slug : Bytes)
      → (t : Tenant) → (p : Posted) → Step h now board (post_order h slug now t board p).2

-- Calls from a time and a directory on.
pub data Reach (h : Hub) (start : Time) (board : Files) : Time → Files → Type 0 where
  here : Reach h start board start board
  next :
      {now later : Time} {b b' : Files}
      → Reach h start board now b
      → now ≤ later
      → Step h later b b'
      → Reach h start board later b'
