-- ===== src/Hub/Queue/Thinning.antt =====
-- hub/hub.go and hub/orders.go: what is handled for an auditor leaves its inbox, or takes an order
-- out of it.
use onym_audit.Prelude.{
  true, ◌||◌, not, List, ltb, ◌+◌, Bytes, Option, none, some, Result, ok, err, Bool-cases, inl, inr,
}
use onym_audit.Sig.Time.{Time}
use onym_audit.Files.{Files, exists, usage}
use onym_audit.Audit.Replies.{Revocation}
use onym_audit.Audit.Offers.{Offer}
use onym_audit.Site.{manifest_path}
use onym_audit.Hub.{Hub, Tenant, QueuedOrder, write_files, disabled, held_usage, max_tenant_bytes}
use onym_audit.Hub.Outcome.{Outcome, Reply, go, stop}
use onym_audit.Hub.Publish.{
  Commission, Publication, drop_order, fulfilled, after_resign, publish, publish_now, check_publish,
  held_or_written, written, hold, embargo, with_checks,
}
use onym_audit.Hub.Hold.{upkeep}
use onym_audit.Hub.Revoke.{
  revoke, revoke_now, revoked, check_revoke, response, respond_now, answered, check_response,
}
use onym_audit.Hub.Answers.{respond, check_respond, with_answer, recorded}
use onym_audit.Hub.Safety.{Call, publication, withdrawal, answer, round, handle}

pub data IsThinned (os : List (Bytes × QueuedOrder)) : List (Bytes × QueuedOrder) → Type 0 where
  kept : IsThinned os os
  dropped : (id : Bytes) → IsThinned os (drop_order id os)

fulfilled-IsThinned : (o : Commission) (t : Tenant) → IsThinned t.inbox (fulfilled o t).inbox
fulfilled-IsThinned none t = kept
fulfilled-IsThinned (some (o, p, raw)) t = dropped o.order_id

after_resign-IsThinned :
    (os : List (Bytes × QueuedOrder)) (t : Tenant) (r : Reply) (x : Result Files)
    → IsThinned os t.inbox
    → IsThinned os ((after_resign t r x).1).inbox
after_resign-IsThinned os t r (err e) k = k
after_resign-IsThinned os t r (ok tree) k = k

module _ (h : Hub) (slug : Bytes) (now : Time) (t : Tenant) where
  written-IsThinned :
      (p : Publication) (w : Files × Result (Unit {0}))
      → IsThinned t.inbox ((written h slug now t p w).1).inbox
  written-IsThinned p (tree, err e) = kept
  written-IsThinned p (tree, ok u) =
      after_resign-IsThinned t.inbox (fulfilled p.order (record t { tree = tree })) _ _
        (fulfilled-IsThinned p.order (record t { tree = tree }))

  hold-IsThinned : (p : Publication) (at : Time) → IsThinned t.inbox ((hold h slug t p at).1).inbox
  unfolding hold
  hold-IsThinned p at =
      elim (Bool-cases
        (ltb max_tenant_bytes (usage t.tree + held_usage h t.held + usage p.files))) [
          | inl e ↦ rw e kept
          | inr e ↦ rw e (fulfilled-IsThinned p.order _)
        ]

  publish-IsThinned :
      (raw : Bytes) (offered : Files)
      → IsThinned t.inbox ((publish h slug now t raw offered).1).inbox
  unfolding publish publish_now
  publish-IsThinned raw offered = by_checks (check_publish h slug now t raw offered)
    where
      by_embargo :
          (p : Publication) (e : Option Time)
          → IsThinned t.inbox ((held_or_written h slug now t p e).1).inbox
      by_embargo p none = written-IsThinned p (write_files h t p.files true)
      by_embargo p (some at) = hold-IsThinned p at

      by_checks :
          (x : Outcome Publication)
          → IsThinned t.inbox ((with_checks t (publish_now h slug now t) x).1).inbox
      by_checks (stop code) = kept
      by_checks (go p) = by_embargo p (embargo now p)

  revoke-IsThinned : (raw : Bytes) → IsThinned t.inbox ((revoke h slug now t raw).1).inbox
  unfolding revoke revoke_now
  revoke-IsThinned raw = by_checks (check_revoke h slug now t raw)
    where
      by_write :
          (path : Bytes) (w : Files × Result (Unit {0}))
          → IsThinned t.inbox ((revoked h slug now t path w).1).inbox
      by_write path (tree, err e) = kept
      by_write path (tree, ok u) =
          after_resign-IsThinned t.inbox (record t { tree = tree }) _ _ kept

      by_checks :
          (x : Outcome (Revocation × Bytes))
          → IsThinned t.inbox ((with_checks t (revoke_now h slug now t) x).1).inbox
      by_checks (stop code) = kept
      by_checks (go (rv, raw')) = by_write _ _

  response-IsThinned : (raw : Bytes) → IsThinned t.inbox ((response h slug now t raw).1).inbox
  unfolding response respond_now
  response-IsThinned raw = by_checks (check_response h slug now t raw)
    where
      by_write :
          (path : Bytes) (w : Files × Result (Unit {0}))
          → IsThinned t.inbox ((answered h slug now t path w).1).inbox
      by_write path (tree, err e) = kept
      by_write path (tree, ok u) = kept

      by_checks :
          (x : Outcome (Bytes × Bytes))
          → IsThinned t.inbox ((with_checks t (respond_now h slug now t) x).1).inbox
      by_checks (stop code) = kept
      by_checks (go (path, raw')) = by_write path _

  upkeep-IsThinned : IsThinned t.inbox (upkeep h slug now t).inbox
  unfolding upkeep
  upkeep-IsThinned = elim (Bool-cases (disabled t || not (exists manifest_path t.tree))) [
    | inl e ↦ rw e kept
    | inr e ↦ rw e kept
  ]

  pub respond-IsThinned :
      (board : Files) (id raw : Bytes)
      → IsThinned t.inbox ((respond h slug now t board id raw).1).inbox
  unfolding respond
  respond-IsThinned board id raw = by_checks (check_respond h slug now t board id raw)
    where
      by_write :
          (o : Offer × Bytes) (w : Files × Result (Unit {0}))
          → IsThinned t.inbox ((recorded h slug t board id o w).1).inbox
      by_write (of, r) (tree, err e) = kept
      by_write (of, r) (tree, ok u) = kept

      by_checks :
          (x : Outcome (Offer × Bytes))
          → IsThinned t.inbox ((with_answer h slug t board id x).1).inbox
      by_checks (stop code) = kept
      by_checks (go (of, r)) = by_write (of, r) _

  pub handle-IsThinned : (q : Call) → IsThinned t.inbox (handle h slug now q t).inbox
  unfolding handle
  handle-IsThinned (publication raw offered) = publish-IsThinned raw offered
  handle-IsThinned (withdrawal raw) = revoke-IsThinned raw
  handle-IsThinned (answer raw) = response-IsThinned raw
  handle-IsThinned round = upkeep-IsThinned
