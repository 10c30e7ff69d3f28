-- ===== src/Hub/Handled.antt =====
-- hub/hub.go, hub/orders.go: what a handler does to what is published and to what is held.
use onym_audit.Prelude.{
  ◌≡◌, refl, ◌∙◌, true, false, ◌||◌, not, [], ◌∷◌, List, ltb, ◌+◌, Bytes, bytes_eq, bytes_eq→eq,
  bytes_eq_refl, Option, none, some, Result, ok, err, arith, Bool-cases, inl, inr,
}
use onym_audit.Sig.Time.{Time}
use onym_audit.Files.{Files, read_file, exists, usage}
use onym_audit.Audit.Replies.{Revocation}
use onym_audit.Site.{manifest_path}
use onym_audit.Hub.{
  Hub, Tenant, HeldFile, write_files, resign, disabled, held_usage, max_tenant_bytes,
}
use onym_audit.Hub.Outcome.{Outcome, go, stop, replied}
use onym_audit.Hub.Held.Insert.{insert_held-IsTidy, IsSealed-insert_held}
use onym_audit.Hub.Publish.{
  Publication, Commission, attestation_path, is_held, check_publish, publish_now, publish, hold,
  written, fulfilled, embargo, with_checks, held_or_written, after_resign, uri_and_digest,
}
use onym_audit.Hub.Revoke.{
  revocation_path, response_path, check_revoke, revoke_now, revoke, revoked, check_response,
  respond_now, response, answered,
}
use onym_audit.Hub.Hold.{held_file, upkeep, released, release, or_as_before}
use onym_audit.Hub.Writes.{attestation, IsKept}
use onym_audit.Hub.Held.{IsTidy, AreApart, own-IsKept, not_held-AreApart, IsTidy-kept}
use onym_audit.Hub.Held.Release.{IsReleased, release-IsReleased}
use onym_audit.Hub.Held.Sealed.{IsSealed, release-IsSealed}
use onym_audit.Hub.Steps

fulfilled-IsSafe :
    (now : Time) (o : Commission) (t t' : Tenant)
    → Steps.IsSafe now t t'
    → Steps.IsSafe now t (fulfilled o t')
fulfilled-IsSafe now none t t' s = s
fulfilled-IsSafe now (some x) t t' s = record { tidy = s.tidy; grown = s.grown; sealed = s.sealed }

revocation_apart : (id : Bytes) (hs : List (Bytes × HeldFile)) → AreApart (revocation_path id) hs
revocation_apart id [] = tt
revocation_apart id (x ∷ hs) = (unfold bytes_eq in refl, revocation_apart id hs)

reply_apart : (id rid : Bytes) (hs : List (Bytes × HeldFile)) → AreApart (response_path id rid) hs
reply_apart id rid [] = tt
reply_apart id rid (x ∷ hs) = (unfold bytes_eq in refl, reply_apart id rid hs)

found-other :
    (id k : Bytes) (hf : HeldFile) (hs : List (Bytes × HeldFile))
    → is_held k hs ≡ false
    → held_file id hs ≡ some hf
    → bytes_eq k id ≡ false
unfolding is_held held_file
found-other id k hf [] n f = absurd (cc)
found-other id k hf ((j, x) ∷ hs) n f = elim (Bool-cases (bytes_eq j id)) [
  | inl e ↦ ground (arith, bytes_eq→eq j id, bytes_eq→eq k id, bytes_eq_refl id, bytes_eq_refl j)
  | inr e ↦ found-other id k hf hs (ground arith) (rw e at f)
]

pub hold-IsSafe :
    (h : Hub) (slug : Bytes) (now : Time) (t : Tenant) (p : Publication) (at : Time)
    → Steps.IsPublishable t p
    → IsTidy t.tree t.held
    → Steps.IsSafe now t ((hold h slug t p at).1)
unfolding hold
hold-IsSafe h slug now t p at i d =
    elim (Bool-cases (ltb max_tenant_bytes (usage t.tree + held_usage h t.held + usage p.files))) [
      | inl e ↦ rw e (Steps.same-IsSafe now t d)
      | inr e ↦ rw e (
          fulfilled-IsSafe now p.order t _ (record {
            tidy =
                insert_held-IsTidy t.tree p.attestation.attestation_id _ t.held i.not_held
                  (record { raw = p.raw; own = i.own; there = inl i.absent }) d;
            grown = λ k b r g. g;
            sealed = λ id hf s.
                IsSealed-insert_held now id p.attestation.attestation_id hf _ t.tree t.held
                  (found-other id p.attestation.attestation_id hf t.held i.not_held s.found) s;
          }))
    ]

written-IsSafe :
    (h : Hub) (slug : Bytes) (now : Time) (t : Tenant) (p : Publication)
    (x : Files × Result (Unit {0}))
    → Steps.IsPublishable t p
    → IsTidy t.tree t.held
    → IsKept (attestation_path p.attestation.attestation_id) t.tree x.0
    → Steps.IsSafe now t ((written h slug now t p x).1)
written-IsSafe h slug now t p (tree, err e) i d k =
    Steps.one_written now (attestation_path p.attestation.attestation_id) t
      (record t { tree = tree }) i.absent
      (not_held-AreApart p.attestation.attestation_id t.held i.not_held) k refl d
written-IsSafe h slug now t p (tree, ok u) i d k = by_order p.order
  where
    w : Bytes
    w = attestation_path p.attestation.attestation_id

    settled :
        (t' : Tenant)
        → t'.tree ≡ tree
        → t'.held ≡ t.held
        → Steps.IsSafe now t
            ((after_resign t' (replied 201 (uri_and_digest h slug p)) (resign h slug now t')).1)
    settled t' e f =
        Steps.one_written now w t _ i.absent
          (not_held-AreApart p.attestation.attestation_id t.held i.not_held)
          (Steps.after_resign-IsKept w slug h now t.tree t' _ (rw e k))
          (Steps.after_resign-held t' _ (resign h slug now t') ∙ f) d

    by_order :
        (o : Commission)
        → Steps.IsSafe now t (
            (after_resign
              (fulfilled o (record t { tree = tree }))
              (replied 201 (uri_and_digest h slug p))
              (resign h slug now (fulfilled o (record t { tree = tree })))).1)
    by_order none = settled (record t { tree = tree }) refl refl
    by_order (some x) = settled (fulfilled (some x) (record t { tree = tree })) refl refl

revoked-IsSafe :
    (h : Hub) (slug : Bytes) (now : Time) (t : Tenant) (id : Bytes) (x : Files × Result (Unit {0}))
    → read_file (revocation_path id) t.tree ≡ none
    → IsTidy t.tree t.held
    → IsKept (revocation_path id) t.tree x.0
    → Steps.IsSafe now t ((revoked h slug now t (revocation_path id) x).1)
revoked-IsSafe h slug now t id (tree, err e) n d k =
    Steps.one_written now (revocation_path id) t (record t { tree = tree }) n
      (revocation_apart id t.held) k refl d
revoked-IsSafe h slug now t id (tree, ok u) n d k =
    let t' : Tenant = record t { tree = tree } in
    Steps.one_written now (revocation_path id) t _ n (revocation_apart id t.held)
      (Steps.after_resign-IsKept (revocation_path id) slug h now t.tree t' _ k)
      (Steps.after_resign-held t' _ (resign h slug now t')) d

answered-IsSafe :
    (h : Hub) (slug : Bytes) (now : Time) (t : Tenant) (id rid : Bytes)
    (x : Files × Result (Unit {0}))
    → read_file (response_path id rid) t.tree ≡ none
    → IsTidy t.tree t.held
    → IsKept (response_path id rid) t.tree x.0
    → Steps.IsSafe now t ((answered h slug now t (response_path id rid) x).1)
answered-IsSafe h slug now t id rid (tree, err e) n d k =
    Steps.one_written now (response_path id rid) t (record t { tree = tree }) n
      (reply_apart id rid t.held) k refl d
answered-IsSafe h slug now t id rid (tree, ok u) n d k =
    let t' : Tenant = record t { tree = tree } in
    Steps.one_written now (response_path id rid) t
      (record t' { tree = or_as_before tree (resign h slug now t') }) n (reply_apart id rid t.held)
      (λ j r e. Steps.or_as_before-kept slug h now t' j r ∙ k j r e) refl d

pub publish-IsSafe :
    (h : Hub) (slug : Bytes) (now : Time) (t : Tenant) (raw_in : Bytes) (docs_in : Files)
    → IsTidy t.tree t.held
    → Steps.IsSafe now t ((publish h slug now t raw_in docs_in).1)
unfolding publish publish_now
publish-IsSafe h slug now t raw_in docs_in d =
    by_checks (check_publish h slug now t raw_in docs_in) refl
  where
    by_embargo :
        (p : Publication)
        → Steps.IsPublishable t p
        → (e : Option Time) → Steps.IsSafe now t ((held_or_written h slug now t p e).1)
    by_embargo p i (some at) = hold-IsSafe h slug now t p at i d
    by_embargo p i none = written-IsSafe h slug now t p (write_files h t p.files true) i d (
        Steps.write_files-IsKept _ h t p.files true
          (own-IsKept p.attestation.attestation_id p.raw p.files t.tree i.own))

    by_checks :
        (o : Outcome Publication)
        → check_publish h slug now t raw_in docs_in ≡ o
        → Steps.IsSafe now t ((with_checks t (publish_now h slug now t) o).1)
    by_checks (stop code) e = Steps.same-IsSafe now t d
    by_checks (go p) e =
        by_embargo p (Steps.check_publish-IsPublishable h slug now t raw_in docs_in p e)
          (embargo now p)

pub revoke-IsSafe :
    (h : Hub) (slug : Bytes) (now : Time) (t : Tenant) (raw_in : Bytes)
    → IsTidy t.tree t.held
    → Steps.IsSafe now t ((revoke h slug now t raw_in).1)
unfolding revoke revoke_now
revoke-IsSafe h slug now t raw_in d = by_checks (check_revoke h slug now t raw_in) refl
  where
    by_checks :
        (o : Outcome (Revocation × Bytes))
        → check_revoke h slug now t raw_in ≡ o
        → Steps.IsSafe now t ((with_checks t (revoke_now h slug now t) o).1)
    by_checks (stop code) e = Steps.same-IsSafe now t d
    by_checks (go (rv, raw)) e =
        revoked-IsSafe h slug now t rv.attestation_id
          (write_files h t ((revocation_path rv.attestation_id, raw) ∷ []) false)
          (Steps.check_revoke-none h slug now t raw_in rv raw e) d
          (Steps.write_files-IsKept _ h t _ false (Steps.one_file-IsKept _ raw t.tree))

pub response-IsSafe :
    (h : Hub) (slug : Bytes) (now : Time) (t : Tenant) (raw_in : Bytes)
    → IsTidy t.tree t.held
    → Steps.IsSafe now t ((response h slug now t raw_in).1)
unfolding response respond_now
response-IsSafe h slug now t raw_in d = by_checks (check_response h slug now t raw_in) refl
  where
    at_path :
        (path raw id rid : Bytes)
        → path ≡ response_path id rid
        → read_file path t.tree ≡ none
        → Steps.IsSafe now t ((respond_now h slug now t (path, raw)).1)
    at_path path raw id rid q n = rw q (
        answered-IsSafe h slug now t id rid
          (write_files h t ((response_path id rid, raw) ∷ []) true) (rw q at n) d
          (Steps.write_files-IsKept _ h t _ true (Steps.one_file-IsKept _ raw t.tree)))

    by_checks :
        (o : Outcome (Bytes × Bytes))
        → check_response h slug now t raw_in ≡ o
        → Steps.IsSafe now t ((with_checks t (respond_now h slug now t) o).1)
    by_checks (stop code) e = Steps.same-IsSafe now t d
    by_checks (go (path, raw)) e =
        let (id, rid, q, n) = Steps.check_response-none h slug now t raw_in path raw e in
        at_path path raw id rid q n

pub upkeep-IsSafe :
    (h : Hub) (slug : Bytes) (now : Time) (t : Tenant)
    → IsTidy t.tree t.held
    → Steps.IsSafe now t (upkeep h slug now t)
unfolding upkeep
upkeep-IsSafe h slug now t d = elim (Bool-cases (disabled t || not (exists manifest_path t.tree))) [
  | inl e ↦ rw e (Steps.same-IsSafe now t d)
  | inr e ↦ rw e (record {
    tidy =
        IsTidy-kept [] r.0 (or_as_before r.0 (resign h slug now t')) r.1
          (λ k rec n. Steps.or_as_before-kept slug h now t' k rec) (nowhere r.1) (done.tidy);
    grown = λ k b rec g. Steps.or_as_before-kept slug h now t' k rec ∙ done.grown k b rec g;
    sealed = λ id hf s. still id hf (release-IsSealed now t.tree id hf t.held d s);
  })
]
  where
    r : Files × List (Bytes × HeldFile)
    r = release now t.tree t.held

    t' : Tenant
    t' = released now t

    done : IsReleased t.tree t.held r
    done = release-IsReleased now t.tree t.held d

    still :
        (id : Bytes) (hf : HeldFile)
        → IsSealed now id hf r.0 r.1
        → IsSealed now id hf (or_as_before r.0 (resign h slug now t')) r.1
    still id hf s = record {
      found = s.found;
      waiting = s.waiting;
      unpublished =
          Steps.or_as_before-kept slug h now t' (attestation_path id) (attestation id)
          ∙ s.unpublished;
    }

    nowhere : (hs : List (Bytes × HeldFile)) → AreApart [] hs
    nowhere [] = tt
    nowhere (x ∷ hs) = (unfold bytes_eq in refl, nowhere hs)
