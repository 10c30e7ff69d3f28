-- ===== src/Hub/Steps.antt =====
-- hub/hub.go: what the checks of the handlers make sure of, and what one write leaves as it was.
use onym_audit.Prelude.{
  ◌+◌, Option-cases, ◌≡◌, refl, sym, subst, ◌∙◌, inl, inr, Bool, true, false, ◌&&◌, ◌||◌, not, [],
  ◌∷◌, ◌++◌, All, ltb, Bytes, codes, bytes_eq, bytes_eq→eq, none, Result, ok, err, arith,
  Bool-cases,
}
use onym_audit.Canon.Decode.{parse}
use onym_audit.Sig.Sign.{digest}
use onym_audit.Sig.Time.{Time}
use onym_audit.Files.{Files, read_file, write_atomic, exists, usage}
use onym_audit.Audit.Attestation.{Attestation, parse_attestation}
use onym_audit.Audit.Manifest.{AuditorManifest}
use onym_audit.Audit.Replies.{Revocation, parse_revocation, parse_response}
use onym_audit.Hub.{
  Hub, Tenant, HeldFile, is_doc_path, write_each, write_files, resign, docs, canonical, held_usage,
  max_tenant_bytes, replaced, max_responses, all_pinned, base,
}
use onym_audit.Hub.Outcome.{Reply, go, or_fail, >>=-eq-go, check-eq-go, or_fail-eq-go}
use onym_audit.Hub.Publish.{
  Publication, check_attestation, check_offered, attestation_path, is_held, tenant, check_publish,
  after_resign, commissioned, unchanged, refs, unsolicited_by, or_stop, all_wanted, commission_path,
  named_paths,
}
use onym_audit.Hub.Revoke.{
  revocation_path, response_path, check_revoke, check_response, response_dir, base_name, head_text,
  count_under,
}
use onym_audit.Hub.Hold.{or_as_before}
use onym_audit.Hub.Writes.{IsRecord, attestation, IsKept, write_each-kept, resign-kept, docs-paths}
use onym_audit.Hub.Held.{IsOwn, IsTidy, AreApart, IsTidy-kept}
use onym_audit.Hub.Held.Release.{IsGrown}
use onym_audit.Hub.Held.Sealed.{IsSealed, found-apart}

-- A step keeps what is published as it was, what is held in order, and what is under an embargo
-- that lasts unpublished.
pub record IsSafe (now : Time) (t t' : Tenant) : Type 0 where
  pub tidy : IsTidy t'.tree t'.held
  pub grown : IsGrown t.tree t'.tree
  pub sealed :
      (id : Bytes) (hf : HeldFile)
      → IsSealed now id hf t.tree t.held
      → IsSealed now id hf t'.tree t'.held

pub same-IsSafe : (now : Time) (t : Tenant) → IsTidy t.tree t.held → IsSafe now t t
same-IsSafe now t d = record { tidy = d; grown = λ k b r h. h; sealed = λ id hf s. s }

kept-IsGrown : (w : Bytes) (fs gs : Files) → read_file w fs ≡ none → IsKept w fs gs → IsGrown fs gs
kept-IsGrown w fs gs n kept k b r h = elim (Bool-cases (bytes_eq w k)) [
  | inl e ↦ absurd (let z = bytes_eq→eq w k e in let u = rw z at n in cc)
  | inr e ↦ kept k r e ∙ h
]

-- One new document is written at a path where there is none.
pub one_written :
    (now : Time) (w : Bytes) (t t' : Tenant)
    → read_file w t.tree ≡ none
    → AreApart w t.held
    → IsKept w t.tree t'.tree
    → t'.held ≡ t.held
    → IsTidy t.tree t.held
    → IsSafe now t t'
one_written now w t t' n a k e d = record {
  tidy = rw e (IsTidy-kept w t.tree t'.tree t.held k a d);
  grown = kept-IsGrown w t.tree t'.tree n k;
  sealed = λ id hf s. record {
    found = rw e s.found;
    waiting = s.waiting;
    unpublished =
        k (attestation_path id) (attestation id) (found-apart w id hf t.held a s.found)
        ∙ s.unpublished;
  };
}

pub write_files-IsKept :
    (w : Bytes) (h : Hub) (t : Tenant) (fs : Files) (quota : Bool)
    → IsKept w t.tree (write_each fs t.tree).0
    → IsKept w t.tree (write_files h t fs quota).0
unfolding write_files
write_files-IsKept w h t fs quota kept k r e =
    elim (Bool-cases (
      quota
      && ltb (max_tenant_bytes + replaced fs t.tree)
          (usage t.tree + held_usage h t.held + usage fs))) [
            | inl p ↦ rw p refl
            | inr p ↦ rw p (kept k r e)
          ]

pub one_file-IsKept :
    (w raw : Bytes) (tree : Files) → IsKept w tree (write_each ((w, raw) ∷ []) tree).0
one_file-IsKept w raw tree k r e = write_each-kept k ((w, raw) ∷ []) tree r (e, tt)

-- Signing the status list again, whether it succeeds or not.
pub after_resign-IsKept :
    (w slug : Bytes) (h : Hub) (now : Time) (fs : Files) (t : Tenant) (r : Reply)
    → IsKept w fs t.tree
    → IsKept w fs ((after_resign t r (resign h slug now t)).1).tree
after_resign-IsKept w slug h now fs t r kept k rec e = by_result (resign h slug now t) refl
  where
    by_result :
        (x : Result Files)
        → resign h slug now t ≡ x
        → read_file k ((after_resign t r x).1).tree ≡ read_file k fs
    by_result (err _) q = kept k rec e
    by_result (ok gs) q = resign-kept k slug h now t gs rec q ∙ kept k rec e

pub after_resign-held :
    (t : Tenant) (r : Reply) (x : Result Files) → ((after_resign t r x).1).held ≡ t.held
after_resign-held t r (err _) = refl
after_resign-held t r (ok gs) = refl

pub or_as_before-kept :
    (slug : Bytes) (h : Hub) (now : Time) (t : Tenant) (k : Bytes)
    → IsRecord k
    → read_file k (or_as_before t.tree (resign h slug now t)) ≡ read_file k t.tree
or_as_before-kept slug h now t k rec = by_result (resign h slug now t) refl
  where
    by_result :
        (x : Result Files)
        → resign h slug now t ≡ x
        → read_file k (or_as_before t.tree x) ≡ read_file k t.tree
    by_result (err _) q = refl
    by_result (ok gs) q = resign-kept k slug h now t gs rec q

pub none_at : (p : Bytes) (fs : Files) → exists p fs ≡ false → read_file p fs ≡ none
none_at p fs h = elim (Option-cases (read_file p fs)) [
  | inl e ↦ e
  | inr (b, e) ↦ absurd (let z = rw (exists, e) at h in cc)
]

-- The checks of `revoke` leave a path where there is no file.
pub check_revoke-none :
    (h : Hub) (slug : Bytes) (now : Time) (t : Tenant) (raw_in : Bytes) (rv : Revocation)
    (raw : Bytes)
    → check_revoke h slug now t raw_in ≡ go (rv, raw)
    → read_file (revocation_path rv.attestation_id) t.tree ≡ none
unfolding check_revoke
check_revoke-none h slug now t raw_in rv raw e =
    let (m, _, e1) = >>=-eq-go (tenant h slug now t) _ e in
    let (raw1, _, e2) = >>=-eq-go (or_fail 422 (canonical raw_in)) _ e1 in
    let (rv1, _, e3) = >>=-eq-go (or_fail 422 (parse_revocation h.crypto raw1)) _ e2 in
    let (_, e4) =
      check-eq-go (bytes_eq rv1.auditor_key m.operator && bytes_eq rv1.auditor m.component_id) 422 _
        e3 in
    let (_, e5) = check-eq-go (exists (attestation_path rv1.attestation_id) t.tree) 404 _ e4 in
    let (q, e6) = check-eq-go (not (exists (revocation_path rv1.attestation_id) t.tree)) 409 _ e5 in
    let same : rv1 ≡ rv = cc e6 in rw (sym same) (none_at _ t.tree (ground (arith, q)))

-- The checks of `response` leave a path of responses/ where there is no file.
pub check_response-none :
    (h : Hub) (slug : Bytes) (now : Time) (t : Tenant) (raw_in path raw : Bytes)
    → check_response h slug now t raw_in ≡ go (path, raw)
    → (id : Bytes) × (rid : Bytes) × (path ≡ response_path id rid) × (read_file path t.tree ≡ none)
unfolding check_response
check_response-none h slug now t raw_in path raw e =
    let (m, _, e1) = >>=-eq-go (tenant h slug now t) _ e in
    let (raw1, _, e2) = >>=-eq-go (or_fail 422 (canonical raw_in)) _ e1 in
    let (obj, _, e3) = >>=-eq-go (or_fail 422 (parse raw1)) _ e2 in
    let (att_raw, _, e4) =
      >>=-eq-go
        (or_stop 404
          (read_file (attestation_path (base_name (head_text (codes "attestationId") obj))) t.tree))
        _ e3 in
    let (att, _, e5) = >>=-eq-go (or_fail 500 (parse_attestation h.crypto att_raw)) _ e4 in
    let (_, _, e6) =
      >>=-eq-go (or_fail 422 (parse_response h.crypto raw1 att (digest h.crypto att_raw))) _ e5 in
    let (q, e7) =
      check-eq-go
        (not
          (exists (response_path att.attestation_id (head_text (codes "responseId") obj)) t.tree))
        409 _ e6 in
    let (_, e8) =
      check-eq-go (ltb (count_under (response_dir att.attestation_id) t.tree) max_responses) 409 _
        e7 in
    let same : response_path att.attestation_id (head_text (codes "responseId") obj) ≡ path =
      cc e8 in
    (
      att.attestation_id,
      head_text (codes "responseId") obj,
      sym same,
      rw (sym same) (none_at _ t.tree (ground (arith, q))),
    )

IsOwn-files :
    (id raw : Bytes) (fs : Files)
    → All (λ x. is_doc_path x.0 ≡ true) fs
    → All (IsOwn id raw) (write_atomic (attestation_path id) raw fs)
unfolding write_atomic
IsOwn-files id raw [] a = (inl (refl, refl), tt)
IsOwn-files id raw ((p, b) ∷ fs) a = elim (Bool-cases (bytes_eq p (attestation_path id))) [
  | inl e ↦ rw e (inl (bytes_eq→eq p (attestation_path id) e, refl), docs_own fs a.1)
  | inr e ↦ rw e (inr a.0, IsOwn-files id raw fs a.1)
]
  where
    docs_own : (gs : Files) → All (λ x. is_doc_path x.0 ≡ true) gs → All (IsOwn id raw) gs
    docs_own [] d = tt
    docs_own (g ∷ gs) d = (inr d.0, docs_own gs d.1)

-- What the checks of `publish` make sure of.
pub record IsPublishable (t : Tenant) (p : Publication) : Type 0 where
  pub absent : read_file (attestation_path p.attestation.attestation_id) t.tree ≡ none
  pub not_held : is_held p.attestation.attestation_id t.held ≡ false
  pub own : All (IsOwn p.attestation.attestation_id p.raw) p.files

check_attestation-new :
    (h : Hub) (slug : Bytes) (now : Time) (t : Tenant) (raw_in : Bytes) (m : AuditorManifest)
    (raw : Bytes) (a : Attestation)
    → check_attestation h slug now t raw_in ≡ go (m, raw, a)
    → (exists (attestation_path a.attestation_id) t.tree || is_held a.attestation_id t.held) ≡ false
unfolding check_attestation
check_attestation-new h slug now t raw_in m raw a e =
    let (m1, _, e1) = >>=-eq-go (tenant h slug now t) _ e in
    let (raw1, _, e2) = >>=-eq-go (or_fail 422 (canonical raw_in)) _ e1 in
    let (a1, _, e3) = >>=-eq-go (or_fail 422 (parse_attestation h.crypto raw1)) _ e2 in
    let (_, e4) =
      check-eq-go
        (bytes_eq a1.auditor_key m1.operator
          && bytes_eq a1.auditor m1.component_id
          && bytes_eq a1.status m1.status_endpoint
          && unsolicited_by m1 a1.unsolicited)
        422 _ e3 in
    let (q, e5) =
      check-eq-go
        (not
          (exists (attestation_path a1.attestation_id) t.tree || is_held a1.attestation_id t.held))
        409 _ e4 in
    let same : a1 ≡ a = cc e5 in rw (sym same) (ground (arith, q))

check_offered-files :
    (h : Hub) (slug : Bytes) (t : Tenant) (docs_in : Files) (m : AuditorManifest) (raw : Bytes)
    (a : Attestation) (p : Publication)
    → check_offered h slug t docs_in (m, raw, a) ≡ go p
    → (p.attestation ≡ a) × All (IsOwn p.attestation.attestation_id p.raw) p.files
unfolding check_offered
check_offered-files h slug t docs_in m raw a p e =
    let (offered, d, e1) = >>=-eq-go (or_fail 422 (docs docs_in)) _ e in
    let (order, _, e2) = >>=-eq-go (or_fail 422 (commissioned h.crypto m a offered)) _ e1 in
    let (_, e3) = check-eq-go (unchanged order t.tree) 409 _ e2 in
    let (_, _, e4) = >>=-eq-go (or_fail 422 (all_pinned h slug (refs a) offered t.tree)) _ e3 in
    let (_, e5) =
      check-eq-go (all_wanted (commission_path order ++ named_paths (base h slug) (refs a)) offered)
        422 _ e4 in
    let made : record {
      attestation = a;
      raw = raw;
      order = order;
      files = write_atomic (attestation_path a.attestation_id) raw offered;
    }
        ≡ p =
      cc e5 in
    subst (λ x. (x.attestation ≡ a) × All (IsOwn x.attestation.attestation_id x.raw) x.files) made
      (
        refl,
        IsOwn-files a.attestation_id raw offered
            ((docs-paths docs_in offered (or_fail-eq-go 422 (docs docs_in) d)).1),
      )

pub check_publish-IsPublishable :
    (h : Hub) (slug : Bytes) (now : Time) (t : Tenant) (raw_in : Bytes) (docs_in : Files)
    (p : Publication)
    → check_publish h slug now t raw_in docs_in ≡ go p
    → IsPublishable t p
unfolding check_publish
check_publish-IsPublishable h slug now t raw_in docs_in p e =
    let (x, e1, e2) = >>=-eq-go (check_attestation h slug now t raw_in) _ e in
    let new = check_attestation-new h slug now t raw_in x.0 x.1 x.2 e1 in
    let (same, own) = check_offered-files h slug t docs_in x.0 x.1 x.2 p e2 in
    let new' = rw (sym same) at new in
    record {
      absent = none_at _ t.tree (ground (arith, new'));
      not_held = ground (arith, new');
      own = own;
    }
