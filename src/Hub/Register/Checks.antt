-- ===== src/Hub/Register/Checks.antt =====
-- hub/hub.go: what the checks of register have seen of a registration that they let go on.
use onym_audit.Prelude.{◌≡◌, subst, ◌&&◌, not, ◌++◌, is_nil, Bytes, bytes_eq, ok}
use onym_audit.Sig.Hex.{key_of}
use onym_audit.Sig.Time.{Time}
use onym_audit.Files.{Files, read_file, write_atomic}
use onym_audit.Audit.Manifest.{AuditorManifest, parse_manifest}
use onym_audit.Site.{manifest_path, status_path}
use onym_audit.Hub.{Hub, Tenant, base, is_slug, disabled, docs, all_pinned, canonical}
use onym_audit.Hub.Outcome.{go, or_fail, >>=-eq-go, check-eq-go, or_fail-eq-go}
use onym_audit.Hub.Publish.{or_stop, order_paths, named_paths, all_wanted}
use onym_audit.Hub.Intake.{is_contact}
use onym_audit.Hub.Register.{
  check_manifest, check_documents, succeeds_to, is_reserved, component_of, check_offers, offer_ids,
  manifest_refs, offer_paths,
}

-- What the checks of `register` leave to be done, where a manifest is registered already.
pub check_manifest-succeeds :
    (h : Hub) (slug : Bytes) (now : Time) (t : Tenant) (manifest_in : Bytes) (m : AuditorManifest)
    (raw : Bytes)
    → check_manifest h slug now t manifest_in ≡ go (m, raw)
    → (parse_manifest h.crypto raw now ≡ ok m)
      × (succeeds_to m raw (read_file manifest_path t.tree) ≡ go tt)
unfolding check_manifest
check_manifest-succeeds h slug now t manifest_in m raw e =
    let (_, e1) =
      check-eq-go (is_slug slug && not (is_reserved slug) && not (disabled t)) 422 _ e in
    let (r, _, e2) = >>=-eq-go (or_fail 422 (canonical manifest_in)) _ e1 in
    let (x, p, e3) = >>=-eq-go (or_fail 422 (parse_manifest h.crypto r now)) _ e2 in
    let (k, _, e4) = >>=-eq-go (or_stop 422 t.status_key) _ e3 in
    let (_, e5) =
      check-eq-go
        (bytes_eq x.component_id (component_of slug)
          && bytes_eq x.status_endpoint (base h slug ++ status_path)
          && bytes_eq x.status_key (key_of (h.crypto.public_key k))
          && is_contact x.contact)
        422 _ e4 in
    let (u, s, e6) = >>=-eq-go (succeeds_to x r (read_file manifest_path t.tree)) _ e5 in
    let a : x ≡ m = cc (e6) in
    let b : r ≡ raw = cc (e6) in
    subst
      (λ (z : AuditorManifest).
        (parse_manifest h.crypto raw now ≡ ok z)
        × (succeeds_to z raw (read_file manifest_path t.tree) ≡ go tt))
      a
      (subst
        (λ (z : Bytes).
          (parse_manifest h.crypto z now ≡ ok x)
          × (succeeds_to x z (read_file manifest_path t.tree) ≡ go tt))
        b (or_fail-eq-go 422 _ p, s))

pub check_documents-files :
    (h : Hub) (slug : Bytes) (now : Time) (t : Tenant) (docs_in : Files) (m : AuditorManifest)
    (raw raw' : Bytes) (fs : Files)
    → check_documents h slug now t docs_in (m, raw) ≡ go (raw', fs)
    → (raw' ≡ raw)
      × ((offered : Files) × (docs docs_in ≡ ok offered)
          × (fs ≡ write_atomic manifest_path raw offered))
unfolding check_documents
check_documents-files h slug now t docs_in m raw raw' fs e =
    let (offered, d, e1) = >>=-eq-go (or_fail 422 (docs docs_in)) _ e in
    let (_, e2) = check-eq-go (is_nil (order_paths offered)) 422 _ e1 in
    let (scopes, _, e3) =
      >>=-eq-go (or_fail 422 (check_offers h.crypto now m offered t.tree (offer_ids m.offers))) _
        e2 in
    let (_, _, e4) =
      >>=-eq-go (or_fail 422 (all_pinned h slug (manifest_refs m ++ scopes) offered t.tree)) _ e3 in
    let (_, e5) =
      check-eq-go
        (all_wanted
          (named_paths (base h slug) (manifest_refs m ++ scopes)
            ++ offer_paths (offer_ids m.offers))
          offered)
        422 _ e4 in
    (cc (e5), (offered, or_fail-eq-go 422 _ d, cc (e5)))
