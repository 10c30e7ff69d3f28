-- ===== src/Hub/Register.antt =====
-- hub/hub.go: how a name is claimed, and an auditor's manifest registered under it.
pub mod Names
pub mod Texts
pub mod Checks
pub mod Writing
pub mod Manifests
pub mod Tests
use onym_audit.Prelude.{
  ℕ, ◌+◌, ◌*◌, Bool, true, false, ◌&&◌, ◌||◌, not, [], ◌∷◌, ◌++◌, List, ltb, ◌==◌, is_nil, Bytes,
  codes, bytes_eq, if◌then◌else◌, Option, none, some, Result, ok, err, plain, require,
}
use onym_audit.Prelude as Prelude
use onym_audit.Canon.Decode.{parse}
use onym_audit.Sig.Hex.{key_of}
use onym_audit.Sig.Sign.{Crypto, digest}
use onym_audit.Sig.Time.{Time, minute, before, parse_time, format_time, or_zero_time}
use onym_audit.Files.{Files, read_file, write_atomic, exists}
use onym_audit.Audit.Strict.{names, member}
use onym_audit.Audit.Fields.{string_field}
use onym_audit.Audit.Terms.{DocRef}
use onym_audit.Audit.Manifest.{AuditorManifest, Methodology, parse_manifest}
use onym_audit.Audit.Offers.{Offer, parse_offer}
use onym_audit.Site.{manifest_path, status_path}
use onym_audit.Hub.{
  Hub, Tenant, base, is_slug, disabled, docs, all_pinned, write_files, resign, canonical,
}
use onym_audit.Hub.Outcome.{Reply, failed, replied, Outcome, go, stop, ◌>>=◌, ◌>>◌, check, or_fail}
use onym_audit.Hub.Publish.{or_stop, order_paths, named_paths, all_wanted, after_resign}
use onym_audit.Hub.Intake.{is_contact, offer_path}
use onym_audit.Hub.Answers.{offer_update}

-- claimFile
pub record Claim : Type 0 where
  pub status_key : Bytes
  pub expires : Bytes

-- A name: the directories of its auditor, and its claim.
pub record Place : Type 0 where
  pub tenant : Tenant
  pub claim : Option Claim

abbrev pub claim_ttl : Time
claim_ttl = 30 * minute

-- reserved
unfoldable pub is_reserved : Bytes → Bool
is_reserved slug = member slug (
    names (
      "admin" ∷ "api" ∷ "hub" ∷ "audit" ∷ "onym" ∷ "onym-audit" ∷ "foundation" ∷ "sobor" ∷ "root"
      ∷ "status" ∷ "www" ∷ []))

abbrev pub component_of : Bytes → Bytes
component_of slug = codes "onym:component:" ++ slug

abbrev pub claim_reply : Hub → Bytes → Claim → Reply
claim_reply h slug c = replied 200 (
    (codes "slug", slug)
    ∷ (codes "statusKey", c.status_key)
    ∷ (codes "base", base h slug)
    ∷ (codes "componentId", component_of slug)
    ∷ (codes "expires", c.expires)
    ∷ [])

abbrev pub new_claim : Hub → Time → Bytes → Claim
new_claim h now seed = record {
  status_key = key_of (h.crypto.public_key seed);
  expires = format_time (now + claim_ttl);
}

abbrev pub mint : Hub → Bytes → Time → Bytes → Place → Reply × Place
mint h slug now seed p = (
  claim_reply h slug (new_claim h now seed),
  record {
    tenant = record p.tenant { status_key = some seed };
    claim = some (new_claim h now seed);
  },
)

abbrev pub claim_again : Hub → Bytes → Time → Bytes → Place → Option Claim → Reply × Place
claim_again h slug now seed p none = mint h slug now seed p
claim_again h slug now seed p (some c) =
    if before now (or_zero_time (parse_time c.expires))
    then (claim_reply h slug c, p)
    else mint h slug now seed p

-- claim, with the seed that is drawn for a status key.
unfoldable pub claim_name : Hub → Bytes → Time → Bytes → Place → Reply × Place
claim_name h slug now seed p =
    if not (is_slug slug) || is_reserved slug
    then (failed 422, p)
    else if exists manifest_path p.tenant.tree
    then (failed 409, p)
    else claim_again h slug now seed p p.claim

abbrev or_empty : Result Bytes → Bytes
or_empty (err e) = []
or_empty (ok s) = s

-- A text of a manifest that is stored: its keys have been checked when it was registered.
unfoldable pub operator_of : Bytes → Bytes
operator_of raw = or_empty (Prelude.◌>>=◌ (parse raw) (λ obj. string_field "operator" obj))

unfoldable pub valid_until_of : Bytes → Bytes
valid_until_of raw = or_empty (Prelude.◌>>=◌ (parse raw) (λ obj. string_field "validUntil" obj))

-- Whether a manifest with this end goes back behind the end of the one before.
abbrev pub is_older : Result Time → Result Time → Bool → Bool
is_older (err e) until same = false
is_older (ok pu) (err e) same = true
is_older (ok pu) (ok nu) same = ltb nu pu || (nu == pu && not same)

abbrev pub succeeds_to : AuditorManifest → Bytes → Option Bytes → Outcome (Unit {0})
succeeds_to m raw none = go tt
succeeds_to m raw (some prev) =
    check (bytes_eq (operator_of prev) m.operator) 403
    >> check
        (not (
          is_older (parse_time (valid_until_of prev)) (parse_time m.valid_until)
            (bytes_eq prev raw)))
        409

abbrev pub offer_ids : Option (List Bytes) → List Bytes
offer_ids none = []
offer_ids (some ids) = ids

unfoldable pub has_class : Bytes → List Methodology → Bool
has_class x [] = false
has_class x (m ∷ ms) = bytes_eq m.class x || has_class x ms

-- The bytes of an offer, and whether they are offered with the manifest.
abbrev pub offered_or_stored : Bytes → Files → Files → Option Bytes → Result (Bytes × Bool)
offered_or_stored p offered tree (some b) = ok (b, true)
offered_or_stored p offered tree none = elim (read_file p tree) [
  | none ↦ err plain
  | some b ↦ ok (b, false)
]

-- One round of the loop over the offers that a manifest lists.
unfoldable pub check_listed :
    Crypto → Time → AuditorManifest → Files → Files → Bytes → Result DocRef
check_listed c now m offered tree id =
    Prelude.◌>>=◌
      (offered_or_stored (offer_path id) offered tree (read_file (offer_path id) offered))
      λ x. Prelude.◌>>=◌ (parse_offer c x.0) λ of.
        Prelude.◌>>◌
          (require
            (bytes_eq of.offer_id id
              && bytes_eq of.auditor m.component_id
              && bytes_eq of.auditor_key m.operator
              && has_class of.methodology_class m.methodologies)
            plain)
          (Prelude.◌>>◌ (if x.1 then offer_update c now tree of x.0 else ok tt) (ok of.scope))

-- The scopes of the offers.
unfoldable pub check_offers :
    Crypto → Time → AuditorManifest → Files → Files → List Bytes → Result (List DocRef)
check_offers c now m offered tree [] = ok []
check_offers c now m offered tree (id ∷ ids) =
    Prelude.◌>>=◌ (check_listed c now m offered tree id)
      λ r. Prelude.◌>>=◌ (check_offers c now m offered tree ids) λ rs. ok (r ∷ rs)

unfoldable pub specifications : List Methodology → List DocRef
specifications [] = []
specifications (m ∷ ms) = m.specification ∷ specifications ms

abbrev pub manifest_refs : AuditorManifest → List DocRef
manifest_refs m =
    m.audit_profile
    ∷ m.independence_policy
    ∷ m.unsolicited_policy
    ∷ m.liability
    ∷ m.severity_scale
    ∷ m.privacy_profile
    ∷ specifications m.methodologies

unfoldable pub offer_paths : List Bytes → List Bytes
offer_paths [] = []
offer_paths (id ∷ ids) = offer_path id ∷ offer_paths ids

-- The checks of `register` on the manifest: itself, and its canonical bytes.
unfoldable pub check_manifest :
    Hub → Bytes → Time → Tenant → Bytes → Outcome (AuditorManifest × Bytes)
check_manifest h slug now t manifest_in = do
  check (is_slug slug && not (is_reserved slug) && not (disabled t)) 422
  raw ← or_fail 422 (canonical manifest_in)
  m ← or_fail 422 (parse_manifest h.crypto raw now)
  k ← or_stop 422 t.status_key
  check
      (bytes_eq m.component_id (component_of slug)
        && bytes_eq m.status_endpoint (base h slug ++ status_path)
        && bytes_eq m.status_key (key_of (h.crypto.public_key k))
        && is_contact m.contact)
      422
  succeeds_to m raw (read_file manifest_path t.tree)
  go (m, raw)

-- The checks of `register` on the documents that are offered: the files to write.
unfoldable pub check_documents :
    Hub → Bytes → Time → Tenant → Files → AuditorManifest × Bytes → Outcome (Bytes × Files)
check_documents h slug now t docs_in (m, raw) = do
  offered ← or_fail 422 (docs docs_in)
  check (is_nil (order_paths offered)) 422
  scopes ← or_fail 422 (check_offers h.crypto now m offered t.tree (offer_ids m.offers))
  or_fail 422 (all_pinned h slug (manifest_refs m ++ scopes) offered t.tree)
  check
      (all_wanted
        (named_paths (base h slug) (manifest_refs m ++ scopes) ++ offer_paths (offer_ids m.offers))
        offered)
      422
  go (raw, write_atomic manifest_path raw offered)

abbrev pub registered :
    Hub → Bytes → Time → Place → Bytes → Files × Result (Unit {0}) → Reply × Place
registered h slug now p raw (tree, err e) =
    (failed 507, record p { tenant = record p.tenant { tree = tree } })
registered h slug now p raw (tree, ok u) =
    let t = record p.tenant { tree = tree } in
    let r =
      after_resign t
        (replied 201 (
          (codes "page", base h slug)
          ∷ (codes "manifest", base h slug ++ manifest_path)
          ∷ (codes "digest", digest h.crypto raw)
          ∷ []))
        (resign h slug now t) in
    (r.0, record { tenant = r.1; claim = none })

abbrev pub with_manifest : Hub → Bytes → Time → Place → Outcome (Bytes × Files) → Reply × Place
with_manifest h slug now p (stop code) = (failed code, p)
with_manifest h slug now p (go (raw, fs)) =
    registered h slug now p raw (write_files h p.tenant fs true)

-- register
unfoldable pub register : Hub → Bytes → Time → Place → Bytes → Files → Reply × Place
register h slug now p manifest_in docs_in =
    with_manifest h slug now p (
      check_manifest h slug now p.tenant manifest_in
      >>= check_documents h slug now p.tenant docs_in)
