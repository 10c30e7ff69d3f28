-- ===== src/Hub/Publish.antt =====
-- hub/hub.go and hub/orders.go: publishing an attestation, and the order it was commissioned with.
use onym_audit.Prelude.{
  ℕ, ◌+◌, ◌-◌, ◌*◌, ◌%◌, ◌^◌, Bool, true, false, ◌&&◌, ◌||◌, not, [], ◌∷◌, ◌++◌, List, ltb, leb,
  Bytes, codes, bytes_eq, bytes_lt, if◌then◌else◌, Option, none, some, Result, ok, err, plain,
  require,
}
use onym_audit.Prelude as Prelude
use onym_audit.Sig.Sign.{Crypto, digest}
use onym_audit.Sig.Time.{Time, hour, format_time}
use onym_audit.Files.{Files, read_file, write_atomic, usage, cut_prefix, has_prefix, exists, json}
use onym_audit.Audit.Strict.{member}
use onym_audit.Audit.Terms.{DocRef, Artifact}
use onym_audit.Audit.Manifest.{AuditorManifest, parse_manifest}
use onym_audit.Audit.Attestation.{Attestation, UnsolicitedDisclosure, parse_attestation}
use onym_audit.Audit.Orders.{AuditOrder, OrderSignature, parse_order, auditor_role, subject_role}
use onym_audit.Site.{manifest_path, attestations}
use onym_audit.Hub.{
  Hub, Tenant, HeldFile, QueuedOrder, base, is_slug, disabled, docs, all_pinned, held_usage,
  write_files, resign, canonical, max_tenant_bytes,
}
use onym_audit.Hub.Outcome.{Reply, failed, replied, Outcome, go, stop, ◌>>=◌, ◌>>◌, check, or_fail}

abbrev pub or_stop {ℓ} : {A : Type ℓ} → ℕ → Option A → Outcome A
or_stop code none = stop code
or_stop code (some a) = go a

-- (*Hub).tenant
unfoldable pub tenant : Hub → Bytes → Time → Tenant → Outcome AuditorManifest
tenant h slug now t = do
  check (is_slug slug && not (disabled t)) 404
  raw ← or_stop 404 (read_file manifest_path t.tree)
  or_fail 409 (parse_manifest h.crypto raw now)

abbrev pub unsolicited_by : AuditorManifest → Option UnsolicitedDisclosure → Bool
unsolicited_by m none = true
unsolicited_by m (some u) = bytes_eq u.policy m.unsolicited_policy.digest

abbrev orders_dir : Bytes
orders_dir = codes "orders/"

-- The paths of the offered orders.
unfoldable pub order_paths : Files → List Bytes
order_paths [] = []
order_paths ((p, b) ∷ fs) =
    let rest = order_paths fs in if has_prefix orders_dir p then p ∷ rest else rest

abbrev key_or : Bytes → OrderSignature → Option Bytes → Option Bytes
key_or role s none = if bytes_eq s.role role then some s.key else none
key_or role s (some k) = some k

-- The map `keys` at a role; the last write stands.
unfoldable pub key_of_role : Bytes → List OrderSignature → Option Bytes
key_of_role role [] = none
key_of_role role (s ∷ ss) = key_or role s (key_of_role role ss)

abbrev pub or_empty : Option Bytes → Bytes
or_empty none = []
or_empty (some s) = s

abbrev hash_part : Option Bytes → Bytes
hash_part none = []
hash_part (some x) = codes " " ++ x

-- The text that two artifacts are compared by.
unfoldable pub artifact_text : Artifact → Bytes
artifact_text x =
    x.kind ++ codes " " ++ x.source ++ codes " " ++ x.revision ++ hash_part x.artifact_hash

abbrev is_text : Option Bytes → Bytes → Bool
is_text none s = false
is_text (some x) s = bytes_eq s x

abbrev same_ref : DocRef → DocRef → Bool
same_ref a b = bytes_eq a.uri b.uri && bytes_eq a.digest b.digest

abbrev pub order_path : Bytes → Bytes
order_path id = orders_dir ++ id ++ json

-- What an order binds that its attestation must bind too. ParseAttestation has made sure that a
-- commissioned attestation has an orderRef.
unfoldable pub binds : Crypto → AuditorManifest → Attestation → Bytes → Bytes → AuditOrder → Bool
binds c m a path raw o =
    bytes_eq path (order_path o.order_id)
    && is_text a.order_ref (digest c raw)
    && (bytes_eq o.auditor m.component_id
        && bytes_eq (or_empty (key_of_role auditor_role o.signatures)) m.operator)
    && (bytes_eq o.subject a.subject
        && bytes_eq (or_empty (key_of_role subject_role o.signatures)) a.subject_operator)
    && bytes_eq o.sponsor a.sponsor
    && bytes_eq (artifact_text o.artifact) (artifact_text a.artifact)
    && bytes_eq o.methodology_class a.methodology_class
    && same_ref o.scope a.scope

abbrev pub Commission : Type 0
Commission = Option (AuditOrder × Bytes × Bytes)

unfoldable pub ordered_by :
    Crypto → AuditorManifest → Attestation → Files → List Bytes → Result Commission
ordered_by c m a offered (p ∷ q ∷ ps) = err plain
ordered_by c m a offered [] =
    if bytes_eq a.engagement (codes "commissioned") then err plain else ok none
ordered_by c m a offered (p ∷ []) =
    if bytes_eq a.engagement (codes "commissioned")
    then Prelude.◌>>=◌ (parse_order c (or_empty (read_file p offered))) (λ o.
      Prelude.◌>>◌ (require (binds c m a p (or_empty (read_file p offered)) o) plain)
        (ok (some (o, p, or_empty (read_file p offered)))))
    else err plain

-- (*Hub).commissioned: the order, its path and its bytes.
unfoldable pub commissioned : Crypto → AuditorManifest → Attestation → Files → Result Commission
commissioned c m a offered = ordered_by c m a offered (order_paths offered)

abbrev same_file : Bytes → Option Bytes → Bool
same_file raw none = true
same_file raw (some prev) = bytes_eq prev raw

abbrev pub unchanged : Commission → Files → Bool
unchanged none tree = true
unchanged (some (o, p, raw)) tree = same_file raw (read_file p tree)

abbrev option_list {ℓ} : {A : Type ℓ} → Option A → List A
option_list none = []
option_list (some r) = r ∷ []

abbrev pub refs : Attestation → List DocRef
refs a = a.methodology ∷ a.scope ∷ (option_list a.severity_scale ++ option_list a.findings_report)

-- The paths of the tree that references name.
unfoldable pub named_paths : Bytes → List DocRef → List Bytes
named_paths b [] = []
named_paths b (r ∷ rs) = option_list (cut_prefix b r.uri) ++ named_paths b rs

abbrev pub commission_path : Commission → List Bytes
commission_path none = []
commission_path (some (o, p, raw)) = p ∷ []

unfoldable pub all_wanted : List Bytes → Files → Bool
all_wanted wanted [] = true
all_wanted wanted ((p, b) ∷ fs) = member p wanted && all_wanted wanted fs

unfoldable pub is_held : Bytes → List (Bytes × HeldFile) → Bool
is_held id [] = false
is_held id ((k, hf) ∷ hs) = bytes_eq k id || is_held id hs

abbrev pub attestation_path : Bytes → Bytes
attestation_path id = attestations ++ id ++ json

-- What the checks of `publish` leave to be done: the files to write and the order.
pub record Publication : Type 0 where
  pub attestation : Attestation
  pub raw : Bytes
  pub order : Commission
  pub files : Files

-- The checks of `publish` on the attestation: the manifest, its bytes and itself.
unfoldable pub check_attestation :
    Hub → Bytes → Time → Tenant → Bytes → Outcome (AuditorManifest × Bytes × Attestation)
check_attestation h slug now t raw_in = do
  m ← tenant h slug now t
  raw ← or_fail 422 (canonical raw_in)
  a ← or_fail 422 (parse_attestation h.crypto raw)
  check
      (bytes_eq a.auditor_key m.operator
        && bytes_eq a.auditor m.component_id
        && bytes_eq a.status m.status_endpoint
        && unsolicited_by m a.unsolicited)
      422
  check (not (exists (attestation_path a.attestation_id) t.tree || is_held a.attestation_id t.held))
      409
  go (m, raw, a)

-- The checks of `publish` on the documents that are offered with an attestation.
unfoldable pub check_offered :
    Hub → Bytes → Tenant → Files → AuditorManifest × Bytes × Attestation → Outcome Publication
check_offered h slug t docs_in (m, raw, a) = do
  offered ← or_fail 422 (docs docs_in)
  order ← or_fail 422 (commissioned h.crypto m a offered)
  check (unchanged order t.tree) 409
  or_fail 422 (all_pinned h slug (refs a) offered t.tree)
  check (all_wanted (commission_path order ++ named_paths (base h slug) (refs a)) offered) 422
  go (record {
    attestation = a;
    raw = raw;
    order = order;
    files = write_atomic (attestation_path a.attestation_id) raw offered;
  })

-- The checks of `publish`, up to the first effect.
unfoldable pub check_publish : Hub → Bytes → Time → Tenant → Bytes → Files → Outcome Publication
check_publish h slug now t raw_in docs_in =
    check_attestation h slug now t raw_in >>= check_offered h slug t docs_in

-- now.Add of a number of days in nanoseconds, whose product wraps around at 64 bits with its sign.
unfoldable pub end_of_embargo : Time → ℕ → Time
end_of_embargo now days =
    let span = days * (24 * hour) % 2 ^ 64 in
    if ltb span (2 ^ 63) then now + span else now - (2 ^ 64 - span)

abbrev pub is_embargoed : Attestation → AuditOrder → Bool
is_embargoed a o =
    bytes_eq a.result (codes "fail")
    && bytes_eq o.disclosure.fail_publication (codes "public-after-embargo")
    && ltb 0 o.disclosure.embargo_days

abbrev embargo_of : Time → Attestation → Commission → Option Time
embargo_of now a none = none
embargo_of now a (some (o, path, raw)) =
    if is_embargoed a o then some (end_of_embargo now o.disclosure.embargo_days) else none

-- The end of the embargo that a publication is under.
unfoldable pub embargo : Time → Publication → Option Time
embargo now p = embargo_of now p.attestation p.order

unfoldable pub drop_order : Bytes → List (Bytes × QueuedOrder) → List (Bytes × QueuedOrder)
drop_order id [] = []
drop_order id ((k, x) ∷ os) =
    let rest = drop_order id os in if bytes_eq k id then rest else (k, x) ∷ rest

-- `fulfilled`: the order leaves the inbox.
abbrev pub fulfilled : Commission → Tenant → Tenant
fulfilled none t = t
fulfilled (some (o, p, raw)) t = record t { inbox = drop_order o.order_id t.inbox }

abbrev pub uri_and_digest : Hub → Bytes → Publication → List (Bytes × Bytes)
uri_and_digest h slug p =
    (codes "uri", base h slug ++ attestation_path p.attestation.attestation_id)
    ∷ (codes "digest", digest h.crypto p.raw)
    ∷ []

-- What is held stands in the order of its files' names, as filepath.Glob lists them.
unfoldable pub insert_held : Bytes → HeldFile → List (Bytes × HeldFile) → List (Bytes × HeldFile)
insert_held id hf [] = (id, hf) ∷ []
insert_held id hf ((k, x) ∷ hs) =
    let rest = insert_held id hf hs in
    if bytes_lt (k ++ json) (id ++ json) then (k, x) ∷ rest else (id, hf) ∷ (k, x) ∷ hs

-- An attestation under an embargo is held, with what was offered with it.
unfoldable pub hold : Hub → Bytes → Tenant → Publication → Time → Reply × Tenant
hold h slug t p release_at =
    if ltb max_tenant_bytes (usage t.tree + held_usage h t.held + usage p.files)
    then (failed 507, t)
    else (
      replied 202 (uri_and_digest h slug p ++ (codes "releaseAt", format_time release_at) ∷ []),
      fulfilled p.order (record t {
        held =
            insert_held p.attestation.attestation_id
              (record { release_at = format_time release_at; files = p.files }) t.held;
      }),
    )

abbrev pub after_resign : Tenant → Reply → Result Files → Reply × Tenant
after_resign t r (err e) = (failed 500, t)
after_resign t r (ok tree) = (r, record t { tree = tree })

abbrev pub written :
    Hub → Bytes → Time → Tenant → Publication → Files × Result (Unit {0}) → Reply × Tenant
written h slug now t p (tree, err e) = (failed 507, record t { tree = tree })
written h slug now t p (tree, ok _) =
    let t' = fulfilled p.order (record t { tree = tree }) in
    after_resign t' (replied 201 (uri_and_digest h slug p)) (resign h slug now t')

abbrev pub held_or_written :
    Hub → Bytes → Time → Tenant → Publication → Option Time → Reply × Tenant
held_or_written h slug now t p (some release_at) = hold h slug t p release_at
held_or_written h slug now t p none = written h slug now t p (write_files h t p.files true)

-- The effects of `publish`.
unfoldable pub publish_now : Hub → Bytes → Time → Tenant → Publication → Reply × Tenant
publish_now h slug now t p = held_or_written h slug now t p (embargo now p)

abbrev pub with_checks {ℓ} :
    {A : Type ℓ} → Tenant → (A → Reply × Tenant) → Outcome A → Reply × Tenant
with_checks t next (stop code) = (failed code, t)
with_checks t next (go a) = next a

-- publish
unfoldable pub publish : Hub → Bytes → Time → Tenant → Bytes → Files → Reply × Tenant
publish h slug now t raw_in docs_in =
    with_checks t (publish_now h slug now t) (check_publish h slug now t raw_in docs_in)
