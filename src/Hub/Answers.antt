-- ===== src/Hub/Answers.antt =====
-- hub/requests.go: the offers that auditors make for a request, and who is shown them.
use onym_audit.Prelude.{
  ℕ, suc, Bool, true, ◌&&◌, not, [], ◌∷◌, ◌++◌, List, length, Bytes, codes, bytes_eq, if◌then◌else◌,
  Option, none, some, String, Result, ok, err, plain, ◌>>=◌, ◌>>◌, require,
}
use onym_audit.Canon.Decode.{parse}
use onym_audit.Sig.Sign.{Crypto, verify, digest, fingerprint}
use onym_audit.Sig.Time.{Time, parse_time, before}
use onym_audit.Files.{Files, read_file, write_atomic, cut_prefix, glob_json, sort_names}
use onym_audit.Audit.Strict.{member}
use onym_audit.Audit.Manifest.{AuditorManifest, parse_manifest}
use onym_audit.Audit.Orders.{AuditOrder, parse_order}
use onym_audit.Audit.Offers.{Offer, parse_offer}
use onym_audit.Site.{load, manifest_path}
use onym_audit.Hub.{Hub, Tenant, base, is_slug, disabled, pinned, write_files, canonical}
use onym_audit.Loose.{admitted, text_in}
use onym_audit.Hub.Outcome as Outcome
use onym_audit.Hub.Outcome.{Reply, failed, replied, Outcome, go, stop, check, or_fail}
use onym_audit.Hub.Publish.{tenant}
use onym_audit.Hub.Requests.{
  Request, RequestView, load_request, is_near, is_open, response_offer_id, responses_dir,
  list_requests,
}
use onym_audit.Hub.Intake.{Intake, offer_path}

-- A small signed request: `subject` is the key or the request that it names.
pub record SmallRequest : Type 0 where
  pub action : Bytes
  pub subject : Bytes
  pub issued_at : Bytes
  pub signature : Bytes

-- signedRequest, for a struct whose one more field has the name, and the key that is to have signed.
unfoldable pub signed_request :
    Crypto → Time → String → (Bytes → Bytes) → Bytes → Result SmallRequest
signed_request c now name key raw_in = do
  raw ← canonical raw_in
  obj ← parse raw
  admitted true ("action" ∷ name ∷ "issuedAt" ∷ "signature" ∷ []) obj
  x0 ← text_in "action" obj
  x1 ← text_in name obj
  x2 ← text_in "issuedAt" obj
  x3 ← text_in "signature" obj
  at ← parse_time x2
  require (is_near now at) plain
  verify c raw (codes "signature") (key x1)
  ok (record { action = x0; subject = x1; issued_at = x2; signature = x3 })

-- requestsFor
unfoldable pub requests_for : Hub → Time → Files → Bytes → Outcome (List RequestView)
requests_for h now board raw_in =
    Outcome.◌>>=◌ (or_fail 403 (signed_request h.crypto now "key" (λ k. k) raw_in)) λ q.
      Outcome.◌>>◌ (check (bytes_eq q.action (codes "requests-for")) 403)
        (go (list_requests now board (some q.subject)))

abbrev end_of_offer : Crypto → Bytes → Result Time
end_of_offer c raw = do of ← parse_offer c raw; parse_time of.valid_until

abbrev newer : Time → Result Time → Result (Unit {0})
newer until (err e) = ok tt
newer until (ok pu) = require (before pu until) plain

abbrev replaces : Crypto → Time → Bytes → Option Bytes → Result (Unit {0})
replaces c until raw none = ok tt
replaces c until raw (some prev) =
    if bytes_eq prev raw then ok tt else newer until (end_of_offer c prev)

-- offerUpdate
unfoldable pub offer_update : Crypto → Time → Files → Offer → Bytes → Result (Unit {0})
offer_update c now tree of raw = do
  until ← parse_time of.valid_until
  require (before now until) plain
  replaces c until raw (read_file (offer_path of.offer_id) tree)

abbrev is_addressee : Bytes → Option Bytes → Bool
is_addressee operator none = true
is_addressee operator (some k) = bytes_eq k operator

-- The checks of `respond` on the offer: the offer and its canonical bytes.
unfoldable pub check_answer :
    Hub → Bytes → Time → Tenant → AuditorManifest → Bytes → Request → Bytes → Result (Offer × Bytes)
check_answer h slug now t m id q raw_in = do
  raw ← canonical raw_in
  of ← parse_offer h.crypto raw
  require
      (bytes_eq of.offer_id (response_offer_id id)
        && bytes_eq of.auditor m.component_id
        && bytes_eq of.auditor_key m.operator)
      plain
  require (bytes_eq of.methodology_class q.methodology_class) plain
  require (is_addressee m.operator q.to) plain
  pinned h slug of.scope [] t.tree
  offer_update h.crypto now t.tree of raw
  ok (of, raw)

-- The checks of `respond`.
unfoldable pub check_respond :
    Hub → Bytes → Time → Tenant → Files → Bytes → Bytes → Outcome (Offer × Bytes)
check_respond h slug now t board id raw_in =
    Outcome.◌>>=◌ (or_fail 404 (load_request id board)) λ q.
      Outcome.◌>>◌ (check (is_open now board q) 404) (
        Outcome.◌>>=◌ (tenant h slug now t)
          λ m. or_fail 422 (check_answer h slug now t m id q raw_in))

-- The offer is in the tree: the answer is recorded with the request.
abbrev pub recorded :
    Hub → Bytes → Tenant → Files → Bytes → Offer × Bytes → Files × Result (Unit {0}) → Intake
recorded h slug t board id (of, raw) (tree, err e) = (failed 507, record t { tree = tree }, board)
recorded h slug t board id (of, raw) (tree, ok u) = (
  replied 201 ((codes "offer", base h slug ++ offer_path of.offer_id) ∷ []),
  record t { tree = tree },
  write_atomic (responses_dir id ++ slug) (digest h.crypto raw) board,
)

abbrev pub with_answer : Hub → Bytes → Tenant → Files → Bytes → Outcome (Offer × Bytes) → Intake
with_answer h slug t board id (stop code) = (failed code, t, board)
with_answer h slug t board id (go (of, raw)) =
    recorded h slug t board id (of, raw) (write_files h t ((offer_path of.offer_id, raw) ∷ []) true)

-- respond
unfoldable pub respond : Hub → Bytes → Time → Tenant → Files → Bytes → Bytes → Intake
respond h slug now t board id raw_in =
    with_answer h slug t board id (check_respond h slug now t board id raw_in)

-- What a requester is shown of an auditor's answer.
pub record Answer : Type 0 where
  pub slug : Bytes
  pub name : Bytes
  pub operator : Bytes
  pub print : Bytes
  pub page : Bytes
  pub completed_orders : ℕ
  pub customers : ℕ
  pub offer : Bytes

abbrev add_sponsor : Result AuditOrder → ℕ × List Bytes → ℕ × List Bytes
add_sponsor (err e) (n, seen) = (n, seen)
add_sponsor (ok o) (n, seen) = (suc n, if member o.sponsor seen then seen else o.sponsor ∷ seen)

-- The loop of orderStats: how many orders, and their sponsors.
unfoldable pub sponsors : Crypto → Files → List Bytes → ℕ × List Bytes
sponsors c tree [] = (0, [])
sponsors c tree (n ∷ ns) =
    add_sponsor (load (codes "orders/" ++ n) tree >>= λ raw. parse_order c raw) (sponsors c tree ns)

-- orderStats
unfoldable pub order_stats : Crypto → Files → ℕ × ℕ
order_stats c tree = let r = sponsors c tree (glob_json (codes "orders/") tree) in (r.0, length r.1)

unfoldable pub tenant_of : Bytes → List (Bytes × Tenant) → Option Tenant
tenant_of slug [] = none
tenant_of slug ((k, t) ∷ ts) =
    let rest = tenant_of slug ts in if bytes_eq k slug then some t else rest

-- One round of the loop of `responses`.
abbrev answer_of : Hub → Time → Bytes → Bytes → Option Tenant → Result Answer
answer_of h now id slug none = err plain
answer_of h now id slug (some t) = do
  raw ← load (offer_path (response_offer_id id)) t.tree
  require (is_slug slug && not (disabled t)) plain
  mraw ← load manifest_path t.tree
  m ← parse_manifest h.crypto mraw now
  ok (record {
    slug = slug;
    name = m.display_name;
    operator = m.operator;
    print = fingerprint h.crypto m.operator;
    page = base h slug;
    completed_orders = (order_stats h.crypto t.tree).0;
    customers = (order_stats h.crypto t.tree).1;
    offer = raw;
  })

abbrev shown : Result Answer → List Answer → List Answer
shown (err e) as' = as'
shown (ok a) as' = a ∷ as'

unfoldable pub answers : Hub → Time → Bytes → List (Bytes × Tenant) → List Bytes → List Answer
answers h now id ts [] = []
answers h now id ts (slug ∷ slugs) =
    shown (answer_of h now id slug (tenant_of slug ts)) (answers h now id ts slugs)

abbrev entry : Option Bytes → List Bytes → List Bytes
entry none ns = ns
entry (some n) ns = n ∷ ns

-- The names of a directory's files, which os.ReadDir sorts.
unfoldable pub entries : Bytes → Files → List Bytes
entries dir [] = []
entries dir ((p, b) ∷ fs) = entry (cut_prefix dir p) (entries dir fs)

-- responses: whether the request is open, and its answers.
unfoldable pub show_responses :
    Hub → Time → Files → List (Bytes × Tenant) → Bytes → Bytes → Outcome (Bool × List Answer)
show_responses h now board ts id raw_in = Outcome.◌>>=◌ (or_fail 404 (load_request id board)) λ req.
    Outcome.◌>>=◌
      (or_fail 403 (signed_request h.crypto now "requestId" (λ _. req.requester) raw_in))
      λ q.
        Outcome.◌>>◌ (check (bytes_eq q.action (codes "responses") && bytes_eq q.subject id) 403) (
          go (
            is_open now board req,
            answers h now id ts (sort_names (entries (responses_dir id) board)),
          ))
