-- ===== src/Hub/Board/Tests.antt =====
-- A request for proposals, an offer made for it, and an order under the offer.
use onym_audit.Prelude.{
  ◌≡◌, ◌≢◌, ◌≤◌, ◌+◌, ◌*◌, refl, Bool, true, false, [], ◌∷◌, List, Bytes, codes, none, some, ok,
  arith,
}
use onym_audit.Sig.Time.{hour}
use onym_audit.Files.{
  Files, read_file, write_atomic, cut_prefix, has_suffix, has_byte, json_names, insert_name,
  sort_names, glob_json,
}
use onym_audit.Audit.Orders.{AuditOrder, parse_order_request}
use onym_audit.Audit.Offers.{
  decode_offer_fee, decode_offer, check_fee, parse_offer, order_matches_offer,
}
use onym_audit.Audit.Terms.{same_disclosure}
use onym_audit.Audit.Build.Tests.{toy}
use onym_audit.Audit.Tests.{run_verify, manifest_text, noon, value_of}
use onym_audit.Hub.{Hub, Tenant, is_slug, disabled, canonical}
use onym_audit.Hub.Hold.{held_order}
use onym_audit.Loose.{
  fold, same_name, named, known_name, only, last_text, last_text?, last_int, append_fields,
  all_fields, read_artifact,
}
use onym_audit.Hub.Outcome.{Outcome, Reply, replied, failed, go, stop}
use onym_audit.Hub.Publish.{tenant}
use onym_audit.Hub.Requests.{
  Request, read_fields, read_request, is_request_id, response_offer_id, request_of, load_request,
  is_open, trim_json, is_open_file, count, open_requests, is_blank, check_request, read_posted,
  store_request, post_request, close_request,
}
use onym_audit.Hub.Intake.{
  Posted, is_response_offer, has_control, is_contact, is_listed, offer, same_artifact, check_asked,
  check_author, check_order, queued, is_fulfilled, queue_order, check_posted, post_order,
}
use onym_audit.Hub.Board.{Reach, requested, ordered, here, next}
use onym_audit.Hub.Board.Bound.{Reach-IsBounded}
use onym_audit.Hub.Board.Closing.{Reach-settled}
use onym_audit.Hub.Board.Exclusive.{IsAsked, post_order-answers, post_order-exclusive}

abbrev pub request_text : Bytes
request_text =
    codes
      "{\"artifact\":{\"artifactHash\":null,\"kind\":\"source\",\"revision\":\"aaaaaaaaaaaaaaaaaaaaaaaaaaaaaaaaaaaaaaaa\",\"source\":\"https://s.example/r\"},\"expiresAt\":\"2026-02-20T00:00:00Z\",\"issuedAt\":\"2026-02-01T12:00:00Z\",\"methodologyClass\":\"security-review\",\"requestId\":\"req-aaaaaaaaaaaaaaaaaaaa\",\"requestVersion\":1,\"requester\":\"onym:key:0303030303030303030303030303030303030303030303030303030303030303\",\"scopeText\":\"look\",\"signature\":\"AAAAAAAAAAAAAAAAAAAAAAAAAAAAAAAAAAAAAAAAAAAAAAAAAAAAAAAAAAAAAAAAAAAAAAAAAAAAAAAAAAAAAA==\",\"subject\":\"onym:component:sub\",\"to\":null}"

abbrev pub offer_text : Bytes
offer_text =
    codes
      "{\"auditor\":\"onym:component:aud\",\"auditorKey\":\"onym:key:0101010101010101010101010101010101010101010101010101010101010101\",\"disclosure\":{\"attestationPublication\":\"public-on-issuance\",\"embargoDays\":30,\"failPublication\":\"public-after-embargo\",\"findingsToSubjectFirst\":true},\"fee\":{\"amount\":null,\"currency\":null,\"model\":\"pro-bono\"},\"methodologyClass\":\"security-review\",\"offerId\":\"rsp-aaaaaaaaaaaaaaaaaaaa\",\"offerVersion\":1,\"scope\":{\"digest\":\"sha256:0404040404040404040404040404040404040404040404040404040404040404\",\"uri\":\"https://a.example/d\"},\"signature\":\"AAAAAAAAAAAAAAAAAAAAAAAAAAAAAAAAAAAAAAAAAAAAAAAAAAAAAAAAAAAAAAAAAAAAAAAAAAAAAAAAAAAAAA==\",\"timelineDays\":10,\"validUntil\":\"2026-02-10T00:00:00Z\"}"

abbrev pub order_text : Bytes
order_text =
    codes
      "{\"artifact\":{\"artifactHash\":null,\"kind\":\"source\",\"revision\":\"aaaaaaaaaaaaaaaaaaaaaaaaaaaaaaaaaaaaaaaa\",\"source\":\"https://s.example/r\"},\"auditor\":\"onym:component:aud\",\"cooperation\":\"\",\"disclosure\":{\"attestationPublication\":\"public-on-issuance\",\"embargoDays\":30,\"failPublication\":\"public-after-embargo\",\"findingsToSubjectFirst\":true},\"fee\":{\"model\":\"pro-bono\",\"offerId\":\"rsp-aaaaaaaaaaaaaaaaaaaa\"},\"methodologyClass\":\"security-review\",\"orderId\":\"order-0123456789\",\"orderVersion\":1,\"scope\":{\"digest\":\"sha256:0404040404040404040404040404040404040404040404040404040404040404\",\"uri\":\"https://h.example/a/aud/scopes/order-order-0123456789.md\"},\"signatures\":[{\"key\":\"onym:key:0202020202020202020202020202020202020202020202020202020202020202\",\"role\":\"subject\",\"signature\":\"AAAAAAAAAAAAAAAAAAAAAAAAAAAAAAAAAAAAAAAAAAAAAAAAAAAAAAAAAAAAAAAAAAAAAAAAAAAAAAAAAAAAAA==\"},{\"key\":\"onym:key:0303030303030303030303030303030303030303030303030303030303030303\",\"role\":\"sponsor\",\"signature\":\"AAAAAAAAAAAAAAAAAAAAAAAAAAAAAAAAAAAAAAAAAAAAAAAAAAAAAAAAAAAAAAAAAAAAAAAAAAAAAAAAAAAAAA==\"}],\"sponsor\":\"onym:key:0303030303030303030303030303030303030303030303030303030303030303\",\"subject\":\"onym:component:sub\",\"timeline\":{\"reportDue\":\"\",\"start\":\"\"}}"

abbrev pub decline_text : Bytes
decline_text =
    codes
      "{\"action\":\"decline\",\"auditor\":\"onym:component:aud\",\"issuedAt\":\"2026-02-01T12:00:00Z\",\"orderId\":\"order-0123456789\",\"signature\":\"AAAAAAAAAAAAAAAAAAAAAAAAAAAAAAAAAAAAAAAAAAAAAAAAAAAAAAAAAAAAAAAAAAAAAAAAAAAAAAAAAAAAAA==\"}"

abbrev pub status_text : Bytes
status_text =
    codes
      "{\"action\":\"order-status\",\"issuedAt\":\"2026-02-01T12:00:00Z\",\"orderId\":\"order-0123456789\",\"signature\":\"AAAAAAAAAAAAAAAAAAAAAAAAAAAAAAAAAAAAAAAAAAAAAAAAAAAAAAAAAAAAAAAAAAAAAAAAAAAAAAAAAAAAAA==\",\"sponsor\":\"onym:key:0303030303030303030303030303030303030303030303030303030303030303\"}"

abbrev pub hub : Hub
hub = record {
  crypto = toy;
  public_base = codes "https://h.example/";
  shared = λ p. none;
  held_size = λ hf. 0;
}

abbrev pub slug : Bytes
slug = codes "aud"

abbrev pub auditor : Tenant
auditor = record {
  tree =
      (codes "manifest.json", manifest_text)
      ∷ (codes "offers/rsp-aaaaaaaaaaaaaaaaaaaa.json", offer_text)
      ∷ [];
  status_key = some [];
  held = [];
  inbox = [];
}

abbrev pub posted : Posted
posted = record { order = order_text; scope_text = codes "look"; contact = codes "me" }

-- The intake with all that it calls.
unfoldable pub run_posted : Files → Outcome (Bytes × AuditOrder)
unfolding run_verify read_file write_atomic cut_prefix has_suffix has_byte json_names insert_name
    sort_names glob_json parse_order_request decode_offer_fee decode_offer check_fee parse_offer
    order_matches_offer same_disclosure is_slug disabled canonical held_order fold same_name named
    known_name only last_text last_text? last_int append_fields all_fields read_artifact tenant
    read_fields read_request is_request_id response_offer_id request_of load_request is_open
    trim_json is_open_file count open_requests is_blank check_request read_posted store_request
    post_request close_request has_control is_contact is_listed offer same_artifact check_asked
    check_author check_order queued is_fulfilled queue_order check_posted post_order
run_posted board = check_posted hub slug noon auditor board posted

pub request_board : Files
request_board = (post_request toy noon request_text []).1

board_stored : request_board ≡ (codes "req-aaaaaaaaaaaaaaaaaaaa.json", request_text) ∷ []
unfolding run_posted request_board
board_stored = refl

abbrev pub is_go {ℓ} : {A : Type ℓ} → Outcome A → Bool
is_go (go a) = true
is_go (stop code) = false

pub gone {ℓ} : {A : Type ℓ} (x : Outcome A) → is_go x ≡ true → A
gone (go a) h = a
gone (stop code) h = absurd (cc)

pub gone-go {ℓ} : {A : Type ℓ} (x : Outcome A) (h : is_go x ≡ true) → x ≡ go (gone x h)
unfolding gone
gone-go (go a) h = refl
gone-go (stop code) h = absurd (cc)

checked : Bytes × AuditOrder
unfolding run_posted request_board
checked = gone (check_posted hub slug noon auditor request_board posted) refl

checked-go : check_posted hub slug noon auditor request_board posted ≡ go (checked.0, checked.1)
unfolding run_posted request_board checked gone
checked-go = gone-go (check_posted hub slug noon auditor request_board posted) refl

abbrev texts_of : Reply → List (Bytes × Bytes)
texts_of (failed code) = []
texts_of (replied code texts) = texts

texts : List (Bytes × Bytes)
texts = texts_of (post_order hub slug noon auditor request_board posted).0

posted-replied : (post_order hub slug noon auditor request_board posted).0 ≡ replied 202 texts
unfolding run_posted request_board texts
posted-replied = refl

posted-response : is_response_offer checked.1.fee.offer_id ≡ true
unfolding run_posted request_board checked gone
posted-response = refl

board-reached : Reach hub noon [] noon request_board
unfolding request_board
board-reached = next here (omega arith) (requested request_text)

post_order-answers_example :
    (q : Request) × IsAsked noon request_board checked.1 q
    × (load_request
          (request_of checked.1.fee.offer_id)
          (post_order hub slug noon auditor request_board posted).2
        ≡ ok q)
    × (is_open noon (post_order hub slug noon auditor request_board posted).2 q ≡ false)
post_order-answers_example =
    post_order-answers hub slug noon noon auditor request_board posted checked.0 checked.1 texts
      board-reached checked-go posted-replied posted-response

post_order-exclusive_example :
    check_posted hub slug
      (noon + hour)
      auditor
      (post_order hub slug
        (noon + hour)
        auditor
        (post_order hub slug noon auditor request_board posted).2
        posted).2
      posted
    ≢ go (checked.0, checked.1)
post_order-exclusive_example =
    post_order-exclusive hub slug noon noon auditor request_board posted checked.0 checked.1 texts
      (noon + hour)
      (post_order hub slug (noon + hour) auditor
        (post_order hub slug noon auditor request_board posted).2 posted).2
      slug auditor posted checked.0 checked.1 board-reached checked-go posted-replied
      posted-response (next here (omega arith) (ordered slug auditor posted)) refl

none_open : open_requests noon [] ≤ 500
unfolding run_posted
none_open = omega arith

Reach-IsBounded_example : open_requests noon request_board ≤ 500
Reach-IsBounded_example = Reach-IsBounded hub noon [] noon request_board none_open board-reached

request : Request
unfolding run_posted request_board
request = value_of (load_request (codes "req-aaaaaaaaaaaaaaaaaaaa") request_board) refl

request-loaded : load_request (codes "req-aaaaaaaaaaaaaaaaaaaa") request_board ≡ ok request
unfolding run_posted request_board request
request-loaded = refl

request-over : is_open (noon + 1000 * hour) request_board request ≡ false
unfolding run_posted request_board request
request-over = refl

Reach-settled_example :
    (load_request
        (codes "req-aaaaaaaaaaaaaaaaaaaa")
        (post_request toy (noon + 1001 * hour) request_text request_board).1
      ≡ ok request)
    × (is_open
          (noon + 1001 * hour)
          (post_request toy (noon + 1001 * hour) request_text request_board).1
          request
        ≡ false)
Reach-settled_example =
    Reach-settled hub (codes "req-aaaaaaaaaaaaaaaaaaaa") request (noon + 1000 * hour) request_board
      (noon + 1001 * hour) (post_request toy (noon + 1001 * hour) request_text request_board).1
      request-loaded request-over (next here (omega arith) (requested request_text))
