-- ===== src/Hub/Requests.antt =====
-- hub/requests.go: requests for proposals, the offers made for them, and how they are closed. The
-- directory of requests is a list of files: each request, `.closed` where it is, and the responses
-- below `.responses/`.
use onym_audit.Prelude.{
  ℕ, zero, suc, ◌+◌, ◌*◌, Bool, true, false, ◌&&◌, ◌||◌, not, [], ◌∷◌, ◌++◌, List, ltb, leb, ◌==◌,
  length, all, any, between, String, Bytes, codes, bytes_eq, bytes_lt, if◌then◌else◌, Option, none,
  some, Result, ok, err, plain, ◌>>=◌, ◌>>◌, require,
}
use onym_audit.Canon.Value.{Fields}
use onym_audit.Canon.Decode.{parse}
use onym_audit.Sig.Hex.{is_key}
use onym_audit.Sig.Sign.{Crypto, verify, digest}
use onym_audit.Sig.Time.{Time, minute, hour, before, parse_time, format_time}
use onym_audit.Files.{Files, write_atomic, exists, cut_prefix, has_prefix, glob_json, json}
use onym_audit.Audit.Strict.{names, member}
use onym_audit.Audit.Terms.{Artifact, validate_artifact, is_component, kind_deployment}
use onym_audit.Site.{load}
use onym_audit.Hub.{canonical}
use onym_audit.Loose.{
  admitted, text_in, text?_in, int_in, named, all_fields, artifact_names, read_artifact,
}
use onym_audit.Hub.Outcome.{Reply, failed, replied}
use onym_audit.Hub.Revoke.{count_under}

abbrev pub max_open_requests : ℕ
max_open_requests = 500

abbrev pub max_request_days : ℕ
max_request_days = 30

abbrev pub max_scope_text : ℕ
max_scope_text = 8000

abbrev pub request_skew : ℕ
request_skew = 10 * minute

pub record Request : Type 0 where
  pub request_version : ℕ
  pub request_id : Bytes
  pub to : Option Bytes
  pub subject : Bytes
  pub methodology_class : Bytes
  pub artifact : Artifact
  pub scope_text : Bytes
  pub requester : Bytes
  pub issued_at : Bytes
  pub expires_at : Bytes
  pub signature : Bytes

abbrev pub request_names : List String
request_names =
    "requestVersion" ∷ "requestId" ∷ "to" ∷ "subject" ∷ "methodologyClass" ∷ "artifact"
    ∷ "scopeText" ∷ "requester" ∷ "issuedAt" ∷ "expiresAt" ∷ "signature" ∷ []

unfoldable pub read_fields : Fields → Fields → Result Request
read_fields obj fs = do
  x0 ← int_in "requestVersion" obj
  x1 ← text_in "requestId" obj
  x2 ← text?_in "to" obj
  x3 ← text_in "subject" obj
  x4 ← text_in "methodologyClass" obj
  x5 ← read_artifact fs
  x6 ← text_in "scopeText" obj
  x7 ← text_in "requester" obj
  x8 ← text_in "issuedAt" obj
  x9 ← text_in "expiresAt" obj
  x10 ← text_in "signature" obj
  ok (record {
    request_version = x0;
    request_id = x1;
    to = x2;
    subject = x3;
    methodology_class = x4;
    artifact = x5;
    scope_text = x6;
    requester = x7;
    issued_at = x8;
    expires_at = x9;
    signature = x10;
  })

-- The decoding of a request, by strictDecode or by json.Unmarshal.
unfoldable pub read_request : Bool → Fields → Result Request
read_request strict obj = do
  admitted strict request_names obj
  fs ← all_fields Fields.no_fields (named "artifact" obj)
  admitted strict artifact_names fs
  read_fields obj fs

abbrev pub is_lower_or_digit : ℕ → Bool
is_lower_or_digit c = between b'a' b'z' c || between b'0' b'9' c

abbrev pub twenty : Option Bytes → Bool
twenty none = false
twenty (some s) = length s == 20 && all is_lower_or_digit s

-- requestIDRE
unfoldable pub is_request_id : Bytes → Bool
is_request_id id = twenty (cut_prefix (codes "req-") id)

-- strings.TrimPrefix
abbrev pub trim_prefix : Bytes → Bytes → Bytes
trim_prefix p s = elim (cut_prefix p s) [ none ↦ s | some rest ↦ rest ]

unfoldable pub response_offer_id : Bytes → Bytes
response_offer_id id = codes "rsp-" ++ trim_prefix (codes "req-") id

unfoldable pub request_of : Bytes → Bytes
request_of offer_id = codes "req-" ++ trim_prefix (codes "rsp-") offer_id

abbrev pub request_path : Bytes → Bytes
request_path id = id ++ json

abbrev pub closed_path : Bytes → Bytes
closed_path id = id ++ codes ".closed"

abbrev pub responses_dir : Bytes → Bytes
responses_dir id = id ++ codes ".responses/"

-- loadRequest
unfoldable pub load_request : Bytes → Files → Result Request
load_request id board = do
  require (is_request_id id) plain
  raw ← load (request_path id) board
  obj ← parse raw
  read_request false obj

abbrev pub is_before : Time → Result Time → Bool
is_before now (err e) = false
is_before now (ok at) = before now at

-- (*Hub).open. The id of a stored request has the form of an id, so that no path is cleaned.
unfoldable pub is_open : Time → Files → Request → Bool
is_open now board q =
    is_before now (parse_time q.expires_at) && not (exists (closed_path q.request_id) board)

abbrev pub counts : Time → Files → Result Request → Bool
counts now board (err e) = false
counts now board (ok q) = is_open now board q

-- strings.TrimSuffix with ".json"
unfoldable pub trim_json : Bytes → Bytes
trim_json [] = []
trim_json (c ∷ s) = let rest = trim_json s in if bytes_eq (c ∷ s) json then [] else c ∷ rest

-- Whether the file of a name holds a request that is open.
unfoldable pub is_open_file : Time → Files → Bytes → Bool
is_open_file now board name = counts now board (load_request (trim_json name) board)

unfoldable pub count : (Bytes → Bool) → List Bytes → ℕ
count test [] = 0
count test (n ∷ ns) = let rest = count test ns in if test n then suc rest else rest

-- openRequests
unfoldable pub open_requests : Time → Files → ℕ
open_requests now board = count (is_open_file now board) (glob_json [] board)

-- at.Sub(now).Abs() <= RequestSkew
abbrev pub is_near : Time → Time → Bool
is_near now at = leb at (now + request_skew) && leb now (at + request_skew)

-- The spaces of Unicode that are not ASCII, in UTF-8.
abbrev wide_spaces : List Bytes
wide_spaces =
    (0xc2 ∷ 0x85 ∷ [])
    ∷ (0xc2 ∷ 0xa0 ∷ [])
    ∷ (0xe1 ∷ 0x9a ∷ 0x80 ∷ [])
    ∷ (0xe2 ∷ 0x80 ∷ 0xa8 ∷ [])
    ∷ (0xe2 ∷ 0x80 ∷ 0xa9 ∷ [])
    ∷ (0xe2 ∷ 0x80 ∷ 0xaf ∷ [])
    ∷ (0xe2 ∷ 0x81 ∷ 0x9f ∷ [])
    ∷ (0xe3 ∷ 0x80 ∷ 0x80 ∷ [])
    ∷ []

abbrev is_en_space : Bytes → Bool
is_en_space (a ∷ b ∷ c ∷ s) = a == 0xe2 && b == 0x80 && between 0x80 0x8a c
is_en_space s = false

abbrev starts_space : ℕ → Bytes → Bool
starts_space c s =
    between 9 13 c
    || c == b' '
    || any (λ x. has_prefix x (c ∷ s)) wide_spaces
    || is_en_space (c ∷ s)

-- strings.TrimSpace(s) == "", for a text in UTF-8; the number is of bytes to skip.
unfoldable pub is_blank : ℕ → Bytes → Bool
is_blank skip [] = true
is_blank (suc n) (c ∷ s) = is_blank n s
is_blank zero (c ∷ s) =
    starts_space c s && is_blank (if ltb c 0x80 then 0 else if c == 0xc2 then 1 else 2) s

abbrev pub is_scope_text : Bytes → Bool
is_scope_text s = not (is_blank 0 s) && leb (length s) max_scope_text

abbrev to_key : Option Bytes → Bool
to_key none = true
to_key (some k) = is_key k

-- The switch of postRequest, case by case.
unfoldable pub check_request : Crypto → Time → Bytes → Request → Result (Unit {0})
check_request c now raw q = do
  require (q.request_version == 1 && is_request_id q.request_id) plain
  require (to_key q.to) plain
  require (is_component q.subject) plain
  require (member q.methodology_class (names ("security-review" ∷ "conformance-run" ∷ []))) plain
  validate_artifact q.artifact
  require
      (not (bytes_eq q.methodology_class (codes "conformance-run"))
        || bytes_eq q.artifact.kind kind_deployment)
      plain
  require (is_scope_text q.scope_text) plain
  issued ← parse_time q.issued_at
  exp ← parse_time q.expires_at
  require
      (is_near now issued && before now exp && leb exp (issued + max_request_days * (24 * hour)))
      plain
  verify c raw (codes "signature") q.requester

-- What postRequest decodes and checks: the request and its bytes.
unfoldable pub read_posted : Crypto → Time → Bytes → Result (Request × Bytes)
read_posted c now raw_in = do
  raw ← canonical raw_in
  obj ← parse raw
  q ← read_request true obj
  check_request c now raw q
  ok (q, raw)

-- postRequest, after the checks
unfoldable pub store_request : Crypto → Time → Files → Request × Bytes → Reply × Files
store_request c now board (q, raw) =
    if exists (request_path q.request_id) board
    then (failed 409, board)
    else if leb max_open_requests (open_requests now board)
    then (failed 503, board)
    else (
      replied 201 ((codes "requestId", q.request_id) ∷ (codes "digest", digest c raw) ∷ []),
      write_atomic (request_path q.request_id) raw board,
    )

abbrev pub stored : Crypto → Time → Files → Result (Request × Bytes) → Reply × Files
stored c now board (err e) = (failed 422, board)
stored c now board (ok p) = store_request c now board p

-- postRequest
unfoldable pub post_request : Crypto → Time → Bytes → Files → Reply × Files
post_request c now raw_in board = stored c now board (read_posted c now raw_in)

-- closeRequest
unfoldable pub close_request : Time → Bytes → Files → Files
close_request now offer_id board =
    if has_prefix (codes "rsp-") offer_id
    then write_atomic (closed_path (request_of offer_id)) (format_time now) board
    else board

-- A request that is listed, with the number of its responses.
abbrev pub RequestView : Type 0
RequestView = Request × ℕ

abbrev addressed : Option Bytes → Option Bytes → Bool
addressed none none = true
addressed none (some k) = false
addressed (some k) none = false
addressed (some k) (some j) = bytes_eq k j

abbrev view_of : Time → Files → Option Bytes → Result Request → List RequestView → List RequestView
view_of now board to (err e) vs = vs
view_of now board to (ok q) vs =
    if is_open now board q && addressed to q.to
    then (q, count_under (responses_dir q.request_id) board) ∷ vs
    else vs

unfoldable pub views : Time → Files → Option Bytes → List Bytes → List RequestView
views now board to [] = []
views now board to (n ∷ ns) =
    view_of now board to (load_request (trim_json n) board) (views now board to ns)

-- The later issued first; of the same time, as they were, which sort.Slice leaves open.
unfoldable pub insert_view : RequestView → List RequestView → List RequestView
insert_view v [] = v ∷ []
insert_view v (w ∷ ws) =
    let rest = insert_view v ws in
    if bytes_lt v.0.issued_at w.0.issued_at then w ∷ rest else v ∷ w ∷ ws

unfoldable pub sort_views : List RequestView → List RequestView
sort_views [] = []
sort_views (v ∷ vs) = insert_view v (sort_views vs)

-- listRequests. A name without the prefix of the pattern holds no request.
unfoldable pub list_requests : Time → Files → Option Bytes → List RequestView
list_requests now board to = sort_views (views now board to (glob_json [] board))
