-- ===== src/Hub.antt =====
-- hub/hub.go: an auditor that the hub hosts, the documents offered for its tree, and the status list
-- signed again after a change.
pub mod Outcome
pub mod Publish
pub mod Hold
pub mod Revoke
pub mod Writes
pub mod Held
pub mod Steps
pub mod Handled
pub mod Safety
pub mod Written
pub mod Embargo
pub mod Stuck
pub mod Requests
pub mod Answers
pub mod Intake
pub mod Inbox
pub mod Board
pub mod Queue
pub mod Register
pub mod Tests
use onym_audit.Prelude.{
  ℕ, ◌+◌, ◌*◌, ◌^◌, Bool, true, false, ◌&&◌, ◌||◌, not, [], ◌∷◌, ◌++◌, List, length, all, leb, ltb,
  between, is_nil, ◌==◌, Bytes, codes, bytes_eq, if◌then◌else◌, Option, none, some, Result, ok, err,
  plain, malformed, ◌>>=◌, ◌>>◌, require, wrap,
}
use onym_audit.Canon.Decode.{parse}
use onym_audit.Canon.Encode.{encode}
use onym_audit.Canon.Value.{object}
use onym_audit.Sig.Sign.{Crypto, digest}
use onym_audit.Sig.Time.{Time}
use onym_audit.Files.{
  Files, read_file, write_atomic, usage, cut_prefix, has_prefix, has_suffix, exists, json,
}
use onym_audit.Audit.Strict.{member}
use onym_audit.Audit.Terms.{DocRef}
use onym_audit.Audit.Manifest.{AuditorManifest, parse_manifest}
use onym_audit.Site.{write_signed, resign_status, manifest_path, attestations, revocations, load}

abbrev pub max_tenant_bytes : ℕ
max_tenant_bytes = 20 * 2 ^ 20

abbrev pub max_responses : ℕ
max_responses = 10

abbrev pub max_doc_bytes : ℕ
max_doc_bytes = 2 ^ 20

abbrev pub max_body_bytes : ℕ
max_body_bytes = 4 * 2 ^ 20

-- heldFile: files that wait for the end of an embargo.
pub record HeldFile : Type 0 where
  pub release_at : Bytes
  pub files : Files

-- queuedOrder, by its parts: the countersigned order to be, its scope text, and what meta.json holds.
pub record QueuedOrder : Type 0 where
  pub order : Bytes
  pub scope_text : Bytes
  pub contact : Bytes
  pub received_at : Bytes

-- What a hub is set up with: the operator's tree is read at cleaned paths, and `held_size` is the
-- size of a held file in JSON.
pub record Hub : Type 0 where
  pub crypto : Crypto
  pub public_base : Bytes
  pub shared : Bytes → Option Bytes
  pub held_size : HeldFile → ℕ

-- The directories of one auditor: its tree, its status key, the files held by the ids of their
-- attestations, and the orders in its inbox by their ids.
pub record Tenant : Type 0 where
  pub tree : Files
  pub status_key : Option Bytes
  pub held : List (Bytes × HeldFile)
  pub inbox : List (Bytes × QueuedOrder)

abbrev pub base : Hub → Bytes → Bytes
base h slug = h.public_base ++ codes "a/" ++ slug ++ b'/' ∷ []

abbrev is_slug_char : ℕ → Bool
is_slug_char c = between b'a' b'z' c || between b'0' b'9' c || c == b'-'

-- slugRE
unfoldable pub is_slug : Bytes → Bool
is_slug [] = false
is_slug (c ∷ s) = between b'a' b'z' c && between 2 31 (length s) && all is_slug_char s

unfoldable pub disabled : Tenant → Bool
disabled t = exists (codes ".disabled") t.tree

abbrev is_letter_or_digit : ℕ → Bool
is_letter_or_digit c = between b'A' b'Z' c || between b'a' b'z' c || between b'0' b'9' c

abbrev is_doc_char : ℕ → Bool
is_doc_char c = is_letter_or_digit c || c == b'.' || c == b'_' || c == b'-'

abbrev starts_doc : Bytes → Bool
starts_doc [] = false
starts_doc (c ∷ s) = is_letter_or_digit c

-- A name of docPathRE: of 1 to 128 characters before its ending.
unfoldable pub is_doc_name : Bytes → Bool
is_doc_name n =
    all is_doc_char n
    && starts_doc n
    && ((has_suffix (codes ".md") n && between 4 131 (length n))
        || (has_suffix json n && between 6 133 (length n)))

abbrev doc_in : Option Bytes → Bool
doc_in none = false
doc_in (some n) = is_doc_name n

abbrev pub doc_dirs : List Bytes
doc_dirs =
    codes "policies/"
    ∷ codes "methodology/"
    ∷ codes "scopes/"
    ∷ codes "reports/"
    ∷ codes "offers/"
    ∷ codes "notes/"
    ∷ codes "orders/"
    ∷ []

unfoldable pub in_dirs : List Bytes → Bytes → Bool
in_dirs [] p = false
in_dirs (d ∷ ds) p = doc_in (cut_prefix d p) || in_dirs ds p

-- docPathRE
unfoldable pub is_doc_path : Bytes → Bool
is_doc_path p = in_dirs doc_dirs p

-- strings.Contains
unfoldable pub contains : Bytes → Bytes → Bool
contains x [] = is_nil x
contains x (c ∷ s) = has_prefix x (c ∷ s) || contains x s

-- One round of the loop of `docs`.
unfoldable pub check_doc : Bytes → Bytes → Result (Unit {0})
check_doc p text = do
  require (is_doc_path p && not (contains (codes "..") p)) plain
  require (leb (length text) max_doc_bytes) plain
  if has_suffix json p then (parse text >>= λ _. ok tt) else ok tt

unfoldable pub check_docs : Files → Result (Unit {0})
check_docs [] = ok tt
check_docs ((p, text) ∷ fs) = check_doc p text >> check_docs fs

-- (*Hub).docs
unfoldable pub docs : Files → Result Files
docs offered = do check_docs offered; require (leb (usage offered) max_body_bytes) plain; ok offered

abbrev matches : Crypto → Bytes → Option Bytes → Result (Unit {0})
matches c d none = err plain
matches c d (some b) = require (bytes_eq (digest c b) d) plain

abbrev or_else : Option Bytes → Option Bytes → Option Bytes
or_else none y = y
or_else (some x) y = some x

abbrev pinned_shared : Hub → DocRef → Option Bytes → Result (Unit {0})
pinned_shared h ref none = err plain
pinned_shared h ref (some p) =
    if has_prefix (h.public_base ++ codes "a/") ref.uri
    then err plain
    else matches h.crypto ref.digest (h.shared p)

abbrev pinned_at : Hub → DocRef → Files → Files → Option Bytes → Result (Unit {0})
pinned_at h ref offered tree none = pinned_shared h ref (cut_prefix h.public_base ref.uri)
pinned_at h ref offered tree (some p) =
    matches h.crypto ref.digest
      (or_else (read_file p offered) (if is_doc_path p then read_file p tree else none))

-- (*Hub).pinned
unfoldable pub pinned : Hub → Bytes → DocRef → Files → Files → Result (Unit {0})
pinned h slug ref offered tree = pinned_at h ref offered tree (cut_prefix (base h slug) ref.uri)

unfoldable pub all_pinned : Hub → Bytes → List DocRef → Files → Files → Result (Unit {0})
all_pinned h slug [] offered tree = ok tt
all_pinned h slug (r ∷ rs) offered tree =
    pinned h slug r offered tree >> all_pinned h slug rs offered tree

unfoldable pub held_usage : Hub → List (Bytes × HeldFile) → ℕ
held_usage h [] = 0
held_usage h ((id, hf) ∷ hs) = h.held_size hf + held_usage h hs

abbrev size_of : Option Bytes → ℕ
size_of none = 0
size_of (some b) = length b

-- The sizes of the files that are replaced.
unfoldable pub replaced : Files → Files → ℕ
replaced [] tree = 0
replaced ((p, b) ∷ fs) tree = size_of (read_file p tree) + replaced fs tree

-- Whether a document is written with its detached signature.
unfoldable pub is_signed_path : Bytes → Bool
is_signed_path p =
    has_prefix attestations p
    || has_prefix revocations p
    || has_prefix (codes "offers/") p
    || bytes_eq p manifest_path

abbrev pub after_write :
    (Files → Files × Result (Unit {0})) → Files → Result Files → Files × Result (Unit {0})
after_write next tree (err e) = (tree, err e)
after_write next tree (ok tree') = next tree'

-- The writing loop of writeFiles, in the order of the list. It stops at the first fault, with the
-- tree as it is by then.
unfoldable pub write_each : Files → Files → Files × Result (Unit {0})
write_each [] tree = (tree, ok tt)
write_each ((p, b) ∷ fs) tree =
    after_write (write_each fs) tree
      (if is_signed_path p then write_signed p b tree else ok (write_atomic p b tree))

-- writeFiles
unfoldable pub write_files : Hub → Tenant → Files → Bool → Files × Result (Unit {0})
write_files h t fs quota =
    if quota
      && ltb (max_tenant_bytes + replaced fs t.tree) (usage t.tree + held_usage h t.held + usage fs)
    then (t.tree, err plain)
    else write_each fs t.tree

abbrev pub or_unsigned : Option Bytes → Result Bytes
or_unsigned none = err plain
or_unsigned (some k) = ok k

-- (*Hub).resign. ResignStatus reads the manifest again.
unfoldable pub resign : Hub → Bytes → Time → Tenant → Result Files
resign h slug now t = do
  raw ← load manifest_path t.tree
  _ ← parse_manifest h.crypto raw now
  k ← or_unsigned t.status_key
  resign_status h.crypto (base h slug) t.tree k now

-- canonical
unfoldable pub canonical : Bytes → Result Bytes
canonical raw = do obj ← parse raw; encode (object obj)
