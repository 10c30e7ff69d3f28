-- ===== src/Audit/Tests.antt =====
-- Documents of an audit, the runs of their parsers, and the theorems at them.
use onym_audit.Prelude.{
  ℕ, ◌≡◌, ◌≤◌, ◌↔◌, is_nil, refl, Bool, true, false, [], ◌∷◌, List, Bytes, codes, Option, none,
  some, Result, ok, err, bytes_eq, bytes_lt, inl,
}
use onym_audit.Utf8.{utf8_valid, utf8_run, utf8_step, encode_rune, decode_pair, is_surrogate}
use onym_audit.Canon.Value.{
  Fields, field, null, no_fields, get, delete, has_key, put, push, decimal, leading_zero,
}
use onym_audit.Canon.Decode.{
  parse, value, value_at, open_with, go_on, key, colon, ws, read_str, str_from, escape, unicode,
  trail, hex4, hex_digit, read_number, span_digits, lit,
}
use onym_audit.Canon.Encode.{
  signing_bytes, encode, write_string, escape_all, escape_byte, hex_lower, sort_keys, pair_texts,
  string_texts, commas, encode_int, format_uint,
}
use onym_audit.Sig.Hex.{
  encode_hex, decode_hex, strip, matches_hex64, valid_digest, key_of, public, colons,
}
use onym_audit.Sig.Base64.{decode_signature, decode_base64}
use onym_audit.Sig.Sign.{Crypto, digest, fingerprint, verify_detached}
use onym_audit.Sig.Sign
use onym_audit.Sig.Time.{
  Time, parse_time, digits, sign, instant, before_year, is_leap, month_lengths, sum_first, nth,
}
use onym_audit.UriRule.Host.{
  parse_host, trim_dot, to_lower, fold_prefix, drop_prefix, labels, last_label, numeric_label,
  numeric_host, is_ipv4, authority_of,
}
use onym_audit.UriRule.Check.{check_host}
use onym_audit.UriRule.Check
use onym_audit.Audit.Strict
use onym_audit.Audit.Strict.{
  member, known_keys, present, check_value, decode_strict, names, leaf, check-keys,
}
use onym_audit.Audit.Fields.{
  string_field, string?_field, int_field, int?_field, bool_field, strings_field, ints_field,
  texts_field, struct_field, struct?_field, structs_field,
}
use onym_audit.Audit.Terms.{
  no_ref, one_of, is_component, is_id, is_offer_id, is_commit, decode_ref, validate_ref,
  decode_artifact, validate_artifact, decode_disclosure, check_disclosure,
}
use onym_audit.Audit.Manifest.{
  AuditorManifest, decode_methodology, decode_manifest, validate_manifest, parse_manifest,
}
use onym_audit.Audit.Orders.{
  AuditOrder, decode_fee, decode_order_signature, decode_order, check_signatures, check_terms,
  parse_order,
}
use onym_audit.Audit.Attestation.{
  Attestation, decode_unsolicited, decode_attestation, check_engagement, validate_attestation,
  parse_attestation,
}
use onym_audit.Audit.Status.{
  StatusList, StatusEntry, decode_entry, decode_status, check_entry, check_entries, check_status,
  read_status, parse_status, find_entry, fresh, stale, rejected, StatusOutcome, active,
}
use onym_audit.Audit.Decision.{
  Target, Input, Decision, show_revoked, matches, render, revoked_render,
}
use onym_audit.Audit.Verify.{
  revocation_reason, with_status, status_step, entry_step, read_responses, finish, is_over,
  trust_step, judge, verify,
}
use onym_audit.Audit.Offers.{Offer, order_matches_offer}
use onym_audit.Audit.Matching.{IsAnswer, order_matches_offer_iff}
use onym_audit.Audit.Opinions.{IsOpinion, parse_attestation-IsOpinion}
use onym_audit.Audit.Epochs.{
  IsMonotone, parse_status-IsMonotone, Refreshes, none_yet, refresh, parse_status-no_rollback,
}
use onym_audit.Audit.Entries.{IsIndex, parse_status-IsIndex}
use onym_audit.Audit.Reliance.{IsRelied, Relied, verify-high_stakes}
use onym_audit.Audit.Decisions.{IsCoherent, verify-IsCoherent}
use onym_audit.Audit.Finality.{IsPresented, IsRevoked, by_list, verify-revoked, verify-active}
use onym_audit.Audit.Signatures.{IsOrder, parse_order-IsOrder}

-- Everything signs as 64 zero bytes and hashes to 32 of them.
abbrev zeros : ℕ → Bytes
zeros ℕ.zero = []
zeros (ℕ.suc n) = 0 ∷ zeros n

abbrev toy : Crypto
toy = record {
  sha256 = λ _. zeros 32;
  public_key = λ _. zeros 32;
  ed25519_sign = λ _ _. zeros 64;
  ed25519_verify = λ _ _ _. true;
}

-- The readers with all that they call.
read_documents : Crypto → Bytes → Result AuditOrder
unfolding parse utf8_valid utf8_run utf8_step encode_rune decode_pair is_surrogate has_key put push
    decimal leading_zero value value_at open_with go_on key colon ws read_str str_from escape
    unicode trail hex4 hex_digit read_number span_digits lit bytes_eq get delete signing_bytes
    encode write_string escape_all escape_byte hex_lower sort_keys pair_texts string_texts commas
    bytes_lt encode_int format_uint encode_hex decode_hex strip matches_hex64 valid_digest key_of
    public colons decode_signature decode_base64 digest fingerprint Sign.verify verify_detached
    parse_time digits sign instant before_year is_leap month_lengths sum_first nth parse_host
    trim_dot to_lower fold_prefix drop_prefix labels last_label numeric_label numeric_host is_ipv4
    authority_of Check.check check_host Strict.check member known_keys present check_value
    decode_strict string_field string?_field int_field int?_field bool_field strings_field
    ints_field texts_field struct_field struct?_field structs_field one_of is_component is_id
    is_offer_id is_commit decode_ref validate_ref decode_artifact validate_artifact
    decode_disclosure check_disclosure decode_fee decode_order_signature decode_order
    check_signatures check_terms parse_order
read_documents = parse_order

-- The relying client with all that it calls.
unfoldable pub run_verify : Crypto → Input → Decision × Option ℕ
unfolding read_documents decode_methodology decode_manifest validate_manifest parse_manifest
    decode_unsolicited decode_attestation check_engagement validate_attestation parse_attestation
    decode_entry decode_status check_entry check_entries check_status read_status parse_status
    find_entry matches render revoked_render revocation_reason with_status status_step entry_step
    read_responses finish is_over trust_step judge verify
run_verify = verify

abbrev order_text : Bytes
order_text =
    codes
      "{\"artifact\":{\"artifactHash\":null,\"kind\":\"source\",\"revision\":\"aaaaaaaaaaaaaaaaaaaaaaaaaaaaaaaaaaaaaaaa\",\"source\":\"https://s.example/r\"},\"auditor\":\"onym:component:aud\",\"cooperation\":\"\",\"disclosure\":{\"attestationPublication\":\"public-on-issuance\",\"embargoDays\":30,\"failPublication\":\"public-after-embargo\",\"findingsToSubjectFirst\":true},\"fee\":{\"model\":\"pro-bono\",\"offerId\":\"offer\"},\"methodologyClass\":\"security-review\",\"orderId\":\"order-0123456789\",\"orderVersion\":1,\"scope\":{\"digest\":\"sha256:0000000000000000000000000000000000000000000000000000000000000000\",\"uri\":\"https://a.example/d\"},\"signatures\":[{\"key\":\"onym:key:0101010101010101010101010101010101010101010101010101010101010101\",\"role\":\"auditor\",\"signature\":\"AAAAAAAAAAAAAAAAAAAAAAAAAAAAAAAAAAAAAAAAAAAAAAAAAAAAAAAAAAAAAAAAAAAAAAAAAAAAAAAAAAAAAA==\"},{\"key\":\"onym:key:0202020202020202020202020202020202020202020202020202020202020202\",\"role\":\"subject\",\"signature\":\"AAAAAAAAAAAAAAAAAAAAAAAAAAAAAAAAAAAAAAAAAAAAAAAAAAAAAAAAAAAAAAAAAAAAAAAAAAAAAAAAAAAAAA==\"},{\"key\":\"onym:key:0303030303030303030303030303030303030303030303030303030303030303\",\"role\":\"sponsor\",\"signature\":\"AAAAAAAAAAAAAAAAAAAAAAAAAAAAAAAAAAAAAAAAAAAAAAAAAAAAAAAAAAAAAAAAAAAAAAAAAAAAAAAAAAAAAA==\"}],\"sponsor\":\"onym:key:0303030303030303030303030303030303030303030303030303030303030303\",\"subject\":\"onym:component:sub\",\"timeline\":{\"reportDue\":\"\",\"start\":\"\"}}"

abbrev pub manifest_text : Bytes
manifest_text =
    codes
      "{\"auditProfile\":{\"digest\":\"sha256:0000000000000000000000000000000000000000000000000000000000000000\",\"uri\":\"https://a.example/d\"},\"auditProfileId\":\"onym:audit-profile:static-ed25519-v1\",\"componentId\":\"onym:component:aud\",\"contact\":\"c\",\"displayName\":\"Aud\",\"independencePolicy\":{\"digest\":\"sha256:0000000000000000000000000000000000000000000000000000000000000000\",\"uri\":\"https://a.example/d\"},\"liability\":{\"digest\":\"sha256:0000000000000000000000000000000000000000000000000000000000000000\",\"uri\":\"https://a.example/d\"},\"methodologies\":[{\"class\":\"security-review\",\"scopesOffered\":[],\"specification\":{\"digest\":\"sha256:0000000000000000000000000000000000000000000000000000000000000000\",\"uri\":\"https://a.example/d\"}}],\"offers\":[],\"operator\":\"onym:key:0101010101010101010101010101010101010101010101010101010101010101\",\"privacyProfile\":{\"digest\":\"sha256:0000000000000000000000000000000000000000000000000000000000000000\",\"uri\":\"https://a.example/d\"},\"seat\":\"audit\",\"severityScale\":{\"digest\":\"sha256:0000000000000000000000000000000000000000000000000000000000000000\",\"uri\":\"https://a.example/d\"},\"signature\":\"AAAAAAAAAAAAAAAAAAAAAAAAAAAAAAAAAAAAAAAAAAAAAAAAAAAAAAAAAAAAAAAAAAAAAAAAAAAAAAAAAAAAAA==\",\"statusEndpoint\":\"https://a.example/s\",\"statusKey\":\"onym:key:0404040404040404040404040404040404040404040404040404040404040404\",\"unsolicitedPolicy\":{\"digest\":\"sha256:0000000000000000000000000000000000000000000000000000000000000000\",\"uri\":\"https://a.example/d\"},\"validUntil\":\"2026-12-31T00:00:00Z\",\"version\":1}"

abbrev pub attestation_text : Bytes
attestation_text =
    codes
      "{\"artifact\":{\"artifactHash\":null,\"kind\":\"source\",\"revision\":\"aaaaaaaaaaaaaaaaaaaaaaaaaaaaaaaaaaaaaaaa\",\"source\":\"https://s.example/r\"},\"attestationId\":\"attest-0123456789\",\"attestationVersion\":1,\"auditor\":\"onym:component:aud\",\"auditorKey\":\"onym:key:0101010101010101010101010101010101010101010101010101010101010101\",\"engagement\":\"commissioned\",\"exclusions\":[],\"expiresAt\":\"2026-07-01T00:00:00Z\",\"findingsReport\":null,\"findingsSummary\":{},\"issuedAt\":\"2026-01-01T00:00:00Z\",\"methodology\":{\"digest\":\"sha256:0000000000000000000000000000000000000000000000000000000000000000\",\"uri\":\"https://a.example/d\"},\"methodologyClass\":\"security-review\",\"orderRef\":\"sha256:0000000000000000000000000000000000000000000000000000000000000000\",\"relationships\":\"none\",\"result\":\"clear\",\"scope\":{\"digest\":\"sha256:0000000000000000000000000000000000000000000000000000000000000000\",\"uri\":\"https://a.example/d\"},\"scopeSummary\":\"all\",\"severityFloor\":\"high\",\"severityScale\":{\"digest\":\"sha256:0000000000000000000000000000000000000000000000000000000000000000\",\"uri\":\"https://a.example/d\"},\"signature\":\"AAAAAAAAAAAAAAAAAAAAAAAAAAAAAAAAAAAAAAAAAAAAAAAAAAAAAAAAAAAAAAAAAAAAAAAAAAAAAAAAAAAAAA==\",\"sponsor\":\"onym:key:0303030303030303030303030303030303030303030303030303030303030303\",\"sponsorName\":\"S\",\"status\":\"https://a.example/s\",\"subject\":\"onym:component:sub\",\"subjectOperator\":\"onym:key:0202020202020202020202020202020202020202020202020202020202020202\",\"supersedes\":null,\"unsolicited\":null}"

abbrev active_text : Bytes
active_text =
    codes
      "{\"auditor\":\"onym:component:aud\",\"auditorKey\":\"onym:key:0101010101010101010101010101010101010101010101010101010101010101\",\"entries\":[{\"attestation\":{\"digest\":\"sha256:0000000000000000000000000000000000000000000000000000000000000000\",\"uri\":\"https://a.example/t\"},\"attestationId\":\"attest-0123456789\",\"responses\":[],\"revocation\":null,\"state\":\"active\",\"supersededBy\":null}],\"issuedAt\":\"2026-02-01T00:00:00Z\",\"nextUpdate\":\"2026-02-03T00:00:00Z\",\"signature\":\"AAAAAAAAAAAAAAAAAAAAAAAAAAAAAAAAAAAAAAAAAAAAAAAAAAAAAAAAAAAAAAAAAAAAAAAAAAAAAAAAAAAAAA==\",\"statusEpoch\":7,\"statusKey\":\"onym:key:0404040404040404040404040404040404040404040404040404040404040404\",\"statusVersion\":1}"

abbrev revoked_text : Bytes
revoked_text =
    codes
      "{\"auditor\":\"onym:component:aud\",\"auditorKey\":\"onym:key:0101010101010101010101010101010101010101010101010101010101010101\",\"entries\":[{\"attestation\":{\"digest\":\"sha256:0000000000000000000000000000000000000000000000000000000000000000\",\"uri\":\"https://a.example/t\"},\"attestationId\":\"attest-0123456789\",\"responses\":[],\"revocation\":{\"digest\":\"sha256:0000000000000000000000000000000000000000000000000000000000000000\",\"uri\":\"https://a.example/d\"},\"state\":\"revoked\",\"supersededBy\":null}],\"issuedAt\":\"2026-02-01T00:00:00Z\",\"nextUpdate\":\"2026-02-03T00:00:00Z\",\"signature\":\"AAAAAAAAAAAAAAAAAAAAAAAAAAAAAAAAAAAAAAAAAAAAAAAAAAAAAAAAAAAAAAAAAAAAAAAAAAAAAAAAAAAAAA==\",\"statusEpoch\":7,\"statusKey\":\"onym:key:0404040404040404040404040404040404040404040404040404040404040404\",\"statusVersion\":1}"

abbrev pub noon : Time
noon = instant 2026 2 1 12 0 0

abbrev target : Target
target = record {
  kind = codes "source";
  source = codes "https://s.example/r";
  revision = codes "aaaaaaaaaaaaaaaaaaaaaaaaaaaaaaaaaaaaaaaa";
  artifact_hash = none;
}

abbrev input_with : Bytes → Input
input_with list = record {
  attestation = attestation_text;
  manifest = manifest_text;
  status = some list;
  revocation = none;
  responses = [];
  target = target;
  trust = record {
    credited =
        codes "onym:key:0101010101010101010101010101010101010101010101010101010101010101" ∷ [];
    omit_uncredited = false;
  };
  state = some 5;
  now = noon;
}

abbrev pub is_ok {ℓ} : {A : Type ℓ} → Result A → Bool
is_ok (ok _) = true
is_ok (err _) = false

abbrev pub value_of {ℓ} : {A : Type ℓ} (r : Result A) → is_ok r ≡ true → A
value_of (ok a) h = a
value_of (err e) h = absurd (cc)

sample_manifest : AuditorManifest
unfolding run_verify
sample_manifest = value_of (parse_manifest toy manifest_text noon) refl

sample_attestation : Attestation
unfolding run_verify
sample_attestation = value_of (parse_attestation toy attestation_text) refl

sample_order : AuditOrder
unfolding read_documents
sample_order = value_of (parse_order toy order_text) refl

abbrev is_fresh : StatusOutcome → Bool
is_fresh (fresh l) = true
is_fresh _ = false

abbrev accepted : (o : StatusOutcome) → is_fresh o ≡ true → StatusList
accepted (fresh l) h = l
accepted (stale l) h = absurd (cc)
accepted (rejected e) h = absurd (cc)

active_list : StatusList
unfolding run_verify sample_manifest
active_list = accepted (parse_status toy active_text sample_manifest (some 5) noon).0 refl

revoked_list : StatusList
unfolding run_verify sample_manifest
revoked_list = accepted (parse_status toy revoked_text sample_manifest (some 5) noon).0 refl

first_entry : (es : List StatusEntry) → is_nil es ≡ false → StatusEntry
first_entry [] h = absurd (cc)
first_entry (e ∷ es) h = e

revoked_entry : StatusEntry
unfolding run_verify sample_manifest revoked_list first_entry
revoked_entry = first_entry revoked_list.entries refl

sample_offer : Offer
sample_offer = record {
  offer_version = 1;
  offer_id = codes "offer";
  auditor = codes "onym:component:aud";
  auditor_key = codes "onym:key:0101010101010101010101010101010101010101010101010101010101010101";
  methodology_class = codes "security-review";
  scope = no_ref;
  fee = record { model = codes "pro-bono"; amount = none; currency = none };
  timeline_days = 10;
  disclosure = sample_order.disclosure;
  valid_until = codes "2026-02-02T00:00:00Z";
  signature = [];
}

signature_member : Fields
signature_member =
    field (codes "role") null (field (codes "key") null (field (codes "signature") null no_fields))

parse_order-IsOrder_example : IsOrder toy order_text sample_order
unfolding read_documents sample_order
parse_order-IsOrder_example = parse_order-IsOrder toy order_text sample_order refl

order_matches_offer_iff_example :
    (order_matches_offer sample_order sample_offer noon ≡ ok tt)
    ↔ IsAnswer sample_order sample_offer noon
order_matches_offer_iff_example = order_matches_offer_iff sample_order sample_offer noon

parse_attestation-IsOpinion_example : IsOpinion toy attestation_text sample_attestation
unfolding run_verify sample_attestation
parse_attestation-IsOpinion_example =
    parse_attestation-IsOpinion toy attestation_text sample_attestation refl

parse_status-IsMonotone_example :
    IsMonotone 5 (parse_status toy active_text sample_manifest (some 5) noon)
parse_status-IsMonotone_example = parse_status-IsMonotone toy active_text sample_manifest 5 noon

sample_run : Refreshes toy sample_manifest 5 7
unfolding run_verify sample_manifest
sample_run = refresh active_text noon none_yet refl

parse_status-no_rollback_example : 5 ≤ active_list.status_epoch
unfolding run_verify sample_manifest active_list
parse_status-no_rollback_example =
    parse_status-no_rollback sample_run active_text noon active_list (inl refl)

parse_status-IsIndex_example : IsIndex active_list
unfolding run_verify sample_manifest active_list
parse_status-IsIndex_example =
    parse_status-IsIndex toy active_text sample_manifest (some 5) noon active_list (inl refl)

verify-high_stakes_example :
    ((verify toy (input_with active_text)).0.high_stakes_ok ≡ true)
    ↔ Relied toy (input_with active_text)
verify-high_stakes_example = verify-high_stakes toy (input_with active_text)

verify-IsCoherent_example : IsCoherent (verify toy (input_with active_text)).0
verify-IsCoherent_example = verify-IsCoherent toy (input_with active_text)

presented : IsPresented toy (input_with revoked_text) sample_manifest sample_attestation
unfolding run_verify sample_manifest sample_attestation
presented = record {
  manifest_read = refl;
  attestation_read = refl;
  same_key = refl;
  same_auditor = refl;
  exact_target = refl;
}

listed-IsRevoked : IsRevoked toy (input_with revoked_text) sample_manifest sample_attestation
unfolding run_verify sample_manifest sample_attestation revoked_list revoked_entry first_entry
listed-IsRevoked =
    by_list {raw = revoked_text} {l = revoked_list} {e = revoked_entry} refl (inl refl) refl refl

verify-revoked_example :
    ((verify toy (input_with revoked_text)).0.display ≡ show_revoked)
    × ((verify toy (input_with revoked_text)).0.high_stakes_ok ≡ false)
verify-revoked_example =
    verify-revoked toy (input_with revoked_text) sample_manifest sample_attestation presented
      listed-IsRevoked

verify-active_example :
    (m : AuditorManifest) × (a : Attestation) × (l : StatusList) × (e : StatusEntry) × IsRelied toy
      (input_with active_text)
      m
      a
      l
      e
    × (e.attestation_id ≡ a.attestation_id)
    × (e.state ≡ active)
    × (e.attestation.digest ≡ digest toy attestation_text)
unfolding run_verify
verify-active_example = verify-active toy (input_with active_text) refl
