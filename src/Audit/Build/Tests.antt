-- ===== src/Audit/Build/Tests.antt =====
-- A status list of two attestations, the later of which supersedes the earlier, which is revoked.
use mathlib.Core.List.{Memᴰ}
use onym_audit.Prelude.{
  ℕ, ◌≡◌, ◌<◌, refl, true, [], ◌∷◌, List, Bytes, codes, bytes_eq, Option, none, some, ok, arith,
  AreBytes,
}
use onym_audit.Utf8.{utf8_run, utf8_step}
use onym_audit.Canon.Encode.{hex_lower}
use onym_audit.Sig.Hex.{key_of, encode_hex}
use onym_audit.Sig.Sign.{Crypto, IsSigner}
use onym_audit.Sig.Time.{Time, before_year, instant, is_leap, month_lengths, sum_first, nth}
use onym_audit.Audit.Strict.{member}
use onym_audit.Audit.Terms.{no_ref, no_artifact}
use onym_audit.Audit.Manifest.{AuditorManifest}
use onym_audit.Audit.Attestation.{Attestation}
use onym_audit.Audit.Status.{StatusEntry, StatusList, fresh, parse_status, find_entry, revoked}
use onym_audit.Audit.Build.{Published, build_status, epoch_of, entries_of, sort_entries}
use onym_audit.Audit.Build.Order.{AreDistinct, published_ids}
use onym_audit.Audit.Build.Writing.{IsPublishable, HasTexts}
use onym_audit.Audit.Build.RoundTrip.{IsBuildable, parse_status-build_status}
use onym_audit.Audit.Build.Lookup.{revoked-built}

abbrev pub fours : ℕ → Bytes
fours ℕ.zero = []
fours (ℕ.suc n) = 4 ∷ fours n

-- One key, whose signatures verify.
abbrev pub toy : Crypto
toy = record {
  sha256 = λ _. fours 32;
  public_key = λ _. fours 32;
  ed25519_sign = λ _ _. fours 64;
  ed25519_verify = λ _ _ _. true;
}

fours-AreBytes : (n : ℕ) → AreBytes (fours n)
fours-AreBytes ℕ.zero = tt
fours-AreBytes (ℕ.suc n) = (omega arith, fours-AreBytes n)

pub toy-IsSigner : IsSigner toy []
toy-IsSigner = record {
  public_bytes = fours-AreBytes 32;
  public_size = refl;
  signature_bytes = λ msg. fours-AreBytes 64;
  signature_size = λ msg. refl;
  verifies = λ msg. refl;
}

abbrev manifest : AuditorManifest
manifest = record {
  version = 1;
  component_id = codes "onym:component:aud";
  seat = codes "audit";
  operator = codes "onym:key:01";
  display_name = [];
  contact = [];
  audit_profile_id = [];
  audit_profile = no_ref;
  methodologies = [];
  independence_policy = no_ref;
  unsolicited_policy = no_ref;
  liability = no_ref;
  severity_scale = no_ref;
  privacy_profile = no_ref;
  status_endpoint = [];
  status_key = key_of (fours 32);
  offers = none;
  valid_until = [];
  signature = [];
}

abbrev attestation_of : Bytes → Option Bytes → Attestation
attestation_of id s = record {
  attestation_version = 1;
  attestation_id = id;
  auditor = [];
  auditor_key = [];
  subject = [];
  subject_operator = [];
  artifact = no_artifact;
  methodology_class = [];
  methodology = no_ref;
  scope = no_ref;
  scope_summary = [];
  exclusions = none;
  result = codes "fail";
  severity_scale = none;
  severity_floor = none;
  findings_report = none;
  findings_summary = [];
  engagement = [];
  sponsor = [];
  sponsor_name = [];
  relationships = [];
  order_ref = none;
  unsolicited = none;
  issued_at = [];
  expires_at = none;
  supersedes = s;
  status = [];
  signature = [];
}

abbrev pub failing : Attestation
failing = attestation_of (codes "attest-c") none

abbrev earlier : Published
earlier = record {
  attestation = attestation_of (codes "attest-b") none;
  ref = no_ref;
  revocation = some no_ref;
  revoked_from = 0;
  responses = no_ref ∷ [];
}

abbrev later : Published
later = record {
  attestation = attestation_of (codes "attest-a") (some (codes "attest-b"));
  ref = no_ref;
  revocation = none;
  revoked_from = 0;
  responses = [];
}

abbrev both : List Published
both = earlier ∷ later ∷ []

abbrev noon : Time
noon = instant 2026 2 1 12 0 0

no_ref-HasTexts : HasTexts no_ref
unfolding utf8_run
no_ref-HasTexts = record { uri = refl; digest = refl }

earlier-IsPublishable : IsPublishable earlier
unfolding utf8_run utf8_step
earlier-IsPublishable = record {
  id = refl;
  supersedes = tt;
  at = no_ref-HasTexts;
  revocation = no_ref-HasTexts;
  responses = (no_ref-HasTexts, tt);
}

later-IsPublishable : IsPublishable later
unfolding utf8_run utf8_step
later-IsPublishable = record {
  id = refl;
  supersedes = refl;
  at = no_ref-HasTexts;
  revocation = tt;
  responses = tt;
}

both-AreDistinct : AreDistinct (published_ids both)
unfolding member bytes_eq
both-AreDistinct = (refl, (refl, tt))

both-IsBuildable : IsBuildable manifest both noon 7
unfolding utf8_run utf8_step key_of encode_hex hex_lower instant before_year is_leap month_lengths
    sum_first nth epoch_of
both-IsBuildable = record {
  component = refl;
  operator = refl;
  key = refl;
  publishable = (earlier-IsPublishable, (later-IsPublishable, tt));
  distinct = both-AreDistinct;
  in_time = omega arith;
  in_range = omega arith;
}

parse_status-build_status_example :
    (text : Bytes) × (l : StatusList) × (build_status toy manifest both noon 7 [] ≡ ok text)
    × (parse_status toy text manifest (some 7) noon ≡ (fresh l, some (epoch_of noon 7)))
    × (l.entries ≡ sort_entries (entries_of both noon both))
    × (7 < epoch_of noon 7)
unfolding instant before_year is_leap month_lengths sum_first nth epoch_of
parse_status-build_status_example =
    parse_status-build_status toy manifest both noon 7 [] toy-IsSigner refl both-IsBuildable 7 noon
      (omega arith) (omega arith) (omega arith)

revoked-built_example :
    (e : StatusEntry) × (find_entry (codes "attest-b") (sort_entries (entries_of both noon both))
      ≡ some e)
    × (e.state ≡ revoked)
    × (e.revocation ≡ some no_ref)
revoked-built_example =
    revoked-built both noon earlier no_ref both-AreDistinct (Memᴰ.head refl) refl (omega arith)
