-- ===== src/Site/Tests.antt =====
-- A tree with a manifest and an attestation, and its status list.
use onym_audit.Prelude.{
  ℕ, max, ◌≡◌, ◌<◌, refl, true, [], ◌∷◌, List, Bytes, codes, some, Result, ok, err, malformed,
  arith,
}
use onym_audit.Utf8.{utf8_run, utf8_step}
use onym_audit.Canon.Value.{max_safe_integer}
use onym_audit.Canon.Encode.{hex_lower}
use onym_audit.Sig.Hex.{key_of, encode_hex}
use onym_audit.Sig.Time.{before_year, instant, is_leap, month_lengths, sum_first, nth}
use onym_audit.Files.{
  Files, read_file, cut_prefix, has_suffix, has_byte, json_names, insert_name, sort_names,
  glob_json,
}
use onym_audit.Audit.Manifest.{AuditorManifest, parse_manifest}
use onym_audit.Audit.Status.{StatusList, fresh, parse_status}
use onym_audit.Audit.Build.{Published, epoch_of, entries_of, sort_entries}
use onym_audit.Audit.Build.RoundTrip.{IsBuildable}
use onym_audit.Audit.Build.Tests.{toy, toy-IsSigner}
use onym_audit.Audit.Tests.{run_verify, manifest_text, attestation_text, noon, value_of, is_ok}
use onym_audit.Loose.Tests.{run_json}
use onym_audit.Site.{
  manifest_path, status_path, withdrawal, replies, collect_one, collect_names, collect,
  published_epoch, resign_status,
}
use onym_audit.Site.Limit.{resign_status-malformed}
use onym_audit.Site.Resign.{resign_status-fresh}

abbrev tree : Files
tree =
    (codes "manifest.json", manifest_text)
    ∷ (codes "attestations/attest-0123456789.json", attestation_text)
    ∷ (codes "status.json", codes "{\"statusEpoch\":7}")
    ∷ []

abbrev base : Bytes
base = codes "https://a.example/a/aud/"

run_collect : AuditorManifest → Result (List Published × ℕ)
unfolding run_verify read_file cut_prefix has_suffix has_byte json_names insert_name sort_names
    glob_json withdrawal replies collect_one collect_names collect
run_collect m = collect toy base m tree

ok-value {ℓ} : {A : Type ℓ} (r : Result A) (h : is_ok r ≡ true) → r ≡ ok (value_of r h)
ok-value (ok a) h = refl
ok-value (err e) h = absurd (cc)

manifest : AuditorManifest
unfolding run_verify
manifest = value_of (parse_manifest toy manifest_text noon) refl

manifest-parsed : parse_manifest toy manifest_text noon ≡ ok manifest
unfolding run_verify manifest
manifest-parsed = ok-value (parse_manifest toy manifest_text noon) refl

collected : List Published × ℕ
unfolding run_collect manifest
collected = value_of (collect toy base manifest tree) refl

collected-all : collect toy base manifest tree ≡ ok collected
unfolding run_collect manifest collected
collected-all = ok-value (collect toy base manifest tree) refl

buildable : IsBuildable manifest collected.0 noon (max collected.1 (published_epoch tree))
unfolding run_collect manifest collected published_epoch run_json utf8_run utf8_step epoch_of
    encode_hex hex_lower instant before_year is_leap month_lengths sum_first nth
buildable = record {
  component = refl;
  operator = refl;
  key = refl;
  publishable = (
    record {
      id = refl;
      supersedes = tt;
      at = record { uri = refl; digest = refl };
      revocation = tt;
      responses = tt;
    },
    tt,
  );
  distinct = (refl, tt);
  in_time = omega arith;
  in_range = omega arith;
}

epoch_7 : published_epoch tree ≡ 7
unfolding run_collect published_epoch run_json
epoch_7 = refl

same_key : key_of (toy.public_key []) ≡ manifest.status_key
unfolding run_verify manifest
same_key = refl

found : read_file manifest_path tree ≡ some manifest_text
unfolding run_collect
found = refl

resign_status-fresh_example :
    (gs : Files) × (text : Bytes) × (l : StatusList) × (resign_status toy base tree [] noon ≡ ok gs)
    × (read_file status_path gs ≡ some text)
    × (parse_status toy text manifest (some 7) noon ≡ (fresh l, some (published_epoch gs)))
    × (l.entries ≡ sort_entries (entries_of collected.0 noon collected.0))
    × (published_epoch tree < published_epoch gs)
    × (collected.1 < published_epoch gs)
resign_status-fresh_example =
    resign_status-fresh toy base manifest tree noon [] manifest_text collected.0 collected.1 found
      manifest-parsed collected-all toy-IsSigner same_key buildable 7 noon (omega (arith, epoch_7))
      (unfold instant before_year is_leap month_lengths sum_first nth in omega arith)
      (unfold instant before_year is_leap month_lengths sum_first nth in omega arith)

-- The same tree after a list with the greatest epoch was published.
abbrev full_tree : Files
full_tree =
    (codes "manifest.json", manifest_text)
    ∷ (codes "attestations/attest-0123456789.json", attestation_text)
    ∷ (codes "status.json", codes "{\"statusEpoch\":9007199254740991}")
    ∷ []

full_epoch : published_epoch full_tree ≡ max_safe_integer
unfolding run_collect published_epoch run_json
full_epoch = refl

full_found : read_file manifest_path full_tree ≡ some manifest_text
unfolding run_collect
full_found = refl

full_collected : collect toy base manifest full_tree ≡ ok collected
unfolding run_collect manifest collected
full_collected = refl

resign_status-malformed_example : resign_status toy base full_tree [] noon ≡ err malformed
resign_status-malformed_example =
    resign_status-malformed toy base manifest full_tree noon [] manifest_text collected.0
      collected.1 full_found manifest-parsed full_collected same_key (omega (arith, full_epoch))
