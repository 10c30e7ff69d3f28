-- ===== src/Site/Limit.antt =====
-- site/site.go: epochs at the limit of the profile's numbers.
use onym_audit.Prelude.{
  ℕ, max, ◌≡◌, ◌≤◌, refl, false, List, leb, Bytes, bytes_eq_refl, some, ok, err, malformed, arith,
}
use onym_audit.Canon.Value.{max_safe_integer}
use onym_audit.Sig.Hex.{key_of}
use onym_audit.Sig.Sign.{Crypto}
use onym_audit.Sig.Time.{Time}
use onym_audit.Files.{Files, read_file}
use onym_audit.Audit.Manifest.{AuditorManifest, parse_manifest}
use onym_audit.Audit.Build.{Published, to_object, status_list, build_status, epoch_of}
use onym_audit.Audit.Build.RoundTrip.{epoch_of-above}
use onym_audit.Site.{manifest_path, collect, published_epoch, resign_status}

over_limit :
    (now : Time) (least : ℕ)
    → max_safe_integer ≤ least
    → leb (epoch_of now least) max_safe_integer ≡ false
over_limit now least l = ground (arith, l, epoch_of-above now least)

build_status-malformed :
    (c : Crypto) (m : AuditorManifest) (pubs : List Published) (now : Time) (least : ℕ)
    (priv : Bytes)
    → key_of (c.public_key priv) ≡ m.status_key
    → max_safe_integer ≤ least
    → build_status c m pubs now least priv ≡ err malformed
unfolding build_status to_object status_list
build_status-malformed c m pubs now least priv k l =
    rw (k, bytes_eq_refl m.status_key, over_limit now least l) refl

-- Where the manifest and the tree are accepted and the key is the manifest's status key, a revocation
-- in the tree, or the list published before, with an epoch of 2^53 - 1 or more makes ResignStatus
-- fail, and leave no new list.
pub resign_status-malformed :
    (c : Crypto) (base : Bytes) (m : AuditorManifest) (fs : Files) (now : Time)
    (priv raw_manifest : Bytes) (pubs : List Published) (least : ℕ)
    → read_file manifest_path fs ≡ some raw_manifest
    → parse_manifest c raw_manifest now ≡ ok m
    → collect c base m fs ≡ ok (pubs, least)
    → key_of (c.public_key priv) ≡ m.status_key
    → max_safe_integer ≤ max least (published_epoch fs)
    → resign_status c base fs priv now ≡ err malformed
unfolding resign_status
resign_status-malformed c base m fs now priv raw_manifest pubs least at parsed collected k l =
    rw
      (
        at,
        parsed,
        collected,
        build_status-malformed c m pubs now (max least (published_epoch fs)) priv k l,
      )
      refl
