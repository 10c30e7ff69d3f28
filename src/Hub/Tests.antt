-- ===== src/Hub/Tests.antt =====
-- An auditor with a failing attestation under an embargo, and calls while it lasts and after it.
use mathlib.Core.List.{Memᴰ}
use onym_audit.Prelude.{
  ◌≡◌, ◌+◌, ◌*◌, refl, Bool, true, false, [], ◌∷◌, List, Bytes, bytes_eq, codes, none, some, arith,
  inl, inr,
}
use onym_audit.Sig.Time.{Time, hour, before_year, instant, is_leap, month_lengths, sum_first, nth}
use onym_audit.Files.{read_file, usage, cut_prefix, has_suffix, exists}
use onym_audit.Audit.Build.Tests.{toy, failing}
use onym_audit.Audit.Tests.{run_verify}
use onym_audit.Loose.Tests.{run_json}
use onym_audit.Site.{detached}
use onym_audit.Hub.{
  Hub, Tenant, HeldFile, disabled, held_usage, is_signed_path, is_doc_name, is_doc_path, in_dirs,
}
use onym_audit.Hub.Publish.{Publication, is_held, hold}
use onym_audit.Hub.Hold.{held_file, is_waiting, upkeep}
use onym_audit.Hub.Held.{IsTidy}
use onym_audit.Hub.Held.Release.{IsGrown}
use onym_audit.Hub.Steps.{IsPublishable}
use onym_audit.Hub.Safety.{Call, publication, round, serve, serve-IsGrown}
use onym_audit.Hub.Embargo.{IsDue, hold-serve, upkeep-published}
use onym_audit.Hub.Written.{IsRefused}
use onym_audit.Hub.Stuck.{upkeep-stuck}

abbrev hub : Hub
hub = record {
  crypto = toy;
  public_base = codes "https://h.example/";
  shared = λ p. none;
  held_size = λ hf. usage hf.files;
}

abbrev slug : Bytes
slug = codes "aud"

abbrev attestation_text : Bytes
attestation_text = codes "{\"signature\":\"s\"}"

abbrev report : Bytes
report = codes "reports/r.md"

abbrev tenant : Tenant
tenant = record {
  tree =
      (codes "manifest.json", codes "{}")
      ∷ (codes "attestations/attest-b.json", attestation_text)
      ∷ [];
  status_key = some [];
  held = [];
  inbox = [];
}

abbrev fail_publication : Publication
fail_publication = record {
  attestation = failing;
  raw = attestation_text;
  order = none;
  files = (report, codes "r") ∷ (codes "attestations/attest-c.json", attestation_text) ∷ [];
}

abbrev noon : Time
noon = instant 2026 2 1 12 0 0

abbrev release_at : Time
release_at = noon + 24 * hour

abbrev calls : List (Time × Call)
calls =
    (noon + hour, round)
    ∷ (noon + 2 * hour, publication attestation_text [])
    ∷ (noon + 23 * hour, round)
    ∷ []

run_paths : Bytes → Bool
unfolding is_doc_path in_dirs is_doc_name cut_prefix has_suffix is_signed_path
run_paths = is_doc_path

fail_publication-IsPublishable : IsPublishable tenant fail_publication
unfolding read_file is_held bytes_eq run_paths
fail_publication-IsPublishable = record {
  absent = refl;
  not_held = refl;
  own = (inr refl, (inl (refl, refl), tt));
}

serve-IsGrown_example :
    IsTidy (serve hub slug calls tenant).tree (serve hub slug calls tenant).held
    × IsGrown tenant.tree (serve hub slug calls tenant).tree
serve-IsGrown_example = serve-IsGrown hub slug calls tenant tt

hold-serve_example :
    read_file
      (codes "attestations/attest-c.json")
      (serve hub slug calls (hold hub slug tenant fail_publication release_at).1).tree
    ≡ none
unfolding instant before_year is_leap month_lengths sum_first nth usage held_usage
hold-serve_example =
    hold-serve hub slug noon tenant fail_publication release_at calls fail_publication-IsPublishable
      tt (omega arith) (omega arith) (omega arith) (omega arith, (omega arith, (omega arith, tt)))

abbrev held : HeldFile
held = record { release_at = codes "2026-02-02T12:00:00Z"; files = fail_publication.files }

abbrev holding : Tenant
holding = record tenant { held = (codes "attest-c", held) ∷ [] }

run_held : Time → HeldFile → Bool
unfolding run_verify run_json run_paths is_waiting held_file detached disabled read_file is_held
run_held = is_waiting

holding-IsTidy : IsTidy holding.tree holding.held
unfolding run_held run_paths
holding-IsTidy = (
  refl,
  record { raw = attestation_text; own = (inr refl, (inl (refl, refl), tt)); there = inl refl },
  tt,
)

held-IsDue : IsDue (noon + 25 * hour) (codes "attest-c") attestation_text held holding.held
unfolding run_held run_paths
held-IsDue = record {
  found = refl;
  over = refl;
  own = (inr refl, (inl (refl, refl), tt));
  writable = (inl refl, (inr (codes "s", refl), tt));
  listed = Memᴰ.tail (Memᴰ.head refl);
}

holding-enabled : disabled holding ≡ false
unfolding run_held
holding-enabled = refl

holding-manifest : exists (codes "manifest.json") holding.tree ≡ true
unfolding run_held
holding-manifest = refl

upkeep-published_example :
    read_file (codes "attestations/attest-c.json") (upkeep hub slug (noon + 25 * hour) holding).tree
    ≡ some attestation_text
upkeep-published_example =
    upkeep-published hub slug (noon + 25 * hour) holding (codes "attest-c") attestation_text held
      holding-IsTidy held-IsDue holding-enabled holding-manifest

-- A report among the offers.
abbrev odd : HeldFile
odd = record {
  release_at = codes "2026-02-02T12:00:00Z";
  files = (codes "offers/r.md", codes "r") ∷ fail_publication.files;
}

abbrev odd_holding : Tenant
odd_holding = record tenant { held = (codes "attest-c", odd) ∷ [] }

odd-found : held_file (codes "attest-c") odd_holding.held ≡ some odd
unfolding run_held
odd-found = refl

odd-IsRefused : IsRefused (codes "offers/r.md", codes "r")
unfolding run_held run_paths
odd-IsRefused = (refl, λ s e. cc e)

upkeep-stuck_example :
    held_file (codes "attest-c") (upkeep hub slug (noon + 25 * hour) odd_holding).held ≡ some odd
upkeep-stuck_example =
    upkeep-stuck hub slug (noon + 25 * hour) odd_holding (codes "attest-c") odd
      (codes "offers/r.md", codes "r") odd-found (Memᴰ.head refl) odd-IsRefused
