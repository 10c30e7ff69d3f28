-- ===== src/Hub/Register/Tests.antt =====
-- A name that is claimed, and one that is registered.
use onym_audit.Prelude.{◌≡◌, ◌+◌, ◌*◌, refl, [], ◌∷◌, List, Bytes, codes, none, arith}
use onym_audit.Sig.Time.{Time, minute, before_year, instant, is_leap, month_lengths, sum_first, nth}
use onym_audit.Audit.Tests.{run_verify, manifest_text, noon}
use onym_audit.Hub.Board.Tests.{hub, slug, auditor, run_posted}
use onym_audit.Hub.Register.{Place, claim_name, mint, is_reserved, operator_of, valid_until_of}
use onym_audit.Hub.Register.Names.{claim_name-again}
use onym_audit.Hub.Register.Manifests.{
  IsManifestOf, IsHeldBy, Act, claimed, resent, enact_all, enact_all-IsHeldBy,
}

abbrev operator : Bytes
operator = codes "onym:key:0101010101010101010101010101010101010101010101010101010101010101"

abbrev end : Time
end = instant 2026 12 31 0 0 0

run_operator : Bytes → Bytes
unfolding run_verify run_posted operator_of valid_until_of
run_operator = operator_of

manifest-IsManifestOf : IsManifestOf operator end manifest_text
unfolding run_operator
manifest-IsManifestOf = record { operator = refl; until = end; ends = refl; later = omega arith }

abbrev registered : Place
registered = record { tenant = auditor; claim = none }

registered-IsHeldBy : IsHeldBy operator end auditor.tree
unfolding run_operator
registered-IsHeldBy = record { raw = manifest_text; there = refl; valid = manifest-IsManifestOf }

abbrev acts : List (Time × Act)
acts = (noon, claimed []) ∷ (noon, resent manifest_text []) ∷ []

enact_all-IsHeldBy_example : IsHeldBy operator end (enact_all hub slug acts registered).tenant.tree
enact_all-IsHeldBy_example =
    enact_all-IsHeldBy hub slug operator end acts registered registered-IsHeldBy

abbrev unclaimed : Place
unclaimed = record { tenant = record auditor { tree = []; status_key = none }; claim = none }

claimed-minted : claim_name hub slug noon [] unclaimed ≡ mint hub slug noon [] unclaimed
unfolding run_posted claim_name is_reserved
claimed-minted = refl

claim_name-again_example :
    claim_name hub slug (noon + 5 * minute) (1 ∷ []) (claim_name hub slug noon [] unclaimed).1
    ≡ claim_name hub slug noon [] unclaimed
unfolding instant before_year is_leap month_lengths sum_first nth
claim_name-again_example =
    claim_name-again hub slug noon (noon + 5 * minute) [] (1 ∷ []) unclaimed claimed-minted
      (omega arith) (omega arith)
