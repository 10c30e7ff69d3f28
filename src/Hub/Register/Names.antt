-- ===== src/Hub/Register/Names.antt =====
-- hub/hub.go: a name keeps its status key while its claim lasts.
use onym_audit.Prelude.{
  ◌+◌, ◌*◌, ◌/◌, ◌<◌, ◌≡◌, refl, not, ◌||◌, if◌then◌else◌, Bytes, some, Bool-cases, inl, inr,
  lt→ltb,
}
use onym_audit.Sig.Time.{Time, second, before_year}
use onym_audit.Sig.Time.RoundTrip.{parse_time-format_time}
use onym_audit.Files.{exists}
use onym_audit.Site.{manifest_path}
use onym_audit.Hub.{Hub, is_slug}
use onym_audit.Hub.Outcome.{failed}
use onym_audit.Hub.Register.{
  Place, claim_name, claim_again, mint, new_claim, claim_ttl, is_reserved,
}

claim_again-lasting :
    (h : Hub) (slug : Bytes) (now later : Time) (seed seed' : Bytes) (p : Place)
    → now + claim_ttl < before_year 10000 * 86400 * second
    → later < (now + claim_ttl) / second * second
    → claim_again h slug later seed' (mint h slug now seed p).1 (some (new_claim h now seed))
      ≡ mint h slug now seed p
claim_again-lasting h slug now later seed seed' p y l =
    rw (parse_time-format_time (now + claim_ttl) y, lt→ltb later _ l) refl

-- A claim that is new is answered as it was, and its key stands, until the whole second in which it
-- ends, whatever seed is drawn, for claims that end before the year 10000.
pub claim_name-again :
    (h : Hub) (slug : Bytes) (now later : Time) (seed seed' : Bytes) (p : Place)
    → claim_name h slug now seed p ≡ mint h slug now seed p
    → now + claim_ttl < before_year 10000 * 86400 * second
    → later < (now + claim_ttl) / second * second
    → claim_name h slug later seed' (claim_name h slug now seed p).1 ≡ claim_name h slug now seed p
claim_name-again h slug now later seed seed' p e y l = rw e (by_name (unfold claim_name in e))
  where
    by_name :
        (if not (is_slug slug) || is_reserved slug
            then (failed 422, p)
            else if exists manifest_path p.tenant.tree
            then (failed 409, p)
            else claim_again h slug now seed p p.claim)
          ≡ mint h slug now seed p
        → claim_name h slug later seed' (mint h slug now seed p).1 ≡ mint h slug now seed p
    by_name k = elim (Bool-cases (not (is_slug slug) || is_reserved slug)) [
      | inl a ↦ let z = rw a at k in absurd (cc)
      | inr a ↦
          let k1 = rw a at k in
          elim (Bool-cases (exists manifest_path p.tenant.tree)) [
            | inl b ↦ let z = rw b at k1 in absurd (cc)
            | inr b ↦
                unfold claim_name in
                rw (a, b) (claim_again-lasting h slug now later seed seed' p y l)
          ]
    ]
