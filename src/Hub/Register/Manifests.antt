-- ===== src/Hub/Register/Manifests.antt =====
-- hub/hub.go: a name that is registered stays with its operator, and its manifest does not go back.
use onym_audit.Prelude.{
  ℕ, ◌≤◌, ◌≡◌, refl, sym, subst, ◌∙◌, ◌⊎◌, inl, inr, Bool, true, false, ◌||◌, not, [], ◌∷◌, List,
  ltb, ◌+◌, Bytes, bytes_eq, bytes_eq→eq, some, Result, ok, err, arith, Bool-cases,
}
use onym_audit.Sig.Time.{Time, parse_time}
use onym_audit.Files.{Files, read_file, write_atomic, exists, usage}
use onym_audit.Audit.Manifest.{AuditorManifest, parse_manifest}
use onym_audit.Site.{manifest_path}
use onym_audit.Hub.{
  Hub, Tenant, is_slug, write_each, write_files, resign, docs, held_usage, replaced,
  max_tenant_bytes,
}
use onym_audit.Hub.Outcome.{Outcome, go, stop, check, ◌>>=◌, check-eq-go, Reply}
use onym_audit.Hub.Publish.{after_resign}
use onym_audit.Hub.Writes.{manifest, sig-apart, docs-paths, resign-kept}
use onym_audit.Hub.Register.{
  Place, claim_name, register, registered, with_manifest, check_manifest, check_documents,
  operator_of, valid_until_of, is_older, succeeds_to, is_reserved,
}
use onym_audit.Hub.Register.Writing.{write_each-IsEither, write_atomic-IsMild, apart}
use onym_audit.Hub.Register.Checks.{check_manifest-succeeds, check_documents-files}
use onym_audit.Hub.Register.Texts.{parse_manifest-texts}

-- A manifest of an operator that ends no sooner than a time.
pub record IsManifestOf (k : Bytes) (u : Time) (raw : Bytes) : Type 0 where
  pub operator : operator_of raw ≡ k
  pub until : Time
  pub ends : parse_time (valid_until_of raw) ≡ ok until
  pub later : u ≤ until

-- A tree with such a manifest.
pub record IsHeldBy (k : Bytes) (u : Time) (tree : Files) : Type 0 where
  pub raw : Bytes
  pub there : read_file manifest_path tree ≡ some raw
  pub valid : IsManifestOf k u raw

check-eq-true : (test : Bool) (code : ℕ) → check test code ≡ go tt → test ≡ true
check-eq-true true code h = refl
check-eq-true false code h = absurd (cc)

not_older :
    (pu : Time) (r : Result Time) (same : Bool)
    → not (is_older (ok pu) r same) ≡ true
    → (nu : Time) × (r ≡ ok nu) × (pu ≤ nu)
not_older pu (err e) same h = absurd (cc)
not_older pu (ok nu) same h = (nu, refl, ground arith)

-- A manifest that succeeds to one of an operator is the operator's, and ends no sooner.
succeeds_to-IsManifestOf :
    (h : Hub) (now : Time) (m : AuditorManifest) (raw prev k : Bytes) (u : Time)
    → parse_manifest h.crypto raw now ≡ ok m
    → succeeds_to m raw (some prev) ≡ go tt
    → IsManifestOf k u prev
    → IsManifestOf k u raw
succeeds_to-IsManifestOf h now m raw prev k u p s v =
    let t = parse_manifest-texts h.crypto raw now m p in
    let (o, s1) = check-eq-go (bytes_eq (operator_of prev) m.operator) 403 _ s in
    let z = rw (v.ends) at (check-eq-true _ 409 s1) in
    let (nu, e, l) = not_older v.until (parse_time m.valid_until) (bytes_eq prev raw) z in
    record {
      operator = t.0 ∙ sym (bytes_eq→eq (operator_of prev) m.operator o) ∙ v.operator;
      until = nu;
      ends = rw (t.1) e;
      later = omega (arith, v.later);
    }

module _ (k : Bytes) (u : Time) where
  either-IsHeldBy :
      (prev raw : Bytes) (tree : Files)
      → IsManifestOf k u prev
      → IsManifestOf k u raw
      → (read_file manifest_path tree ≡ some prev) ⊎ (read_file manifest_path tree ≡ some raw)
      → IsHeldBy k u tree
  either-IsHeldBy prev raw tree v w (inl e) = record { raw = prev; there = e; valid = v }
  either-IsHeldBy prev raw tree v w (inr e) = record { raw = raw; there = e; valid = w }

  resigned-IsHeldBy :
      (h : Hub) (slug : Bytes) (now : Time) (t : Tenant) (r : Reply) (x : Result Files)
      → resign h slug now t ≡ x
      → IsHeldBy k u t.tree
      → IsHeldBy k u ((after_resign t r x).1).tree
  resigned-IsHeldBy h slug now t r (err e) q i = i
  resigned-IsHeldBy h slug now t r (ok tree) q i = record {
    raw = i.raw;
    there = resign-kept manifest_path slug h now t tree manifest q ∙ i.there;
    valid = i.valid;
  }

  registered-IsHeldBy :
      (h : Hub) (slug : Bytes) (now : Time) (p : Place) (raw : Bytes)
      (w : Files × Result (Unit {0}))
      → IsHeldBy k u w.0
      → IsHeldBy k u ((registered h slug now p raw w).1).tenant.tree
  registered-IsHeldBy h slug now p raw (tree, err e) i = i
  registered-IsHeldBy h slug now p raw (tree, ok x) i =
      resigned-IsHeldBy h slug now (record p.tenant { tree = tree }) _ _ refl i

  write_files-IsHeldBy :
      (h : Hub) (t : Tenant) (fs : Files)
      → IsHeldBy k u t.tree
      → IsHeldBy k u (write_each fs t.tree).0
      → IsHeldBy k u (write_files h t fs true).0
  unfolding write_files
  write_files-IsHeldBy h t fs i j =
      elim (Bool-cases (
        ltb (max_tenant_bytes + replaced fs t.tree)
          (usage t.tree + held_usage h t.held + usage fs))) [ inl e ↦ rw e i | inr e ↦ rw e j ]

  register-IsHeldBy :
      (h : Hub) (slug : Bytes) (now : Time) (p : Place) (manifest_in : Bytes) (docs_in : Files)
      → IsHeldBy k u p.tenant.tree
      → IsHeldBy k u ((register h slug now p manifest_in docs_in).1).tenant.tree
  unfolding register
  register-IsHeldBy h slug now p manifest_in docs_in i =
      by_manifest (check_manifest h slug now p.tenant manifest_in) refl
    where
      written :
          (raw : Bytes) (offered : Files)
          → docs docs_in ≡ ok offered
          → IsManifestOf k u raw
          → IsHeldBy k u (write_each (write_atomic manifest_path raw offered) p.tenant.tree).0
      written raw offered d w = either-IsHeldBy i.raw raw _ i.valid w (
          write_each-IsEither manifest_path raw i.raw (λ q. sig-apart q manifest_path manifest)
            (write_atomic manifest_path raw offered) p.tenant.tree
            (write_atomic-IsMild manifest_path raw i.raw (λ q. sig-apart q manifest_path manifest)
              offered (apart offered (docs-paths docs_in offered d).1))
            (inl i.there))

      by_documents :
          (m : AuditorManifest) (raw : Bytes)
          → IsManifestOf k u raw
          → (x : Outcome (Bytes × Files)) → check_documents h slug now p.tenant docs_in (m, raw) ≡ x
          → IsHeldBy k u ((with_manifest h slug now p x).1).tenant.tree
      by_documents m raw v (stop code) e = i
      by_documents m raw v (go (raw', fs)) e =
          let (_, (offered, d, f)) =
            check_documents-files h slug now p.tenant docs_in m raw raw' fs e in
          registered-IsHeldBy h slug now p raw' (write_files h p.tenant fs true) (
            write_files-IsHeldBy h p.tenant fs i (
              subst (λ (x : Files). IsHeldBy k u (write_each x p.tenant.tree).0) (sym f)
                (written raw offered d v)))

      by_manifest :
          (x : Outcome (AuditorManifest × Bytes))
          → check_manifest h slug now p.tenant manifest_in ≡ x
          → IsHeldBy k u
              ((with_manifest h slug now p (x >>= check_documents h slug now p.tenant docs_in)).1
                ).tenant.tree
      by_manifest (stop code) e = i
      by_manifest (go (m, raw)) e =
          let (q, s) = check_manifest-succeeds h slug now p.tenant manifest_in m raw e in
          by_documents m raw
            (succeeds_to-IsManifestOf h now m raw i.raw k u q (rw (i.there) at s) i.valid)
            (check_documents h slug now p.tenant docs_in (m, raw)) refl

  claim_name-IsHeldBy :
      (h : Hub) (slug : Bytes) (now : Time) (seed : Bytes) (p : Place)
      → IsHeldBy k u p.tenant.tree
      → IsHeldBy k u ((claim_name h slug now seed p).1).tenant.tree
  unfolding claim_name
  claim_name-IsHeldBy h slug now seed p i =
      elim (Bool-cases (not (is_slug slug) || is_reserved slug)) [
        | inl e ↦ rw e i
        | inr e ↦ rw e (
            let f : exists manifest_path p.tenant.tree ≡ true = rw (exists, i.there) refl in rw f i)
      ]

-- What is asked for a name.
pub data Act : Type 0 where
  claimed : (seed : Bytes) → Act
  resent : (manifest_in : Bytes) → (docs_in : Files) → Act

unfoldable pub enact : Hub → Bytes → Time → Act → Place → Place
enact h slug now (claimed seed) p = (claim_name h slug now seed p).1
enact h slug now (resent manifest_in docs_in) p = (register h slug now p manifest_in docs_in).1

unfoldable pub enact_all : Hub → Bytes → List (Time × Act) → Place → Place
enact_all h slug [] p = p
enact_all h slug ((now, a) ∷ acts) p = enact_all h slug acts (enact h slug now a p)

-- Where a name has a manifest of an operator that ends no sooner than a time, it has one of the same
-- operator that ends no sooner than the time, whatever claims and registrations are sent for the
-- name, by whomever, and at whatever times.
pub enact_all-IsHeldBy :
    (h : Hub) (slug k : Bytes) (u : Time) (acts : List (Time × Act)) (p : Place)
    → IsHeldBy k u p.tenant.tree
    → IsHeldBy k u (enact_all h slug acts p).tenant.tree
unfolding enact_all enact
enact_all-IsHeldBy h slug k u [] p i = i
enact_all-IsHeldBy h slug k u ((now, claimed seed) ∷ acts) p i =
    enact_all-IsHeldBy h slug k u acts ((claim_name h slug now seed p).1)
      (claim_name-IsHeldBy k u h slug now seed p i)
enact_all-IsHeldBy h slug k u ((now, resent manifest_in docs_in) ∷ acts) p i =
    enact_all-IsHeldBy h slug k u acts ((register h slug now p manifest_in docs_in).1)
      (register-IsHeldBy k u h slug now p manifest_in docs_in i)
