-- ===== src/Hub/Stuck.antt =====
-- hub/orders.go: a held attestation that the release can never write.
use mathlib.Core.List.{Memᴰ}
use onym_audit.Prelude.{
  ◌≡◌, refl, sym, ap, subst, inl, inr, Bool, true, false, ◌||◌, not, [], ◌∷◌, List, Bytes, bytes_eq,
  some, Result, ok, err, Bool-cases,
}
use onym_audit.Sig.Time.{Time}
use onym_audit.Files.{Files, exists}
use onym_audit.Site.{manifest_path}
use onym_audit.Hub.{Hub, Tenant, HeldFile, disabled, write_each}
use onym_audit.Hub.Hold.{is_waiting, held_file, release, or_keep, upkeep}
use onym_audit.Hub.Written.{IsRefused, write_each-refused}

found-cons :
    (id k : Bytes) (hf x : HeldFile) (hs ks : List (Bytes × HeldFile))
    → held_file id ((k, x) ∷ hs) ≡ some hf
    → (held_file id hs ≡ some hf → held_file id ks ≡ some hf)
    → held_file id ((k, x) ∷ ks) ≡ some hf
unfolding held_file
found-cons id k hf x hs ks f later = elim (Bool-cases (bytes_eq k id)) [
  | inl e ↦ (let g = rw e at f in rw e g)
  | inr e ↦ (let g = rw e at f in rw e (later g))
]

release-stuck :
    (now : Time) (tree : Files) (id : Bytes) (hf : HeldFile) (x : Bytes × Bytes)
    (hs : List (Bytes × HeldFile))
    → held_file id hs ≡ some hf
    → Memᴰ x hf.files
    → IsRefused x
    → held_file id (release now tree hs).1 ≡ some hf
release-stuck now tree id hf x [] f m r = absurd (unfold held_file in cc)
release-stuck now tree id hf x ((k, y) ∷ hs) f m r =
    by_test (is_waiting now y) refl (λ g. release-stuck now tree id hf x hs g m r)
      (λ g. release-stuck now (write_each y.files tree).0 id hf x hs g m r)
  where
    tree1 : Files
    tree1 = (write_each y.files tree).0

    head_found : bytes_eq k id ≡ true → y ≡ hf
    head_found e = unfold held_file in (let g = rw e at f in cc g)

    kept_or_not :
        (w : Result (Unit {0}))
        → bytes_eq k id ≡ false
        → held_file id (release now tree1 hs).1 ≡ some hf
        → held_file id (or_keep (k, y) (release now tree1 hs).1 w) ≡ some hf
    kept_or_not (ok u) e g = g
    kept_or_not (err u) e g = unfold held_file in rw e g

    by_id :
        (b : Bool)
        → bytes_eq k id ≡ b
        → (held_file id hs ≡ some hf → held_file id (release now tree1 hs).1 ≡ some hf)
        → held_file id (or_keep (k, y) (release now tree1 hs).1 (write_each y.files tree).1)
          ≡ some hf
    by_id true e ih =
        let same = head_found e in
        let (u, q) =
          write_each-refused y.files tree x (subst (λ v. Memᴰ x v.files) (sym same) m) r in
        rw q (unfold held_file in rw e (ap some same))
    by_id false e ih =
        kept_or_not (write_each y.files tree).1 e (ih (unfold held_file in (rw e at f)))

    by_test :
        (w : Bool)
        → is_waiting now y ≡ w
        → (held_file id hs ≡ some hf → held_file id (release now tree hs).1 ≡ some hf)
        → (held_file id hs ≡ some hf → held_file id (release now tree1 hs).1 ≡ some hf)
        → held_file id (release now tree ((k, y) ∷ hs)).1 ≡ some hf
    by_test true e ih ih1 =
        unfold release in rw e (found-cons id k hf y hs (release now tree hs).1 f ih)
    by_test false e ih ih1 = unfold release in rw e (by_id (bytes_eq k id) refl ih1)

-- A held attestation that has a file whose path asks for a signature, and which has none, is still
-- held after a round of the upkeep at any time, its embargo over or not.
pub upkeep-stuck :
    (h : Hub) (slug : Bytes) (now : Time) (t : Tenant) (id : Bytes) (hf : HeldFile)
    (x : Bytes × Bytes)
    → held_file id t.held ≡ some hf
    → Memᴰ x hf.files
    → IsRefused x
    → held_file id (upkeep h slug now t).held ≡ some hf
unfolding upkeep
upkeep-stuck h slug now t id hf x f m r =
    elim (Bool-cases (disabled t || not (exists manifest_path t.tree))) [
      | inl e ↦ rw e f
      | inr e ↦ rw e (release-stuck now t.tree id hf x t.held f m r)
    ]
