-- ===== src/Hub/Held/Release.antt =====
-- hub/orders.go, release: the tree and the held files after it.
use onym_audit.Prelude.{
  ◌≡◌, refl, sym, ap, ◌∙◌, ◌⊎◌, inl, inr, true, false, [], ◌∷◌, List, All, Bytes, bytes_eq,
  bytes_eq→eq, none, some, Result, ok, err, arith, Bool-cases,
}
use onym_audit.Sig.Time.{Time}
use onym_audit.Files.{Files, read_file}
use onym_audit.Hub.{HeldFile, write_each}
use onym_audit.Hub.Publish.{attestation_path, is_held}
use onym_audit.Hub.Hold.{is_waiting, release, or_keep}
use onym_audit.Hub.Writes.{IsRecord, attestation}
use onym_audit.Hub.Held.{
  IsOwn, IsThere, IsRight, IsTidy, AreApart, own-IsKept, own-always, not_held-AreApart,
  IsRight-kept, IsTidy-kept,
}

still_not_held :
    (id : Bytes) (now : Time) (tree : Files) (hs : List (Bytes × HeldFile))
    → is_held id hs ≡ false
    → is_held id (release now tree hs).1 ≡ false
unfolding is_held release
still_not_held id now tree [] n = refl
still_not_held id now tree ((k, hf) ∷ hs) n = elim (Bool-cases (is_waiting now hf)) [
  | inl e ↦ rw e (ground (arith, still_not_held id now tree hs))
  | inr e ↦ rw e (
      dropped (write_each hf.files tree).1
        (still_not_held id now (write_each hf.files tree).0 hs (ground arith)))
]
  where
    dropped :
        (w : Result (Unit {0}))
        → is_held id (release now (write_each hf.files tree).0 hs).1 ≡ false
        → is_held id (or_keep (k, hf) (release now (write_each hf.files tree).0 hs).1 w) ≡ false
    dropped (ok u) h = h
    dropped (err e) h = ground arith

-- What is read at a path of the published documents before is read there after.
abbrev pub IsGrown : Files → Files → Type 0
IsGrown fs gs = (k b : Bytes) → IsRecord k → read_file k fs ≡ some b → read_file k gs ≡ some b

-- A release touches the attestations that are held only, keeps what was published as it was, and
-- leaves what is held in order.
pub record IsReleased (tree : Files) (hs : List (Bytes × HeldFile))
    (r : Files × List (Bytes × HeldFile)) : Type 0 where
  pub tidy : IsTidy r.0 r.1
  pub grown : IsGrown tree r.0
  pub others : (k : Bytes) → IsRecord k → AreApart k hs → read_file k r.0 ≡ read_file k tree

wrote-IsGrown :
    (id raw : Bytes) (fs tree : Files)
    → All (IsOwn id raw) fs
    → IsThere id raw tree
    → IsGrown tree (write_each fs tree).0
wrote-IsGrown id raw fs tree a t k b r h = elim (Bool-cases (bytes_eq (attestation_path id) k)) [
  | inl e ↦ let z = bytes_eq→eq (attestation_path id) k e in (rw (sym z) (as_held t (rw z h)))
  | inr e ↦ own-IsKept id raw fs tree a k r e ∙ h
]
  where
    as_held :
        IsThere id raw tree
        → read_file (attestation_path id) tree ≡ some b
        → read_file (attestation_path id) (write_each fs tree).0 ≡ some b
    as_held (inl n) g = absurd (cc (n, g))
    as_held (inr u) g =
        let same : raw ≡ b = cc (u, g) in
        own-always (λ o. o ≡ some b) id raw (ap some same) fs tree a g

release_one-kept :
    (now : Time) (tree : Files) (id : Bytes) (hf : HeldFile) (hs : List (Bytes × HeldFile))
    → is_waiting now hf ≡ true
    → is_held id hs ≡ false
    → IsRight tree id hf
    → IsReleased tree hs (release now tree hs)
    → IsReleased tree ((id, hf) ∷ hs) (release now tree ((id, hf) ∷ hs))
release_one-kept now tree id hf hs w n right ih =
    unfold release in
    rw w (record {
      tidy = (
        still_not_held id now tree hs n,
        IsRight-kept id id tree (release now tree hs).0 hf
            (ih.others (attestation_path id) (attestation id) (not_held-AreApart id hs n)) right,
        ih.tidy,
      );
      grown = ih.grown;
      others = λ k r a. ih.others k r a.1;
    })

release_one-done :
    (now : Time) (tree : Files) (id : Bytes) (hf : HeldFile) (hs : List (Bytes × HeldFile))
    → is_waiting now hf ≡ false
    → is_held id hs ≡ false
    → IsRight tree id hf
    → IsReleased (write_each hf.files tree).0 hs (release now (write_each hf.files tree).0 hs)
    → IsReleased tree ((id, hf) ∷ hs) (release now tree ((id, hf) ∷ hs))
release_one-done now tree id hf hs w n right ih =
    unfold release in
    rw w (record {
      tidy = held_again (write_each hf.files tree).1;
      grown = λ k b r h.
          ih.grown k b r (wrote-IsGrown id right.raw hf.files tree right.own right.there k b r h);
      others = λ k r a. ih.others k r a.1 ∙ own-IsKept id right.raw hf.files tree right.own k r a.0;
    })
  where
    next : Files × List (Bytes × HeldFile)
    next = release now (write_each hf.files tree).0 hs

    held_again : (r : Result (Unit {0})) → IsTidy next.0 (or_keep (id, hf) next.1 r)
    held_again (ok u) = ih.tidy
    held_again (err e) = (
      still_not_held id now (write_each hf.files tree).0 hs n,
      IsRight-kept id id (write_each hf.files tree).0 next.0 hf
          (ih.others (attestation_path id) (attestation id) (not_held-AreApart id hs n))
          (record {
            raw = right.raw;
            own = right.own;
            there =
                own-always (λ o. (o ≡ none) ⊎ (o ≡ some right.raw)) id right.raw (inr refl) hf.files
                  tree right.own right.there;
          }),
      ih.tidy,
    )

pub release-IsReleased :
    (now : Time) (tree : Files) (hs : List (Bytes × HeldFile))
    → IsTidy tree hs
    → IsReleased tree hs (release now tree hs)
release-IsReleased now tree [] t =
    unfold release in (record { tidy = tt; grown = λ k b r h. h; others = λ k r a. refl })
release-IsReleased now tree ((id, hf) ∷ hs) t = elim (Bool-cases (is_waiting now hf)) [
  | inl e ↦ release_one-kept now tree id hf hs e t.0 t.1 (release-IsReleased now tree hs t.2)
  | inr e ↦ release_one-done now tree id hf hs e t.0 t.1 (
      release-IsReleased now (write_each hf.files tree).0 hs (
        IsTidy-kept (attestation_path id) tree (write_each hf.files tree).0 hs
          (own-IsKept id (t.1).raw hf.files tree (t.1).own) (apart hs t.0) t.2))
]
  where
    apart :
        (xs : List (Bytes × HeldFile)) → is_held id xs ≡ false → AreApart (attestation_path id) xs
    apart xs n = not_held-AreApart id xs n
