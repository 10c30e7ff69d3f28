-- ===== src/Hub/Held/Sealed.antt =====
-- hub/orders.go, release: what is under an embargo that lasts.
use onym_audit.Prelude.{
  ◌≡◌, refl, sym, ap, ◌∙◌, inl, inr, Bool, true, false, [], ◌∷◌, List, Bytes, bytes_eq, bytes_eq→eq,
  none, some, Result, ok, err, Bool-cases,
}
use onym_audit.Sig.Time.{Time}
use onym_audit.Files.{Files, read_file}
use onym_audit.Hub.{HeldFile, write_each}
use onym_audit.Hub.Publish.{attestation_path}
use onym_audit.Hub.Hold.{is_waiting, release, or_keep, held_file}
use onym_audit.Hub.Writes.{attestation}
use onym_audit.Hub.Held.{
  IsTidy, AreApart, ids-apart, own-IsKept, not_held-AreApart, bytes_eq_comm, IsTidy-kept,
}
use onym_audit.Hub.Held.Release.{release-IsReleased}

-- Under this id a file is held whose embargo lasts, and the attestation is not in the tree.
pub record IsSealed (now : Time) (id : Bytes) (hf : HeldFile) (tree : Files)
    (hs : List (Bytes × HeldFile)) : Type 0 where
  pub found : held_file id hs ≡ some hf
  pub waiting : is_waiting now hf ≡ true
  pub unpublished : read_file (attestation_path id) tree ≡ none

pub found-apart :
    (w id : Bytes) (hf : HeldFile) (hs : List (Bytes × HeldFile))
    → AreApart w hs
    → held_file id hs ≡ some hf
    → bytes_eq w (attestation_path id) ≡ false
unfolding held_file
found-apart w id hf [] a f = absurd (cc)
found-apart w id hf ((k, x) ∷ hs) a f = elim (Bool-cases (bytes_eq k id)) [
  | inl e ↦ bytes_eq_comm (attestation_path id) w (let z = bytes_eq→eq k id e in rw (sym z) (a.0))
  | inr e ↦ found-apart w id hf hs a.1 (rw e at f)
]

pub IsSealed-cons :
    (now : Time) (id k : Bytes) (hf x : HeldFile) (tree : Files) (hs : List (Bytes × HeldFile))
    → bytes_eq k id ≡ false
    → IsSealed now id hf tree hs
    → IsSealed now id hf tree ((k, x) ∷ hs)
IsSealed-cons now id k hf x tree hs n s = record {
  found = unfold held_file in rw n s.found;
  waiting = s.waiting;
  unpublished = s.unpublished;
}

IsSealed-tail :
    (now : Time) (id k : Bytes) (hf x : HeldFile) (tree : Files) (hs : List (Bytes × HeldFile))
    → bytes_eq k id ≡ false
    → IsSealed now id hf tree ((k, x) ∷ hs)
    → IsSealed now id hf tree hs
IsSealed-tail now id k hf x tree hs n s = record {
  found = (let f = s.found in unfold held_file in rw n at f);
  waiting = s.waiting;
  unpublished = s.unpublished;
}

sealed-head :
    (now : Time) (id k : Bytes) (hf x : HeldFile) (tree : Files) (hs : List (Bytes × HeldFile))
    → bytes_eq k id ≡ true
    → IsSealed now id hf tree ((k, x) ∷ hs)
    → x ≡ hf
sealed-head now id k hf x tree hs e s =
    let f = s.found in unfold held_file in (let g = rw e at f in cc g)

IsSealed-under :
    (now : Time) (tree gs : Files) (id k : Bytes) (hf x : HeldFile)
    (hs later : List (Bytes × HeldFile))
    → bytes_eq k id ≡ true
    → read_file (attestation_path k) gs ≡ read_file (attestation_path k) tree
    → IsSealed now id hf tree ((k, x) ∷ hs)
    → IsSealed now id hf gs ((k, x) ∷ later)
IsSealed-under now tree gs id k hf x hs later e r s = record {
  found = unfold held_file in rw e (ap some (sealed-head now id k hf x tree hs e s));
  waiting = s.waiting;
  unpublished = (let z = bytes_eq→eq k id e in (rw z at r) ∙ s.unpublished);
}

-- A release leaves alone what is under an embargo that lasts.
pub release-IsSealed :
    (now : Time) (tree : Files) (id : Bytes) (hf : HeldFile) (hs : List (Bytes × HeldFile))
    → IsTidy tree hs
    → IsSealed now id hf tree hs
    → IsSealed now id hf (release now tree hs).0 (release now tree hs).1
release-IsSealed now tree id hf [] t s = absurd (let f = s.found in unfold held_file in cc)
release-IsSealed now tree id hf ((k, x) ∷ hs) t s =
    by_test (is_waiting now x) refl (bytes_eq k id) refl
      (λ n. release-IsSealed now tree id hf hs t.2 (IsSealed-tail now id k hf x tree hs n s))
      (λ n. release-IsSealed now tree1 id hf hs tidy1 (after_head n))
  where
    tree1 : Files
    tree1 = (write_each x.files tree).0

    tidy1 : IsTidy tree1 hs
    tidy1 =
        IsTidy-kept (attestation_path k) tree tree1 hs
          (own-IsKept k (t.1).raw x.files tree (t.1).own) (not_held-AreApart k hs t.0) t.2

    after_head : bytes_eq k id ≡ false → IsSealed now id hf tree1 hs
    after_head n = record {
      found = (IsSealed-tail now id k hf x tree hs n s).found;
      waiting = s.waiting;
      unpublished =
          own-IsKept k (t.1).raw x.files tree (t.1).own (attestation_path id) (attestation id)
            (ids-apart k id n)
          ∙ s.unpublished;
    }

    dropped :
        (r : Result (Unit {0}))
        → bytes_eq k id ≡ false
        → (gs : Files) (ks : List (Bytes × HeldFile)) → IsSealed now id hf gs ks
        → IsSealed now id hf gs (or_keep (k, x) ks r)
    dropped (ok u) n gs ks i = i
    dropped (err e) n gs ks i = IsSealed-cons now id k hf x gs ks n i

    by_test :
        (w : Bool)
        → is_waiting now x ≡ w
        → (b : Bool) → bytes_eq k id ≡ b
        → (bytes_eq k id ≡ false
            → IsSealed now id hf (release now tree hs).0 (release now tree hs).1)
        → (bytes_eq k id ≡ false
            → IsSealed now id hf (release now tree1 hs).0 (release now tree1 hs).1)
        → IsSealed now id hf (release now tree ((k, x) ∷ hs)).0 (release now tree ((k, x) ∷ hs)).1
    by_test true e true n ih ih1 =
        unfold release in
        rw e (
          IsSealed-under now tree (release now tree hs).0 id k hf x hs (release now tree hs).1 n
            ((release-IsReleased now tree hs t.2).others (attestation_path k) (attestation k)
              (not_held-AreApart k hs t.0))
            s)
    by_test true e false n ih ih1 =
        unfold release in rw e (IsSealed-cons now id k hf x _ _ n (ih n))
    by_test false e true n ih ih1 =
        absurd (let z = sealed-head now id k hf x tree hs n s in let w = s.waiting in cc)
    by_test false e false n ih ih1 =
        unfold release in rw e (dropped (write_each x.files tree).1 n _ _ (ih1 n))
