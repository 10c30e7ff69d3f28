-- ===== src/Hub/Held.antt =====
-- hub/orders.go: the files that are held, and what the release of them does to an auditor's tree.
pub mod Release
pub mod Sealed
pub mod Insert
use mathlib.Core.List.{append_cancel_left, append_cancel_right}
use onym_audit.Prelude.{
  ◌≡◌, refl, sym, ap, subst, ◌∙◌, ◌⊎◌, inl, inr, Bool, true, false, [], ◌∷◌, ◌++◌, List, All, Bytes,
  bytes_eq, bytes_eq→eq, bytes_eq_refl, if◌then◌else◌, Option, none, some, Result, ok, err, arith,
  Bool-cases,
}
use onym_audit.Sig.Time.{Time}
use onym_audit.Files.{Files, read_file, write_atomic, json}
use onym_audit.Files.Laws.{read_file-write_atomic}
use onym_audit.Site.{attestations, write_signed}
use onym_audit.Site.Resign.{read_file-write_signed}
use onym_audit.Hub.{HeldFile, is_signed_path, is_doc_path, write_each, after_write}
use onym_audit.Hub.Publish.{attestation_path, is_held}
use onym_audit.Hub.Hold.{is_waiting, release, or_keep, held_file}
use onym_audit.Hub.Writes.{
  IsRecord, attestation, doc-apart, sig-apart, IsKept, IsApart, write_each-kept,
}

attestation_path-injective :
    (id1 id2 : Bytes) → attestation_path id1 ≡ attestation_path id2 → id1 ≡ id2
attestation_path-injective id1 id2 h =
    append_cancel_right id1 id2 json (append_cancel_left attestations (id1 ++ json) (id2 ++ json) h)

-- The paths of two attestations differ where their ids do.
pub ids-apart :
    (id1 id2 : Bytes)
    → bytes_eq id1 id2 ≡ false
    → bytes_eq (attestation_path id1) (attestation_path id2) ≡ false
ids-apart id1 id2 n = elim (Bool-cases (bytes_eq (attestation_path id1) (attestation_path id2))) [
  | inl e ↦ absurd (
      let z = attestation_path-injective id1 id2 (bytes_eq→eq _ _ e) in
      let r = bytes_eq_refl id2 in cc)
  | inr e ↦ e
]

-- A held file is the attestation's or a document of the tree.
abbrev pub IsOwn : Bytes → Bytes → Bytes × Bytes → Type 0
IsOwn id raw x = ((x.0 ≡ attestation_path id) × (x.1 ≡ raw)) ⊎ (is_doc_path x.0 ≡ true)

-- The attestation is not in the tree, or as it is held.
abbrev pub IsThere : Bytes → Bytes → Files → Type 0
IsThere id raw tree =
    (read_file (attestation_path id) tree ≡ none)
    ⊎ (read_file (attestation_path id) tree ≡ some raw)

pub record IsRight (tree : Files) (id : Bytes) (hf : HeldFile) : Type 0 where
  pub raw : Bytes
  pub own : All (IsOwn id raw) hf.files
  pub there : IsThere id raw tree

-- What is held is held once, under the id of its attestation.
abbrev pub IsTidy : Files → List (Bytes × HeldFile) → Type 0
IsTidy tree [] = Unit
IsTidy tree ((id, hf) ∷ hs) = (is_held id hs ≡ false) × IsRight tree id hf × IsTidy tree hs

own-IsApart :
    (id raw k : Bytes) (fs : Files)
    → IsRecord k
    → bytes_eq (attestation_path id) k ≡ false
    → All (IsOwn id raw) fs
    → All (IsApart k) fs
own-IsApart id raw k [] r n a = tt
own-IsApart id raw k ((p, b) ∷ fs) r n a =
    (elim a.0 [ inl e ↦ rw (e.0) n | inr e ↦ doc-apart p k r e ], own-IsApart id raw k fs r n a.1)

pub own-IsKept :
    (id raw : Bytes) (fs tree : Files)
    → All (IsOwn id raw) fs
    → IsKept (attestation_path id) tree (write_each fs tree).0
own-IsKept id raw fs tree a k r n = write_each-kept k fs tree r (own-IsApart id raw k fs r n a)

-- What holds of the attestation as it is held, and of its file in a tree, holds of its file after
-- held files are written.
module _ {ℓ} (P : Option Bytes → Type ℓ) (id raw : Bytes) (as_held : P (some raw)) where
  own-one :
      (p b : Bytes) (tree tree' : Files)
      → IsOwn id raw (p, b)
      → read_file (attestation_path id) tree' ≡ (
          if bytes_eq p (attestation_path id) then some b else read_file (attestation_path id) tree)
      → P (read_file (attestation_path id) tree)
      → P (read_file (attestation_path id) tree')
  own-one p b tree tree' (inl e) h t =
      subst P (sym (h ∙ rw (e.0, e.1, bytes_eq_refl (attestation_path id)) refl)) as_held
  own-one p b tree tree' (inr e) h t =
      subst P (sym (h ∙ rw (doc-apart p (attestation_path id) (attestation id) e) refl)) t

  pub own-always :
      (fs tree : Files)
      → All (IsOwn id raw) fs
      → P (read_file (attestation_path id) tree)
      → P (read_file (attestation_path id) (write_each fs tree).0)
  unfolding write_each
  own-always [] tree a t = t
  own-always ((p, b) ∷ fs) tree a t = elim (Bool-cases (is_signed_path p)) [
    | inl e ↦ rw e (through (λ tree' u. own-always fs tree' a.1 u) (write_signed p b tree) refl)
    | inr e ↦ rw e (
        own-always fs (write_atomic p b tree) a.1
          (own-one p b tree _ a.0 (read_file-write_atomic (attestation_path id) p b tree) t))
  ]
    where
      through :
          ((tree' : Files)
            → P (read_file (attestation_path id) tree')
            → P (read_file (attestation_path id) (write_each fs tree').0))
          → (w : Result Files) → write_signed p b tree ≡ w
          → P (read_file (attestation_path id) (after_write (write_each fs) tree w).0)
      through later (err e) h = t
      through later (ok tree') h = later tree' (
          own-one p b tree tree' a.0
            (read_file-write_signed (attestation_path id) p b tree tree' h
              (sig-apart p (attestation_path id) (attestation id)))
            t)

-- No held attestation is at this path.
abbrev pub AreApart : Bytes → List (Bytes × HeldFile) → Type 0
AreApart k hs = All (λ x. bytes_eq (attestation_path x.0) k ≡ false) hs

pub not_held-AreApart :
    (id : Bytes) (hs : List (Bytes × HeldFile))
    → is_held id hs ≡ false
    → AreApart (attestation_path id) hs
unfolding is_held
not_held-AreApart id [] n = tt
not_held-AreApart id ((k, hf) ∷ hs) n =
    (ids-apart k id (ground arith), not_held-AreApart id hs (ground arith))

pub bytes_eq_comm : (s t : Bytes) → bytes_eq s t ≡ false → bytes_eq t s ≡ false
bytes_eq_comm s t h = ground (arith, bytes_eq→eq t s, bytes_eq_refl s, bytes_eq_refl t)

pub IsRight-kept :
    (w id : Bytes) (tree tree' : Files) (hf : HeldFile)
    → read_file (attestation_path id) tree' ≡ read_file (attestation_path id) tree
    → IsRight tree id hf
    → IsRight tree' id hf
IsRight-kept w id tree tree' hf e r = record {
  raw = r.raw;
  own = r.own;
  there = elim r.there [ inl u ↦ inl (e ∙ u) | inr u ↦ inr (e ∙ u) ];
}

pub IsTidy-kept :
    (w : Bytes) (tree tree' : Files) (hs : List (Bytes × HeldFile))
    → IsKept w tree tree'
    → AreApart w hs
    → IsTidy tree hs
    → IsTidy tree' hs
IsTidy-kept w tree tree' [] k a t = tt
IsTidy-kept w tree tree' ((id, hf) ∷ hs) k a t = (
  t.0,
  IsRight-kept w id tree tree' hf
      (k (attestation_path id) (attestation id) (bytes_eq_comm (attestation_path id) w a.0)) t.1,
  IsTidy-kept w tree tree' hs k a.1 t.2,
)
