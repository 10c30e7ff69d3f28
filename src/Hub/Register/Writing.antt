-- ===== src/Hub/Register/Writing.antt =====
-- hub/hub.go: what writing a manifest with its documents leaves of the manifest that was there.
use onym_audit.Prelude.{
  ◌≡◌, refl, sym, subst, ◌∙◌, ◌⊎◌, inl, inr, Bool, true, false, [], ◌∷◌, ◌++◌, All, Bytes, bytes_eq,
  if◌then◌else◌, Option, some, Result, ok, err, Bool-cases,
}
use onym_audit.Files.{Files, read_file, write_atomic}
use onym_audit.Files.Laws.{read_file-write_atomic}
use onym_audit.Site.{manifest_path, sig_suffix, write_signed}
use onym_audit.Site.Resign.{read_file-write_signed}
use onym_audit.Hub.{is_doc_path, is_signed_path, write_each, after_write}
use onym_audit.Hub.Writes.{manifest, doc-apart}

-- What a writing loop may leave of a file: as it was, or as it is written.
module _ (k v a : Bytes) (r : (p : Bytes) → bytes_eq (p ++ sig_suffix) k ≡ false) where
  abbrev pub IsEither : Files → Type 0
  IsEither tree = (read_file k tree ≡ some a) ⊎ (read_file k tree ≡ some v)

  abbrev pub IsMild : Bytes × Bytes → Type 0
  IsMild x = (bytes_eq x.0 k ≡ false) ⊎ (x.1 ≡ v)

  write-IsEither :
      (p b : Bytes) (tree tree' : Files)
      → read_file k tree' ≡ (if bytes_eq p k then some b else read_file k tree)
      → IsMild (p, b)
      → IsEither tree
      → IsEither tree'
  write-IsEither p b tree tree' e m i = by_mild m
    where
      by_name : b ≡ v → (x : Bool) → bytes_eq p k ≡ x → IsEither tree'
      by_name d true f = inr (e ∙ rw (f, d) refl)
      by_name d false f =
          subst (λ (o : Option Bytes). (o ≡ some a) ⊎ (o ≡ some v)) (sym (e ∙ rw f refl)) i

      by_mild : IsMild (p, b) → IsEither tree'
      by_mild (inl f) =
          subst (λ (o : Option Bytes). (o ≡ some a) ⊎ (o ≡ some v)) (sym (e ∙ rw f refl)) i
      by_mild (inr d) = by_name d (bytes_eq p k) refl

  pub write_each-IsEither :
      (fs tree : Files) → All IsMild fs → IsEither tree → IsEither (write_each fs tree).0
  unfolding write_each
  write_each-IsEither [] tree m i = i
  write_each-IsEither ((p, b) ∷ fs) tree m i = elim (Bool-cases (is_signed_path p)) [
    | inl e ↦
        rw e (through (λ tree' j. write_each-IsEither fs tree' m.1 j) (write_signed p b tree) refl)
    | inr e ↦ rw e (
        write_each-IsEither fs (write_atomic p b tree) m.1 (
          write-IsEither p b tree (write_atomic p b tree) (read_file-write_atomic k p b tree) m.0
            i))
  ]
    where
      through :
          ((tree' : Files) → IsEither tree' → IsEither (write_each fs tree').0)
          → (w : Result Files) → write_signed p b tree ≡ w
          → IsEither (after_write (write_each fs) tree w).0
      through next (err e) h = i
      through next (ok tree') h =
          next tree'
            (write-IsEither p b tree tree' (read_file-write_signed k p b tree tree' h (r p)) m.0 i)

  pub write_atomic-IsMild :
      (fs : Files) → All (λ x. bytes_eq x.0 k ≡ false) fs → All IsMild (write_atomic k v fs)
  unfolding write_atomic
  write_atomic-IsMild [] m = (inr refl, tt)
  write_atomic-IsMild ((p, b) ∷ fs) m = elim (Bool-cases (bytes_eq p k)) [
    | inl e ↦ absurd (let z = m.0 in cc)
    | inr e ↦ rw e (inl e, write_atomic-IsMild fs m.1)
  ]

pub apart :
    (fs : Files)
    → All (λ x. is_doc_path x.0 ≡ true) fs
    → All (λ x. bytes_eq x.0 manifest_path ≡ false) fs
apart [] a = tt
apart ((p, b) ∷ fs) a = (doc-apart p manifest_path manifest a.0, apart fs a.1)
