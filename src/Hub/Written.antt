-- ===== src/Hub/Written.antt =====
-- hub/orders.go: when the files of an attestation can be written, and what is read then.
use mathlib.Core.List.{Memᴰ}
use onym_audit.Prelude.{
  ◌≢◌, Error, >>=-eq-ok, ◌≡◌, refl, sym, ap, subst, ◌∙◌, ◌⊎◌, inl, inr, true, false, [], ◌∷◌, ◌++◌,
  All, Bytes, bytes_eq_refl, some, Result, ok, err, Bool-cases,
}
use onym_audit.Files.{Files, read_file, write_atomic}
use onym_audit.Site.{write_signed, detached, sig_suffix}
use onym_audit.Hub.{is_signed_path, write_each, after_write}
use onym_audit.Hub.Publish.{attestation_path}
use onym_audit.Hub.Held.{IsOwn, own-always}
use onym_audit.Hub.Writes.{attestation, sig-apart}
use onym_audit.Files.Laws.{read_file-write_atomic}
use onym_audit.Site.Resign.{read_file-write_signed}

-- A file can be written where its path does not ask for a signature, or it has one.
abbrev pub IsWritten : Bytes × Bytes → Type 0
IsWritten x = (is_signed_path x.0 ≡ false) ⊎ ((s : Bytes) × (detached x.1 ≡ ok s))

write_one :
    (p b : Bytes) (fs tree : Files)
    → IsWritten (p, b)
    → (tree' : Files) × (write_each ((p, b) ∷ fs) tree ≡ write_each fs tree')
unfolding write_each write_signed
write_one p b fs tree (inl e) = (write_atomic p b tree, rw e refl)
write_one p b fs tree (inr (s, e)) = elim (Bool-cases (is_signed_path p)) [
  | inl q ↦
      (write_atomic (p ++ sig_suffix) (s ++ b'\n' ∷ []) (write_atomic p b tree), rw (q, e) refl)
  | inr q ↦ (write_atomic p b tree, rw q refl)
]

write_each-ok : (fs tree : Files) → All IsWritten fs → (write_each fs tree).1 ≡ ok tt
write_each-ok [] tree a = unfold write_each in refl
write_each-ok ((p, b) ∷ fs) tree a =
    let (tree', e) = write_one p b fs tree a.0 in rw e (write_each-ok fs tree' a.1)

-- What does not go into the tree stops the writing.
abbrev pub IsRefused : Bytes × Bytes → Type 0
IsRefused x = (is_signed_path x.0 ≡ true) × ((s : Bytes) → detached x.1 ≢ ok s)

unsigned-refused :
    (p b : Bytes) (tree gs : Files)
    → ((s : Bytes) → detached b ≢ ok s)
    → write_signed p b tree ≡ ok gs
    → ⊥
unfolding write_signed
unsigned-refused p b tree gs n h = let (s, e, _) = >>=-eq-ok (detached b) _ h in n s e

pub write_each-refused :
    (fs tree : Files) (x : Bytes × Bytes)
    → Memᴰ x fs
    → IsRefused x
    → (e : Error) × ((write_each fs tree).1 ≡ err e)
unfolding write_each
write_each-refused [] tree x i r = elim i [ ]
write_each-refused ((p, b) ∷ fs) tree x (Memᴰ.head m) r = by_result (write_signed p b tree) refl
  where
    signed : is_signed_path p ≡ true
    signed = rw (ap (λ y. y.0) m) at r.0

    by_result :
        (w : Result Files)
        → write_signed p b tree ≡ w
        → (e : Error) × ((write_each ((p, b) ∷ fs) tree).1 ≡ err e)
    by_result (err e) h = (e, rw (signed, h) refl)
    by_result (ok gs) h = absurd (unsigned-refused p b tree gs (rw (ap (λ y. y.1) m) at r.1) h)
write_each-refused ((p, b) ∷ fs) tree x (Memᴰ.tail m) r = elim (Bool-cases (is_signed_path p)) [
  | inl q ↦ rw q (by_result (λ gs. write_each-refused fs gs x m r) (write_signed p b tree))
  | inr q ↦ rw q (write_each-refused fs (write_atomic p b tree) x m r)
]
  where
    by_result :
        ((gs : Files) → (e : Error) × ((write_each fs gs).1 ≡ err e))
        → (w : Result Files) → (e : Error) × ((after_write (write_each fs) tree w).1 ≡ err e)
    by_result later (err e) = (e, refl)
    by_result later (ok gs) = later gs

wrote_signed :
    (p b s : Bytes) (tree : Files)
    → detached b ≡ ok s
    → write_signed p b tree
      ≡ ok (write_atomic (p ++ sig_suffix) (s ++ b'\n' ∷ []) (write_atomic p b tree))
unfolding write_signed
wrote_signed p b s tree e = rw e refl

-- An attestation that is written reads as it was given.
write_attestation :
    (id raw : Bytes) (fs tree : Files)
    → IsWritten (attestation_path id, raw)
    → (tree' : Files) × (write_each ((attestation_path id, raw) ∷ fs) tree ≡ write_each fs tree')
      × (read_file (attestation_path id) tree' ≡ some raw)
unfolding write_each
write_attestation id raw fs tree w = elim (Bool-cases (is_signed_path (attestation_path id))) [
  | inl q ↦ by_result w (write_signed (attestation_path id) raw tree) refl q
  | inr q ↦ (
    write_atomic (attestation_path id) raw tree,
    rw q refl,
    read_file-write_atomic (attestation_path id) (attestation_path id) raw tree
        ∙ rw (bytes_eq_refl (attestation_path id)) refl,
  )
]
  where
    by_result :
        IsWritten (attestation_path id, raw)
        → (r : Result Files) → write_signed (attestation_path id) raw tree ≡ r
        → is_signed_path (attestation_path id) ≡ true
        → (tree' : Files) × (write_each ((attestation_path id, raw) ∷ fs) tree
            ≡ write_each fs tree')
          × (read_file (attestation_path id) tree' ≡ some raw)
    by_result (inl e) r h q = absurd (cc (e, q))
    by_result (inr (s, e)) (err x) h q =
        absurd (let z = wrote_signed (attestation_path id) raw s tree e in cc (z, h))
    by_result (inr (s, e)) (ok gs) h q = (
      gs,
      rw (q, h) refl,
      read_file-write_signed (attestation_path id) (attestation_path id) raw tree gs h
            (sig-apart (attestation_path id) (attestation_path id) (attestation id))
          ∙ rw (bytes_eq_refl (attestation_path id)) refl,
    )

-- The attestation reads as it was held after its files are written.
pub own-written :
    (id raw : Bytes) (fs tree : Files)
    → All (IsOwn id raw) fs
    → All IsWritten fs
    → Memᴰ (attestation_path id, raw) fs
    → read_file (attestation_path id) (write_each fs tree).0 ≡ some raw
own-written id raw [] tree a w m = elim m [ ]
own-written id raw (x ∷ fs) tree a w (Memᴰ.head e) =
    let (tree', q, r) = write_attestation id raw fs tree (subst IsWritten (sym e) w.0) in
    rw (sym e, q) (own-always (λ o. o ≡ some raw) id raw refl fs tree' a.1 r)
own-written id raw ((p, b) ∷ fs) tree a w (Memᴰ.tail m) =
    let (tree', e) = write_one p b fs tree w.0 in rw e (own-written id raw fs tree' a.1 w.1 m)
