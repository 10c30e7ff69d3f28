-- ===== src/Files/Laws.antt =====
-- package os: what is read after a write.
use onym_audit.Prelude.{
  ◌≡◌, refl, true, false, [], ◌∷◌, Bytes, bytes_eq, bytes_eq→eq, bytes_eq_refl, if◌then◌else◌,
  Option, some, arith, Bool-cases, inl, inr,
}
use onym_audit.Files.{Files, read_file, write_atomic}

-- A file that is written is read back, and every other file is as it was.
pub read_file-write_atomic :
    (k p b : Bytes) (fs : Files)
    → read_file k (write_atomic p b fs) ≡ (if bytes_eq p k then some b else read_file k fs)
unfolding read_file write_atomic
read_file-write_atomic k p b [] = refl
read_file-write_atomic k p b ((q, x) ∷ fs) = elim (Bool-cases (bytes_eq q p)) [
  | inl e ↦ rw e (let z = bytes_eq→eq q p e in rw z (shadowed k p b x (read_file k fs)))
  | inr e ↦ rw e (elim (Bool-cases (bytes_eq q k)) [
    | inl i ↦ rw i (rw (other e i) refl)
    | inr i ↦ rw i (read_file-write_atomic k p b fs)
  ])
]
  where
    shadowed :
        (k p b x : Bytes) (r : Option Bytes)
        → (if bytes_eq p k then some b else r)
          ≡ (if bytes_eq p k then some b else if bytes_eq p k then some x else r)
    shadowed k p b x r = ground arith

    other : bytes_eq q p ≡ false → bytes_eq q k ≡ true → bytes_eq p k ≡ false
    other e i = ground (arith, bytes_eq→eq p k, bytes_eq→eq q k, bytes_eq_refl p, bytes_eq_refl q)
