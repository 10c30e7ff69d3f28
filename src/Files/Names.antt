-- ===== src/Files/Names.antt =====
-- package path/filepath: the names that Glob finds, before and after a write.
use onym_audit.Prelude.{
  ℕ, ◌≤◌, ◌<◌, ◌≡◌, ◌≢◌, refl, true, false, ◌||◌, [], ◌∷◌, ◌++◌, List, length, length-append_bytes,
  All, Bytes, bytes_eq, bytes_eq_refl, none, some, arith, Bool-cases, inl, inr,
}
use onym_audit.Files.{
  Files, read_file, write_atomic, cut_prefix, has_suffix, has_byte, is_json_name, json_names,
}

pub has_byte-append : (x : ℕ) (s t : Bytes) → has_byte x (s ++ t) ≡ (has_byte x s || has_byte x t)
unfolding has_byte
has_byte-append x [] t = refl
has_byte-append x (c ∷ s) t = ground (arith, has_byte-append x s t)

pub cut_prefix-eq-some : (p s r : Bytes) → cut_prefix p s ≡ some r → s ≡ p ++ r
unfolding cut_prefix
cut_prefix-eq-some [] s r h = cc
cut_prefix-eq-some (a ∷ p) [] r h = cc
cut_prefix-eq-some (a ∷ p) (c ∷ s) r h = ground (arith, cut_prefix-eq-some p s r)

pub bytes_eq_longer : (s p : Bytes) → length p < length s → bytes_eq s p ≡ false
unfolding bytes_eq
bytes_eq_longer [] p h = absurd (omega arith)
bytes_eq_longer (c ∷ s) [] h = refl
bytes_eq_longer (c ∷ s) (d ∷ p) h = ground (arith, bytes_eq_longer s p)

-- Whether a text has an ending shows in its last part, where that is long enough.
pub has_suffix-append :
    (p s t : Bytes) → length p ≤ length t → has_suffix p (s ++ t) ≡ has_suffix p t
unfolding has_suffix
has_suffix-append p [] t h = refl
has_suffix-append p (c ∷ s) t h =
    rw
      (
        bytes_eq_longer (c ∷ s ++ t) p (omega (arith, length-append_bytes s t)),
        has_suffix-append p s t h,
      )
      refl

-- A name that is found ends as the pattern says, and there is a file of it.
pub record IsFound (fs : Files) (n : Bytes) : Type 0 where
  pub suffixed : is_json_name n ≡ true
  pub there : read_file n fs ≢ none

IsFound-cons : (p b : Bytes) (fs : Files) (n : Bytes) → IsFound fs n → IsFound ((p, b) ∷ fs) n
IsFound-cons p b fs n f = record {
  suffixed = f.suffixed;
  there = elim (Bool-cases (bytes_eq p n)) [
    | inl e ↦ unfold read_file in rw e (λ h. cc)
    | inr e ↦ unfold read_file in rw e f.there
  ];
}

IsFound-head : (p b : Bytes) (fs : Files) → is_json_name p ≡ true → IsFound ((p, b) ∷ fs) p
IsFound-head p b fs e = record {
  suffixed = e;
  there = unfold read_file in rw (bytes_eq_refl p) (λ h. cc);
}

All-map {ℓ} :
    {A B : Bytes → Type ℓ} (f : (n : Bytes) → A n → B n) (ns : List Bytes) → All A ns → All B ns
All-map f [] h = tt
All-map f (n ∷ ns) h = (f n h.0, All-map f ns h.1)

pub json_names-IsFound : (fs : Files) → All (IsFound fs) (json_names [] fs)
unfolding json_names cut_prefix
json_names-IsFound [] = tt
json_names-IsFound ((p, b) ∷ fs) = elim (Bool-cases (is_json_name p)) [
  | inl e ↦ rw e (
    IsFound-head p b fs e,
    All-map (IsFound-cons p b fs) (json_names [] fs) (json_names-IsFound fs),
  )
  | inr e ↦ rw e (All-map (IsFound-cons p b fs) (json_names [] fs) (json_names-IsFound fs))
]

-- A write to a name that is not of the pattern finds no other names.
pub json_names-other :
    (p v : Bytes) (fs : Files)
    → is_json_name p ≡ false
    → json_names [] (write_atomic p v fs) ≡ json_names [] fs
unfolding json_names write_atomic cut_prefix
json_names-other p v [] h = rw h refl
json_names-other p v ((q, b) ∷ fs) h = elim (Bool-cases (bytes_eq q p)) [
  | inl e ↦ rw e refl
  | inr e ↦ rw e (rw (json_names-other p v fs h) refl)
]

-- A new name of the pattern is found besides the others.
pub json_names-new :
    (p v : Bytes) (fs : Files)
    → is_json_name p ≡ true
    → read_file p fs ≡ none
    → json_names [] (write_atomic p v fs) ≡ json_names [] fs ++ p ∷ []
unfolding json_names write_atomic cut_prefix read_file
json_names-new p v [] h n = rw h refl
json_names-new p v ((q, b) ∷ fs) h n = elim (Bool-cases (bytes_eq q p)) [
  | inl e ↦ absurd (ground arith)
  | inr e ↦ rw e (elim (Bool-cases (is_json_name q)) [
    | inl i ↦ rw i (rw (json_names-new p v fs h (rw e at n)) refl)
    | inr i ↦ rw i (json_names-new p v fs h (rw e at n))
  ])
]
