-- ===== src/Hub/Writes.antt =====
-- hub/hub.go: which files of an auditor's tree the hub's writes touch.
use onym_audit.Prelude.{
  ℕ, max, ◌≡◌, refl, sym, ap, ◌∙◌, inl, inr, true, false, ◌&&◌, not, [], ◌∷◌, ◌++◌, All, leb, plain,
  Bytes, codes, bytes_eq, bytes_eq→eq, Result, ok, err, arith, Bool-cases, &&-cases, >>=-eq-ok,
  require-eq-ok,
}
use onym_audit.Sig.Sign.{Crypto}
use onym_audit.Sig.Time.{Time}
use onym_audit.Files.{Files, read_file, write_atomic, cut_prefix, usage}
use onym_audit.Files.Laws.{read_file-write_atomic}
use onym_audit.Site.{
  sig_suffix, status_path, write_signed, resign_status, manifest_path, load, collect,
  published_epoch,
}
use onym_audit.Audit.Manifest.{parse_manifest}
use onym_audit.Audit.Build.{build_status}
use onym_audit.Site.Resign.{read_file-write_signed}
use onym_audit.Hub.{
  Hub, Tenant, is_signed_path, is_doc_path, in_dirs, check_doc, check_docs, docs, max_body_bytes,
  contains, or_unsigned, base, write_each, after_write, resign,
}
use onym_audit.Hub.Publish.{attestation_path}
use onym_audit.Hub.Revoke.{revocation_path, response_path}

-- The paths of the documents that stay as they are once they are published, and of the manifest.
pub data IsRecord : Bytes → Type 0 where
  attestation : (id : Bytes) → IsRecord (attestation_path id)
  revocation : (id : Bytes) → IsRecord (revocation_path id)
  reply : (id rid : Bytes) → IsRecord (response_path id rid)
  manifest : IsRecord manifest_path

abbrev last_byte : ℕ → Bytes → ℕ
last_byte x [] = x
last_byte x (c ∷ s) = last_byte c s

last_byte-append :
    (x : ℕ) (s : Bytes) (c : ℕ) (t : Bytes) → last_byte x (s ++ c ∷ t) ≡ last_byte c t
last_byte-append x [] c t = refl
last_byte-append x (d ∷ s) c t = last_byte-append d s c t

record-last_byte : (k : Bytes) → IsRecord k → last_byte 0 k ≡ b'n'
record-last_byte k (attestation id) = last_byte-append _ id b'.' (codes "json")
record-last_byte k (revocation id) = last_byte-append _ id b'.' (codes "json")
record-last_byte k manifest = refl
record-last_byte k (reply id rid) =
    last_byte-append b'/' ((id ++ b'/' ∷ []) ++ rid) b'.' (codes "json")

-- A detached signature is not one of these documents.
pub sig-apart : (p k : Bytes) → IsRecord k → bytes_eq (p ++ sig_suffix) k ≡ false
sig-apart p k r = elim (Bool-cases (bytes_eq (p ++ sig_suffix) k)) [
  | inl e ↦ absurd (
      let z = bytes_eq→eq (p ++ sig_suffix) k e in
      let u = last_byte-append 0 p b'.' (codes "sig") in
      let v = record-last_byte k r in differ (sym u ∙ ap (last_byte 0) z ∙ v))
  | inr e ↦ e
]
  where
    differ : ◌≡◌ {A = ℕ} b'g' b'n' → ⊥
    differ h = omega (arith, h)

pub doc-apart : (p k : Bytes) → IsRecord k → is_doc_path p ≡ true → bytes_eq p k ≡ false
doc-apart p k r h = elim (Bool-cases (bytes_eq p k)) [
  | inl e ↦ absurd (let z = bytes_eq→eq p k e in let u = no_doc k r in cc)
  | inr e ↦ e
]
  where
    no_doc : (j : Bytes) → IsRecord j → is_doc_path j ≡ false
    no_doc j (attestation id) = unfold is_doc_path in_dirs cut_prefix in refl
    no_doc j (revocation id) = unfold is_doc_path in_dirs cut_prefix in refl
    no_doc j (reply id rid) = unfold is_doc_path in_dirs cut_prefix in refl
    no_doc j manifest = unfold is_doc_path in_dirs cut_prefix in refl

-- What is left as it was: every such document but one.
abbrev pub IsKept : Bytes → Files → Files → Type 0
IsKept w fs gs = (k : Bytes) → IsRecord k → bytes_eq w k ≡ false → read_file k gs ≡ read_file k fs

abbrev pub IsApart : Bytes → Bytes × Bytes → Type 0
IsApart k x = bytes_eq x.0 k ≡ false

pub write_each-kept :
    (k : Bytes) (fs tree : Files)
    → IsRecord k
    → All (IsApart k) fs
    → read_file k (write_each fs tree).0 ≡ read_file k tree
unfolding write_each
write_each-kept k [] tree r a = refl
write_each-kept k ((p, b) ∷ fs) tree r a = elim (Bool-cases (is_signed_path p)) [
  | inl e ↦ rw e (through (λ tree'. write_each-kept k fs tree' r a.1) (write_signed p b tree) refl)
  | inr e ↦ rw e (
      write_each-kept k fs (write_atomic p b tree) r a.1
      ∙ read_file-write_atomic k p b tree
      ∙ rw (a.0) refl)
]
  where
    through :
        ((tree' : Files) → read_file k (write_each fs tree').0 ≡ read_file k tree')
        → (w : Result Files) → write_signed p b tree ≡ w
        → read_file k (after_write (write_each fs) tree w).0 ≡ read_file k tree
    through later (err e) h = refl
    through later (ok tree') h =
        later tree' ∙ read_file-write_signed k p b tree tree' h (sig-apart p k r) ∙ rw (a.0) refl

status-apart : (k : Bytes) → IsRecord k → bytes_eq status_path k ≡ false
status-apart k (attestation id) = unfold bytes_eq in refl
status-apart k (revocation id) = unfold bytes_eq in refl
status-apart k (reply id rid) = unfold bytes_eq in refl
status-apart k manifest = unfold bytes_eq in refl

resign_status-kept :
    (k : Bytes) (c : Crypto) (base : Bytes) (fs gs : Files) (priv : Bytes) (now : Time)
    → IsRecord k
    → resign_status c base fs priv now ≡ ok gs
    → read_file k gs ≡ read_file k fs
unfolding resign_status
resign_status-kept k c base fs gs priv now r h =
    let (raw, _, h1) = >>=-eq-ok (load manifest_path fs) _ h in
    let (m, _, h2) = >>=-eq-ok (parse_manifest c raw now) _ h1 in
    let (x, _, h3) = >>=-eq-ok (collect c base m fs) _ h2 in
    let (st, _, h4) =
      >>=-eq-ok (build_status c m x.0 now (max x.1 (published_epoch fs)) priv) _ h3 in
    read_file-write_signed k status_path st fs gs h4 (sig-apart status_path k r)
    ∙ rw (status-apart k r) refl

-- Signing the status list again leaves these documents alone.
pub resign-kept :
    (k slug : Bytes) (h : Hub) (now : Time) (t : Tenant) (gs : Files)
    → IsRecord k
    → resign h slug now t ≡ ok gs
    → read_file k gs ≡ read_file k t.tree
unfolding resign
resign-kept k slug h now t gs r e =
    let (raw, _, e1) = >>=-eq-ok (load manifest_path t.tree) _ e in
    let (m, _, e2) = >>=-eq-ok (parse_manifest h.crypto raw now) _ e1 in
    let (key, _, e3) = >>=-eq-ok (or_unsigned t.status_key) _ e2 in
    resign_status-kept k h.crypto (base h slug) t.tree gs key now r e3

check_docs-paths : (fs : Files) → check_docs fs ≡ ok tt → All (λ x. is_doc_path x.0 ≡ true) fs
unfolding check_docs check_doc
check_docs-paths [] h = tt
check_docs-paths ((p, text) ∷ fs) h =
    let (_, e, h1) = >>=-eq-ok (check_doc p text) _ h in
    let (a, _) = require-eq-ok (is_doc_path p && not (contains (codes "..") p)) plain _ e in
    ((&&-cases (is_doc_path p) _ a).0, check_docs-paths fs h1)

-- The documents that are offered are none of these.
pub docs-paths :
    (offered fs : Files)
    → docs offered ≡ ok fs
    → (fs ≡ offered) × All (λ x. is_doc_path x.0 ≡ true) fs
unfolding docs
docs-paths offered fs h =
    let (_, e, h1) = >>=-eq-ok (check_docs offered) _ h in
    let (_, h2) = require-eq-ok (leb (usage offered) max_body_bytes) plain _ h1 in
    let z : fs ≡ offered = cc h2 in (z, rw z (check_docs-paths offered (cc e)))
