-- ===== src/Audit/Build/Order.antt =====
-- audit/status.go: the entries that BuildStatus writes are those that ParseStatus accepts.
use onym_audit.Prelude.{
  ◌≡◌, refl, ap, ◌∙◌, true, false, ◌&&◌, ◌||◌, not, [], ◌∷◌, List, All, Bytes, bytes_eq, bytes_lt,
  bytes_eq→eq, bytes_eq_refl, is_nil, arith, Bool-cases, &&-cases, inl, inr,
}
use onym_audit.Sig.Time.{Time, before}
use onym_audit.Audit.Strict.{member}
use onym_audit.Audit.Terms.{one_of}
use onym_audit.Audit.Decision.{or_blank}
use onym_audit.Audit.Status.{StatusEntry, check_entry, check_entries, has_ref}
use onym_audit.Audit.Build.{
  Published, entry_of, entries_of, insert_entry, sort_entries, superseded_by, has_ended,
}

module _ {ℓ} (P : StatusEntry → Type ℓ) where
  All-insert_entry :
      (e : StatusEntry) (es : List StatusEntry) → P e → All P es → All P (insert_entry e es)
  unfolding insert_entry
  All-insert_entry e [] p h = (p, h)
  All-insert_entry e (x ∷ xs) p h = elim (Bool-cases (bytes_lt x.attestation_id e.attestation_id)) [
    | inl q ↦ rw q (h.0, All-insert_entry e xs p h.1)
    | inr q ↦ rw q (p, h)
  ]

  pub All-sort_entries : (es : List StatusEntry) → All P es → All P (sort_entries es)
  unfolding sort_entries
  All-sort_entries [] h = h
  All-sort_entries (e ∷ es) h = All-insert_entry e (sort_entries es) h.0 (All-sort_entries es h.1)

abbrev pub ids : List StatusEntry → List Bytes
ids [] = []
ids (e ∷ es) = e.attestation_id ∷ ids es

-- No text is listed twice.
abbrev pub AreDistinct : List Bytes → Type 0
AreDistinct [] = Unit
AreDistinct (k ∷ ks) = (member k ks ≡ false) × AreDistinct ks

member-insert_entry :
    (k : Bytes) (e : StatusEntry) (es : List StatusEntry)
    → member k (ids (insert_entry e es)) ≡ (bytes_eq k e.attestation_id || member k (ids es))
unfolding insert_entry member
member-insert_entry k e [] = refl
member-insert_entry k e (x ∷ xs) = ground (arith, member-insert_entry k e xs)

pub member-sort_entries :
    (k : Bytes) (es : List StatusEntry) → member k (ids (sort_entries es)) ≡ member k (ids es)
unfolding sort_entries member
member-sort_entries k [] = refl
member-sort_entries k (e ∷ es) =
    member-insert_entry k e (sort_entries es)
    ∙ ap (λ b. bytes_eq k e.attestation_id || b) (member-sort_entries k es)

pub bytes_eq_comm : (s t : Bytes) → bytes_eq s t ≡ false → bytes_eq t s ≡ false
bytes_eq_comm s t h = ground (arith, bytes_eq→eq t s, bytes_eq_refl s, bytes_eq_refl t)

insert_entry-AreDistinct :
    (e : StatusEntry) (es : List StatusEntry)
    → member e.attestation_id (ids es) ≡ false
    → AreDistinct (ids es)
    → AreDistinct (ids (insert_entry e es))
unfolding insert_entry member
insert_entry-AreDistinct e [] n d = (refl, tt)
insert_entry-AreDistinct e (x ∷ xs) n d =
    elim (Bool-cases (bytes_lt x.attestation_id e.attestation_id)) [
      | inl q ↦ rw q (
        member-insert_entry x.attestation_id e xs
            ∙ ground (arith, bytes_eq_comm e.attestation_id x.attestation_id),
        insert_entry-AreDistinct e xs (ground arith) d.1,
      )
      | inr q ↦ rw q (n, d)
    ]

pub sort_entries-AreDistinct :
    (es : List StatusEntry) → AreDistinct (ids es) → AreDistinct (ids (sort_entries es))
unfolding sort_entries
sort_entries-AreDistinct [] d = d
sort_entries-AreDistinct (e ∷ es) d =
    insert_entry-AreDistinct e (sort_entries es) (member-sort_entries e.attestation_id es ∙ d.0)
      (sort_entries-AreDistinct es d.1)

abbrev pub published_ids : List Published → List Bytes
published_ids [] = []
published_ids (p ∷ ps) = p.attestation.attestation_id ∷ published_ids ps

-- What check_entry asks of an entry by itself.
abbrev IsGood : StatusEntry → Type 0
IsGood e = check_entry [] e ≡ true

abbrev IsNew : List Bytes → StatusEntry → Type 0
IsNew seen e = member e.attestation_id seen ≡ false

IsNew-cons :
    (k : Bytes) (seen : List Bytes) (es : List StatusEntry)
    → member k (ids es) ≡ false
    → All (IsNew seen) es
    → All (IsNew (k ∷ seen)) es
unfolding member
IsNew-cons k seen [] n h = tt
IsNew-cons k seen (e ∷ es) n h =
    (ground (arith, bytes_eq_comm k e.attestation_id), IsNew-cons k seen es (ground arith) h.1)

good-new :
    (seen : List Bytes) (e : StatusEntry) → IsGood e → IsNew seen e → check_entry seen e ≡ true
unfolding check_entry member
good-new seen e g n = ground arith

check_entries-good :
    (seen : List Bytes) (es : List StatusEntry)
    → AreDistinct (ids es)
    → All IsGood es
    → All (IsNew seen) es
    → check_entries seen es ≡ true
unfolding check_entries
check_entries-good seen [] d g n = refl
check_entries-good seen (e ∷ es) d g n = rw (good-new seen e g.0 n.0) (
    check_entries-good (e.attestation_id ∷ seen) es d.1 g.1
      (IsNew-cons e.attestation_id seen es d.0 n.1))

all-IsNew : (es : List StatusEntry) → All (IsNew []) es
unfolding member
all-IsNew [] = tt
all-IsNew (e ∷ es) = (refl, all-IsNew es)

entry_of-IsGood :
    (pubs : List Published) (now : Time) (p : Published) → IsGood (entry_of pubs now p)
unfolding entry_of check_entry one_of member bytes_eq
entry_of-IsGood pubs now p =
    elim (Bool-cases (has_ref p.revocation && not (before now p.revoked_from))) [
      | inl q ↦
          rw q (rw ((&&-cases (has_ref p.revocation) (not (before now p.revoked_from)) q).0) refl)
      | inr q ↦
          rw q
            (elim (Bool-cases
              (is_nil (or_blank (superseded_by p.attestation.attestation_id pubs)))) [
                | inl r ↦ rw r (elim (Bool-cases (has_ended now p.attestation.expires_at)) [
                  | inl t ↦ rw t refl
                  | inr t ↦ rw t refl
                ])
                | inr r ↦ rw r refl
              ])
    ]

ids-entries_of :
    (pubs : List Published) (now : Time) (ps : List Published)
    → ids (entries_of pubs now ps) ≡ published_ids ps
unfolding entries_of entry_of
ids-entries_of pubs now [] = refl
ids-entries_of pubs now (p ∷ ps) = rw (id_of, ids-entries_of pubs now ps) refl
  where
    id_of : (entry_of pubs now p).attestation_id ≡ p.attestation.attestation_id
    id_of = ground arith

entries_of-IsGood :
    (pubs : List Published) (now : Time) (ps : List Published) → All IsGood (entries_of pubs now ps)
unfolding entries_of
entries_of-IsGood pubs now [] = tt
entries_of-IsGood pubs now (p ∷ ps) = (entry_of-IsGood pubs now p, entries_of-IsGood pubs now ps)

pub entries_of-AreDistinct :
    (pubs : List Published) (now : Time)
    → AreDistinct (published_ids pubs)
    → AreDistinct (ids (entries_of pubs now pubs))
entries_of-AreDistinct pubs now d = rw (ids-entries_of pubs now pubs) d

-- The entries of a list pass the checks of the reader, where no attestation is published twice.
pub check_entries-sort_entries :
    (pubs : List Published) (now : Time)
    → AreDistinct (published_ids pubs)
    → check_entries [] (sort_entries (entries_of pubs now pubs)) ≡ true
check_entries-sort_entries pubs now d =
    check_entries-good [] listed (sort_entries-AreDistinct made (entries_of-AreDistinct pubs now d))
      (All-sort_entries IsGood made (entries_of-IsGood pubs now pubs)) (all-IsNew listed)
  where
    made : List StatusEntry
    made = entries_of pubs now pubs

    listed : List StatusEntry
    listed = sort_entries made
