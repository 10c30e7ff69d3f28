-- ===== src/Audit/Build/Lookup.antt =====
-- audit/status.go: what a client finds in a list that BuildStatus built.
use onym_audit.Prelude.{
  ◌≡◌, ◌≤◌, refl, ap, ◌∙◌, true, false, not, ◌&&◌, [], ◌∷◌, List, Bytes, bytes_eq, bytes_lt,
  bytes_eq→eq, bytes_eq_refl, if◌then◌else◌, some, arith, Bool-cases, inl, inr,
}
use mathlib.Core.List.{Memᴰ}
use onym_audit.Sig.Time.{Time, before}
use onym_audit.Audit.Strict.{member}
use onym_audit.Audit.Terms.{DocRef}
use onym_audit.Audit.Status.{StatusEntry, find_entry, revoked, has_ref}
use onym_audit.Audit.Build.{Published, entry_of, entries_of, insert_entry, sort_entries}
use onym_audit.Audit.Build.Order.{
  entries_of-AreDistinct, ids, AreDistinct, published_ids, member-sort_entries,
}

find_entry-insert_entry :
    (k : Bytes) (e : StatusEntry) (es : List StatusEntry)
    → member e.attestation_id (ids es) ≡ false
    → find_entry k (insert_entry e es)
      ≡ (if bytes_eq e.attestation_id k then some e else find_entry k es)
unfolding find_entry insert_entry member
find_entry-insert_entry k e [] n = refl
find_entry-insert_entry k e (x ∷ xs) n =
    elim (Bool-cases (bytes_lt x.attestation_id e.attestation_id)) [
      | inl q ↦ rw q (elim (Bool-cases (bytes_eq x.attestation_id k)) [
        | inl p ↦ rw (p, other p) refl
        | inr p ↦ rw p (find_entry-insert_entry k e xs (ground arith))
      ])
      | inr q ↦ rw q refl
    ]
  where
    other : bytes_eq x.attestation_id k ≡ true → bytes_eq e.attestation_id k ≡ false
    other p = ground (arith, bytes_eq→eq x.attestation_id k p)

find_entry-sort_entries :
    (k : Bytes) (es : List StatusEntry)
    → AreDistinct (ids es)
    → find_entry k (sort_entries es) ≡ find_entry k es
unfolding find_entry sort_entries
find_entry-sort_entries k [] d = refl
find_entry-sort_entries k (e ∷ es) d =
    find_entry-insert_entry k e (sort_entries es) (member-sort_entries e.attestation_id es ∙ d.0)
    ∙ ap (λ r. if bytes_eq e.attestation_id k then some e else r) (find_entry-sort_entries k es d.1)

listed :
    (p : Published) (ps : List Published)
    → Memᴰ p ps
    → member p.attestation.attestation_id (published_ids ps) ≡ true
unfolding member
listed p [] i = elim i [ ]
listed p (q ∷ ps) (Memᴰ.head e) = rw (e, bytes_eq_refl q.attestation.attestation_id) refl
listed p (q ∷ ps) (Memᴰ.tail i) = rw (listed p ps i) (ground arith)

id_of :
    (pubs : List Published) (now : Time) (p : Published)
    → (entry_of pubs now p).attestation_id ≡ p.attestation.attestation_id
unfolding entry_of
id_of pubs now p = ground arith

find_entry-entries_of :
    (pubs : List Published) (now : Time) (p : Published) (ps : List Published)
    → AreDistinct (published_ids ps)
    → Memᴰ p ps
    → find_entry p.attestation.attestation_id (entries_of pubs now ps) ≡ some (entry_of pubs now p)
unfolding find_entry entries_of
find_entry-entries_of pubs now p [] d i = elim i [ ]
find_entry-entries_of pubs now p (q ∷ ps) d (Memᴰ.head e) =
    rw (e, id_of pubs now q, bytes_eq_refl q.attestation.attestation_id) refl
find_entry-entries_of pubs now p (q ∷ ps) d (Memᴰ.tail i) =
    rw (id_of pubs now q, apart) (find_entry-entries_of pubs now p ps d.1 i)
  where
    apart : bytes_eq q.attestation.attestation_id p.attestation.attestation_id ≡ false
    apart = ground (
      arith,
      d.0,
      listed p ps i,
      bytes_eq→eq q.attestation.attestation_id p.attestation.attestation_id,
    )

-- In the entries that are built over attestations with distinct ids, the id of a published
-- attestation finds the entry made of that attestation.
pub find_entry-built :
    (pubs : List Published) (now : Time) (p : Published)
    → AreDistinct (published_ids pubs)
    → Memᴰ p pubs
    → find_entry p.attestation.attestation_id (sort_entries (entries_of pubs now pubs))
      ≡ some (entry_of pubs now p)
find_entry-built pubs now p d i =
    find_entry-sort_entries p.attestation.attestation_id (entries_of pubs now pubs)
      (entries_of-AreDistinct pubs now d)
    ∙ find_entry-entries_of pubs now p pubs d i

-- Among attestations of distinct ids, a revocation that has taken effect is in the built list,
-- whatever supersedes the attestation and whether or not it has expired.
pub revoked-built :
    (pubs : List Published) (now : Time) (p : Published) (r : DocRef)
    → AreDistinct (published_ids pubs)
    → Memᴰ p pubs
    → p.revocation ≡ some r
    → p.revoked_from ≤ now
    → (e : StatusEntry) × (find_entry p.attestation.attestation_id
          (sort_entries (entries_of pubs now pubs))
        ≡ some e)
      × (e.state ≡ revoked)
      × (e.revocation ≡ some r)
unfolding entry_of
revoked-built pubs now p r d i h l =
    (entry_of pubs now p, find_entry-built pubs now p d i, rw taken refl, rw taken h)
  where
    taken : (has_ref p.revocation && not (before now p.revoked_from)) ≡ true
    taken = rw h (ground arith)
