-- ===== src/Audit/Build/Writing.antt =====
-- audit/status.go: what the builder writes of a status list is a document of the profile.
use onym_audit.Prelude.{
  Bool, ℕ, ◌≤◌, refl, [], ◌∷◌, List, All, Bytes, bytes_eq, Option, none, some, arith, Bool-cases,
  inl, inr, ◌&&◌, not, is_nil,
}
use onym_audit.Utf8.{IsText, utf8_run, utf8_step}
use onym_audit.Canon.Value.{Fields, has_key, max_safe_integer, IsDocument, AreElements, AreMembers}
use onym_audit.Canon.Encode.Digits.{format_uint-IsNumber}
use onym_audit.Audit.Terms.{DocRef}
use onym_audit.Audit.Status.{StatusEntry, StatusList, active, superseded, revoked, expired, has_ref}
use onym_audit.Audit.Decision.{or_blank}
use onym_audit.Sig.Time.{Time, before}
use onym_audit.Audit.Build.Order.{All-sort_entries}
use onym_audit.Audit.Build.{
  Published, superseded_by, later, supersedes, entry_of, entries_of, sort_entries, blank_entry,
  has_ended, opt_value, opt_ref_value, ref_value, ref_values, entry_fields, entry_values,
  status_fields,
}

abbrev pub IsTextOrNone : Option Bytes → Type 0
IsTextOrNone none = Unit
IsTextOrNone (some s) = IsText s

pub record HasTexts (d : DocRef) : Type 0 where
  pub uri : IsText d.uri
  pub digest : IsText d.digest

abbrev pub HasTextsOrNone : Option DocRef → Type 0
HasTextsOrNone none = Unit
HasTextsOrNone (some d) = HasTexts d

-- Every text of an entry is valid UTF-8.
pub record IsWritable (e : StatusEntry) : Type 0 where
  pub id : IsText e.attestation_id
  pub at : HasTexts e.attestation
  pub state : IsText e.state
  pub by : IsTextOrNone e.superseded_by
  pub revocation : HasTextsOrNone e.revocation
  pub responses : All HasTexts e.responses

-- Every text of a list is valid UTF-8, and its numbers are of the profile.
pub record IsListWritable (l : StatusList) : Type 0 where
  pub version : l.status_version ≤ max_safe_integer
  pub auditor : IsText l.auditor
  pub operator : IsText l.auditor_key
  pub key : IsText l.status_key
  pub epoch : l.status_epoch ≤ max_safe_integer
  pub issued : IsText l.issued_at
  pub next : IsText l.next_update
  pub listed : All IsWritable l.entries

run_writing : Bytes → Fields → Bool
unfolding has_key bytes_eq utf8_run utf8_step IsDocument AreElements AreMembers
run_writing = has_key

ref-IsDocument : (n : ℕ) (d : DocRef) → n ≤ 4 → HasTexts d → IsDocument n (ref_value d)
unfolding run_writing
ref-IsDocument n d l t =
    (omega arith, (refl, refl, (omega arith, t.uri), (refl, refl, (omega arith, t.digest), tt)))

refs-AreElements :
    (n : ℕ) (ds : List DocRef) → n ≤ 3 → All HasTexts ds → AreElements n (ref_values ds)
unfolding AreElements
refs-AreElements n [] l t = tt
refs-AreElements n (d ∷ ds) l t =
    (ref-IsDocument _ d (omega arith) t.0, refs-AreElements n ds l t.1)

opt-IsDocument : (n : ℕ) (s : Option Bytes) → n ≤ 4 → IsTextOrNone s → IsDocument n (opt_value s)
unfolding run_writing
opt-IsDocument n none l t = omega arith
opt-IsDocument n (some s) l t = (omega arith, t)

opt_ref-IsDocument :
    (n : ℕ) (d : Option DocRef) → n ≤ 4 → HasTextsOrNone d → IsDocument n (opt_ref_value d)
unfolding run_writing
opt_ref-IsDocument n none l t = omega arith
opt_ref-IsDocument n (some d) l t = ref-IsDocument n d l t

entry-AreMembers : (e : StatusEntry) → IsWritable e → AreMembers 2 (entry_fields e)
unfolding run_writing
entry-AreMembers e w = (
  refl,
  refl,
  (omega arith, w.id),
  (
    refl,
    refl,
    ref-IsDocument 3 e.attestation (omega arith) w.at,
    (
      refl,
      refl,
      (omega arith, w.state),
      (
        refl,
        refl,
        opt-IsDocument 3 e.superseded_by (omega arith) w.by,
        (
          refl,
          refl,
          opt_ref-IsDocument 3 e.revocation (omega arith) w.revocation,
          (refl, refl, (omega arith, refs-AreElements 3 e.responses (omega arith) w.responses), tt),
        ),
      ),
    ),
  ),
)

entries-AreElements : (es : List StatusEntry) → All IsWritable es → AreElements 1 (entry_values es)
unfolding run_writing
entries-AreElements [] w = tt
entries-AreElements (e ∷ es) w = ((omega arith, entry-AreMembers e w.0), entries-AreElements es w.1)

-- What toObject makes of a list is a document of the profile.
pub status_fields-AreMembers : (l : StatusList) → IsListWritable l → AreMembers 0 (status_fields l)
unfolding run_writing
status_fields-AreMembers l w = (
  refl,
  refl,
  (omega arith, format_uint-IsNumber l.status_version w.version),
  (
    refl,
    refl,
    (omega arith, w.auditor),
    (
      refl,
      refl,
      (omega arith, w.operator),
      (
        refl,
        refl,
        (omega arith, w.key),
        (
          refl,
          refl,
          (omega arith, format_uint-IsNumber l.status_epoch w.epoch),
          (
            refl,
            refl,
            (omega arith, w.issued),
            (
              refl,
              refl,
              (omega arith, w.next),
              (refl, refl, (omega arith, entries-AreElements l.entries w.listed), tt),
            ),
          ),
        ),
      ),
    ),
  ),
)

-- Every text that the builder takes from a published attestation is valid UTF-8.
pub record IsPublishable (p : Published) : Type 0 where
  pub id : IsText p.attestation.attestation_id
  pub supersedes : IsTextOrNone p.attestation.supersedes
  pub at : HasTexts p.ref
  pub revocation : HasTextsOrNone p.revocation
  pub responses : All HasTexts p.responses

superseded_by-IsText :
    (id : Bytes) (ps : List Published)
    → All IsPublishable ps
    → IsText (or_blank (superseded_by id ps))
unfolding superseded_by
superseded_by-IsText id [] w = unfold utf8_run in refl
superseded_by-IsText id (p ∷ ps) w =
    later-IsText p (superseded_by id ps) w.0 (superseded_by-IsText id ps w.1)
  where
    later-IsText :
        (q : Published) (s : Option Bytes)
        → IsPublishable q
        → IsText (or_blank s)
        → IsText (or_blank (later id q s))
    later-IsText q (some by) v t = t
    later-IsText q none v t = elim (Bool-cases (supersedes q.attestation.supersedes id)) [
      | inl e ↦ rw e v.id
      | inr e ↦ rw e t
    ]

entry_of-IsWritable :
    (pubs : List Published) (now : Time) (p : Published)
    → All IsPublishable pubs
    → IsPublishable p
    → IsWritable (entry_of pubs now p)
unfolding entry_of
entry_of-IsWritable pubs now p ws w =
    elim (Bool-cases (has_ref p.revocation && not (before now p.revoked_from))) [
      | inl q ↦
          rw q (blank revoked (unfold utf8_run utf8_step in refl) none tt p.revocation w.revocation)
      | inr q ↦ rw q (elim (Bool-cases (is_nil by)) [
        | inl r ↦ rw r (elim (Bool-cases (has_ended now p.attestation.expires_at)) [
          | inl t ↦ rw t (blank expired (unfold utf8_run utf8_step in refl) none tt none tt)
          | inr t ↦ rw t (blank active (unfold utf8_run utf8_step in refl) none tt none tt)
        ])
        | inr r ↦ rw r (
            blank superseded (unfold utf8_run utf8_step in refl) (some by)
              (superseded_by-IsText p.attestation.attestation_id pubs ws) none tt)
      ])
    ]
  where
    by : Bytes
    by = or_blank (superseded_by p.attestation.attestation_id pubs)

    blank :
        (st : Bytes)
        → IsText st
        → (s : Option Bytes) → IsTextOrNone s
        → (r : Option DocRef) → HasTextsOrNone r
        → IsWritable (record (blank_entry p) { state = st; superseded_by = s; revocation = r })
    blank st t s u r v = record {
      id = w.id;
      at = w.at;
      state = t;
      by = u;
      revocation = v;
      responses = w.responses;
    }

entries_of-IsWritable :
    (pubs : List Published) (now : Time) (ps : List Published)
    → All IsPublishable pubs
    → All IsPublishable ps
    → All IsWritable (entries_of pubs now ps)
unfolding entries_of
entries_of-IsWritable pubs now [] ws w = tt
entries_of-IsWritable pubs now (p ∷ ps) ws w =
    (entry_of-IsWritable pubs now p ws w.0, entries_of-IsWritable pubs now ps ws w.1)

pub sort_entries-IsWritable :
    (pubs : List Published) (now : Time)
    → All IsPublishable pubs
    → All IsWritable (sort_entries (entries_of pubs now pubs))
sort_entries-IsWritable pubs now ws =
    All-sort_entries IsWritable (entries_of pubs now pubs)
      (entries_of-IsWritable pubs now pubs ws ws)
