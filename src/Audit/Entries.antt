-- ===== src/Audit/Entries.antt =====
-- audit/status.go: the entries of an accepted status list.
use mathlib.Core.Path.{subst}
use onym_audit.Prelude.{
  ℕ, ◌+◌, ◌-◌, leb, codes, ◌≡◌, ◌≢◌, All, refl, ap, sym, Bool, true, false, not, ◌&&◌, [], ◌∷◌,
  List, Bytes, bytes_eq, bytes_eq→eq, bytes_eq_refl, if◌then◌else◌, Option, none, some, Error,
  Result, ok, err, arith, ◌⊎◌, Bool-cases, inl, inr, &&-cases, require-eq-ok, >>=-eq-ok, wrap,
  status_list_invalid,
}
use onym_audit.Sig.Sign.{Crypto, verify}
use onym_audit.Sig.Time.{Time, after, parse_time}
use onym_audit.Audit.Strict.{member, decode_strict}
use onym_audit.Audit.Terms.{one_of, is_none}
use onym_audit.Audit.Manifest.{AuditorManifest, skew}
use onym_audit.Audit.Status.{
  StatusList, StatusEntry, StatusOutcome, rejected, fresh, stale, parse_status, read_status,
  check_status, check_entries, check_entry, find_entry, active, revoked, superseded, expired,
  with_list, has_ref, iff, belongs, max_next_update, rolled_back, status_shape, decode_status,
}

-- An entry whose state is one of the four, with a revocation exactly when it is revoked and a
-- successor exactly when it is superseded.
pub record IsEntry (e : StatusEntry) : Type 0 where
  pub known :
      (e.state ≡ active) ⊎ ((e.state ≡ superseded) ⊎ ((e.state ≡ revoked) ⊎ (e.state ≡ expired)))
  pub revoked_by : bytes_eq e.state revoked ≡ has_ref e.revocation
  pub replaced_by : bytes_eq e.state superseded ≡ not (is_none e.superseded_by)

one_of-four :
    (s a b c d : Bytes)
    → one_of s (a ∷ b ∷ c ∷ d ∷ []) ≡ true
    → (s ≡ a) ⊎ ((s ≡ b) ⊎ ((s ≡ c) ⊎ (s ≡ d)))
unfolding one_of member
one_of-four s a b c d h =
    ground (arith, bytes_eq→eq s a, bytes_eq→eq s b, bytes_eq→eq s c, bytes_eq→eq s d)

iff-eq : (a b : Bool) → iff a b ≡ true → a ≡ b
iff-eq true b h = sym h
iff-eq false b h = ground arith

check_entry-IsEntry :
    (seen : List Bytes) (e : StatusEntry)
    → check_entry seen e ≡ true
    → (member e.attestation_id seen ≡ false) × IsEntry e
unfolding check_entry
check_entry-IsEntry seen e h =
    let (k2, h4) =
      &&-cases
        (not (member e.attestation_id seen)
          && one_of e.state (active ∷ superseded ∷ revoked ∷ expired ∷ [])
          && iff (bytes_eq e.state revoked) (has_ref e.revocation))
        _ h in
    let (k1, h3) =
      &&-cases
        (not (member e.attestation_id seen)
          && one_of e.state (active ∷ superseded ∷ revoked ∷ expired ∷ []))
        _ k2 in
    let (h1, h2) = &&-cases (not (member e.attestation_id seen)) _ k1 in
    (
      ground arith,
      record {
        known = one_of-four e.state active superseded revoked expired h2;
        revoked_by = iff-eq _ _ h3;
        replaced_by = iff-eq _ _ h4;
      },
    )

find_entry-found :
    (id : Bytes) (seen : List Bytes) (es : List StatusEntry) (e : StatusEntry)
    → check_entries seen es ≡ true
    → find_entry id es ≡ some e
    → (e.attestation_id ≡ id) × IsEntry e
unfolding check_entries find_entry
find_entry-found id seen [] e h k = cc
find_entry-found id seen (x ∷ es) e h k =
    let (h1, h2) = &&-cases (check_entry seen x) _ h in
    elim (Bool-cases (bytes_eq x.attestation_id id)) [
      | inl p ↦ this_one p (rw p at k) (check_entry-IsEntry seen x h1).1
      | inr p ↦ find_entry-found id (x.attestation_id ∷ seen) es e h2 (rw p at k)
    ]
  where
    this_one :
        bytes_eq x.attestation_id id ≡ true
        → some x ≡ some e
        → IsEntry x
        → (e.attestation_id ≡ id) × IsEntry e
    this_one p q i = (cc (bytes_eq→eq x.attestation_id id p), subst IsEntry (cc) i)

member-cons :
    (k : Bytes) (seen : List Bytes) (id : Bytes)
    → member id seen ≡ true
    → member id (k ∷ seen) ≡ true
unfolding member
member-cons k seen id h = ground arith

member-head : (k : Bytes) (seen : List Bytes) → member k (k ∷ seen) ≡ true
unfolding member
member-head k seen = ground (arith, bytes_eq_refl k)

-- An id that has been seen is not found among the entries that follow.
seen-absent :
    (seen : List Bytes) (es : List StatusEntry) (id : Bytes)
    → check_entries seen es ≡ true
    → member id seen ≡ true
    → find_entry id es ≡ none
unfolding check_entries find_entry
seen-absent seen [] id h k = refl
seen-absent seen (x ∷ es) id h k =
    let (h1, h2) = &&-cases (check_entry seen x) _ h in
    let (new, _) = check_entry-IsEntry seen x h1 in
    elim (Bool-cases (bytes_eq x.attestation_id id)) [
      | inl p ↦ cc (bytes_eq→eq x.attestation_id id p)
      | inr p ↦
          rw p (
            seen-absent (x.attestation_id ∷ seen) es id h2 (member-cons x.attestation_id seen id k))
    ]

-- None of the entries has this id.
abbrev pub IsAbsent : Bytes → List StatusEntry → Type 0
IsAbsent id = All (λ e. e.attestation_id ≢ id)

-- No two entries have one id.
abbrev pub AreDistinct : List StatusEntry → Type 0
AreDistinct [] = Unit
AreDistinct (e ∷ es) = IsAbsent e.attestation_id es × AreDistinct es

seen-IsAbsent :
    (seen : List Bytes) (es : List StatusEntry) (id : Bytes)
    → check_entries seen es ≡ true
    → member id seen ≡ true
    → IsAbsent id es
unfolding check_entries
seen-IsAbsent seen [] id h k = tt
seen-IsAbsent seen (x ∷ es) id h k =
    let (h1, h2) = &&-cases (check_entry seen x) _ h in
    let (new, _) = check_entry-IsEntry seen x h1 in
    (
      λ e. cc (new, k, e),
      seen-IsAbsent (x.attestation_id ∷ seen) es id h2 (member-cons x.attestation_id seen id k),
    )

check_entries-AreDistinct :
    (seen : List Bytes) (es : List StatusEntry) → check_entries seen es ≡ true → AreDistinct es
unfolding check_entries
check_entries-AreDistinct seen [] h = tt
check_entries-AreDistinct seen (x ∷ es) h =
    let (_, h2) = &&-cases (check_entry seen x) _ h in
    (
      seen-IsAbsent (x.attestation_id ∷ seen) es x.attestation_id h2
          (member-head x.attestation_id seen),
      check_entries-AreDistinct (x.attestation_id ∷ seen) es h2,
    )

pub data IsListed (e : StatusEntry) : List StatusEntry → Type 0 where
  here : {es : List StatusEntry} → IsListed e (e ∷ es)
  there : {x : StatusEntry} {es : List StatusEntry} → IsListed e es → IsListed e (x ∷ es)

-- A list whose entries have distinct ids, which finds every entry under its id, and under an id only an entry of
-- that id and of a known state, whose references agree with the state.
pub record IsIndex (l : StatusList) : Type 0 where
  pub distinct : AreDistinct l.entries
  pub finds :
      (e : StatusEntry) → IsListed e l.entries → find_entry e.attestation_id l.entries ≡ some e
  pub found :
      (id : Bytes) (e : StatusEntry)
      → find_entry id l.entries ≡ some e
      → (e.attestation_id ≡ id) × IsEntry e

check_entries-finds :
    (seen : List Bytes) (es : List StatusEntry) (e : StatusEntry)
    → check_entries seen es ≡ true
    → IsListed e es
    → find_entry e.attestation_id es ≡ some e
unfolding check_entries find_entry
check_entries-finds seen [] e h k = elim k [ ]
check_entries-finds seen (x ∷ es) _ h here = rw (bytes_eq_refl x.attestation_id) refl
check_entries-finds seen (x ∷ es) e h (there k) =
    let (h1, h2) = &&-cases (check_entry seen x) _ h in
    elim (Bool-cases (bytes_eq x.attestation_id e.attestation_id)) [
      | inl p ↦ cc (
        bytes_eq→eq x.attestation_id e.attestation_id p,
        seen-absent (x.attestation_id ∷ seen) es x.attestation_id h2
            (member-head x.attestation_id seen),
        check_entries-finds (x.attestation_id ∷ seen) es e h2 k,
      )
      | inr p ↦ rw p (check_entries-finds (x.attestation_id ∷ seen) es e h2 k)
    ]

check_status-entries :
    (c : Crypto) (raw : Bytes) (m : AuditorManifest) (now : Time) (l : StatusList) (t : Time)
    → check_status c raw m now l ≡ ok t
    → check_entries [] l.entries ≡ true
unfolding check_status
check_status-entries c raw m now l t h =
    let (_, h1) = require-eq-ok (belongs m l) status_list_invalid _ h in
    let (_, _, h2) =
      >>=-eq-ok (wrap status_list_invalid (verify c raw (codes "signature") m.status_key)) _ h1 in
    let (issued, _, h3) = >>=-eq-ok (wrap status_list_invalid (parse_time l.issued_at)) _ h2 in
    let (next, _, h4) = >>=-eq-ok (wrap status_list_invalid (parse_time l.next_update)) _ h3 in
    let (_, h5) =
      require-eq-ok (after next issued && leb (next - issued) max_next_update) status_list_invalid _
        h4 in
    let (_, h6) = require-eq-ok (not (after issued (now + skew))) status_list_invalid _ h5 in
    (require-eq-ok (check_entries [] l.entries) status_list_invalid _ h6).0

abbrev IsAcceptedAs : StatusOutcome → StatusList → Type 0
IsAcceptedAs o l = (o ≡ fresh l) ⊎ (o ≡ stale l)

IsIndex-of : (l : StatusList) → check_entries [] l.entries ≡ true → IsIndex l
IsIndex-of l h = record {
  distinct = check_entries-AreDistinct [] l.entries h;
  finds = λ e k. check_entries-finds [] l.entries e h k;
  found = λ id e k. find_entry-found id [] l.entries e h k;
}

abbrev pair_if :
    Bool → StatusOutcome × Option ℕ → StatusOutcome × Option ℕ → StatusOutcome × Option ℕ
pair_if b x y = if b then x else y

if_pair-accepted :
    (b : Bool) (e : Error) (x : StatusOutcome) (st st' : Option ℕ) (l : StatusList)
    → IsAcceptedAs (pair_if b (rejected e, st) (x, st')).0 l
    → IsAcceptedAs x l
if_pair-accepted true e x st st' l (inl h) = cc
if_pair-accepted true e x st st' l (inr h) = cc
if_pair-accepted false e x st st' l h = h

if-accepted :
    (b : Bool) (k l : StatusList) → IsAcceptedAs (if b then stale k else fresh k) l → k ≡ l
if-accepted true k l (inl h) = cc
if-accepted true k l (inr h) = cc
if-accepted false k l (inl h) = cc
if-accepted false k l (inr h) = cc

with_list-accepted :
    (st : Option ℕ) (now : Time) (r : Result (StatusList × Time)) (l : StatusList)
    → IsAcceptedAs (with_list st now r).0 l
    → (t : Time) × (r ≡ ok (l, t))
with_list-accepted st now (ok (k, t)) l h = (
  t,
  ap (λ (x : StatusList). ok (x, t))
      (if-accepted (after now (t + skew)) k l
        (if_pair-accepted (rolled_back st k.status_epoch) _ _ _ _ l h)),
)
with_list-accepted st now (err e) l (inl h) = cc
with_list-accepted st now (err e) l (inr h) = cc

ok-fst :
    (k l : StatusList) (s t : Time)
    → Path (Result (StatusList × Time)) (ok (k, s)) (ok (l, t))
    → k ≡ l
ok-fst k l s t h = cc

-- In a status list that ParseStatus accepts, as fresh or as stale, no two entries have one
-- attestation id, its Entry finds each of its entries under the entry's id, and what Entry finds under an id has that
-- id, one of the four states, a revocation exactly when it is revoked and a successor exactly when
-- it is superseded.
pub parse_status-IsIndex :
    (c : Crypto) (raw : Bytes) (m : AuditorManifest) (st : Option ℕ) (now : Time) (l : StatusList)
    → ((parse_status c raw m st now).0 ≡ fresh l) ⊎ ((parse_status c raw m st now).0 ≡ stale l)
    → IsIndex l
unfolding parse_status read_status
parse_status-IsIndex c raw m st now l h =
    let (t, p) = with_list-accepted st now (read_status c raw m now) l h in
    let (k, _, h1) =
      >>=-eq-ok (wrap status_list_invalid (decode_strict status_shape decode_status raw)) _ p in
    let (next, q, h2) = >>=-eq-ok (check_status c raw m now k) _ h1 in
    IsIndex-of l (
      subst (λ (x : StatusList). check_entries [] x.entries ≡ true) (ok-fst k l next t h2)
        (check_status-entries c raw m now k next q))
