-- ===== src/Hub/Board/Closing.antt =====
-- hub/requests.go: a request stays as it was posted, and one that is not open does not open again.
use onym_audit.Prelude.{
  ◌≤◌, ◌≡◌, refl, ◌∙◌, true, false, [], ◌∷◌, ◌++◌, all, length, ◌==◌, Bytes, codes, bytes_eq,
  Option, none, some, ok, plain, arith, Bool-cases, Option-cases, &&-cases, inl, inr, require-eq-ok,
  >>=-eq-ok,
}
use onym_audit.Sig.Time.{Time}
use onym_audit.Files.{Files, read_file, cut_prefix, has_suffix, has_byte, is_json_name, json}
use onym_audit.Files.Names.{has_byte-append, has_suffix-append, cut_prefix-eq-some}
use onym_audit.Site.{load}
use onym_audit.Hub.{Hub}
use onym_audit.Hub.Requests.{
  Request, load_request, is_request_id, is_lower_or_digit, twenty, is_open, request_path,
}
use onym_audit.Hub.Board.{Reach, here, next}
use onym_audit.Hub.Board.Effects.{Step-Effect, read_stored}
use onym_audit.Hub.Board.Later.{IsLater, Effect-IsLater, is_open_sooner}

no_slash : (s : Bytes) → all is_lower_or_digit s ≡ true → has_byte b'/' s ≡ false
unfolding has_byte
no_slash [] h = refl
no_slash (c ∷ s) h = ground (arith, no_slash s)

pub request_path-json :
    (id : Bytes) → is_request_id id ≡ true → is_json_name (request_path id) ≡ true
unfolding is_request_id
request_path-json id h = by_cut (cut_prefix (codes "req-") id) refl h
  where
    by_rest :
        (r : Bytes)
        → id ≡ codes "req-" ++ r
        → has_byte b'/' r ≡ false
        → is_json_name (request_path id) ≡ true
    by_rest r e n =
        rw
          (
            has_suffix-append json id json (omega arith),
            has_byte-append b'/' id json,
            e,
            has_byte-append b'/' (codes "req-") r,
            n,
          )
          (unfold has_byte has_suffix bytes_eq in refl)

    by_cut :
        (o : Option Bytes)
        → cut_prefix (codes "req-") id ≡ o
        → twenty o ≡ true
        → is_json_name (request_path id) ≡ true
    by_cut none e k = absurd (cc)
    by_cut (some r) e k =
        by_rest r (cut_prefix-eq-some (codes "req-") id r e)
          (no_slash r (&&-cases (length r == 20) (all is_lower_or_digit r) k).1)

load-eq-ok : (p raw : Bytes) (fs : Files) → load p fs ≡ ok raw → read_file p fs ≡ some raw
load-eq-ok p raw fs h = elim (Option-cases (read_file p fs)) [
  | inl e ↦ let k = rw e at h in absurd (cc)
  | inr (b, e) ↦ let k = rw e at h in e ∙ cc
]

-- What is loaded has a valid id, and a file of its name that is read as the request.
pub load_request-eq-ok :
    (id : Bytes) (board : Files) (q : Request)
    → load_request id board ≡ ok q
    → (is_request_id id ≡ true)
      × ((raw : Bytes) × (read_file (request_path id) board ≡ some raw) × (read_stored raw ≡ ok q))
unfolding load_request
load_request-eq-ok id board q h =
    let (i, h1) = require-eq-ok (is_request_id id) plain _ h in
    let (raw, e, h2) = >>=-eq-ok (load (request_path id) board) _ h1 in
    (i, (raw, load-eq-ok (request_path id) raw board e, h2))

pub load_request-of :
    (id raw : Bytes) (board : Files) (q : Request)
    → is_request_id id ≡ true
    → read_file (request_path id) board ≡ some raw
    → read_stored raw ≡ ok q
    → load_request id board ≡ ok q
unfolding load_request
load_request-of id raw board q i r s = rw (i, r) s

pub load_request-kept :
    (id : Bytes) (board board' : Files) (q : Request)
    → IsLater board board'
    → load_request id board ≡ ok q
    → load_request id board' ≡ ok q
load_request-kept id board board' q l h =
    let (i, (raw, r, s)) = load_request-eq-ok id board q h in
    load_request-of id raw board' q i (l.kept (request_path id) raw (request_path-json id i) r) s

pub not_open_later :
    (q : Request) (now later : Time) (board board' : Files)
    → now ≤ later
    → IsLater board board'
    → is_open now board q ≡ false
    → is_open later board' q ≡ false
not_open_later q now later board board' h l n = elim (Bool-cases (is_open later board' q)) [
  | inr e ↦ e
  | inl e ↦ let k = is_open_sooner q now later board board' h l e in cc
]

pub Reach-loaded :
    (h : Hub) (id : Bytes) (q : Request) (start : Time) (board : Files) (now : Time)
    (board' : Files)
    → load_request id board ≡ ok q
    → Reach h start board now board'
    → load_request id board' ≡ ok q
Reach-loaded h id q start board now board' r here = r
Reach-loaded h id q start board later board' r (next {now} {b = middle} s l step) =
    load_request-kept id middle board' q (Effect-IsLater (Step-Effect step))
      (Reach-loaded h id q start board now middle r s)

Reach-closed :
    (h : Hub) (q : Request) (start : Time) (board : Files) (now : Time) (board' : Files)
    → is_open start board q ≡ false
    → Reach h start board now board'
    → is_open now board' q ≡ false
Reach-closed h q start board now board' n here = n
Reach-closed h q start board later board' n (next {now} {b = middle} s l step) =
    not_open_later q now later middle board' l (Effect-IsLater (Step-Effect step))
      (Reach-closed h q start board now middle n s)

-- A request that is loaded and is not open is loaded as it was, and is not open, at every later
-- time, after whatever requests, answers and orders are sent to the hub at times that do not go
-- back.
pub Reach-settled :
    (h : Hub) (id : Bytes) (q : Request) (start : Time) (board : Files) (now : Time)
    (board' : Files)
    → load_request id board ≡ ok q
    → is_open start board q ≡ false
    → Reach h start board now board'
    → (load_request id board' ≡ ok q) × (is_open now board' q ≡ false)
Reach-settled h id q start board now board' l n r =
    (Reach-loaded h id q start board now board' l r, Reach-closed h q start board now board' n r)
