-- ===== src/Hub/Board/Bound.antt =====
-- hub/requests.go: the limit on open requests.
use onym_audit.Prelude.{
  suc, ◌≤◌, ◌<◌, ◌≡◌, refl, sym, ap, ◌∙◌, Bool, true, not, [], ◌∷◌, ◌++◌, List, All, Bytes,
  bytes_eq, bytes_eq→eq, Option, none, some, Result, ok, err, arith, Bool-cases, &&-cases, inl, inr,
}
use onym_audit.Sig.Time.{Time}
use onym_audit.Files.{
  Files, read_file, write_atomic, glob_json, json_names, insert_name, sort_names, has_suffix,
  has_byte, is_json_name, json,
}
use onym_audit.Files.Names.{IsFound, json_names-IsFound, json_names-other, json_names-new}
use onym_audit.Hub.{Hub}
use onym_audit.Hub.Requests.{
  Request, counts, load_request, is_open_file, count, open_requests, request_path, trim_json,
  max_open_requests,
}
use onym_audit.Hub.Board.{Reach, here, next}
use onym_audit.Hub.Board.Later.{IsLater, same-IsLater, Effect-IsLater, is_open_sooner}
use onym_audit.Hub.Board.Effects.{Effect, same, added, marked, Step-Effect}

module _ (f : Bytes → Bool) where
  count-append : (ns : List Bytes) (p : Bytes) → count f (ns ++ p ∷ []) ≤ suc (count f ns)
  unfolding count
  count-append [] p = ground arith
  count-append (n ∷ ns) p = ground (arith, count-append ns p)

  count-insert_name : (n : Bytes) (ns : List Bytes) → count f (insert_name n ns) ≡ count f (n ∷ ns)
  unfolding count insert_name
  count-insert_name n [] = refl
  count-insert_name n (x ∷ xs) = ground (arith, count-insert_name n xs)

  count-cons :
      (n : Bytes) (xs ys : List Bytes)
      → count f xs ≡ count f ys
      → count f (n ∷ xs) ≡ count f (n ∷ ys)
  unfolding count
  count-cons n xs ys e = rw e refl

  count-sort_names : (ns : List Bytes) → count f (sort_names ns) ≡ count f ns
  unfolding sort_names
  count-sort_names [] = refl
  count-sort_names (n ∷ ns) =
      count-insert_name n (sort_names ns) ∙ count-cons n (sort_names ns) ns (count-sort_names ns)

  count-le :
      (g : Bytes → Bool) (ns : List Bytes)
      → All (λ n. f n ≡ true → g n ≡ true) ns
      → count f ns ≤ count g ns
  unfolding count
  count-le g [] h = omega arith
  count-le g (n ∷ ns) h = ground (arith, h.0, count-le g ns h.1)

trim_json-append : (s : Bytes) → has_suffix json s ≡ true → trim_json s ++ json ≡ s
unfolding has_suffix trim_json
trim_json-append [] h = absurd (unfold bytes_eq in cc)
trim_json-append (c ∷ s) h = elim (Bool-cases (bytes_eq (c ∷ s) json)) [
  | inl e ↦ rw e (sym (bytes_eq→eq (c ∷ s) json e))
  | inr e ↦ rw e (ap (λ x. c ∷ x) (trim_json-append s (rw e at h)))
]

-- A request is read from the file of its name alone.
load_request-kept :
    (id : Bytes) (board board' : Files)
    → read_file (request_path id) board' ≡ read_file (request_path id) board
    → load_request id board' ≡ load_request id board
unfolding load_request
load_request-kept id board board' e = rw e refl

-- The file of a request that is open later has held one that was open before.
is_open_file_sooner :
    (now later : Time) (board board' : Files) (n : Bytes)
    → now ≤ later
    → IsLater board board'
    → IsFound board n
    → is_open_file later board' n ≡ true
    → is_open_file now board n ≡ true
unfolding is_open_file
is_open_file_sooner now later board board' n h l f o = by_file (read_file n board) refl
  where
    path : request_path (trim_json n) ≡ n
    path = trim_json-append n (&&-cases (not (has_byte b'/' n)) (has_suffix json n) f.suffixed).1

    by_request : (r : Result Request) → counts later board' r ≡ true → counts now board r ≡ true
    by_request (err e) k = k
    by_request (ok q) k = is_open_sooner q now later board board' h l k

    by_file : (x : Option Bytes) → read_file n board ≡ x → is_open_file now board n ≡ true
    by_file none e = absurd (f.there e)
    by_file (some b) e =
        let d : load_request (trim_json n) board' ≡ load_request (trim_json n) board =
          load_request-kept (trim_json n) board board'
            (rw path (l.kept n b f.suffixed e ∙ sym e)) in
        by_request (load_request (trim_json n) board) (rw d at o)

All-open :
    (now later : Time) (board board' : Files) (ns : List Bytes)
    → now ≤ later
    → IsLater board board'
    → All (IsFound board) ns
    → All (λ n. is_open_file later board' n ≡ true → is_open_file now board n ≡ true) ns
All-open now later board board' [] h l f = tt
All-open now later board board' (n ∷ ns) h l f = (
  is_open_file_sooner now later board board' n h l f.0,
  All-open now later board board' ns h l f.1,
)

found_open :
    (now later : Time) (board board' : Files)
    → now ≤ later
    → IsLater board board'
    → count (is_open_file later board') (json_names [] board) ≤ open_requests now board
unfolding open_requests glob_json
found_open now later board board' h l =
    rw (count-sort_names (is_open_file now board) (json_names [] board)) (
      count-le (is_open_file later board') (is_open_file now board) (json_names [] board)
        (All-open now later board board' _ h l (json_names-IsFound board)))

open_requests_lem :
    (now : Time) (board : Files)
    → open_requests now board ≡ count (is_open_file now board) (json_names [] board)
unfolding open_requests glob_json
open_requests_lem now board = count-sort_names (is_open_file now board) (json_names [] board)

-- Where a call finds the names that it found, no more requests are open.
open_requests-names :
    (now later : Time) (board board' : Files)
    → now ≤ later
    → IsLater board board'
    → json_names [] board' ≡ json_names [] board
    → open_requests later board' ≤ open_requests now board
open_requests-names now later board board' h l e =
    rw (open_requests_lem later board', e) (found_open now later board board' h l)

added_open :
    (later : Time) (board : Files) (p v : Bytes)
    → IsLater board (write_atomic p v board)
    → read_file p board ≡ none
    → open_requests later board < max_open_requests
    → open_requests later (write_atomic p v board) ≤ max_open_requests
added_open later board p v l n b = elim (Bool-cases (is_json_name p)) [
  | inr e ↦ omega (
    arith,
    open_requests-names later later board (write_atomic p v board) (omega arith) l
        (json_names-other p v board e),
  )
  | inl e ↦
      rw (open_requests_lem later (write_atomic p v board), json_names-new p v board e n)
        (omega (
          arith,
          count-append (is_open_file later (write_atomic p v board)) (json_names [] board) p,
          found_open later later board (write_atomic p v board) (omega arith) l,
        ))
]

open_requests-Effect :
    (now later : Time) (board board' : Files)
    → now ≤ later
    → open_requests now board ≤ max_open_requests
    → Effect later board board'
    → open_requests later board' ≤ max_open_requests
open_requests-Effect now later board board' h b same =
    omega (arith, open_requests-names now later board board h (same-IsLater board) refl)
open_requests-Effect now later board board' h b (added q raw s i n r) =
    added_open later board _ raw (Effect-IsLater (added q raw s i n r)) n r
open_requests-Effect now later board board' h b (marked path v e) = omega (
  arith,
  open_requests-names now later board _ h (Effect-IsLater {now = later} (marked path v e))
      (json_names-other path v board e),
)

-- Where at most 500 requests are open at a time, at most 500 are at every later one, after whatever
-- requests, answers and orders are sent to the hub at times that do not go back.
pub Reach-IsBounded :
    (h : Hub) (start : Time) (board : Files) (now : Time) (board' : Files)
    → open_requests start board ≤ max_open_requests
    → Reach h start board now board'
    → open_requests now board' ≤ max_open_requests
Reach-IsBounded h start board now board' b here = b
Reach-IsBounded h start board later board' b (next {now} {b = middle} r l s) =
    open_requests-Effect now later middle board' l (Reach-IsBounded h start board now middle b r)
      (Step-Effect s)
