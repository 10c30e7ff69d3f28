-- ===== src/Hub/Board/Later.antt =====
-- hub/requests.go: the files of the directory of requests stay, and what is open later was open before.
use onym_audit.Prelude.{
  ◌≤◌, ◌≡◌, ◌≢◌, refl, sym, subst, Bool, true, false, ◌&&◌, not, Bytes, bytes_eq, bytes_eq→eq,
  if◌then◌else◌, Option, none, some, Result, ok, err, arith, Bool-cases, inl, inr,
}
use onym_audit.Sig.Time.{Time, parse_time}
use onym_audit.Files.{Files, read_file, write_atomic, exists, is_json_name}
use onym_audit.Files.Laws.{read_file-write_atomic}
use onym_audit.Hub.Requests.{Request, is_before, is_open, closed_path}
use onym_audit.Hub.Board.Effects.{Effect, same, added, marked}

-- What one call leaves: a request that can be read stays byte for byte, and a file stays.
pub record IsLater (board board' : Files) : Type 0 where
  pub kept :
      (p b : Bytes)
      → is_json_name p ≡ true
      → read_file p board ≡ some b
      → read_file p board' ≡ some b
  pub stays : (p : Bytes) → exists p board ≡ true → exists p board' ≡ true

pub same-IsLater : (board : Files) → IsLater board board
same-IsLater board = record { kept = λ p b i r. r; stays = λ p e. e }

exists-write :
    (p k v : Bytes) (fs : Files) → exists k fs ≡ true → exists k (write_atomic p v fs) ≡ true
exists-write p k v fs h =
    subst (λ (o : Option Bytes). elim o [ none ↦ false | some y ↦ true ] ≡ true)
      (sym (read_file-write_atomic k p v fs)) (by_name (bytes_eq p k))
  where
    by_name :
        (b : Bool)
        → elim (if b then some v else read_file k fs) [ none ↦ false | some y ↦ true ] ≡ true
    by_name true = refl
    by_name false = h

write-IsLater :
    (path v : Bytes) (board : Files)
    → ((b : Bytes) → is_json_name path ≡ true → read_file path board ≢ some b)
    → IsLater board (write_atomic path v board)
write-IsLater path v board apart = record {
  kept = λ p b i r.
      rw (read_file-write_atomic p path v board) (elim (Bool-cases (bytes_eq path p)) [
        | inl e ↦ absurd (apart b (rw (bytes_eq→eq path p e) i) (rw (bytes_eq→eq path p e) r))
        | inr e ↦ rw e r
      ]);
  stays = λ p e. exists-write path p v board e;
}

pub Effect-IsLater :
    {now : Time} {board board' : Files} → Effect now board board' → IsLater board board'
Effect-IsLater {board} same = same-IsLater board
Effect-IsLater {board} (added q raw s i n r) = write-IsLater _ raw board (λ b e f. cc)
Effect-IsLater {board} (marked path v e) = write-IsLater path v board (λ b i f. cc)

open_sooner :
    (now later : Time) (x y : Bool) (r : Result Time)
    → now ≤ later
    → (x ≡ true → y ≡ true)
    → (is_before later r && not y) ≡ true
    → (is_before now r && not x) ≡ true
open_sooner now later x y (err e) l s h = h
open_sooner now later false y (ok at) l s h = ground arith
open_sooner now later true y (ok at) l s h = ground (arith, s refl)

-- A request that is open later has been open before.
pub is_open_sooner :
    (q : Request) (now later : Time) (board board' : Files)
    → now ≤ later
    → IsLater board board'
    → is_open later board' q ≡ true
    → is_open now board q ≡ true
unfolding is_open
is_open_sooner q now later board board' h l o =
    open_sooner now later _ _ (parse_time q.expires_at) h (l.stays (closed_path q.request_id)) o
