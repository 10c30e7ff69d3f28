-- ===== src/Hub/Board/Naming.antt =====
-- hub/requests.go: each request stands in the file of its id.
use onym_audit.Prelude.{
  ◌≡◌, refl, sym, ap, subst, ◌∙◌, true, [], ◌∷◌, ◌++◌, length-append_bytes, Bytes, bytes_eq,
  bytes_eq→eq, some, ok, arith, Bool-cases, inl, inr,
}
use onym_audit.Sig.Time.{Time}
use onym_audit.Files.{Files, read_file, write_atomic, json}
use onym_audit.Files.Laws.{read_file-write_atomic}
use onym_audit.Files.Names.{bytes_eq_longer}
use onym_audit.Hub.{Hub}
use onym_audit.Hub.Requests.{Request, load_request, request_path, trim_json, is_request_id}
use onym_audit.Hub.Board.{Reach, here, next}
use onym_audit.Hub.Board.Effects.{Effect, same, added, marked, Step-Effect, read_stored}
use onym_audit.Hub.Board.Closing.{load_request-eq-ok, load_request-of, request_path-json}

-- Each request stands in the file of its id.
abbrev pub IsNamed : Files → Type 0
IsNamed board = (id : Bytes) (q : Request) → load_request id board ≡ ok q → q.request_id ≡ id

trim_json-path : (id : Bytes) → trim_json (request_path id) ≡ id
unfolding trim_json
trim_json-path [] = unfold bytes_eq in refl
trim_json-path (c ∷ s) =
    rw (bytes_eq_longer (c ∷ s ++ json) json (omega (arith, length-append_bytes s json)))
      (ap (λ x. c ∷ x) (trim_json-path s))

request_path_injective : (i j : Bytes) → request_path i ≡ request_path j → i ≡ j
request_path_injective i j e = sym (trim_json-path i) ∙ ap trim_json e ∙ trim_json-path j

write-IsNamed :
    (path v : Bytes) (board : Files)
    → IsNamed board
    → ((id : Bytes) (q : Request)
        → is_request_id id ≡ true
        → bytes_eq path (request_path id) ≡ true
        → read_stored v ≡ ok q
        → q.request_id ≡ id)
    → IsNamed (write_atomic path v board)
write-IsNamed path v board n w id q h =
    by_path (load_request-eq-ok id (write_atomic path v board) q h)
  where
    by_path :
        (is_request_id id ≡ true)
          × ((raw : Bytes) × (read_file (request_path id) (write_atomic path v board) ≡ some raw)
              × (read_stored raw ≡ ok q))
        → q.request_id ≡ id
    by_path (i, (raw, r, s)) = elim (Bool-cases (bytes_eq path (request_path id))) [
      | inl e ↦
          let k = rw (read_file-write_atomic (request_path id) path v board, e) at r in
          w id q i e (subst (λ (x : Bytes). read_stored x ≡ ok q) (cc) s)
      | inr e ↦
          let k = rw (read_file-write_atomic (request_path id) path v board, e) at r in
          n id q (load_request-of id raw board q i k s)
    ]

Effect-IsNamed :
    {now : Time} {board board' : Files} → IsNamed board → Effect now board board' → IsNamed board'
Effect-IsNamed n same = n
Effect-IsNamed {board} n (added q raw s i r b) =
    write-IsNamed (request_path q.request_id) raw board n λ id q' j e k.
      let d : q ≡ q' = cc in
      subst (λ (x : Request). x.request_id ≡ id) d
        (request_path_injective q.request_id id (bytes_eq→eq _ (request_path id) e))
Effect-IsNamed {board} n (marked path v e) = write-IsNamed path v board n λ id q i d k.
    let f = rw (bytes_eq→eq path (request_path id) d, request_path-json id i) at e in absurd (cc)

pub Reach-IsNamed :
    (h : Hub) (start : Time) (board : Files) (now : Time) (board' : Files)
    → IsNamed board
    → Reach h start board now board'
    → IsNamed board'
Reach-IsNamed h start board now board' n here = n
Reach-IsNamed h start board later board' n (next {now} {b = middle} r l s) =
    Effect-IsNamed (Reach-IsNamed h start board now middle n r) (Step-Effect s)

pub none-IsNamed : IsNamed []
unfolding read_file
none-IsNamed id q l = let (i, (raw, r, s)) = load_request-eq-ok id [] q l in absurd (cc)
