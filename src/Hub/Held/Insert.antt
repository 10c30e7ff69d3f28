-- ===== src/Hub/Held/Insert.antt =====
-- hub/orders.go: a file more that is held.
use onym_audit.Prelude.{
  ◌≡◌, refl, false, ◌++◌, [], ◌∷◌, List, Bytes, bytes_eq, bytes_eq_refl, bytes_lt, some, arith,
  Bool-cases, inl, inr,
}
use onym_audit.Sig.Time.{Time}
use onym_audit.Files.{Files, json}
use onym_audit.Hub.{HeldFile}
use onym_audit.Hub.Publish.{is_held, insert_held}
use onym_audit.Hub.Hold.{held_file}
use onym_audit.Hub.Held.{IsTidy, IsRight, bytes_eq_comm}
use onym_audit.Hub.Held.Sealed.{IsSealed}

is_held-insert_held :
    (i id : Bytes) (hf : HeldFile) (hs : List (Bytes × HeldFile))
    → bytes_eq id i ≡ false
    → is_held i hs ≡ false
    → is_held i (insert_held id hf hs) ≡ false
unfolding is_held insert_held
is_held-insert_held i id hf [] n h = ground arith
is_held-insert_held i id hf ((k, x) ∷ hs) n h =
    elim (Bool-cases (bytes_lt (k ++ json) (id ++ json))) [
      | inl e ↦ rw e (ground (arith, is_held-insert_held i id hf hs n))
      | inr e ↦ rw e (ground arith)
    ]

pub insert_held-IsTidy :
    (tree : Files) (id : Bytes) (hf : HeldFile) (hs : List (Bytes × HeldFile))
    → is_held id hs ≡ false
    → IsRight tree id hf
    → IsTidy tree hs
    → IsTidy tree (insert_held id hf hs)
unfolding insert_held
insert_held-IsTidy tree id hf [] n r t = (unfold is_held in refl, r, tt)
insert_held-IsTidy tree id hf ((k, x) ∷ hs) n r t =
    elim (Bool-cases (bytes_lt (k ++ json) (id ++ json))) [
      | inl e ↦ rw e (
        is_held-insert_held k id hf hs (bytes_eq_comm k id (unfold is_held in ground arith)) t.0,
        t.1,
        insert_held-IsTidy tree id hf hs (unfold is_held in ground arith) r t.2,
      )
      | inr e ↦ rw e (n, r, t)
    ]

pub held_file-insert_held :
    (id : Bytes) (hf : HeldFile) (hs : List (Bytes × HeldFile))
    → is_held id hs ≡ false
    → held_file id (insert_held id hf hs) ≡ some hf
unfolding is_held held_file insert_held
held_file-insert_held id hf [] n = rw (bytes_eq_refl id) refl
held_file-insert_held id hf ((k, x) ∷ hs) n =
    elim (Bool-cases (bytes_lt (k ++ json) (id ++ json))) [
      | inl e ↦
          let apart : bytes_eq k id ≡ false = ground arith in
          let later : is_held id hs ≡ false = ground arith in
          rw (e, apart) (held_file-insert_held id hf hs later)
      | inr e ↦ rw (e, bytes_eq_refl id) refl
    ]

held_file-insert_other :
    (i id : Bytes) (x hf : HeldFile) (hs : List (Bytes × HeldFile))
    → bytes_eq id i ≡ false
    → held_file i hs ≡ some hf
    → held_file i (insert_held id x hs) ≡ some hf
unfolding held_file insert_held
held_file-insert_other i id x hf [] n f = absurd (cc)
held_file-insert_other i id x hf ((k, y) ∷ hs) n f =
    elim (Bool-cases (bytes_lt (k ++ json) (id ++ json))) [
      | inl e ↦ rw e (elim (Bool-cases (bytes_eq k i)) [
        | inl m ↦ (let g = rw m at f in rw m g)
        | inr m ↦ (let g = rw m at f in rw m (held_file-insert_other i id x hf hs n g))
      ])
      | inr e ↦ rw (e, n) f
    ]

pub IsSealed-insert_held :
    (now : Time) (i id : Bytes) (hf x : HeldFile) (tree : Files) (hs : List (Bytes × HeldFile))
    → bytes_eq id i ≡ false
    → IsSealed now i hf tree hs
    → IsSealed now i hf tree (insert_held id x hs)
IsSealed-insert_held now i id hf x tree hs n s = record {
  found = held_file-insert_other i id x hf hs n s.found;
  waiting = s.waiting;
  unpublished = s.unpublished;
}
