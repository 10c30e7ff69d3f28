-- ===== src/Canon/Value/Maps.antt =====
-- Objects as maps: what `put` and `delete` do to lookups and to well-formedness.
use onym_audit.Prelude.{
  ℕ, suc, ◌≡◌, refl, ◌∙◌, true, false, ◌||◌, arith, Bytes, bytes_eq, bytes_eq→eq, bytes_eq_refl,
  bytes_eq_iff, none, some, if◌then◌else◌,
}
use onym_audit.Utf8.{IsText}
use onym_audit.Canon.Value.{
  Value, Fields, no_fields, field, Items, no_items, item, get, has_key, put, delete, push,
  IsDocument, AreMembers, AreElements,
}

pub bytes_eq_comm : (s t : Bytes) → bytes_eq s t ≡ bytes_eq t s
bytes_eq_comm s t = ground (arith, bytes_eq_iff s t, bytes_eq_iff t s)

pub has_key-put :
    (j k : Bytes) (v : Value) (fs : Fields)
    → has_key j (put k v fs) ≡ (bytes_eq k j || has_key j fs)
unfolding has_key put
has_key-put j k v no_fields = refl
has_key-put j k v (field i w fs) =
    ground (arith, has_key-put j k v fs, bytes_eq_iff i k, bytes_eq_iff k j, bytes_eq_iff i j)

-- A map's law: what was put is found, and nothing else changes.
pub get-put :
    (j k : Bytes) (v : Value) (fs : Fields)
    → get j (put k v fs) ≡ (if bytes_eq k j then some v else get j fs)
unfolding get put
get-put j k v no_fields = refl
get-put j k v (field i w fs) =
    ground (arith, get-put j k v fs, bytes_eq_iff i k, bytes_eq_iff k j, bytes_eq_iff i j)

pub put-AreMembers :
    (d : ℕ) (k : Bytes) (v : Value) (fs : Fields)
    → has_key k fs ≡ false
    → IsText k
    → IsDocument (suc d) v
    → AreMembers d fs
    → AreMembers d (put k v fs)
unfolding has_key put IsDocument
put-AreMembers d k v no_fields n t h m = (refl, t, h, tt)
put-AreMembers d k v (field i w fs) n t h m =
    elim (bytes_eq i k)
        as (λ b.
          bytes_eq i k ≡ b → AreMembers d (if b then field k v fs else field i w (put k v fs))) [
            | true ↦ λ e. ground arith
            | false ↦ λ e. (
              has_key-put i k v fs ∙ ground (arith, bytes_eq_comm i k),
              m.1,
              m.2,
              put-AreMembers d k v fs (ground arith) t h m.3,
            )
          ]
      refl

pub push-AreElements :
    (d : ℕ) (xs : Items) (v : Value)
    → AreElements d xs
    → IsDocument (suc d) v
    → AreElements d (push xs v)
unfolding push IsDocument
push-AreElements d no_items v h hv = (hv, tt)
push-AreElements d (item x xs) v h hv = (h.0, push-AreElements d xs v h.1 hv)

pub has_key-delete :
    (j k : Bytes) (fs : Fields) → has_key j fs ≡ false → has_key j (delete k fs) ≡ false
unfolding has_key delete
has_key-delete j k no_fields h = refl
has_key-delete j k (field i w fs) h = ground (arith, has_key-delete j k fs)

pub delete-AreMembers :
    (d : ℕ) (k : Bytes) (fs : Fields) → AreMembers d fs → AreMembers d (delete k fs)
unfolding delete IsDocument
delete-AreMembers d k no_fields m = tt
delete-AreMembers d k (field i w fs) m =
    elim (bytes_eq i k) as (λ b. AreMembers d (if b then fs else field i w (delete k fs))) [
      | true ↦ m.3
      | false ↦ (has_key-delete i k fs m.0, m.1, m.2, delete-AreMembers d k fs m.3)
    ]

pub has_key-eq_none : (k : Bytes) (fs : Fields) → has_key k fs ≡ false → get k fs ≡ none
unfolding get has_key
has_key-eq_none k no_fields h = refl
has_key-eq_none k (field i w fs) h = ground (arith, has_key-eq_none k fs)

-- In an object with distinct keys a deleted key is gone, and the others stay.
pub get-delete :
    (d : ℕ) (j k : Bytes) (fs : Fields)
    → AreMembers d fs
    → get j (delete k fs) ≡ (if bytes_eq k j then none else get j fs)
unfolding get delete IsDocument
get-delete d j k no_fields m = ground arith
get-delete d j k (field i w fs) m = ground (
  arith,
  get-delete d j k fs m.3,
  m.0,
  bytes_eq_iff i k,
  bytes_eq_iff k j,
  bytes_eq_iff i j,
  has_key-eq_none j fs,
)

pub delete-none : (k : Bytes) (fs : Fields) → has_key k fs ≡ false → delete k fs ≡ fs
unfolding delete has_key
delete-none k no_fields h = refl
delete-none k (field i w fs) h = ground (arith, delete-none k fs)

-- A new member is taken out again.
pub delete-put :
    (k : Bytes) (v : Value) (fs : Fields) → has_key k fs ≡ false → delete k (put k v fs) ≡ fs
unfolding delete has_key put
delete-put k v no_fields h = ground (arith, bytes_eq_refl k)
delete-put k v (field i w fs) h = ground (arith, delete-put k v fs)

pub has_key-delete_self :
    (d : ℕ) (k : Bytes) (fs : Fields) → AreMembers d fs → has_key k (delete k fs) ≡ false
unfolding delete has_key IsDocument
has_key-delete_self d k no_fields m = refl
has_key-delete_self d k (field i w fs) m =
    ground (arith, has_key-delete_self d k fs m.3, m.0, bytes_eq→eq i k)
