-- ===== src/Canon/Encode/Order.antt =====
-- The order in which an object's members were inserted does not show in canon/canon.go's output:
-- sorting gives one list for all lists of the same members.
use onym_audit.Prelude.{
  ℕ, suc, ◌≡◌, refl, ap, ◌∙◌, true, false, arith, Bytes, bytes_lt, bytes_eq, bytes_eq_refl,
  bytes_eq→eq, bytes_lt_irrefl, bytes_lt_trans, bytes_lt_connex, some, Bool-cases, inl, inr,
}
use onym_audit.Canon.Value.{
  Value, Items, Fields, object, array, no_items, item, no_fields, field, get, has_key, delete,
  IsDocument, AreMembers, AreElements,
}
use onym_audit.Canon.Value.Maps.{has_key-eq_none, get-delete, delete-AreMembers}
use onym_audit.Canon.Encode.Sort.{
  has_key-sort_fields, insert_field, sort_value, sort_items, sort_fields,
}

bytes_lt_asym : (s t : Bytes) → bytes_lt s t ≡ true → bytes_lt t s ≡ false
bytes_lt_asym s t h = ground (arith, bytes_lt_trans s t s h, bytes_lt_irrefl s)

-- A string below one of two and not below the other.
bytes_lt_between :
    (k j i : Bytes) → bytes_lt k i ≡ true → bytes_lt j i ≡ false → bytes_lt k j ≡ true
bytes_lt_between k j i h n = elim (Bool-cases (bytes_eq j i)) [
  | inl e ↦ rw (bytes_eq→eq j i e) h
  | inr d ↦ bytes_lt_trans k i j h (bytes_lt_connex j i n d)
]

insert_field_comm :
    (k j : Bytes) (v w : Value) (fs : Fields)
    → bytes_eq k j ≡ false
    → insert_field k v (insert_field j w fs) ≡ insert_field j w (insert_field k v fs)
unfolding insert_field
insert_field_comm k j v w no_fields d = ground (arith, bytes_lt_asym k j, bytes_lt_connex k j)
insert_field_comm k j v w (field i u fs) d = ground (
  arith,
  insert_field_comm k j v w fs,
  bytes_lt_asym k j,
  bytes_lt_connex k j,
  bytes_lt_between k j i,
  bytes_lt_between j k i,
  bytes_lt_asym j k,
)

-- A member may be taken out of an object and sorted in at the end.
sort_fields-delete :
    (d : ℕ) (k : Bytes) (v : Value) (fs : Fields)
    → AreMembers d fs
    → get k fs ≡ some v
    → sort_fields fs ≡ insert_field k (sort_value v) (sort_fields (delete k fs))
unfolding sort_value get delete IsDocument
sort_fields-delete d k v no_fields m h = cc
sort_fields-delete d k v (field j w fs) m h = elim (Bool-cases (bytes_eq j k)) [
  | inl e ↦ rw e (cc (bytes_eq→eq j k e, some_eq (rw e at h)))
  | inr n ↦ rw n (
      ap (insert_field j (sort_value w)) (sort_fields-delete d k v fs m.3 (rw n at h))
      ∙ insert_field_comm j k (sort_value w) (sort_value v) _ n)
]
  where
    some_eq : some w ≡ some v → w ≡ v
    some_eq e = cc

sort_fields-field :
    (k : Bytes) (v : Value) (fs : Fields)
    → sort_fields (field k v fs) ≡ insert_field k (sort_value v) (sort_fields fs)
unfolding sort_value
sort_fields-field k v fs = refl

members-tail :
    (d : ℕ) (k : Bytes) (v : Value) (fs : Fields) → AreMembers d (field k v fs) → AreMembers d fs
unfolding IsDocument
members-tail d k v fs m = m.3

-- Two objects with the same members sort to one list.
pub sort_fields_ext :
    (d : ℕ) (fs gs : Fields)
    → AreMembers d fs
    → AreMembers d gs
    → ((k : Bytes) → get k fs ≡ get k gs)
    → sort_fields fs ≡ sort_fields gs
sort_fields_ext d no_fields no_fields m n h = refl
sort_fields_ext d no_fields (field j w gs) m n h = absurd (none_some (h j))
  where
    none_some : get j no_fields ≡ get j (field j w gs) → ⊥
    none_some = unfold get in λ e. ground (arith, bytes_eq_refl j)
sort_fields_ext d (field k v fs) gs m n h = cc (
  sort_fields-delete d k v gs n (found (h k)),
  sort_fields-field k v fs,
  sort_fields_ext d fs (delete k gs) (members-tail d k v fs m) (delete-AreMembers d k gs n) rest,
)
  where
    found : get k (field k v fs) ≡ get k gs → get k gs ≡ some v
    found = unfold get in λ e. ground (arith, bytes_eq_refl k)

    new : has_key k fs ≡ false
    new = unfold IsDocument in m.0

    rest : (j : Bytes) → get j fs ≡ get j (delete k gs)
    rest j =
        unfold get in
        ground (arith, get-delete d j k gs n, h j, bytes_eq→eq k j, has_key-eq_none k fs new)

sort_fields-insert_field :
    (k : Bytes) (v : Value) (fs : Fields)
    → has_key k fs ≡ false
    → sort_fields (insert_field k v fs) ≡ insert_field k (sort_value v) (sort_fields fs)
unfolding sort_value insert_field has_key
sort_fields-insert_field k v no_fields h = refl
sort_fields-insert_field k v (field i w fs) h = elim (Bool-cases (bytes_lt k i)) [
  | inl e ↦ rw e
  | inr n ↦ rw n (
      ap (insert_field i (sort_value w)) (sort_fields-insert_field k v fs (ground arith))
      ∙ insert_field_comm i k (sort_value w) (sort_value v) (sort_fields fs) (ground arith))
]

mutual
  unfolding sort_value IsDocument

  sort_value_twice : (d : ℕ) (v : Value) → IsDocument d v → sort_value (sort_value v) ≡ sort_value v
  sort_value_twice d (object fs) h = ap object (sort_fields_twice d fs h.1)
  sort_value_twice d (array xs) h = ap array (sort_items_twice d xs h.1)
  sort_value_twice d _ h = refl

  sort_items_twice :
      (d : ℕ) (xs : Items) → AreElements d xs → sort_items (sort_items xs) ≡ sort_items xs
  sort_items_twice d no_items h = refl
  sort_items_twice d (item x xs) h = cc (sort_value_twice (suc d) x h.0, sort_items_twice d xs h.1)

  sort_fields_twice :
      (d : ℕ) (fs : Fields) → AreMembers d fs → sort_fields (sort_fields fs) ≡ sort_fields fs
  sort_fields_twice d no_fields h = refl
  sort_fields_twice d (field k v fs) h =
      sort_fields-insert_field k (sort_value v) (sort_fields fs) (has_key-sort_fields k fs ∙ h.0)
      ∙ cc (sort_value_twice (suc d) v h.2, sort_fields_twice d fs h.3)

sort_value_idem : (d : ℕ) (v : Value) → IsDocument d v → sort_value (sort_value v) ≡ sort_value v
sort_value_idem d v h = sort_value_twice d v h

-- Sorting sorted members changes nothing.
pub sort_fields_idem :
    (d : ℕ) (fs : Fields) → AreMembers d fs → sort_fields (sort_fields fs) ≡ sort_fields fs
sort_fields_idem d fs m = sort_fields_twice d fs m

delete-insert_field_self :
    (k : Bytes) (v : Value) (fs : Fields)
    → has_key k fs ≡ false
    → delete k (insert_field k v fs) ≡ fs
unfolding delete insert_field has_key
delete-insert_field_self k v no_fields h = ground (arith, bytes_eq_refl k)
delete-insert_field_self k v (field i w fs) h =
    ground (arith, bytes_eq_refl k, delete-insert_field_self k v fs)

sort_fields-delete-insert_field :
    (k j : Bytes) (v : Value) (fs : Fields)
    → bytes_eq j k ≡ false
    → has_key j fs ≡ false
    → sort_fields (delete k (insert_field j v fs))
      ≡ insert_field j (sort_value v) (sort_fields (delete k fs))
unfolding delete insert_field has_key sort_value
sort_fields-delete-insert_field k j v no_fields h n = ground arith
sort_fields-delete-insert_field k j v (field i w fs) h n = elim (Bool-cases (bytes_lt j i)) [
  | inl e ↦ rw (e, h)
  | inr g ↦ rw g (elim (Bool-cases (bytes_eq i k)) [
    | inl e ↦
        rw e (unfold sort_value insert_field in sort_fields-insert_field j v fs (ground arith))
    | inr ne ↦ rw ne (
        ap (insert_field i (sort_value w))
          (sort_fields-delete-insert_field k j v fs h (ground arith))
        ∙ insert_field_comm i j (sort_value w) (sort_value v) (sort_fields (delete k fs))
            (ground arith))
  ])
]

-- Whether a member is taken out before or after sorting does not show in the sorted list.
pub sort_fields-delete-sort_fields :
    (d : ℕ) (k : Bytes) (fs : Fields)
    → AreMembers d fs
    → sort_fields (delete k (sort_fields fs)) ≡ sort_fields (delete k fs)
unfolding sort_value delete IsDocument
sort_fields-delete-sort_fields d k no_fields m = refl
sort_fields-delete-sort_fields d k (field j w fs) m =
    let new = has_key-sort_fields j fs ∙ m.0 in
    elim (Bool-cases (bytes_eq j k)) [
      | inl e ↦
          rw
            (
              e,
              bytes_eq→eq j k e,
              delete-insert_field_self k (sort_value w) (sort_fields fs)
                  (rw (bytes_eq→eq j k e) at new),
            )
            (sort_fields_idem d fs m.3)
      | inr n ↦
          rw
            (
              n,
              sort_fields-delete-insert_field k j (sort_value w) (sort_fields fs) n new,
              sort_value_idem (suc d) w m.2,
            )
            (ap (insert_field j (sort_value w)) (sort_fields-delete-sort_fields d k fs m.3))
    ]
