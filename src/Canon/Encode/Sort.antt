-- ===== src/Canon/Encode/Sort.antt =====
-- The keys that canon/canon.go sorts: a document with its objects in key order, and the text of a
-- document as it stands. Encoding is the second after the first.
use onym_audit.Prelude.{
  ℕ, suc, ◌≡◌, refl, ap, ◌∙◌, true, false, ◌||◌, [], ◌∷◌, List, arith, Bytes, codes, bytes_lt,
  bytes_eq, ok, if◌then◌else◌,
}
use onym_audit.Utf8.{IsText}
use onym_audit.Canon.Value.{
  Value, Items, Fields, null, bool, str, number, int, negative, uint, object, array, strings, other,
  no_items, item, no_fields, field, has_key, IsDocument, AreMembers, AreElements,
}
use onym_audit.Canon.Value.Maps.{bytes_eq_comm}
use onym_audit.Canon.Encode.{
  encode, encode_items, encode_fields, write_string, commas, pair_texts, sort_keys, insert_key,
  braces, brackets,
}

unfoldable pub insert_field : Bytes → Value → Fields → Fields
insert_field k v no_fields = field k v no_fields
insert_field k v (field j w fs) =
    if bytes_lt k j then field k v (field j w fs) else field j w (insert_field k v fs)

unfoldable mutual
  pub sort_value : Value → Value
  sort_value (object fs) = object (sort_fields fs)
  sort_value (array xs) = array (sort_items xs)
  sort_value v = v

  pub sort_items : Items → Items
  sort_items no_items = no_items
  sort_items (item x xs) = item (sort_value x) (sort_items xs)

  pub sort_fields : Fields → Fields
  sort_fields no_fields = no_fields
  sort_fields (field k v fs) = insert_field k (sort_value v) (sort_fields fs)

-- The compact text of a document, its keys in the order given.
unfoldable mutual
  pub render : Value → Bytes
  render null = codes "null"
  render (bool true) = codes "true"
  render (bool false) = codes "false"
  render (str s) = write_string s
  render (number t) = t
  render (object fs) = braces (commas (pair_texts (render_fields fs)))
  render (array xs) = brackets (commas (render_items xs))
  render _ = []

  pub render_items : Items → List Bytes
  render_items no_items = []
  render_items (item x xs) = render x ∷ render_items xs

  pub render_fields : Fields → List (Bytes × Bytes)
  render_fields no_fields = []
  render_fields (field k v fs) = (k, render v) ∷ render_fields fs

-- The members with sorted texts, themselves not yet sorted.
sorted_texts : Fields → List (Bytes × Bytes)
sorted_texts no_fields = []
sorted_texts (field k v fs) = (k, render (sort_value v)) ∷ sorted_texts fs

insert_key-render :
    (k : Bytes) (v : Value) (fs : Fields)
    → insert_key k (render v) (render_fields fs) ≡ render_fields (insert_field k v fs)
unfolding insert_key insert_field render
insert_key-render k v no_fields = refl
insert_key-render k v (field j w fs) = ground (arith, insert_key-render k v fs)

sort_keys-sorted_texts :
    (fs : Fields) → sort_keys (sorted_texts fs) ≡ render_fields (sort_fields fs)
unfolding sort_keys sorted_texts sort_value
sort_keys-sorted_texts no_fields = unfold render in refl
sort_keys-sorted_texts (field k v fs) =
    ap (insert_key k (render (sort_value v))) (sort_keys-sorted_texts fs)
    ∙ insert_key-render k (sort_value v) (sort_fields fs)

mutual
  unfolding encode IsDocument sort_value render sorted_texts

  encode-document : (d : ℕ) (v : Value) → IsDocument d v → encode v ≡ ok (render (sort_value v))
  encode-document d null h = refl
  encode-document d (bool true) h = refl
  encode-document d (bool false) h = refl
  encode-document d (str s) h = refl
  encode-document d (number t) h = refl
  encode-document d (object fs) h = rw (encode_fields-document d fs h.1, sort_keys-sorted_texts fs)
  encode-document d (array xs) h = rw (encode_items-document d xs h.1)
  encode-document d (int n) h = absurd h
  encode-document d (negative n) h = absurd h
  encode-document d (uint n) h = absurd h
  encode-document d (strings n) h = absurd h
  encode-document d other h = absurd h

  encode_items-document :
      (d : ℕ) (xs : Items) → AreElements d xs → encode_items xs ≡ ok (render_items (sort_items xs))
  encode_items-document d no_items h = refl
  encode_items-document d (item x xs) h =
      rw (encode-document (suc d) x h.0, encode_items-document d xs h.1)

  encode_fields-document :
      (d : ℕ) (fs : Fields) → AreMembers d fs → encode_fields fs ≡ ok (sorted_texts fs)
  encode_fields-document d no_fields h = refl
  encode_fields-document d (field k v fs) h =
      rw (encode-document (suc d) v h.2, encode_fields-document d fs h.3)

-- Encoding a document never fails: it is the compact text of the document with sorted keys.
pub encode-eq-render : (d : ℕ) (v : Value) → IsDocument d v → encode v ≡ ok (render (sort_value v))
encode-eq-render d v h = encode-document d v h

has_key-insert_field :
    (j k : Bytes) (v : Value) (fs : Fields)
    → has_key j (insert_field k v fs) ≡ (bytes_eq k j || has_key j fs)
unfolding has_key insert_field
has_key-insert_field j k v no_fields = refl
has_key-insert_field j k v (field i w fs) = ground (arith, has_key-insert_field j k v fs)

pub has_key-sort_fields : (j : Bytes) (fs : Fields) → has_key j (sort_fields fs) ≡ has_key j fs
unfolding has_key sort_value
has_key-sort_fields j no_fields = refl
has_key-sort_fields j (field k v fs) =
    has_key-insert_field j k (sort_value v) (sort_fields fs)
    ∙ ap (λ b. bytes_eq k j || b) (has_key-sort_fields j fs)

insert_field-AreMembers :
    (d : ℕ) (k : Bytes) (v : Value) (fs : Fields)
    → has_key k fs ≡ false
    → IsText k
    → IsDocument (suc d) v
    → AreMembers d fs
    → AreMembers d (insert_field k v fs)
unfolding has_key insert_field IsDocument
insert_field-AreMembers d k v no_fields n t h m = (refl, t, h, tt)
insert_field-AreMembers d k v (field i w fs) n t h m =
    elim (bytes_lt k i)
      as (λ b.
        AreMembers d (if b then field k v (field i w fs) else field i w (insert_field k v fs))) [
          | true ↦ (n, t, h, m)
          | false ↦ (
            has_key-insert_field i k v fs ∙ ground (arith, bytes_eq_comm i k),
            m.1,
            m.2,
            insert_field-AreMembers d k v fs (ground arith) t h m.3,
          )
        ]

mutual
  unfolding IsDocument sort_value

  IsDocument-sort_value : (d : ℕ) (v : Value) → IsDocument d v → IsDocument d (sort_value v)
  IsDocument-sort_value d (object fs) h = (h.0, sort_fields-members d fs h.1)
  IsDocument-sort_value d (array xs) h = (h.0, sort_items-elements d xs h.1)
  IsDocument-sort_value d _ h = h

  sort_items-elements : (d : ℕ) (xs : Items) → AreElements d xs → AreElements d (sort_items xs)
  sort_items-elements d no_items h = tt
  sort_items-elements d (item x xs) h =
      (IsDocument-sort_value (suc d) x h.0, sort_items-elements d xs h.1)

  sort_fields-members : (d : ℕ) (fs : Fields) → AreMembers d fs → AreMembers d (sort_fields fs)
  sort_fields-members d no_fields h = tt
  sort_fields-members d (field k v fs) h =
      insert_field-AreMembers d k (sort_value v) (sort_fields fs) (has_key-sort_fields k fs ∙ h.0)
        h.1 (IsDocument-sort_value (suc d) v h.2) (sort_fields-members d fs h.3)

-- Sorting the keys of a document leaves a document.
pub sort_value-IsDocument : (d : ℕ) (v : Value) → IsDocument d v → IsDocument d (sort_value v)
sort_value-IsDocument d v h = IsDocument-sort_value d v h

pub sort_fields-AreMembers : (d : ℕ) (fs : Fields) → AreMembers d fs → AreMembers d (sort_fields fs)
sort_fields-AreMembers d fs h = sort_fields-members d fs h
