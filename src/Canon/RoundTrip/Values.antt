-- ===== src/Canon/RoundTrip/Values.antt =====
-- Round trip of canon/canon.go: the compact text of a document parses back to the document.
use onym_audit.Prelude.{
  ℕ, zero, suc, ◌+◌, ◌*◌, ◌<◌, ◌≤◌, ◌≡◌, refl, ap, ◌∙◌, sym, Bool, true, false, [], ◌∷◌, ◌++◌,
  append_assoc, arith, lengths, length, Bytes, bytes_eq→eq, bytes_eq_refl, ok,
}
use onym_audit.Canon.Value.{
  Value, Items, Fields, null, bool, str, number, int, negative, uint, object, array, strings, other,
  no_items, item, no_fields, field, IsDocument, AreMembers, AreElements, put, push, has_key,
}
use onym_audit.Canon.Value.Maps.{has_key-put}
use onym_audit.Canon.Decode.{value, members, items}
use onym_audit.Canon.Encode.{write_string, commas, pair_texts}
use onym_audit.Canon.Encode.Sort.{render, render_items, render_fields}
use onym_audit.Canon.RoundTrip.Strings.{is_end}
use onym_audit.Canon.RoundTrip.Loops.{
  is_plain, pair_text, item_last, item_more, member_last, member_more, value_null, value_bool,
  value_str, value_number, value_object, value_array, value_empty,
}

render-is_plain :
    (d : ℕ) (v : Value) (rest : Bytes) → IsDocument d v → is_plain (render v ++ rest) ≡ true
unfolding render IsDocument write_string
render-is_plain d null rest h = refl
render-is_plain d (bool true) rest h = refl
render-is_plain d (bool false) rest h = refl
render-is_plain d (str s) rest h = refl
render-is_plain d (number []) rest h = absurd (false_true (h.1.not_empty))
  where
    false_true : true ≡ false → ⊥
    false_true e = cc
render-is_plain d (number (c ∷ t)) rest h = ground (arith, h.1.digits)
render-is_plain d (object fs) rest h = refl
render-is_plain d (array xs) rest h = refl
render-is_plain d (int n) rest h = absurd h
render-is_plain d (negative n) rest h = absurd h
render-is_plain d (uint n) rest h = absurd h
render-is_plain d (strings n) rest h = absurd h
render-is_plain d other rest h = absurd h

append_items : Items → Items → Items
append_items no_items ys = ys
append_items (item x xs) ys = item x (append_items xs ys)

append_fields : Fields → Fields → Fields
append_fields no_fields gs = gs
append_fields (field k v fs) gs = field k v (append_fields fs gs)

push-append :
    (xs : Items) (v : Value) (ys : Items)
    → append_items (push xs v) ys ≡ append_items xs (item v ys)
unfolding push append_items
push-append no_items v ys = refl
push-append (item x xs) v ys = ap (item x) (push-append xs v ys)

put-append :
    (k : Bytes) (v : Value) (fs gs : Fields)
    → has_key k fs ≡ false
    → append_fields (put k v fs) gs ≡ append_fields fs (field k v gs)
unfolding put append_fields has_key
put-append k v no_fields gs h = refl
put-append k v (field j w fs) gs h = ground (arith, put-append k v fs gs)

append_items-nil : (xs : Items) → append_items xs no_items ≡ xs
unfolding append_items
append_items-nil no_items = refl
append_items-nil (item x xs) = ap (item x) (append_items-nil xs)

append_fields-nil : (fs : Fields) → append_fields fs no_fields ≡ fs
unfolding append_fields
append_fields-nil no_fields = refl
append_fields-nil (field k v fs) = ap (field k v) (append_fields-nil fs)

push-append_one : (xs : Items) (v : Value) → push xs v ≡ append_items xs (item v no_items)
push-append_one xs v = sym (append_items-nil (push xs v)) ∙ push-append xs v no_items

put-append_one :
    (k : Bytes) (v : Value) (fs : Fields)
    → has_key k fs ≡ false
    → put k v fs ≡ append_fields fs (field k v no_fields)
put-append_one k v fs h = sym (append_fields-nil (put k v fs)) ∙ put-append k v fs no_fields h

abbrev has_items : Items → Bool
has_items no_items = false
has_items (item x xs) = true

abbrev has_fields : Fields → Bool
has_fields no_fields = false
has_fields (field k v fs) = true

no_key : (fs : Fields) (j : Bytes) → has_key j fs ≡ true → has_key j no_fields ≡ false
unfolding has_key
no_key fs j h = refl

-- What stands between the brackets.
items_text : Items → Bytes
items_text xs = commas (render_items xs)

fields_text : Fields → Bytes
fields_text fs = commas (pair_texts (render_fields fs))

render-array : (xs : Items) → render (array xs) ≡ b'[' ∷ (items_text xs ++ b']' ∷ [])
unfolding render items_text
render-array xs = refl

render-object : (fs : Fields) → render (object fs) ≡ b'{' ∷ (fields_text fs ++ b'}' ∷ [])
unfolding render fields_text
render-object fs = refl

items_text_one : (x : Value) → items_text (item x no_items) ≡ render x
unfolding items_text render commas
items_text_one x = refl

items_text_more :
    (x y : Value) (ys : Items)
    → items_text (item x (item y ys)) ≡ render x ++ b',' ∷ items_text (item y ys)
unfolding items_text render commas
items_text_more x y ys = refl

fields_text_one :
    (k : Bytes) (v : Value) → fields_text (field k v no_fields) ≡ pair_text k (render v)
unfolding fields_text render commas pair_texts pair_text
fields_text_one k v = refl

fields_text_more :
    (k j : Bytes) (v w : Value) (fs : Fields)
    → fields_text (field k v (field j w fs))
      ≡ pair_text k (render v) ++ b',' ∷ fields_text (field j w fs)
unfolding fields_text render commas pair_texts pair_text
fields_text_more k j v w fs = refl

length-pair_text : (k t : Bytes) → length t ≤ length (pair_text k t)
unfolding pair_text
length-pair_text k t = omega lengths

fields_text-is_plain :
    (k : Bytes) (v : Value) (fs : Fields) (rest : Bytes)
    → is_plain (fields_text (field k v fs) ++ rest) ≡ true
fields_text-is_plain k v no_fields rest = rw fields_text_one (unfold pair_text write_string in refl)
fields_text-is_plain k v (field j w fs) rest =
    rw fields_text_more (unfold pair_text write_string in refl)

items_text-is_plain :
    (d : ℕ) (x : Value) (xs : Items) (rest : Bytes)
    → IsDocument d x
    → is_plain (items_text (item x xs) ++ rest) ≡ true
items_text-is_plain d x no_items rest h = rw items_text_one (render-is_plain d x rest h)
items_text-is_plain d x (item y ys) rest h =
    rw (items_text_more, append_assoc) (render-is_plain d x _ h)

-- Keys to come that are not in the object so far are not in it after one more.
fresh_put :
    (k : Bytes) (v : Value) (fs obj : Fields)
    → has_key k fs ≡ false
    → ((j : Bytes) → has_key j (field k v fs) ≡ true → has_key j obj ≡ false)
    → (j : Bytes) → has_key j fs ≡ true
    → has_key j (put k v obj) ≡ false
unfolding has_key
fresh_put k v fs obj n fresh j h = ground (arith, has_key-put j k v obj, fresh j, bytes_eq→eq k j)

fresh_first :
    (k : Bytes) (v : Value) (fs obj : Fields)
    → ((j : Bytes) → has_key j (field k v fs) ≡ true → has_key j obj ≡ false)
    → has_key k obj ≡ false
unfolding has_key
fresh_first k v fs obj fresh = fresh k (ground (arith, bytes_eq_refl k))

-- A value with no parts.
abbrev IsLeaf : Value → Type 0
IsLeaf (object (field k v fs)) = ⊥
IsLeaf (array (item x xs)) = ⊥
IsLeaf _ = Unit {0}

leaf_reads :
    (v : Value) (f d : ℕ) (rest : Bytes)
    → IsLeaf v
    → IsDocument d v
    → is_end rest ≡ true
    → value (suc f) d (render v ++ rest) ≡ ok (v, rest)
unfolding render IsDocument commas pair_texts
leaf_reads null f d rest i h e = value_null f d rest h
leaf_reads (bool true) f d rest i h e = value_bool f d rest h true
leaf_reads (bool false) f d rest i h e = value_bool f d rest h false
leaf_reads (str s) f d rest i h e = value_str f d rest h.0 s
leaf_reads (number t) f d rest i h e = value_number f d rest h.0 t h.1 e
leaf_reads (object no_fields) f d rest i h e = (value_empty f d rest h.0).0
leaf_reads (object (field k v fs)) f d rest i h e = absurd i
leaf_reads (array no_items) f d rest i h e = (value_empty f d rest h.0).1
leaf_reads (array (item x xs)) f d rest i h e = absurd i
leaf_reads (int n) f d rest i h e = absurd h
leaf_reads (negative n) f d rest i h e = absurd h
leaf_reads (uint n) f d rest i h e = absurd h
leaf_reads (strings n) f d rest i h e = absurd h
leaf_reads other f d rest i h e = absurd h

mutual
  unfolding IsDocument append_items append_fields

  value-render :
      (v : Value) (f d : ℕ) (rest : Bytes)
      → 2 * length (render v) < f
      → IsDocument d v
      → is_end rest ≡ true
      → value f d (render v ++ rest) ≡ ok (v, rest)
  value-render v zero d rest l h e = absurd (omega arith)
  value-render (object (field k v fs)) (suc f) d rest l h e = rw render-object (
      value_object f d rest h.0 (fields_text (field k v fs)) (object (field k v fs))
        (fields_text-is_plain k v fs _)
        (fields-render (field k v fs) f d no_fields rest
          (omega (lengths, ap length (render-object (field k v fs)))) h.1 refl
          (no_key (field k v fs))))
  value-render (array (item x xs)) (suc f) d rest l h e = rw render-array (
      value_array f d rest h.0 (items_text (item x xs)) (array (item x xs))
        (items_text-is_plain (suc d) x xs _ h.1.0)
        (items-render (item x xs) f d no_items rest
          (omega (lengths, ap length (render-array (item x xs)))) h.1 refl))
  value-render null (suc f) d rest l h e = leaf_reads null f d rest tt h e
  value-render (bool b) (suc f) d rest l h e = leaf_reads (bool b) f d rest tt h e
  value-render (str s) (suc f) d rest l h e = leaf_reads (str s) f d rest tt h e
  value-render (number t) (suc f) d rest l h e = leaf_reads (number t) f d rest tt h e
  value-render (object no_fields) (suc f) d rest l h e =
      leaf_reads (object no_fields) f d rest tt h e
  value-render (array no_items) (suc f) d rest l h e = leaf_reads (array no_items) f d rest tt h e
  value-render (int n) (suc f) d rest l h e = leaf_reads (int n) f d rest tt h e
  value-render (negative n) (suc f) d rest l h e = leaf_reads (negative n) f d rest tt h e
  value-render (uint n) (suc f) d rest l h e = leaf_reads (uint n) f d rest tt h e
  value-render (strings n) (suc f) d rest l h e = leaf_reads (strings n) f d rest tt h e
  value-render other (suc f) d rest l h e = leaf_reads other f d rest tt h e

  items-render :
      (xs : Items) (f d : ℕ) (arr : Items) (rest : Bytes)
      → 2 * length (items_text xs) + 2 < f
      → AreElements d xs
      → has_items xs ≡ true
      → items f d arr (items_text xs ++ b']' ∷ rest) ≡ ok (array (append_items arr xs), rest)
  items-render no_items f d arr rest l h n = cc
  items-render xs zero d arr rest l h n = absurd (omega arith)
  items-render (item x no_items) (suc f) d arr rest l h n =
      rw (items_text_one, ← push-append_one)
        (item_last f d (render x) x rest arr (render-is_plain (suc d) x _ h.0) (
          value-render x f (suc d) (b']' ∷ rest) (omega (arith, ap length (items_text_one x))) h.0
            refl))
  items-render (item x (item y ys)) (suc f) d arr rest l h n =
      let size = ap length (items_text_more x y ys) in
      rw (items_text_more, ← push-append)
        (item_more f d (render x) x rest arr (items_text (item y ys)) _
          (render-is_plain (suc d) x _ h.0) (value-render x f (suc d) _ (omega lengths) h.0 refl)
          (items-render (item y ys) f d (push arr x) rest (omega lengths) h.1 refl))

  fields-render :
      (fs : Fields) (f d : ℕ) (obj : Fields) (rest : Bytes)
      → 2 * length (fields_text fs) + 2 < f
      → AreMembers d fs
      → has_fields fs ≡ true
      → ((j : Bytes) → has_key j fs ≡ true → has_key j obj ≡ false)
      → members f d obj (fields_text fs ++ b'}' ∷ rest) ≡ ok (object (append_fields obj fs), rest)
  fields-render no_fields f d obj rest l h n fresh = cc
  fields-render fs zero d obj rest l h n fresh = absurd (omega arith)
  fields-render (field k v no_fields) (suc f) d obj rest l h n fresh =
      let new = fresh_first k v no_fields obj fresh in
      rw (fields_text_one, ← put-append_one k v obj new)
        (member_last f d (render v) v rest obj k new (render-is_plain (suc d) v _ h.2) (
          value-render v f (suc d) (b'}' ∷ rest)
            (omega (arith, ap length (fields_text_one k v), length-pair_text k (render v))) h.2
            refl))
  fields-render (field k v (field j w fs)) (suc f) d obj rest l h n fresh =
      let new = fresh_first k v (field j w fs) obj fresh in
      let size = ap length (fields_text_more k j v w fs) in
      let part = length-pair_text k (render v) in
      rw (fields_text_more, ← put-append k v obj (field j w fs) new)
        (member_more f d (render v) v rest obj k (fields_text (field j w fs)) _ new
          (render-is_plain (suc d) v _ h.2) (value-render v f (suc d) _ (omega lengths) h.2 refl)
          (fields-render (field j w fs) f d (put k v obj) rest (omega lengths) h.3 refl
            (fresh_put k v (field j w fs) obj h.0 fresh)))

-- With enough fuel the parser reads a document's text off the front of any input that goes on as a
-- document may.
pub value_reads :
    (v : Value) (f d : ℕ) (rest : Bytes)
    → 2 * length (render v) < f
    → IsDocument d v
    → is_end rest ≡ true
    → value f d (render v ++ rest) ≡ ok (v, rest)
value_reads v f d rest l h e = value-render v f d rest l h e
