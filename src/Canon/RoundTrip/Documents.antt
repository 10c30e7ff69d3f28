-- ===== src/Canon/RoundTrip/Documents.antt =====
-- canon/canon.go as a whole: Encode is total on documents, Parse reads its output back, and
-- SigningBytes is a canonical form.
use onym_audit.Prelude.{
  ℕ, suc, ◌+◌, ◌*◌, ◌<◌, ◌≡◌, refl, ◌∙◌, true, false, [], ◌∷◌, ◌++◌, append-nil, List, arith,
  length, all, All, Bytes, ok, codes,
}
use onym_audit.Utf8.{IsText, IsText-append, IsText-cons, IsText→utf8_valid, utf8_run, start}
use onym_audit.Canon.Value.{
  Value, Items, Fields, null, bool, str, number, int, negative, uint, object, array, strings, other,
  no_items, item, no_fields, field, is_digit, IsDocument, AreMembers, AreElements,
}
use onym_audit.Canon.Decode.{parse, ws, finish}
use onym_audit.Canon.Encode.{encode, write_string, commas, pair_texts}
use onym_audit.Canon.Encode.Sort.{
  render, render_items, render_fields, sort_value, sort_fields, encode-eq-render,
  sort_fields-AreMembers,
}
use onym_audit.Canon.RoundTrip.Strings.{escape_all-IsText}
use onym_audit.Canon.RoundTrip.Values.{value_reads}

ascii-IsText : (c : ℕ) → c < 0x80 → IsText (c ∷ [])
ascii-IsText c h = IsText-cons c [] h (unfold utf8_run in refl)

write_string-IsText : (s : Bytes) → IsText s → IsText (write_string s)
unfolding write_string
write_string-IsText s h =
    IsText-cons b'"' _ (omega arith)
      (IsText-append _ (b'"' ∷ []) (escape_all-IsText s h) (ascii-IsText b'"' (omega arith)))

digits-IsText : (t : Bytes) → all is_digit t ≡ true → IsText t
unfolding utf8_run
digits-IsText [] h = refl
digits-IsText (c ∷ t) h = IsText-cons c t (ground arith) (digits-IsText t (ground arith))

commas-IsText : (ts : List Bytes) → All IsText ts → IsText (commas ts)
unfolding commas
commas-IsText [] h = unfold utf8_run in refl
commas-IsText (t ∷ []) h = h.0
commas-IsText (t ∷ u ∷ ts) h =
    IsText-append t _ h.0 (IsText-cons b',' _ (omega arith) (commas-IsText (u ∷ ts) h.1))

words-IsText : IsText (codes "null") × IsText (codes "true") × IsText (codes "false")
unfolding utf8_run onym_audit.Utf8.utf8_step
words-IsText = (refl, refl, refl)

mutual
  unfolding render IsDocument pair_texts

  render-IsText : (d : ℕ) (v : Value) → IsDocument d v → IsText (render v)
  render-IsText d null h = words-IsText.0
  render-IsText d (bool true) h = words-IsText.1
  render-IsText d (bool false) h = words-IsText.2
  render-IsText d (str s) h = write_string-IsText s h.1
  render-IsText d (number t) h = digits-IsText t h.1.digits
  render-IsText d (object fs) h = IsText-cons b'{' _ (omega arith) (
      IsText-append _ (b'}' ∷ []) (commas-IsText _ (fields-IsText d fs h.1))
        (ascii-IsText b'}' (omega arith)))
  render-IsText d (array xs) h = IsText-cons b'[' _ (omega arith) (
      IsText-append _ (b']' ∷ []) (commas-IsText _ (items-IsText d xs h.1))
        (ascii-IsText b']' (omega arith)))
  render-IsText d (int n) h = absurd h
  render-IsText d (negative n) h = absurd h
  render-IsText d (uint n) h = absurd h
  render-IsText d (strings n) h = absurd h
  render-IsText d other h = absurd h

  items-IsText : (d : ℕ) (xs : Items) → AreElements d xs → All IsText (render_items xs)
  items-IsText d no_items h = tt
  items-IsText d (item x xs) h = (render-IsText (suc d) x h.0, items-IsText d xs h.1)

  fields-IsText :
      (d : ℕ) (fs : Fields) → AreMembers d fs → All IsText (pair_texts (render_fields fs))
  fields-IsText d no_fields h = tt
  fields-IsText d (field k v fs) h = (
    IsText-append _ _ (write_string-IsText k h.1)
        (IsText-cons b':' _ (omega arith) (render-IsText (suc d) v h.2)),
    fields-IsText d fs h.3,
  )

starts_open : (fs : Fields) → (t : Bytes) × (render (object fs) ≡ b'{' ∷ t)
unfolding render
starts_open fs = (commas (pair_texts (render_fields fs)) ++ b'}' ∷ [], refl)

ws_open : (s t : Bytes) → s ≡ b'{' ∷ t → ws s ≡ s
unfolding ws
ws_open s t e = rw e

pub parse-render : (fs : Fields) → AreMembers 0 fs → parse (render (object fs)) ≡ ok fs
unfolding parse
parse-render fs m =
    let doc : IsDocument 0 (object fs) = unfold IsDocument in (omega arith, m) in
    let text = render (object fs) in
    let read = value_reads (object fs) (2 * length text + 1) 0 [] (omega arith) doc refl in
    rw
      (
        IsText→utf8_valid text (render-IsText 0 (object fs) doc),
        ws_open text (starts_open fs).0 (starts_open fs).1,
        rw append-nil at read,
      )
      (unfold ws finish in refl)

-- The canonical bytes of an object with members `fs`.
unfoldable pub canonical : Fields → Bytes
canonical fs = render (object (sort_fields fs))

pub encode-canonical : (fs : Fields) → AreMembers 0 fs → encode (object fs) ≡ ok (canonical fs)
encode-canonical fs m =
    encode-eq-render 0 (object fs) (unfold IsDocument in (omega arith, m))
    ∙ (unfold canonical sort_value in refl)

-- An object that the parser can return is always encoded, and parsing the canonical bytes gives the
-- object back with the keys of all its objects in byte order.
pub parse-encode :
    (fs : Fields)
    → AreMembers 0 fs
    → (text : Bytes) × (encode (object fs) ≡ ok text) × (parse text ≡ ok (sort_fields fs))
parse-encode fs m = (
  canonical fs,
  encode-canonical fs m,
  unfold canonical in parse-render (sort_fields fs) (sort_fields-AreMembers 0 fs m),
)
