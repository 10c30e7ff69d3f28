-- ===== src/Canon/RoundTrip/Loops.antt =====
-- One round of the loops of an array and of an object, at the last element and before another.
use onym_audit.Prelude.{
  ℕ, suc, ◌≤◌, ◌≡◌, refl, ◌∙◌, Bool, true, false, not, ◌||◌, [], ◌∷◌, ◌++◌, append_assoc, arith,
  ltb, ◌==◌, Bytes, Result, ok, codes, if◌then◌else◌, ◌⊎◌, inl, inr,
}
use onym_audit.Canon.Value.{
  Value, Items, Fields, null, bool, str, number, object, array, no_items, no_fields, IsNumber, put,
  push, has_key, max_depth,
}
use onym_audit.Canon.Decode.{
  Parser, ws, is_space, value, members, items, value_at, open_with, go_on, key, colon, lit,
}
use onym_audit.Canon.Encode.{escape_all, write_string}
use onym_audit.Canon.RoundTrip.Strings.{read_str-escape_all, read_number-append, is_end}

-- The first character of a value's text is none of those that a loop looks for.
abbrev pub is_plain : Bytes → Bool
is_plain [] = false
is_plain (c ∷ s) = not (is_space c || c == b']' || c == b'}')

ws_plain : (s : Bytes) → is_plain s ≡ true → ws s ≡ s
unfolding ws
ws_plain [] h = refl
ws_plain (c ∷ s) h = ground arith

ws_end : (s : Bytes) → is_end s ≡ true → ws s ≡ s
unfolding ws
ws_end [] h = refl
ws_end (c ∷ s) h = ground arith

open_with_plain :
    (close : ℕ) (empty : Value) (loop : Parser Value) (s : Bytes)
    → (close ≡ b']') ⊎ (close ≡ b'}')
    → is_plain s ≡ true
    → open_with close empty loop s ≡ loop s
unfolding open_with
open_with_plain close empty loop [] h p = refl
open_with_plain close empty loop (c ∷ s) h p = ground arith

module _ (f d : ℕ) (text after : Bytes) (p : is_plain (text ++ after) ≡ true)
    (e : is_end after ≡ true) (v : Value)
    (h : value f (suc d) (text ++ after) ≡ ok (v, after)) where
  item_step :
      (arr : Items)
      → items (suc f) d arr (text ++ after)
        ≡ go_on b']' (array (push arr v)) (items f d (push arr v)) after
  unfolding items
  item_step arr = rw (ws_plain (text ++ after) p, h, ws_end after e)

  member_step :
      (obj : Fields) (k : Bytes)
      → has_key k obj ≡ false
      → members (suc f) d obj (b'"' ∷ (escape_all k ++ b'"' ∷ b':' ∷ (text ++ after)))
        ≡ go_on b'}' (object (put k v obj)) (members f d (put k v obj)) after
  unfolding members ws key colon
  member_step obj k n = rw (
    read_str-escape_all k (b':' ∷ (text ++ after)),
    n,
    plain_shut (text ++ after) p,
    h,
    end_shut after e,
  )
    where
      plain_shut : (s : Bytes) → is_plain s ≡ true → ws s ≡ s
      plain_shut = ws_plain

      end_shut : (s : Bytes) → is_end s ≡ true → ws s ≡ s
      end_shut = ws_end

-- A member's text.
unfoldable pub pair_text : Bytes → Bytes → Bytes
pair_text k t = write_string k ++ b':' ∷ t

pair_text-append :
    (k text after : Bytes)
    → pair_text k text ++ after ≡ b'"' ∷ (escape_all k ++ b'"' ∷ b':' ∷ (text ++ after))
unfolding pair_text write_string
pair_text-append k text after = simp append_assoc

module _ (f d : ℕ) (text : Bytes) (v : Value) (rest : Bytes) where
  pub item_last :
      (arr : Items)
      → is_plain (text ++ b']' ∷ rest) ≡ true
      → value f (suc d) (text ++ b']' ∷ rest) ≡ ok (v, b']' ∷ rest)
      → items (suc f) d arr (text ++ b']' ∷ rest) ≡ ok (array (push arr v), rest)
  unfolding go_on
  item_last arr p h = item_step f d text (b']' ∷ rest) p refl v h arr

  pub item_more :
      (arr : Items) (more : Bytes) (r : Result (Value × Bytes))
      → is_plain (text ++ b',' ∷ (more ++ b']' ∷ rest)) ≡ true
      → value f (suc d) (text ++ b',' ∷ (more ++ b']' ∷ rest))
        ≡ ok (v, b',' ∷ (more ++ b']' ∷ rest))
      → items f d (push arr v) (more ++ b']' ∷ rest) ≡ r
      → items (suc f) d arr ((text ++ b',' ∷ more) ++ b']' ∷ rest) ≡ r
  unfolding go_on
  item_more arr more r p h q =
      rw append_assoc (item_step f d text (b',' ∷ (more ++ b']' ∷ rest)) p refl v h arr ∙ q)

  pub member_last :
      (obj : Fields) (k : Bytes)
      → has_key k obj ≡ false
      → is_plain (text ++ b'}' ∷ rest) ≡ true
      → value f (suc d) (text ++ b'}' ∷ rest) ≡ ok (v, b'}' ∷ rest)
      → members (suc f) d obj (pair_text k text ++ b'}' ∷ rest) ≡ ok (object (put k v obj), rest)
  unfolding go_on
  member_last obj k n p h =
      rw pair_text-append (member_step f d text (b'}' ∷ rest) p refl v h obj k n)

  pub member_more :
      (obj : Fields) (k more : Bytes) (r : Result (Value × Bytes))
      → has_key k obj ≡ false
      → is_plain (text ++ b',' ∷ (more ++ b'}' ∷ rest)) ≡ true
      → value f (suc d) (text ++ b',' ∷ (more ++ b'}' ∷ rest))
        ≡ ok (v, b',' ∷ (more ++ b'}' ∷ rest))
      → members f d (put k v obj) (more ++ b'}' ∷ rest) ≡ r
      → members (suc f) d obj ((pair_text k text ++ b',' ∷ more) ++ b'}' ∷ rest) ≡ r
  unfolding go_on
  member_more obj k more r n p h q =
      rw (append_assoc, pair_text-append)
        (member_step f d text (b',' ∷ (more ++ b'}' ∷ rest)) p refl v h obj k n ∙ q)

within : (d : ℕ) → d ≤ max_depth → ltb max_depth d ≡ false
within d h = ground arith

module _ (f d : ℕ) (rest : Bytes) (h : d ≤ max_depth) where
  pub value_null : value (suc f) d (codes "null" ++ rest) ≡ ok (null, rest)
  unfolding value value_at lit
  value_null = rw (within d h)

  pub value_bool :
      (b : Bool)
      → value (suc f) d (codes (if b then "true" else "false") ++ rest) ≡ ok (bool b, rest)
  unfolding value value_at lit
  value_bool true = rw (within d h)
  value_bool false = rw (within d h)

  pub value_str : (s : Bytes) → value (suc f) d (write_string s ++ rest) ≡ ok (str s, rest)
  unfolding value value_at write_string
  value_str s = rw (within d h, append_assoc, read_str-escape_all s rest)

  pub value_number :
      (t : Bytes)
      → IsNumber t
      → is_end rest ≡ true
      → value (suc f) d (t ++ rest) ≡ ok (number t, rest)
  unfolding value value_at
  value_number [] n e = absurd (ground (arith, n.not_empty))
  value_number (c ∷ t) n e = ground (arith, n.digits, read_number-append (c ∷ t) rest n e)

  pub value_object :
      (body : Bytes) (v : Value)
      → is_plain (body ++ b'}' ∷ rest) ≡ true
      → members f d no_fields (body ++ b'}' ∷ rest) ≡ ok (v, rest)
      → value (suc f) d (b'{' ∷ ((body ++ b'}' ∷ []) ++ rest)) ≡ ok (v, rest)
  unfolding value value_at
  value_object body v p q =
      rw (within d h, append_assoc, ws_plain (body ++ b'}' ∷ rest) p)
        (open_with_plain b'}' (object no_fields) _ (body ++ b'}' ∷ rest) (inr refl) p ∙ q)

  pub value_array :
      (body : Bytes) (v : Value)
      → is_plain (body ++ b']' ∷ rest) ≡ true
      → items f d no_items (body ++ b']' ∷ rest) ≡ ok (v, rest)
      → value (suc f) d (b'[' ∷ ((body ++ b']' ∷ []) ++ rest)) ≡ ok (v, rest)
  unfolding value value_at
  value_array body v p q =
      rw (within d h, append_assoc, ws_plain (body ++ b']' ∷ rest) p)
        (open_with_plain b']' (array no_items) _ (body ++ b']' ∷ rest) (inl refl) p ∙ q)

  pub value_empty :
      (value (suc f) d (codes "{}" ++ rest) ≡ ok (object no_fields, rest))
      × (value (suc f) d (codes "[]" ++ rest) ≡ ok (array no_items, rest))
  unfolding value value_at open_with ws
  value_empty = (rw (within d h), rw (within d h))
