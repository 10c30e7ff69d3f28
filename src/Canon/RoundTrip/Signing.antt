-- ===== src/Canon/RoundTrip/Signing.antt =====
-- SigningBytes in canon/canon.go is a canonical form: total on what parses, equal exactly for
-- documents with the same members, and a fixed point of itself.
use mathlib.Core.Option
use onym_audit.Prelude.{
  ℕ, ◌≡◌, refl, ap, ◌∙◌, sym, Bool, true, false, [], ◌∷◌, List, arith, any, Bytes, bytes_eq,
  bytes_eq_iff, ok, if◌then◌else◌, none, some, >>=-eq-ok,
}
use onym_audit.Canon.Value.{
  Value, Fields, object, no_fields, field, get, has_key, delete, IsDocument, AreMembers,
}
use onym_audit.Canon.Value.Maps.{get-delete, delete-AreMembers, has_key-eq_none}
use onym_audit.Canon.Decode.{parse}
use onym_audit.Canon.Decode.Sound.{parse-AreMembers}
use onym_audit.Canon.Encode.{encode, signing_bytes, delete_all}
use onym_audit.Canon.Encode.Sort.{
  insert_field, sort_value, sort_fields, has_key-sort_fields, sort_fields-AreMembers,
}
use onym_audit.Canon.Encode.Order.{sort_fields_ext, sort_fields_idem}
use onym_audit.Canon.RoundTrip.Documents.{canonical, encode-canonical, parse-render}

-- The field is one of those left out.
abbrev pub omits : List Bytes → Bytes → Bool
omits omit k = any (λ o. bytes_eq o k) omit

pub delete_all-AreMembers :
    (d : ℕ) (omit : List Bytes) (fs : Fields) → AreMembers d fs → AreMembers d (delete_all omit fs)
unfolding delete_all
delete_all-AreMembers d [] fs m = m
delete_all-AreMembers d (k ∷ ks) fs m =
    delete_all-AreMembers d ks (delete k fs) (delete-AreMembers d k fs m)

pub get-delete_all :
    (d : ℕ) (omit : List Bytes) (k : Bytes) (fs : Fields)
    → AreMembers d fs
    → get k (delete_all omit fs) ≡ (if omits omit k then none else get k fs)
unfolding delete_all
get-delete_all d [] k fs m = refl
get-delete_all d (o ∷ ks) k fs m =
    get-delete_all d ks k (delete o fs) (delete-AreMembers d o fs m)
    ∙ ground (arith, get-delete d k o fs m)

get-insert_field :
    (j k : Bytes) (v : Value) (fs : Fields)
    → get k fs ≡ none
    → get j (insert_field k v fs) ≡ (if bytes_eq k j then some v else get j fs)
unfolding get insert_field
get-insert_field j k v no_fields n = refl
get-insert_field j k v (field i w fs) n =
    ground (arith, get-insert_field j k v fs, bytes_eq_iff i k, bytes_eq_iff k j, bytes_eq_iff i j)

sort_fields_cons :
    (k : Bytes) (v : Value) (fs : Fields)
    → sort_fields (field k v fs) ≡ insert_field k (sort_value v) (sort_fields fs)
unfolding sort_value
sort_fields_cons k v fs = refl

get_cons :
    (j k : Bytes) (v : Value) (fs : Fields)
    → get j (field k v fs) ≡ (if bytes_eq k j then some v else get j fs)
unfolding get
get_cons j k v fs = refl

members_head :
    (d : ℕ) (k : Bytes) (v : Value) (fs : Fields)
    → AreMembers d (field k v fs)
    → has_key k fs ≡ false
unfolding IsDocument
members_head d k v fs m = m.0

members_tail :
    (d : ℕ) (k : Bytes) (v : Value) (fs : Fields) → AreMembers d (field k v fs) → AreMembers d fs
unfolding IsDocument
members_tail d k v fs m = m.3

-- Sorting keeps each member, itself sorted.
pub get-sort_fields :
    (d : ℕ) (j : Bytes) (fs : Fields)
    → AreMembers d fs
    → get j (sort_fields fs) ≡ Option.map sort_value (get j fs)
get-sort_fields d j no_fields m = unfold get sort_value in refl
get-sort_fields d j (field k v fs) m =
    let gone =
      has_key-eq_none k (sort_fields fs) (has_key-sort_fields k fs ∙ members_head d k v fs m) in
    let ih = get-sort_fields d j fs (members_tail d k v fs m) in
    rw (sort_fields_cons, get-insert_field j k (sort_value v) (sort_fields fs) gone, ih, get_cons)
      (split (bytes_eq k j))
  where
    split :
        (b : Bool)
        → (if b then some (sort_value v) else Option.map sort_value (get j fs))
          ≡ Option.map sort_value (if b then some v else get j fs)
    split true = refl
    split false = refl

pub canonical_of : (fs gs : Fields) → sort_fields fs ≡ sort_fields gs → canonical fs ≡ canonical gs
unfolding canonical
canonical_of fs gs h = rw h

canonical-sort_fields : (fs : Fields) → AreMembers 0 fs → canonical (sort_fields fs) ≡ canonical fs
canonical-sort_fields fs m = canonical_of (sort_fields fs) fs (sort_fields_idem 0 fs m)

pub parse-canonical : (fs : Fields) → AreMembers 0 fs → parse (canonical fs) ≡ ok (sort_fields fs)
unfolding canonical
parse-canonical fs m = parse-render (sort_fields fs) (sort_fields-AreMembers 0 fs m)

-- The signing bytes of an accepted document always exist, whatever fields are left out.
pub signing_bytes_total :
    (raw : Bytes) (omit : List Bytes) (fs : Fields)
    → parse raw ≡ ok fs
    → signing_bytes raw omit ≡ ok (canonical (delete_all omit fs))
unfolding signing_bytes
signing_bytes_total raw omit fs e = rw e (
    encode-canonical (delete_all omit fs)
      (delete_all-AreMembers 0 omit fs (parse-AreMembers raw fs e)))

-- Two accepted documents whose members agree on every field that is not left out have the same
-- signing bytes: the order of keys, white space and the spelling of escapes do not show.
pub signing_bytes_ext :
    (raw1 raw2 : Bytes) (omit : List Bytes) (fs gs : Fields)
    → parse raw1 ≡ ok fs
    → parse raw2 ≡ ok gs
    → ((k : Bytes) → omits omit k ≡ false → get k fs ≡ get k gs)
    → signing_bytes raw1 omit ≡ signing_bytes raw2 omit
signing_bytes_ext raw1 raw2 omit fs gs e1 e2 h =
    signing_bytes_total raw1 omit fs e1
    ∙ ap ok (canonical_of _ _ same)
    ∙ sym (signing_bytes_total raw2 omit gs e2)
  where
    m1 : AreMembers 0 fs
    m1 = parse-AreMembers raw1 fs e1

    m2 : AreMembers 0 gs
    m2 = parse-AreMembers raw2 gs e2

    same : sort_fields (delete_all omit fs) ≡ sort_fields (delete_all omit gs)
    same =
        sort_fields_ext 0 (delete_all omit fs) (delete_all omit gs)
          (delete_all-AreMembers 0 omit fs m1) (delete_all-AreMembers 0 omit gs m2)
          λ k. ground (arith, get-delete_all 0 omit k fs m1, get-delete_all 0 omit k gs m2, h k)

-- Equal signing bytes come only from documents that agree, up to the order of keys, on every field
-- that is not left out.
pub signing_bytes_injective :
    (raw1 raw2 : Bytes) (omit : List Bytes) (fs gs : Fields)
    → parse raw1 ≡ ok fs
    → parse raw2 ≡ ok gs
    → signing_bytes raw1 omit ≡ signing_bytes raw2 omit
    → (k : Bytes) → omits omit k ≡ false
    → Option.map sort_value (get k fs) ≡ Option.map sort_value (get k gs)
signing_bytes_injective raw1 raw2 omit fs gs e1 e2 h k n =
    cc (sorted_member fs m1, sorted_member gs m2, same)
  where
    m1 : AreMembers 0 fs
    m1 = parse-AreMembers raw1 fs e1

    m2 : AreMembers 0 gs
    m2 = parse-AreMembers raw2 gs e2

    same : sort_fields (delete_all omit fs) ≡ sort_fields (delete_all omit gs)
    same = cc (
      signing_bytes_total raw1 omit fs e1,
      signing_bytes_total raw2 omit gs e2,
      parse-canonical (delete_all omit fs) (delete_all-AreMembers 0 omit fs m1),
      parse-canonical (delete_all omit gs) (delete_all-AreMembers 0 omit gs m2),
    )

    sorted_member :
        (es : Fields)
        → AreMembers 0 es
        → get k (sort_fields (delete_all omit es)) ≡ Option.map sort_value (get k es)
    sorted_member es m =
        get-sort_fields 0 k (delete_all omit es) (delete_all-AreMembers 0 omit es m)
        ∙ ap (Option.map sort_value) (get-delete_all 0 omit k es m ∙ rw n)

-- The signing bytes of a document are a document with those same signing bytes.
pub signing_bytes_idem :
    (raw text : Bytes) (omit : List Bytes)
    → signing_bytes raw omit ≡ ok text
    → signing_bytes text [] ≡ ok text
signing_bytes_idem raw text omit h =
    let (fs, e, k) = parsed h in
    let m = delete_all-AreMembers 0 omit fs (parse-AreMembers raw fs e) in
    fixed (delete_all omit fs) m (cc (encode-canonical (delete_all omit fs) m))
  where
    parsed :
        signing_bytes raw omit ≡ ok text
        → (fs : Fields) × (parse raw ≡ ok fs) × (encode (object (delete_all omit fs)) ≡ ok text)
    parsed = unfold signing_bytes in λ e. >>=-eq-ok (parse raw) _ e

    delete_none : (fs : Fields) → canonical (delete_all [] fs) ≡ canonical fs
    delete_none fs = unfold delete_all in refl

    fixed : (fs : Fields) → AreMembers 0 fs → canonical fs ≡ text → signing_bytes text [] ≡ ok text
    fixed fs m e = rw (← e) (
        signing_bytes_total (canonical fs) [] (sort_fields fs) (parse-canonical fs m)
        ∙ ap ok (delete_none (sort_fields fs) ∙ canonical-sort_fields fs m))
