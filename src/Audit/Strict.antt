-- ===== src/Audit/Strict.antt =====
-- audit/strict.go: the exact key set of a document, checked before any typed decoding.
use onym_audit.Prelude.{
  ◌≡◌, Bool, true, false, ◌&&◌, ◌||◌, [], ◌∷◌, List, arith, String, Bytes, bytes_eq, bytes_eq→eq,
  codes, Option, none, some, Result, ok, err, malformed, ◌>>=◌, ◌>>◌, require, wrap, require-eq-ok,
}
use onym_audit.Canon.Value.{
  Value, Fields, Items, null, object, array, no_items, item, no_fields, field, get, has_key,
}
use onym_audit.Canon.Decode.{parse}

-- The required and the optional keys, and the shapes of keys that hold an object or objects.
mutual
  pub data Shape : Type 0 where
    shape : List Bytes → List Bytes → Nested → Shape

  pub data Nested : Type 0 where
    leaf : Nested
    nest : Bytes → Shape → Nested → Nested

abbrev pub names : List String → List Bytes
names [] = []
names (s ∷ ss) = codes s ∷ names ss

-- Membership in the set `allowed`.
unfoldable pub member : Bytes → List Bytes → Bool
member k [] = false
member k (s ∷ ss) = bytes_eq k s || member k ss

unfoldable pub known_keys : List Bytes → List Bytes → Fields → Bool
known_keys required optional no_fields = true
known_keys required optional (field k v fs) =
    (member k required || member k optional) && known_keys required optional fs

unfoldable pub present : List Bytes → Fields → Bool
present [] obj = true
present (k ∷ ks) obj = has_key k obj && present ks obj

unfoldable pub check_items : (Fields → Result (Unit {0})) → Items → Result (Unit {0})
check_items f no_items = ok tt
check_items f (item (object fs) xs) = f fs >> check_items f xs
check_items f (item v xs) = err malformed

unfoldable pub check_value : (Fields → Result (Unit {0})) → Option Value → Result (Unit {0})
unfolding check_items
check_value f none = ok tt
check_value f (some null) = ok tt
check_value f (some (object fs)) = f fs
check_value f (some (array xs)) = check_items f xs
check_value f (some v) = err malformed

-- (*shape).check
unfoldable mutual
  pub check : Shape → Fields → Result (Unit {0})
  check (shape required optional nested) obj =
      require (present required obj) malformed
      >> (require (known_keys required optional obj) malformed >> check_nested nested obj)

  pub check_nested : Nested → Fields → Result (Unit {0})
  check_nested leaf obj = ok tt
  check_nested (nest k sub rest) obj =
      check_value (λ o. check sub o) (get k obj) >> check_nested rest obj

-- decodeStrict, over the typed decoding that json.Unmarshal does
unfoldable pub decode_strict {ℓ} : {A : Type ℓ} → Shape → (Fields → Result A) → Bytes → Result A
decode_strict s decode raw =
    parse raw >>= λ obj. wrap malformed (check s obj) >>= λ _. wrap malformed (decode obj)

known_keys→member :
    (required optional : List Bytes) (obj : Fields) (k : Bytes)
    → known_keys required optional obj ≡ true
    → has_key k obj ≡ true
    → (member k required || member k optional) ≡ true
unfolding known_keys has_key
known_keys→member required optional no_fields k h m = absurd (cc)
known_keys→member required optional (field j v fs) k h m =
    ground (arith, known_keys→member required optional fs k, bytes_eq→eq j k)

member→has_key :
    (required : List Bytes) (obj : Fields) (k : Bytes)
    → present required obj ≡ true
    → member k required ≡ true
    → has_key k obj ≡ true
unfolding present member
member→has_key [] obj k h m = absurd (cc)
member→has_key (s ∷ ss) obj k h m = ground (arith, member→has_key ss obj k, bytes_eq→eq k s)

-- An object that passes has every required key, and no key but the required and the optional ones:
-- where nothing is optional its keys are exactly the required ones.
pub check-keys :
    (required optional : List Bytes) (nested : Nested) (obj : Fields)
    → check (shape required optional nested) obj ≡ ok tt
    → (k : Bytes)
    → (member k required ≡ true → has_key k obj ≡ true)
      × (has_key k obj ≡ true → (member k required || member k optional) ≡ true)
unfolding check
check-keys required optional nested obj h k =
    let (p, h1) = require-eq-ok (present required obj) malformed _ h in
    let (q, h2) = require-eq-ok (known_keys required optional obj) malformed _ h1 in
    (member→has_key required obj k p, known_keys→member required optional obj k q)
