-- ===== src/Canon/Encode.antt =====
-- canon/canon.go: Encode and SigningBytes.
pub mod Sort
pub mod Order
pub mod Digits
use onym_audit.Prelude.{
  ℕ, zero, suc, ◌+◌, ◌-◌, ◌/◌, ◌%◌, true, false, List, [], ◌∷◌, ◌++◌, ltb, ◌==◌, if◌then◌else◌,
  Bytes, codes, bytes_lt, malformed, Result, ok, err, ◌>>=◌,
}
use onym_audit.Canon.Value.{
  Value, Items, Fields, null, bool, str, number, int, negative, uint, object, array, strings, other,
  no_items, item, no_fields, field, delete, max_safe_integer,
}
use onym_audit.Canon.Decode.{parse}

-- hexLower[n]
unfoldable pub hex_lower : ℕ → ℕ
hex_lower n = if ltb n 10 then b'0' + n else b'a' + (n - 10)

-- What `writeString` writes for one byte.
unfoldable pub escape_byte : ℕ → Bytes
escape_byte c =
    if c == b'"'
    then codes "\\\""
    else if c == b'\\'
    then codes "\\\\"
    else if c == 8
    then codes "\\b"
    else if c == 12
    then codes "\\f"
    else if c == 10
    then codes "\\n"
    else if c == 13
    then codes "\\r"
    else if c == 9
    then codes "\\t"
    else if ltb c 0x20
    then codes "\\u00" ++ hex_lower (c / 16) ∷ hex_lower (c % 16) ∷ []
    else c ∷ []

unfoldable pub escape_all : Bytes → Bytes
escape_all [] = []
escape_all (c ∷ s) = escape_byte c ++ escape_all s

unfoldable pub write_string : Bytes → Bytes
write_string s = b'"' ∷ (escape_all s ++ b'"' ∷ [])

-- strconv.FormatUint in base ten: twenty digits hold every uint64.
unfoldable pub format_from : ℕ → ℕ → Bytes → Bytes
format_from zero n out = out
format_from (suc f) n out =
    let rest = format_from f (n / 10) ((b'0' + n % 10) ∷ out) in
    if ltb n 10 then (b'0' + n) ∷ out else rest

unfoldable pub format_uint : ℕ → Bytes
unfolding format_from
format_uint n = format_from 20 n []

-- `encodeInt` of a number that is not negative, and the uint64 case
unfoldable pub encode_int : ℕ → Result Bytes
encode_int n = if ltb max_safe_integer n then err malformed else ok (format_uint n)

-- sort.Strings on the keys, each with what belongs to it
unfoldable pub insert_key : Bytes → Bytes → List (Bytes × Bytes) → List (Bytes × Bytes)
insert_key k v [] = (k, v) ∷ []
insert_key k v ((j, w) ∷ m) =
    if bytes_lt k j then (k, v) ∷ (j, w) ∷ m else (j, w) ∷ insert_key k v m

unfoldable pub sort_keys : List (Bytes × Bytes) → List (Bytes × Bytes)
unfolding insert_key
sort_keys [] = []
sort_keys ((k, v) ∷ m) = insert_key k v (sort_keys m)

-- The text of a list: a comma between two elements.
unfoldable pub commas : List Bytes → Bytes
commas [] = []
commas (t ∷ []) = t
commas (t ∷ u ∷ ts) = t ++ b',' ∷ commas (u ∷ ts)

unfoldable pub pair_texts : List (Bytes × Bytes) → List Bytes
pair_texts [] = []
pair_texts ((k, t) ∷ m) = (write_string k ++ b':' ∷ t) ∷ pair_texts m

unfoldable pub string_texts : List Bytes → List Bytes
string_texts [] = []
string_texts (s ∷ ss) = write_string s ∷ string_texts ss

abbrev pub braces : Bytes → Bytes
braces t = b'{' ∷ (t ++ b'}' ∷ [])

abbrev pub brackets : Bytes → Bytes
brackets t = b'[' ∷ (t ++ b']' ∷ [])

-- A member is encoded before the keys are sorted: every error is the same, so the order in which
-- members are met does not show.
unfoldable mutual
  pub encode : Value → Result Bytes
  encode null = ok (codes "null")
  encode (bool true) = ok (codes "true")
  encode (bool false) = ok (codes "false")
  encode (str s) = ok (write_string s)
  encode (number t) = ok t
  encode (int n) = encode_int n
  encode (negative n) = err malformed
  encode (uint n) = encode_int n
  encode (object fs) = encode_fields fs >>= λ m. ok (braces (commas (pair_texts (sort_keys m))))
  encode (array xs) = encode_items xs >>= λ ts. ok (brackets (commas ts))
  encode (strings ss) = ok (brackets (commas (string_texts ss)))
  encode other = err malformed

  pub encode_items : Items → Result (List Bytes)
  encode_items no_items = ok []
  encode_items (item x xs) = do t ← encode x; ts ← encode_items xs; ok (t ∷ ts)

  pub encode_fields : Fields → Result (List (Bytes × Bytes))
  encode_fields no_fields = ok []
  encode_fields (field k v fs) = do t ← encode v; m ← encode_fields fs; ok ((k, t) ∷ m)

unfoldable pub delete_all : List Bytes → Fields → Fields
delete_all [] fs = fs
delete_all (k ∷ ks) fs = delete_all ks (delete k fs)

unfoldable pub signing_bytes : Bytes → List Bytes → Result Bytes
unfolding delete_all
signing_bytes raw omit = do obj ← parse raw; encode (object (delete_all omit obj))
