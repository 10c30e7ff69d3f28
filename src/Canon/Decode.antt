-- ===== src/Canon/Decode.antt =====
-- canon/canon.go: Parse and the methods of `parser`. What is left of the input stands for the
-- position `p.i` in `p.s`.
mod Texts
pub mod Sound
use onym_audit.Prelude.{
  ℕ, zero, suc, ◌+◌, ◌-◌, ◌*◌, Bool, true, false, ◌&&◌, ◌||◌, not, [], ◌∷◌, ◌++◌, Option, none,
  some, ltb, ◌==◌, between, if◌then◌else◌, length, is_nil, Bytes, codes, malformed, out_of_fuel,
  Result, ok, err, ◌>>=◌, ◌>>◌, require,
}
use onym_audit.Utf8.{utf8_valid, is_surrogate, decode_pair, encode_rune}
use onym_audit.Canon.Value.{
  Value, Items, Fields, null, bool, str, number, object, array, no_items, no_fields, has_key, put,
  push, is_digit, decimal, leading_zero, max_depth, max_safe_integer,
}

abbrev pub Parser : Type 0 → Type 0
Parser A = Bytes → Result (A × Bytes)

abbrev pub is_space : ℕ → Bool
is_space c = c == b' ' || c == b'\t' || c == b'\n' || c == b'\r'

unfoldable pub ws : Bytes → Bytes
ws [] = []
ws (c ∷ s) = if is_space c then ws s else c ∷ s

-- The value of a hexadecimal digit, as strconv.ParseUint reads it in base 16.
unfoldable pub hex_digit : ℕ → Result ℕ
hex_digit c =
    if between b'0' b'9' c
    then ok (c - b'0')
    else if between b'a' b'f' c
    then ok (c - b'a' + 10)
    else if between b'A' b'F' c
    then ok (c - b'A' + 10)
    else err malformed

unfoldable pub hex4 : Parser ℕ
hex4 (a ∷ b ∷ c ∷ d ∷ s) = do
  w ← hex_digit a
  x ← hex_digit b
  y ← hex_digit c
  z ← hex_digit d
  ok (((w * 16 + x) * 16 + y) * 16 + z, s)
hex4 _ = err malformed

-- The second half of a surrogate pair.
unfoldable pub trail : ℕ → Parser Bytes
trail r (x ∷ y ∷ s) = do
  require (x == b'\\' && y == b'u') malformed
  (r2, rest) ← hex4 s
  require (between 0xdc00 0xdfff r2) malformed
  ok (encode_rune (decode_pair r r2), rest)
trail r _ = err malformed

unfoldable pub unicode : Parser Bytes
unicode s = do
  (r, rest) ← hex4 s
  if is_surrogate r
      then (if ltb r 0xdc00 then trail r rest else err malformed)
      else ok (encode_rune r, rest)

-- `escape`, behind the backslash: the bytes that it writes.
unfoldable pub escape : Parser Bytes
escape [] = err malformed
escape (c ∷ s) =
    if c == b'"' || c == b'\\' || c == b'/'
    then ok (c ∷ [], s)
    else if c == b'b'
    then ok (8 ∷ [], s)
    else if c == b'f'
    then ok (12 ∷ [], s)
    else if c == b'n'
    then ok (10 ∷ [], s)
    else if c == b'r'
    then ok (13 ∷ [], s)
    else if c == b't'
    then ok (9 ∷ [], s)
    else if c == b'u'
    then unicode s
    else err malformed

-- The loop of `str`; `out` is the builder.
unfoldable pub str_from : ℕ → Bytes → Parser Bytes
str_from zero out s = err out_of_fuel
str_from (suc f) out [] = err malformed
str_from (suc f) out (c ∷ s) =
    let escaped = escape s >>= λ (w, rest). str_from f (out ++ w) rest in
    let copied = str_from f (out ++ c ∷ []) s in
    if c == b'"'
    then ok (out, s)
    else if ltb c 0x20
    then err malformed
    else if c == b'\\'
    then escaped
    else copied

-- `str`, behind the opening quote
unfoldable pub read_str : Parser Bytes
read_str s = str_from (suc (length s)) [] s

unfoldable pub span_digits : Bytes → Bytes × Bytes
span_digits [] = ([], [])
span_digits (c ∷ s) =
    let (digits, rest) = span_digits s in if is_digit c then (c ∷ digits, rest) else ([], c ∷ s)

abbrev pub is_fraction : Bytes → Bool
is_fraction [] = false
is_fraction (c ∷ s) = c == b'.' || c == b'e' || c == b'E'

-- `number` on its digits and what follows them
unfoldable pub check_number : Bytes → Bytes → Result (Value × Bytes)
check_number digits rest =
    if is_fraction rest || leading_zero digits || is_nil digits
    then err malformed
    else if ltb max_safe_integer (decimal 0 digits)
    then err malformed
    else ok (number digits, rest)

-- `number`, at its first character
unfoldable pub read_number : Parser Value
unfolding check_number
read_number s = let (digits, rest) = span_digits s in check_number digits rest

unfoldable pub lit : Bytes → Value → Parser Value
lit [] v s = ok (v, s)
lit (w ∷ word) v [] = err malformed
lit (w ∷ word) v (c ∷ s) = if c == w then lit word v s else err malformed

-- The switch of `value`, given the parsers of an object and of an array behind their brackets.
unfoldable pub value_at : Parser Value → Parser Value → Parser Value
value_at members items [] = err malformed
value_at members items (c ∷ s) =
    if c == b'{'
    then members s
    else if c == b'['
    then items s
    else if c == b'"'
    then (read_str s >>= λ (t, rest). ok (str t, rest))
    else if c == b't'
    then lit (codes "true") (bool true) (c ∷ s)
    else if c == b'f'
    then lit (codes "false") (bool false) (c ∷ s)
    else if c == b'n'
    then lit (codes "null") null (c ∷ s)
    else if is_digit c
    then read_number (c ∷ s)
    else err malformed

-- An empty object or array, or else its loop.
unfoldable pub open_with : ℕ → Value → Parser Value → Parser Value
open_with close empty loop [] = loop []
open_with close empty loop (c ∷ s) = if c == close then ok (empty, s) else loop (c ∷ s)

-- Behind a member or an element: go on at a comma, end at the closing bracket.
unfoldable pub go_on : ℕ → Value → Parser Value → Parser Value
go_on close whole loop [] = err malformed
go_on close whole loop (c ∷ s) =
    if c == b',' then loop s else if c == close then ok (whole, s) else err malformed

-- An object's key.
unfoldable pub key : Parser Bytes
key [] = err malformed
key (c ∷ s) = if c == b'"' then read_str s else err malformed

unfoldable pub colon : Bytes → Result Bytes
colon [] = err malformed
colon (c ∷ s) = if c == b':' then ok s else err malformed

unfoldable mutual
  pub value : ℕ → ℕ → Parser Value
  value zero depth s = err out_of_fuel
  value (suc f) depth s =
      let members_of =
        λ (t : Bytes). open_with b'}' (object no_fields) (members f depth no_fields) (ws t) in
      let items_of =
        λ (t : Bytes). open_with b']' (array no_items) (items f depth no_items) (ws t) in
      let found = value_at members_of items_of s in
      if ltb max_depth depth then err malformed else found

  -- the loop of `object`
  pub members : ℕ → ℕ → Fields → Parser Value
  members zero depth obj s = err out_of_fuel
  members (suc f) depth obj s = do
    (k, s1) ← key (ws s)
    require (not (has_key k obj)) malformed
    s2 ← colon (ws s1)
    (v, s3) ← value f (suc depth) (ws s2)
    go_on b'}' (object (put k v obj)) (members f depth (put k v obj)) (ws s3)

  -- the loop of `array`
  pub items : ℕ → ℕ → Items → Parser Value
  items zero depth arr s = err out_of_fuel
  items (suc f) depth arr s = do
    (v, s1) ← value f (suc depth) (ws s)
    go_on b']' (array (push arr v)) (items f depth (push arr v)) (ws s1)

-- `v.(Object)` at the end of the input
unfoldable pub finish : Value → Bytes → Result Fields
finish (object fs) [] = ok fs
finish _ _ = err malformed

unfoldable pub parse : Bytes → Result Fields
unfolding finish
parse raw = do
  require (utf8_valid raw) malformed
  (v, rest) ← value (2 * length raw + 1) 0 (ws raw)
  finish v (ws rest)
