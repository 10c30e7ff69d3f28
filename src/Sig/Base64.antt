-- ===== src/Sig/Base64.antt =====
-- What sig/sig.go uses of encoding/base64: the standard alphabet, padded and not, whose decoders
-- skip line breaks and ignore the bits behind the last byte.
use onym_audit.Prelude.{
  ℕ, ◌+◌, ◌-◌, ◌*◌, ◌/◌, ◌%◌, ◌<◌, ◌≡◌, refl, ◌∙◌, Bool, true, false, ◌&&◌, ◌||◌, [], ◌∷◌, arith,
  ltb, ◌==◌, between, length, is_nil, Bytes, AreBytes, if◌then◌else◌, Option, none, some, Result,
  ok, err, bad_signature,
}
use onym_audit.Utf8.{IsText, IsText-cons, utf8_run}

-- The character of six bits.
sextet_char : ℕ → ℕ
sextet_char v =
    if ltb v 26
    then b'A' + v
    else if ltb v 52
    then b'a' + (v - 26)
    else if ltb v 62
    then b'0' + (v - 52)
    else if v == 62
    then b'+'
    else b'/'

sextet : ℕ → Option ℕ
sextet c =
    if between b'A' b'Z' c
    then some (c - b'A')
    else if between b'a' b'z' c
    then some (c - b'a' + 26)
    else if between b'0' b'9' c
    then some (c - b'0' + 52)
    else if c == b'+'
    then some 62
    else if c == b'/'
    then some 63
    else none

-- (*Encoding).EncodeToString of StdEncoding
unfoldable pub encode_base64 : Bytes → Bytes
unfolding sextet_char
encode_base64 [] = []
encode_base64 (a ∷ []) = sextet_char (a / 4) ∷ sextet_char (a % 4 * 16) ∷ b'=' ∷ b'=' ∷ []
encode_base64 (a ∷ b ∷ []) =
    sextet_char (a / 4) ∷ sextet_char (a % 4 * 16 + b / 16) ∷ sextet_char (b % 16 * 4) ∷ b'=' ∷ []
encode_base64 (a ∷ b ∷ c ∷ s) =
    sextet_char (a / 4)
    ∷ sextet_char (a % 4 * 16 + b / 16)
    ∷ sextet_char (b % 16 * 4 + c / 64)
    ∷ sextet_char (c % 64)
    ∷ encode_base64 s

first_of_two : ℕ → ℕ → ℕ
first_of_two w x = w * 4 + x / 16

second_of_two : ℕ → ℕ → ℕ
second_of_two x y = x % 16 * 16 + y / 4

third_of_two : ℕ → ℕ → ℕ
third_of_two y z = y % 4 * 64 + z

one_byte : Option ℕ → Option ℕ → Option Bytes
one_byte (some w) (some x) = some (first_of_two w x ∷ [])
one_byte _ _ = none

two_bytes : Option ℕ → Option ℕ → Option ℕ → Option Bytes
two_bytes (some w) (some x) (some y) = some (first_of_two w x ∷ second_of_two x y ∷ [])
two_bytes _ _ _ = none

three_bytes : Option ℕ → Option ℕ → Option ℕ → Option ℕ → Option Bytes → Option Bytes
three_bytes (some w) (some x) (some y) (some z) (some rest) =
    some (first_of_two w x ∷ second_of_two x y ∷ third_of_two y z ∷ rest)
three_bytes _ _ _ _ _ = none

-- The last quantum may be padded, or short where there is no padding.
decode_quanta : Bool → Bytes → Option Bytes
decode_quanta padded [] = some []
decode_quanta padded (a ∷ b ∷ c ∷ d ∷ s) =
    let whole = three_bytes (sextet a) (sextet b) (sextet c) (sextet d) (decode_quanta padded s) in
    if padded && d == b'=' && is_nil s
    then (if c == b'='
        then one_byte (sextet a) (sextet b)
        else two_bytes (sextet a) (sextet b) (sextet c))
    else whole
decode_quanta padded (a ∷ []) = none
decode_quanta padded (a ∷ b ∷ []) = if padded then none else one_byte (sextet a) (sextet b)
decode_quanta padded (a ∷ b ∷ c ∷ []) =
    if padded then none else two_bytes (sextet a) (sextet b) (sextet c)

unbroken : Bytes → Bytes
unbroken [] = []
unbroken (c ∷ s) = let rest = unbroken s in if c == b'\n' || c == b'\r' then rest else c ∷ rest

-- DecodeString of StdEncoding, or of RawStdEncoding where nothing is padded
unfoldable pub decode_base64 : Bool → Bytes → Option Bytes
unfolding decode_quanta unbroken sextet one_byte two_bytes three_bytes first_of_two second_of_two
    third_of_two
decode_base64 padded s = decode_quanta padded (unbroken s)

sized : Option Bytes → Result Bytes
sized none = err bad_signature
sized (some b) = if length b == 64 then ok b else err bad_signature

or_raw : Option Bytes → Option Bytes → Option Bytes
or_raw none raw = raw
or_raw (some b) raw = some b

-- DecodeSignature
unfoldable pub decode_signature : Bytes → Result Bytes
unfolding sized or_raw
decode_signature s = sized (or_raw (decode_base64 true s) (decode_base64 false s))

sextet-sextet_char : (v : ℕ) → v < 64 → sextet (sextet_char v) ≡ some v
unfolding sextet sextet_char
sextet-sextet_char v h = ground arith

sextet_char-ne :
    (v : ℕ)
    → ((sextet_char v == b'=') ≡ false)
      × ((sextet_char v == b'\n' || sextet_char v == b'\r') ≡ false)
unfolding sextet_char
sextet_char-ne v = (ground arith, ground arith)

unbroken-encode_base64 : (s : Bytes) → unbroken (encode_base64 s) ≡ encode_base64 s
unfolding unbroken encode_base64
unbroken-encode_base64 [] = refl
unbroken-encode_base64 (a ∷ []) = rw ((sextet_char-ne (a / 4)).1, (sextet_char-ne (a % 4 * 16)).1)
unbroken-encode_base64 (a ∷ b ∷ []) = rw (
  (sextet_char-ne (a / 4)).1,
  (sextet_char-ne (a % 4 * 16 + b / 16)).1,
  (sextet_char-ne (b % 16 * 4)).1,
)
unbroken-encode_base64 (a ∷ b ∷ c ∷ s) = rw (
  (sextet_char-ne (a / 4)).1,
  (sextet_char-ne (a % 4 * 16 + b / 16)).1,
  (sextet_char-ne (b % 16 * 4 + c / 64)).1,
  (sextet_char-ne (c % 64)).1,
  unbroken-encode_base64 s,
)

decode_quanta-encode_base64 :
    (s : Bytes) → AreBytes s → decode_quanta true (encode_base64 s) ≡ some s
unfolding decode_quanta encode_base64
decode_quanta-encode_base64 [] h = refl
decode_quanta-encode_base64 (a ∷ []) h =
    rw
      (
        sextet-sextet_char (a / 4) (omega (arith, h.0)),
        sextet-sextet_char (a % 4 * 16) (omega arith),
      )
      (one a)
  where
    one : (x : ℕ) → one_byte (some (x / 4)) (some (x % 4 * 16)) ≡ some (x ∷ [])
    one x = unfold one_byte first_of_two in ground arith
decode_quanta-encode_base64 (a ∷ b ∷ []) h =
    rw
      (
        (sextet_char-ne (b % 16 * 4)).0,
        sextet-sextet_char (a / 4) (omega (arith, h.0)),
        sextet-sextet_char (a % 4 * 16 + b / 16) (omega (arith, h.1.0)),
        sextet-sextet_char (b % 16 * 4) (omega arith),
      )
      (two a b (h.1.0))
  where
    two :
        (x y : ℕ)
        → y < 256
        → two_bytes (some (x / 4)) (some (x % 4 * 16 + y / 16)) (some (y % 16 * 4))
          ≡ some (x ∷ y ∷ [])
    two x y l = unfold two_bytes first_of_two second_of_two in ground arith
decode_quanta-encode_base64 (a ∷ b ∷ c ∷ s) h =
    rw
      (
        (sextet_char-ne (c % 64)).0,
        sextet-sextet_char (a / 4) (omega (arith, h.0)),
        sextet-sextet_char (a % 4 * 16 + b / 16) (omega (arith, h.1.0)),
        sextet-sextet_char (b % 16 * 4 + c / 64) (omega (arith, h.1.1.0)),
        sextet-sextet_char (c % 64) (omega arith),
        decode_quanta-encode_base64 s h.1.1.1,
      )
      (three a b c s h.1.0 h.1.1.0)
  where
    three :
        (x y z : ℕ) (t : Bytes)
        → y < 256
        → z < 256
        → three_bytes
            (some (x / 4))
            (some (x % 4 * 16 + y / 16))
            (some (y % 16 * 4 + z / 64))
            (some (z % 64))
            (some t)
          ≡ some (x ∷ y ∷ z ∷ t)
    three x y z t l m = unfold three_bytes first_of_two second_of_two third_of_two in ground arith

-- What is encoded decodes to itself.
pub decode_base64-encode_base64 :
    (s : Bytes) → AreBytes s → decode_base64 true (encode_base64 s) ≡ some s
decode_base64-encode_base64 s h =
    unfold_lem (encode_base64 s) ∙ rw unbroken-encode_base64 (decode_quanta-encode_base64 s h)
  where
    unfold_lem : (t : Bytes) → decode_base64 true t ≡ decode_quanta true (unbroken t)
    unfold_lem t = unfold decode_base64 in refl

-- A 64-byte signature is read back from its base64 text.
pub decode_signature-encode_base64 :
    (s : Bytes) → AreBytes s → length s ≡ 64 → decode_signature (encode_base64 s) ≡ ok s
unfolding decode_signature
decode_signature-encode_base64 s h l = rw (decode_base64-encode_base64 s h, l)

sextet_char-ascii : (v : ℕ) → v < 64 → sextet_char v < 0x80
unfolding sextet_char
sextet_char-ascii v h = ground arith

pub encode_base64-IsText : (s : Bytes) → AreBytes s → IsText (encode_base64 s)
unfolding encode_base64
encode_base64-IsText [] h = unfold utf8_run in refl
encode_base64-IsText (a ∷ []) h = IsText-cons _ _ (sextet_char-ascii (a / 4) (omega (arith, h.0))) (
    IsText-cons _ _ (sextet_char-ascii (a % 4 * 16) (omega arith)) (
      IsText-cons b'=' _ (omega arith)
        (IsText-cons b'=' [] (omega arith) (unfold utf8_run in refl))))
encode_base64-IsText (a ∷ b ∷ []) h =
    IsText-cons _ _ (sextet_char-ascii (a / 4) (omega (arith, h.0))) (
      IsText-cons _ _ (sextet_char-ascii (a % 4 * 16 + b / 16) (omega (arith, h.1.0))) (
        IsText-cons _ _ (sextet_char-ascii (b % 16 * 4) (omega arith))
          (IsText-cons b'=' [] (omega arith) (unfold utf8_run in refl))))
encode_base64-IsText (a ∷ b ∷ c ∷ s) h =
    IsText-cons _ _ (sextet_char-ascii (a / 4) (omega (arith, h.0))) (
      IsText-cons _ _ (sextet_char-ascii (a % 4 * 16 + b / 16) (omega (arith, h.1.0))) (
        IsText-cons _ _ (sextet_char-ascii (b % 16 * 4 + c / 64) (omega (arith, h.1.1.0))) (
          IsText-cons _ _ (sextet_char-ascii (c % 64) (omega arith))
            (encode_base64-IsText s h.1.1.1))))
