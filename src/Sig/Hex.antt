-- ===== src/Sig/Hex.antt =====
-- sig/sig.go: hexadecimal identifiers, `onym:key:…` and `sha256:…`.
use onym_audit.Prelude.{
  ℕ, ◌+◌, ◌-◌, ◌*◌, ◌/◌, ◌%◌, ◌<◌, ◌≡◌, refl, Bool, true, false, ◌&&◌, ◌||◌, [], ◌∷◌, ◌++◌, arith,
  ◌==◌, between, length, all, Bytes, AreBytes, codes, if◌then◌else◌, Option, none, some, Result, ok,
  err, bad_key,
}
use onym_audit.Canon.Encode.{hex_lower}

-- hex.EncodeToString
unfoldable pub encode_hex : Bytes → Bytes
encode_hex [] = []
encode_hex (c ∷ s) = hex_lower (c / 16) ∷ hex_lower (c % 16) ∷ encode_hex s

abbrev pub is_lower_hex : ℕ → Bool
is_lower_hex c = between b'0' b'9' c || between b'a' b'f' c

abbrev pub hex_value : ℕ → ℕ
hex_value c = if between b'0' b'9' c then c - b'0' else c - b'a' + 10

-- hex.DecodeString of lowercase digits, an even number of them
unfoldable pub decode_hex : Bytes → Bytes
decode_hex (a ∷ b ∷ s) = (hex_value a * 16 + hex_value b) ∷ decode_hex s
decode_hex _ = []

-- strings.TrimPrefix, or none where the prefix is missing
unfoldable pub strip : Bytes → Bytes → Option Bytes
strip [] s = some s
strip (p ∷ ps) [] = none
strip (p ∷ ps) (c ∷ s) = if c == p then strip ps s else none

abbrev hex64 : Option Bytes → Bool
hex64 none = false
hex64 (some s) = length s == 64 && all is_lower_hex s

-- ^prefix[0-9a-f]{64}$
unfoldable pub matches_hex64 : Bytes → Bytes → Bool
matches_hex64 prefix s = hex64 (strip prefix s)

abbrev pub key_prefix : Bytes
key_prefix = codes "onym:key:"

abbrev pub digest_prefix : Bytes
digest_prefix = codes "sha256:"

-- keyRE
pub is_key : Bytes → Bool
is_key k = matches_hex64 key_prefix k

-- ValidDigest
unfoldable pub valid_digest : Bytes → Bool
valid_digest s = matches_hex64 digest_prefix s

-- KeyOf
unfoldable pub key_of : Bytes → Bytes
key_of pk = key_prefix ++ encode_hex pk

abbrev decoded : Option Bytes → Result Bytes
decoded none = err bad_key
decoded (some s) = ok (decode_hex s)

-- (Key).Public
unfoldable pub public : Bytes → Result Bytes
unfolding is_key
public k = if is_key k then decoded (strip key_prefix k) else err bad_key

-- strings.Join of the two-digit texts by a colon
unfoldable pub colons : Bytes → Bytes
colons [] = []
colons (c ∷ []) = encode_hex (c ∷ [])
colons (c ∷ d ∷ s) = encode_hex (c ∷ []) ++ b':' ∷ colons (d ∷ s)

pub strip-append : (p s : Bytes) → strip p (p ++ s) ≡ some s
unfolding strip
strip-append [] s = refl
strip-append (c ∷ p) s = ground (arith, strip-append p s)

hex_lower-is_lower_hex : (n : ℕ) → n < 16 → is_lower_hex (hex_lower n) ≡ true
unfolding hex_lower
hex_lower-is_lower_hex n h = ground arith

hex_value-hex_lower : (n : ℕ) → n < 16 → hex_value (hex_lower n) ≡ n
unfolding hex_lower
hex_value-hex_lower n h = ground arith

pub encode_hex-is_lower_hex : (s : Bytes) → AreBytes s → all is_lower_hex (encode_hex s) ≡ true
unfolding encode_hex
encode_hex-is_lower_hex [] h = refl
encode_hex-is_lower_hex (c ∷ s) h =
    let hi = hex_lower-is_lower_hex (c / 16) (omega (arith, h.0)) in
    let lo = hex_lower-is_lower_hex (c % 16) (omega arith) in
    rw (hi, lo) (encode_hex-is_lower_hex s h.1)

pub length-encode_hex : (s : Bytes) → length (encode_hex s) ≡ 2 * length s
unfolding encode_hex
length-encode_hex [] = refl
length-encode_hex (c ∷ s) = omega (arith, length-encode_hex s)

pub decode_hex-encode_hex : (s : Bytes) → AreBytes s → decode_hex (encode_hex s) ≡ s
unfolding encode_hex decode_hex
decode_hex-encode_hex [] h = refl
decode_hex-encode_hex (c ∷ s) h =
    let whole : c / 16 * 16 + c % 16 ≡ c = omega arith in
    rw (
      hex_value-hex_lower (c / 16) (omega (arith, h.0)),
      hex_value-hex_lower (c % 16) (omega arith),
      decode_hex-encode_hex s h.1,
      whole,
    )

-- A prefix with the hexadecimal text of 32 bytes is an identifier.
pub matches_hex64-encode_hex :
    (prefix s : Bytes)
    → AreBytes s
    → length s ≡ 32
    → matches_hex64 prefix (prefix ++ encode_hex s) ≡ true
unfolding matches_hex64
matches_hex64-encode_hex prefix s h l =
    rw (strip-append prefix (encode_hex s), length-encode_hex s, l) (encode_hex-is_lower_hex s h)

-- The identifier of a 32-byte key parses back to the key.
pub public-key_of : (pk : Bytes) → AreBytes pk → length pk ≡ 32 → public (key_of pk) ≡ ok pk
unfolding public key_of
public-key_of pk h l = rw (
  matches_hex64-encode_hex key_prefix pk h l,
  strip-append key_prefix (encode_hex pk),
  decode_hex-encode_hex pk h,
)
