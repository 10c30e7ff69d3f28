-- ===== src/Onymid.antt =====
-- onymid/onymid.go: account IDs.
pub mod RoundTrip
pub mod Tests
use onym_audit.Prelude.{
  ℕ, zero, suc, ◌+◌, ◌-◌, ◌*◌, ◌/◌, ◌%◌, ◌^◌, Bool, true, false, ◌&&◌, ◌||◌, not, [], ◌∷◌, ◌++◌,
  List, length, leb, ltb, between, ◌==◌, Bytes, if◌then◌else◌, Option, none, some, Result, ok, err,
  plain, ◌>>=◌, ◌>>◌, require,
}

abbrev pub account_version : ℕ
account_version = 6 * 2 ^ 3

-- `^` on numbers of so many bits.
unfoldable pub xor : ℕ → ℕ → ℕ → ℕ
xor zero a b = 0
xor (suc w) a b = (a + b) % 2 + 2 * xor w (a / 2) (b / 2)

-- One bit of crc16, on 16 bits.
abbrev pub crc_bit : ℕ → ℕ
crc_bit c = if leb 0x8000 c then xor 16 (c * 2 % 2 ^ 16) 0x1021 else c * 2 % 2 ^ 16

unfoldable pub crc_bits : ℕ → ℕ → ℕ
crc_bits zero c = c
crc_bits (suc n) c = crc_bits n (crc_bit c)

unfoldable pub crc_bytes : ℕ → Bytes → ℕ
crc_bytes c [] = c
crc_bytes c (x ∷ s) = crc_bytes (crc_bits 8 (xor 16 c (x * 2 ^ 8 % 2 ^ 16))) s

-- crc16
unfoldable pub crc16 : Bytes → ℕ
crc16 b = crc_bytes 0 b

-- The alphabet of base32.StdEncoding
abbrev pub char32 : ℕ → ℕ
char32 q = if ltb q 26 then b'A' + q else b'2' + (q - 26)

abbrev pub value32 : ℕ → Option ℕ
value32 c =
    if between b'A' b'Z' c
    then some (c - b'A')
    else if between b'2' b'7' c
    then some (c - b'2' + 26)
    else none

-- EncodeToString without padding, on whole groups of five bytes
unfoldable pub encode_base32 : Bytes → Bytes
encode_base32 (a ∷ b ∷ c ∷ d ∷ e ∷ s) =
    char32 (a / 8)
    ∷ char32 (a % 8 * 4 + b / 64)
    ∷ char32 (b / 2 % 32)
    ∷ char32 (b % 2 * 16 + c / 16)
    ∷ char32 (c % 16 * 2 + d / 128)
    ∷ char32 (d / 4 % 32)
    ∷ char32 (d % 4 * 8 + e / 32)
    ∷ char32 (e % 32)
    ∷ encode_base32 s
encode_base32 _ = []

abbrev or_cons : Option ℕ → Option (List ℕ) → Option (List ℕ)
or_cons none vs = none
or_cons (some v) none = none
or_cons (some v) (some vs) = some (v ∷ vs)

-- The values of a text without its newlines
unfoldable pub values32 : Bytes → Option (List ℕ)
values32 [] = some []
values32 (c ∷ s) =
    let rest = values32 s in if c == b'\r' || c == b'\n' then rest else or_cons (value32 c) rest

-- The bytes of groups of eight values, and of a last group of 2, 4, 5 or 7. Of a last group of 1, 3
-- or 6 the decoder makes none.
unfoldable pub join32 : List ℕ → Bytes
join32 (p ∷ q ∷ r ∷ s ∷ t ∷ u ∷ v ∷ w ∷ vs) =
    (p * 8 + q / 4)
    ∷ (q % 4 * 64 + r * 2 + s / 16)
    ∷ (s % 16 * 16 + t / 2)
    ∷ (t % 2 * 128 + u * 4 + v / 8)
    ∷ (v % 8 * 32 + w)
    ∷ join32 vs
join32 (p ∷ q ∷ r ∷ s ∷ t ∷ u ∷ v ∷ []) =
    (p * 8 + q / 4)
    ∷ (q % 4 * 64 + r * 2 + s / 16)
    ∷ (s % 16 * 16 + t / 2)
    ∷ (t % 2 * 128 + u * 4 + v / 8)
    ∷ []
join32 (p ∷ q ∷ r ∷ s ∷ t ∷ []) =
    (p * 8 + q / 4) ∷ (q % 4 * 64 + r * 2 + s / 16) ∷ (s % 16 * 16 + t / 2) ∷ []
join32 (p ∷ q ∷ r ∷ s ∷ []) = (p * 8 + q / 4) ∷ (q % 4 * 64 + r * 2 + s / 16) ∷ []
join32 (p ∷ q ∷ []) = (p * 8 + q / 4) ∷ []
join32 _ = []

abbrev bytes_of : Option (List ℕ) → Result Bytes
bytes_of none = err plain
bytes_of (some vs) = ok (join32 vs)

-- DecodeString
unfoldable pub decode_base32 : Bytes → Result Bytes
decode_base32 s = bytes_of (values32 s)

-- The two bytes of a checksum, the low one first
abbrev pub checksum : Bytes → Bytes
checksum p = let c = crc16 p in c % 256 ∷ c / 2 ^ 8 % 256 ∷ []

-- AccountID
unfoldable pub account_id : Bytes → Bytes
account_id pub_key = let p = account_version ∷ pub_key in encode_base32 (p ++ checksum p)

-- b[1:33] and b[33:] of what follows the version, of 34 bytes
unfoldable pub split_at : ℕ → Bytes → Bytes × Bytes
split_at zero s = ([], s)
split_at (suc n) [] = ([], [])
split_at (suc n) (c ∷ s) = let rest = split_at n s in (c ∷ rest.0, rest.1)

abbrev pub same_sum : Bytes → Bytes → Bool
same_sum (x ∷ y ∷ []) (u ∷ v ∷ []) = x == u && y == v
same_sum _ _ = false

abbrev checked : Bytes × Bytes → Result Bytes
checked (pub_key, sum) = do
  require (same_sum (checksum (account_version ∷ pub_key)) sum) plain
  ok pub_key

abbrev of_bytes : Bytes → Result Bytes
of_bytes [] = err plain
of_bytes (v ∷ s) =
    if length s == 34 && v == account_version then checked (split_at 32 s) else err plain

-- ParseAccountID
unfoldable pub parse_account_id : Bytes → Result Bytes
parse_account_id id = decode_base32 id >>= of_bytes
