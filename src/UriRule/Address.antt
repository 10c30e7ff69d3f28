-- ===== src/UriRule/Address.antt =====
-- urirule/urirule.go: what an accepted URI looks like, and that its host is no IPv4 address.
use onym_audit.Prelude.{
  ℕ, ◌+◌, ◌-◌, ◌*◌, ◌^◌, ◌≤◌, ◌≡◌, Bool, true, false, ◌&&◌, [], ◌∷◌, ◌++◌, List, ltb, ◌==◌, between,
  length, all, Bytes, codes, if◌then◌else◌, Option, none, some, ◌⊎◌, zero, suc,
}
use onym_audit.Canon.Value.{is_digit}
use onym_audit.UriRule.Host.{
  contains, unescape_host, trim_dot, to_lower, to_lower_ascii, labels, is_lower_hex,
}

-- The number that a part of an address is for inet_aton: hexadecimal behind `0x`, octal behind `0`,
-- or decimal.
unfoldable positional : ℕ → ℕ → Bytes → ℕ
positional base acc [] = acc
positional base acc (c ∷ s) =
    positional base (acc * base + (if is_digit c then c - b'0' else c - b'a' + 10)) s

abbrev is_octal : ℕ → Bool
is_octal c = between b'0' b'7' c

abbrev ten_or_eight : Bytes → Option ℕ
ten_or_eight [] = none
ten_or_eight (c ∷ s) =
    if c == b'0'
    then (if all is_octal s then some (positional 8 0 s) else none)
    else if all is_digit (c ∷ s)
    then some (positional 10 0 (c ∷ s))
    else none

unfoldable part_of : Bytes → Option ℕ
part_of (a ∷ b ∷ c ∷ s) =
    if a == b'0' && b == b'x'
    then (if all is_lower_hex (c ∷ s) then some (positional 16 0 (c ∷ s)) else none)
    else ten_or_eight (a ∷ b ∷ c ∷ s)
part_of s = ten_or_eight s

abbrev in_range : ℕ → Option ℕ → Option ℕ
in_range bound none = none
in_range bound (some n) = if ltb n bound then some n else none

abbrev with_rest : ℕ → Option ℕ → Option ℕ → Option ℕ
with_rest unit none r = none
with_rest unit (some n) none = none
with_rest unit (some n) (some r) = some (n * unit + r)

-- inet_aton: up to `left` parts, each but the last of one byte, the last of all bytes that are left.
unfoldable pub address_of : ℕ → List Bytes → Option ℕ
unfolding part_of positional
address_of zero ps = none
address_of (suc left) [] = none
address_of (suc left) (p ∷ []) = in_range (256 ^ suc left) (part_of p)
address_of (suc left) (p ∷ q ∷ ps) =
    with_rest (256 ^ left) (in_range 256 (part_of p)) (address_of left (q ∷ ps))

pub fold_text : Bytes → Bytes
fold_text [] = []
fold_text (c ∷ s) = to_lower_ascii c ∷ fold_text s

-- A URI in three parts: the scheme in any case, a host without userinfo, port and bracket, and a path
-- that is empty or begins with a slash, with neither query nor fragment. The host without its escapes
-- is, in lower case and without a final dot, ASCII and of two labels or more, and inet_aton does not
-- take it for an address.
pub record IsPlain (raw : Bytes) : Type 0 where
  pub before : Bytes
  pub authority : Bytes
  pub path : Bytes
  pub host : Bytes
  pub parts : raw ≡ before ++ (authority ++ path)
  pub https : fold_text before ≡ codes "https://"
  pub no_userinfo : contains b'@' authority ≡ false
  pub no_port : contains b':' authority ≡ false
  pub no_bracket : contains b'[' authority ≡ false
  pub rooted : (path ≡ []) ⊎ ((t : Bytes) × (path ≡ b'/' ∷ t))
  pub no_query : contains b'?' (authority ++ path) ≡ false
  pub no_fragment : contains b'#' (authority ++ path) ≡ false
  pub unescaped : unescape_host authority ≡ some host
  pub ascii : all (λ c. ltb c 0x80) (to_lower (trim_dot host)) ≡ true
  pub dotted : 2 ≤ length (labels (to_lower (trim_dot host)))
  pub no_address : address_of 4 (labels (to_lower (trim_dot host))) ≡ none
