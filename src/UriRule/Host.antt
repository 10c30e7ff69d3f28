-- ===== src/UriRule/Host.antt =====
-- urirule/urirule.go: the host of a URI, with what the check uses of net/url, net and strings.
use onym_audit.Prelude.{
  ℕ, ◌+◌, ◌≤◌, ◌-◌, ◌*◌, ◌≡◌, refl, Bool, true, false, ◌&&◌, ◌||◌, not, [], ◌∷◌, List, arith, ltb,
  leb, ◌==◌, between, length, all, any, is_nil, Bytes, codes, if◌then◌else◌, Option, none, some,
}
use onym_audit.Canon.Value.{is_digit, decimal, leading_zero}

-- strings.ContainsRune of an ASCII character
abbrev pub contains : ℕ → Bytes → Bool
contains x s = any (λ c. c == x) s

abbrev pub to_lower_ascii : ℕ → ℕ
to_lower_ascii c = if between b'A' b'Z' c then c + 32 else c

-- strings.EqualFold with a text of lowercase ASCII letters and signs. (U+017F folds to `s`, but it
-- takes two bytes, and the two texts compared have one length.)
unfoldable pub fold_prefix : Bytes → Bytes → Bool
fold_prefix [] s = true
fold_prefix (p ∷ ps) [] = false
fold_prefix (p ∷ ps) (c ∷ s) = to_lower_ascii c == p && fold_prefix ps s

unfoldable pub drop_prefix : Bytes → Bytes → Bytes
drop_prefix [] s = s
drop_prefix (p ∷ ps) [] = []
drop_prefix (p ∷ ps) (c ∷ s) = drop_prefix ps s

abbrev pub ends_authority : ℕ → Bool
ends_authority c = c == b'/' || c == b'?' || c == b'#'

-- What stands before the first of `/?#`.
unfoldable pub authority_of : Bytes → Bytes
authority_of [] = []
authority_of (c ∷ s) = let rest = authority_of s in if ends_authority c then [] else c ∷ rest

unfoldable pub path_of : Bytes → Bytes
path_of [] = []
path_of (c ∷ s) = let rest = path_of s in if ends_authority c then c ∷ s else rest

abbrev pub is_hex : ℕ → Bool
is_hex c = between b'0' b'9' c || between b'a' b'f' c || between b'A' b'F' c

abbrev nibble : ℕ → ℕ
nibble c =
    if between b'0' b'9' c
    then c - b'0'
    else if between b'a' b'f' c
    then c - b'a' + 10
    else c - b'A' + 10

abbrev is_alnum : ℕ → Bool
is_alnum c = between b'0' b'9' c || between b'a' b'z' c || between b'A' b'Z' c

-- What net/url leaves unescaped in a host.
abbrev host_char : ℕ → Bool
host_char c = is_alnum c || any (λ x. x == c) (codes "-_.~!$&'()*+,;=:[]<>\"")

abbrev cons? : ℕ → Option Bytes → Option Bytes
cons? c none = none
cons? c (some s) = some (c ∷ s)

-- net/url's unescape of a host: an escape stands for a byte that is not ASCII, or for a percent
-- sign.
unfoldable pub unescape_host : Bytes → Option Bytes
unescape_host [] = some []
unescape_host (c ∷ []) =
    if c == b'%' then none else if ltb c 0x80 && not (host_char c) then none else some (c ∷ [])
unescape_host (c ∷ a ∷ []) =
    let rest = unescape_host (a ∷ []) in
    if c == b'%' then none else if ltb c 0x80 && not (host_char c) then none else cons? c rest
unescape_host (c ∷ a ∷ b ∷ s) =
    let rest = unescape_host (a ∷ b ∷ s) in
    let escaped = cons? (nibble a * 16 + nibble b) (unescape_host s) in
    if c == b'%'
    then (if is_hex a && is_hex b && (leb 8 (nibble a) || (a == b'2' && b == b'5'))
        then escaped
        else none)
    else if ltb c 0x80 && not (host_char c)
    then none
    else cons? c rest

-- Every escape of a path is a percent sign and two digits.
unfoldable pub path_ok : Bytes → Bool
path_ok [] = true
path_ok (c ∷ []) = not (c == b'%')
path_ok (c ∷ a ∷ []) = let rest = path_ok (a ∷ []) in if c == b'%' then false else rest
path_ok (c ∷ a ∷ b ∷ s) =
    let rest = path_ok (a ∷ b ∷ s) in
    let after = path_ok s in if c == b'%' then is_hex a && is_hex b && after else rest

abbrev is_control : ℕ → Bool
is_control c = ltb c 0x20 || c == 0x7f

-- url.Parse of an https URI with no query, fragment, userinfo or port: its host. A bracket opens
-- no host here, and net/url refuses one further on.
unfoldable pub parse_host : Bytes → Bytes → Option Bytes
unfolding unescape_host path_ok authority_of path_of
parse_host raw rest =
    if any is_control raw || contains b'[' (authority_of rest) || not (path_ok (path_of rest))
    then none
    else unescape_host (authority_of rest)

-- strings.TrimSuffix(host, ".")
unfoldable pub trim_dot : Bytes → Bytes
trim_dot [] = []
trim_dot (c ∷ []) = if c == b'.' then [] else c ∷ []
trim_dot (c ∷ d ∷ s) = c ∷ trim_dot (d ∷ s)

-- strings.ToLower. Two characters that are not ASCII have an ASCII lower case: U+212A, the Kelvin
-- sign, and U+0130. The others stay outside ASCII, and are left as they are here.
unfoldable pub to_lower : Bytes → Bytes
to_lower [] = []
to_lower (a ∷ []) = to_lower_ascii a ∷ []
to_lower (a ∷ b ∷ []) =
    let rest = to_lower (b ∷ []) in
    if a == 0xc4 && b == 0xb0 then b'i' ∷ [] else to_lower_ascii a ∷ rest
to_lower (a ∷ b ∷ c ∷ s) =
    let rest = to_lower (b ∷ c ∷ s) in
    let kelvin = b'k' ∷ to_lower s in
    let dotted = b'i' ∷ to_lower (c ∷ s) in
    if a == 0xe2 && b == 0x84 && c == 0xaa
    then kelvin
    else if a == 0xc4 && b == 0xb0
    then dotted
    else to_lower_ascii a ∷ rest

abbrev pub push_first : ℕ → List Bytes → List Bytes
push_first c [] = (c ∷ []) ∷ []
push_first c (l ∷ ls) = (c ∷ l) ∷ ls

-- strings.Split(host, ".")
unfoldable pub labels : Bytes → List Bytes
labels [] = [] ∷ []
labels (c ∷ s) = let rest = labels s in if c == b'.' then [] ∷ rest else push_first c rest

unfoldable pub last_label : List Bytes → Bytes
last_label [] = []
last_label (l ∷ []) = l
last_label (l ∷ m ∷ ls) = last_label (m ∷ ls)

abbrev pub is_lower_hex : ℕ → Bool
is_lower_hex c = between b'0' b'9' c || between b'a' b'f' c

-- 0x[0-9a-f]+|[0-9]+
unfoldable pub numeric_label : Bytes → Bool
numeric_label (a ∷ b ∷ c ∷ s) =
    (a == b'0' && b == b'x' && all is_lower_hex (c ∷ s)) || all is_digit (a ∷ b ∷ c ∷ s)
numeric_label s = not (is_nil s) && all is_digit s

-- numericHost: one to four numeric labels.
unfoldable pub numeric_host : Bytes → Bool
unfolding numeric_label labels
numeric_host host = leb (length (labels host)) 4 && all numeric_label (labels host)

abbrev pub octet : Bytes → Bool
octet s = not (is_nil s) && all is_digit s && not (leading_zero s) && leb (decimal 0 s) 255

-- net.ParseIP of a host with no colon: an IPv4 address in dotted decimal.
unfoldable pub is_ipv4 : Bytes → Bool
unfolding labels leading_zero decimal
is_ipv4 host = length (labels host) == 4 && all octet (labels host)

labels_pos : (s : Bytes) → 1 ≤ length (labels s)
unfolding labels
labels_pos [] = omega arith
labels_pos (c ∷ s) = ground (arith, labels_pos s)

-- A dot separates two labels, and only a dot does.
pub contains_dot_iff : (s : Bytes) → contains b'.' s ≡ leb 2 (length (labels s))
unfolding labels
contains_dot_iff [] = refl
contains_dot_iff (c ∷ s) = ground (arith, contains_dot_iff s, labels_pos s)

octet-numeric_label : (l : Bytes) → octet l ≡ true → numeric_label l ≡ true
unfolding numeric_label
octet-numeric_label [] h = ground arith
octet-numeric_label (a ∷ []) h = ground arith
octet-numeric_label (a ∷ b ∷ []) h = ground arith
octet-numeric_label (a ∷ b ∷ c ∷ s) h = ground arith

octets-numeric : (ls : List Bytes) → all octet ls ≡ true → all numeric_label ls ≡ true
octets-numeric [] h = refl
octets-numeric (l ∷ ls) h = ground (arith, octets-numeric ls, octet-numeric_label l)

-- The regular expression covers every dotted-decimal address.
pub is_ipv4-numeric_host : (host : Bytes) → is_ipv4 host ≡ true → numeric_host host ≡ true
unfolding is_ipv4 numeric_host
is_ipv4-numeric_host host h = ground (arith, octets-numeric (labels host))
