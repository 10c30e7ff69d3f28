-- ===== src/Loose.antt =====
-- hub/requests.go and hub/orders.go: what they use of encoding/json without a shape. The names of
-- members are compared folded, of two members of one name the later counts, and a null leaves a
-- field as it is, or empties a pointer.
pub mod Scan
pub mod Tests
use onym_audit.Prelude.{
  ◌≡◌, arith, ℕ, zero, suc, ◌-◌, ◌^◌, all, leb, ltb, ◌==◌, Bool, true, false, ◌&&◌, ◌||◌, [], ◌∷◌,
  List, between, Bytes, String, codes, bytes_eq, if◌then◌else◌, Option, none, some, Result, ok, err,
  plain, ◌>>=◌, require,
}
use onym_audit.Canon.Value.{
  IsNumber, Value, Fields, null, str, number, object, no_fields, field, decimal, is_digit,
}
use onym_audit.Files.{has_prefix}
use onym_audit.Audit.Terms.{Artifact}

-- The Kelvin sign and the long s, which fold to K and S.
abbrev kelvin : Bytes
kelvin = 0xe2 ∷ 0x84 ∷ 0xaa ∷ []

abbrev long_s : Bytes
long_s = 0xc5 ∷ 0xbf ∷ []

abbrev upper : ℕ → ℕ
upper c = if between b'a' b'z' c then c - 32 else c

abbrev folded : Bytes → ℕ → ℕ
folded s c = if has_prefix kelvin s then b'K' else if has_prefix long_s s then b'S' else upper c

abbrev trailing : Bytes → ℕ
trailing s = if has_prefix kelvin s then 2 else if has_prefix long_s s then 1 else 0

-- foldName, for comparison with names in ASCII; the number is of bytes to skip.
unfoldable pub fold : ℕ → Bytes → Bytes
fold skip [] = []
fold zero (c ∷ s) = folded (c ∷ s) c ∷ fold (trailing (c ∷ s)) s
fold (suc n) (c ∷ s) = fold n s

unfoldable pub same_name : Bytes → String → Bool
same_name k name = bytes_eq (fold 0 k) (fold 0 (codes name))

-- The values of the members of a name.
unfoldable pub named : String → Fields → List Value
named name no_fields = []
named name (field k v fs) = let rest = named name fs in if same_name k name then v ∷ rest else rest

unfoldable pub known_name : List String → Bytes → Bool
known_name [] k = false
known_name (name ∷ names) k = same_name k name || known_name names k

-- What DisallowUnknownFields admits.
unfoldable pub only : List String → Fields → Bool
only names no_fields = true
only names (field k v fs) = known_name names k && only names fs

unfoldable pub last_text : Bytes → List Value → Result Bytes
last_text s [] = ok s
last_text s (null ∷ vs) = last_text s vs
last_text s (str t ∷ vs) = last_text t vs
last_text s (v ∷ vs) = err plain

unfoldable pub last_text? : Option Bytes → List Value → Result (Option Bytes)
last_text? s [] = ok s
last_text? s (null ∷ vs) = last_text? none vs
last_text? s (str t ∷ vs) = last_text? (some t) vs
last_text? s (v ∷ vs) = err plain

unfoldable pub last_int : ℕ → List Value → Result ℕ
last_int n [] = ok n
last_int n (null ∷ vs) = last_int n vs
last_int n (number t ∷ vs) = last_int (decimal 0 t) vs
last_int n (v ∷ vs) = err plain

-- strconv.ParseInt into an int64; a negative number is 0 here.
unfoldable pub int64_of : Bytes → Result ℕ
int64_of [] = err plain
int64_of (c ∷ s) =
    if c == b'-'
    then (if all is_digit s && leb (decimal 0 s) (2 ^ 63) then ok 0 else err plain)
    else if all is_digit (c ∷ s) && ltb (decimal 0 (c ∷ s)) (2 ^ 63)
    then ok (decimal 0 (c ∷ s))
    else err plain

unfoldable pub last_int64 : ℕ → List Value → Result ℕ
unfolding int64_of
last_int64 n [] = ok n
last_int64 n (null ∷ vs) = last_int64 n vs
last_int64 n (number t ∷ vs) = int64_of t >>= λ m. last_int64 m vs
last_int64 n (v ∷ vs) = err plain

unfoldable pub append_fields : Fields → Fields → Fields
append_fields no_fields gs = gs
append_fields (field k v fs) gs = field k v (append_fields fs gs)

-- The members that a struct is decoded from, of each object of its name.
unfoldable pub all_fields : Fields → List Value → Result Fields
all_fields fs [] = ok fs
all_fields fs (null ∷ vs) = all_fields fs vs
all_fields fs (object gs ∷ vs) = all_fields (append_fields fs gs) vs
all_fields fs (v ∷ vs) = err plain

abbrev pub text_in : String → Fields → Result Bytes
text_in name obj = last_text [] (named name obj)

abbrev pub text?_in : String → Fields → Result (Option Bytes)
text?_in name obj = last_text? none (named name obj)

abbrev pub int64_in : String → Fields → Result ℕ
int64_in name obj = last_int64 0 (named name obj)

abbrev pub int_in : String → Fields → Result ℕ
int_in name obj = last_int 0 (named name obj)

-- Where `strict`, as with DisallowUnknownFields.
abbrev pub admitted : Bool → List String → Fields → Result (Unit {0})
admitted false names obj = ok tt
admitted true names obj = require (only names obj) plain

abbrev pub artifact_names : List String
artifact_names = "kind" ∷ "source" ∷ "revision" ∷ "artifactHash" ∷ []

unfoldable pub read_artifact : Fields → Result Artifact
read_artifact obj = do
  k ← text_in "kind" obj
  s ← text_in "source" obj
  r ← text_in "revision" obj
  x ← text?_in "artifactHash" obj
  ok (record { kind = k; source = s; revision = r; artifact_hash = x })

-- A number of the profile's one form is read as it is.
pub int64_of-IsNumber : (t : Bytes) → IsNumber t → int64_of t ≡ ok (decimal 0 t)
unfolding int64_of
int64_of-IsNumber [] n = absurd (cc (n.not_empty))
int64_of-IsNumber (c ∷ s) n = ground (arith, n.digits, n.in_range)
