-- ===== src/Canon/Value.antt =====
-- canon/canon.go: the values that the parser returns and the encoder takes.
pub mod Maps
use onym_audit.Prelude.{
  ℕ, suc, ◌≤◌, ◌≡◌, Bool, true, false, ◌&&◌, ◌||◌, ◌-◌, ◌+◌, ◌*◌, ◌^◌, List, [], ◌∷◌, ◌==◌, between,
  all, is_nil, Bytes, bytes_eq, if◌then◌else◌, Option, none, some, not,
}
use onym_audit.Utf8.{IsText}

abbrev pub max_safe_integer : ℕ
max_safe_integer = 2 ^ 53 - 1

abbrev pub max_depth : ℕ
max_depth = 64

-- The dynamic types that `encode` switches on. `negative n` is the int64 -(n + 1), `int` one that
-- is not negative, `other` a value of any type that the switch does not name.
mutual
  pub data Value : Type 0 where
    null : Value
    bool : Bool → Value
    str : Bytes → Value
    number : Bytes → Value
    int : ℕ → Value
    negative : ℕ → Value
    uint : ℕ → Value
    object : Fields → Value
    array : Items → Value
    strings : List Bytes → Value
    other : Value

  pub data Fields : Type 0 where
    no_fields : Fields
    field : Bytes → Value → Fields → Fields

  pub data Items : Type 0 where
    no_items : Items
    item : Value → Items → Items

-- obj[k]
unfoldable pub get : Bytes → Fields → Option Value
get k no_fields = none
get k (field j v fs) = if bytes_eq j k then some v else get k fs

unfoldable pub has_key : Bytes → Fields → Bool
has_key k no_fields = false
has_key k (field j v fs) = bytes_eq j k || has_key k fs

-- obj[k] = v
unfoldable pub put : Bytes → Value → Fields → Fields
put k v no_fields = field k v no_fields
put k v (field j w fs) = if bytes_eq j k then field k v fs else field j w (put k v fs)

-- delete(obj, k)
unfoldable pub delete : Bytes → Fields → Fields
delete k no_fields = no_fields
delete k (field j w fs) = if bytes_eq j k then fs else field j w (delete k fs)

-- append(arr, v)
unfoldable pub push : Items → Value → Items
push no_items v = item v no_items
push (item x xs) v = item x (push xs v)

abbrev pub is_digit : ℕ → Bool
is_digit c = between b'0' b'9' c

-- strconv.ParseUint in base ten, with no bound, on digits
unfoldable pub decimal : ℕ → Bytes → ℕ
decimal acc [] = acc
decimal acc (c ∷ s) = decimal (acc * 10 + (c - b'0')) s

-- digits[0] == '0' && len(digits) > 1
unfoldable pub leading_zero : Bytes → Bool
leading_zero [] = false
leading_zero (c ∷ s) = c == b'0' && not (is_nil s)

-- The decimal text of a number that the profile admits.
pub record IsNumber (t : Bytes) : Type 0 where
  pub digits : all is_digit t ≡ true
  pub not_empty : is_nil t ≡ false
  pub no_leading_zero : leading_zero t ≡ false
  pub in_range : decimal 0 t ≤ max_safe_integer

-- What a strict parse gives for a value met at depth `d`: no deeper than the limit, keys distinct,
-- texts valid UTF-8, numbers in their one form.
unfoldable mutual
  pub IsDocument : ℕ → Value → Type 0
  IsDocument d null = d ≤ max_depth
  IsDocument d (bool b) = d ≤ max_depth
  IsDocument d (str s) = (d ≤ max_depth) × IsText s
  IsDocument d (number t) = (d ≤ max_depth) × IsNumber t
  IsDocument d (object fs) = (d ≤ max_depth) × AreMembers d fs
  IsDocument d (array xs) = (d ≤ max_depth) × AreElements d xs
  IsDocument d (int n) = ⊥
  IsDocument d (negative n) = ⊥
  IsDocument d (uint n) = ⊥
  IsDocument d (strings ss) = ⊥
  IsDocument d other = ⊥

  pub AreElements : ℕ → Items → Type 0
  AreElements d no_items = Unit
  AreElements d (item x xs) = IsDocument (suc d) x × AreElements d xs

  pub AreMembers : ℕ → Fields → Type 0
  AreMembers d no_fields = Unit
  AreMembers d (field k v fs) =
      (has_key k fs ≡ false) × IsText k × IsDocument (suc d) v × AreMembers d fs
