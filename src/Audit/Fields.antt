-- ===== src/Audit/Fields.antt =====
-- What audit/strict.go uses of encoding/json: a field of a struct from the member of its name. A
-- null leaves the zero value.
use onym_audit.Prelude.{
  ℕ, Bool, false, [], ◌∷◌, List, Bytes, String, codes, Option, none, some, Result, ok, err,
  malformed, ◌>>=◌,
}
use onym_audit.Canon.Value.{
  Value, Items, null, bool, str, number, object, array, no_items, item, no_fields, field, get,
  decimal,
}
use onym_audit.Canon.Value

string_value : Option Value → Result Bytes
string_value none = ok []
string_value (some null) = ok []
string_value (some (str s)) = ok s
string_value (some v) = err malformed

string?_value : Option Value → Result (Option Bytes)
string?_value none = ok none
string?_value (some null) = ok none
string?_value (some (str s)) = ok (some s)
string?_value (some v) = err malformed

int_value : Option Value → Result ℕ
unfolding decimal
int_value none = ok 0
int_value (some null) = ok 0
int_value (some (number t)) = ok (decimal 0 t)
int_value (some v) = err malformed

int?_value : Option Value → Result (Option ℕ)
unfolding decimal
int?_value none = ok none
int?_value (some null) = ok none
int?_value (some (number t)) = ok (some (decimal 0 t))
int?_value (some v) = err malformed

bool_value : Option Value → Result Bool
bool_value none = ok false
bool_value (some null) = ok false
bool_value (some (bool b)) = ok b
bool_value (some v) = err malformed

module _ {ℓ} {A : Type ℓ} (decode : Option Value → Result A) where
  unfoldable pub each : Items → Result (List A)
  each no_items = ok []
  each (item v xs) = decode (some v) >>= λ a. each xs >>= λ rest. ok (a ∷ rest)

  each_member : Value.Fields → Result (List (Bytes × A))
  each_member no_fields = ok []
  each_member (field k v fs) =
      decode (some v) >>= λ a. each_member fs >>= λ rest. ok ((k, a) ∷ rest)

  -- A slice; nil is not the empty slice.
  list_value : Option Value → Result (Option (List A))
  list_value none = ok none
  list_value (some null) = ok none
  list_value (some (array xs)) = each xs >>= λ l. ok (some l)
  list_value (some v) = err malformed

  -- A map
  map_value : Option Value → Result (List (Bytes × A))
  map_value none = ok []
  map_value (some null) = ok []
  map_value (some (object fs)) = each_member fs
  map_value (some v) = err malformed

module _ {ℓ} {A : Type ℓ} where
  or_empty : Option (List A) → List A
  or_empty none = []
  or_empty (some l) = l

  unfoldable pub struct_value : A → (Value.Fields → Result A) → Option Value → Result A
  struct_value zero_value decode none = ok zero_value
  struct_value zero_value decode (some null) = ok zero_value
  struct_value zero_value decode (some (object fs)) = decode fs
  struct_value zero_value decode (some v) = err malformed

  struct?_value : (Value.Fields → Result A) → Option Value → Result (Option A)
  struct?_value decode none = ok none
  struct?_value decode (some null) = ok none
  struct?_value decode (some (object fs)) = decode fs >>= λ a. ok (some a)
  struct?_value decode (some v) = err malformed

unfoldable pub string_field : String → Value.Fields → Result Bytes
unfolding string_value
string_field k obj = string_value (get (codes k) obj)

unfoldable pub string?_field : String → Value.Fields → Result (Option Bytes)
unfolding string?_value
string?_field k obj = string?_value (get (codes k) obj)

unfoldable pub int_field : String → Value.Fields → Result ℕ
unfolding int_value
int_field k obj = int_value (get (codes k) obj)

unfoldable pub int?_field : String → Value.Fields → Result (Option ℕ)
unfolding int?_value
int?_field k obj = int?_value (get (codes k) obj)

unfoldable pub bool_field : String → Value.Fields → Result Bool
unfolding bool_value
bool_field k obj = bool_value (get (codes k) obj)

unfoldable pub strings_field : String → Value.Fields → Result (Option (List Bytes))
unfolding list_value each string_value
strings_field k obj = list_value string_value (get (codes k) obj)

unfoldable pub ints_field : String → Value.Fields → Result (List (Bytes × ℕ))
unfolding map_value each_member int_value
ints_field k obj = map_value int_value (get (codes k) obj)

unfoldable pub texts_field : String → Value.Fields → Result (List (Bytes × Bytes))
unfolding map_value each_member string_value
texts_field k obj = map_value string_value (get (codes k) obj)

module _ {ℓ} {A : Type ℓ} where
  unfoldable pub struct_field : A → (Value.Fields → Result A) → String → Value.Fields → Result A
  unfolding struct_value
  struct_field zero_value decode k obj = struct_value zero_value decode (get (codes k) obj)

  unfoldable pub struct?_field :
      (Value.Fields → Result A) → String → Value.Fields → Result (Option A)
  unfolding struct?_value
  struct?_field decode k obj = struct?_value decode (get (codes k) obj)

  unfoldable pub structs_field :
      A → (Value.Fields → Result A) → String → Value.Fields → Result (List A)
  unfolding list_value each struct_value or_empty
  structs_field zero_value decode k obj =
      list_value (struct_value zero_value decode) (get (codes k) obj) >>= λ l. ok (or_empty l)
