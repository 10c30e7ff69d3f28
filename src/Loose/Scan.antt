-- ===== src/Loose/Scan.antt =====
-- site/site.go: json.Unmarshal into a struct, up to the choice of its members. The scanner of
-- encoding/json is a machine that reads a byte at a time and keeps the brackets that are open; of what
-- is nested deeper than the members it is left out what it is.
use onym_audit.Prelude.{
  ◌≡◌, ap, ℕ, zero, suc, ◌-◌, Bool, true, false, ◌&&◌, ◌||◌, [], ◌∷◌, ◌++◌, List, between, ltb,
  ◌==◌, length, Bytes, codes, if◌then◌else◌, Result, ok, err, plain,
}
use onym_audit.Utf8.{utf8_valid, is_surrogate, decode_pair, encode_rune}
use onym_audit.Canon.Value.{
  Value, Fields, null, bool, str, number, object, other, no_fields, field, is_digit,
}
use onym_audit.Canon.Decode.{is_space, hex4, parse}

-- What a byte is read as. A literal has what is left of it, and its value.
pub data Wait : Type 0 where
  value_due element_or_end key_or_end key_due colon_due comma_due : Wait
  in_string in_escape : Wait
  in_hex : ℕ → Wait
  minus_read zero_read in_digits point_read in_fraction : Wait
  exponent_read sign_read in_exponent : Wait
  in_literal : Bytes → Value → Wait
  failed : Wait

-- `brackets` has the brackets that are open, innermost first, true for an object. `text` is the body of
-- the string, or the number, that is being read.
pub record Scan : Type 0 where
  pub wait : Wait
  pub brackets : List Bool
  pub of_key : Bool
  pub text : Bytes
  pub name : Bytes
  pub whole : Value
  pub found : Fields

abbrev max_nesting : ℕ
max_nesting = 10000

abbrev replacement : Bytes
replacement = encode_rune 0xfffd

abbrev first_of : ℕ → Bytes → Bytes
first_of zero s = []
first_of (suc n) [] = []
first_of (suc n) (c ∷ s) = c ∷ first_of n s

-- How many bytes the first rune takes; 0 where there is none.
abbrev rune_width : Bytes → ℕ
rune_width s =
    if utf8_valid (first_of 1 s)
    then 1
    else if utf8_valid (first_of 2 s)
    then 2
    else if utf8_valid (first_of 3 s)
    then 3
    else if utf8_valid (first_of 4 s)
    then 4
    else 0

-- U+FFFD for every byte that is of no rune; the number is of the bytes of a rune that are due.
unfoldable pub repair : ℕ → Bytes → Bytes
repair due [] = []
repair (suc n) (c ∷ s) = c ∷ repair n s
repair zero (c ∷ s) =
    let bad = replacement ++ repair 0 s in
    let good = c ∷ repair (rune_width (c ∷ s) - 1) s in
    if rune_width (c ∷ s) == 0 then bad else good

-- A surrogate and what follows it: the pair is one rune, and a surrogate alone is U+FFFD.
abbrev paired : ℕ → Bytes → Bytes × ℕ
paired r (x ∷ y ∷ s) = elim (hex4 s) [
  | ok (r2, rest) ↦
      (if ltb r 0xdc00 && between 0xdc00 0xdfff r2 && x == b'\\' && y == b'u'
        then (encode_rune (decode_pair r r2), 11)
        else (replacement, 5))
  | err e ↦ (replacement, 5)
]
paired r s = (replacement, 5)

abbrev unicode_escape : Bytes → Bytes × ℕ
unicode_escape s = elim (hex4 s) [
  | ok (r, rest) ↦ (if is_surrogate r then paired r rest else (encode_rune r, 5))
  | err e ↦ (replacement, 5)
]

-- Behind a backslash, in a string that the scanner has let pass: what it writes, and the number of
-- bytes it takes.
unfoldable pub escape_of : Bytes → Bytes × ℕ
escape_of [] = ([], 0)
escape_of (c ∷ s) =
    if c == b'b'
    then (8 ∷ [], 1)
    else if c == b'f'
    then (12 ∷ [], 1)
    else if c == b'n'
    then (10 ∷ [], 1)
    else if c == b'r'
    then (13 ∷ [], 1)
    else if c == b't'
    then (9 ∷ [], 1)
    else if c == b'u'
    then unicode_escape s
    else (c ∷ [], 1)

-- unquote; the number is of bytes to skip.
unfoldable pub unescape : ℕ → Bytes → Bytes
unfolding escape_of
unescape skip [] = []
unescape (suc n) (c ∷ s) = unescape n s
unescape zero (c ∷ s) =
    let escaped = (escape_of s).0 ++ unescape (escape_of s).1 s in
    let copied = c ∷ unescape 0 s in if c == b'\\' then escaped else copied

unfoldable pub unquote : Bytes → Bytes
unfolding unescape repair
unquote s = repair 0 (unescape 0 s)

unfoldable pub append_field : Fields → Bytes → Value → Fields
append_field no_fields k v = field k v no_fields
append_field (field j w fs) k v = field j w (append_field fs k v)

abbrev fail : Scan → Scan
fail s = record s { wait = failed }

-- Behind a value: it is the whole, or a member's, or nested.
unfoldable pub end_value : Value → Scan → Scan
end_value v s = elim s.brackets [
  | [] ↦ record s { wait = comma_due; whole = v }
  | b ∷ bs ↦ elim bs [
    | [] ↦ record s {
      wait = comma_due;
      found = if b then append_field s.found s.name v else s.found;
    }
    | _ ∷ _ ↦ record s { wait = comma_due }
  ]
]

unfoldable pub end_string : Scan → Scan
unfolding unquote end_value
end_string s =
    if s.of_key
    then elim s.brackets [
      | [] ↦ fail s
      | b ∷ bs ↦ elim bs [
        | [] ↦ record s { wait = colon_due; name = unquote s.text }
        | _ ∷ _ ↦ record s { wait = colon_due }
      ]
    ]
    else end_value (str (unquote s.text)) s

abbrev open_bracket : Bool → Wait → Scan → Scan
open_bracket b w s =
    if ltb (length s.brackets) max_nesting
    then record s { wait = w; brackets = b ∷ s.brackets }
    else fail s

-- At the closing bracket.
unfoldable pub close_bracket : Scan → Scan
unfolding end_value
close_bracket s = elim s.brackets [
  | [] ↦ fail s
  | b ∷ bs ↦ elim bs [
    | [] ↦ record s { wait = comma_due; brackets = []; whole = if b then object s.found else other }
    | y ∷ ys ↦ end_value other (record s { brackets = y ∷ ys })
  ]
]

abbrev start_number : Wait → ℕ → Scan → Scan
start_number w c s = record s { wait = w; text = c ∷ [] }

unfoldable pub begin_value : ℕ → Scan → Scan
begin_value c s =
    if is_space c
    then s
    else if c == b'{'
    then open_bracket true key_or_end s
    else if c == b'['
    then open_bracket false element_or_end s
    else if c == b'"'
    then record s { wait = in_string; of_key = false; text = [] }
    else if c == b'-'
    then start_number minus_read c s
    else if c == b'0'
    then start_number zero_read c s
    else if is_digit c
    then start_number in_digits c s
    else if c == b't'
    then record s { wait = in_literal (codes "rue") (bool true) }
    else if c == b'f'
    then record s { wait = in_literal (codes "alse") (bool false) }
    else if c == b'n'
    then record s { wait = in_literal (codes "ull") null }
    else fail s

abbrev begin_key : ℕ → Scan → Scan
begin_key c s =
    if is_space c
    then s
    else if c == b'"'
    then record s { wait = in_string; of_key = true; text = [] }
    else fail s

unfoldable pub after_value : ℕ → Scan → Scan
unfolding close_bracket
after_value c s = if is_space c then s else elim s.brackets [
  | [] ↦ fail s
  | b ∷ bs ↦
      if b
      then (if c == b','
          then record s { wait = key_due }
          else if c == b'}'
          then close_bracket s
          else fail s)
      else if c == b','
      then record s { wait = value_due }
      else if c == b']'
      then close_bracket s
      else fail s
]

-- A byte that ends a number is read behind it.
abbrev after_number : ℕ → Scan → Scan
after_number c s = after_value c (end_value (number s.text) s)

abbrev keep : Wait → ℕ → Scan → Scan
keep w c s = record s { wait = w; text = s.text ++ c ∷ [] }

abbrev is_e : ℕ → Bool
is_e c = c == b'e' || c == b'E'

unfoldable pub scan_byte : Wait → ℕ → Scan → Scan
unfolding begin_value after_value end_value end_string close_bracket
scan_byte value_due c s = begin_value c s
scan_byte element_or_end c s = if c == b']' then close_bracket s else begin_value c s
scan_byte key_or_end c s = if c == b'}' then close_bracket s else begin_key c s
scan_byte key_due c s = begin_key c s
scan_byte colon_due c s =
    if is_space c then s else if c == b':' then record s { wait = value_due } else fail s
scan_byte comma_due c s = after_value c s
scan_byte in_string c s =
    if c == b'"'
    then end_string s
    else if c == b'\\'
    then keep in_escape c s
    else if ltb c 0x20
    then fail s
    else keep in_string c s
scan_byte in_escape c s =
    if c == b'u'
    then keep (in_hex 3) c s
    else if c == b'b'
        || c == b'f'
        || c == b'n'
        || c == b'r'
        || c == b't'
        || c == b'\\'
        || c == b'/'
        || c == b'"'
    then keep in_string c s
    else fail s
scan_byte (in_hex n) c s =
    if between b'0' b'9' c || between b'a' b'f' c || between b'A' b'F' c
    then keep (elim n [ zero ↦ in_string | suc m ↦ in_hex m ]) c s
    else fail s
scan_byte minus_read c s =
    if c == b'0' then keep zero_read c s else if is_digit c then keep in_digits c s else fail s
scan_byte zero_read c s =
    if c == b'.'
    then keep point_read c s
    else if is_e c
    then keep exponent_read c s
    else after_number c s
scan_byte in_digits c s =
    if is_digit c
    then keep in_digits c s
    else if c == b'.'
    then keep point_read c s
    else if is_e c
    then keep exponent_read c s
    else after_number c s
scan_byte point_read c s = if is_digit c then keep in_fraction c s else fail s
scan_byte in_fraction c s =
    if is_digit c
    then keep in_fraction c s
    else if is_e c
    then keep exponent_read c s
    else after_number c s
scan_byte exponent_read c s =
    if c == b'+' || c == b'-'
    then keep sign_read c s
    else if is_digit c
    then keep in_exponent c s
    else fail s
scan_byte sign_read c s = if is_digit c then keep in_exponent c s else fail s
scan_byte in_exponent c s = if is_digit c then keep in_exponent c s else after_number c s
scan_byte (in_literal [] v) c s = fail s
scan_byte (in_literal (w ∷ []) v) c s = if c == w then end_value v s else fail s
scan_byte (in_literal (w ∷ x ∷ ws) v) c s =
    if c == w then record s { wait = in_literal (x ∷ ws) v } else fail s
scan_byte failed c s = s

unfoldable pub scan_all : Scan → Bytes → Scan
unfolding scan_byte
scan_all s [] = s
scan_all s (c ∷ cs) = scan_all (scan_byte s.wait c s) cs

abbrev start_scan : Scan
start_scan = record {
  wait = value_due;
  brackets = [];
  of_key = false;
  text = [];
  name = [];
  whole = other;
  found = no_fields;
}

-- The whole text is one value where nothing but it is read; a null decodes to nothing.
abbrev members_of : Scan → Result Fields
members_of s = elim s.wait [
  | comma_due ↦ elim s.brackets [
    | [] ↦ elim s.whole [ object fs ↦ ok fs | null ↦ ok no_fields | _ ↦ err plain ]
    | _ ∷ _ ↦ err plain
  ]
  | _ ↦ err plain
]

-- A space ends a number at the end of the text.
unfoldable pub scan : Bytes → Result Fields
unfolding scan_all
scan raw = members_of (scan_all start_scan (raw ++ b' ' ∷ []))

abbrev or_scan : Bytes → Result Fields → Result Fields
or_scan raw (ok obj) = ok obj
or_scan raw (err e) = scan raw

-- What the strict parser reads encoding/json reads as the same members; other texts are scanned.
unfoldable pub unmarshal : Bytes → Result Fields
unfolding scan
unmarshal raw = or_scan raw (parse raw)

pub unmarshal-parse : (raw : Bytes) (obj : Fields) → parse raw ≡ ok obj → unmarshal raw ≡ ok obj
unfolding unmarshal
unmarshal-parse raw obj e = ap (or_scan raw) e
