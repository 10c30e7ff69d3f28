-- ===== src/Canon/Tests.antt =====
-- Runs of the parser and the encoder, and the theorems on them at concrete documents.
use mathlib.Core.Option
use onym_audit.Prelude.{
  List, ◌≡◌, ◌≢◌, refl, Bool, true, false, [], ◌∷◌, ◌++◌, codes, ok, err, malformed, out_of_fuel,
  bytes_eq, bytes_lt, Bytes, Result, arith,
}
use onym_audit.Utf8.{utf8_valid, utf8_run, utf8_step, encode_rune, decode_pair, is_surrogate}
use onym_audit.Canon.Value.{
  Value, Fields, IsDocument, object, str, field, no_fields, get, has_key, put, push, decimal,
  leading_zero,
}
use onym_audit.Canon.Decode.{
  parse, value, value_at, open_with, go_on, key, colon, ws, read_str, str_from, escape, unicode,
  trail, hex4, hex_digit, read_number, span_digits, lit,
}
use onym_audit.Canon.Decode.Sound.{parse_terminates, parse-IsDocument, parse-AreMembers}
use onym_audit.Canon.Encode.{
  signing_bytes, encode, write_string, escape_all, escape_byte, hex_lower, sort_keys, pair_texts,
  commas,
}
use onym_audit.Canon.Encode.Sort.{sort_value, sort_fields}
use onym_audit.Canon.RoundTrip.Documents.{parse-encode}
use onym_audit.Canon.RoundTrip.Signing.{signing_bytes_ext, signing_bytes_injective, omits}

-- The parser and the encoder with all that they call.
run_parse : Bytes → Result Fields
unfolding parse utf8_valid utf8_run utf8_step encode_rune decode_pair is_surrogate has_key put push
    decimal leading_zero value value_at open_with go_on key colon ws read_str str_from escape
    unicode trail hex4 hex_digit read_number span_digits lit bytes_eq
run_parse = parse

run_encode : Value → Result Bytes
unfolding encode write_string escape_all escape_byte hex_lower sort_keys pair_texts commas bytes_lt
run_encode = encode

sorted_keys :
    signing_bytes (codes " {\"b\" : [1, null , {}], \"a\":\"\\u00e9\\ud83d\\ude00/\\u001f\" }") []
    ≡ ok (
        codes "{\"a\":\""
        ++ 195 ∷ 169 ∷ 240 ∷ 159 ∷ 152 ∷ 128 ∷ codes "/\\u001f\",\"b\":[1,null,{}]}")
unfolding signing_bytes run_parse run_encode
sorted_keys = refl

duplicate : parse (codes "{\"a\":1,\"\\u0061\":2}") ≡ err malformed
unfolding run_parse
duplicate = refl

abbrev first_text : Bytes
first_text = codes "{\"b\":[1,null,{}],\"signature\":\"x\",\"a\":true}"

-- The same document, spelled another way, with another signature.
abbrev second_text : Bytes
second_text = codes " {\"\\u0061\": true, \"signature\":7, \"b\":[ 1,null,{ }]}"

abbrev is_ok : Result Fields → Bool
is_ok (ok fs) = true
is_ok (err e) = false

abbrev fields_of : (r : Result Fields) → is_ok r ≡ true → Fields
fields_of (ok fs) h = fs
fields_of (err e) h = no_fields

first_fields : Fields
unfolding run_parse
first_fields = fields_of (parse first_text) refl

second_fields : Fields
unfolding run_parse
second_fields = fields_of (parse second_text) refl

first_parsed : parse first_text ≡ ok first_fields
unfolding run_parse first_fields
first_parsed = refl

second_parsed : parse second_text ≡ ok second_fields
unfolding run_parse second_fields
second_parsed = refl

abbrev omitted : List Bytes
omitted = codes "signature" ∷ []

same_members : (k : Bytes) → omits omitted k ≡ false → get k first_fields ≡ get k second_fields
unfolding run_parse first_fields second_fields get
same_members k h = ground arith

parse-encode_example :
    (text : Bytes) × (encode (object first_fields) ≡ ok text)
    × (parse text ≡ ok (sort_fields first_fields))
parse-encode_example =
    parse-encode first_fields (parse-AreMembers first_text first_fields first_parsed)

parse_terminates_example : parse first_text ≢ err out_of_fuel
parse_terminates_example = parse_terminates first_text

parse-IsDocument_example : IsDocument 0 (object first_fields)
parse-IsDocument_example = parse-IsDocument first_text first_fields first_parsed

signing_bytes_ext_example : signing_bytes first_text omitted ≡ signing_bytes second_text omitted
signing_bytes_ext_example =
    signing_bytes_ext first_text second_text omitted first_fields second_fields first_parsed
      second_parsed same_members

signing_bytes_injective_example :
    Option.map sort_value (get (codes "b") first_fields)
    ≡ Option.map sort_value (get (codes "b") second_fields)
unfolding bytes_eq
signing_bytes_injective_example =
    signing_bytes_injective first_text second_text omitted first_fields second_fields first_parsed
      second_parsed signing_bytes_ext_example (codes "b") refl

abbrev bytes_of : Result Bytes → Bytes
bytes_of (ok s) = s
bytes_of (err e) = []

abbrev one_member : Value
one_member = object (field (codes "a") (str (codes "x")) no_fields)

one_member-IsDocument : IsDocument 0 one_member
unfolding run_parse
one_member-IsDocument =
    parse-IsDocument (codes "{\"a\":\"x\"}") (field (codes "a") (str (codes "x")) no_fields) refl
