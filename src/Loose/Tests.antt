-- ===== src/Loose/Tests.antt =====
-- What json.Unmarshal makes of texts that the strict parser refuses.
use onym_audit.Prelude.{◌≡◌, refl, Bytes, [], ◌∷◌, ◌++◌, codes, Result, ok, err, plain}
use onym_audit.Canon.Value.{Fields}
use onym_audit.Utf8.{utf8_valid, utf8_run, utf8_step, encode_rune, decode_pair, is_surrogate}
use onym_audit.Canon.Decode.{hex4, hex_digit}
use onym_audit.Audit.Tests.{run_verify}
use onym_audit.Loose.{named, same_name, fold, last_text, last_int64, text_in}
use onym_audit.Loose.Scan.{
  scan, scan_all, scan_byte, begin_value, after_value, end_value, end_string, close_bracket,
  unquote, unescape, escape_of, repair, append_field, unmarshal,
}
use onym_audit.Files.{cut_prefix}

unfoldable pub run_json : Bytes → Result Fields
unfolding run_verify unmarshal scan scan_all scan_byte begin_value after_value end_value end_string
    close_bracket unquote unescape escape_of repair append_field named same_name fold last_text
    last_int64 utf8_valid utf8_run utf8_step encode_rune decode_pair is_surrogate hex4 hex_digit
    cut_prefix
run_json = unmarshal

-- Fractions, nested values and other members are passed over; of one name the last counts, folded.
passed_over :
    text_in "signature"
      (elim (scan (
        codes
          "{\"n\": -1.5e+3, \"a\": [[0], {\"signature\": 1}], \"SIGnature\": \"s\", \"b\": true}")) [
            | ok obj ↦ obj
            | err e ↦ Fields.no_fields
          ])
    ≡ ok (codes "s")
unfolding run_json
passed_over = refl

-- A surrogate alone and a byte that is of no rune are U+FFFD, a pair is one rune.
repaired :
    unquote (codes "a\\ud83d\\ude00\\ud800\\n" ++ 0xff ∷ [])
    ≡ codes "a" ++ 0xf0 ∷ 0x9f ∷ 0x98 ∷ 0x80 ∷ 0xef ∷ 0xbf ∷ 0xbd ∷ 10 ∷ 0xef ∷ 0xbf ∷ 0xbd ∷ []
unfolding run_json
repaired = refl

no_value : scan (codes "r") ≡ err plain
unfolding run_json
no_value = refl

no_comma_at_end : scan (codes "{\"a\": 1,}") ≡ err plain
unfolding run_json
no_comma_at_end = refl
