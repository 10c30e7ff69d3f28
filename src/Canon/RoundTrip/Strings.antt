-- ===== src/Canon/RoundTrip/Strings.antt =====
-- Round trip of the leaves: strings, numbers and words, with what follows them.
use onym_audit.Prelude.{
  ℕ, zero, suc, ◌+◌, ◌*◌, ◌/◌, ◌%◌, ◌<◌, ◌≤◌, ◌≡◌, refl, ◌∙◌, Bool, true, ◌||◌, [], ◌∷◌, ◌++◌,
  append_assoc, append-nil, arith, ◌==◌, length, all, Bytes, ok, length-append,
}
use onym_audit.Utf8.{
  encode_rune, is_surrogate, IsText, utf8_run, utf8_step, start, Utf8State, utf8_run-append,
  utf8_run-cons,
}
use onym_audit.Canon.Value.{number, is_digit, IsNumber}
use onym_audit.Canon.Decode.{
  str_from, escape, unicode, hex4, hex_digit, read_str, span_digits, read_number, check_number,
}
use onym_audit.Canon.Encode.{hex_lower, escape_byte, escape_all}

hex_digit-hex_lower : (n : ℕ) → n < 16 → hex_digit (hex_lower n) ≡ ok n
unfolding hex_digit hex_lower
hex_digit-hex_lower n h = ground arith

escape-control :
    (c : ℕ) (rest : Bytes)
    → c < 0x20
    → escape (b'u' ∷ b'0' ∷ b'0' ∷ hex_lower (c / 16) ∷ hex_lower (c % 16) ∷ rest)
      ≡ ok (c ∷ [], rest)
unfolding escape unicode hex4 encode_rune is_surrogate
escape-control c rest h =
    rw (hex_digit-hex_lower (c / 16) (omega arith), hex_digit-hex_lower (c % 16) (omega arith))
      (unfold hex_digit in rw whole (ground arith))
  where
    whole : ((0 * 16 + 0) * 16 + c / 16) * 16 + c % 16 ≡ c
    whole = omega arith

-- One byte's escape is read back as that byte.
str_from-escape_byte :
    (f c : ℕ) (out rest : Bytes)
    → str_from (suc f) out (escape_byte c ++ rest) ≡ str_from f (out ++ c ∷ []) rest
unfolding str_from escape_byte escape
str_from-escape_byte f c out rest = ground (arith, escape-control c rest)

str_from-escape_all :
    (f : ℕ) (s out rest : Bytes)
    → length s < f
    → str_from f out (escape_all s ++ b'"' ∷ rest) ≡ ok (out ++ s, rest)
unfolding escape_all
str_from-escape_all zero s out rest h = absurd (omega arith)
str_from-escape_all (suc f) [] out rest h = unfold str_from in rw append-nil
str_from-escape_all (suc f) (c ∷ s) out rest h = rw append_assoc (
    str_from-escape_byte f c out (escape_all s ++ b'"' ∷ rest)
    ∙ str_from-escape_all f s (out ++ c ∷ []) rest (omega arith)
    ∙ rw append_assoc refl)

length-escape_all : (s : Bytes) → length s ≤ length (escape_all s)
unfolding escape_all
length-escape_all [] = omega arith
length-escape_all (c ∷ s) =
    omega (arith, length-escape_all s, length-append {0} (escape_byte c) (escape_all s), at_least c)
  where
    at_least : (x : ℕ) → 1 ≤ length (escape_byte x)
    at_least x = unfold escape_byte in ground arith

-- A written string is read back, whatever follows it.
pub read_str-escape_all : (s rest : Bytes) → read_str (escape_all s ++ b'"' ∷ rest) ≡ ok (s, rest)
unfolding read_str
read_str-escape_all s rest =
    str_from-escape_all _ s [] rest
      (omega (arith, length-escape_all s, length-append {0} (escape_all s) (b'"' ∷ rest)))

escape_byte-run : (q : Utf8State) (c : ℕ) → utf8_run q (escape_byte c) ≡ utf8_step q c
unfolding utf8_run utf8_step escape_byte hex_lower
escape_byte-run start c = ground arith
escape_byte-run _ c = ground arith

escape_all-run : (q : Utf8State) (s : Bytes) → utf8_run q (escape_all s) ≡ utf8_run q s
unfolding escape_all
escape_all-run q [] = refl
escape_all-run q (c ∷ s) =
    rw (utf8_run-append, escape_byte-run, utf8_run-cons) (escape_all-run (utf8_step q c) s)

-- Escaping keeps a text valid.
pub escape_all-IsText : (s : Bytes) → IsText s → IsText (escape_all s)
escape_all-IsText s h = escape_all-run start s ∙ h

-- What may stand behind a value: the end, a comma or a closing bracket.
abbrev pub is_end : Bytes → Bool
is_end [] = true
is_end (c ∷ s) = c == b',' || c == b'}' || c == b']'

pub span_digits-append :
    (t rest : Bytes)
    → all is_digit t ≡ true
    → is_end rest ≡ true
    → span_digits (t ++ rest) ≡ (t, rest)
unfolding span_digits
span_digits-append [] [] h e = refl
span_digits-append [] (c ∷ rest) h e = ground arith
span_digits-append (c ∷ t) rest h e = ground (arith, span_digits-append t rest)

pub read_number-append :
    (t rest : Bytes)
    → IsNumber t
    → is_end rest ≡ true
    → read_number (t ++ rest) ≡ ok (number t, rest)
unfolding read_number check_number
read_number-append t [] n e =
    rw (span_digits-append t [] n.digits refl)
      (ground (arith, n.not_empty, n.no_leading_zero, n.in_range))
read_number-append t (c ∷ rest) n e =
    rw (span_digits-append t (c ∷ rest) n.digits e)
      (ground (arith, n.not_empty, n.no_leading_zero, n.in_range))
