-- ===== src/Sig/Tests.antt =====
-- The theorems on keys, signatures and times at concrete values.
use onym_audit.Prelude.{
  ℕ, ◌≡◌, ◌↔◌, ◌*◌, ◌/◌, refl, Bool, false, [], ◌∷◌, codes, ok, ◌==◌, Bytes, AreBytes, arith,
}
use onym_audit.Canon.Value.{AreMembers, no_fields, IsDocument}
use onym_audit.Utf8.{IsText, utf8_run, utf8_step}
use onym_audit.Sig.Hex.{key_of}
use onym_audit.Sig.Sign.{Crypto, IsSigner, sign, verify}
use onym_audit.Sig.RoundTrip.{IsSigned, verify-sign, verify_iff}
use onym_audit.Sig.Time.{Time, second, before_year, parse_time, format_time}
use onym_audit.Sig.Time.RoundTrip.{parse_time-format_time}

abbrev zeros : ℕ → Bytes
zeros ℕ.zero = []
zeros (ℕ.suc n) = 0 ∷ zeros n

-- One key for all, and signatures of zero bytes that verify under it alone.
abbrev is_zeros : Bytes → Bool
is_zeros [] = false
is_zeros (c ∷ s) = c == 0

abbrev toy : Crypto
toy = record {
  sha256 = λ _. zeros 32;
  public_key = λ _. zeros 32;
  ed25519_sign = λ _ _. zeros 64;
  ed25519_verify = λ pk _ s. is_zeros pk;
}

zeros-AreBytes : (n : ℕ) → AreBytes (zeros n)
zeros-AreBytes ℕ.zero = tt
zeros-AreBytes (ℕ.suc n) = (omega arith, zeros-AreBytes n)

toy-IsSigner : IsSigner toy []
toy-IsSigner = record {
  public_bytes = zeros-AreBytes 32;
  public_size = refl;
  signature_bytes = λ msg. zeros-AreBytes 64;
  signature_size = λ msg. refl;
  verifies = λ msg. refl;
}

no_members : AreMembers 0 no_fields
unfolding IsDocument
no_members = tt

name-IsText : IsText (codes "signature")
unfolding utf8_run utf8_step
name-IsText = refl

verify-sign_example :
    (raw : Bytes) × (sign toy no_fields (codes "signature") [] ≡ ok raw)
    × (verify toy raw (codes "signature") (key_of (zeros 32)) ≡ ok tt)
verify-sign_example =
    verify-sign toy no_fields (codes "signature") [] no_members name-IsText toy-IsSigner

verify_iff_example :
    (verify toy (codes "{\"signature\":\"x\"}") (codes "signature") (key_of (zeros 32)) ≡ ok tt)
    ↔ IsSigned toy (codes "{\"signature\":\"x\"}") (codes "signature") (key_of (zeros 32))
verify_iff_example =
    verify_iff toy (codes "{\"signature\":\"x\"}") (codes "signature") (key_of (zeros 32))

abbrev leap_day : Time
leap_day = 63876470400 * second

parse_time-format_time_example : parse_time (format_time leap_day) ≡ ok (leap_day / second * second)
unfolding before_year
parse_time-format_time_example = parse_time-format_time leap_day (omega arith)
