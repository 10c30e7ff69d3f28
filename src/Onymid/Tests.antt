-- ===== src/Onymid/Tests.antt =====
-- The account ID of a key.
use onym_audit.Prelude.{ℕ, ◌≡◌, refl, [], ◌∷◌, ◌++◌, Bytes, AreBytes, codes, ok, arith}
use onym_audit.Onymid.{
  xor, crc_bits, crc_bytes, crc16, encode_base32, char32, account_id, parse_account_id,
}
use onym_audit.Onymid.RoundTrip.{parse_account_id-account_id}

abbrev sevens : ℕ → Bytes
sevens ℕ.zero = []
sevens (ℕ.suc n) = 7 ∷ sevens n

abbrev zeros : ℕ → Bytes
zeros ℕ.zero = []
zeros (ℕ.suc n) = 0 ∷ zeros n

sevens-AreBytes : (n : ℕ) → AreBytes (sevens n)
sevens-AreBytes ℕ.zero = tt
sevens-AreBytes (ℕ.suc n) = (omega arith, sevens-AreBytes n)

-- The account ID of the key of zeros, as Stellar's documentation gives it.
account_zero :
    account_id (zeros 32) ≡ codes "GAAAAAAAAAAAAAAAAAAAAAAAAAAAAAAAAAAAAAAAAAAAAAAAAAAAAWHF"
unfolding xor crc_bits crc_bytes crc16 encode_base32 account_id
account_zero = refl

parse_account_id-account_id_example :
    (parse_account_id (account_id (sevens 32)) ≡ ok (sevens 32))
    × (parse_account_id (account_id (sevens 32) ++ char32 3 ∷ []) ≡ ok (sevens 32))
parse_account_id-account_id_example =
    parse_account_id-account_id (sevens 32) 3 (sevens-AreBytes 32) refl (omega arith)
