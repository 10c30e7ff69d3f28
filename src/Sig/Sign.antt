-- ===== src/Sig/Sign.antt =====
-- sig/sig.go: Digest, Fingerprint, Sign, Verify and VerifyDetached. Ed25519 and SHA-256 are the
-- operations of a parameter.
use onym_audit.Prelude.{
  ◌≡◌, Bool, true, [], ◌∷◌, ◌++◌, List, length, AreBytes, Option, none, some, Bytes, codes, Result,
  ok, err, ◌>>=◌, require, bad_signature,
}
use onym_audit.Canon.Value.{Value, Fields, str, object, get, put, delete}
use onym_audit.Canon.Decode.{parse}
use onym_audit.Canon.Encode.{encode, signing_bytes}
use onym_audit.Sig.Hex.{digest_prefix, encode_hex, public, colons}
use onym_audit.Sig.Base64.{encode_base64, decode_signature}

-- crypto/sha256 and crypto/ed25519.
pub record Crypto : Type 0 where
  pub sha256 : Bytes → Bytes
  pub public_key : Bytes → Bytes
  pub ed25519_sign : Bytes → Bytes → Bytes
  pub ed25519_verify : Bytes → Bytes → Bytes → Bool

-- What crypto/ed25519 documents of a private key: the sizes of its public key and signatures, and
-- that its signatures verify.
pub record IsSigner (c : Crypto) (priv : Bytes) : Type 0 where
  pub public_bytes : AreBytes (c.public_key priv)
  pub public_size : length (c.public_key priv) ≡ 32
  pub signature_bytes : (msg : Bytes) → AreBytes (c.ed25519_sign priv msg)
  pub signature_size : (msg : Bytes) → length (c.ed25519_sign priv msg) ≡ 64
  pub verifies :
      (msg : Bytes) → c.ed25519_verify (c.public_key priv) msg (c.ed25519_sign priv msg) ≡ true

abbrev first_eight : Bytes → Bytes
first_eight (a ∷ b ∷ c ∷ d ∷ e ∷ f ∷ g ∷ h ∷ s) = a ∷ b ∷ c ∷ d ∷ e ∷ f ∷ g ∷ h ∷ []
first_eight s = s

abbrev pub text_of : Option Value → Option Bytes
text_of (some (str s)) = some s
text_of _ = none

module _ (c : Crypto) where
  -- Digest
  unfoldable pub digest : Bytes → Bytes
  digest b = digest_prefix ++ encode_hex (c.sha256 b)

  abbrev print_of : Result Bytes → Bytes
  print_of (err e) = codes "invalid"
  print_of (ok pk) = colons (first_eight (c.sha256 pk))

  -- (Key).Fingerprint
  unfoldable pub fingerprint : Bytes → Bytes
  fingerprint k = print_of (public k)

  -- Sign
  unfoldable pub sign : Fields → Bytes → Bytes → Result Bytes
  sign obj name priv = do
    let rest = delete name obj
    msg ← encode (object rest)
    encode (object (put name (str (encode_base64 (c.ed25519_sign priv msg))) rest))

  -- VerifyDetached
  unfoldable pub verify_detached : Bytes → Bytes → Bytes → List Bytes → Result (Unit {0})
  verify_detached raw signature k omit = do
    pk ← public k
    sig_bytes ← decode_signature signature
    msg ← signing_bytes raw omit
    require (c.ed25519_verify pk msg sig_bytes) bad_signature

  abbrev verify_found : Bytes → Bytes → Bytes → Option Bytes → Result (Unit {0})
  verify_found raw name k none = err bad_signature
  verify_found raw name k (some s) = verify_detached raw s k (name ∷ [])

  -- Verify
  unfoldable pub verify : Bytes → Bytes → Bytes → Result (Unit {0})
  verify raw name k = do obj ← parse raw; verify_found raw name k (text_of (get name obj))
