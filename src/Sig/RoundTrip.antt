-- ===== src/Sig/RoundTrip.antt =====
-- sig/sig.go: what Sign publishes, Verify accepts under the signer's key; what Verify accepts is
-- signed over the document's members.
use mathlib.Core.Option
use onym_audit.Prelude.{
  ◌≡◌, ◌↔◌, refl, ap, ◌∙◌, true, [], ◌∷◌, List, arith, some, Bytes, bytes_eq_refl, ok, >>=-eq-ok,
  require-true,
}
use onym_audit.Utf8.{IsText}
use onym_audit.Canon.Value.{Fields, str, get, put, delete, IsDocument, AreMembers}
use onym_audit.Canon.Value.Maps.{
  delete-AreMembers, put-AreMembers, get-put, delete-put, has_key-delete_self,
}
use onym_audit.Canon.Decode.{parse}
use onym_audit.Canon.Encode.{signing_bytes, delete_all}
use onym_audit.Canon.Encode.Sort.{sort_value, sort_fields}
use onym_audit.Canon.Encode.Order.{sort_fields-delete-sort_fields}
use onym_audit.Canon.RoundTrip.Documents.{canonical, encode-canonical}
use onym_audit.Canon.RoundTrip.Signing.{
  signing_bytes_total, parse-canonical, get-sort_fields, canonical_of,
}
use onym_audit.Sig.Hex.{public, key_of, public-key_of}
use onym_audit.Sig.Base64.{
  encode_base64, decode_signature, decode_signature-encode_base64, encode_base64-IsText,
}
use onym_audit.Sig.Sign.{Crypto, IsSigner, sign, verify, verify_detached}

module _ (c : Crypto) where
  -- The object that `sign` publishes.
  unfoldable pub signed : Fields → Bytes → Bytes → Fields
  signed obj name priv =
      put name (str (encode_base64 (c.ed25519_sign priv (canonical (delete name obj)))))
        (delete name obj)

  pub signed-AreMembers :
      (obj : Fields) (name priv : Bytes)
      → AreMembers 0 obj
      → IsText name
      → IsSigner c priv
      → AreMembers 0 (signed obj name priv)
  unfolding signed
  signed-AreMembers obj name priv m t s =
      put-AreMembers 0 name _ (delete name obj) (has_key-delete_self 0 name obj m) t
        (unfold IsDocument in (omega arith, encode_base64-IsText _ (s.signature_bytes _)))
        (delete-AreMembers 0 name obj m)

  pub sign-signed :
      (obj : Fields) (name priv : Bytes)
      → AreMembers 0 obj
      → IsText name
      → IsSigner c priv
      → sign c obj name priv ≡ ok (canonical (signed obj name priv))
  unfolding sign
  sign-signed obj name priv m t s =
      rw (encode-canonical (delete name obj) (delete-AreMembers 0 name obj m)) (
        unfold signed in
        encode-canonical (signed obj name priv) (signed-AreMembers obj name priv m t s))

  found_signature :
      (obj : Fields) (name priv : Bytes)
      → AreMembers 0 obj
      → IsText name
      → IsSigner c priv
      → get name (sort_fields (signed obj name priv))
        ≡ some (str (encode_base64 (c.ed25519_sign priv (canonical (delete name obj)))))
  found_signature obj name priv m t s =
      get-sort_fields 0 name (signed obj name priv) (signed-AreMembers obj name priv m t s) ∙ shown
    where
      leaf : (b : Bytes) → Option.map sort_value (some (str b)) ≡ some (str b)
      leaf b = unfold sort_value in refl

      shown :
          Option.map sort_value (get name (signed obj name priv))
          ≡ some (str (encode_base64 (c.ed25519_sign priv (canonical (delete name obj)))))
      shown = unfold signed in rw (get-put name name, bytes_eq_refl name) (leaf _)

  message :
      (obj : Fields) (name priv : Bytes)
      → AreMembers 0 obj
      → IsText name
      → IsSigner c priv
      → canonical (delete_all (name ∷ []) (sort_fields (signed obj name priv)))
        ≡ canonical (delete name obj)
  message obj name priv m t s =
      unfold delete_all in
      canonical_of _ _ (
        sort_fields-delete-sort_fields 0 name (signed obj name priv)
          (signed-AreMembers obj name priv m t s)
        ∙ ap sort_fields without)
    where
      without : delete name (signed obj name priv) ≡ delete name obj
      without =
          unfold signed in delete-put name _ (delete name obj) (has_key-delete_self 0 name obj m)

  -- An object as the parser returns them (no deeper than its limit, with distinct keys, texts of valid
  -- UTF-8 and numbers in their one form) is signed by `Sign`, with a private key that signs as
  -- Ed25519 does and under a name of valid UTF-8, and what `Sign` publishes verifies under that name
  -- and the key's identifier.
  pub verify-sign :
      (obj : Fields) (name priv : Bytes)
      → AreMembers 0 obj
      → IsText name
      → IsSigner c priv
      → (raw : Bytes) × (sign c obj name priv ≡ ok raw)
        × (verify c raw name (key_of (c.public_key priv)) ≡ ok tt)
  unfolding verify
  verify-sign obj name priv m t s = (
    canonical (signed obj name priv),
    sign-signed obj name priv m t s,
    rw
        (
          parse-canonical (signed obj name priv) (signed-AreMembers obj name priv m t s),
          found_signature obj name priv m t s,
        )
        (unfold verify_detached in
          rw
            (
              public-key_of (c.public_key priv) s.public_bytes s.public_size,
              decode_signature-encode_base64 _ (s.signature_bytes _) (s.signature_size _),
              signing_bytes_total (canonical (signed obj name priv)) (name ∷ []) _
                  (parse-canonical (signed obj name priv) (signed-AreMembers obj name priv m t s)),
            )
            (rw (message obj name priv m t s, s.verifies (canonical (delete name obj))))),
  )

  -- What an accepted signature stands for: the document parses to an object with a text in the
  -- signature's field, which decodes to a 64-byte Ed25519 signature by the key over the canonical
  -- bytes of the object without that field.
  pub record IsSigned (raw name k : Bytes) : Type 0 where
    pub members : Fields
    pub text : Bytes
    pub pk : Bytes
    pub sig_bytes : Bytes
    pub parsed : parse raw ≡ ok members
    pub found : get name members ≡ some (str text)
    pub key : public k ≡ ok pk
    pub decoded : decode_signature text ≡ ok sig_bytes
    pub checked : c.ed25519_verify pk (canonical (delete name members)) sig_bytes ≡ true

  verify_detached-ok :
      (raw text k : Bytes) (omit : List Bytes)
      → verify_detached c raw text k omit ≡ ok tt
      → (pk : Bytes) × (sb : Bytes) × (msg : Bytes) × (public k ≡ ok pk)
        × (decode_signature text ≡ ok sb)
        × (signing_bytes raw omit ≡ ok msg)
        × (c.ed25519_verify pk msg sb ≡ true)
  unfolding verify_detached
  verify_detached-ok raw text k omit h =
      let (pk, e1, h1) = >>=-eq-ok (public k) _ h in
      let (sb, e2, h2) = >>=-eq-ok (decode_signature text) _ h1 in
      let (msg, e3, h3) = >>=-eq-ok (signing_bytes raw omit) _ h2 in
      (pk, sb, msg, e1, e2, e3, require-true _ _ h3)

  verify-ok :
      (raw name k : Bytes)
      → verify c raw name k ≡ ok tt
      → (fs : Fields) × (text : Bytes) × (parse raw ≡ ok fs)
        × (get name fs ≡ some (str text))
        × (verify_detached c raw text k (name ∷ []) ≡ ok tt)
  unfolding verify
  verify-ok raw name k h = let (fs, e, h1) = >>=-eq-ok (parse raw) _ h in ground arith

  verify-IsSigned : (raw name k : Bytes) → verify c raw name k ≡ ok tt → IsSigned raw name k
  verify-IsSigned raw name k h =
      let (fs, text, e1, e2, h1) = verify-ok raw name k h in
      let (pk, sb, msg, e3, e4, e5, e6) = verify_detached-ok raw text k (name ∷ []) h1 in
      record {
        members = fs;
        text = text;
        pk = pk;
        sig_bytes = sb;
        parsed = e1;
        found = e2;
        key = e3;
        decoded = e4;
        checked = same fs msg pk sb e6 (cc (e5, signing_bytes_total raw (name ∷ []) fs e1));
      }
    where
      same :
          (fs : Fields) (msg pk sb : Bytes)
          → c.ed25519_verify pk msg sb ≡ true
          → msg ≡ canonical (delete_all (name ∷ []) fs)
          → c.ed25519_verify pk (canonical (delete name fs)) sb ≡ true
      same fs msg pk sb h e = unfold delete_all in (rw e at h)

  IsSigned-verify : (raw name k : Bytes) → IsSigned raw name k → verify c raw name k ≡ ok tt
  unfolding verify verify_detached
  IsSigned-verify raw name k s =
      rw
        (
          s.parsed,
          s.found,
          s.key,
          s.decoded,
          signing_bytes_total raw (name ∷ []) s.members s.parsed,
        )
        (unfold delete_all in rw s.checked)

  -- `Verify` accepts exactly the documents that are signed in this sense.
  pub verify_iff : (raw name k : Bytes) → (verify c raw name k ≡ ok tt) ↔ IsSigned raw name k
  verify_iff raw name k = (verify-IsSigned raw name k, IsSigned-verify raw name k)
