-- ===== src/Hub/Register/Texts.antt =====
-- hub/hub.go: what register reads of a manifest that is stored is what was parsed of it.
use onym_audit.Prelude.{
  ◌≡◌, refl, subst, ◌+◌, not, Bytes, bytes_eq, codes, Result, ok, err, Error, wrap, ◌>>=◌,
  require-eq-ok, >>=-eq-ok,
}
use onym_audit.Canon.Decode.{parse}
use onym_audit.Canon.Value.{Fields}
use onym_audit.Sig.Sign.{Crypto, verify}
use onym_audit.Sig.Time.{Time, after, parse_time}
use onym_audit.Audit.Strict.{check, decode_strict}
use onym_audit.Audit.Fields.{string_field, int_field, struct_field, structs_field, strings_field}
use onym_audit.Audit.Terms.{profile_id, no_ref, decode_ref}
use onym_audit.Audit.Manifest.{
  AuditorManifest, no_methodology, decode_methodology, manifest_shape, decode_manifest,
  validate_manifest, parse_manifest, skew,
}
use onym_audit.Hub.Register.{operator_of, valid_until_of}

wrap-eq-ok {ℓ} : {A : Type ℓ} {a : A} (x : Error) (r : Result A) → wrap x r ≡ ok a → r ≡ ok a
wrap-eq-ok x (ok b) h = h
wrap-eq-ok x (err e) h = cc

-- The two texts of an object.
abbrev HasTexts : Fields → AuditorManifest → Type 0
HasTexts obj m =
    (string_field "operator" obj ≡ ok m.operator)
    × (string_field "validUntil" obj ≡ ok m.valid_until)

abbrev ResultHasTexts : Fields → Result AuditorManifest → Type 0
ResultHasTexts obj (ok m) = HasTexts obj m
ResultHasTexts obj (err e) = ⊥

-- A step of a chain that succeeds, before what follows of it.
through {ℓ κ} :
    {A : Type ℓ} {Q : Type κ} {b : AuditorManifest} (m : Result A)
    (next : A → Result AuditorManifest)
    → (m >>= next) ≡ ok b
    → ((a : A) → m ≡ ok a → next a ≡ ok b → Q)
    → Q
through (ok a) next h k = k a refl h
through (err e) next h k = absurd (cc)

decode_manifest-HasTexts :
    (obj : Fields) (m : AuditorManifest) → decode_manifest obj ≡ ok m → HasTexts obj m
unfolding decode_manifest
decode_manifest-HasTexts obj m h = through (int_field "version" obj) _ h λ x0 _ h0.
    through (string_field "componentId" obj) _ h0 λ x1 _ h1.
      through (string_field "seat" obj) _ h1 λ x2 _ h2.
        through (string_field "operator" obj) _ h2 λ x3 e3 h3.
          through (string_field "displayName" obj) _ h3 λ x4 _ h4.
            through (string_field "contact" obj) _ h4 λ x5 _ h5.
              through (string_field "auditProfileId" obj) _ h5 λ x6 _ h6.
                through (struct_field no_ref decode_ref "auditProfile" obj) _ h6 λ x7 _ h7.
                  through (structs_field no_methodology decode_methodology "methodologies" obj) _ h7
                    λ x8 _ h8.
                      through (struct_field no_ref decode_ref "independencePolicy" obj) _ h8
                        λ x9 _ h9.
                          through (struct_field no_ref decode_ref "unsolicitedPolicy" obj) _ h9
                            λ x10 _ h10.
                              through (struct_field no_ref decode_ref "liability" obj) _ h10
                                λ x11 _ h11.
                                  through (struct_field no_ref decode_ref "severityScale" obj) _ h11
                                    λ x12 _ h12.
                                      through (struct_field no_ref decode_ref "privacyProfile" obj)
                                        _ h12
                                        λ x13 _ h13.
                                          through (string_field "statusEndpoint" obj) _ h13
                                            λ x14 _ h14.
                                              through (string_field "statusKey" obj) _ h14
                                                λ x15 _ h15.
                                                  through (strings_field "offers" obj) _ h15
                                                    λ x16 _ h16.
                                                      through (string_field "validUntil" obj) _ h16
                                                        λ x17 e17 h17.
                                                          through (string_field "signature" obj) _
                                                            h17
                                                            λ x18 _ h18.
                                                            subst (ResultHasTexts obj) h18 (e3, e17)

decode_strict-HasTexts :
    (raw : Bytes) (m : AuditorManifest)
    → decode_strict manifest_shape decode_manifest raw ≡ ok m
    → (obj : Fields) × (parse raw ≡ ok obj) × HasTexts obj m
unfolding decode_strict
decode_strict-HasTexts raw m h =
    let (obj, e, h1) = >>=-eq-ok (parse raw) _ h in
    let (u, _, h2) = >>=-eq-ok (wrap Error.malformed (check manifest_shape obj)) _ h1 in
    (obj, e, decode_manifest-HasTexts obj m (wrap-eq-ok Error.malformed _ h2))

-- What a manifest says of its operator and its end, in its bytes and as it is parsed.
pub parse_manifest-texts :
    (c : Crypto) (raw : Bytes) (now : Time) (m : AuditorManifest)
    → parse_manifest c raw now ≡ ok m
    → (operator_of raw ≡ m.operator) × (valid_until_of raw ≡ m.valid_until)
unfolding parse_manifest operator_of valid_until_of
parse_manifest-texts c raw now m h =
    let w : Error = Error.auditor_manifest_invalid in
    let (x, e, h1) = >>=-eq-ok (wrap w (decode_strict manifest_shape decode_manifest raw)) _ h in
    let (_, h2) =
      require-eq-ok (bytes_eq x.audit_profile_id profile_id) Error.unsupported_profile _ h1 in
    let (_, _, h3) = >>=-eq-ok (wrap w (validate_manifest x)) _ h2 in
    let (_, _, h4) = >>=-eq-ok (wrap w (verify c raw (codes "signature") x.operator)) _ h3 in
    let (until, _, h5) = >>=-eq-ok (wrap w (parse_time x.valid_until)) _ h4 in
    let (_, h6) = require-eq-ok (not (after now (until + skew))) w _ h5 in
    let (obj, p, t) = decode_strict-HasTexts raw x (wrap-eq-ok w _ e) in
    let d : x ≡ m = cc (h6) in
    subst
      (λ (z : AuditorManifest).
        (operator_of raw ≡ z.operator) × (valid_until_of raw ≡ z.valid_until))
      d (rw (p, t.0) refl, rw (p, t.1) refl)
