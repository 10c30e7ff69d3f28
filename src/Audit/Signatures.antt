-- ===== src/Audit/Signatures.antt =====
-- audit/docs.go: who has signed an accepted order, and which orders an offer answers.
use mathlib.Core.Path.{subst}
use mathlib.Core.List.{Memᴰ}
use onym_audit.Prelude.{
  ◌≡◌, ◌≢◌, sym, All, Bool-cases, require-true, wrap, true, ◌&&◌, not, [], ◌∷◌, List, Bytes, codes,
  bytes_eq, bytes_eq→eq, bytes_eq_iff, ok, arith, ◌⊎◌, inl, inr, &&-cases, >>=-eq-ok, require-eq-ok,
  malformed, plain, ◌==◌,
}
use onym_audit.Sig.Sign.{Crypto, verify_detached}
use onym_audit.Audit.Strict.{member, decode_strict}
use onym_audit.Sig.Hex.{valid_digest}
use onym_audit.UriRule.Check
use onym_audit.Audit.Artifacts.{IsOfKind, wrap-eq-ok, validate_artifact-IsOfKind}
use onym_audit.Audit.Terms.{
  one_of, is_component, is_id, methodology_classes, fee_models, validate_ref, validate_artifact,
}
use onym_audit.Audit.Orders.{
  AuditOrder, OrderSignature, order_shape, decode_order, auditor_role, subject_role, sponsor_role,
  check_signatures, check_terms, parse_order,
}

pub data IsAmong (s : OrderSignature) : List OrderSignature → Type 0 where
  here : {ss : List OrderSignature} → IsAmong s (s ∷ ss)
  there : {x : OrderSignature} {ss : List OrderSignature} → IsAmong s ss → IsAmong s (x ∷ ss)

-- One of the signatures is of the role, over the bytes without the signatures; a sponsor's is by
-- the sponsor's key.
pub record HasSigned (c : Crypto) (raw : Bytes) (sponsor : Bytes) (ss : List OrderSignature)
    (role : Bytes) : Type 0 where
  pub by : OrderSignature
  pub listed : IsAmong by ss
  pub in_role : by.role ≡ role
  pub verified : verify_detached c raw by.signature by.key (codes "signatures" ∷ []) ≡ ok tt
  pub sponsor_key : role ≡ sponsor_role → by.key ≡ sponsor

HasSigned-there :
    {c : Crypto} {raw sponsor : Bytes} {x : OrderSignature} {ss : List OrderSignature}
    {role : Bytes}
    → HasSigned c raw sponsor ss role
    → HasSigned c raw sponsor (x ∷ ss) role
HasSigned-there h = record {
  by = h.by;
  listed = there h.listed;
  in_role = h.in_role;
  verified = h.verified;
  sponsor_key = h.sponsor_key;
}

ok-eq : (k o : AuditOrder) → ok k ≡ ok o → k ≡ o
ok-eq k o h = cc

one_of-nil : (k : Bytes) (ks : List Bytes) → ok [] ≡ ok ks → one_of k ks ≢ true
unfolding one_of member
one_of-nil k ks h e = ground arith

one_of-cons :
    (k r : Bytes) (rest ks : List Bytes)
    → ok (r ∷ rest) ≡ ok ks
    → one_of k ks ≡ true
    → (k ≡ r) ⊎ (one_of k rest ≡ true)
unfolding one_of member
one_of-cons k r rest ks h e = ground (arith, bytes_eq→eq k r)

sponsor_key-of :
    (role key sponsor : Bytes)
    → not (bytes_eq role sponsor_role && not (bytes_eq key sponsor)) ≡ true
    → role ≡ sponsor_role
    → key ≡ sponsor
sponsor_key-of role key sponsor h e =
    bytes_eq→eq key sponsor (ground (arith, (bytes_eq_iff role sponsor_role).1 e))

check_signatures-HasSigned :
    (c : Crypto) (raw sponsor : Bytes) (roles : List Bytes) (ss : List OrderSignature)
    (signed : List Bytes)
    → check_signatures c raw sponsor roles ss ≡ ok signed
    → (role : Bytes) → one_of role signed ≡ true
    → HasSigned c raw sponsor ss role
unfolding check_signatures one_of member
check_signatures-HasSigned c raw sponsor roles [] signed h role k =
    absurd (one_of-nil role signed h k)
check_signatures-HasSigned c raw sponsor roles (s ∷ ss) signed h role k =
    let (_, h1) = require-eq-ok (one_of s.role roles) malformed _ h in
    let (_, v, h2) =
      >>=-eq-ok (verify_detached c raw s.signature s.key (codes "signatures" ∷ [])) _ h1 in
    let (w, h3) =
      require-eq-ok (not (bytes_eq s.role sponsor_role && not (bytes_eq s.key sponsor))) plain _
        h2 in
    let (rest, r, h4) = >>=-eq-ok (check_signatures c raw sponsor roles ss) _ h3 in
    elim (one_of-cons role s.role rest signed h4 k) [
      | inl e ↦ record {
        by = s;
        listed = here;
        in_role = sym e;
        verified = v;
        sponsor_key = λ is_sponsor. sponsor_key-of s.role s.key sponsor w (cc);
      }
      | inr among ↦
          HasSigned-there (check_signatures-HasSigned c raw sponsor roles ss rest r role among)
    ]

-- A signature of one of the three roles, which verifies over the bytes without the signatures under
-- the key that it names; a sponsor's names the sponsor's key.
pub record IsSignature (c : Crypto) (raw sponsor : Bytes) (s : OrderSignature) : Type 0 where
  pub known : (s.role ≡ auditor_role) ⊎ ((s.role ≡ subject_role) ⊎ (s.role ≡ sponsor_role))
  pub verified : verify_detached c raw s.signature s.key (codes "signatures" ∷ []) ≡ ok tt
  pub sponsor_key : s.role ≡ sponsor_role → s.key ≡ sponsor

one_of-three : (s a b d : Bytes) → one_of s (a ∷ b ∷ d ∷ []) ≡ true → (s ≡ a) ⊎ ((s ≡ b) ⊎ (s ≡ d))
unfolding one_of member
one_of-three s a b d h = ground (arith, bytes_eq→eq s a, bytes_eq→eq s b, bytes_eq→eq s d)

check_signatures-all :
    (c : Crypto) (raw sponsor : Bytes) (ss : List OrderSignature) (signed : List Bytes)
    → check_signatures c raw sponsor (auditor_role ∷ subject_role ∷ sponsor_role ∷ []) ss
      ≡ ok signed
    → All (IsSignature c raw sponsor) ss
unfolding check_signatures
check_signatures-all c raw sponsor [] signed h = tt
check_signatures-all c raw sponsor (s ∷ ss) signed h =
    let roles = auditor_role ∷ subject_role ∷ sponsor_role ∷ [] in
    let (m, h1) = require-eq-ok (one_of s.role roles) malformed _ h in
    let (_, v, h2) =
      >>=-eq-ok (verify_detached c raw s.signature s.key (codes "signatures" ∷ [])) _ h1 in
    let (w, h3) =
      require-eq-ok (not (bytes_eq s.role sponsor_role && not (bytes_eq s.key sponsor))) plain _
        h2 in
    let (rest, r, _) = >>=-eq-ok (check_signatures c raw sponsor roles ss) _ h3 in
    (
      record {
        known = one_of-three s.role auditor_role subject_role sponsor_role m;
        verified = v;
        sponsor_key = sponsor_key-of s.role s.key sponsor w;
      },
      check_signatures-all c raw sponsor ss rest r,
    )

-- The terms of an order: an artifact as its kind asks, at a URI that the rule accepts, a class of
-- methodology and a fee of the closed vocabulary, and a scope with an accepted URI and a digest.
pub record HasTerms (o : AuditOrder) : Type 0 where
  pub source : Check.check o.artifact.source ≡ ok tt
  pub artifact : IsOfKind o.artifact
  pub methodology : Memᴰ o.methodology_class methodology_classes
  pub fee : Memᴰ o.fee.model fee_models
  pub scope : Check.check o.scope.uri ≡ ok tt
  pub scope_digest : valid_digest o.scope.digest ≡ true

one_of-Mem : (s : Bytes) (ss : List Bytes) → one_of s ss ≡ true → Memᴰ s ss
unfolding one_of member
one_of-Mem s [] h = absurd (cc)
one_of-Mem s (x ∷ xs) h = elim (Bool-cases (bytes_eq s x)) [
  | inl e ↦ Memᴰ.head (bytes_eq→eq s x e)
  | inr e ↦ Memᴰ.tail (one_of-Mem s xs (ground arith))
]

check_terms-HasTerms : (o : AuditOrder) → check_terms o ≡ ok tt → HasTerms o
unfolding check_terms validate_ref
check_terms-HasTerms o h =
    let (_, a, h1) = >>=-eq-ok (wrap malformed (validate_artifact o.artifact)) _ h in
    let (u, k) = validate_artifact-IsOfKind o.artifact (wrap-eq-ok malformed _ a) in
    let (m, h2) =
      require-eq-ok
        (one_of o.methodology_class methodology_classes && one_of o.fee.model fee_models) malformed
        _ h1 in
    let (m1, m2) = &&-cases (one_of o.methodology_class methodology_classes) _ m in
    let (_, s, d) = >>=-eq-ok (Check.check o.scope.uri) _ (wrap-eq-ok malformed _ h2) in
    record {
      source = u;
      artifact = k;
      methodology = one_of-Mem _ _ m1;
      fee = one_of-Mem _ _ m2;
      scope = s;
      scope_digest = require-true _ plain d;
    }

-- What an accepted order promises.
pub record IsOrder (c : Crypto) (raw : Bytes) (o : AuditOrder) : Type 0 where
  pub read : decode_strict order_shape decode_order raw ≡ ok o
  pub version : o.order_version ≡ 1
  pub terms : HasTerms o
  pub every : All (IsSignature c raw o.sponsor) o.signatures
  pub auditor_role_signed : HasSigned c raw o.sponsor o.signatures auditor_role
  pub subject_role_signed : HasSigned c raw o.sponsor o.signatures subject_role
  pub sponsor_signed : HasSigned c raw o.sponsor o.signatures sponsor_role

-- An order that ParseOrder accepts is the strict reading of its bytes and of version 1; its artifact
-- is as its kind asks and at a URI that the rule accepts, its class of methodology and its fee are of
-- the closed vocabulary, and its scope has a URI that the rule accepts and a digest. Each of its
-- signatures is of one of the roles auditor, subject and sponsor and verifies, over the bytes without
-- the signatures, under the key that the signature names; each role has one, and a sponsor's names
-- the key that the order gives for the sponsor. Whose the keys of the other two roles are is not
-- said.
pub parse_order-IsOrder :
    (c : Crypto) (raw : Bytes) (o : AuditOrder) → parse_order c raw ≡ ok o → IsOrder c raw o
unfolding parse_order
parse_order-IsOrder c raw o h =
    let (k, read, h1) = >>=-eq-ok (decode_strict order_shape decode_order raw) _ h in
    let (vs, h2) = require-eq-ok (k.order_version == 1 && is_id k.order_id) malformed _ h1 in
    let (_, h3) = require-eq-ok (is_component k.auditor && is_component k.subject) malformed _ h2 in
    let (_, terms, h4) = >>=-eq-ok (check_terms k) _ h3 in
    let (signed, sigs, h5) =
      >>=-eq-ok
        (check_signatures c raw k.sponsor (auditor_role ∷ subject_role ∷ sponsor_role ∷ [])
          k.signatures)
        _ h4 in
    let (all_three, h6) =
      require-eq-ok
        (one_of auditor_role signed && one_of subject_role signed && one_of sponsor_role signed)
        malformed _ h5 in
    let (first_two, sponsor) =
      &&-cases (one_of auditor_role signed && one_of subject_role signed) _ all_three in
    let (auditor, subject) = &&-cases (one_of auditor_role signed) _ first_two in
    let has = check_signatures-HasSigned c raw k.sponsor _ k.signatures signed sigs in
    subst (λ (x : AuditOrder). IsOrder c raw x) (ok-eq k o h6)
      (record {
        read = read;
        version = ground (arith, vs);
        terms = check_terms-HasTerms k terms;
        every = check_signatures-all c raw k.sponsor k.signatures signed sigs;
        auditor_role_signed = has auditor_role auditor;
        subject_role_signed = has subject_role subject;
        sponsor_signed = has sponsor_role sponsor;
      })
