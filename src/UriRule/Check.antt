-- ===== src/UriRule/Check.antt =====
-- urirule/urirule.go: Check.
use onym_audit.Prelude.{
  ◌≤◌, ◌≡◌, ◌↔◌, refl, Bool, true, false, ◌||◌, not, [], ◌∷◌, arith, ltb, ◌==◌, length, all, Bytes,
  codes, Option, none, some, Result, ok, err, uri_rule, ◌>>◌, require, require-eq-ok,
}
use onym_audit.UriRule.Host.{
  contains, fold_prefix, drop_prefix, authority_of, parse_host, trim_dot, to_lower, labels,
  last_label, numeric_label, numeric_host, is_ipv4, is_ipv4-numeric_host, contains_dot_iff,
}

abbrev pub scheme : Bytes
scheme = codes "https://"

abbrev pub starts_bracket : Bytes → Bool
starts_bracket [] = false
starts_bracket (c ∷ s) = c == b'['

-- The part of `Check` on the host that the URI library returns.
unfoldable pub check_host : Option Bytes → Result (Unit {0})
check_host none = err uri_rule
check_host (some []) = err uri_rule
check_host (some (c ∷ s)) =
    let host = to_lower (trim_dot (c ∷ s)) in
    do
      require (all (λ x. ltb x 0x80) host) uri_rule
      require (not (is_ipv4 host || numeric_host host)) uri_rule
      require (not (numeric_label (last_label (labels host)))) uri_rule
      require (contains b'.' host) uri_rule

unfoldable pub check : Bytes → Result (Unit {0})
check raw = do
  require (fold_prefix scheme raw) uri_rule
  let rest = drop_prefix scheme raw
  let authority = authority_of rest
  require (not (contains b'@' authority)) uri_rule
  require (not (starts_bracket authority)) uri_rule
  require (not (contains b':' authority)) uri_rule
  require (not (contains b'?' rest || contains b'#' rest)) uri_rule
  check_host (parse_host raw rest)

-- What an accepted URI is.
pub record IsAccepted (raw : Bytes) : Type 0 where
  pub host : Bytes
  pub https : fold_prefix scheme raw ≡ true
  pub no_userinfo : contains b'@' (authority_of (drop_prefix scheme raw)) ≡ false
  pub no_port : contains b':' (authority_of (drop_prefix scheme raw)) ≡ false
  pub no_bracket : starts_bracket (authority_of (drop_prefix scheme raw)) ≡ false
  pub no_query : contains b'?' (drop_prefix scheme raw) ≡ false
  pub no_fragment : contains b'#' (drop_prefix scheme raw) ≡ false
  pub parsed : parse_host raw (drop_prefix scheme raw) ≡ some host
  pub ascii : all (λ x. ltb x 0x80) (to_lower (trim_dot host)) ≡ true
  pub no_address : numeric_host (to_lower (trim_dot host)) ≡ false
  pub named : numeric_label (last_label (labels (to_lower (trim_dot host)))) ≡ false
  pub dotted : 2 ≤ length (labels (to_lower (trim_dot host)))

-- The host part of such a URI.
record IsName (h : Bytes) : Type 0 where
  ascii : all (λ x. ltb x 0x80) (to_lower (trim_dot h)) ≡ true
  no_address : numeric_host (to_lower (trim_dot h)) ≡ false
  named : numeric_label (last_label (labels (to_lower (trim_dot h)))) ≡ false
  dotted : contains b'.' (to_lower (trim_dot h)) ≡ true

check_host-ok : (o : Option Bytes) → check_host o ≡ ok tt → (h : Bytes) × (o ≡ some h) × IsName h
unfolding check_host
check_host-ok none h = absurd (cc)
check_host-ok (some []) h = absurd (cc)
check_host-ok (some (c ∷ s)) h = (c ∷ s, refl, ground arith)

IsName-check_host : (h : Bytes) → IsName h → check_host (some h) ≡ ok tt
unfolding check_host
IsName-check_host [] n = absurd (cc (n.dotted, empty))
  where
    empty : contains b'.' (to_lower (trim_dot [])) ≡ false
    empty = unfold to_lower trim_dot in refl
IsName-check_host (c ∷ s) n = ground (
  arith,
  n.ascii,
  n.no_address,
  n.named,
  n.dotted,
  is_ipv4-numeric_host (to_lower (trim_dot (c ∷ s))),
)

check-IsAccepted : (raw : Bytes) → check raw ≡ ok tt → IsAccepted raw
unfolding check
check-IsAccepted raw h =
    let rest = drop_prefix scheme raw in
    let auth = authority_of rest in
    let (e1, h1) = require-eq-ok (fold_prefix scheme raw) uri_rule _ h in
    let (e2, h2) = require-eq-ok (not (contains b'@' auth)) uri_rule _ h1 in
    let (e3, h3) = require-eq-ok (not (starts_bracket auth)) uri_rule _ h2 in
    let (e4, h4) = require-eq-ok (not (contains b':' auth)) uri_rule _ h3 in
    let (e5, h5) = require-eq-ok (not (contains b'?' rest || contains b'#' rest)) uri_rule _ h4 in
    let (host, e6, n) = check_host-ok _ h5 in
    record {
      host = host;
      https = e1;
      no_userinfo = ground arith;
      no_port = ground arith;
      no_bracket = ground arith;
      no_query = ground arith;
      no_fragment = ground arith;
      parsed = e6;
      ascii = n.ascii;
      no_address = n.no_address;
      named = n.named;
      dotted = ground (arith, contains_dot_iff (to_lower (trim_dot host)), n.dotted);
    }

IsAccepted-check : (raw : Bytes) → IsAccepted raw → check raw ≡ ok tt
unfolding check
IsAccepted-check raw a =
    rw (a.https, a.no_userinfo, a.no_bracket, a.no_port, a.no_query, a.no_fragment, a.parsed)
      (IsName-check_host a.host (record {
        ascii = a.ascii;
        no_address = a.no_address;
        named = a.named;
        dotted = ground (arith, contains_dot_iff (to_lower (trim_dot a.host)), a.dotted);
      }))

-- A URI is accepted exactly when it is https, with neither userinfo, port, leading bracket, query
-- nor fragment, and its host, in lower case and without a final dot, is ASCII, of two labels or more,
-- with a last label that is not numeric, and is no IPv4 address in any numeric form.
pub check_iff : (raw : Bytes) → (check raw ≡ ok tt) ↔ IsAccepted raw
check_iff raw = (check-IsAccepted raw, IsAccepted-check raw)
