-- ===== src/Audit/Offers.antt =====
-- audit/docs.go: offers, and the orders that take them.
use onym_audit.Prelude.{
  ℕ, Bool, true, false, ◌&&◌, not, [], ◌∷◌, ◌==◌, length, Bytes, codes, bytes_eq, if◌then◌else◌,
  Option, none, some, Result, ok, err, plain, malformed, ◌>>=◌, ◌>>◌, require,
}
use onym_audit.Canon.Value
use onym_audit.Sig.Sign.{Crypto, verify}
use onym_audit.Sig.Time.{Time, parse_time, before}
use onym_audit.Audit.Strict.{Shape, shape, leaf, nest, names, decode_strict}
use onym_audit.Audit.Fields.{string_field, string?_field, int_field, int?_field, struct_field}
use onym_audit.Audit.Terms.{
  methodology_classes, one_of, is_component, is_offer_id, DocRef, no_ref, ref_shape, decode_ref,
  validate_ref, Disclosure, no_disclosure, disclosure_shape, decode_disclosure, same_disclosure,
  is_none,
}
use onym_audit.Audit.Orders.{AuditOrder}

pub record OfferFee : Type 0 where
  pub model : Bytes
  pub amount : Option ℕ
  pub currency : Option Bytes

abbrev pub no_offer_fee : OfferFee
no_offer_fee = record { model = []; amount = none; currency = none }

abbrev pub offer_fee_shape : Shape
offer_fee_shape = shape (names ("model" ∷ "amount" ∷ "currency" ∷ [])) [] leaf

unfoldable pub decode_offer_fee : Value.Fields → Result OfferFee
decode_offer_fee obj = do
  x0 ← string_field "model" obj
  x1 ← int?_field "amount" obj
  x2 ← string?_field "currency" obj
  ok (record { model = x0; amount = x1; currency = x2 })

pub record Offer : Type 0 where
  pub offer_version : ℕ
  pub offer_id : Bytes
  pub auditor : Bytes
  pub auditor_key : Bytes
  pub methodology_class : Bytes
  pub scope : DocRef
  pub fee : OfferFee
  pub timeline_days : ℕ
  pub disclosure : Disclosure
  pub valid_until : Bytes
  pub signature : Bytes

abbrev pub offer_shape : Shape
offer_shape =
    shape
      (names (
        "offerVersion" ∷ "offerId" ∷ "auditor" ∷ "auditorKey" ∷ "methodologyClass" ∷ "scope" ∷ "fee"
        ∷ "timelineDays" ∷ "disclosure" ∷ "validUntil" ∷ "signature" ∷ []))
      []
      (nest (codes "scope") ref_shape
        (nest (codes "fee") offer_fee_shape (nest (codes "disclosure") disclosure_shape leaf)))

unfoldable pub decode_offer : Value.Fields → Result Offer
decode_offer obj = do
  x0 ← int_field "offerVersion" obj
  x1 ← string_field "offerId" obj
  x2 ← string_field "auditor" obj
  x3 ← string_field "auditorKey" obj
  x4 ← string_field "methodologyClass" obj
  x5 ← struct_field no_ref decode_ref "scope" obj
  x6 ← struct_field no_offer_fee decode_offer_fee "fee" obj
  x7 ← int_field "timelineDays" obj
  x8 ← struct_field no_disclosure decode_disclosure "disclosure" obj
  x9 ← string_field "validUntil" obj
  x10 ← string_field "signature" obj
  ok (record {
    offer_version = x0;
    offer_id = x1;
    auditor = x2;
    auditor_key = x3;
    methodology_class = x4;
    scope = x5;
    fee = x6;
    timeline_days = x7;
    disclosure = x8;
    valid_until = x9;
    signature = x10;
  })

abbrev no_amount : Option ℕ → Bool
no_amount none = true
no_amount (some n) = false

abbrev is_currency : Option Bytes → Bool
is_currency none = false
is_currency (some s) = length s == 3

-- The switch on an offer's fee model; a decoded amount is not negative.
unfoldable pub check_fee : OfferFee → Result (Unit {0})
check_fee fee =
    if bytes_eq fee.model (codes "pro-bono")
    then require (no_amount fee.amount && is_none fee.currency) malformed
    else if bytes_eq fee.model (codes "fixed-verdict-independent")
    then require (not (no_amount fee.amount) && is_currency fee.currency) malformed
    else err malformed

-- ParseOffer
unfoldable pub parse_offer : Crypto → Bytes → Result Offer
unfolding check_fee
parse_offer c raw = do
  o ← decode_strict offer_shape decode_offer raw
  require
      (o.offer_version == 1
        && is_offer_id o.offer_id
        && is_component o.auditor
        && one_of o.methodology_class methodology_classes)
      malformed
  validate_ref o.scope
  check_fee o.fee
  _ ← parse_time o.valid_until
  verify c raw (codes "signature") o.auditor_key
  ok o

-- OrderMatchesOffer
unfoldable pub order_matches_offer : AuditOrder → Offer → Time → Result (Unit {0})
order_matches_offer o offer now = do
  until ← parse_time offer.valid_until
  require (bytes_eq o.fee.offer_id offer.offer_id) plain
  require (bytes_eq o.auditor offer.auditor) plain
  require (before now until) plain
  require (bytes_eq o.methodology_class offer.methodology_class) plain
  require (bytes_eq o.fee.model offer.fee.model) plain
  require (same_disclosure o.disclosure offer.disclosure) plain
