-- ===== src/Audit/Matching.antt =====
-- audit/docs.go: which orders an offer answers.
use onym_audit.Prelude.{
  ◌≡◌, refl, sym, Bool, true, false, ◌&&◌, not, bytes_eq, bytes_eq→eq, bytes_eq_refl, bytes_eq_iff,
  ok, arith, &&-cases, >>=-eq-ok, require-eq-ok, require-true, plain, ◌==◌, ==_iff, ◌↔◌, ◌<◌,
  ltb→lt, lt→ltb, if◌then◌else◌,
}
use onym_audit.Sig.Time.{Time, parse_time, before}
use onym_audit.Audit.Terms.{Disclosure, same_disclosure}
use onym_audit.Audit.Orders.{AuditOrder}
use onym_audit.Audit.Offers.{Offer, order_matches_offer}

-- The order takes the offer while it is valid, on the offer's terms.
pub record IsAnswer (o : AuditOrder) (offer : Offer) (now : Time) : Type 0 where
  pub until : Time
  pub until_read : parse_time offer.valid_until ≡ ok until
  pub in_time : now < until
  pub same_offer : o.fee.offer_id ≡ offer.offer_id
  pub same_auditor : o.auditor ≡ offer.auditor
  pub same_methodology : o.methodology_class ≡ offer.methodology_class
  pub same_model : o.fee.model ≡ offer.fee.model
  pub same_terms : o.disclosure ≡ offer.disclosure

same_bool : (a b : Bool) → (if a then b else not b) ≡ true → a ≡ b
same_bool true b h = sym h
same_bool false b h = ground arith

same_disclosure→eq : (a b : Disclosure) → same_disclosure a b ≡ true → a ≡ b
unfolding same_disclosure
same_disclosure→eq a b h =
    let (h1, h2) =
      &&-cases
        ((if a.findings_to_subject_first
            then b.findings_to_subject_first
            else not b.findings_to_subject_first)
          && a.embargo_days == b.embargo_days
          && bytes_eq a.attestation_publication b.attestation_publication)
        _ h in
    let (h3, h4) =
      &&-cases
        ((if a.findings_to_subject_first
            then b.findings_to_subject_first
            else not b.findings_to_subject_first)
          && a.embargo_days == b.embargo_days)
        _ h1 in
    let (h5, h6) =
      &&-cases
        (if a.findings_to_subject_first
          then b.findings_to_subject_first
          else not b.findings_to_subject_first)
        _ h3 in
    cc (
      same_bool a.findings_to_subject_first b.findings_to_subject_first h5,
      (==_iff a.embargo_days b.embargo_days).0 h6,
      bytes_eq→eq a.attestation_publication b.attestation_publication h4,
      bytes_eq→eq a.fail_publication b.fail_publication h2,
    )

same_disclosure_refl : (a : Disclosure) → same_disclosure a a ≡ true
unfolding same_disclosure
same_disclosure_refl a =
    ground (arith, bytes_eq_refl a.attestation_publication, bytes_eq_refl a.fail_publication)

matches→IsAnswer :
    (o : AuditOrder) (offer : Offer) (now : Time)
    → order_matches_offer o offer now ≡ ok tt
    → IsAnswer o offer now
unfolding order_matches_offer
matches→IsAnswer o offer now h =
    let (until, read, h1) = >>=-eq-ok (parse_time offer.valid_until) _ h in
    let (e1, h2) = require-eq-ok (bytes_eq o.fee.offer_id offer.offer_id) plain _ h1 in
    let (e2, h3) = require-eq-ok (bytes_eq o.auditor offer.auditor) plain _ h2 in
    let (e3, h4) = require-eq-ok (before now until) plain _ h3 in
    let (e4, h5) =
      require-eq-ok (bytes_eq o.methodology_class offer.methodology_class) plain _ h4 in
    let (e5, h6) = require-eq-ok (bytes_eq o.fee.model offer.fee.model) plain _ h5 in
    record {
      until = until;
      until_read = read;
      in_time = ltb→lt now until e3;
      same_offer = bytes_eq→eq _ _ e1;
      same_auditor = bytes_eq→eq _ _ e2;
      same_methodology = bytes_eq→eq _ _ e4;
      same_model = bytes_eq→eq _ _ e5;
      same_terms = same_disclosure→eq _ _ (require-true _ plain h6);
    }

IsAnswer→matches :
    (o : AuditOrder) (offer : Offer) (now : Time)
    → IsAnswer o offer now
    → order_matches_offer o offer now ≡ ok tt
unfolding order_matches_offer
IsAnswer→matches o offer now h =
    rw
      (
        h.until_read,
        (bytes_eq_iff _ _).1 h.same_offer,
        (bytes_eq_iff _ _).1 h.same_auditor,
        lt→ltb now h.until h.in_time,
        (bytes_eq_iff _ _).1 h.same_methodology,
        (bytes_eq_iff _ _).1 h.same_model,
        h.same_terms,
        same_disclosure_refl offer.disclosure,
      )
      refl

-- OrderMatchesOffer accepts exactly the orders that name the offer and its auditor, with the offer's
-- methodology, fee model and disclosure terms, at a time before the offer's end.
pub order_matches_offer_iff :
    (o : AuditOrder) (offer : Offer) (now : Time)
    → (order_matches_offer o offer now ≡ ok tt) ↔ IsAnswer o offer now
order_matches_offer_iff o offer now = (matches→IsAnswer o offer now, IsAnswer→matches o offer now)
