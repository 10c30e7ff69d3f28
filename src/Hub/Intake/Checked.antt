-- ===== src/Hub/Intake/Checked.antt =====
-- hub/orders.go: what the intake has checked of an order that it goes on with.
use onym_audit.Prelude.{◌≡◌, subst, true, Bytes, bytes_eq, ok, plain, require-eq-ok, >>=-eq-ok}
use onym_audit.Sig.Sign.{Crypto, digest}
use onym_audit.Sig.Time.{Time}
use onym_audit.Files.{Files}
use onym_audit.Audit.Manifest.{AuditorManifest}
use onym_audit.Audit.Orders.{AuditOrder, parse_order_request}
use onym_audit.Audit.Offers.{Offer, order_matches_offer}
use onym_audit.Hub.{Hub, Tenant, canonical}
use onym_audit.Hub.Outcome.{go, >>=-eq-go, or_fail, or_fail-eq-go}
use onym_audit.Hub.Publish.{tenant}
use onym_audit.Hub.Requests.{is_scope_text}
use onym_audit.Hub.Intake.{
  Posted, check_posted, check_order, check_author, offer, is_listed, scope_uri, is_contact,
}

-- What passes the checks of the intake: the order is signed for the auditor, its offer stands, and
-- the orderer may take it.
pub record IsAdmitted (c : Crypto) (now : Time) (board : Files) (posted raw : Bytes)
    (o : AuditOrder) : Type 0 where
  pub manifest : AuditorManifest
  pub canonical_form : canonical posted ≡ ok raw
  pub parsed : parse_order_request c raw manifest.component_id ≡ ok o
  pub listed : is_listed now board manifest o.fee.offer_id ≡ true
  pub author : check_author board o ≡ ok tt

offer-listed :
    (h : Hub) (now : Time) (t : Tenant) (board : Files) (m : AuditorManifest) (id : Bytes)
    (of : Offer)
    → offer h.crypto now t board m id ≡ ok of
    → is_listed now board m id ≡ true
unfolding offer
offer-listed h now t board m id of e = (require-eq-ok (is_listed now board m id) plain _ e).0

check_order-IsAdmitted :
    (h : Hub) (slug : Bytes) (now : Time) (t : Tenant) (board : Files) (m : AuditorManifest)
    (raw : Bytes) (p : Posted) (o : AuditOrder)
    → canonical p.order ≡ ok raw
    → check_order h slug now t board m raw p ≡ ok o
    → IsAdmitted h.crypto now board p.order raw o
unfolding check_order
check_order-IsAdmitted h slug now t board m raw p o r e =
    let (x, e0, e1) = >>=-eq-ok (parse_order_request h.crypto raw m.component_id) _ e in
    let (of, f, e2) = >>=-eq-ok (offer h.crypto now t board m x.fee.offer_id) _ e1 in
    let (u, k, e3) = >>=-eq-ok (order_matches_offer x of now) _ e2 in
    let (a, e4) = require-eq-ok (bytes_eq x.scope.uri (scope_uri h slug x.order_id)) plain _ e3 in
    let (b, e5) = require-eq-ok (is_scope_text p.scope_text) plain _ e4 in
    let (c, e6) =
      require-eq-ok (bytes_eq (digest h.crypto p.scope_text) x.scope.digest) plain _ e5 in
    let (d, e7) = require-eq-ok (is_contact p.contact) plain _ e6 in
    let (v, w, e8) = >>=-eq-ok (check_author board x) _ e7 in
    let y : IsAdmitted h.crypto now board p.order raw x = record {
      manifest = m;
      canonical_form = r;
      parsed = e0;
      listed = offer-listed h now t board m x.fee.offer_id of f;
      author = w;
    } in
    subst (λ (z : AuditOrder). IsAdmitted h.crypto now board p.order raw z) (cc) y

pub check_posted-IsAdmitted :
    (h : Hub) (slug : Bytes) (now : Time) (t : Tenant) (board : Files) (p : Posted) (raw : Bytes)
    (o : AuditOrder)
    → check_posted h slug now t board p ≡ go (raw, o)
    → IsAdmitted h.crypto now board p.order raw o
unfolding check_posted
check_posted-IsAdmitted h slug now t board p raw o e =
    let (m, e0, e1) = >>=-eq-go (tenant h slug now t) _ e in
    let (r, e2, e3) = >>=-eq-go (or_fail 422 (canonical p.order)) _ e1 in
    let (x, e4, e5) = >>=-eq-go (or_fail 422 (check_order h slug now t board m r p)) _ e3 in
    let y : IsAdmitted h.crypto now board p.order r x =
      check_order-IsAdmitted h slug now t board m r p x (or_fail-eq-go 422 _ e2)
        (or_fail-eq-go 422 _ e4) in
    let d : r ≡ raw = cc in
    let i : x ≡ o = cc in
    subst (λ (z : AuditOrder). IsAdmitted h.crypto now board p.order raw z) i
      (subst (λ (z : Bytes). IsAdmitted h.crypto now board p.order z x) d y)
