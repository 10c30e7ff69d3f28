-- ===== src/Audit/Build/RoundTrip.antt =====
-- audit/status.go: ParseStatus accepts what BuildStatus publishes.
use onym_audit.Prelude.{
  ℕ, ◌≡◌, ◌≤◌, ◌<◌, ◌+◌, ◌-◌, ◌*◌, ◌/◌, refl, sym, true, false, [], ◌∷◌, List, All, ltb, leb, Bytes,
  codes, is_nil, length, bytes_eq_refl, some, ok, arith, not, ◌&&◌,
}
use onym_audit.Utf8.{IsText, utf8_run, utf8_step}
use onym_audit.Canon.Value.{Fields, max_safe_integer, AreMembers, delete}
use onym_audit.Canon.Encode.Digits.{decimal-format_uint}
use onym_audit.Canon.Encode.Sort.{sort_fields}
use onym_audit.Canon.Decode.{parse}
use onym_audit.Canon.RoundTrip.Documents.{canonical}
use onym_audit.Canon.RoundTrip.Signing.{parse-canonical}
use onym_audit.Sig.Hex.{key_of}
use onym_audit.Sig.Base64.{encode_base64}
use onym_audit.Sig.Sign.{Crypto, IsSigner, sign, verify}
use onym_audit.Sig.RoundTrip.{signed, signed-AreMembers, sign-signed, verify-sign}
use onym_audit.Sig.Time.{Time, second, before_year, parse_time, after}
use onym_audit.Sig.Time.RoundTrip.{parse_time-format_time}
use onym_audit.Sig.Time.Texts.{format_time-IsText}
use onym_audit.Audit.Strict.{decode_strict}
use onym_audit.Audit.Manifest.{AuditorManifest, skew}
use onym_audit.Audit.Status.{
  StatusList, fresh, check_entries, check_status, decode_status, status_shape, read_status,
  parse_status, next_update_in, max_next_update, belongs,
}
use onym_audit.Audit.Build.{
  Published, entries_of, sort_entries, epoch_of, status_list, status_fields, to_object,
  build_status,
}
use onym_audit.Audit.Build.Order.{AreDistinct, published_ids, check_entries-sort_entries}
use onym_audit.Audit.Build.Reading.{signed_fields, read_status_fields, check_status_fields}
use onym_audit.Audit.Build.Writing.{
  IsPublishable, status_fields-AreMembers, sort_entries-IsWritable,
}

-- The instant that FormatTime's text of an instant stands for.
abbrev pub whole : Time → Time
whole t = t / second * second

-- What the manifest and the documents of a build are like: texts are valid UTF-8, no two
-- attestations share an id, the epoch and the times can be written.
pub record IsBuildable (m : AuditorManifest) (pubs : List Published) (now : Time) (min_epoch : ℕ)
    : Type 0 where
  pub component : IsText m.component_id
  pub operator : IsText m.operator
  pub key : IsText m.status_key
  pub publishable : All IsPublishable pubs
  pub distinct : AreDistinct (published_ids pubs)
  pub in_time : now + next_update_in < before_year 10000 * 86400 * second
  pub in_range : epoch_of now min_epoch ≤ max_safe_integer

pub epoch_of-above : (now : Time) (least : ℕ) → least < epoch_of now least
unfolding epoch_of
epoch_of-above now least = ground arith

module _ (c : Crypto) (m : AuditorManifest) (pubs : List Published) (now : Time) (min_epoch : ℕ)
    (priv : Bytes) (s : IsSigner c priv) (k : key_of (c.public_key priv) ≡ m.status_key)
    (b : IsBuildable m pubs now min_epoch) where
  abbrev unsigned : StatusList
  unsigned = status_list m pubs now min_epoch

  abbrev members : Fields
  members = status_fields unsigned

  -- The list that is published: the one that was built, with the signature over its canonical bytes.
  abbrev published : StatusList
  published = record unsigned {
    signature =
        encode_base64 (c.ed25519_sign priv (canonical (delete (codes "signature") members)));
  }

  abbrev raw : Bytes
  raw = canonical (signed_fields published)

  issued_at_whole : parse_time unsigned.issued_at ≡ ok (whole now)
  unfolding status_list
  issued_at_whole = parse_time-format_time now (omega (arith, b.in_time))

  next_update_whole : parse_time unsigned.next_update ≡ ok (whole (now + next_update_in))
  unfolding status_list
  next_update_whole = parse_time-format_time (now + next_update_in) b.in_time

  members-AreMembers : AreMembers 0 members
  unfolding status_list
  members-AreMembers = status_fields-AreMembers unsigned (record {
    version = omega arith;
    auditor = b.component;
    operator = b.operator;
    key = b.key;
    epoch = b.in_range;
    issued = format_time-IsText now (omega (arith, b.in_time));
    next = format_time-IsText (now + next_update_in) b.in_time;
    listed = sort_entries-IsWritable pubs now b.publishable;
  })

  signature-IsText : IsText (codes "signature")
  unfolding utf8_run utf8_step
  signature-IsText = refl

  published-signed : signed_fields published ≡ signed c members (codes "signature") priv
  unfolding signed
  published-signed = refl

  in_range_test : leb (epoch_of now min_epoch) max_safe_integer ≡ true
  in_range_test = ground (arith, b.in_range)

  to_object-members : to_object unsigned ≡ ok members
  unfolding to_object status_list
  to_object-members = rw in_range_test refl

  sign-published : sign c members (codes "signature") priv ≡ ok raw
  sign-published =
      rw published-signed
        (sign-signed c members (codes "signature") priv members-AreMembers signature-IsText s)

  build_status-published : build_status c m pubs now min_epoch priv ≡ ok raw
  unfolding build_status
  build_status-published = rw (k, bytes_eq_refl m.status_key) (rw to_object-members sign-published)

  raw-parse : parse raw ≡ ok (sort_fields (signed_fields published))
  raw-parse = parse-canonical (signed_fields published) (
      rw published-signed (
        signed-AreMembers c members (codes "signature") priv members-AreMembers signature-IsText s))

  read : decode_strict status_shape decode_status raw ≡ ok published
  unfolding decode_strict status_list
  read = rw (
    raw-parse,
    check_status_fields published,
    read_status_fields published (decimal-format_uint _ (omega arith))
        (decimal-format_uint _ b.in_range),
  )

  raw-verify : verify c raw (codes "signature") m.status_key ≡ ok tt
  raw-verify =
      same (verify-sign c members (codes "signature") priv members-AreMembers signature-IsText s)
    where
      same :
          (r : Bytes) × (sign c members (codes "signature") priv ≡ ok r)
            × (verify c r (codes "signature") (key_of (c.public_key priv)) ≡ ok tt)
          → verify c raw (codes "signature") m.status_key ≡ ok tt
      same (r, e, v) = let z : raw ≡ r = cc (e, sign-published) in rw (z, sym k) v

  belongs-published : belongs m published ≡ true
  unfolding status_list
  belongs-published =
      rw (bytes_eq_refl m.component_id, bytes_eq_refl m.operator, bytes_eq_refl m.status_key) refl

  later_by_two_days :
      (after (whole (now + next_update_in)) (whole now)
        && leb (whole (now + next_update_in) - whole now) max_next_update)
      ≡ true
  later_by_two_days = ground arith

  not_ahead :
      (client : Time) → whole now ≤ client + skew → not (after (whole now) (client + skew)) ≡ true
  not_ahead client l = ground arith

  entries-checked : check_entries [] published.entries ≡ true
  unfolding status_list
  entries-checked = check_entries-sort_entries pubs now b.distinct

  raw-checked :
      (client : Time)
      → whole now ≤ client + skew
      → check_status c raw m client published ≡ ok (whole (now + next_update_in))
  unfolding check_status
  raw-checked client l =
      rw
        (
          raw-verify,
          issued_at_whole,
          next_update_whole,
          belongs-published,
          later_by_two_days,
          not_ahead client l,
          entries-checked,
        )
        refl

  -- A status list that is built for a manifest, with its status key, over documents whose texts are
  -- valid UTF-8 and whose attestations have distinct ids, at a time and an epoch that can be
  -- written, exists, and a client that retains no greater epoch, and whose clock is between the
  -- time of issue and that of the next update give or take the skew, accepts it as fresh. It
  -- retains the list's epoch, which is greater than the least that was asked, and gets the entries
  -- that were built.
  pub parse_status-build_status :
      (last : ℕ) (client : Time)
      → last ≤ epoch_of now min_epoch
      → whole now ≤ client + skew
      → client ≤ whole (now + next_update_in) + skew
      → (text : Bytes) × (l : StatusList) × (build_status c m pubs now min_epoch priv ≡ ok text)
        × (parse_status c text m (some last) client ≡ (fresh l, some (epoch_of now min_epoch)))
        × (l.entries ≡ sort_entries (entries_of pubs now pubs))
        × (min_epoch < epoch_of now min_epoch)
  unfolding parse_status read_status status_list
  parse_status-build_status last client hl hi hn = (
    raw,
    published,
    build_status-published,
    rw (read, raw-checked client hi, not_rolled, not_late) refl,
    refl,
    epoch_of-above now min_epoch,
  )
    where
      not_rolled : ltb (epoch_of now min_epoch) last ≡ false
      not_rolled = ground arith

      not_late : after client (whole (now + next_update_in) + skew) ≡ false
      not_late = ground arith

  signature-not_nil : is_nil published.signature ≡ false
  signature-not_nil = long _ (s.signature_size (canonical (delete (codes "signature") members)))
    where
      long : (b : Bytes) → length b ≡ 64 → is_nil (encode_base64 b) ≡ false
      long [] h = absurd (omega (arith, h))
      long (x ∷ []) h = unfold encode_base64 in refl
      long (x ∷ y ∷ []) h = unfold encode_base64 in refl
      long (x ∷ y ∷ z ∷ b) h = unfold encode_base64 in refl

  -- The text that is published parses to the members of a list with the epoch and a signature.
  pub build_status-members :
      (text : Bytes) × (l : StatusList) × (build_status c m pubs now min_epoch priv ≡ ok text)
      × (parse text ≡ ok (sort_fields (signed_fields l)))
      × (l.status_epoch ≡ epoch_of now min_epoch)
      × (is_nil l.signature ≡ false)
  unfolding status_list
  build_status-members =
      (raw, published, build_status-published, raw-parse, refl, signature-not_nil)
