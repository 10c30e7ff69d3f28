-- ===== src/Site/Resign.antt =====
-- site/site.go: what ResignStatus leaves in the tree.
use onym_audit.Prelude.{
  ℕ, max, ◌≡◌, ◌≤◌, ◌<◌, ◌+◌, refl, sym, ◌∙◌, false, [], ◌∷◌, ◌++◌, List, is_nil, Bytes, bytes_eq,
  bytes_eq_refl, if◌then◌else◌, some, ok, arith, >>=-eq-ok,
}
use onym_audit.Canon.Value.{max_safe_integer}
use onym_audit.Canon.Encode.{format_uint}
use onym_audit.Canon.Encode.Digits.{format_uint-IsNumber, decimal-format_uint}
use onym_audit.Loose.{last_int64, int64_of-IsNumber}
use onym_audit.Loose.Scan.{unmarshal-parse}
use onym_audit.Canon.Encode.Sort.{sort_fields}
use onym_audit.Canon.Decode.{parse}
use onym_audit.Sig.Hex.{key_of}
use onym_audit.Sig.Sign.{Crypto, IsSigner}
use onym_audit.Sig.Time.{Time}
use onym_audit.Files.{Files, read_file, write_atomic}
use onym_audit.Files.Laws.{read_file-write_atomic}
use onym_audit.Audit.Manifest.{AuditorManifest, parse_manifest, skew}
use onym_audit.Audit.Status.{StatusList, fresh, parse_status, next_update_in}
use onym_audit.Audit.Build.{Published, build_status, epoch_of, entries_of, sort_entries}
use onym_audit.Audit.Build.Reading.{signed_fields, named_epoch, read_signature}
use onym_audit.Audit.Build.RoundTrip.{
  epoch_of-above, IsBuildable, whole, parse_status-build_status, build_status-members,
}
use onym_audit.Site.{
  manifest_path, status_path, sig_suffix, detached, write_signed, collect, published_epoch,
  resign_status,
}

-- After a signed document is written, every file but its signature's reads as it did, and the
-- document reads as it was given.
pub read_file-write_signed :
    (k p raw : Bytes) (fs gs : Files)
    → write_signed p raw fs ≡ ok gs
    → bytes_eq (p ++ sig_suffix) k ≡ false
    → read_file k gs ≡ (if bytes_eq p k then some raw else read_file k fs)
unfolding write_signed
read_file-write_signed k p raw fs gs h n =
    let (s, e, w) = >>=-eq-ok (detached raw) _ h in written (s ++ b'\n' ∷ []) (cc w)
  where
    written :
        (s : Bytes)
        → gs ≡ write_atomic (p ++ sig_suffix) s (write_atomic p raw fs)
        → read_file k gs ≡ (if bytes_eq p k then some raw else read_file k fs)
    written s e =
        rw (e, read_file-write_atomic k (p ++ sig_suffix) s (write_atomic p raw fs), n)
          (read_file-write_atomic k p raw fs)

module _ (c : Crypto) (base : Bytes) (m : AuditorManifest) (fs : Files) (now : Time)
    (priv raw_manifest : Bytes) (pubs : List Published) (least : ℕ)
    (at : read_file manifest_path fs ≡ some raw_manifest)
    (parsed : parse_manifest c raw_manifest now ≡ ok m)
    (collected : collect c base m fs ≡ ok (pubs, least)) (s : IsSigner c priv)
    (k : key_of (c.public_key priv) ≡ m.status_key)
    (b : IsBuildable m pubs now (max least (published_epoch fs))) where
  abbrev epoch : ℕ
  epoch = epoch_of now (max least (published_epoch fs))

  built :
      (text : Bytes)
      → build_status c m pubs now (max least (published_epoch fs)) priv ≡ ok text
      → resign_status c base fs priv now ≡ write_signed status_path text fs
  unfolding resign_status
  built text e = rw (at, parsed, collected, e) refl

  signed_with :
      (text : Bytes) (l : StatusList)
      → parse text ≡ ok (sort_fields (signed_fields l))
      → is_nil l.signature ≡ false
      → detached text ≡ ok l.signature
  unfolding detached
  signed_with text l e n = rw (unmarshal-parse text _ e, read_signature l, n) refl

  epoch_read :
      (text : Bytes) (l : StatusList) (gs : Files)
      → parse text ≡ ok (sort_fields (signed_fields l))
      → l.status_epoch ≡ epoch
      → read_file status_path gs ≡ some text
      → published_epoch gs ≡ epoch
  unfolding published_epoch
  epoch_read text l gs e d r =
      let in_range : l.status_epoch ≤ max_safe_integer = rw d b.in_range in
      rw (r, unmarshal-parse text _ e, named_epoch l)
        (unfold last_int64 in
          rw
            (
              int64_of-IsNumber (format_uint l.status_epoch)
                  (format_uint-IsNumber l.status_epoch in_range),
              decimal-format_uint l.status_epoch in_range,
              d,
            )
            refl)

  wrote :
      (text : Bytes) (l : StatusList)
      → parse text ≡ ok (sort_fields (signed_fields l))
      → is_nil l.signature ≡ false
      → (gs : Files) × (write_signed status_path text fs ≡ ok gs)
  unfolding write_signed
  wrote text l e n = (
    write_atomic (status_path ++ sig_suffix) (l.signature ++ b'\n' ∷ [])
        (write_atomic status_path text fs),
    rw (signed_with text l e n) refl,
  )

  read_back :
      (text : Bytes) (gs : Files)
      → write_signed status_path text fs ≡ ok gs
      → read_file status_path gs ≡ some text
  read_back text gs w =
      read_file-write_signed status_path status_path text fs gs w apart
      ∙ (rw (bytes_eq_refl status_path) refl)
    where
      apart : bytes_eq (status_path ++ sig_suffix) status_path ≡ false
      apart = unfold bytes_eq in refl

  beyond : max least (published_epoch fs) < epoch
  beyond = epoch_of-above now (max least (published_epoch fs))

  -- Over a tree whose manifest is accepted and whose documents Collect accepts, with the status key
  -- of the manifest, texts of valid UTF-8, distinct ids, and a time and an epoch that can be written,
  -- ResignStatus writes a status list that a client which has retained no more than the epoch
  -- published before accepts as fresh, while its clock is between the time of issue and that of the
  -- next update give or take the skew. The list has an entry for each collected attestation, its
  -- epoch is above the one published before and those of the revocations, and it is the epoch the
  -- tree publishes from then on.
  pub resign_status-fresh :
      (last : ℕ) (client : Time)
      → last ≤ published_epoch fs
      → whole now ≤ client + skew
      → client ≤ whole (now + next_update_in) + skew
      → (gs : Files) × (text : Bytes) × (l : StatusList) × (resign_status c base fs priv now
          ≡ ok gs)
        × (read_file status_path gs ≡ some text)
        × (parse_status c text m (some last) client ≡ (fresh l, some (published_epoch gs)))
        × (l.entries ≡ sort_entries (entries_of pubs now pubs))
        × (published_epoch fs < published_epoch gs)
        × (least < published_epoch gs)
  resign_status-fresh last client hl hi hn =
      let (text, l, e1, e2, e3, e4) =
        build_status-members c m pubs now (max least (published_epoch fs)) priv s k b in
      let (text2, l2, a1, a2, a3, a4) =
        parse_status-build_status c m pubs now (max least (published_epoch fs)) priv s k b last
          client (omega (arith, hl, beyond)) hi hn in
      let (gs, w) = wrote text l e2 e4 in
      let same : text2 ≡ text = cc (a1, e1) in
      let r = read_back text gs w in
      let p = epoch_read text l gs e2 e3 r in
      (
        gs,
        text,
        l2,
        built text e1 ∙ w,
        r,
        rw (p, sym same) a2,
        a3,
        rw p (omega (arith, beyond)),
        rw p (omega (arith, beyond)),
      )
