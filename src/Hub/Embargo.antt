-- ===== src/Hub/Embargo.antt =====
-- hub/orders.go: an embargo, from the hold to the release.
use mathlib.Core.List.{Memᴰ}
use onym_audit.Prelude.{
  ◌≡◌, ◌≤◌, ◌<◌, ◌+◌, ◌*◌, refl, ◌∙◌, Bool, true, false, [], ◌∷◌, List, All, ltb, Bytes, bytes_eq,
  bytes_eq→eq, none, some, arith,
}
use onym_audit.Sig.Time.{Time, second, before_year, format_time}
use onym_audit.Sig.Time.RoundTrip.{parse_time-format_time}
use onym_audit.Files.{exists, Files, read_file, usage}
use onym_audit.Site.{manifest_path}
use onym_audit.Audit.Build.RoundTrip.{whole}
use onym_audit.Hub.{disabled, Hub, Tenant, HeldFile, held_usage, max_tenant_bytes, write_each}
use onym_audit.Hub.Held.Insert.{held_file-insert_held}
use onym_audit.Hub.Publish.{insert_held, Publication, attestation_path, hold, fulfilled, Commission}
use onym_audit.Hub.Hold.{is_waiting, held_file, release, released, upkeep}
use onym_audit.Hub.Held.{IsTidy, IsOwn, own-IsKept, IsTidy-kept, not_held-AreApart}
use onym_audit.Hub.Held.Release.{release-IsReleased}
use onym_audit.Hub.Held.Sealed.{IsSealed}
use onym_audit.Hub.Writes.{attestation}
use onym_audit.Hub.Steps
use onym_audit.Hub.Handled.{hold-IsSafe}
use onym_audit.Hub.Safety.{Call, handle, serve, handle-IsSafe}
use onym_audit.Hub.Written.{IsWritten, own-written}

later-IsSealed :
    (now next : Time) (id : Bytes) (hf : HeldFile) (tree : Files) (hs : List (Bytes × HeldFile))
    → is_waiting next hf ≡ true
    → IsSealed now id hf tree hs
    → IsSealed next id hf tree hs
later-IsSealed now next id hf tree hs w s = record {
  found = s.found;
  waiting = w;
  unpublished = s.unpublished;
}

serve-IsSealed :
    (h : Hub) (slug : Bytes) (qs : List (Time × Call)) (now : Time) (t : Tenant) (id : Bytes)
    (hf : HeldFile)
    → IsTidy t.tree t.held
    → All (λ q. is_waiting q.0 hf ≡ true) qs
    → IsSealed now id hf t.tree t.held
    → read_file (attestation_path id) (serve h slug qs t).tree ≡ none
unfolding serve
serve-IsSealed h slug [] now t id hf d w s = s.unpublished
serve-IsSealed h slug ((next, q) ∷ qs) now t id hf d w s =
    let done = handle-IsSafe h slug next q t d in
    serve-IsSealed h slug qs next (handle h slug next q t) id hf done.tidy w.1
      (done.sealed id hf (later-IsSealed now next id hf t.tree t.held w.0 s))

waits_until :
    (now at : Time) (hf : HeldFile)
    → hf.release_at ≡ format_time at
    → at < before_year 10000 * 86400 * second
    → now < whole at
    → is_waiting now hf ≡ true
unfolding is_waiting
waits_until now at hf e l n = rw (e, parse_time-format_time at l) (ground (arith, n))

waits_all :
    (at : Time) (hf : HeldFile) (qs : List (Time × Call))
    → hf.release_at ≡ format_time at
    → at < before_year 10000 * 86400 * second
    → All (λ q. q.0 < whole at) qs
    → All (λ q. is_waiting q.0 hf ≡ true) qs
waits_all at hf [] e l a = tt
waits_all at hf (q ∷ qs) e l a = (waits_until q.0 at hf e l a.0, waits_all at hf qs e l a.1)

abbrev held_at : Publication → Time → HeldFile
held_at p at = record { release_at = format_time at; files = p.files }

hold-IsSealed :
    (h : Hub) (slug : Bytes) (now : Time) (t : Tenant) (p : Publication) (at : Time)
    → Steps.IsPublishable t p
    → usage t.tree + held_usage h t.held + usage p.files ≤ max_tenant_bytes
    → is_waiting now (held_at p at) ≡ true
    → IsSealed now p.attestation.attestation_id
        (held_at p at)
        ((hold h slug t p at).1).tree
        ((hold h slug t p at).1).held
hold-IsSealed h slug now t p at i l w = unfold hold in rw fits (by_order p.order)
  where
    fits : ltb max_tenant_bytes (usage t.tree + held_usage h t.held + usage p.files) ≡ false
    fits = ground (arith, l)

    with_entry : Tenant
    with_entry = record t { held = insert_held p.attestation.attestation_id (held_at p at) t.held }

    by_order :
        (o : Commission)
        → IsSealed now p.attestation.attestation_id
            (held_at p at)
            (fulfilled o with_entry).tree
            (fulfilled o with_entry).held
    by_order none = record {
      found = held_file-insert_held p.attestation.attestation_id _ t.held i.not_held;
      waiting = w;
      unpublished = i.absent;
    }
    by_order (some x) = record {
      found = held_file-insert_held p.attestation.attestation_id _ t.held i.not_held;
      waiting = w;
      unpublished = i.absent;
    }

-- From directories where what is held is in order: an attestation that is neither in the tree nor
-- held, whose files are itself and documents of the tree, and that is held until a time before the
-- year 10000, with room for it, is not in the tree after any publications, revocations, replies and
-- rounds at times before the whole second of that time.
pub hold-serve :
    (h : Hub) (slug : Bytes) (now : Time) (t : Tenant) (p : Publication) (at : Time)
    (qs : List (Time × Call))
    → Steps.IsPublishable t p
    → IsTidy t.tree t.held
    → usage t.tree + held_usage h t.held + usage p.files ≤ max_tenant_bytes
    → at < before_year 10000 * 86400 * second
    → now < whole at
    → All (λ q. q.0 < whole at) qs
    → read_file
        (attestation_path p.attestation.attestation_id)
        (serve h slug qs (hold h slug t p at).1).tree
      ≡ none
hold-serve h slug now t p at qs i d l y n a =
    serve-IsSealed h slug qs now (hold h slug t p at).1 p.attestation.attestation_id (held_at p at)
      (hold-IsSafe h slug now t p at i d).tidy (waits_all at (held_at p at) qs refl y a)
      (hold-IsSealed h slug now t p at i l (waits_until now at (held_at p at) refl y n))

-- Under this id a file is held whose embargo is over, and that can be written with its attestation.
pub record IsDue (now : Time) (id raw : Bytes) (hf : HeldFile) (hs : List (Bytes × HeldFile))
    : Type 0 where
  pub found : held_file id hs ≡ some hf
  pub over : is_waiting now hf ≡ false
  pub own : All (IsOwn id raw) hf.files
  pub writable : All IsWritten hf.files
  pub listed : Memᴰ (attestation_path id, raw) hf.files

IsDue-tail :
    (now : Time) (id raw k : Bytes) (hf x : HeldFile) (hs : List (Bytes × HeldFile))
    → bytes_eq k id ≡ false
    → IsDue now id raw hf ((k, x) ∷ hs)
    → IsDue now id raw hf hs
IsDue-tail now id raw k hf x hs n u = record {
  found = (let f = u.found in unfold held_file in rw n at f);
  over = u.over;
  own = u.own;
  writable = u.writable;
  listed = u.listed;
}

due-head :
    (now : Time) (id raw k : Bytes) (hf x : HeldFile) (hs : List (Bytes × HeldFile))
    → bytes_eq k id ≡ true
    → IsDue now id raw hf ((k, x) ∷ hs)
    → x ≡ hf
due-head now id raw k hf x hs e u =
    let f = u.found in unfold held_file in (let g = rw e at f in cc g)

release-published :
    (now : Time) (tree : Files) (id raw : Bytes) (hf : HeldFile) (hs : List (Bytes × HeldFile))
    → IsTidy tree hs
    → IsDue now id raw hf hs
    → read_file (attestation_path id) (release now tree hs).0 ≡ some raw
release-published now tree id raw hf [] t u = absurd (let f = u.found in unfold held_file in cc)
release-published now tree id raw hf ((k, x) ∷ hs) t u =
    by_test (is_waiting now x) refl (bytes_eq k id) refl
      (λ n. release-published now tree id raw hf hs t.2 (IsDue-tail now id raw k hf x hs n u))
      (λ n. release-published now tree1 id raw hf hs tidy1 (IsDue-tail now id raw k hf x hs n u))
  where
    tree1 : Files
    tree1 = (write_each x.files tree).0

    tidy1 : IsTidy tree1 hs
    tidy1 =
        IsTidy-kept (attestation_path k) tree tree1 hs
          (own-IsKept k (t.1).raw x.files tree (t.1).own) (not_held-AreApart k hs t.0) t.2

    by_head :
        bytes_eq k id ≡ true → read_file (attestation_path id) (release now tree1 hs).0 ≡ some raw
    by_head e =
        let z = bytes_eq→eq k id e in
        let apart = rw z at (not_held-AreApart k hs t.0) in
        (release-IsReleased now tree1 hs tidy1).others (attestation_path id) (attestation id) apart
        ∙ (let y = due-head now id raw k hf x hs e u in
            rw y (own-written id raw hf.files tree u.own u.writable u.listed))

    by_test :
        (w : Bool)
        → is_waiting now x ≡ w
        → (b : Bool) → bytes_eq k id ≡ b
        → (bytes_eq k id ≡ false
            → read_file (attestation_path id) (release now tree hs).0 ≡ some raw)
        → (bytes_eq k id ≡ false
            → read_file (attestation_path id) (release now tree1 hs).0 ≡ some raw)
        → read_file (attestation_path id) (release now tree ((k, x) ∷ hs)).0 ≡ some raw
    by_test true e true n ih ih1 =
        absurd (let z = due-head now id raw k hf x hs n u in let o = u.over in cc)
    by_test true e false n ih ih1 = unfold release in rw e (ih n)
    by_test false e true n ih ih1 = unfold release in rw e (by_head n)
    by_test false e false n ih ih1 = unfold release in rw e (ih1 n)

-- From directories where what is held is in order and that the hub serves, a round of its upkeep
-- once the embargo of a held attestation is over publishes it as it was held, if its files are
-- itself and documents of the tree, and can be written.
pub upkeep-published :
    (h : Hub) (slug : Bytes) (now : Time) (t : Tenant) (id raw : Bytes) (hf : HeldFile)
    → IsTidy t.tree t.held
    → IsDue now id raw hf t.held
    → disabled t ≡ false
    → exists manifest_path t.tree ≡ true
    → read_file (attestation_path id) (upkeep h slug now t).tree ≡ some raw
unfolding upkeep
upkeep-published h slug now t id raw hf d u off on =
    rw (off, on)
      (Steps.or_as_before-kept slug h now (released now t) (attestation_path id) (attestation id)
        ∙ release-published now t.tree id raw hf t.held d u)
