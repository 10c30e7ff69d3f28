-- ===== src/Hub/Hold.antt =====
-- hub/orders.go and hub/hub.go: files held under an embargo, their release, and the upkeep of an
-- auditor's status list.
use onym_audit.Prelude.{
  Bool, true, ◌||◌, not, [], ◌∷◌, List, Bytes, bytes_eq, if◌then◌else◌, Option, none, some, Result,
  ok, err,
}
use onym_audit.Sig.Time.{Time, before, parse_time}
use onym_audit.Files.{Files, read_file, exists}
use onym_audit.Site.{manifest_path}
use onym_audit.Hub.{Hub, Tenant, HeldFile, disabled, write_each, resign}
use onym_audit.Hub.Publish.{order_path}

abbrev waits : Time → Result Time → Bool
waits now (err e) = true
waits now (ok at) = before now at

-- Whether a held file stays held: its embargo has not ended, or has no end that can be read.
unfoldable pub is_waiting : Time → HeldFile → Bool
is_waiting now hf = waits now (parse_time hf.release_at)

abbrev pub or_keep :
    Bytes × HeldFile → List (Bytes × HeldFile) → Result (Unit {0}) → List (Bytes × HeldFile)
or_keep x kept (err e) = x ∷ kept
or_keep x kept (ok _) = kept

-- release, in the order of what is held: the tree, and what is still held.
unfoldable pub release : Time → Files → List (Bytes × HeldFile) → Files × List (Bytes × HeldFile)
release now tree [] = (tree, [])
release now tree ((id, hf) ∷ hs) =
    let wrote = write_each hf.files tree in
    let kept = release now tree hs in
    let next = release now wrote.0 hs in
    if is_waiting now hf
    then (kept.0, (id, hf) ∷ kept.1)
    else (next.0, or_keep (id, hf) next.1 wrote.1)

abbrev pub or_as_before : Files → Result Files → Files
or_as_before tree (err e) = tree
or_as_before tree (ok tree') = tree'

abbrev pub released : Time → Tenant → Tenant
released now t = let r = release now t.tree t.held in record t { tree = r.0; held = r.1 }

-- One round of ResignAll. A status list that cannot be signed again is left as it is.
unfoldable pub upkeep : Hub → Bytes → Time → Tenant → Tenant
upkeep h slug now t =
    if disabled t || not (exists manifest_path t.tree)
    then t
    else let t' = released now t in record t' { tree = or_as_before t'.tree (resign h slug now t') }

-- What is held under an id.
unfoldable pub held_file : Bytes → List (Bytes × HeldFile) → Option HeldFile
held_file id [] = none
held_file id ((k, hf) ∷ hs) =
    let later = held_file id hs in if bytes_eq k id then some hf else later

abbrev or_later : Option Bytes → Option Bytes → Option Bytes
or_later none later = later
or_later (some b) later = some b

-- heldOrder
unfoldable pub held_order : Bytes → List (Bytes × HeldFile) → Option Bytes
held_order id [] = none
held_order id ((k, hf) ∷ hs) = or_later (read_file (order_path id) hf.files) (held_order id hs)
