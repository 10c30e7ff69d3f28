-- ===== src/Audit/Build/Reading.antt =====
-- audit/status.go: the reader of status lists gets back what the builder writes.
use onym_audit.Prelude.{
  ◌≡◌, refl, [], ◌∷◌, List, Bytes, codes, bytes_eq, bytes_lt, Option, none, some, ok,
}
use onym_audit.Canon.Value.{Value, Fields, str, number, get, has_key, decimal, put, delete}
use onym_audit.Canon.Encode.{format_uint}
use onym_audit.Canon.Encode.Sort.{sort_value, sort_items, sort_fields, insert_field}
use onym_audit.Loose.{named, same_name, fold, last_text, text_in}
use onym_audit.Files.{cut_prefix}
use onym_audit.Audit.Strict
use onym_audit.Audit.Strict.{Shape, check_items, check_value, known_keys, present, member}
use onym_audit.Audit.Fields.{
  string_field, string?_field, each, struct_value, struct_field, struct?_field, structs_field,
  int_field,
}
use onym_audit.Audit.Terms.{DocRef, no_ref, decode_ref, ref_shape}
use onym_audit.Audit.Status.{
  StatusEntry, StatusList, no_entry, decode_entry, entry_shape, decode_status, status_shape,
}
use onym_audit.Audit.Build.{ref_values, entry_fields, entry_values, status_fields}

-- Sorting, looking up and decoding, on keys that are known.
run_reading : Value → Value
unfolding sort_value sort_items sort_fields insert_field bytes_lt bytes_eq get has_key known_keys
    present member Strict.check check_value string_field string?_field struct_field struct?_field
    structs_field int_field decode_ref
run_reading = sort_value

read_refs :
    (ds : List DocRef) → each (struct_value no_ref decode_ref) (sort_items (ref_values ds)) ≡ ok ds
unfolding run_reading each struct_value
read_refs [] = refl
read_refs (d ∷ ds) = rw (read_refs ds)

check_refs :
    (ds : List DocRef)
    → check_items (λ o. Strict.check ref_shape o) (sort_items (ref_values ds)) ≡ ok tt
unfolding run_reading check_items
check_refs [] = refl
check_refs (d ∷ ds) = check_refs ds

read_entry : (e : StatusEntry) → decode_entry (sort_fields (entry_fields e)) ≡ ok e
unfolding run_reading decode_entry
read_entry e = by_cases e.superseded_by e.revocation
  where
    by_cases :
        (s : Option Bytes) (r : Option DocRef)
        → decode_entry (sort_fields (entry_fields (record e { superseded_by = s; revocation = r })))
          ≡ ok (record e { superseded_by = s; revocation = r })
    by_cases none none = rw (read_refs e.responses)
    by_cases none (some r) = rw (read_refs e.responses)
    by_cases (some s) none = rw (read_refs e.responses)
    by_cases (some s) (some r) = rw (read_refs e.responses)

check-entry_shape :
    (e : StatusEntry) → Strict.check entry_shape (sort_fields (entry_fields e)) ≡ ok tt
unfolding run_reading
check-entry_shape e = by_cases e.superseded_by e.revocation
  where
    by_cases :
        (s : Option Bytes) (r : Option DocRef)
        → Strict.check entry_shape
            (sort_fields (entry_fields (record e { superseded_by = s; revocation = r })))
          ≡ ok tt
    by_cases none none = rw (check_refs e.responses)
    by_cases none (some r) = rw (check_refs e.responses)
    by_cases (some s) none = rw (check_refs e.responses)
    by_cases (some s) (some r) = rw (check_refs e.responses)

read_entries :
    (es : List StatusEntry)
    → each (struct_value no_entry decode_entry) (sort_items (entry_values es)) ≡ ok es
unfolding run_reading each struct_value
read_entries [] = refl
read_entries (e ∷ es) = rw (read_entry e, read_entries es)

check_entry_shapes :
    (es : List StatusEntry)
    → check_items (λ o. Strict.check entry_shape o) (sort_items (entry_values es)) ≡ ok tt
unfolding run_reading check_items
check_entry_shapes [] = refl
check_entry_shapes (e ∷ es) = rw (check-entry_shape e) (check_entry_shapes es)

-- The members of a list that carries a signature.
abbrev pub signed_fields : StatusList → Fields
signed_fields l =
    put (codes "signature") (str l.signature) (delete (codes "signature") (status_fields l))

pub read_status_fields :
    (l : StatusList)
    → decimal 0 (format_uint l.status_version) ≡ l.status_version
    → decimal 0 (format_uint l.status_epoch) ≡ l.status_epoch
    → decode_status (sort_fields (signed_fields l)) ≡ ok l
unfolding run_reading decode_status put delete
read_status_fields l v e = rw (v, e, read_entries l.entries)

pub check_status_fields :
    (l : StatusList) → Strict.check status_shape (sort_fields (signed_fields l)) ≡ ok tt
unfolding run_reading put delete
check_status_fields l = rw (check_entry_shapes l.entries)

-- What encoding/json takes the two members from.
pub named_epoch :
    (l : StatusList)
    → named "statusEpoch" (sort_fields (signed_fields l)) ≡ number (format_uint l.status_epoch) ∷ []
unfolding run_reading put delete named same_name fold cut_prefix
named_epoch l = refl

pub read_signature :
    (l : StatusList) → text_in "signature" (sort_fields (signed_fields l)) ≡ ok l.signature
unfolding run_reading put delete named same_name fold cut_prefix last_text
read_signature l = refl
