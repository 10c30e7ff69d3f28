-- ===== src/Files.antt =====
-- What the program uses of package os and path/filepath, on a directory as a list of files by their
-- paths with slashes. Faults of the disk are not modelled.
pub mod Laws
pub mod Names
use onym_audit.Prelude.{
  ℕ, ◌+◌, Bool, true, false, ◌&&◌, ◌||◌, not, [], ◌∷◌, ◌++◌, List, length, ◌==◌, Bytes, codes,
  bytes_eq, bytes_lt, if◌then◌else◌, Option, none, some,
}

abbrev pub Files : Type 0
Files = List (Bytes × Bytes)

-- os.ReadFile
unfoldable pub read_file : Bytes → Files → Option Bytes
read_file p [] = none
read_file p ((q, b) ∷ fs) = if bytes_eq q p then some b else read_file p fs

-- os.Stat, for whether a file is there
abbrev pub exists : Bytes → Files → Bool
exists p fs = elim (read_file p fs) [ none ↦ false | some b ↦ true ]

-- WriteAtomic: the file is replaced in one step.
unfoldable pub write_atomic : Bytes → Bytes → Files → Files
write_atomic p b [] = (p, b) ∷ []
write_atomic p b ((q, x) ∷ fs) =
    let rest = write_atomic p b fs in if bytes_eq q p then (q, b) ∷ fs else (q, x) ∷ rest

-- The size of the files of a directory.
unfoldable pub usage : Files → ℕ
usage [] = 0
usage ((p, b) ∷ fs) = length b + usage fs

-- strings.CutPrefix
unfoldable pub cut_prefix : Bytes → Bytes → Option Bytes
cut_prefix [] s = some s
cut_prefix (a ∷ p) [] = none
cut_prefix (a ∷ p) (c ∷ s) = let rest = cut_prefix p s in if a == c then rest else none

abbrev pub has_prefix : Bytes → Bytes → Bool
has_prefix p s = elim (cut_prefix p s) [ none ↦ false | some r ↦ true ]

-- strings.HasSuffix
unfoldable pub has_suffix : Bytes → Bytes → Bool
has_suffix p [] = bytes_eq [] p
has_suffix p (c ∷ s) = bytes_eq (c ∷ s) p || has_suffix p s

unfoldable pub has_byte : ℕ → Bytes → Bool
has_byte x [] = false
has_byte x (c ∷ s) = c == x || has_byte x s

abbrev pub json : Bytes
json = codes ".json"

abbrev pub is_json_name : Bytes → Bool
is_json_name n = not (has_byte b'/' n) && has_suffix json n

abbrev listed : Option Bytes → List Bytes → List Bytes
listed none ns = ns
listed (some n) ns = if is_json_name n then n ∷ ns else ns

unfoldable pub json_names : Bytes → Files → List Bytes
json_names dir [] = []
json_names dir ((p, b) ∷ fs) = listed (cut_prefix dir p) (json_names dir fs)

unfoldable pub insert_name : Bytes → List Bytes → List Bytes
insert_name n [] = n ∷ []
insert_name n (x ∷ xs) =
    let rest = insert_name n xs in if bytes_lt x n then x ∷ rest else n ∷ x ∷ xs

unfoldable pub sort_names : List Bytes → List Bytes
sort_names [] = []
sort_names (n ∷ ns) = insert_name n (sort_names ns)

-- The names that filepath.Glob(dir/*.json) finds, in order.
unfoldable pub glob_json : Bytes → Files → List Bytes
glob_json dir fs = sort_names (json_names dir fs)
