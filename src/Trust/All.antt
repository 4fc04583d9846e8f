-- ===== src/Trust/All.antt =====
-- src/library/trust-file.c: the functions over all trust files: the main one and those of the
-- directory, in the order in which the walk `nftw` visits them.
use rhel_fapolicyd.Base.{
  ℕ, Bool, Option, none, some, List, [], ◌∷◌, ◌++◌, if◌then◌else◌, Bytes, ℤ, pos, ◌+ℤ◌,
}
use rhel_fapolicyd.LList.Calls.{ListEntry}
use rhel_fapolicyd.Trust.{Grants, LoadResult, loaded, wrecked, trust_file_load}
use rhel_fapolicyd.Trust.Edit.{
  Edited, Measure, trust_file_delete_path, trust_file_update_path, trust_file_rm_duplicates,
}

-- The files; `none` for one that cannot be opened.
abbrev pub Files : Type 0
Files = List (Option Bytes)

-- `_list` and what has gone to the memfd.
abbrev load_next :
    (List ListEntry → Bytes → Option (List ListEntry × Bytes))
    → LoadResult
    → Option (List ListEntry × Bytes)
load_next more wrecked = none
load_next more (loaded rc st) = more st.list st.memfd

-- The codes of the loads are not looked at.
unfoldable pub load_each :
    Bool → (ℕ → Grants) → Files → List ListEntry → Bytes → Option (List ListEntry × Bytes)
unfolding trust_file_load
load_each to_memfd mem [] list memfd = some (list, memfd)
load_each to_memfd mem (f ∷ fs) list memfd =
    load_next (λ l m. load_each to_memfd mem fs l m) (trust_file_load to_memfd mem f list memfd)

-- The caller's list is behind what it holds, or the memfd has the lines.
unfoldable pub trust_file_load_all :
    Bool → (ℕ → Grants) → Files → List ListEntry → Bytes → Option (List ListEntry × Bytes)
unfolding load_each
trust_file_load_all to_memfd mem files list memfd = elim (load_each to_memfd mem files [] memfd) [
  | none ↦ none
  | some (l, m) ↦ some (if to_memfd then list else list ++ l, m)
]

abbrev pub count_edit : Option Edited → Option (ℤ × Files) → Option (ℤ × Files)
count_edit none rest = none
count_edit (some e) none = none
count_edit (some e) (some (n, fs)) = some (e.rc +ℤ n, e.file ∷ fs)

-- `_count += …` over the files; a file that does not parse takes one off.
unfoldable pub edit_each : (Option Bytes → Option Edited) → Files → Option (ℤ × Files)
edit_each edit [] = some (pos 0, [])
edit_each edit (f ∷ fs) = count_edit (edit f) (edit_each edit fs)

unfoldable pub trust_file_delete_path_all : (ℕ → Grants) → Bool → Files → Bytes → Option (ℤ × Files)
unfolding edit_each trust_file_delete_path
trust_file_delete_path_all mem writable files path =
    edit_each (λ f. trust_file_delete_path mem writable f path) files

unfoldable pub trust_file_update_path_all :
    (ℕ → Grants) → Bool → (Bytes → Bool) → Measure → Files → Bytes → Option (ℤ × Files)
unfolding edit_each trust_file_update_path
trust_file_update_path_all mem writable allowed measure files path =
    edit_each (λ f. trust_file_update_path mem writable allowed measure f path) files

-- The walk over the directory; it stops where nothing is left of the list.
unfoldable pub prune_each : (ℕ → Grants) → Files → List ListEntry → Option (List ListEntry)
unfolding trust_file_rm_duplicates
prune_each mem [] list = some list
prune_each mem (f ∷ fs) [] = some []
prune_each mem (f ∷ fs) (e ∷ list) = elim (trust_file_rm_duplicates mem f (e ∷ list)) [
  | none ↦ none
  | some (rc, left) ↦ prune_each mem fs left
]

-- The main file is looked at even for an empty list.
unfoldable pub trust_file_rm_duplicates_all :
    (ℕ → Grants) → Option Bytes → Files → List ListEntry → Option (List ListEntry)
unfolding trust_file_rm_duplicates prune_each
trust_file_rm_duplicates_all mem main files list = elim (trust_file_rm_duplicates mem main list) [
  | none ↦ none
  | some (rc, left) ↦ prune_each mem files left
]
