-- ===== src/Trust/Edit.antt =====
-- src/library/trust-file.c: the writing of a trust file and the edits that the command line tool
-- makes: append, delete, update and the pruning of duplicates, for one file and for all. What
-- measures a file (its size and its SHA256) and the trust filter are parameters.
use rhel_fapolicyd.Base.{
  ℕ, ◌+◌, Bool, false, Option, none, some, List, [], ◌∷◌, ◌++◌, ltb, ◌==◌, if◌then◌else◌, length,
  take, Bytes, strneq, ℤ, pos, negsuc,
}
use rhel_fapolicyd.LList.Calls.{ListEntry}
use rhel_fapolicyd.LList.Removals.{remove_entry}
use rhel_fapolicyd.Trust.{
  Grants, LoadResult, loaded, wrecked, headers, buffer_size, data_string, trust_file_load,
}

-- The size and the SHA256 of a file; `none` where it cannot be opened or measured.
abbrev pub Measure : Type 0
Measure = Bytes → Option (ℕ × Bytes)

unfoldable pub make_data_string : Measure → Bytes → Option Bytes
make_data_string measure path = elim (measure path) [
  | none ↦ none
  | some (size, hash) ↦ some (data_string 0 size hash)
]

-- `data + 2`; `none` reads behind NULL or behind the end of the string.
abbrev pub omit_source : Option Bytes → Option Bytes
omit_source none = none
omit_source (some []) = none
omit_source (some (a ∷ [])) = none
omit_source (some (a ∷ b ∷ s)) = some s

-- `snprintf` into `buf[BUFFER_SIZE + 1]` and `fwrite` of as many bytes as it returns; `none` reads
-- behind the buffer.
unfoldable pub put_line : Bytes → Bytes → Option Bytes
put_line path text =
    let line = path ++ (b' ' ∷ (text ++ (10 ∷ []))) in
    let hlen = length line in
    if ltb hlen (buffer_size + 1)
    then some line
    else if hlen == buffer_size + 1
    then some (take buffer_size line ++ (0 ∷ []))
    else none

abbrev pub put_payload : Bytes → Option Bytes → Option Bytes
put_payload path none = none
put_payload path (some text) = put_line path text

abbrev pub put_before : Option Bytes → Option Bytes → Option Bytes
put_before none rest = none
put_before (some line) none = none
put_before (some line) (some rest) = some (line ++ rest)

unfoldable pub put_lines : List ListEntry → Option Bytes
unfolding put_line
put_lines [] = some []
put_lines ((path, payload) ∷ es) =
    put_before (put_payload path (omit_source payload)) (put_lines es)

abbrev pub put_headers : List Bytes → Bytes → Bytes
put_headers [] body = body
put_headers (h ∷ hs) body = h ++ put_headers hs body

-- What a writing comes to: the code and the file. `none` is a fault.
pub record Edited : Type 0 where
  pub rc : ℤ
  pub file : Option Bytes

abbrev pub written : Option Bytes → Option (ℕ × Option Bytes)
written none = none
written (some body) = some (0, some (put_headers headers body))

-- `writable`: whether `fopen(dest, "w")` succeeds.
unfoldable pub write_out_list : Bool → List ListEntry → Option Bytes → Option (ℕ × Option Bytes)
unfolding put_lines
write_out_list writable list file = if writable then written (put_lines list) else some (1, file)

-- The callers do not look at the code of `write_out_list`.
abbrev pub answer : ℤ → Option (ℕ × Option Bytes) → Option Edited
answer rc none = none
answer rc (some (_, file)) = some (record { rc = rc; file = file })

unfoldable pub measure_all : Measure → List ListEntry → List ListEntry
unfolding make_data_string
measure_all measure [] = []
measure_all measure ((path, payload) ∷ es) =
    (path, make_data_string measure path) ∷ measure_all measure es

unfoldable pub delete_entries : Bytes → List ListEntry → ℕ × List ListEntry
delete_entries path [] = (0, [])
delete_entries path ((index, payload) ∷ es) =
    let (count, left) = delete_entries path es in
    if strneq index path (length path) then (count + 1, left) else (count, (index, payload) ∷ left)

-- `allowed`: whether `filter_check` gives FILTER_ALLOW, or true without the filter.
unfoldable pub update_entries :
    (Bytes → Bool) → Measure → Bytes → List ListEntry → ℕ × List ListEntry
unfolding make_data_string
update_entries allowed measure path [] = (0, [])
update_entries allowed measure path ((index, payload) ∷ es) =
    let (count, rest) = update_entries allowed measure path es in
    if strneq index path (length path)
    then (if allowed index
        then (count + 1, (index, make_data_string measure index) ∷ rest)
        else (count, (index, payload) ∷ rest))
    else (count, (index, payload) ∷ rest)

-- The loop over the entries of the file; it stops once the list is empty.
unfoldable pub prune : List ListEntry → List ListEntry → List ListEntry
unfolding remove_entry
prune [] list = list
prune ((index, payload) ∷ es) list = elim (remove_entry index list) [
  | [] ↦ []
  | e ∷ left ↦ prune es (e ∷ left)
]

-- `if (count) write_out_list(&list, fpath)`
abbrev pub write_if_changed : Bool → Option Bytes → ℕ × List ListEntry → Option Edited
write_if_changed writable file (count, left) =
    if count == 0
    then some (record { rc = pos 0; file = file })
    else answer (pos count) (write_out_list writable left file)

module _ (mem : ℕ → Grants) (writable : Bool) where
  abbrev pub append_after : Measure → Option Bytes → List ListEntry → LoadResult → Option Edited
  append_after measure file list wrecked = none
  append_after measure file list (loaded rc st) =
      if rc == 2
      then some (record { rc = pos 1; file = file })
      else answer (pos 0) (write_out_list writable (st.list ++ measure_all measure list) file)

  unfoldable pub trust_file_append : Measure → Option Bytes → List ListEntry → Option Edited
  unfolding write_out_list measure_all trust_file_load
  trust_file_append measure file list =
      append_after measure file list (trust_file_load false mem file [] [])

  -- The switch on the code of the load, before the loop over the entries.
  abbrev pub edit_after :
      (List ListEntry → ℕ × List ListEntry) → Option Bytes → LoadResult → Option Edited
  edit_after edit file wrecked = none
  edit_after edit file (loaded rc st) =
      if rc == 1
      then some (record { rc = pos 0; file = file })
      else if rc == 2
      then some (record { rc = negsuc 0; file = file })
      else write_if_changed writable file (edit st.list)

  unfoldable pub trust_file_delete_path : Option Bytes → Bytes → Option Edited
  unfolding write_out_list trust_file_load delete_entries
  trust_file_delete_path file path =
      edit_after (delete_entries path) file (trust_file_load false mem file [] [])

  unfoldable pub trust_file_update_path :
      (Bytes → Bool) → Measure → Option Bytes → Bytes → Option Edited
  unfolding write_out_list trust_file_load update_entries
  trust_file_update_path allowed measure file path =
      edit_after (update_entries allowed measure path) file (trust_file_load false mem file [] [])

abbrev pub prune_after : List ListEntry → LoadResult → Option (ℤ × List ListEntry)
prune_after list wrecked = none
prune_after list (loaded rc st) =
    if rc == 1
    then some (negsuc 0, list)
    else if rc == 2
    then some (negsuc 0, list)
    else some (pos 0, prune st.list list)

unfoldable pub trust_file_rm_duplicates :
    (ℕ → Grants) → Option Bytes → List ListEntry → Option (ℤ × List ListEntry)
unfolding trust_file_load prune
trust_file_rm_duplicates mem file list = prune_after list (trust_file_load false mem file [] [])
