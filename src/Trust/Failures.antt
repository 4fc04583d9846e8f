-- ===== src/Trust/Failures.antt =====
-- src/library/trust-file.c: the edits after a load that does not reach the end of the file, and after
-- a file that cannot be written.
use rhel_fapolicyd.Base.{
  ℕ, ◌≡◌, refl, ap, Bool, true, false, some, List, [], ◌++◌, Bytes, pos, negsuc,
}
use rhel_fapolicyd.LList.Calls.{ListEntry}
use rhel_fapolicyd.Trust.{Grants, Loading, loaded, trust_file_load}
use rhel_fapolicyd.Trust.Edit.{
  Measure, answer, write_out_list, measure_all, trust_file_append, trust_file_delete_path,
  trust_file_update_path, trust_file_rm_duplicates,
}

-- What the edits do where the file has a line that does not parse.
pub record Refuses (mem : ℕ → Grants) (writable : Bool) (measure : Measure) (allowed : Bytes → Bool)
    (text path : Bytes) (list : List ListEntry) : Type 0 where
  pub appends :
      trust_file_append mem writable measure (some text) list
      ≡ some (record { rc = pos 1; file = some text })
  pub deletes :
      trust_file_delete_path mem writable (some text) path
      ≡ some (record { rc = negsuc 0; file = some text })
  pub updates :
      trust_file_update_path mem writable allowed measure (some text) path
      ≡ some (record { rc = negsuc 0; file = some text })
  pub prunes : trust_file_rm_duplicates mem (some text) list ≡ some (negsuc 0, list)

module _ (mem : ℕ → Grants) (measure : Measure) (text : Bytes) (list : List ListEntry)
    (st : Loading) where
  -- Where a load stops at a line that it cannot parse, every edit is refused: the append answers 1,
  -- the deletion, the update and the pruning -1, and neither the file nor the list is changed.
  pub load_error-Refuses :
      (writable : Bool) (allowed : Bytes → Bool) (path : Bytes)
      → trust_file_load false mem (some text) [] [] ≡ loaded 2 st
      → Refuses mem writable measure allowed text path list
  unfolding trust_file_append trust_file_delete_path trust_file_update_path trust_file_rm_duplicates
  load_error-Refuses writable allowed path h = record {
    appends = rw h refl;
    deletes = rw h refl;
    updates = rw h refl;
    prunes = rw h refl;
  }

  -- Where a load runs out of memory behind the entries `st.list`, an append answers 0 and writes these
  -- entries and the new ones over the file: the entries behind them are lost.
  pub memory_error-append :
      (after : Bytes)
      → trust_file_load false mem (some text) [] [] ≡ loaded 3 st
      → write_out_list true (st.list ++ measure_all measure list) (some text) ≡ some (0, some after)
      → trust_file_append mem true measure (some text) list
        ≡ some (record { rc = pos 0; file = some after })
  unfolding trust_file_append
  memory_error-append after h w = rw h (ap (answer (pos 0)) w)

  -- An append to a file that reads but cannot be opened for writing answers 0, and the file is as it was.
  pub write_error-append :
      trust_file_load false mem (some text) [] [] ≡ loaded 0 st
      → trust_file_append mem false measure (some text) list
        ≡ some (record { rc = pos 0; file = some text })
  unfolding trust_file_append write_out_list
  write_error-append h = rw h refl
