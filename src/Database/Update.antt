-- ===== src/Database/Update.antt =====
-- src/library/database.c: `delete_all_entries_db`, `create_database` and `update_database`, and the
-- records that the update thread is sent (`handle_record`). What `stop` is at each test is an argument.
use rhel_fapolicyd.Base.{
  ℕ, ◌+◌, ◌-◌, ◌^◌, ◌≡◌, ◌≢◌, ◌⊎◌, Bool, true, false, not, inl, inr, Option, none, some, List, [],
  ◌∷◌, ◌++◌, ◌==◌, ltb, if◌then◌else◌, length, take, drop, Bytes, Bool-cases, arith,
}
use rhel_fapolicyd.Strings.{skip_spaces}
use rhel_fapolicyd.Trust.{data_string}
use rhel_fapolicyd.Config.{isdigit}
use rhel_fapolicyd.Database.{negated, take_digits, take_plain}
use rhel_fapolicyd.Database.Lookup.{Db}
use rhel_fapolicyd.Database.Memfd.{do_memfd_update, inputs_of, do_memfd_update-rc}
use rhel_fapolicyd.Database.Store.{Txn, write_db}

-- The outcome is a code with the database; `drop_all` is what `mdb_drop` makes of it.
unfoldable pub delete_all_entries_db : Txn → (Db → Db) → Db → ℕ × Db
delete_all_entries_db txn drop_all db =
    if not txn.begin_ok
    then (1, db)
    else if not txn.dbi_ok
    then (2, db)
    else if not txn.put_ok
    then (3, db)
    else if not txn.commit_ok
    then (4, db)
    else (0, drop_all db)

-- The loop over the backends, `none` for one without a snapshot: whether it has been stopped, the
-- code, and the database.
unfoldable pub create_loop :
    (ℕ → Txn)
    → (Db → Bytes → Bytes → Db)
    → (ℕ → Bool)
    → ℕ
    → List (Option (List (Option Bytes)))
    → ℕ
    → Db
    → Bool × ℕ × Db
unfolding do_memfd_update
create_loop txns put stop n [] rc db = (stop n, rc, db)
create_loop txns put stop n (none ∷ backends) rc db =
    let rest = create_loop txns put stop (n + 1) backends rc db in
    if stop n then (true, rc, db) else rest
create_loop txns put stop n (some inputs ∷ backends) rc db =
    let u = do_memfd_update txns put inputs db in
    let rest = create_loop txns put stop (n + 1) backends u.rc u.db in
    if stop n then (true, rc, db) else rest

unfoldable pub create_database :
    (ℕ → Txn)
    → (Db → Bytes → Bytes → Db)
    → (ℕ → Bool)
    → List (Option (List (Option Bytes)))
    → Db
    → ℕ × Db
unfolding create_loop
create_database txns put stop backends db =
    let r = create_loop txns put stop 0 backends 0 db in if r.0 then (1, r.2) else (r.1, r.2)

-- What the update thread and the decision thread share.
pub record Shared : Type 0 where
  pub db : Db
  pub locked : Bool
  pub needs_flush : Bool

-- The tests of `stop` in `update_database`, in order.
pub record Stops : Type 0 where
  pub first : Bool
  pub deleted : Bool
  pub created : Bool
  pub flushed : Bool

abbrev pub unlock : Shared → Shared
unlock s = record s { locked = false }

-- From the creation on, under the lock.
abbrev pub finish_update : Stops → ℕ × Db → Shared → ℕ × Shared
finish_update stops (rc, db) s =
    (rc, unlock (record s { db = db; needs_flush = if stops.flushed then s.needs_flush else true }))

abbrev pub after_delete : Stops → (Db → ℕ × Db) → ℕ × Db → Shared → ℕ × Shared
after_delete stops create (rc, db) s =
    if not (rc == 0)
    then (rc, unlock (record s { db = db }))
    else if stops.deleted
    then (1, unlock (record s { db = db }))
    else finish_update stops (if stops.created then (1, db) else create db) s

-- `create` is the call of `create_database`.
unfoldable pub update_database : Stops → (Db → ℕ × Db) → (Db → ℕ × Db) → Shared → ℕ × Shared
update_database stops delete create s =
    if stops.first
    then (1, s)
    else after_delete stops create (delete s.db) (record s { locked = true })

-- `%lu`, which clamps where `strtoul` would report a range.
abbrev pub clamped : Bool → ℕ × Bytes → ℕ × Bytes
clamped negative (v, rest) = (if ltb v (2 ^ 64) then negated negative v else 2 ^ 64 - 1, rest)

abbrev pub lu_digits : Bool → Bytes → Option (ℕ × Bytes)
lu_digits negative [] = none
lu_digits negative (c ∷ s) =
    if isdigit c then some (clamped negative (take_digits 0 (c ∷ s))) else none

abbrev pub lu_signed : Bytes → Option (ℕ × Bytes)
lu_signed [] = none
lu_signed (c ∷ s) =
    if c == b'-'
    then lu_digits true s
    else if c == b'+'
    then lu_digits false s
    else lu_digits false (c ∷ s)

-- `sscanf(buffer, "%2048s %lu %64s", …)`; `none` where fewer than three words are read.
abbrev pub scan_hash : Bytes → ℕ → Bytes → Option (Bytes × ℕ × Bytes)
scan_hash path size [] = none
scan_hash path size (c ∷ s) = some (path, size, take 64 (c ∷ s))

abbrev pub scan_rest : Bytes → Option (ℕ × Bytes) → Option (Bytes × ℕ × Bytes)
scan_rest path none = none
scan_rest path (some (size, rest)) = scan_hash path size (take_plain (skip_spaces rest))

abbrev pub scan_path : Bytes → Bytes → Option (Bytes × ℕ × Bytes)
scan_path text [] = none
scan_path text (c ∷ s) =
    let path = take 2048 (c ∷ s) in
    scan_rest path (lu_signed (skip_spaces (drop (length path) text)))

unfoldable pub scan_update : Bytes → Option (Bytes × ℕ × Bytes)
unfolding take_plain skip_spaces
scan_update buffer = let text = skip_spaces buffer in scan_path text (take_plain text)

abbrev pub store_update : Txn → (Db → Bytes → Bytes → Db) → Db → Option (Bytes × ℕ × Bytes) → ℕ × Db
store_update txn put db none = (1, db)
store_update txn put db (some (path, size, hash)) =
    (0, (write_db txn put db path (data_string 0 size hash)).1)

-- The code of `write_db` is not looked at.
unfoldable pub handle_record : Bool → Txn → (Db → Bytes → Bytes → Db) → Db → Bytes → ℕ × Db
unfolding scan_update write_db
handle_record stop txn put db buffer =
    if stop then (1, db) else store_update txn put db (scan_update buffer)

-- What an update leaves.
pub record Updates (stops : Stops) (delete create : Db → ℕ × Db) (s : Shared) : Type 0 where
  pub released : (update_database stops delete create s).1.locked ≡ false
  pub outcome :
      ((update_database stops delete create s).0 ≢ 0)
      ⊎ (((delete s.db).0 ≡ 0)
          × ((create (delete s.db).1).0 ≡ 0)
          × ((update_database stops delete create s).1.db ≡ (create (delete s.db).1).1)
          × ((stops.flushed ≡ true)
              ⊎ ((update_database stops delete create s).1.needs_flush ≡ true)))

outcome_of :
    (stops : Stops) (create : Db → ℕ × Db) (r : ℕ × Db) (s : Shared)
    → ((after_delete stops create r s).0 ≢ 0)
      ⊎ ((r.0 ≡ 0)
          × ((create r.1).0 ≡ 0)
          × ((after_delete stops create r s).1.db ≡ (create r.1).1)
          × ((stops.flushed ≡ true) ⊎ ((after_delete stops create r s).1.needs_flush ≡ true)))
outcome_of stops create r s = ground arith

released_of :
    (stops : Stops) (create : Db → ℕ × Db) (r : ℕ × Db) (s : Shared)
    → (after_delete stops create r s).1.locked ≡ false
released_of stops create r s = ground arith

-- An update leaves the lock released, whatever happens. It answers 0 only where the deletion and the
-- creation both have, with the database that the creation has made of the emptied one; the caches
-- are then told to flush, unless `stop` has been set.
pub update_database-Updates :
    (stops : Stops) (delete create : Db → ℕ × Db) (s : Shared)
    → s.locked ≡ false
    → Updates stops delete create s
unfolding update_database
update_database-Updates stops delete create s free = elim (Bool-cases stops.first) [
  | inl stopped ↦ record { released = rw stopped free; outcome = inl (rw stopped (omega arith)) }
  | inr running ↦ record {
    released = rw running (released_of stops create (delete s.db) (record s { locked = true }));
    outcome = rw running (outcome_of stops create (delete s.db) (record s { locked = true }));
  }
]

create_loop-last :
    (txns : ℕ → Txn) (put : Db → Bytes → Bytes → Db) (n : ℕ)
    (backends : List (Option (List (Option Bytes)))) (lines : List Bytes) (rc : ℕ) (db : Db)
    → (create_loop txns put (λ k. false) n (backends ++ (some (inputs_of lines) ∷ [])) rc db).1 ≡ 0
unfolding create_loop
create_loop-last txns put n [] lines rc db = (do_memfd_update-rc txns put lines db).0
create_loop-last txns put n (none ∷ backends) lines rc db =
    create_loop-last txns put (n + 1) backends lines rc db
create_loop-last txns put n (some inputs ∷ backends) lines rc db =
    let u = do_memfd_update txns put inputs db in
    create_loop-last txns put (n + 1) backends lines u.rc u.db
