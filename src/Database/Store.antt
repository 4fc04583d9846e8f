-- ===== src/Database/Store.antt =====
-- src/library/database.c: `write_db`, and `check_data_presence`, which looks for a stored value.
use rhel_fapolicyd.Base.{
  ℕ, zero, suc, ◌+◌, Bool, true, false, not, Option, none, some, if◌then◌else◌, Bytes, streq,
}
use rhel_fapolicyd.Database.{key_of}
use rhel_fapolicyd.Database.Lookup.{
  Db, Cursor, Operation, read_data, read_data_dup, Read, read_error, no_data, value, lt_read_db,
  unset,
}

-- Whether each step of a transaction succeeds.
pub record Txn : Type 0 where
  pub begin_ok : Bool
  pub dbi_ok : Bool
  pub put_ok : Bool
  pub commit_ok : Bool

abbrev pub put_key : Txn → (Bytes → Db) → Db → Option Bytes → ℕ × Db
put_key txn put db none = (5, db)
put_key txn put db (some key) =
    if not txn.put_ok then (3, db) else if not txn.commit_ok then (4, db) else (0, put key)

-- The code and the database; `put` is what LMDB makes of it when the value is put at a key.
unfoldable pub write_db : Txn → (Db → Bytes → Bytes → Db) → Db → Bytes → Bytes → ℕ × Db
unfolding key_of
write_db txn put db idx text =
    if not txn.begin_ok
    then (1, db)
    else if not txn.dbi_ok
    then (2, db)
    else put_key txn (λ key. put db key text) db (key_of db.hash_of db.maxkeysize idx)

abbrev pub presence_round :
    Bytes → ℕ → Cursor × Read → (Cursor → Option (Bool × ℕ)) → Option (Bool × ℕ)
presence_round text cnt (c, read_error) more = some (false, cnt)
presence_round text cnt (c, no_data) more = some (false, cnt)
presence_round text cnt (c, value v) more = if streq text v then some (true, cnt + 1) else more c

-- The loop; `none`: the fuel does not follow it to its end.
unfoldable pub presence_loop : ℕ → Db → Cursor → Bytes → Bytes → Operation → ℕ → Option (Bool × ℕ)
presence_loop zero db c index text op cnt = none
presence_loop (suc fuel) db c index text op cnt =
    presence_round text cnt (lt_read_db db c index op)
      (λ c'. presence_loop fuel db c' index text read_data_dup (cnt + 1))

-- `found` and `*matched`.
unfoldable pub check_data_presence : ℕ → Db → Bytes → Bytes → Option (Bool × ℕ)
unfolding presence_loop lt_read_db
check_data_presence fuel db index text = presence_loop fuel db unset index text read_data 0
