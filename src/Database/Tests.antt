-- ===== src/Database/Tests.antt =====
-- The trust database on concrete records.
use rhel_fapolicyd.Base.{
  ℕ, Option, zero, suc, ◌+◌, ◌<◌, length, ◌≡◌, refl, true, false, inl, none, some, List, [], ◌∷◌,
  ◌++◌, if◌then◌else◌, replicate, Bytes, codes, streq, streq_iff, pos, arith,
}
use rhel_fapolicyd.Config.{in_sha256}
use rhel_fapolicyd.Strings.{skip_spaces}
use rhel_fapolicyd.Trust.{alg_sha256, alg_none, data_string, file_hash_length}
use rhel_fapolicyd.Trust.Decimal.{decimal}
use rhel_fapolicyd.Trust.Line.{AllPlain}
use rhel_fapolicyd.Database.{
  parse_lmdb_record, digest_buffer, take_digits, key_of, file_hash_alg_fast,
}
use rhel_fapolicyd.Database.Backed.{Answered, check_trust_database-Answered}
use rhel_fapolicyd.Database.Complete.{
  Stored, IsStored, values, any_stored, read_trust_db-any_stored,
}
use rhel_fapolicyd.Database.Copy.{AllCopied, check_database_copy, check_database_copy-AllCopied}
use rhel_fapolicyd.Database.Keys.{PutLaws, Present, write_db-Present}
use rhel_fapolicyd.Database.Lookup.{
  Db, FileInfo, Probe, Symlinks, check_trust_database, read_trust_db,
}
use rhel_fapolicyd.Database.Memfd.{
  buff_size, split_record, do_memfd_update, inputs_of, split_record-data_string, do_memfd_update-rc,
}
use rhel_fapolicyd.Database.Records.{AllNonzero, is_sha256, parse_lmdb_record-data_string}
use rhel_fapolicyd.Database.Update.{
  Shared, Stops, Updates, delete_all_entries_db, handle_record, update_database-Updates,
}
use rhel_fapolicyd.Database.Store.{Txn, write_db}

abbrev zeros : Bytes
zeros = replicate 64 b'0'

plain_zeros : (n : ℕ) → AllPlain (replicate n b'0')
plain_zeros zero = tt
plain_zeros (suc n) = (refl, plain_zeros n)

nonzero_zeros : (n : ℕ) → AllNonzero (replicate n b'0')
nonzero_zeros zero = tt
nonzero_zeros (suc n) = (omega arith, nonzero_zeros n)

parse_lmdb_record-data_string_example :
    parse_lmdb_record (data_string 2 5 zeros) []
    ≡ some (record {
      tsource = 2;
      size = pos 5;
      digest = zeros;
      alg = alg_sha256;
      buffer = digest_buffer zeros [];
    })
unfolding file_hash_length
parse_lmdb_record-data_string_example =
    parse_lmdb_record-data_string 2 5 zeros [] alg_sha256 (omega arith) (omega arith)
      (plain_zeros 64) (nonzero_zeros 64) is_sha256 refl

abbrev stored : Stored
stored = record { source = 2; size = 5; digest = zeros }

abbrev db : Db
db = record { hash_of = λ p. some zeros; maxkeysize = 511; get = λ k. values (stored ∷ []) }

abbrev probe : Probe
probe = record { get_ima_hash = none; get_hash_from_fd2 = λ size alg. some zeros }

abbrev info : FileInfo
info = record {
  device = 0;
  inode = 0;
  mode = 0;
  size = 5;
  tv_sec = 0;
  tv_nsec = 0;
  digest_alg = alg_none;
  digest = [];
}

abbrev links : Symlinks
links = record { lib64_symlink = true; lib_symlink = true; bin_symlink = true; sbin_symlink = true }

abbrev ls : Bytes
ls = codes "/usr/bin/ls"

keyed : key_of db.hash_of db.maxkeysize ls ≡ some ls
unfolding key_of
keyed = refl

trusted : check_trust_database in_sha256 probe db links true ls true [] [] info ≡ pos 1
unfolding check_trust_database parse_lmdb_record data_string decimal take_digits skip_spaces streq
    file_hash_length
trusted = refl

check_trust_database-Answered_example : Answered in_sha256 probe db links ls 5
check_trust_database-Answered_example =
    check_trust_database-Answered in_sha256 probe db links ls [] [] info refl true trusted

stored-IsStored : IsStored stored
stored-IsStored = record {
  small = omega arith;
  fits = omega arith;
  plain = plain_zeros 64;
  nonzero = nonzero_zeros 64;
  width = refl;
}

read_trust_db-any_stored_example :
    ((read_trust_db in_sha256 probe db ls true [] info).res ≡ any_stored 5 zeros (stored ∷ []))
    × ((read_trust_db in_sha256 probe db ls true [] info).error ≡ false)
read_trust_db-any_stored_example =
    read_trust_db-any_stored probe db ls ls (stored ∷ []) [] zeros info keyed refl
      (stored-IsStored, tt) (omega arith) refl refl

-- A database of one value for each key.
abbrev put : Db → Bytes → Bytes → Db
put d key text = record d { get = λ k. if streq key k then some text ∷ [] else d.get k }

put-PutLaws : PutLaws put
put-PutLaws = record {
  keeps_hash = λ d key text. refl;
  keeps_size = λ d key text. refl;
  values = λ d key text. text ∷ [];
  readable =
      λ d key text. let same : streq key key ≡ true = (streq_iff key key).1 refl in rw same refl;
  holds = λ d key text. inl refl;
}

abbrev smooth : Txn
smooth = record { begin_ok = true; dbi_ok = true; put_ok = true; commit_ok = true }

abbrev long_path : Bytes
long_path = replicate 512 b'a'

-- Two paths of one key, beyond the limit of 511 bytes.
stores_long :
    write_db smooth put db (long_path ++ codes "/x") (codes "2 5 00")
    ≡ (0, put db (zeros ++ (0 ∷ [])) (codes "2 5 00"))
unfolding write_db
stores_long = refl

write_db-Present_example :
    Present (put db (zeros ++ (0 ∷ [])) (codes "2 5 00")) (long_path ++ codes "/y") (codes "2 5 00")
write_db-Present_example =
    write_db-Present put put-PutLaws db (codes "2 5 00") smooth (long_path ++ codes "/x")
      (long_path ++ codes "/y") (put db (zeros ++ (0 ∷ [])) (codes "2 5 00")) refl stores_long

short_line : length (codes "/a b") + 1 + length (data_string 2 5 zeros) + 1 < buff_size
unfolding data_string decimal
short_line = omega arith

split_record-data_string_example :
    split_record (codes "/a b" ++ (b' ' ∷ (data_string 2 5 zeros ++ (10 ∷ []))))
    ≡ some (codes "/a b", data_string 2 5 zeros)
split_record-data_string_example =
    split_record-data_string (codes "/a b") 2 5 zeros refl (plain_zeros 64) short_line

abbrev broken : ℕ → Txn
broken n = record { begin_ok = false; dbi_ok = true; put_ok = true; commit_ok = true }

abbrev snapshot : List Bytes
snapshot = (codes "/a 2 5 00" ++ (10 ∷ [])) ∷ codes "too long" ∷ []

do_memfd_update-rc_example :
    ((do_memfd_update broken put (inputs_of snapshot) db).rc ≡ 0)
    × ((do_memfd_update broken put (inputs_of snapshot) db).entries ≡ 2)
do_memfd_update-rc_example = do_memfd_update-rc broken put snapshot db

-- What is left of a line that the buffer cut stands for a record of its own.
tail_record : split_record (codes "il/x 2 5 00" ++ (10 ∷ [])) ≡ some (codes "il/x", codes "2 5 00")
unfolding split_record
tail_record = refl

-- A digest of 35 bytes is told from another by what its buffer held.
stale_width : (file_hash_alg_fast (digest_buffer (replicate 35 b'0') []) ≡ alg_sha256) → ⊥
unfolding file_hash_alg_fast
stale_width h = cc

-- A database whose every key has one value, and a snapshot of one line.
abbrev one_value : Db
one_value = record { hash_of = λ p. none; maxkeysize = 511; get = λ k. some (codes "2 5 00") ∷ [] }

abbrev backends : List (Option (List (Option Bytes)))
backends = some (some (codes "/a 2 5 00" ++ (10 ∷ [])) ∷ []) ∷ []

copied : check_database_copy 3 true 1 one_value backends ≡ some (pos 0)
unfolding check_database_copy streq
copied = refl

check_database_copy-AllCopied_example : AllCopied one_value backends
check_database_copy-AllCopied_example =
    check_database_copy-AllCopied 3 one_value true 1 backends copied

abbrev shared : Shared
shared = record { db = one_value; locked = false; needs_flush = false }

abbrev unstopped : Stops
unstopped = record { first = false; deleted = false; created = false; flushed = false }

update_database-Updates_example :
    Updates unstopped (delete_all_entries_db smooth (λ d. d)) (λ d. (0, d)) shared
update_database-Updates_example =
    update_database-Updates unstopped (delete_all_entries_db smooth (λ d. d)) (λ d. (0, d)) shared
      refl

-- A path with a blank is refused, and a digest of more than 64 bytes is cut.
blank_refused : (handle_record false smooth put db (codes "/a b 5 00")).0 ≡ 1
unfolding handle_record take_digits
blank_refused = refl

record_taken : (handle_record false smooth put db (codes "/a 5 00")).0 ≡ 0
unfolding handle_record take_digits
record_taken = refl
