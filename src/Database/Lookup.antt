-- ===== src/Database/Lookup.antt =====
-- src/library/database.c: the reads of the database with a cursor, and `read_trust_db` and
-- `check_trust_database`. A database answers each key with its values in the order of the cursor;
-- `none` is a read that LMDB refuses. `malloc` gives memory, but for the hash of a key.
use rhel_fapolicyd.Base.{
  int_eq, ℕ, zero, suc, ◌-◌, ◌*◌, Bool, true, false, not, ◌&&◌, ◌||◌, Option, none, some, List, [],
  ◌∷◌, leb, if◌then◌else◌, length, take, drop, Bytes, codes, streq, strneq, ℤ, pos, negsuc,
}
use rhel_fapolicyd.Config.{Integrity, in_none, in_size, in_ima, in_sha256}
pub use rhel_fapolicyd.Process.{FileInfo}
use rhel_fapolicyd.Trust.{HashAlg, alg_none, digest_string_max, file_hash_length}
use rhel_fapolicyd.Database.{LmdbRecord, parse_lmdb_record, key_of}

-- `get` is what the values of a key read as; a key of no value is MDB_NOTFOUND.
pub record Db : Type 0 where
  pub hash_of : Bytes → Option Bytes
  pub maxkeysize : ℕ
  pub get : Bytes → List (Option Bytes)

pub data Operation : Type 0 where
  read_data read_test_key read_data_dup : Operation

-- The number of values at the cursor's key, and those behind it.
pub record Cursor : Type 0 where
  pub nleaves : ℕ
  pub behind : List (Option Bytes)

-- NULL with the error, NULL without, or the value; for READ_TEST_KEY some value stands for the name
-- of the database.
pub data Read : Type 0 where
  read_error no_data : Read
  value : Bytes → Read

abbrev pub read_next : ℕ → List (Option Bytes) → Cursor × Read
read_next n [] = (record { nleaves = n; behind = [] }, no_data)
read_next n (none ∷ vs) = (record { nleaves = n; behind = vs }, read_error)
read_next n (some v ∷ vs) = (record { nleaves = n; behind = vs }, value v)

abbrev pub read_key : Db → Cursor → Operation → Option Bytes → Cursor × Read
read_key db c op none = (c, read_error)
read_key db c read_data (some key) = read_next (length (db.get key)) (db.get key)
read_key db c read_test_key (some key) = read_next (length (db.get key)) (db.get key)
read_key db c read_data_dup (some key) =
    if leb c.nleaves 1 then (c, no_data) else read_next c.nleaves c.behind

unfoldable pub lt_read_db : Db → Cursor → Bytes → Operation → Cursor × Read
unfolding key_of
lt_read_db db c index op = read_key db c op (key_of db.hash_of db.maxkeysize index)

-- What measures the file at the descriptor: the digest of its IMA attribute with its algorithm, and
-- the digest of its bytes.
pub record Probe : Type 0 where
  pub get_ima_hash : Option (HashAlg × Bytes)
  pub get_hash_from_fd2 : ℕ → HashAlg → Option Bytes

-- The result, `*error` and what has become of the file's record.
pub record Verdict : Type 0 where
  pub res : Bool
  pub error : Bool
  pub info : FileInfo

abbrev pub verdict : Bool → Bool → FileInfo → Verdict
verdict res error info = record { res = res; error = error; info = info }

-- `info` with a digest cached in it.
abbrev pub cache : FileInfo → HashAlg → Bytes → FileInfo
cache info alg digest = record info {
  digest_alg = alg;
  digest = take (digest_string_max - 1) digest;
}

-- `record.size == info->size && strcmp(record.digest, digest) == 0`
abbrev pub same_file : LmdbRecord → FileInfo → Bytes → Bool
same_file rec info digest = int_eq rec.size (pos info.size) && streq rec.digest digest

-- One round for a record: a verdict, or another round with what it keeps, the digest at hand.
pub data Round : Type 0 where
  settled : Verdict → Round
  retry : FileInfo → Bytes → Round

unfoldable pub size_round : LmdbRecord → FileInfo → Bytes → Round
size_round rec info digest =
    if int_eq rec.size (pos info.size) then settled (verdict true false info) else retry info digest

-- `calc_digest`, cut to the width of the record's algorithm.
abbrev pub cut_digest : LmdbRecord → Bytes → Bytes
cut_digest rec hash = take (file_hash_length rec.alg * 2) (take (digest_string_max - 1) hash)

abbrev pub compare_digest : LmdbRecord → FileInfo → Bytes → Round
compare_digest rec info digest =
    if same_file rec info digest then settled (verdict true false info) else retry info digest

abbrev pub first_digest : LmdbRecord → FileInfo → Option Bytes → Round
first_digest rec info none = settled (verdict false true info)
first_digest rec info (some hash) =
    let digest = cut_digest rec hash in compare_digest rec (cache info rec.alg digest) digest

-- The hash is calculated in the first round only.
unfoldable pub sha256_round : Probe → Bool → LmdbRecord → FileInfo → Bytes → Round
unfolding file_hash_length
sha256_round probe first rec info digest =
    if first
    then first_digest rec info (probe.get_hash_from_fd2 info.size rec.alg)
    else compare_digest rec info digest

-- The rehash with the algorithm of the attribute, which has not matched.
abbrev pub ima_rehash : LmdbRecord → FileInfo → HashAlg → Bytes → Option Bytes → Round
ima_rehash rec info alg sha_xattr none = settled (verdict false true info)
ima_rehash rec info alg sha_xattr (some hash) =
    let digest = take (digest_string_max - 1) hash in
    let info' = cache info alg digest in
    if same_file rec info' digest then settled (verdict true false info') else retry info' sha_xattr

abbrev pub is_no_alg : HashAlg → Bool
is_no_alg alg_none = true
is_no_alg _ = false

abbrev pub ima_first : Probe → LmdbRecord → FileInfo → Option (HashAlg × Bytes) → Round
ima_first probe rec info none = settled (verdict false true info)
ima_first probe rec info (some (alg, sha_xattr)) =
    if same_file rec info sha_xattr
    then settled (verdict true false (cache info alg sha_xattr))
    else if not (is_no_alg alg)
    then ima_rehash rec info alg sha_xattr (probe.get_hash_from_fd2 info.size alg)
    else retry info sha_xattr

-- Later rounds know no algorithm: `ima_alg` is FILE_HASH_ALG_NONE there.
unfoldable pub ima_round : Probe → Bool → LmdbRecord → FileInfo → Bytes → Round
ima_round probe first rec info sha_xattr =
    if first
    then ima_first probe rec info probe.get_ima_hash
    else if same_file rec info sha_xattr
    then settled (verdict true false (cache info alg_none sha_xattr))
    else retry info sha_xattr

unfoldable pub check_record : Integrity → Probe → Bool → LmdbRecord → FileInfo → Bytes → Round
unfolding size_round sha256_round ima_round
check_record in_none probe first rec info digest = settled (verdict false true info)
check_record in_size probe first rec info digest = size_round rec info digest
check_record in_ima probe first rec info digest = ima_round probe first rec info digest
check_record in_sha256 probe first rec info digest = sha256_round probe first rec info digest

abbrev pub operation_of : Bool → Operation
operation_of first = if first then read_data else read_data_dup

-- A value read, parsed and checked. The digest's buffer holds what the record before left there.
abbrev pub check_value : Integrity → Probe → Bool → FileInfo → Bytes → Option LmdbRecord → Round
check_value mode probe first info digest none = settled (verdict true true info)
check_value mode probe first info digest (some rec) = check_record mode probe first rec info digest

abbrev pub buffer_after : Bytes → Option LmdbRecord → Bytes
buffer_after old none = old
buffer_after old (some rec) = rec.buffer

abbrev pub read_round : Integrity → Probe → Bool → FileInfo → Bytes → Bytes → Cursor × Read → Round
read_round mode probe first info digest old (c, read_error) = settled (verdict false true info)
read_round mode probe first info digest old (c, no_data) = settled (verdict false false info)
read_round mode probe first info digest old (c, value v) =
    check_value mode probe first info digest (parse_lmdb_record v old)

abbrev pub old_after : Bytes → Cursor × Read → Bytes
old_after old (c, value v) = buffer_after old (parse_lmdb_record v old)
old_after old (c, _) = old

abbrev pub settle_round : Round → (FileInfo → Bytes → Verdict) → Verdict
settle_round (settled v) more = v
settle_round (retry info digest) more = more info digest

-- The rounds from `retry_res` on; the fuel is 128 less the number of rounds made.
unfoldable pub read_rounds :
    ℕ → Integrity → Probe → Db → Bytes → Bool → Cursor → Bytes → FileInfo → Bytes → Verdict
unfolding parse_lmdb_record check_record lt_read_db
read_rounds zero mode probe db path first c old info digest = verdict false true info
read_rounds (suc fuel) mode probe db path first c old info digest =
    let r = lt_read_db db c path (operation_of first) in
    settle_round (read_round mode probe first info digest old r) (λ info' digest'.
      read_rounds fuel mode probe db path false r.0 (old_after old r) info' digest')

-- No integrity check: the key is looked for.
abbrev pub test_key : FileInfo → Cursor × Read → Verdict
test_key info (c, read_error) = verdict false true info
test_key info (c, no_data) = verdict false false info
test_key info (c, value v) = verdict true false info

abbrev pub is_in_none : Integrity → Bool
is_in_none in_none = true
is_in_none _ = false

-- What the cursor is before it is set.
abbrev pub unset : Cursor
unset = record { nleaves = 0; behind = [] }

-- `has_info`: whether the caller gives the record of a file. `old` is the
-- uninitialised buffer.
unfoldable pub read_trust_db : Integrity → Probe → Db → Bytes → Bool → Bytes → FileInfo → Verdict
unfolding read_rounds lt_read_db
read_trust_db mode probe db path has_info old info =
    if not (is_in_none mode) && has_info
    then read_rounds 127 mode probe db path true unset old info []
    else test_key info (lt_read_db db unset path read_test_key)

-- The top directories that are links into /usr.
pub record Symlinks : Type 0 where
  pub lib64_symlink : Bool
  pub lib_symlink : Bool
  pub bin_symlink : Bool
  pub sbin_symlink : Bool

unfoldable pub is_retried : Symlinks → Bytes → Bool
unfolding strneq
is_retried l path =
    let below = drop 5 path in
    (l.lib64_symlink || (l.lib_symlink || (l.bin_symlink || l.sbin_symlink)))
    && (strneq path (codes "/usr/") 5
        && (l.lib64_symlink && strneq below (codes "lib64/") 6
            || (l.lib_symlink && strneq below (codes "lib/") 4
                || (l.bin_symlink && strneq below (codes "bin/") 4
                    || l.sbin_symlink && strneq below (codes "sbin/") 5))))

-- -1 for an error, 1 for a trusted file, 0 otherwise.
abbrev pub answer_of : Verdict → ℤ
answer_of v = if v.error then negsuc 0 else if v.res then pos 1 else pos 0

-- The branches on the two searches; `retried` is the test before the second.
abbrev pub answer_from : Bool → Verdict → Bool → Verdict → ℤ
answer_from started first retried second =
    if not started
    then negsuc 0
    else if first.error
    then negsuc 0
    else if first.res
    then pos 1
    else if retried
    then answer_of second
    else pos 0

-- `started`: whether the transaction of the reads starts. The second search has the record of the
-- file that the first has left, and `old'` as its uninitialised buffer.
unfoldable pub check_trust_database :
    Integrity → Probe → Db → Symlinks → Bool → Bytes → Bool → Bytes → Bytes → FileInfo → ℤ
unfolding read_trust_db is_retried
check_trust_database mode probe db links started path has_info old old' info =
    let first = read_trust_db mode probe db path has_info old info in
    answer_from started first (is_retried links path)
      (read_trust_db mode probe db (drop 4 path) has_info old' first.info)
