-- ===== src/Database/Complete.antt =====
-- src/library/database.c: under sha256, `read_trust_db` is a search of the records of a path.
use rhel_fapolicyd.Base.{
  pos, ℕ, zero, suc, ◌^◌, ◌≤◌, ◌<◌, ◌≡◌, refl, ap, ◌∙◌, Bool, true, false, ◌&&◌, inl, inr, Option,
  some, List, [], ◌∷◌, leb, ◌==◌, if◌then◌else◌, length, take, Bytes, streq, Bool-cases, arith,
}
use rhel_fapolicyd.Config.{in_sha256}
use rhel_fapolicyd.Trust.{alg_sha256, data_string, file_hash_length}
use rhel_fapolicyd.Trust.Line.{AllPlain, take_all}
use rhel_fapolicyd.Database.{LmdbRecord, parse_lmdb_record, digest_buffer, key_of}
use rhel_fapolicyd.Database.Keys.{reads_at}
use rhel_fapolicyd.Database.Lookup.{
  Db, Cursor, read_data, read_data_dup, FileInfo, Probe, Verdict, cache, same_file, compare_digest,
  check_record, sha256_round, settle_round, read_rounds, unset, read_trust_db,
}
use rhel_fapolicyd.Database.Records.{AllNonzero, is_sha256, parse_lmdb_record-data_string}

-- The data of a path as backends store it.
pub record Stored : Type 0 where
  pub source : ℕ
  pub size : ℕ
  pub digest : Bytes

abbrev pub text_of : Stored → Bytes
text_of s = data_string s.source s.size s.digest

pub record IsStored (s : Stored) : Type 0 where
  pub small : s.source < 2 ^ 32
  pub fits : s.size < 2 ^ 63
  pub plain : AllPlain s.digest
  pub nonzero : AllNonzero s.digest
  pub width : length s.digest ≡ 64

abbrev pub AllStored : List Stored → Type 0
AllStored [] = Unit
AllStored (s ∷ ss) = IsStored s × AllStored ss

abbrev pub values : List Stored → List (Option Bytes)
values [] = []
values (s ∷ ss) = some (text_of s) ∷ values ss

abbrev pub same_stored : ℕ → Bytes → Stored → Bool
same_stored size digest s = s.size == size && streq s.digest digest

-- Whether a record has the size and the digest.
unfoldable pub any_stored : ℕ → Bytes → List Stored → Bool
any_stored size digest [] = false
any_stored size digest (s ∷ ss) =
    if same_stored size digest s then true else any_stored size digest ss

abbrev record_of : Stored → Bytes → LmdbRecord
record_of s old = record {
  tsource = s.source;
  size = pos s.size;
  digest = s.digest;
  alg = alg_sha256;
  buffer = digest_buffer s.digest old;
}

parse-text_of :
    (s : Stored) (old : Bytes)
    → IsStored s
    → parse_lmdb_record (text_of s) old ≡ some (record_of s old)
unfolding file_hash_length
parse-text_of s old h =
    parse_lmdb_record-data_string s.source s.size s.digest old alg_sha256 h.small h.fits h.plain
      h.nonzero is_sha256 h.width

abbrev Gives : Bool → Verdict → Type 0
Gives b v = (v.res ≡ b) × (v.error ≡ false)

compare-Gives :
    (s : Stored) (old : Bytes) (size : ℕ) (digest : Bytes) (info : FileInfo) (rest : Bool)
    (more : FileInfo → Bytes → Verdict)
    → info.size ≡ size
    → Gives rest (more info digest)
    → Gives
        (if same_stored size digest s then true else rest)
        (settle_round (compare_digest (record_of s old) info digest) more)
compare-Gives s old size digest info rest more at h =
    let test : same_file (record_of s old) info digest ≡ same_stored size digest s =
      ap (λ n. s.size == n && streq s.digest digest) at in
    elim (Bool-cases (same_stored size digest s)) [
      | inl same ↦ rw (test, same) (refl, refl)
      | inr other ↦ rw (test, other) h
    ]

module _ (probe : Probe) (db : Db) (path key : Bytes) (size : ℕ) (digest : Bytes)
    (keyed : key_of db.hash_of db.maxkeysize path ≡ some key) where
  abbrev at_values : ℕ → List Stored → Cursor
  at_values n ss = record { nleaves = n; behind = values ss }

  later :
      (fuel n : ℕ) (ss : List Stored) (old : Bytes) (info : FileInfo)
      → AllStored ss
      → info.size ≡ size
      → 1 < n
      → length ss < fuel
      → Gives
          (any_stored size digest ss)
          (read_rounds fuel in_sha256 probe db path false (at_values n ss) old info digest)
  unfolding read_rounds any_stored
  later zero n ss old info h at several enough = absurd (omega arith)
  later (suc fuel) n [] old info h at several enough =
      let many : leb n 1 ≡ false = ground arith in
      rw (reads_at db path [] key keyed (at_values n []) read_data_dup, many) (refl, refl)
  later (suc fuel) n (s ∷ ss) old info h at several enough =
      let many : leb n 1 ≡ false = ground arith in
      rw
        (
          reads_at db path [] key keyed (at_values n (s ∷ ss)) read_data_dup,
          many,
          parse-text_of s old h.0,
        )
        (compare-Gives s old size digest info _ _ at
          (later fuel n ss (digest_buffer s.digest old) info h.1 at several (omega arith)))

  alone :
      (fuel : ℕ) (old : Bytes) (info : FileInfo)
      → 0 < fuel
      → Gives false
          (read_rounds fuel in_sha256 probe db path false (at_values 1 []) old info digest)
  unfolding read_rounds
  alone zero old info h = absurd (omega arith)
  alone (suc fuel) old info h =
      rw (reads_at db path [] key keyed (at_values 1 []) read_data_dup) (refl, refl)

  after_first :
      (fuel : ℕ) (t : List Stored) (old : Bytes) (info : FileInfo)
      → AllStored t
      → info.size ≡ size
      → length t < fuel
      → Gives (any_stored size digest t) (
          read_rounds fuel in_sha256 probe db path false
            (at_values (suc (length (values t))) t)
            old
            info
            digest)
  unfolding any_stored
  after_first fuel [] old info h at enough = alone fuel old info (omega arith)
  after_first fuel (s ∷ ss) old info h at enough =
      later fuel (suc (suc (length (values ss)))) (s ∷ ss) old info h at (omega arith) enough

  rounds :
      (fuel : ℕ) (ss : List Stored) (old hash : Bytes) (info : FileInfo)
      → AllStored ss
      → info.size ≡ size
      → length ss < fuel
      → db.get key ≡ values ss
      → probe.get_hash_from_fd2 info.size alg_sha256 ≡ some hash
      → take 64 (take 135 hash) ≡ digest
      → Gives
          (any_stored size digest ss)
          (read_rounds fuel in_sha256 probe db path true unset old info [])
  unfolding read_rounds any_stored check_record sha256_round file_hash_length
  rounds zero ss old hash info h at enough e g w = absurd (omega arith)
  rounds (suc fuel) [] old hash info h at enough e g w =
      rw (reads_at db path [] key keyed unset read_data, e) (refl, refl)
  rounds (suc fuel) (s ∷ ss) old hash info h at enough e g w =
      rw (reads_at db path [] key keyed unset read_data, e, parse-text_of s old h.0, g, w)
        (compare-Gives s old size digest (cache info alg_sha256 digest) _ _ at (
          after_first fuel ss (digest_buffer s.digest old) (cache info alg_sha256 digest) h.1 at
            (omega arith)))

module _ (probe : Probe) (db : Db) (path key : Bytes) (ss : List Stored) (old hash : Bytes)
    (info : FileInfo) (keyed : key_of db.hash_of db.maxkeysize path ≡ some key)
    (e : db.get key ≡ values ss) (h : AllStored ss) (few : length ss ≤ 126)
    (g : probe.get_hash_from_fd2 info.size alg_sha256 ≡ some hash) (width : length hash ≡ 64) where
  -- Under sha256, for a path with at most 126 records, each with a size below 2 ^ 63 and a SHA256, and a file whose SHA256 can be
  -- taken: `read_trust_db` meets no error, and its result is whether a record has the file's size and
  -- its digest.
  pub read_trust_db-any_stored :
      ((read_trust_db in_sha256 probe db path true old info).res ≡ any_stored info.size hash ss)
      × ((read_trust_db in_sha256 probe db path true old info).error ≡ false)
  unfolding read_trust_db
  read_trust_db-any_stored =
      let whole : take 64 (take 135 hash) ≡ hash =
        ap (take 64) (take_all 135 hash (omega arith)) ∙ take_all 64 hash (omega arith) in
      rounds probe db path key info.size hash keyed 127 ss old hash info h refl (omega arith) e g
        whole
