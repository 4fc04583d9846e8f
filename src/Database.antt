-- ===== src/Database.antt =====
-- src/library/database.c: the records of the trust database, their keys, and the question whether a
-- file is trusted. LMDB, SHA512 and what measures a file are parameters. This module has the records
-- and the keys.
pub mod Backed
pub mod Complete
pub mod Copy
pub mod Keys
pub mod Lookup
pub mod Memfd
mod Presence
pub mod Records
pub mod Store
mod Tests
pub mod Trusted
pub mod Update
use rhel_fapolicyd.Base.{
  ℤ, pos, negsuc, ℕ, ◌+◌, ◌-◌, ◌*◌, ◌%◌, ◌^◌, Bool, true, false, ◌||◌, Option, none, some, List, [],
  ◌∷◌, ◌++◌, ltb, leb, ◌==◌, if◌then◌else◌, length, take, drop, get_or, Bytes,
}
use rhel_fapolicyd.Config.{isdigit}
use rhel_fapolicyd.Strings.{isspace, skip_spaces}
use rhel_fapolicyd.Trust.{
  HashAlg, alg_none, alg_md5, alg_sha1, alg_sha256, alg_sha512, digest_string_max, file_hash_length,
}

-- The digits at the front of a text, read behind `n`, and what follows them.
unfoldable pub take_digits : ℕ → Bytes → ℕ × Bytes
take_digits n [] = (n, [])
take_digits n (c ∷ s) =
    let more = take_digits (10 * n + (c - 48)) s in if isdigit c then more else (n, c ∷ s)

abbrev pub negated : Bool → ℕ → ℕ
negated negative v = if negative then (2 ^ 64 - v) % 2 ^ 64 else v

-- `none` for ERANGE.
abbrev pub in_range : Bool → ℕ × Bytes → Option (ℕ × Bytes)
in_range negative (v, rest) = if ltb v (2 ^ 64) then some (negated negative v, rest) else none

-- The digits behind a sign; `none` also for no digit (`end == p`).
unfoldable pub scan_digits : Bool → Bytes → Option (ℕ × Bytes)
scan_digits negative [] = none
scan_digits negative (c ∷ s) = if isdigit c then in_range negative (take_digits 0 (c ∷ s)) else none

abbrev pub scan_signed : Bytes → Option (ℕ × Bytes)
scan_signed [] = none
scan_signed (c ∷ s) =
    if c == b'-'
    then scan_digits true s
    else if c == b'+'
    then scan_digits false s
    else scan_digits false (c ∷ s)

-- `strtoul` and `strtoull`, with the end of what they read.
unfoldable pub scan_number : Bytes → Option (ℕ × Bytes)
unfolding skip_spaces scan_digits
scan_number s = scan_signed (skip_spaces s)

unfoldable pub take_plain : Bytes → Bytes
take_plain [] = []
take_plain (c ∷ s) = let more = take_plain s in if isspace c then [] else c ∷ more

-- The conversion to `off_t`, of 64 bits and with a sign.
abbrev pub off_t : ℕ → ℤ
off_t v = if ltb v (2 ^ 63) then pos v else negsuc (2 ^ 64 - v - 1)

pub record Scanned : Type 0 where
  pub tsource : ℕ
  pub size : ℤ
  pub digest : Bytes

abbrev pub scan_digest : ℕ → ℕ → Bytes → Option Scanned
scan_digest tsource size digest =
    if length digest == 0 || leb digest_string_max (length digest)
    then none
    else some (record { tsource = tsource % 2 ^ 32; size = off_t size; digest = digest })

abbrev pub scan_size : ℕ → Option (ℕ × Bytes) → Option Scanned
scan_size tsource none = none
scan_size tsource (some (size, rest)) = scan_digest tsource size (take_plain (skip_spaces rest))

abbrev pub scan_source : Option (ℕ × Bytes) → Option Scanned
scan_source none = none
scan_source (some (tsource, rest)) = scan_size tsource (scan_number (skip_spaces rest))

unfoldable pub lmdb_scan_record : Bytes → Option Scanned
unfolding scan_number take_plain
lmdb_scan_record text = scan_source (scan_number text)

-- The digest's buffer once a digest and its NUL are copied over what it held.
abbrev pub digest_buffer : Bytes → Bytes → Bytes
digest_buffer digest old = digest ++ (0 ∷ drop (length digest + 1) old)

-- It looks at single bytes of the buffer, also behind the NUL of a digest of another width.
unfoldable pub file_hash_alg_fast : Bytes → HashAlg
file_hash_alg_fast buffer =
    if get_or buffer 32 0 == 0
    then alg_md5
    else if get_or buffer 40 0 == 0
    then alg_sha1
    else if get_or buffer 64 0 == 0
    then alg_sha256
    else if get_or buffer 128 0 == 0
    then alg_sha512
    else alg_none

-- The legacy fallback.
abbrev pub or_sha256 : HashAlg → HashAlg
or_sha256 alg_none = alg_sha256
or_sha256 alg_md5 = alg_md5
or_sha256 alg_sha1 = alg_sha1
or_sha256 alg_sha256 = alg_sha256
or_sha256 alg_sha512 = alg_sha512

pub record LmdbRecord : Type 0 where
  pub tsource : ℕ
  pub size : ℤ
  pub digest : Bytes
  pub alg : HashAlg
  -- The whole buffer of `digest`.
  pub buffer : Bytes

abbrev pub with_alg : Scanned → Bytes → HashAlg → Option LmdbRecord
with_alg s buffer alg =
    let digest_len = file_hash_length alg * 2 in
    if digest_len == 0 || leb digest_string_max digest_len
    then none
    else some (record {
      tsource = s.tsource;
      size = s.size;
      digest = s.digest;
      alg = alg;
      buffer = buffer;
    })

abbrev pub finish_record : Bytes → Option Scanned → Option LmdbRecord
finish_record old none = none
finish_record old (some s) =
    let buffer = digest_buffer s.digest old in
    with_alg s buffer (or_sha256 (file_hash_alg_fast buffer))

-- `old` is what the buffer of the digest held.
unfoldable pub parse_lmdb_record : Bytes → Bytes → Option LmdbRecord
unfolding lmdb_scan_record file_hash_alg_fast file_hash_length
parse_lmdb_record text old = finish_record old (lmdb_scan_record text)

-- `path_to_hash`: `hash_of` gives the digest in hexadecimal, or `none` for no memory.
unfoldable pub path_to_hash : (Bytes → Option Bytes) → Bytes → Option Bytes
path_to_hash hash_of [] = none
path_to_hash hash_of (c ∷ path) = hash_of (c ∷ path)

-- `key.mv_size` counts the NUL of a hash.
abbrev pub hash_key : Option Bytes → Option Bytes
hash_key none = none
hash_key (some hash) = some (hash ++ (0 ∷ []))

-- The key of a path: at most `maxkeysize + 1` bytes of it are looked at.
unfoldable pub key_of : (Bytes → Option Bytes) → ℕ → Bytes → Option Bytes
unfolding path_to_hash
key_of hash_of maxkeysize path =
    let scanned = take (maxkeysize + 1) path in
    if ltb maxkeysize (length scanned)
    then hash_key (path_to_hash hash_of scanned)
    else some scanned
