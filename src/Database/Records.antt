-- ===== src/Database/Records.antt =====
-- src/library/database.c: `parse_lmdb_record` on the data that backends store.
use rhel_fapolicyd.Base.{
  pos, ℕ, zero, suc, ◌+◌, ◌-◌, ◌*◌, ◌/◌, ◌%◌, ◌^◌, ◌≤◌, ◌<◌, ◌≡◌, refl, sym, ap, ◌∙◌, true, false,
  ◌||◌, inl, inr, some, [], ◌∷◌, ◌++◌, ltb, leb, ◌==◌, length, drop, get_or, Bool-cases, lt→ltb,
  Bytes, arith,
}
use rhel_fapolicyd.Config.{isdigit}
use rhel_fapolicyd.Strings.{isspace, skip_spaces}
use rhel_fapolicyd.Trust.{
  HashAlg, alg_none, alg_md5, alg_sha1, alg_sha256, alg_sha512, data_string, file_hash_length,
}
use rhel_fapolicyd.Trust.Decimal.{
  put_digits, decimal, AllDigits, decimal-AllDigits, decimal_some, tenth_below,
}
use rhel_fapolicyd.Trust.Line.{AllPlain}
use rhel_fapolicyd.Database.{
  take_digits, in_range, scan_digits, scan_number, take_plain, Scanned, scan_digest, scan_size,
  scan_source, lmdb_scan_record, digest_buffer, file_hash_alg_fast, or_sha256, with_alg,
  finish_record, parse_lmdb_record,
}

put_digits-append :
    (fuel n : ℕ) (s t : Bytes) → put_digits fuel n s ++ t ≡ put_digits fuel n (s ++ t)
unfolding put_digits
put_digits-append zero n s t = refl
put_digits-append (suc fuel) n s t = elim (Bool-cases (ltb n 10)) [
  | inl small ↦ rw small refl
  | inr large ↦ rw large (put_digits-append fuel (n / 10) ((48 + n % 10) ∷ s) t)
]

take_digits-digit :
    (n m : ℕ) (s : Bytes) → take_digits m ((48 + n % 10) ∷ s) ≡ take_digits (10 * m + n % 10) s
unfolding take_digits
take_digits-digit n m s =
    let digit : isdigit (48 + n % 10) ≡ true = ground arith in
    rw digit (ap (λ k. take_digits k s) {x = 10 * m + (48 + n % 10 - 48)} (omega arith))

take_digits-put_digits :
    (fuel n : ℕ) (s : Bytes)
    → n < 10 ^ suc fuel
    → take_digits 0 (put_digits (suc fuel) n s) ≡ take_digits n s
unfolding put_digits
take_digits-put_digits zero n s h =
    let small : ltb n 10 ≡ true = lt→ltb n 10 h in
    rw small
      (take_digits-digit n 0 s ∙ ap (λ k. take_digits k s) {x = 10 * 0 + n % 10} (omega arith))
take_digits-put_digits (suc fuel) n s h = elim (Bool-cases (ltb n 10)) [
  | inl small ↦
      rw small
        (take_digits-digit n 0 s ∙ ap (λ k. take_digits k s) {x = 10 * 0 + n % 10} (ground arith))
  | inr large ↦ rw large (
      take_digits-put_digits fuel (n / 10) _ (tenth_below (suc fuel) n h)
      ∙ take_digits-digit n (n / 10) s
      ∙ ap (λ k. take_digits k s) {x = 10 * (n / 10) + n % 10} (omega arith))
]

take_digits_blank : (n : ℕ) (s : Bytes) → take_digits n (b' ' ∷ s) ≡ (n, b' ' ∷ s)
unfolding take_digits
take_digits_blank n s = refl

take_digits-decimal :
    (n : ℕ) (s : Bytes) → n < 2 ^ 64 → take_digits 0 (decimal n ++ (b' ' ∷ s)) ≡ (n, b' ' ∷ s)
unfolding decimal
take_digits-decimal n s h =
    ap (take_digits 0) (put_digits-append 20 n [] (b' ' ∷ s))
    ∙ take_digits-put_digits 19 n (b' ' ∷ s) (omega arith)
    ∙ take_digits_blank n s

scan_front :
    (d s : Bytes) (n : ℕ) (rest : Bytes)
    → 0 < length d
    → AllDigits d
    → n < 2 ^ 64
    → take_digits 0 (d ++ s) ≡ (n, rest)
    → scan_number (d ++ s) ≡ some (n, rest)
unfolding scan_number scan_digits skip_spaces
scan_front [] s n rest f d h e = absurd (omega arith)
scan_front (c ∷ t) s n rest f d h e =
    let blank : isspace c ≡ false = ground arith in
    let minus : (c == b'-') ≡ false = ground arith in
    let plus : (c == b'+') ≡ false = ground arith in
    let digit : isdigit c ≡ true = ground arith in
    let room : ltb n (2 ^ 64) ≡ true = lt→ltb n (2 ^ 64) h in
    rw (blank, minus, plus, digit) (ap (in_range false) e ∙ rw room refl)

-- A number in decimal before a blank is scanned, up to the blank.
scan_number-decimal :
    (n : ℕ) (s : Bytes) → n < 2 ^ 64 → scan_number (decimal n ++ (b' ' ∷ s)) ≡ some (n, b' ' ∷ s)
scan_number-decimal n s h =
    scan_front (decimal n) (b' ' ∷ s) n (b' ' ∷ s) (decimal_some n) (decimal-AllDigits n) h
      (take_digits-decimal n s h)

take_plain_all : (s : Bytes) → AllPlain s → take_plain s ≡ s
unfolding take_plain
take_plain_all [] h = refl
take_plain_all (c ∷ s) h = rw (h.0, take_plain_all s h.1) refl

skip_spaces_blank : (s : Bytes) → skip_spaces (b' ' ∷ s) ≡ skip_spaces s
unfolding skip_spaces
skip_spaces_blank s = refl

skip_spaces_plain : (s : Bytes) → AllPlain s → skip_spaces s ≡ s
unfolding skip_spaces
skip_spaces_plain [] h = refl
skip_spaces_plain (c ∷ s) h = rw h.0 refl

skip_spaces_digits : (d s : Bytes) → 0 < length d → AllDigits d → skip_spaces (d ++ s) ≡ d ++ s
unfolding skip_spaces
skip_spaces_digits [] s f h = absurd (omega arith)
skip_spaces_digits (c ∷ d) s f h = let blank : isspace c ≡ false = ground arith in rw blank refl

module _ (source size : ℕ) (digest : Bytes) (small : source < 2 ^ 32) (fits : size < 2 ^ 63)
    (plain : AllPlain digest) (some_digest : 0 < length digest) (narrow : length digest ≤ 135) where
  scanned : Scanned
  scanned = record { tsource = source; size = pos size; digest = digest }

  lmdb_scan_record-data_string :
      lmdb_scan_record (data_string source size digest)
      ≡ some (record { tsource = source; size = pos size; digest = digest })
  unfolding lmdb_scan_record data_string
  lmdb_scan_record-data_string =
      let tail = b' ' ∷ digest in
      let width : (length digest == 0 || leb 136 (length digest)) ≡ false = ground arith in
      let positive : ltb size (2 ^ 63) ≡ true = lt→ltb size (2 ^ 63) fits in
      let word : take_plain (skip_spaces tail) ≡ digest =
        ap take_plain (skip_spaces_blank digest ∙ skip_spaces_plain digest plain)
        ∙ take_plain_all digest plain in
      ap scan_source (scan_number-decimal source (decimal size ++ tail) (omega arith))
      ∙ ap (λ s. scan_size source (scan_number s))
          (skip_spaces_blank (decimal size ++ tail)
            ∙ skip_spaces_digits (decimal size) tail (decimal_some size) (decimal-AllDigits size))
      ∙ ap (scan_size source) (scan_number-decimal size digest (omega arith))
      ∙ ap (scan_digest source size) word
      ∙ rw (width, positive)
          (ap (λ t. some (record { tsource = t; size = pos size; digest = digest }))
            {x = source % 2 ^ 32} (omega arith))

abbrev pub AllNonzero : Bytes → Type 0
AllNonzero [] = Unit
AllNonzero (c ∷ s) = (0 < c) × AllNonzero s

get_or_within :
    (s t : Bytes) (i : ℕ) → AllNonzero s → i < length s → (get_or (s ++ t) i 0 == 0) ≡ false
get_or_within [] t i h k = absurd (omega arith)
get_or_within (c ∷ s) t zero h k = ground arith
get_or_within (c ∷ s) t (suc i) h k = get_or_within s t i h.1 (omega arith)

get_or_end : (s t : Bytes) → get_or (s ++ (0 ∷ t)) (length s) 0 ≡ 0
get_or_end [] t = refl
get_or_end (c ∷ s) t = get_or_end s t

-- The algorithms with a digest.
pub data IsDigest : HashAlg → Type 0 where
  is_md5 : IsDigest alg_md5
  is_sha1 : IsDigest alg_sha1
  is_sha256 : IsDigest alg_sha256
  is_sha512 : IsDigest alg_sha512

module _ (digest old : Bytes) (nonzero : AllNonzero digest) where
  within : (i : ℕ) → i < length digest → (get_or (digest_buffer digest old) i 0 == 0) ≡ false
  within i h = get_or_within digest (0 ∷ drop (length digest + 1) old) i nonzero h

  ends : (i : ℕ) → length digest ≡ i → (get_or (digest_buffer digest old) i 0 == 0) ≡ true
  ends i h =
      let last : get_or (digest_buffer digest old) i 0 ≡ 0 =
        ap (λ j. get_or (digest_buffer digest old) j 0) (sym h)
        ∙ get_or_end digest (drop (length digest + 1) old) in
      rw last refl

  file_hash_alg_fast-width :
      (alg : HashAlg)
      → IsDigest alg
      → length digest ≡ file_hash_length alg * 2
      → file_hash_alg_fast (digest_buffer digest old) ≡ alg
  unfolding file_hash_alg_fast file_hash_length
  file_hash_alg_fast-width alg_none k w = elim k [ ]
  file_hash_alg_fast-width alg_md5 is_md5 w = rw (ends 32 w) refl
  file_hash_alg_fast-width alg_sha1 is_sha1 w = rw (within 32 (omega arith), ends 40 w) refl
  file_hash_alg_fast-width alg_sha256 is_sha256 w =
      rw (within 32 (omega arith), within 40 (omega arith), ends 64 w) refl
  file_hash_alg_fast-width alg_sha512 is_sha512 w =
      rw (within 32 (omega arith), within 40 (omega arith), within 64 (omega arith), ends 128 w)
        refl

with_alg-IsDigest :
    (s : Scanned) (buffer : Bytes) (alg : HashAlg)
    → IsDigest alg
    → with_alg s buffer (or_sha256 alg)
      ≡ some (record {
        tsource = s.tsource;
        size = s.size;
        digest = s.digest;
        alg = alg;
        buffer = buffer;
      })
unfolding file_hash_length
with_alg-IsDigest s buffer alg_none k = elim k [ ]
with_alg-IsDigest s buffer alg_md5 is_md5 = refl
with_alg-IsDigest s buffer alg_sha1 is_sha1 = refl
with_alg-IsDigest s buffer alg_sha256 is_sha256 = refl
with_alg-IsDigest s buffer alg_sha512 is_sha512 = refl

digest-width :
    (alg : HashAlg) (n : ℕ) → IsDigest alg → n ≡ file_hash_length alg * 2 → (0 < n) × (n ≤ 135)
unfolding file_hash_length
digest-width alg_none n k h = elim k [ ]
digest-width alg_md5 n is_md5 h = (omega arith, omega arith)
digest-width alg_sha1 n is_sha1 h = (omega arith, omega arith)
digest-width alg_sha256 n is_sha256 h = (omega arith, omega arith)
digest-width alg_sha512 n is_sha512 h = (omega arith, omega arith)

-- The data that a backend stores, its source, the size and the digest, is parsed back to these and
-- to the algorithm whose width the digest has, whatever the digest's buffer held: for a source below
-- 2 ^ 32, a size below 2 ^ 63, which `off_t` holds, and a digest of MD5, SHA1, SHA256 or SHA512 with no white space and no NUL.
pub parse_lmdb_record-data_string :
    (source size : ℕ) (digest old : Bytes) (alg : HashAlg)
    → source < 2 ^ 32
    → size < 2 ^ 63
    → AllPlain digest
    → AllNonzero digest
    → IsDigest alg
    → length digest ≡ file_hash_length alg * 2
    → parse_lmdb_record (data_string source size digest) old
      ≡ some (record {
        tsource = source;
        size = pos size;
        digest = digest;
        alg = alg;
        buffer = digest_buffer digest old;
      })
unfolding parse_lmdb_record
parse_lmdb_record-data_string source size digest old alg small fits plain nonzero known w =
    let (some_digest, narrow) = digest-width alg (length digest) known w in
    let s : Scanned = record { tsource = source; size = pos size; digest = digest } in
    ap (finish_record old)
      (lmdb_scan_record-data_string source size digest small fits plain some_digest narrow)
    ∙ ap (λ a. with_alg s (digest_buffer digest old) (or_sha256 a))
        (file_hash_alg_fast-width digest old nonzero alg known w)
    ∙ with_alg-IsDigest s (digest_buffer digest old) alg known
