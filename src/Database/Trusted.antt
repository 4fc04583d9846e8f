-- ===== src/Database/Trusted.antt =====
-- src/library/database.c: a file that the database calls trusted has a record that agrees with what
-- is measured of the file.
use mathlib.Core.Path.{subst}
use rhel_fapolicyd.Base.{
  pos, int_eq, int_eq_iff, ℕ, ◌-◌, ◌*◌, ◌≡◌, ◌⊎◌, refl, sym, ap, ◌∙◌, Bool, true, false, not, inl,
  inr, Option, none, some, List, [], ◌∷◌, take, Bytes, streq_iff, Bool-cases, arith,
}
use rhel_fapolicyd.Config.{Integrity, in_none, in_size, in_ima, in_sha256}
use rhel_fapolicyd.Trust.{HashAlg, digest_string_max, file_hash_length}
use rhel_fapolicyd.Database.{LmdbRecord, key_of}
use rhel_fapolicyd.Database.Lookup.{
  Db, FileInfo, Probe, Verdict, cache, same_file, Round, settled, retry, size_round, cut_digest,
  compare_digest, first_digest, sha256_round, ima_rehash, is_no_alg, ima_first, ima_round,
  check_record, is_in_none,
}

-- The values of a path's key.
abbrev pub values_of : Db → Option Bytes → List (Option Bytes)
values_of db none = []
values_of db (some key) = db.get key

abbrev pub values_at : Db → Bytes → List (Option Bytes)
values_at db path = values_of db (key_of db.hash_of db.maxkeysize path)

abbrev pub Among : Bytes → List (Option Bytes) → Type 0
Among v [] = ⊥
Among v (none ∷ vs) = Among v vs
Among v (some w ∷ vs) = (w ≡ v) ⊎ Among v vs

-- What a digest at hand in later rounds is.
abbrev pub Justified : Integrity → Probe → ℕ → Bytes → Type 0
Justified in_none probe size digest = ⊥
Justified in_size probe size digest = Unit
Justified in_ima probe size digest = (alg : HashAlg) × (probe.get_ima_hash ≡ some (alg, digest))
Justified in_sha256 probe size digest =
    (alg : HashAlg) × (hash : Bytes) × (probe.get_hash_from_fd2 size alg ≡ some hash)
    × (digest ≡ take (file_hash_length alg * 2) (take (digest_string_max - 1) hash))

-- The digest of the file's bytes by the algorithm of its IMA attribute.
abbrev pub Rehashed : Probe → ℕ → Bytes → Type 0
Rehashed probe size digest =
    (alg : HashAlg) × (xattr : Bytes) × (hash : Bytes) × (probe.get_ima_hash ≡ some (alg, xattr))
    × (probe.get_hash_from_fd2 size alg ≡ some hash)
    × (digest ≡ take (digest_string_max - 1) hash)

-- What the digest of a record has to be.
abbrev pub Agrees : Integrity → Probe → ℕ → Bytes → Type 0
Agrees in_none probe size digest = ⊥
Agrees in_size probe size digest = Unit
Agrees in_ima probe size digest = Justified in_ima probe size digest ⊎ Rehashed probe size digest
Agrees in_sha256 probe size digest = Justified in_sha256 probe size digest

abbrev pub Confirms : Integrity → Probe → ℕ → LmdbRecord → Verdict → Type 0
Confirms mode probe size rec v =
    (v.info.size ≡ size)
    × (v.res ≡ true → v.error ≡ false → (rec.size ≡ pos size) × Agrees mode probe size rec.digest)

abbrev pub Sound : Integrity → Probe → ℕ → LmdbRecord → Round → Type 0
Sound mode probe size rec (settled v) = Confirms mode probe size rec v
Sound mode probe size rec (retry info digest) =
    (info.size ≡ size) × Justified mode probe size digest

same_file_parts :
    (rec : LmdbRecord) (info : FileInfo) (digest : Bytes)
    → same_file rec info digest ≡ true
    → (rec.size ≡ pos info.size) × (rec.digest ≡ digest)
same_file_parts rec info digest h = (
  (int_eq_iff rec.size (pos info.size)).0 (ground arith),
  (streq_iff rec.digest digest).0 (ground arith),
)

module _ (probe : Probe) (size : ℕ) (rec : LmdbRecord) (info : FileInfo)
    (at : info.size ≡ size) where
  size_round-Sound : (digest : Bytes) → Sound in_size probe size rec (size_round rec info digest)
  unfolding size_round
  size_round-Sound digest = elim (Bool-cases (int_eq rec.size (pos info.size))) [
    | inl same ↦ rw same (at, λ _ _. ((int_eq_iff rec.size (pos info.size)).0 same ∙ ap pos at, tt))
    | inr other ↦ rw other (at, tt)
  ]

  compare_digest-Sound :
      (info' : FileInfo) (digest : Bytes)
      → info'.size ≡ size
      → Justified in_sha256 probe size digest
      → Sound in_sha256 probe size rec (compare_digest rec info' digest)
  compare_digest-Sound info' digest at' j = elim (Bool-cases (same_file rec info' digest)) [
    | inl same ↦
        let (e, d) = same_file_parts rec info' digest same in
        rw same (at', λ _ _. (e ∙ ap pos at', subst (Justified in_sha256 probe size) (sym d) j))
    | inr other ↦ rw other (at', j)
  ]

  first_digest-Sound :
      (o : Option Bytes)
      → probe.get_hash_from_fd2 info.size rec.alg ≡ o
      → Sound in_sha256 probe size rec (first_digest rec info o)
  first_digest-Sound none e = (at, λ r _. absurd (cc))
  first_digest-Sound (some hash) e =
      compare_digest-Sound (cache info rec.alg (cut_digest rec hash)) (cut_digest rec hash) at
        (rec.alg, hash, ap (λ n. probe.get_hash_from_fd2 n rec.alg) (sym at) ∙ e, refl)

  ima_rehash-Sound :
      (alg : HashAlg) (xattr : Bytes) (o : Option Bytes)
      → probe.get_ima_hash ≡ some (alg, xattr)
      → probe.get_hash_from_fd2 info.size alg ≡ o
      → Sound in_ima probe size rec (ima_rehash rec info alg xattr o)
  ima_rehash-Sound alg xattr none g e = (at, λ r _. absurd (cc))
  ima_rehash-Sound alg xattr (some hash) g e =
      let digest = take (digest_string_max - 1) hash in
      let info' = cache info alg digest in
      elim (Bool-cases (same_file rec info' digest)) [
        | inl same ↦
            let (s, d) = same_file_parts rec info' digest same in
            rw same (
              at,
              λ _ _. (
                s ∙ ap pos at,
                inr (alg, xattr, hash, g, ap (λ n. probe.get_hash_from_fd2 n alg) (sym at) ∙ e, d),
              ),
            )
        | inr other ↦ rw other (at, (alg, g))
      ]

  ima_first-Sound :
      (o : Option (HashAlg × Bytes))
      → probe.get_ima_hash ≡ o
      → Sound in_ima probe size rec (ima_first probe rec info o)
  ima_first-Sound none e = (at, λ r _. absurd (cc))
  ima_first-Sound (some (alg, xattr)) e = elim (Bool-cases (same_file rec info xattr)) [
    | inl same ↦
        let (s, d) = same_file_parts rec info xattr same in
        rw same (at, λ _ _. (s ∙ ap pos at, inl (alg, e ∙ ap (λ x. some (alg, x)) (sym d))))
    | inr other ↦ elim (Bool-cases (not (is_no_alg alg))) [
      | inl known ↦ rw (other, known) (ima_rehash-Sound alg xattr _ e refl)
      | inr unknown ↦ rw (other, unknown) (at, (alg, e))
    ]
  ]

  ima_later-Sound :
      (xattr : Bytes)
      → Justified in_ima probe size xattr
      → Sound in_ima probe size rec (ima_round probe false rec info xattr)
  unfolding ima_round
  ima_later-Sound xattr (alg, e) = elim (Bool-cases (same_file rec info xattr)) [
    | inl same ↦
        let (s, d) = same_file_parts rec info xattr same in
        rw same (at, λ _ _. (s ∙ ap pos at, inl (alg, e ∙ ap (λ x. some (alg, x)) (sym d))))
    | inr other ↦ rw other (at, (alg, e))
  ]

  -- Each round of each mode.
  pub check_record-Sound :
      (mode : Integrity) (first : Bool) (digest : Bytes)
      → is_in_none mode ≡ false
      → (first ≡ true) ⊎ Justified mode probe size digest
      → Sound mode probe size rec (check_record mode probe first rec info digest)
  unfolding check_record sha256_round ima_round
  check_record-Sound in_none first digest m j = absurd (cc)
  check_record-Sound in_size first digest m j = size_round-Sound digest
  check_record-Sound in_ima true digest m j = ima_first-Sound probe.get_ima_hash refl
  check_record-Sound in_ima false digest m (inl e) = absurd (cc)
  check_record-Sound in_ima false digest m (inr j) = ima_later-Sound digest j
  check_record-Sound in_sha256 true digest m j = first_digest-Sound _ refl
  check_record-Sound in_sha256 false digest m (inl e) = absurd (cc)
  check_record-Sound in_sha256 false digest m (inr j) = compare_digest-Sound info digest at j
