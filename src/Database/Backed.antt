-- ===== src/Database/Backed.antt =====
-- src/library/database.c: the rounds of `read_trust_db`, and the answer of `check_trust_database`.
use rhel_fapolicyd.Base.{
  ℕ, zero, suc, ◌≡◌, ◌⊎◌, refl, Bool, true, false, inl, inr, Option, none, some, List, [], ◌∷◌, leb,
  drop, Bytes, Bool-cases, pos, arith,
}
use rhel_fapolicyd.Config.{Integrity}
use rhel_fapolicyd.Database.{LmdbRecord, parse_lmdb_record, key_of}
use rhel_fapolicyd.Database.Lookup.{
  Db, Cursor, Operation, read_data, read_data_dup, read_test_key, Read, read_error, no_data, value,
  read_next, read_key, lt_read_db, FileInfo, Probe, Verdict, Round, settled, retry, operation_of,
  check_value, read_round, old_after, settle_round, read_rounds, is_in_none, unset, read_trust_db,
  Symlinks, is_retried, answer_from, check_trust_database,
}
use rhel_fapolicyd.Database.Trusted.{
  values_of, values_at, Among, Justified, Agrees, Sound, check_record-Sound,
}

-- A value of the path's key that parses as a record of the file's size and of an agreeing digest.
pub record Backed (mode : Integrity) (probe : Probe) (db : Db) (path : Bytes) (size : ℕ)
    : Type 0 where
  pub text : Bytes
  pub among : Among text (values_at db path)
  pub old : Bytes
  pub rec : LmdbRecord
  pub parsed : parse_lmdb_record text old ≡ some rec
  pub same_size : rec.size ≡ pos size
  pub agrees : Agrees mode probe size rec.digest

abbrev pub Within : List (Option Bytes) → List (Option Bytes) → Type 0
Within vs ws = (v : Bytes) → Among v vs → Among v ws

abbrev pub Reads : List (Option Bytes) → Cursor × Read → Type 0
Reads ws (c, read_error) = Unit
Reads ws (c, no_data) = Unit
Reads ws (c, value v) = Among v ws × Within c.behind ws

read_next-Reads : (n : ℕ) (vs ws : List (Option Bytes)) → Within vs ws → Reads ws (read_next n vs)
read_next-Reads n [] ws h = tt
read_next-Reads n (none ∷ vs) ws h = tt
read_next-Reads n (some v ∷ vs) ws h = (h v (inl refl), λ w k. h w (inr k))

-- What a read gives is among the values of the key, and so is what the cursor has behind it.
pub read_key-Reads :
    (db : Db) (c : Cursor) (op : Operation) (o : Option Bytes)
    → Within c.behind (values_of db o)
    → Reads (values_of db o) (read_key db c op o)
read_key-Reads db c op none h = tt
read_key-Reads db c read_data (some key) h = read_next-Reads _ (db.get key) (db.get key) (λ v k. k)
read_key-Reads db c read_test_key (some key) h =
    read_next-Reads _ (db.get key) (db.get key) (λ v k. k)
read_key-Reads db c read_data_dup (some key) h = elim (Bool-cases (leb c.nleaves 1)) [
  | inl single ↦ rw single tt
  | inr several ↦ rw several (read_next-Reads c.nleaves c.behind (db.get key) h)
]

module _ (mode : Integrity) (probe : Probe) (db : Db) (path : Bytes) (size : ℕ)
    (m : is_in_none mode ≡ false) where
  abbrev Trusts : Verdict → Type 0
  Trusts v =
      (v.info.size ≡ size) × (v.res ≡ true → v.error ≡ false → Backed mode probe db path size)

  settle-Trusts :
      (text old : Bytes) (rec : LmdbRecord) (r : Round) (more : FileInfo → Bytes → Verdict)
      → Among text (values_at db path)
      → parse_lmdb_record text old ≡ some rec
      → Sound mode probe size rec r
      → ((info : FileInfo) (digest : Bytes)
          → info.size ≡ size
          → Justified mode probe size digest
          → Trusts (more info digest))
      → Trusts (settle_round r more)
  settle-Trusts text old rec (settled v) more a p s k = (
    s.0,
    λ res error.
        let (e, d) = s.1 res error in
        record {
          text = text;
          among = a;
          old = old;
          rec = rec;
          parsed = p;
          same_size = e;
          agrees = d;
        },
  )
  settle-Trusts text old rec (retry info digest) more a p s k = k info digest s.0 s.1

  module _ (first : Bool) (info : FileInfo) (digest old : Bytes) (at : info.size ≡ size)
      (j : (first ≡ true) ⊎ Justified mode probe size digest) where
    value-Trusts :
        (v : Bytes) (o : Option LmdbRecord) (more : FileInfo → Bytes → Verdict)
        → Among v (values_at db path)
        → parse_lmdb_record v old ≡ o
        → ((info' : FileInfo) (digest' : Bytes)
            → info'.size ≡ size
            → Justified mode probe size digest'
            → Trusts (more info' digest'))
        → Trusts (settle_round (check_value mode probe first info digest o) more)
    value-Trusts v none more a p k = (at, λ res error. absurd (cc))
    value-Trusts v (some rec) more a p k =
        settle-Trusts v old rec _ more a p
          (check_record-Sound probe size rec info at mode first digest m j) k

    round-Trusts :
        (r : Cursor × Read) (more : FileInfo → Bytes → Verdict)
        → Reads (values_at db path) r
        → (Within r.0.behind (values_at db path)
            → (info' : FileInfo) (digest' : Bytes) → info'.size ≡ size
            → Justified mode probe size digest'
            → Trusts (more info' digest'))
        → Trusts (settle_round (read_round mode probe first info digest old r) more)
    round-Trusts (c, read_error) more h k = (at, λ res error. absurd (cc))
    round-Trusts (c, no_data) more h k = (at, λ res error. absurd (cc))
    round-Trusts (c, value v) more h k = value-Trusts v _ more h.0 refl (k h.1)

  read_rounds-Trusts :
      (fuel : ℕ) (first : Bool) (c : Cursor) (old : Bytes) (info : FileInfo) (digest : Bytes)
      → info.size ≡ size
      → (first ≡ true) ⊎ Justified mode probe size digest
      → Within c.behind (values_at db path)
      → Trusts (read_rounds fuel mode probe db path first c old info digest)
  unfolding read_rounds lt_read_db
  read_rounds-Trusts zero first c old info digest at j h = (at, λ res error. absurd (cc))
  read_rounds-Trusts (suc fuel) first c old info digest at j h =
      let r = read_key db c (operation_of first) (key_of db.hash_of db.maxkeysize path) in
      round-Trusts first info digest old at j r _
        (read_key-Reads db c (operation_of first) (key_of db.hash_of db.maxkeysize path) h)
        (λ h' info' digest' at' j'.
          read_rounds-Trusts fuel false r.0 (old_after old r) info' digest' at' (inr j') h')

  read_trust_db-Trusts :
      (old : Bytes) (info : FileInfo)
      → info.size ≡ size
      → Trusts (read_trust_db mode probe db path true old info)
  unfolding read_trust_db
  read_trust_db-Trusts old info at =
      rw m (read_rounds-Trusts 127 true unset old info [] at (inl refl) (λ v h. elim h [ ]))

-- Where the answer of `check_trust_database` comes from.
pub record Answered (mode : Integrity) (probe : Probe) (db : Db) (links : Symlinks) (path : Bytes)
    (size : ℕ) : Type 0 where
  pub source :
      Backed mode probe db path size
      ⊎ ((is_retried links path ≡ true) × Backed mode probe db (drop 4 path) size)

trusting :
    (started retried : Bool) (first second : Verdict)
    → answer_from started first retried second ≡ pos 1
    → ((first.res ≡ true) × (first.error ≡ false))
      ⊎ ((retried ≡ true) × ((second.res ≡ true) × (second.error ≡ false)))
trusting started retried first second h = ground arith

module _ (mode : Integrity) (probe : Probe) (db : Db) (links : Symlinks) (path old old' : Bytes)
    (info : FileInfo) (m : is_in_none mode ≡ false) where
  -- With an integrity check, for a file whose record the caller gives: the answer is 1 only where the
  -- database has, under the key of the path, a value that parses as a record of the file's size and
  -- whose digest agrees with the file: under sha256 the digest of its bytes, under ima its IMA
  -- attribute or the digest of its bytes by the attribute's algorithm. Where a top directory is a
  -- link, the value may stand under the path without its leading /usr.
  pub check_trust_database-Answered :
      (started : Bool)
      → check_trust_database mode probe db links started path true old old' info ≡ pos 1
      → Answered mode probe db links path info.size
  unfolding check_trust_database
  check_trust_database-Answered started h =
      let first = read_trust_db mode probe db path true old info in
      let second = read_trust_db mode probe db (drop 4 path) true old' first.info in
      let one = read_trust_db-Trusts mode probe db path info.size m old info refl in
      let two =
        read_trust_db-Trusts mode probe db (drop 4 path) info.size m old' first.info one.0 in
      elim (trusting started (is_retried links path) first second h) [
        | inl (res, error) ↦ record { source = inl (one.1 res error) }
        | inr (retried, (res, error)) ↦ record { source = inr (retried, two.1 res error) }
      ]
