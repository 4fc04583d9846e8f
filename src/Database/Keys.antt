-- ===== src/Database/Keys.antt =====
-- src/library/database.c: values that are stored and looked for again, and paths of one key.
use mathlib.Core.List.{map}
use mathlib.Core.Path.{subst}
use rhel_fapolicyd.Base.{
  ℕ, zero, suc, ◌+◌, ◌<◌, ◌≡◌, ◌⊎◌, refl, sym, ap, ◌∙◌, Bool, true, false, not, inl, inr, Option,
  none, some, List, [], ◌∷◌, leb, if◌then◌else◌, length, take, Bytes, streq, streq_iff, Bool-cases,
  arith,
}
use rhel_fapolicyd.Database.{key_of}
use rhel_fapolicyd.Database.Lookup.{
  Db, Cursor, Operation, read_data, read_data_dup, read_key, lt_read_db, unset,
}
use rhel_fapolicyd.Database.Store.{Txn, put_key, write_db, presence_loop, check_data_presence}

-- A search of a plain list of values: whether it is found, and how many were looked at.
unfoldable pub find_value : Bytes → List Bytes → ℕ → Bool × ℕ
find_value text [] cnt = (false, cnt)
find_value text (v ∷ vs) cnt =
    let more = find_value text vs (cnt + 1) in if streq text v then (true, cnt + 1) else more

module _ (db : Db) (index text key : Bytes)
    (keyed : key_of db.hash_of db.maxkeysize index ≡ some key) where
  pub reads_at :
      (c : Cursor) (op : Operation) → lt_read_db db c index op ≡ read_key db c op (some key)
  unfolding lt_read_db
  reads_at c op = ap (read_key db c op) keyed

  abbrev at : ℕ → List Bytes → Cursor
  at n vs = record { nleaves = n; behind = map some vs }

  -- The rounds over the duplicates.
  duplicates :
      (fuel n : ℕ) (vs : List Bytes) (cnt : ℕ)
      → 1 < n
      → length vs < fuel
      → presence_loop fuel db (at n vs) index text read_data_dup cnt ≡ some (find_value text vs cnt)
  unfolding presence_loop find_value
  duplicates zero n vs cnt several enough = absurd (omega arith)
  duplicates (suc fuel) n [] cnt several enough =
      let many : leb n 1 ≡ false = ground arith in rw (reads_at (at n []) read_data_dup, many) refl
  duplicates (suc fuel) n (w ∷ ws) cnt several enough =
      let many : leb n 1 ≡ false = ground arith in
      elim (Bool-cases (streq text w)) [
        | inl same ↦ rw (reads_at (at n (w ∷ ws)) read_data_dup, many, same) refl
        | inr other ↦
            rw (reads_at (at n (w ∷ ws)) read_data_dup, many, other)
              (duplicates fuel n ws (cnt + 1) several (omega arith))
      ]

  single :
      (fuel : ℕ) (cnt : ℕ)
      → 0 < fuel
      → presence_loop fuel db (at 1 []) index text read_data_dup cnt ≡ some (false, cnt)
  unfolding presence_loop
  single zero cnt h = absurd (omega arith)
  single (suc fuel) cnt h = rw (reads_at (at 1 []) read_data_dup) refl

  presence :
      (vs : List Bytes) (fuel : ℕ)
      → db.get key ≡ map some vs
      → length vs + 1 < fuel
      → check_data_presence fuel db index text ≡ some (find_value text vs 0)
  unfolding check_data_presence presence_loop find_value
  presence vs zero e enough = absurd (omega arith)
  presence [] (suc fuel) e enough = rw (reads_at unset read_data, e) refl
  presence (v ∷ []) (suc fuel) e enough = elim (Bool-cases (streq text v)) [
    | inl same ↦ rw (reads_at unset read_data, e, same) refl
    | inr other ↦ rw (reads_at unset read_data, e, other) (single fuel 1 (omega arith))
  ]
  presence (v ∷ w ∷ vs) (suc fuel) e enough = elim (Bool-cases (streq text v)) [
    | inl same ↦ rw (reads_at unset read_data, e, same) refl
    | inr other ↦
        rw (reads_at unset read_data, e, other)
          (duplicates fuel (suc (suc (length (map some vs)))) (w ∷ vs) 1 (omega arith)
            (omega arith))
  ]

-- Whether a value is in a list.
abbrev pub Holds : Bytes → List Bytes → Type 0
Holds text [] = ⊥
Holds text (v ∷ vs) = (v ≡ text) ⊎ Holds text vs

find_value-found :
    (text : Bytes) (vs : List Bytes) (cnt : ℕ) → Holds text vs → (find_value text vs cnt).0 ≡ true
unfolding find_value
find_value-found text [] cnt h = absurd h
find_value-found text (v ∷ vs) cnt (inl e) =
    let same : streq text v ≡ true = (streq_iff text v).1 (sym e) in rw same refl
find_value-found text (v ∷ vs) cnt (inr h) = elim (Bool-cases (streq text v)) [
  | inl same ↦ rw same refl
  | inr other ↦ rw other (find_value-found text vs (cnt + 1) h)
]

-- LMDB's `put`: the key then has the value among its readable ones, and other keys are as before.
pub record PutLaws (put : Db → Bytes → Bytes → Db) : Type 0 where
  pub keeps_hash : (db : Db) (key text : Bytes) → (put db key text).hash_of ≡ db.hash_of
  pub keeps_size : (db : Db) (key text : Bytes) → (put db key text).maxkeysize ≡ db.maxkeysize
  pub values : (db : Db) (key text : Bytes) → List Bytes
  pub readable :
      (db : Db) (key text : Bytes) → (put db key text).get key ≡ map some (values db key text)
  pub holds : (db : Db) (key text : Bytes) → Holds text (values db key text)

-- The value is found under a path: a fuel that is enough, and the values looked at.
pub record Present (db : Db) (index text : Bytes) : Type 0 where
  pub fuel : ℕ
  pub matched : ℕ
  pub found : check_data_presence fuel db index text ≡ some (true, matched)

key_of-same :
    (hash_of : Bytes → Option Bytes) (n : ℕ) (p q : Bytes)
    → take (n + 1) p ≡ take (n + 1) q
    → key_of hash_of n p ≡ key_of hash_of n q
unfolding key_of
key_of-same hash_of n p q e = rw e refl

module _ (txn : Txn) (db out : Db) where
  put_key_done : (done : Db) → put_key txn (λ key. done) db (some []) ≡ (0, out) → done ≡ out
  put_key_done done h = ground arith

  begun :
      (r : ℕ × Db)
      → (if not txn.begin_ok then (1, db) else if not txn.dbi_ok then (2, db) else r) ≡ (0, out)
      → r ≡ (0, out)
  begun r h = ground arith

module _ (put : Db → Bytes → Bytes → Db) (laws : PutLaws put) (db : Db) (text : Bytes) where
  put-Present :
      (q key : Bytes)
      → key_of db.hash_of db.maxkeysize q ≡ some key
      → Present (put db key text) q text
  put-Present q key e =
      let out = put db key text in
      let vs = laws.values db key text in
      let keyed : key_of out.hash_of out.maxkeysize q ≡ some key =
        (λ i. key_of (laws.keeps_hash db key text i) (laws.keeps_size db key text i) q) ∙ e in
      record {
        fuel = length vs + 2;
        matched = (find_value text vs 0).1;
        found =
            presence out q text key keyed vs (length vs + 2) (laws.readable db key text)
              (omega arith)
            ∙ ap (λ b. some (b, (find_value text vs 0).1))
                (find_value-found text vs 0 (laws.holds db key text));
      }

  put_key-Present :
      (txn : Txn) (q : Bytes) (o : Option Bytes) (out : Db)
      → key_of db.hash_of db.maxkeysize q ≡ o
      → put_key txn (λ key. put db key text) db o ≡ (0, out)
      → Present out q text
  put_key-Present txn q none out e h =
      let clash : ◌≡◌ {A = ℕ} 5 0 = ap (λ (r : ℕ × Db). r.0) h in absurd (omega arith)
  put_key-Present txn q (some key) out e h =
      subst (λ d. Present d q text) (put_key_done txn db out (put db key text) h)
        (put-Present q key e)

  -- After `write_db` has answered 0, the data is found under every path that has the same first
  -- `maxkeysize + 1` bytes: under the path itself, and, beyond the limit of a key, under any other.
  pub write_db-Present :
      (txn : Txn) (p q : Bytes) (out : Db)
      → take (db.maxkeysize + 1) p ≡ take (db.maxkeysize + 1) q
      → write_db txn put db p text ≡ (0, out)
      → Present out q text
  unfolding write_db
  write_db-Present txn p q out e h =
      let same : key_of db.hash_of db.maxkeysize q ≡ key_of db.hash_of db.maxkeysize p =
        key_of-same db.hash_of db.maxkeysize q p (sym e) in
      put_key-Present txn q (key_of db.hash_of db.maxkeysize p) out same (begun txn db out _ h)
