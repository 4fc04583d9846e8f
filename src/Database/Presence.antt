-- ===== src/Database/Presence.antt =====
-- src/library/database.c: what `check_data_presence` finds is a value of the path's key.
use rhel_fapolicyd.Base.{
  ℕ, zero, suc, ◌+◌, ◌≡◌, refl, sym, ◌∙◌, Bool, true, inl, inr, Option, some, streq, streq_iff,
  Bytes, Bool-cases,
}
use rhel_fapolicyd.Database.{key_of}
use rhel_fapolicyd.Database.Lookup.{
  Db, Cursor, Operation, read_data, read_data_dup, Read, read_error, no_data, value, read_key,
  lt_read_db, unset,
}
use rhel_fapolicyd.Database.Store.{presence_round, presence_loop, check_data_presence}
use rhel_fapolicyd.Database.Trusted.{values_at, Among}
use rhel_fapolicyd.Database.Backed.{Within, Reads, read_key-Reads}

module _ (db : Db) (index text : Bytes) where
  round-Among :
      (r : Cursor × Read) (cnt m : ℕ) (more : Cursor → Option (Bool × ℕ))
      → Reads (values_at db index) r
      → (Within r.0.behind (values_at db index)
          → more r.0 ≡ some (true, m)
          → Among text (values_at db index))
      → presence_round text cnt r more ≡ some (true, m)
      → Among text (values_at db index)
  round-Among (c, read_error) cnt m more h k e = absurd (cc)
  round-Among (c, no_data) cnt m more h k e = absurd (cc)
  round-Among (c, value v) cnt m more h k e = elim (Bool-cases (streq text v)) [
    | inl same ↦ let eq : text ≡ v = (streq_iff text v).0 same in rw eq h.0
    | inr other ↦ k h.1 (sym (rw other refl) ∙ e)
  ]

  loop-Among :
      (fuel : ℕ) (c : Cursor) (op : Operation) (cnt m : ℕ)
      → Within c.behind (values_at db index)
      → presence_loop fuel db c index text op cnt ≡ some (true, m)
      → Among text (values_at db index)
  unfolding presence_loop lt_read_db
  loop-Among zero c op cnt m h e = absurd (cc)
  loop-Among (suc fuel) c op cnt m h e =
      round-Among (read_key db c op (key_of db.hash_of db.maxkeysize index)) cnt m _
        (read_key-Reads db c op (key_of db.hash_of db.maxkeysize index) h)
        (λ h' e'. loop-Among fuel _ read_data_dup (cnt + 1) m h' e') e

  -- Data that is found is among the values of the path's key, in however many rounds.
  pub check_data_presence-Among :
      (fuel m : ℕ)
      → check_data_presence fuel db index text ≡ some (true, m)
      → Among text (values_at db index)
  unfolding check_data_presence
  check_data_presence-Among fuel m e = loop-Among fuel unset read_data 0 m (λ v h. elim h [ ]) e
