-- ===== src/Trust/NoDuplicates.antt =====
-- src/library/trust-file.c: what `trust_file_load` leaves in the list, whatever the file has.
use rhel_fapolicyd.Base.{
  ℕ, ◌+◌, ◌*◌, ◌≡◌, refl, ◌∙◌, Bool, true, false, not, ◌&&◌, ◌||◌, inl, inr, Option, none, some,
  List, [], ◌∷◌, ◌++◌, leb, ◌==◌, length, Bytes, streq, Bool-cases, arith,
}
use rhel_fapolicyd.LList.Calls.{ListEntry, has_entry}
use rhel_fapolicyd.Trust.{
  file_hash_alg, file_hash_length, is_sha256, src_file_db, buffer_size, data_string, Fields,
  malformed, overrun, fields, Grants, Loading, Step, next, out, smashed, find_str, keep_entry,
  add_entry, index_of, load_fields, load_line, is_skipped, parse_line_backwards, LoadResult, loaded,
  wrecked, fresh_load, load_lines_from, trust_file_load, buffers,
}

abbrev pub NoDup : List ListEntry → Type 0
NoDup [] = Unit
NoDup ((k, v) ∷ es) = (has_entry k es ≡ false) × NoDup es

-- The payload of an entry of a file: the source, a size, and a digest as long as a SHA256.
pub record IsFormed (e : ListEntry) : Type 0 where
  pub size : ℕ
  pub sha : Bytes
  pub payload : e.1 ≡ some (data_string src_file_db size sha)
  pub width : length sha ≡ 64

abbrev pub AllFormed : List ListEntry → Type 0
AllFormed [] = Unit
AllFormed (e ∷ es) = IsFormed e × AllFormed es

pub record IsGood (st : Loading) : Type 0 where
  pub nodup : NoDup st.list
  pub formed : AllFormed st.list
  pub covered : (k : Bytes) → find_str st.seen k ≡ false → has_entry k st.list ≡ false

streq_comm : (a b : Bytes) → streq a b ≡ streq b a
unfolding streq
streq_comm [] [] = refl
streq_comm [] (y ∷ b) = refl
streq_comm (x ∷ a) [] = refl
streq_comm (x ∷ a) (y ∷ b) = ground (arith, streq_comm a b)

has_entry-snoc :
    (es : List ListEntry) (j k : Bytes) (p : Option Bytes)
    → has_entry j es ≡ false
    → streq j k ≡ false
    → has_entry j (es ++ ((k, p) ∷ [])) ≡ false
unfolding has_entry
has_entry-snoc [] j k p h n = rw n refl
has_entry-snoc ((i, v) ∷ es) j k p h n = ground (arith, has_entry-snoc es j k p)

NoDup-snoc :
    (es : List ListEntry) (k : Bytes) (p : Option Bytes)
    → NoDup es
    → has_entry k es ≡ false
    → NoDup (es ++ ((k, p) ∷ []))
unfolding has_entry
NoDup-snoc [] k p d h = (refl, tt)
NoDup-snoc ((j, v) ∷ es) k p d h =
    let other : streq j k ≡ false = streq_comm j k ∙ ground arith in
    (has_entry-snoc es j k p d.0 other, NoDup-snoc es k p d.1 (ground arith))

AllFormed-snoc :
    (es : List ListEntry) (e : ListEntry) → AllFormed es → IsFormed e → AllFormed (es ++ (e ∷ []))
AllFormed-snoc [] e h f = (f, tt)
AllFormed-snoc (x ∷ es) e h f = (h.0, AllFormed-snoc es e h.1 f)

abbrev Keeps : Step → Type 0
Keeps (next st) = IsGood st
Keeps (out rc st) = IsGood st
Keeps smashed = Unit

module _ (st : Loading) (g : IsGood st) (index : Bytes)
    (unseen : find_str st.seen index ≡ false) where
  listed-IsGood :
      (payload : Bytes)
      → IsFormed (index, some payload)
      → IsGood
          (record st { seen = index ∷ st.seen; list = st.list ++ ((index, some payload) ∷ []) })
  unfolding find_str
  listed-IsGood payload f = record {
    nodup = NoDup-snoc st.list index (some payload) g.nodup (g.covered index unseen);
    formed = AllFormed-snoc st.list (index, some payload) g.formed f;
    covered = λ k h.
        has_entry-snoc st.list k index (some payload) (g.covered k (ground arith))
          (streq_comm k index ∙ ground arith);
  }

  streamed-IsGood : (m : Bytes) → IsGood (record st { seen = index ∷ st.seen; memfd = m })
  unfolding find_str
  streamed-IsGood m = record {
    nodup = g.nodup;
    formed = g.formed;
    covered = λ k h. g.covered k (ground arith);
  }

  keep_entry-IsGood :
      (to_memfd : Bool) (mem : Grants) (payload : Bytes)
      → IsFormed (index, some payload)
      → IsGood (keep_entry to_memfd mem index payload st)
  unfolding keep_entry
  keep_entry-IsGood true mem payload f = streamed-IsGood _
  keep_entry-IsGood false mem payload f = elim (Bool-cases (mem.copy_ok && mem.item_ok)) [
    | inl ok ↦ rw ok (listed-IsGood payload f)
    | inr bad ↦ rw bad g
  ]

module _ (to_memfd : Bool) (mem : Grants) (st : Loading) (g : IsGood st) where
  add_entry-Keeps :
      (payload : Bytes) (o : Option Bytes)
      → ((index : Bytes) → IsFormed (index, some payload))
      → Keeps (add_entry to_memfd mem payload o st)
  unfolding add_entry
  add_entry-Keeps payload none f = g
  add_entry-Keeps payload (some index) f = elim (Bool-cases (find_str st.seen index)) [
    | inl old ↦ rw old g
    | inr unseen ↦ elim (Bool-cases (not mem.entry_ok)) [
      | inl bad ↦ rw (unseen, bad) g
      | inr ok ↦
          rw (unseen, ok) (keep_entry-IsGood st g index unseen to_memfd mem payload (f index))
    ]
  ]

  is_sha256_width : (n : ℕ) → not (is_sha256 (file_hash_alg n)) ≡ false → n ≡ 64
  unfolding file_hash_alg
  is_sha256_width n h = ground arith

  load_fields-Keeps : (f : Fields) → Keeps (load_fields to_memfd mem f st)
  unfolding load_fields
  load_fields-Keeps malformed = g
  load_fields-Keeps overrun = tt
  load_fields-Keeps (fields name sz sha) =
      let expected_len = file_hash_length (file_hash_alg (length sha)) * 2 in
      let payload = data_string src_file_db sz sha in
      elim (Bool-cases (expected_len == 0 || not (length sha == expected_len))) [
        | inl odd ↦ rw odd g
        | inr even ↦ elim (Bool-cases (not (is_sha256 (file_hash_alg (length sha))))) [
          | inl other ↦ rw (even, other) g
          | inr same ↦ elim (Bool-cases (leb buffer_size (length payload))) [
            | inl large ↦ rw (even, same, large) g
            | inr fits ↦
                rw (even, same, fits)
                  (add_entry-Keeps payload (index_of st.escaped mem.index_ok name) (λ index.
                    record {
                      size = sz;
                      sha = sha;
                      payload = refl;
                      width = is_sha256_width (length sha) same;
                    }))
          ]
        ]
      ]

  load_line-Keeps : (line : ℕ) (buffer : Bytes) → Keeps (load_line to_memfd mem line buffer st)
  unfolding load_line
  load_line-Keeps line buffer = elim (Bool-cases (is_skipped buffer)) [
    | inl skipped ↦ rw skipped (record { nodup = g.nodup; formed = g.formed; covered = g.covered })
    | inr read ↦ rw read (load_fields-Keeps (parse_line_backwards buffer))
  ]

-- What a load leaves, unless a number overruns its buffer.
abbrev pub Leaves : LoadResult → Type 0
Leaves (loaded rc st) = NoDup st.list × AllFormed st.list
Leaves wrecked = Unit

load_lines_from-Leaves :
    (to_memfd : Bool) (mem : ℕ → Grants) (line : ℕ) (bs : List Bytes) (st : Loading)
    → IsGood st
    → Leaves (load_lines_from to_memfd mem line bs st)
unfolding load_lines_from
load_lines_from-Leaves to_memfd mem line [] st g = (g.nodup, g.formed)
load_lines_from-Leaves to_memfd mem line (b ∷ bs) st g =
    after (load_line to_memfd (mem line) line b st)
      (load_line-Keeps to_memfd (mem line) st g line b)
      (λ st' g'. load_lines_from-Leaves to_memfd mem (line + 1) bs st' g')
  where
    after :
        (s : Step)
        → Keeps s
        → ((st' : Loading) → IsGood st' → Leaves (load_lines_from to_memfd mem (line + 1) bs st'))
        → Leaves (elim s [
          | next st' ↦ load_lines_from to_memfd mem (line + 1) bs st'
          | out rc st' ↦ loaded rc st'
          | smashed ↦ wrecked
        ])
    after (next st') k rest = rest st' k
    after (out rc st') k rest = (k.nodup, k.formed)
    after smashed k rest = tt

-- Whatever a file holds, whichever allocations fail and whichever code is returned, the list that a
-- load fills from empty has no path twice, and each payload is the source 2, a size and a digest of
-- the width of a SHA256. A load that overruns `number` has no list.
pub trust_file_load-Leaves :
    (to_memfd : Bool) (mem : ℕ → Grants) (file : Option Bytes) (memfd : Bytes)
    → Leaves (trust_file_load to_memfd mem file [] memfd)
unfolding trust_file_load has_entry
trust_file_load-Leaves to_memfd mem none memfd = (tt, tt)
trust_file_load-Leaves to_memfd mem (some text) memfd =
    load_lines_from-Leaves to_memfd mem 1 (buffers (length text) text) (fresh_load [] memfd)
      (record { nodup = tt; formed = tt; covered = λ k h. refl })
