-- ===== src/Trust/Additions.antt =====
-- src/library/trust-file.c: the additions of the command line tool, which prunes what the files hold
-- and appends the rest.
use mathlib.Core.Path.{subst}
use rhel_fapolicyd.Base.{
  ◌≡◌, refl, sym, ap, ◌∙◌, true, false, not, ◌&&◌, inl, inr, Option, some, List, [], ◌∷◌, ◌++◌,
  Bytes, streq, streq_iff, Bool-cases, pos, arith,
}
use rhel_fapolicyd.LList.Calls.{ListEntry, has_entry}
use rhel_fapolicyd.LList.Removals.{remove_entry}
use rhel_fapolicyd.Trust.{loaded, trust_file_load}
use rhel_fapolicyd.Trust.Edit.{
  Measure, answer, write_out_list, measure_all, prune, trust_file_append, trust_file_rm_duplicates,
}
use rhel_fapolicyd.Trust.NoDuplicates.{NoDup}
use rhel_fapolicyd.Trust.RoundTrip.{ample, current, write_out_list-ReadBack}
use rhel_fapolicyd.Trust.Entries.{AllWritable, restored}

module _ (i : Bytes) where
  has_entry-remove_entry :
      (k : Bytes) (es : List ListEntry)
      → NoDup es
      → has_entry k (remove_entry i es) ≡ (has_entry k es && not (streq k i))
  unfolding has_entry remove_entry
  has_entry-remove_entry k [] d = refl
  has_entry-remove_entry k ((j, v) ∷ es) d =
      let ih = has_entry-remove_entry k es d.1 in
      elim (Bool-cases (streq i j)) [
        | inl here ↦
            let e : i ≡ j = (streq_iff i j).0 here in
            elim (Bool-cases (streq k j)) [
              | inl found ↦
                  let e' : k ≡ j = (streq_iff k j).0 found in
                  let gone : has_entry k es ≡ false = ap (λ x. has_entry x es) e' ∙ d.0 in
                  let at : streq k i ≡ true = ap (streq k) e ∙ found in
                  rw (here, found, gone, at) refl
              | inr missing ↦
                  let at : streq k i ≡ false = ap (streq k) e ∙ missing in
                  rw (here, missing, at) (ground arith)
            ]
        | inr there ↦ elim (Bool-cases (streq k j)) [
          | inl found ↦
              let apart : streq k i ≡ false = elim (Bool-cases (streq k i)) [
                | inl same ↦
                    let e : k ≡ i = (streq_iff k i).0 same in
                    let clash : false ≡ true = sym there ∙ ap (λ x. streq x j) (sym e) ∙ found in
                    absurd (cc)
                | inr other ↦ other
              ] in
              rw (there, found, apart) refl
          | inr missing ↦ rw (there, missing) ih
        ]
      ]

  remove_entry-absent :
      (k : Bytes) (es : List ListEntry)
      → has_entry k es ≡ false
      → has_entry k (remove_entry i es) ≡ false
  unfolding has_entry remove_entry
  remove_entry-absent k [] h = refl
  remove_entry-absent k ((j, v) ∷ es) h = ground (arith, remove_entry-absent k es)

  remove_entry-NoDup : (es : List ListEntry) → NoDup es → NoDup (remove_entry i es)
  unfolding remove_entry
  remove_entry-NoDup [] d = tt
  remove_entry-NoDup ((j, v) ∷ es) d = elim (Bool-cases (streq i j)) [
    | inl here ↦ rw here d.1
    | inr there ↦ rw there (remove_entry-absent j es d.0, remove_entry-NoDup es d.1)
  ]

-- What the pruning leaves.
record Prunes (es list left : List ListEntry) : Type 0 where
  exact : (k : Bytes) → has_entry k left ≡ (has_entry k list && not (has_entry k es))
  nodup : NoDup left

prune_from :
    (i : Bytes) (v : Option Bytes) (es list rest : List ListEntry)
    → NoDup list
    → remove_entry i list ≡ rest
    → ((more : List ListEntry) → NoDup more → Prunes es more (prune es more))
    → Prunes ((i, v) ∷ es) list (elim rest [ [] ↦ [] | e ∷ left ↦ prune es (e ∷ left) ])
unfolding has_entry
prune_from i v es list [] d e ih = record {
  exact = λ k. ground (arith, has_entry-remove_entry i k list d, ap (has_entry k) e);
  nodup = tt;
}
prune_from i v es list (x ∷ left) d e ih =
    let more : NoDup (x ∷ left) = subst NoDup e (remove_entry-NoDup i list d) in
    let p = ih (x ∷ left) more in
    record {
      exact = λ k.
          p.exact k
          ∙ ap (λ b. b && not (has_entry k es))
              (sym (ap (has_entry k) e) ∙ has_entry-remove_entry i k list d)
          ∙ ground arith;
      nodup = p.nodup;
    }

prune-Prunes : (es list : List ListEntry) → NoDup list → Prunes es list (prune es list)
unfolding prune has_entry
prune-Prunes [] list d = record { exact = λ k. ground arith; nodup = d }
prune-Prunes ((i, v) ∷ es) list d =
    prune_from i v es list (remove_entry i list) d refl (λ more h. prune-Prunes es more h)

measure_all-has :
    (measure : Measure) (k : Bytes) (es : List ListEntry)
    → has_entry k (measure_all measure es) ≡ has_entry k es
unfolding has_entry measure_all
measure_all-has measure k [] = refl
measure_all-has measure k ((j, v) ∷ es) = rw (measure_all-has measure k es) refl

measure_all-NoDup :
    (measure : Measure) (es : List ListEntry) → NoDup es → NoDup (measure_all measure es)
unfolding measure_all
measure_all-NoDup measure [] d = tt
measure_all-NoDup measure ((j, v) ∷ es) d =
    (measure_all-has measure j es ∙ d.0, measure_all-NoDup measure es d.1)

has_entry-append :
    (k : Bytes) (xs ys : List ListEntry)
    → has_entry k xs ≡ false
    → has_entry k ys ≡ false
    → has_entry k (xs ++ ys) ≡ false
unfolding has_entry
has_entry-append k [] ys h h' = h'
has_entry-append k ((j, v) ∷ xs) ys h h' = ground (arith, has_entry-append k xs ys)

NoDup-append :
    (xs ys : List ListEntry)
    → NoDup xs
    → NoDup ys
    → ((k : Bytes) → has_entry k xs ≡ true → has_entry k ys ≡ false)
    → NoDup (xs ++ ys)
unfolding has_entry
NoDup-append [] ys d d' apart = d'
NoDup-append ((j, v) ∷ xs) ys d d' apart = (
  has_entry-append j xs ys d.0 (apart j (rw ((streq_iff j j).1 refl) refl)),
  NoDup-append xs ys d.1 d' (λ k h. apart k (ground arith)),
)

-- What an addition promises of a file that reads as `es`, for a list of paths to add.
pub record Adds (measure : Measure) (file : Bytes) (es list : List ListEntry)
    (h : AllWritable (es ++ measure_all measure (prune es list))) : Type 0 where
  pub pruned : trust_file_rm_duplicates ample (some file) list ≡ some (pos 0, prune es list)
  pub exact : (k : Bytes) → has_entry k (prune es list) ≡ (has_entry k list && not (has_entry k es))
  pub after : Bytes
  pub appends :
      trust_file_append ample true measure (some file) (prune es list)
      ≡ some (record { rc = pos 0; file = some after })
  pub seen : List Bytes
  pub reads :
      trust_file_load false ample (some after) [] []
      ≡ loaded 0 (current seen (restored (es ++ measure_all measure (prune es list)) h))

module _ (measure : Measure) (file : Bytes) (es list : List ListEntry) (seen : List Bytes)
    (reads : trust_file_load false ample (some file) [] [] ≡ loaded 0 (current seen es)) where
  rm_duplicates-prune :
      trust_file_rm_duplicates ample (some file) list ≡ some (pos 0, prune es list)
  unfolding trust_file_rm_duplicates
  rm_duplicates-prune = rw reads refl

  append-write :
      (fresh : List ListEntry)
      → trust_file_append ample true measure (some file) fresh
        ≡ answer (pos 0) (write_out_list true (es ++ measure_all measure fresh) (some file))
  unfolding trust_file_append
  append-write fresh = rw reads refl

  -- Additions to a file that reads as `es`, with no path in the escaped form, when memory suffices and the file can be written: pruning
  -- leaves of a list without repetitions exactly the paths that the file does not have. Appended to
  -- the file, where these and the old entries can all stand in a file, they are measured and written:
  -- the file then reads as the old entries and behind them the new ones, no path lost or repeated.
  pub trust_file_append-Adds :
      (h : AllWritable (es ++ measure_all measure (prune es list)))
      → NoDup es
      → NoDup list
      → Adds measure file es list h
  trust_file_append-Adds h d d' =
      let fresh = prune es list in
      let p = prune-Prunes es list d' in
      let apart : (k : Bytes)
          → has_entry k es ≡ true
          → has_entry k (measure_all measure fresh) ≡ false =
        λ k e. measure_all-has measure k fresh ∙ p.exact k ∙ rw e (ground arith) in
      let all_new =
        NoDup-append es (measure_all measure fresh) d (measure_all-NoDup measure fresh p.nodup)
          apart in
      let back = write_out_list-ReadBack (es ++ measure_all measure fresh) h (some file) all_new in
      record {
        pruned = rm_duplicates-prune;
        exact = p.exact;
        after = back.file;
        appends = append-write fresh ∙ ap (answer (pos 0)) back.writes;
        seen = back.seen;
        reads = back.reads;
      }
