-- ===== src/Database/Copy.antt =====
-- src/library/database.c: `check_from_memfd` and `check_database_copy`, which compare the database with
-- the snapshots of the backends. The loops are followed to their ends, as where `stop` stays unset.
use rhel_fapolicyd.Base.{
  ℕ, ◌+◌, ◌-◌, ◌≡◌, refl, ap, ◌∙◌, Bool, true, false, not, Option, none, some, List, [], ◌∷◌, ◌==◌,
  if◌then◌else◌, Bytes, ℤ, pos, negsuc, arith,
}
use rhel_fapolicyd.Database.Lookup.{Db}
use rhel_fapolicyd.Database.Memfd.{split_record}
use rhel_fapolicyd.Database.Presence.{check_data_presence-Among}
use rhel_fapolicyd.Database.Store.{check_data_presence}
use rhel_fapolicyd.Database.Trusted.{values_at, Among}

-- The problems, the lines read and `backend_added_entries`.
pub record Compared : Type 0 where
  pub problems : ℕ
  pub entries : ℕ
  pub added : ℕ

-- What a record that is looked for adds.
abbrev pub count_found : Bool × ℕ → Compared → Compared
count_found (found, matched) c = if found then record c { entries = c.entries + 1 } else record {
  problems = c.problems + 1;
  entries = c.entries + 1;
  added = if matched == 0 then c.added + 1 else c.added;
}

abbrev pub count_search :
    Compared → Option (Bool × ℕ) → (Compared → Option Compared) → Option Compared
count_search c none more = none
count_search c (some r) more = more (count_found r c)

abbrev pub count_line :
    Compared
    → Option (Bytes × Bytes)
    → (Bytes → Bytes → Option (Bool × ℕ))
    → (Compared → Option Compared)
    → Option Compared
count_line c none search_for more = more (record c { entries = c.entries + 1 })
count_line c (some (index, text)) search_for more = count_search c (search_for index text) more

-- The loop over what `fd_fgets_r` gives, `none` for an error; the fuel is that of the searches, and
-- `none` as the result is a search that it does not follow to its end.
unfoldable pub check_from_memfd : ℕ → Db → List (Option Bytes) → Compared → Option Compared
unfolding split_record check_data_presence
check_from_memfd fuel db [] c = some c
check_from_memfd fuel db (none ∷ inputs) c = some c
check_from_memfd fuel db (some buff ∷ inputs) c =
    count_line c (split_record buff) (check_data_presence fuel db)
      (λ c'. check_from_memfd fuel db inputs c')

abbrev pub next_backend : Option Compared → (Compared → Option Compared) → Option Compared
next_backend none more = none
next_backend (some c) more = more c

-- The backends in turn; `none` for one without a snapshot.
unfoldable pub check_backends :
    ℕ → Db → List (Option (List (Option Bytes))) → Compared → Option Compared
unfolding check_from_memfd
check_backends fuel db [] c = some c
check_backends fuel db (none ∷ backends) c =
    check_backends fuel db backends (record c { problems = c.problems + 1 })
check_backends fuel db (some inputs ∷ backends) c =
    next_backend (check_from_memfd fuel db inputs c) (λ c'. check_backends fuel db backends c')

-- `labs(db_total_entries - (backend_total_entries - backend_added_entries))`
abbrev pub removed_entries : ℕ → Compared → ℕ
removed_entries db_total c = let kept = c.entries - c.added in (db_total - kept) + (kept - db_total)

abbrev pub compare_answer : ℕ → Compared → ℤ
compare_answer db_total c = if c.problems + removed_entries db_total c == 0 then pos 0 else pos 1

abbrev pub nothing_compared : Compared
nothing_compared = record { problems = 0; entries = 0; added = 0 }

abbrev pub answer_for : ℕ → Option Compared → Option ℤ
answer_for db_total none = none
answer_for db_total (some c) = some (compare_answer db_total c)

-- `started`: whether the reads start; `db_total` is the number of entries that LMDB tells.
unfoldable pub check_database_copy :
    ℕ → Bool → ℕ → Db → List (Option (List (Option Bytes))) → Option ℤ
unfolding check_backends
check_database_copy fuel started db_total db backends =
    if not started
    then some (negsuc 0)
    else answer_for db_total (check_backends fuel db backends nothing_compared)

-- The data of a line's record is a value of the path's key. A line of which `split_record` makes no
-- record asks for nothing.
abbrev pub LineFound : Db → Option (Bytes × Bytes) → Type 0
LineFound db none = Unit
LineFound db (some (index, text)) = Among text (values_at db index)

-- So are the records of all lines up to an error of a read.
abbrev pub AllFound : Db → List (Option Bytes) → Type 0
AllFound db [] = Unit
AllFound db (none ∷ inputs) = Unit
AllFound db (some buff ∷ inputs) = LineFound db (split_record buff) × AllFound db inputs

abbrev pub AllCopied : Db → List (Option (List (Option Bytes))) → Type 0
AllCopied db [] = Unit
AllCopied db (none ∷ backends) = ⊥
AllCopied db (some inputs ∷ backends) = AllFound db inputs × AllCopied db backends

count_found-clean :
    (r : Bool × ℕ) (c : Compared) → (count_found r c).problems ≡ 0 → (c.problems ≡ 0) × (r.0 ≡ true)
count_found-clean (true, matched) c h = (h, refl)
count_found-clean (false, matched) c h = absurd (omega arith)

module _ (fuel : ℕ) (db : Db) where
  module _ (Rest : Type 0) (c out : Compared) (more : Compared → Option Compared)
      (ih : (c' : Compared) → more c' ≡ some out → (c'.problems ≡ 0) × Rest) where
    search_clean :
        (index text : Bytes) (o : Option (Bool × ℕ))
        → check_data_presence fuel db index text ≡ o
        → count_search c o more ≡ some out
        → (c.problems ≡ 0) × (LineFound db (some (index, text)) × Rest)
    search_clean index text none e h = absurd (cc)
    search_clean index text (some (found, matched)) e h =
        let (clean, rest) = ih (count_found (found, matched) c) h in
        let (before, hit) = count_found-clean (found, matched) c clean in
        (
          before,
          (
            check_data_presence-Among db index text fuel matched
                (e ∙ ap (λ b. some (b, matched)) hit),
            rest,
          ),
        )

    line_clean :
        (o : Option (Bytes × Bytes))
        → count_line c o (check_data_presence fuel db) more ≡ some out
        → (c.problems ≡ 0) × (LineFound db o × Rest)
    line_clean none h = let (clean, rest) = ih _ h in (clean, (tt, rest))
    line_clean (some (index, text)) h = search_clean index text _ refl h

  -- With no problem at the end there was none before.
  memfd_clean :
      (inputs : List (Option Bytes)) (c out : Compared)
      → check_from_memfd fuel db inputs c ≡ some out
      → out.problems ≡ 0
      → (c.problems ≡ 0) × AllFound db inputs
  unfolding check_from_memfd
  memfd_clean [] c out h z = (let same : some c ≡ some out = h in ground arith, tt)
  memfd_clean (none ∷ inputs) c out h z = (let same : some c ≡ some out = h in ground arith, tt)
  memfd_clean (some buff ∷ inputs) c out h z =
      line_clean (AllFound db inputs) c out _ (λ c' e. memfd_clean inputs c' out e z)
        (split_record buff) h

  next_clean :
      (inputs : List (Option Bytes)) (Rest : Type 0) (c out : Compared)
      (more : Compared → Option Compared) (o : Option Compared)
      → check_from_memfd fuel db inputs c ≡ o
      → next_backend o more ≡ some out
      → ((c' : Compared) → more c' ≡ some out → (c'.problems ≡ 0) × Rest)
      → (c.problems ≡ 0) × (AllFound db inputs × Rest)
  next_clean inputs Rest c out more none e h ih = absurd (cc)
  next_clean inputs Rest c out more (some c') e h ih =
      let (clean, rest) = ih c' h in
      let (before, found) = memfd_clean inputs c c' e clean in (before, (found, rest))

  backends_clean :
      (backends : List (Option (List (Option Bytes)))) (c out : Compared)
      → check_backends fuel db backends c ≡ some out
      → out.problems ≡ 0
      → (c.problems ≡ 0) × AllCopied db backends
  unfolding check_backends
  backends_clean [] c out h z = (let same : some c ≡ some out = h in ground arith, tt)
  backends_clean (none ∷ backends) c out h z =
      let (clean, rest) = backends_clean backends _ out h z in absurd (omega arith)
  backends_clean (some inputs ∷ backends) c out h z =
      next_clean inputs (AllCopied db backends) c out _ _ refl h
        (λ c' e. backends_clean backends c' out e z)

  answer_clean :
      (db_total : ℕ) (backends : List (Option (List (Option Bytes)))) (o : Option Compared)
      → check_backends fuel db backends nothing_compared ≡ o
      → answer_for db_total o ≡ some (pos 0)
      → AllCopied db backends
  answer_clean db_total backends none e h = absurd (cc)
  answer_clean db_total backends (some c) e h =
      (backends_clean backends nothing_compared c e (ground arith)).1

  -- `check_database_copy` answers 0 only where every backend has a snapshot and, for each line read
  -- before an error of a read, the data of its record is a value of the key of the record's path. A
  -- line that is not split into a path and data, for want of a blank or of a newline in the buffer, is
  -- read and left out.
  pub check_database_copy-AllCopied :
      (started : Bool) (db_total : ℕ) (backends : List (Option (List (Option Bytes))))
      → check_database_copy fuel started db_total db backends ≡ some (pos 0)
      → AllCopied db backends
  unfolding check_database_copy
  check_database_copy-AllCopied true db_total backends h = answer_clean db_total backends _ refl h
  check_database_copy-AllCopied false db_total backends h =
      let clash : some (negsuc 0) ≡ some (pos 0) = h in absurd (ground arith)
