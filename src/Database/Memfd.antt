-- ===== src/Database/Memfd.antt =====
-- src/library/database.c: `do_memfd_update`, on what `fd_fgets_r` gives of a backend's snapshot, and
-- the records that the update thread is sent.
use mathlib.Core.List.{append_assoc, reverse, reverse-cons, reverse-append, reverse-reverse}
use mathlib.Core.Option
use rhel_fapolicyd.Base.{
  has_newline, has_newline-append, ℕ, zero, suc, ◌+◌, ◌<◌, ◌≡◌, refl, sym, ap, ◌∙◌, false, Option,
  none, some, List, [], ◌∷◌, ◌++◌, ◌==◌, if◌then◌else◌, length, length-append, drop, Bytes, arith,
}
use rhel_fapolicyd.Strings.{isspace}
use rhel_fapolicyd.Trust.{data_string}
use rhel_fapolicyd.Trust.Decimal.{decimal, decimal-AllDigits}
use rhel_fapolicyd.Trust.Line.{AllPlain, AllPlain-reverse, AllDigits→AllPlain, length-reverse}
use rhel_fapolicyd.Trust.Entries.{has_newline-digits, has_newline-plain}
use rhel_fapolicyd.Database.Lookup.{Db}
use rhel_fapolicyd.Database.Store.{Txn, write_db}

-- BUFFER_SIZE, the size of `buff` with its NUL.
abbrev pub buff_size : ℕ
buff_size = 4096

-- `fapolicyd_strnchr` for the newline, in at most so many bytes, and the cut there. A buffer is held
-- without its NUL, where the search ends.
unfoldable pub until_newline : ℕ → Bytes → Option Bytes
until_newline zero s = none
until_newline (suc n) [] = none
until_newline (suc n) (c ∷ s) =
    let further = Option.map (◌∷◌ c) (until_newline n s) in if c == 10 then some [] else further

-- The bytes behind the first white space of a text.
unfoldable pub behind_space : Bytes → Option Bytes
behind_space [] = none
behind_space (c ∷ s) = let further = behind_space s in if isspace c then some s else further

-- What stands before the last white space, and before that: the loop from the end, on the reversed
-- text. With a third delimiter the index ends there, else it is the whole line; `data` begins behind
-- the last delimiter that the loop has seen.
abbrev pub third_delim : Bytes → Bytes → Option Bytes → Bytes × Bytes
third_delim text second none = (text, drop (length second + 1) text)
third_delim text second (some third) = (reverse third, drop (length third + 1) text)

abbrev pub second_delim : Bytes → Bytes → Option Bytes → Bytes × Bytes
second_delim text first none = (text, drop (length first + 1) text)
second_delim text first (some second) = third_delim text second (behind_space second)

abbrev pub first_delim : Bytes → Option Bytes → Option (Bytes × Bytes)
first_delim text none = none
first_delim text (some first) = some (second_delim text first (behind_space first))

abbrev pub split_text : Option Bytes → Option (Bytes × Bytes)
split_text none = none
split_text (some text) = first_delim text (behind_space (reverse text))

-- The index and the data of a buffer; `none` for a line that is skipped.
unfoldable pub split_record : Bytes → Option (Bytes × Bytes)
unfolding until_newline behind_space
split_record buff = split_text (until_newline buff_size buff)

pub record Updated : Type 0 where
  pub rc : ℕ
  pub entries : ℕ
  pub db : Db

abbrev pub write_record : Txn → (Db → Bytes → Bytes → Db) → Db → Option (Bytes × Bytes) → Db
write_record txn put db none = db
write_record txn put db (some (index, text)) = (write_db txn put db index text).1

-- The loop. An input is a buffer, or `none` for an error of `fd_fgets_r`; the list ends with the
-- file, or where `stop` is set. A code of `write_db` is only logged.
unfoldable pub update_loop :
    (ℕ → Txn) → (Db → Bytes → Bytes → Db) → List (Option Bytes) → ℕ → Db → Updated
unfolding split_record write_db
update_loop txns put [] entries db = record { rc = 0; entries = entries; db = db }
update_loop txns put (none ∷ inputs) entries db = record { rc = 1; entries = entries; db = db }
update_loop txns put (some buff ∷ inputs) entries db =
    update_loop txns put inputs (entries + 1)
      (write_record (txns entries) put db (split_record buff))

unfoldable pub do_memfd_update :
    (ℕ → Txn) → (Db → Bytes → Bytes → Db) → List (Option Bytes) → Db → Updated
unfolding update_loop
do_memfd_update txns put inputs db = update_loop txns put inputs 0 db

until_newline-line :
    (n : ℕ) (s : Bytes)
    → has_newline s ≡ false
    → length s < n
    → until_newline n (s ++ (10 ∷ [])) ≡ some s
unfolding until_newline
until_newline-line zero s h k = absurd (omega arith)
until_newline-line (suc n) [] h k = refl
until_newline-line (suc n) (c ∷ s) h k =
    let here : (c == 10) ≡ false = ground arith in
    let later : has_newline s ≡ false = ground arith in
    rw (here, until_newline-line n s later (omega arith)) refl

behind_space-append : (xs ys : Bytes) → AllPlain xs → behind_space (xs ++ (b' ' ∷ ys)) ≡ some ys
unfolding behind_space
behind_space-append [] ys h = refl
behind_space-append (x ∷ xs) ys h = rw (h.0, behind_space-append xs ys h.1) refl

drop_past : (xs ys : Bytes) (c : ℕ) → drop (suc (length xs)) (xs ++ (c ∷ ys)) ≡ ys
drop_past [] ys c = refl
drop_past (x ∷ xs) ys c = drop_past xs ys c

drop_front : (n : ℕ) (xs ys : Bytes) (c : ℕ) → n ≡ length xs → drop (n + 1) (xs ++ (c ∷ ys)) ≡ ys
drop_front n xs ys c h =
    ap (λ k. drop k (xs ++ (c ∷ ys))) {x = n + 1} {y = suc (length xs)} (omega arith)
    ∙ drop_past xs ys c

-- The parts of a line of a snapshot, from its end.
reverse-parts :
    (index a b sha : Bytes)
    → reverse (index ++ (b' ' ∷ (a ++ (b' ' ∷ (b ++ (b' ' ∷ sha))))))
      ≡ reverse sha ++ (b' ' ∷ (reverse b ++ (b' ' ∷ (reverse a ++ (b' ' ∷ reverse index)))))
reverse-parts index a b sha = simp (reverse-append, reverse-cons, append_assoc)

module _ (index a b sha : Bytes) (plain_a : AllPlain a) (plain_b : AllPlain b)
    (plain : AllPlain sha) where
  abbrev tail_text : Bytes
  tail_text = a ++ (b' ' ∷ (b ++ (b' ' ∷ sha)))

  abbrev whole_text : Bytes
  whole_text = index ++ (b' ' ∷ tail_text)

  split_parts : first_delim whole_text (behind_space (reverse whole_text)) ≡ some (index, tail_text)
  split_parts =
      let back = reverse a ++ (b' ' ∷ reverse index) in
      let one =
        ap behind_space (reverse-parts index a b sha)
        ∙ behind_space-append (reverse sha) (reverse b ++ (b' ' ∷ back))
            (AllPlain-reverse sha plain) in
      let two = behind_space-append (reverse b) back (AllPlain-reverse b plain_b) in
      let three = behind_space-append (reverse a) (reverse index) (AllPlain-reverse a plain_a) in
      ap (first_delim whole_text) one
      ∙ ap (λ o. some (second_delim whole_text (reverse b ++ (b' ' ∷ back)) o)) two
      ∙ ap (λ o. some (third_delim whole_text back o)) three
      ∙ ap (λ i. some (i, drop (length (reverse index) + 1) whole_text)) (reverse-reverse index)
      ∙ ap (λ t. some (index, t))
          (drop_front (length (reverse index)) index tail_text b' ' (length-reverse index))

-- A line that a load streams to a snapshot, the path, a blank and the data, is split into these,
-- whatever blanks the path has: for a path without newlines, a digest without white space, and a line
-- that has fewer than 4096 bytes with its newline.
pub split_record-data_string :
    (index : Bytes) (source size : ℕ) (sha : Bytes)
    → has_newline index ≡ false
    → AllPlain sha
    → length index + 1 + length (data_string source size sha) + 1 < buff_size
    → split_record (index ++ (b' ' ∷ (data_string source size sha ++ (10 ∷ []))))
      ≡ some (index, data_string source size sha)
unfolding split_record data_string
split_record-data_string index source size sha h plain room =
    let a = decimal source in
    let b = decimal size in
    let digits_a = decimal-AllDigits source in
    let digits_b = decimal-AllDigits size in
    let tail = a ++ (b' ' ∷ (b ++ (b' ' ∷ sha))) in
    let clear = has_newline-append index (b' ' ∷ tail) h (
      has_newline-append a (b' ' ∷ (b ++ (b' ' ∷ sha))) (has_newline-digits a digits_a) (
        has_newline-append b (b' ' ∷ sha) (has_newline-digits b digits_b)
          (has_newline-plain sha plain))) in
    ap (λ s. split_text (until_newline buff_size s))
      (sym (append_assoc index (b' ' ∷ tail) (10 ∷ [])))
    ∙ ap split_text (
        until_newline-line buff_size (index ++ (b' ' ∷ tail)) clear
          (omega (arith, length-append index (b' ' ∷ tail))))
    ∙ split_parts index a b sha (AllDigits→AllPlain a digits_a) (AllDigits→AllPlain b digits_b)
        plain

-- The inputs without an error.
abbrev pub inputs_of : List Bytes → List (Option Bytes)
inputs_of [] = []
inputs_of (b ∷ bs) = some b ∷ inputs_of bs

update_loop-rc :
    (txns : ℕ → Txn) (put : Db → Bytes → Bytes → Db) (bs : List Bytes) (n : ℕ) (db : Db)
    → ((update_loop txns put (inputs_of bs) n db).rc ≡ 0)
      × ((update_loop txns put (inputs_of bs) n db).entries ≡ n + length bs)
unfolding update_loop
update_loop-rc txns put [] n db = (refl, omega arith)
update_loop-rc txns put (b ∷ bs) n db =
    let (rc, entries) =
      update_loop-rc txns put bs (n + 1) (write_record (txns n) put db (split_record b)) in
    (rc, omega (arith, entries))

-- Where every buffer is read, `do_memfd_update` answers 0 and counts every buffer, also those that are
-- not split or whose `write_db` fails.
pub do_memfd_update-rc :
    (txns : ℕ → Txn) (put : Db → Bytes → Bytes → Db) (bs : List Bytes) (db : Db)
    → ((do_memfd_update txns put (inputs_of bs) db).rc ≡ 0)
      × ((do_memfd_update txns put (inputs_of bs) db).entries ≡ length bs)
unfolding do_memfd_update
do_memfd_update-rc txns put bs db =
    let (rc, entries) = update_loop-rc txns put bs 0 db in (rc, omega (arith, entries))
