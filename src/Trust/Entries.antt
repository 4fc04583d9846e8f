-- ===== src/Trust/Entries.antt =====
-- src/library/trust-file.c: the entries that can stand in a file, and the lines that they are written
-- as.
use mathlib.Core.List.{append_assoc}
use rhel_fapolicyd.Base.{
  has_newline, has_newline-append, ℕ, ◌+◌, ◌-◌, ◌%◌, ◌≤◌, ◌<◌, ◌≡◌, refl, sym, ap, ◌∙◌, true, false,
  some, List, [], ◌∷◌, ◌++◌, ltb, length, take, length-append, Bytes, arith,
}
use rhel_fapolicyd.LList.Calls.{ListEntry}
use rhel_fapolicyd.Trust.{
  headers, header0, header1, header2, header3, header4, src_file_db, buffer_size, data_string,
  is_skipped,
}
use rhel_fapolicyd.Trust.Decimal.{
  put_digits, decimal, long_max, AllDigits, decimal-AllDigits, length-decimal,
}
use rhel_fapolicyd.Trust.Edit.{put_line, put_lines}
use rhel_fapolicyd.Trust.Line.{AllPlain, line_of}
use rhel_fapolicyd.Trust.Text.{whole, IsLine, AllLines}

-- An entry that can stand in a file: its path fits, has no newline and does not start like a
-- comment; its payload is that of `make_data_string` or of a load.
pub record Writable (e : ListEntry) : Type 0 where
  pub size : ℕ
  pub sha : Bytes
  pub source : ℕ
  pub payload : e.1 ≡ some (data_string source size sha)
  pub one_digit : source < 10
  pub short : length e.0 ≤ 4096
  pub listed : is_skipped e.0 ≡ false
  pub unbroken : has_newline e.0 ≡ false
  pub fits : size ≤ long_max
  pub width : length sha ≡ 64
  pub plain : AllPlain sha

abbrev pub AllWritable : List ListEntry → Type 0
AllWritable [] = Unit
AllWritable (e ∷ es) = Writable e × AllWritable es

-- The entries as a load gives them, with the source of trust files.
abbrev pub restored : (es : List ListEntry) → AllWritable es → List ListEntry
restored [] h = []
restored (e ∷ es) h = (e.0, some (data_string src_file_db h.0.size h.0.sha)) ∷ restored es h.1

abbrev pub lines : (es : List ListEntry) → AllWritable es → List Bytes
lines [] h = []
lines (e ∷ es) h = line_of e.0 (decimal h.0.size) h.0.sha ∷ lines es h.1

pub has_newline-digits : (xs : Bytes) → AllDigits xs → has_newline xs ≡ false
has_newline-digits [] h = refl
has_newline-digits (x ∷ xs) h = ground (arith, has_newline-digits xs h.2)

pub has_newline-plain : (xs : Bytes) → AllPlain xs → has_newline xs ≡ false
has_newline-plain [] h = refl
has_newline-plain (x ∷ xs) h = ground (arith, has_newline-plain xs h.1)

pub data_string-digit :
    (source size : ℕ) (sha : Bytes)
    → source < 10
    → data_string source size sha ≡ (48 + source) ∷ b' ' ∷ (decimal size ++ (b' ' ∷ sha))
unfolding data_string decimal put_digits
data_string-digit source size sha h =
    let small : ltb source 10 ≡ true = ground arith in
    rw small (
      ap (λ d. d ∷ b' ' ∷ (put_digits 20 size [] ++ (b' ' ∷ sha))) {x = 48 + source % 10}
        (omega arith))

-- The line of an entry.
abbrev pub entry_line : (e : ListEntry) → Writable e → Bytes
entry_line e w = line_of e.0 (decimal w.size) w.sha

length-line_of :
    (path number sha : Bytes)
    → length (line_of path number sha) ≡ length path + length number + length sha + 3
length-line_of path number sha = omega (
  arith,
  length-append path (b' ' ∷ (number ++ (b' ' ∷ (sha ++ (10 ∷ []))))),
  length-append number (b' ' ∷ (sha ++ (10 ∷ []))),
  length-append sha (10 ∷ []),
)

module _ (e : ListEntry) (w : Writable e) where
  entry_line-IsLine : IsLine (entry_line e w)
  entry_line-IsLine =
      let number = decimal w.size in
      let tail = number ++ (b' ' ∷ w.sha) in
      let plain = has_newline-plain w.sha w.plain in
      let digits = has_newline-digits number (decimal-AllDigits w.size) in
      let size = length-append e.0 (b' ' ∷ tail) in
      let size' = length-append number (b' ' ∷ w.sha) in
      record {
        body = e.0 ++ (b' ' ∷ tail);
        ends = sym (
            append_assoc e.0 (b' ' ∷ tail) (10 ∷ [])
            ∙ ap (λ t. e.0 ++ (b' ' ∷ t)) (append_assoc number (b' ' ∷ w.sha) (10 ∷ [])));
        unbroken =
            has_newline-append e.0 (b' ' ∷ tail) w.unbroken
              (has_newline-append number (b' ' ∷ w.sha) digits plain);
        short = omega (arith, size, size', length-decimal w.size, w.short, w.width);
      }

  put_line-entry_line : put_line e.0 (decimal w.size ++ (b' ' ∷ w.sha)) ≡ some (entry_line e w)
  unfolding put_line
  put_line-entry_line =
      let same : e.0 ++ (b' ' ∷ ((decimal w.size ++ (b' ' ∷ w.sha)) ++ (10 ∷ [])))
          ≡ entry_line e w =
        ap (λ t. e.0 ++ (b' ' ∷ t)) (append_assoc (decimal w.size) (b' ' ∷ w.sha) (10 ∷ [])) in
      let room : ltb (length (entry_line e w)) (buffer_size + 1) ≡ true = ground (
        arith,
        length-line_of e.0 (decimal w.size) w.sha,
        length-decimal w.size,
        w.short,
        w.width,
      ) in
      rw (same, room) refl

pub put_lines-lines :
    (es : List ListEntry) (h : AllWritable es) → put_lines es ≡ some (whole (lines es h))
unfolding put_lines
put_lines-lines [] h = refl
put_lines-lines (e ∷ es) h =
    let w = h.0 in
    let payload : e.1 ≡ some ((48 + w.source) ∷ b' ' ∷ (decimal w.size ++ (b' ' ∷ w.sha))) =
      w.payload ∙ ap some (data_string-digit w.source w.size w.sha w.one_digit) in
    rw (payload, put_line-entry_line e w, put_lines-lines es h.1) refl

pub AllLines-lines : (es : List ListEntry) (h : AllWritable es) → AllLines (lines es h)
AllLines-lines [] h = tt
AllLines-lines (e ∷ es) h = (entry_line-IsLine e h.0, AllLines-lines es h.1)

abbrev title : Bytes → Bytes
title l = take (length l - 1) l

title-IsLine :
    (l : Bytes)
    → l ≡ title l ++ (10 ∷ [])
    → has_newline (title l) ≡ false
    → length (title l) + 2 ≤ buffer_size
    → IsLine l
title-IsLine l e u h = record { body = title l; ends = e; unbroken = u; short = h }

pub AllLines-headers : (ls : List Bytes) → AllLines ls → AllLines (headers ++ ls)
AllLines-headers ls h = (
  title-IsLine header0 refl refl (omega arith),
  (
    title-IsLine header1 refl refl (omega arith),
    (
      title-IsLine header2 refl refl (omega arith),
      (
        title-IsLine header3 refl refl (omega arith),
        (title-IsLine header4 refl refl (omega arith), h),
      ),
    ),
  ),
)
