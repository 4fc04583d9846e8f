-- ===== src/Trust/Line.antt =====
-- src/library/trust-file.c: `parse_line_backwards` on a line that `write_out_list` writes.
use mathlib.Core.List.{append_assoc, reverse, reverse-cons, reverse-append, reverse-reverse}
use rhel_fapolicyd.Base.{
  ℕ, zero, suc, ◌+◌, ◌≤◌, ◌<◌, ◌≡◌, refl, ap, ◌∙◌, false, some, [], ◌∷◌, ◌++◌, ◌==◌, ltb, length,
  take, length-append, Bytes, arith,
}
use rhel_fapolicyd.Strings.{isspace, skip_spaces}
use rhel_fapolicyd.Trust.{fields, copy_fields, cut_delim, cut_sha, cut_number, parse_line_backwards}
use rhel_fapolicyd.Trust.Decimal.{
  decimal, long_max, AllDigits, decimal-AllDigits, length-decimal, strtol-decimal,
}

-- No byte is white space.
abbrev pub AllPlain : Bytes → Type 0
AllPlain [] = Unit
AllPlain (c ∷ s) = (isspace c ≡ false) × AllPlain s

AllPlain-append : (xs ys : Bytes) → AllPlain xs → AllPlain ys → AllPlain (xs ++ ys)
AllPlain-append [] ys h k = k
AllPlain-append (x ∷ xs) ys h k = (h.0, AllPlain-append xs ys h.1 k)

pub AllPlain-reverse : (xs : Bytes) → AllPlain xs → AllPlain (reverse xs)
AllPlain-reverse [] h = tt
AllPlain-reverse (x ∷ xs) h =
    rw (reverse-cons x xs)
      (AllPlain-append (reverse xs) (x ∷ []) (AllPlain-reverse xs h.1) (h.0, tt))

pub AllDigits→AllPlain : (xs : Bytes) → AllDigits xs → AllPlain xs
AllDigits→AllPlain [] h = tt
AllDigits→AllPlain (x ∷ xs) h = (ground arith, AllDigits→AllPlain xs h.2)

pub length-reverse : (xs : Bytes) → length (reverse xs) ≡ length xs
length-reverse [] = refl
length-reverse (x ∷ xs) =
    rw (reverse-cons x xs) (omega (arith, length-append (reverse xs) (x ∷ []), length-reverse xs))

cut_delim-append : (xs ys : Bytes) → AllPlain xs → cut_delim (xs ++ (b' ' ∷ ys)) ≡ some (xs, ys)
unfolding cut_delim
cut_delim-append [] ys h = refl
cut_delim-append (x ∷ xs) ys h =
    let other : (x == b' ') ≡ false = ground arith in rw (other, cut_delim-append xs ys h.1) refl

skip_spaces-plain :
    (xs ys : Bytes) → 0 < length xs → AllPlain xs → skip_spaces (xs ++ ys) ≡ xs ++ ys
unfolding skip_spaces
skip_spaces-plain [] ys n h = absurd (omega arith)
skip_spaces-plain (x ∷ xs) ys n h = rw h.0 refl

skip_newline : (s : Bytes) → skip_spaces (10 ∷ s) ≡ skip_spaces s
unfolding skip_spaces
skip_newline s = refl

pub take_all : (n : ℕ) (xs : Bytes) → length xs ≤ n → take n xs ≡ xs
take_all zero [] h = refl
take_all zero (x ∷ xs) h = absurd (omega arith)
take_all (suc n) [] h = refl
take_all (suc n) (x ∷ xs) h = ap (λ ys. x ∷ ys) (take_all n xs (omega arith))

-- The line of an entry.
abbrev pub line_of : Bytes → Bytes → Bytes → Bytes
line_of path number sha = path ++ (b' ' ∷ (number ++ (b' ' ∷ (sha ++ (10 ∷ [])))))

reverse-line_of :
    (path number sha : Bytes)
    → reverse (line_of path number sha)
      ≡ 10 ∷ (reverse sha ++ (b' ' ∷ (reverse number ++ (b' ' ∷ reverse path))))
reverse-line_of path number sha = simp (reverse-append, reverse-cons, append_assoc)

module _ (path sha : Bytes) (size : ℕ) (short : length path ≤ 4096) (plain : AllPlain sha)
    (some_sha : 0 < length sha) (narrow : length sha ≤ 135) (fits : size ≤ long_max) where
  copy_fields-decimal : copy_fields path (decimal size) sha ≡ fields path size sha
  unfolding copy_fields
  copy_fields-decimal =
      let room : ltb 1024 (length (decimal size) + 2) ≡ false =
        ground (arith, length-decimal size) in
      rw (room, take_all 4096 path short, take_all 135 sha narrow, strtol-decimal size fits) refl

  -- A line of a path, a size in decimal and a digest is split into these, whatever blanks the path
  -- has: the path is at most 4096 bytes, the size below 2 ^ 63, the digest has 1 to 135 bytes and no
  -- white space.
  pub parse_line_backwards-line_of :
      parse_line_backwards (line_of path (decimal size) sha) ≡ fields path size sha
  unfolding parse_line_backwards
  parse_line_backwards-line_of =
      let number_plain = AllDigits→AllPlain (decimal size) (decimal-AllDigits size) in
      let rest = reverse (decimal size) ++ (b' ' ∷ reverse path) in
      let some_back : 0 < length (reverse sha) = omega (arith, length-reverse sha) in
      let sha_back = AllPlain-reverse sha plain in
      ap (λ s. cut_sha (cut_delim (skip_spaces s))) (reverse-line_of path (decimal size) sha)
      ∙ ap (λ s. cut_sha (cut_delim s))
          (skip_newline _ ∙ skip_spaces-plain (reverse sha) (b' ' ∷ rest) some_back sha_back)
      ∙ ap cut_sha (cut_delim-append (reverse sha) rest sha_back)
      ∙ ap (cut_number (reverse sha)) (
          cut_delim-append (reverse (decimal size)) (reverse path)
            (AllPlain-reverse (decimal size) number_plain))
      ∙ rw (reverse-reverse path, reverse-reverse (decimal size), reverse-reverse sha)
          copy_fields-decimal
