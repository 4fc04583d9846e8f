-- ===== src/Trust/Text.antt =====
-- src/library/trust-file.c: the buffers that `fgets` reads of a file, and the lines of a file that
-- `write_out_list` writes.
use mathlib.Core.List.{append_assoc}
use rhel_fapolicyd.Base.{
  has_newline, ℕ, zero, suc, ◌+◌, ◌-◌, ◌≤◌, ◌<◌, ◌≡◌, refl, sym, ap, ◌∙◌, false, inl, inr, List, [],
  ◌∷◌, ◌++◌, ◌==◌, length, length-append, Bool-cases, Bytes, arith,
}
use rhel_fapolicyd.Trust.{fgets, buffers, buffer_size}
use rhel_fapolicyd.Trust.Edit.{put_headers}

-- All bytes of the lines.
abbrev pub whole : List Bytes → Bytes
whole ls = put_headers ls []

fgets_whole : (n : ℕ) (s : Bytes) → (fgets n s).0 ++ (fgets n s).1 ≡ s
unfolding fgets
fgets_whole zero s = refl
fgets_whole (suc n) [] = refl
fgets_whole (suc n) (c ∷ s) = elim (Bool-cases (c == 10)) [
  | inl last ↦ rw last refl
  | inr more ↦ rw more (ap (λ t. c ∷ t) (fgets_whole n s))
]

fgets_reads : (n c : ℕ) (s : Bytes) → 0 < n → length (fgets n (c ∷ s)).1 ≤ length s
unfolding fgets
fgets_reads zero c s h = absurd (omega arith)
fgets_reads (suc n) c s h =
    let split : length (fgets n s).0 + length (fgets n s).1 ≡ length s =
      sym (length-append (fgets n s).0 (fgets n s).1) ∙ ap length (fgets_whole n s) in
    ground arith

buffers_empty : (fuel : ℕ) → buffers fuel [] ≡ []
unfolding buffers
buffers_empty fuel = refl

buffers_step :
    (fuel : ℕ) (s : Bytes)
    → 0 < length s
    → buffers (suc fuel) s
      ≡ (fgets (buffer_size - 1) s).0 ∷ buffers fuel (fgets (buffer_size - 1) s).1
unfolding buffers
buffers_step fuel [] h = absurd (omega arith)
buffers_step fuel (c ∷ s) h = refl

within : (a b c : ℕ) → a ≤ b → suc b ≤ suc c → a ≤ c
within a b c h k = omega arith

buffers_total : (fuel : ℕ) (s : Bytes) → length s ≤ fuel → whole (buffers fuel s) ≡ s
buffers_total fuel [] h = ap whole (buffers_empty fuel)
buffers_total zero (c ∷ s) h = absurd (omega arith)
buffers_total (suc fuel) (c ∷ s) h =
    let left = fgets_reads (buffer_size - 1) c s (omega arith) in
    let r = fgets (buffer_size - 1) (c ∷ s) in
    ap whole (buffers_step fuel (c ∷ s) (omega arith))
    ∙ ap (λ t. r.0 ++ t) (buffers_total fuel r.1 (within _ _ _ left h))
    ∙ fgets_whole (buffer_size - 1) (c ∷ s)

-- The calls of `fgets` read the whole file: as many rounds as it has bytes are enough.
pub whole-buffers : (s : Bytes) → whole (buffers (length s) s) ≡ s
whole-buffers s = buffers_total (length s) s (omega arith)

-- A line of a file: it ends in its only newline, and fits the buffer.
pub record IsLine (l : Bytes) : Type 0 where
  pub body : Bytes
  pub ends : l ≡ body ++ (10 ∷ [])
  pub unbroken : has_newline body ≡ false
  pub short : length body + 2 ≤ buffer_size

abbrev pub AllLines : List Bytes → Type 0
AllLines [] = Unit
AllLines (l ∷ ls) = IsLine l × AllLines ls

fgets_body :
    (n : ℕ) (body rest : Bytes)
    → has_newline body ≡ false
    → length body < n
    → fgets n (body ++ (10 ∷ rest)) ≡ (body ++ (10 ∷ []), rest)
unfolding fgets
fgets_body zero body rest u h = absurd (omega arith)
fgets_body (suc n) [] rest u h = refl
fgets_body (suc n) (c ∷ body) rest u h =
    let here : (c == 10) ≡ false = ground arith in
    let further : has_newline body ≡ false = ground arith in
    rw (here, fgets_body n body rest further (omega arith)) refl

fgets_line : (l rest : Bytes) → IsLine l → fgets (buffer_size - 1) (l ++ rest) ≡ (l, rest)
fgets_line l rest h =
    let split : l ++ rest ≡ h.body ++ (10 ∷ rest) =
      ap (λ t. t ++ rest) h.ends ∙ append_assoc h.body (10 ∷ []) rest in
    let short : length h.body < buffer_size - 1 = omega (arith, h.short) in
    ap (fgets (buffer_size - 1)) split
    ∙ fgets_body (buffer_size - 1) h.body rest h.unbroken short
    ∙ ap (λ t. (t, rest)) (sym h.ends)

buffers_lines :
    (fuel : ℕ) (ls : List Bytes)
    → AllLines ls
    → length (whole ls) ≤ fuel
    → buffers fuel (whole ls) ≡ ls
buffers_lines fuel [] h k = buffers_empty fuel
buffers_lines zero (l ∷ ls) h k = absurd (
    omega (arith, length-append l (whole ls), ap length h.0.ends, length-append h.0.body (10 ∷ [])))
buffers_lines (suc fuel) (l ∷ ls) h k =
    let size = length-append l (whole ls) in
    let full : length l ≡ length h.0.body + 1 =
      ap length h.0.ends ∙ length-append h.0.body (10 ∷ []) in
    let first = fgets_line l (whole ls) h.0 in
    let ih = buffers_lines fuel ls h.1 (omega arith) in
    buffers_step fuel (l ++ whole ls) (omega arith)
    ∙ ap (λ (r : Bytes × Bytes). r.0 ∷ buffers fuel r.1) first
    ∙ ap (λ bs. l ∷ bs) ih

-- A file of lines is read line by line.
pub buffers-whole : (ls : List Bytes) → AllLines ls → buffers (length (whole ls)) (whole ls) ≡ ls
buffers-whole ls h = buffers_lines (length (whole ls)) ls h (omega arith)
