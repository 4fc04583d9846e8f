-- ===== src/Escape/RoundTrip.antt =====
-- `unescape_shell` undoes `escape_shell`, and what the length argument has to be for that.
use mathlib.Core.Option
use mathlib.Core.List.{append-nil, append_assoc}
use rhel_fapolicyd.Base.{
  ℕ, zero, suc, ◌+◌, ◌-◌, ◌*◌, ◌/◌, ◌%◌, ◌≤◌, ◌<◌, ◌≡◌, refl, sym, ◌⊎◌, inl, inr, true, false,
  Option, some, [], ◌∷◌, ◌++◌, ◌==◌, ◌∙◌, ap, arith, ltb, length, length-append, Bytes,
}
use rhel_fapolicyd.Escape.{
  strchr, sh_set, escape_byte, escape_bytes, isoctal, unescape_loop, unescape_shell,
}

-- The bytes of a C string: none is NUL.
abbrev pub IsText : Bytes → Type 0
IsText [] = Unit
IsText (c ∷ cs) = (0 < c) × (c < 256) × IsText cs

strchr-backslash : strchr sh_set b'\\' ≡ true
unfolding strchr
strchr-backslash = refl

strchr-isoctal : (c : ℕ) → strchr sh_set c ≡ true → isoctal c ≡ false
unfolding strchr
strchr-isoctal c h = ground arith

escape_byte-cases :
    (c : ℕ)
    → ((c < 32)
        × (escape_byte c ≡ b'\\' ∷ (48 + c / 64 % 4) ∷ (48 + c / 8 % 8) ∷ (48 + c % 8) ∷ []))
      ⊎ ((strchr sh_set c ≡ true) × (escape_byte c ≡ b'\\' ∷ c ∷ []))
      ⊎ ((c == b'\\' ≡ false) × (escape_byte c ≡ c ∷ []))
unfolding escape_byte
escape_byte-cases c = ground (arith, strchr-backslash)

octal_value :
    (c : ℕ)
    → c < 32
    → (64 * ((48 + c / 64 % 4) % 8) + 8 * ((48 + c / 8 % 8) % 8) + (48 + c % 8) % 8) % 256 ≡ c
octal_value c h = omega arith

module _ (fuel len sz c : ℕ) (rest : Bytes) (pos : 0 < c) where
  unescape_control :
      c < 32
      → sz + 5 ≤ len
      → unescape_loop
          (suc fuel)
          len
          sz
          (b'\\' ∷ (48 + c / 64 % 4) ∷ (48 + c / 8 % 8) ∷ (48 + c % 8) ∷ rest)
        ≡ Option.map (◌∷◌ c) (unescape_loop fuel len (sz + 4) rest)
  unfolding unescape_loop
  unescape_control h k =
      let fits : ltb (sz + 3) len ≡ true = ground arith in
      let first : isoctal (48 + c / 64 % 4) ≡ true = ground arith in
      let second : isoctal (48 + c / 8 % 8) ≡ true = ground arith in
      let third : isoctal (48 + c % 8) ≡ true = ground arith in
      rw (fits, first, second, third)
        (ap (λ v. Option.map (◌∷◌ v) (unescape_loop fuel len (sz + 4) rest)) (octal_value c h))

  unescape_quoted :
      strchr sh_set c ≡ true
      → sz + 3 ≤ len
      → unescape_loop (suc fuel) len sz (b'\\' ∷ c ∷ rest)
        ≡ Option.map (◌∷◌ c) (unescape_loop fuel len (sz + 2) rest)
  unfolding unescape_loop
  unescape_quoted h k = ground (arith, strchr-isoctal c)

  unescape_plain :
      c == b'\\' ≡ false
      → unescape_loop (suc fuel) len sz (c ∷ rest)
        ≡ Option.map (◌∷◌ c) (unescape_loop fuel len (sz + 1) rest)
  unfolding unescape_loop
  unescape_plain h = rw h

unescape_byte :
    (fuel len sz c : ℕ) (rest : Bytes)
    → 0 < c
    → sz + length (escape_byte c) + 1 ≤ len
    → unescape_loop (suc fuel) len sz (escape_byte c ++ rest)
      ≡ Option.map (◌∷◌ c) (unescape_loop fuel len (sz + length (escape_byte c)) rest)
unescape_byte fuel len sz c rest pos k = elim (escape_byte-cases c) [
  | inl (h, e) ↦ rw e (unescape_control fuel len sz c rest pos h (omega (arith, ap length e)))
  | inr (inl (h, e)) ↦ rw e (unescape_quoted fuel len sz c rest pos h (omega (arith, ap length e)))
  | inr (inr (h, e)) ↦ rw e (unescape_plain fuel len sz c rest pos h)
]

length-escape_byte_pos : (c : ℕ) → 1 ≤ length (escape_byte c)
unfolding escape_byte
length-escape_byte_pos c = ground arith

-- The loop over the quoted form of `s`, whatever follows it.
unescape_loop-escape_bytes :
    (s tail : Bytes) (f fuel len sz : ℕ)
    → IsText s
    → fuel ≡ length s + f
    → sz + length (escape_bytes s) + 1 ≤ len
    → unescape_loop fuel len sz (escape_bytes s ++ tail)
      ≡ Option.map (λ r. s ++ r) (unescape_loop f len (sz + length (escape_bytes s)) tail)
unfolding escape_bytes
unescape_loop-escape_bytes [] tail f fuel len sz t e k =
    let same_fuel : fuel ≡ f = omega arith in
    let same_place : sz + 0 ≡ sz = omega arith in
    rw (same_fuel, same_place)
      (sym
        (ap (λ (h : Option Bytes → Option Bytes). h (unescape_loop f len sz tail)) Option.map-id))
unescape_loop-escape_bytes (c ∷ cs) tail f zero len sz t e k = absurd (omega arith)
unescape_loop-escape_bytes (c ∷ cs) tail f (suc fuel) len sz (pos, small, t) e k =
    let sizes = length-append (escape_byte c) (escape_bytes cs) in
    let later =
      unescape_loop-escape_bytes cs tail f fuel len (sz + length (escape_byte c)) t (omega arith)
        (omega arith) in
    rw append_assoc (
      unescape_byte fuel len sz c (escape_bytes cs ++ tail) pos (omega arith)
      ∙ ap (Option.map (◌∷◌ c)) later
      ∙ Option.map-map (◌∷◌ c) (λ r. cs ++ r) _
      ∙ ap (λ n. Option.map (λ r. c ∷ (cs ++ r)) (unescape_loop f len n tail))
          (omega (arith, sizes)))

length-le-escape_bytes : (s : Bytes) → length s ≤ length (escape_bytes s)
unfolding escape_bytes
length-le-escape_bytes [] = omega arith
length-le-escape_bytes (c ∷ cs) = omega (
  arith,
  length-le-escape_bytes cs,
  length-append (escape_byte c) (escape_bytes cs),
  length-escape_byte_pos c,
)

-- `unescape_shell`, given the quoted form of any C string and as `len` the size of that form with its
-- NUL, gives the string back.
pub unescape_shell-escape_bytes :
    (s : Bytes) → IsText s → unescape_shell (escape_bytes s) (length (escape_bytes s) + 1) ≡ some s
unfolding unescape_shell
unescape_shell-escape_bytes s t =
    let n = length (escape_bytes s) in
    ap (unescape_loop (suc n) (n + 1) 0) (sym (append-nil (escape_bytes s)))
    ∙ unescape_loop-escape_bytes s [] (suc (n - length s)) (suc n) (n + 1) 0 t
        (omega (arith, length-le-escape_bytes s)) (omega arith)
    ∙ ap some (append-nil s)
