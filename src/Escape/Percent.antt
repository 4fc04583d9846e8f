-- ===== src/Escape/Percent.antt =====
-- `unescape` counts exactly the bytes that it writes.
use rhel_fapolicyd.Base.{
  ℕ, ◌+◌, ◌*◌, ◌%◌, ◌<◌, ◌≡◌, refl, inl, inr, ◌/◌, Bool, true, false, none, some, [], ◌∷◌, ◌==◌, ap,
  arith, ltb, if◌then◌else◌, Bool-cases, length, Bytes,
}
use rhel_fapolicyd.Escape.{percent_length, percent_bytes, unescape, is_hex, ascii_hex_to_bits}

length-percent_bytes : (s : Bytes) → length (percent_bytes s) ≡ percent_length s
unfolding percent_bytes percent_length
length-percent_bytes [] = refl
length-percent_bytes (c ∷ []) = refl
length-percent_bytes (c ∷ a ∷ []) = refl
length-percent_bytes (c ∷ a ∷ b ∷ s) =
    ground (arith, length-percent_bytes s, length-percent_bytes (a ∷ b ∷ s))

-- The upper-case hexadecimal digit of a number below 16.
unfoldable pub hex_digit : ℕ → ℕ
hex_digit n = if ltb n 10 then 48 + n else 55 + n

-- The encoding that `unescape` is for: % and two upper-case digits for every byte that is not plain.
unfoldable pub percent_encode : (ℕ → Bool) → Bytes → Bytes
percent_encode plain [] = []
percent_encode plain (c ∷ cs) =
    if plain c
    then c ∷ percent_encode plain cs
    else b'%' ∷ hex_digit (c / 16) ∷ hex_digit (c % 16) ∷ percent_encode plain cs

abbrev pub AllBytes : Bytes → Type 0
AllBytes [] = Unit
AllBytes (c ∷ cs) = (c < 256) × AllBytes cs

percent_bytes_plain :
    (c : ℕ) (s : Bytes) → (c == b'%') ≡ false → percent_bytes (c ∷ s) ≡ c ∷ percent_bytes s
unfolding percent_bytes
percent_bytes_plain c [] h = refl
percent_bytes_plain c (a ∷ []) h = refl
percent_bytes_plain c (a ∷ b ∷ s) h = rw h

is_hex-hex_digit : (n : ℕ) → n < 16 → is_hex (hex_digit n) ≡ true
unfolding hex_digit
is_hex-hex_digit n h = ground arith

ascii_hex_to_bits-hex_digit : (n : ℕ) → n < 16 → ascii_hex_to_bits (hex_digit n) ≡ n
unfolding hex_digit
ascii_hex_to_bits-hex_digit n h = ground arith

percent_bytes_coded :
    (c : ℕ) (s : Bytes)
    → c < 256
    → percent_bytes (b'%' ∷ hex_digit (c / 16) ∷ hex_digit (c % 16) ∷ s) ≡ c ∷ percent_bytes s
unfolding percent_bytes
percent_bytes_coded c s h =
    let value : (c / 16 * 16 + c % 16) % 256 ≡ c = omega arith in
    rw (
      is_hex-hex_digit (c / 16) (omega arith),
      is_hex-hex_digit (c % 16) (omega arith),
      ascii_hex_to_bits-hex_digit (c / 16) (omega arith),
      ascii_hex_to_bits-hex_digit (c % 16) (omega arith),
      value,
    )

percent_ne : (plain : ℕ → Bool) (c : ℕ) → plain b'%' ≡ false → plain c ≡ true → (c == b'%') ≡ false
percent_ne plain c p h = elim (Bool-cases (c == b'%')) [
  | inl same ↦ let e : c ≡ b'%' = ground arith in cc (rw e at h)
  | inr other ↦ other
]

percent_bytes-percent_encode :
    (plain : ℕ → Bool) (s : Bytes)
    → plain b'%' ≡ false
    → AllBytes s
    → percent_bytes (percent_encode plain s) ≡ s
unfolding percent_encode
percent_bytes-percent_encode plain [] p t = unfold percent_bytes in refl
percent_bytes-percent_encode plain (c ∷ cs) p (small, t) =
    let later = percent_bytes-percent_encode plain cs p t in
    elim (Bool-cases (plain c)) [
      | inl yes_plain ↦
          rw
            (
              yes_plain,
              percent_bytes_plain c (percent_encode plain cs) (percent_ne plain c p yes_plain),
            )
            (ap (◌∷◌ c) later)
      | inr coded ↦
          rw (coded, percent_bytes_coded c (percent_encode plain cs) small) (ap (◌∷◌ c) later)
    ]

-- `unescape` reads back what percent-encoding wrote, whichever bytes but % the encoder leaves as
-- they are, when the text has at most 4096 bytes and memory is given; a longer text is refused.
pub unescape-percent_encode :
    (plain : ℕ → Bool) (s : Bytes)
    → plain b'%' ≡ false
    → AllBytes s
    → unescape (percent_encode plain s) true ≡ (if ltb 4096 (length s) then none else some s)
unfolding unescape
unescape-percent_encode plain s p t =
    let back = percent_bytes-percent_encode plain s p t in
    rw (← (length-percent_bytes (percent_encode plain s)), back)
