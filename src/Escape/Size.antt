-- ===== src/Escape/Size.antt =====
-- The size that `check_escape_shell` announces, against what `escape_shell` writes.
use native.Mathlib.Decide.{dec_lt}
use rhel_fapolicyd.Base.{
  ◌⊎◌, inl, inr, ℕ, ◌+◌, ◌*◌, ◌≤◌, ◌<◌, ◌≡◌, refl, false, if◌then◌else◌, [], ◌∷◌, ap, arith, ltb,
  leb, length, length-append, Bytes,
}
use rhel_fapolicyd.Escape.{
  strchr, sh_set, counted_size, check_loop, check_escape_shell, escape_byte, escape_bytes,
}

-- How many bytes of the string are 128 or more.
unfoldable pub high_bytes : Bytes → ℕ
high_bytes [] = 0
high_bytes (c ∷ cs) = (if leb 128 c then 1 else 0) + high_bytes cs

-- 1 for a byte that is written in quoted form.
unfoldable pub quoted_byte : ℕ → ℕ
quoted_byte c = if ltb c 32 then 1 else if strchr sh_set c then 1 else 0

-- How many of its bytes are quoted.
unfoldable pub quoted_bytes : Bytes → ℕ
quoted_bytes [] = 0
quoted_bytes (c ∷ cs) = quoted_byte c + quoted_bytes cs

strchr-high : (c : ℕ) → 128 ≤ c → strchr sh_set c ≡ false
unfolding strchr
strchr-high c h = ground arith

counted_size_lem :
    (c : ℕ) → counted_size c ≡ length (escape_byte c) + 3 * (if leb 128 c then 1 else 0)
unfolding counted_size escape_byte
counted_size_lem c = ground (arith, strchr-high c)

check_loop_lem :
    (s : Bytes) (size cnt : ℕ)
    → ((check_loop s size cnt).0 ≡ size + length s)
      × ((check_loop s size cnt).1 ≡ cnt + (length (escape_bytes s) + 3 * high_bytes s))
unfolding check_loop escape_bytes high_bytes
check_loop_lem [] size cnt = omega arith
check_loop_lem (c ∷ cs) size cnt = omega (
  arith,
  check_loop_lem cs (size + 1) (cnt + counted_size c),
  counted_size_lem c,
  length-append (escape_byte c) (escape_bytes cs),
)

length-escape_byte : (c : ℕ) → 1 + quoted_byte c ≤ length (escape_byte c)
unfolding escape_byte quoted_byte
length-escape_byte c = ground arith

length-escape_bytes : (s : Bytes) → length s + quoted_bytes s ≤ length (escape_bytes s)
unfolding escape_bytes quoted_bytes
length-escape_bytes [] = omega arith
length-escape_bytes (c ∷ cs) = omega (
  arith,
  length-escape_bytes cs,
  length-escape_byte c,
  length-append (escape_byte c) (escape_bytes cs),
)

escape_byte_plain : (c : ℕ) → quoted_byte c ≡ 0 → escape_byte c ≡ c ∷ []
unfolding escape_byte quoted_byte
escape_byte_plain c h = ground arith

escape_bytes_plain : (s : Bytes) → quoted_bytes s ≡ 0 → escape_bytes s ≡ s
unfolding escape_bytes quoted_bytes
escape_bytes_plain [] h = refl
escape_bytes_plain (c ∷ cs) h =
    rw (escape_byte_plain c (omega arith), escape_bytes_plain cs (omega arith))

-- The size that `check_escape_shell` announces is the length of the escaped string and three more
-- for each byte from 128 on; it is 0 exactly if no byte is quoted and none is 128 or more.
pub check_escape_shell-escape_bytes :
    (s : Bytes)
    → ((quoted_bytes s + high_bytes s ≡ 0) × (check_escape_shell s ≡ 0) × (escape_bytes s ≡ s))
      ⊎ ((0 < quoted_bytes s + high_bytes s)
          × (check_escape_shell s ≡ length (escape_bytes s) + 3 * high_bytes s)
          × (length s < check_escape_shell s))
unfolding check_escape_shell
check_escape_shell-escape_bytes s =
    let loop = check_loop_lem s 0 0 in
    let longer = length-escape_bytes s in
    elim (dec_lt 0 (quoted_bytes s + high_bytes s)) [
      | yes h ↦ inr (h, ground arith, ground arith)
      | no h ↦
          let same = escape_bytes_plain s (omega arith) in
          inl (omega arith, ground (arith, ap length same), same)
    ]
