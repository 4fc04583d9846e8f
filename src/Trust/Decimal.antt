-- ===== src/Trust/Decimal.antt =====
-- Numbers in trust files: "%u" and "%zu" as decimals of at most twenty digits, and `strtol` with its
-- result in an `unsigned long`.
use rhel_fapolicyd.Base.{
  ℕ, zero, suc, ◌+◌, ◌-◌, ◌*◌, ◌/◌, ◌%◌, ◌^◌, ◌≤◌, ◌<◌, ◌≡◌, ap, ◌∙◌, true, [], ◌∷◌, ltb, ◌==◌,
  if◌then◌else◌, length, Bytes, arith, inl, inr, Bool-cases, lt→ltb,
}
use rhel_fapolicyd.Config.{isdigit, digits_from}
use rhel_fapolicyd.Strings.{skip_spaces}

-- The digits of `n` before `s`, at most `fuel` of them.
unfoldable pub put_digits : ℕ → ℕ → Bytes → Bytes
put_digits zero n s = s
put_digits (suc fuel) n s =
    let here = (48 + n % 10) ∷ s in
    let more = put_digits fuel (n / 10) here in if ltb n 10 then here else more

unfoldable pub decimal : ℕ → Bytes
unfolding put_digits
decimal n = put_digits 20 n []

abbrev pub long_max : ℕ
long_max = 2 ^ 63 - 1

-- `strtol` clamps to the range of `long`; a negative number wraps in the `unsigned long`.
abbrev strtol_signed : Bytes → ℕ
strtol_signed [] = 0
strtol_signed (c ∷ s) =
    let up = digits_from 0 s in
    let plain = digits_from 0 (c ∷ s) in
    if c == b'-'
    then (2 ^ 64 - (if ltb (2 ^ 63) up then 2 ^ 63 else up)) % 2 ^ 64
    else if c == b'+'
    then (if ltb long_max up then long_max else up)
    else if ltb long_max plain
    then long_max
    else plain

unfoldable pub strtol : Bytes → ℕ
unfolding skip_spaces
strtol s = strtol_signed (skip_spaces s)

put_digits-length : (fuel n : ℕ) (s : Bytes) → length (put_digits fuel n s) ≤ fuel + length s
unfolding put_digits
put_digits-length zero n s = omega arith
put_digits-length (suc fuel) n s =
    ground (arith, put_digits-length fuel (n / 10) ((48 + n % 10) ∷ s))

pub length-decimal : (n : ℕ) → length (decimal n) ≤ 20
unfolding decimal
length-decimal n = omega (arith, put_digits-length 20 n [])

abbrev pub AllDigits : Bytes → Type 0
AllDigits [] = Unit
AllDigits (c ∷ s) = (48 ≤ c) × (c ≤ 57) × AllDigits s

put_digits-AllDigits : (fuel n : ℕ) (s : Bytes) → AllDigits s → AllDigits (put_digits fuel n s)
unfolding put_digits
put_digits-AllDigits zero n s h = h
put_digits-AllDigits (suc fuel) n s h =
    let here : AllDigits ((48 + n % 10) ∷ s) = (omega arith, omega arith, h) in
    elim (Bool-cases (ltb n 10)) [
      | inl small ↦ rw small here
      | inr large ↦ rw large (put_digits-AllDigits fuel (n / 10) _ here)
    ]

pub decimal-AllDigits : (n : ℕ) → AllDigits (decimal n)
unfolding decimal
decimal-AllDigits n = put_digits-AllDigits 20 n [] tt

put_digits-grows : (fuel n : ℕ) (s : Bytes) → length s ≤ length (put_digits fuel n s)
unfolding put_digits
put_digits-grows zero n s = omega arith
put_digits-grows (suc fuel) n s = ground (arith, put_digits-grows fuel (n / 10) ((48 + n % 10) ∷ s))

pub decimal_some : (n : ℕ) → 0 < length (decimal n)
unfolding decimal put_digits
decimal_some n = ground (arith, put_digits-grows 19 (n / 10) ((48 + n % 10) ∷ []))

digits_from-digit :
    (n m : ℕ) (s : Bytes) → digits_from m ((48 + n % 10) ∷ s) ≡ digits_from (10 * m + n % 10) s
digits_from-digit n m s =
    let digit : isdigit (48 + n % 10) ≡ true = ground arith in
    rw digit (ap (λ k. digits_from k s) {x = 10 * m + (48 + n % 10 - 48)} (omega arith))

pub tenth_below : (fuel n : ℕ) → n < 10 ^ suc fuel → n / 10 < 10 ^ fuel
tenth_below fuel n h = omega arith

digits_from-put_digits :
    (fuel n : ℕ) (s : Bytes)
    → n < 10 ^ suc fuel
    → digits_from 0 (put_digits (suc fuel) n s) ≡ digits_from n s
unfolding put_digits
digits_from-put_digits zero n s h =
    let small : ltb n 10 ≡ true = lt→ltb n 10 h in
    rw small
      (digits_from-digit n 0 s ∙ ap (λ k. digits_from k s) {x = 10 * 0 + n % 10} (omega arith))
digits_from-put_digits (suc fuel) n s h = elim (Bool-cases (ltb n 10)) [
  | inl small ↦
      rw small
        (digits_from-digit n 0 s ∙ ap (λ k. digits_from k s) {x = 10 * 0 + n % 10} (ground arith))
  | inr large ↦ rw large (
      digits_from-put_digits fuel (n / 10) _ (tenth_below (suc fuel) n h)
      ∙ digits_from-digit n (n / 10) s
      ∙ ap (λ k. digits_from k s) {x = 10 * (n / 10) + n % 10} (omega arith))
]

strtol-digits :
    (c : ℕ) (s : Bytes)
    → AllDigits (c ∷ s)
    → digits_from 0 (c ∷ s) ≤ long_max
    → strtol (c ∷ s) ≡ digits_from 0 (c ∷ s)
unfolding strtol skip_spaces
strtol-digits c s d h = ground arith

strtol-AllDigits :
    (s : Bytes)
    → 0 < length s
    → AllDigits s
    → digits_from 0 s ≤ long_max
    → strtol s ≡ digits_from 0 s
strtol-AllDigits [] n d h = absurd (omega arith)
strtol-AllDigits (c ∷ s) n d h = strtol-digits c s d h

-- A size below 2 ^ 63 is read back from its decimal.
pub strtol-decimal : (n : ℕ) → n ≤ long_max → strtol (decimal n) ≡ n
unfolding decimal
strtol-decimal n h =
    let value : digits_from 0 (decimal n) ≡ n = digits_from-put_digits 19 n [] (omega arith) in
    strtol-AllDigits (decimal n) (decimal_some n) (decimal-AllDigits n) (omega arith) ∙ value
