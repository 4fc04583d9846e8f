-- ===== src/Escape.antt =====
-- src/library/escape.c: quoting of paths for the log (`escape_shell`), its inverse
-- `unescape_shell`, and the older %-encoding of trust files (`unescape`).
-- A string is its bytes up to the NUL. `char` is signed, as on x86-64: a byte from 128 on is
-- negative where the source does not cast it.
pub mod Size
pub mod RoundTrip
pub mod Bounds
pub mod Percent
mod Tests
use mathlib.Core.Option
use rhel_fapolicyd.Base.{
  ℕ, zero, suc, ◌+◌, ◌-◌, ◌*◌, ◌/◌, ◌%◌, Bool, true, false, not, ◌&&◌, ◌||◌, Option, none, some,
  List, [], ◌∷◌, ◌++◌, ltb, leb, ◌==◌, if◌then◌else◌, length, get_or, drop, Bytes, codes,
}

abbrev pub sh_set : Bytes
sh_set = codes "\"'`$\\!()| "

-- `strchr(set, c) != NULL`, for a `c` that is not NUL
unfoldable pub strchr : Bytes → ℕ → Bool
strchr [] c = false
strchr (x ∷ xs) c = c == x || strchr xs c

-- `*p < 32` with `*p` a signed char
abbrev pub is_control_signed : ℕ → Bool
is_control_signed c = ltb c 32 || leb 128 c

-- What `check_escape_shell` adds to `cnt` for one byte.
unfoldable pub counted_size : ℕ → ℕ
counted_size c = if is_control_signed c then 4 else if strchr sh_set c then 2 else 1

-- The loop of `check_escape_shell`: its `size` and `cnt`.
unfoldable pub check_loop : Bytes → ℕ → ℕ → ℕ × ℕ
check_loop [] size cnt = (size, cnt)
check_loop (c ∷ cs) size cnt = check_loop cs (size + 1) (cnt + counted_size c)

unfoldable pub check_escape_shell : Bytes → ℕ
check_escape_shell input = let (size, cnt) = check_loop input 0 0 in if cnt == size then 0 else cnt

-- The bytes written for one byte; here the source does cast to `unsigned char`.
unfoldable pub escape_byte : ℕ → Bytes
escape_byte c =
    if ltb c 32
    then b'\\' ∷ (48 + c / 64 % 4) ∷ (48 + c / 8 % 8) ∷ (48 + c % 8) ∷ []
    else if strchr sh_set c
    then b'\\' ∷ c ∷ []
    else c ∷ []

unfoldable pub escape_bytes : Bytes → Bytes
escape_bytes [] = []
escape_bytes (c ∷ cs) = escape_byte c ++ escape_bytes cs

abbrev pub max_size : ℕ
max_size = 8192

-- `none` for NULL. The buffer has `expected_size + 1` bytes.
unfoldable pub escape_shell : Option Bytes → ℕ → Bool → Option Bytes
escape_shell none expected_size malloc_ok = none
escape_shell (some input) expected_size malloc_ok =
    if leb max_size expected_size
    then none
    else if not malloc_ok
    then none
    else some (escape_bytes input)

-- `((a) & ~7) == '0'`
abbrev pub isoctal : ℕ → Bool
isoctal a = leb 48 a && leb a 55

-- The loop of `unescape_shell` at the bytes `s` still to be read, `sz` bytes in. A read at or
-- behind the end of the list is the NUL. `none`: the loop steps over the NUL, or the fuel is out.
-- The bytes written never pass the bytes read, so the buffer's reuse is not seen.
unfoldable pub unescape_loop : ℕ → ℕ → ℕ → Bytes → Option Bytes
unescape_loop zero len sz s = none
unescape_loop (suc fuel) len sz [] = some []
unescape_loop (suc fuel) len sz (c ∷ s) =
    let a = get_or s 0 0 in
    let b = get_or s 1 0 in
    let d = get_or s 2 0 in
    let octal =
      Option.map (◌∷◌ ((64 * (a % 8) + 8 * (b % 8) + d % 8) % 256))
        (unescape_loop fuel len (sz + 4) (drop 3 s)) in
    let quoted =
      if a == 0 then none else Option.map (◌∷◌ a) (unescape_loop fuel len (sz + 2) (drop 1 s)) in
    let plain = Option.map (◌∷◌ c) (unescape_loop fuel len (sz + 1) s) in
    if c == b'\\' && (ltb (sz + 3) len && (isoctal a && (isoctal b && isoctal d)))
    then octal
    else if c == b'\\' && ltb (sz + 2) len
    then quoted
    else plain

-- The fuel is one more than the bytes.
unfoldable pub unescape_shell : Bytes → ℕ → Option Bytes
unfolding unescape_loop
unescape_shell s len = unescape_loop (suc (length s)) len 0 s

-- `IS_HEX`: a hexadecimal digit that is no lower-case letter
abbrev pub is_hex : ℕ → Bool
is_hex x = leb b'0' x && leb x b'9' || leb b'A' x && leb x b'F'

abbrev pub ascii_hex_to_bits : ℕ → ℕ
ascii_hex_to_bits x =
    if leb b'0' x && leb x b'9'
    then x - b'0'
    else if leb b'A' x && leb x b'F'
    then x - (b'A' - 10)
    else x

-- The first loop of `unescape`, which counts.
unfoldable pub percent_length : Bytes → ℕ
percent_length [] = 0
percent_length (c ∷ []) = 1
percent_length (c ∷ a ∷ []) = 2
percent_length (c ∷ a ∷ b ∷ s) =
    let coded = suc (percent_length s) in
    let plain = suc (percent_length (a ∷ b ∷ s)) in
    if c == b'%' && (is_hex a && is_hex b) then coded else plain

-- The second loop, which writes.
unfoldable pub percent_bytes : Bytes → Bytes
percent_bytes [] = []
percent_bytes (c ∷ []) = c ∷ []
percent_bytes (c ∷ a ∷ []) = c ∷ a ∷ []
percent_bytes (c ∷ a ∷ b ∷ s) =
    let coded = ((ascii_hex_to_bits a * 16 + ascii_hex_to_bits b) % 256) ∷ percent_bytes s in
    let plain = c ∷ percent_bytes (a ∷ b ∷ s) in
    if c == b'%' && (is_hex a && is_hex b) then coded else plain

-- `none` for NULL: more than 4096 bytes, or no memory.
unfoldable pub unescape : Bytes → Bool → Option Bytes
unfolding percent_length percent_bytes
unescape input malloc_ok =
    if ltb 4096 (percent_length input)
    then none
    else if not malloc_ok
    then none
    else some (percent_bytes input)
