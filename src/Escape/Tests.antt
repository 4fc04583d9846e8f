-- ===== src/Escape/Tests.antt =====
-- The quoting functions on the inputs of tests/escape_test.c, and instances of their properties.
use rhel_fapolicyd.Base.{
  ◌+◌, ◌≡◌, refl, not, true, none, some, [], ◌∷◌, arith, ltb, if◌then◌else◌, length, Bytes, codes,
  ◌==◌,
}
use rhel_fapolicyd.Escape.{
  strchr, check_loop, counted_size, check_escape_shell, escape_byte, escape_bytes, escape_shell,
  unescape_loop, unescape_shell, percent_length, percent_bytes, unescape,
}
use rhel_fapolicyd.Escape.Bounds.{Writes, unescape_shell-Writes}
use rhel_fapolicyd.Escape.Percent.{percent_encode, unescape-percent_encode}
use rhel_fapolicyd.Escape.RoundTrip.{unescape_shell-escape_bytes}

program : Unit {0}
unfolding strchr check_loop counted_size check_escape_shell escape_byte escape_bytes escape_shell
    unescape_loop unescape_shell percent_length percent_bytes unescape
program = tt

sizes :
    (check_escape_shell (codes "plain") ≡ 0)
    × (check_escape_shell (codes "a b") ≡ 4)
    × (check_escape_shell (codes "a\nb") ≡ 6)
unfolding program
sizes = (refl, refl, refl)

-- A byte from 128 on is counted as four, and is written as one.
high_size :
    (check_escape_shell (195 ∷ 169 ∷ []) ≡ 8) × (escape_bytes (195 ∷ 169 ∷ []) ≡ 195 ∷ 169 ∷ [])
unfolding program
high_size = (refl, refl)

escapes :
    (escape_shell none 0 true ≡ none)
    × (escape_shell (some (codes "abc")) 8192 true ≡ none)
    × (escape_shell (some (codes "a b")) 4 true ≡ some (codes "a\\ b"))
unfolding program
escapes = (refl, refl, refl)

unescapes :
    (unescape_shell (codes "\\040\\$") 7 ≡ some (codes " $"))
    × (unescape_shell (codes "abc\\") 5 ≡ some (codes "abc\\"))
    × (unescape_shell (codes "abc\\0") 5 ≡ some (codes "abc\\0"))
unfolding program
unescapes = (refl, refl, refl)

percents :
    (unescape (codes "%41%42") true ≡ some (codes "AB"))
    × (unescape (codes "%4") true ≡ some (codes "%4"))
    × (unescape (codes "%GG") true ≡ some (codes "%GG"))
unfolding program
percents = (refl, refl, refl)

-- The quoted form of `a ` is given back with the size that counts the NUL, and stays as it is with the
-- length that the readers of mounts pass.
trailing_blank :
    (unescape_shell (codes "a\\ ") 4 ≡ some (codes "a "))
    × (unescape_shell (codes "a\\ ") 3 ≡ some (codes "a\\ "))
unfolding program
trailing_blank = (refl, refl)

abbrev name : Bytes
name = codes "a b\t\\"

unescape_shell-escape_bytes_example :
    unescape_shell (escape_bytes name) (length (escape_bytes name) + 1) ≡ some name
unescape_shell-escape_bytes_example = unescape_shell-escape_bytes name (omega arith)

unescape_shell-Writes_example : Writes (length name) (unescape_shell name 5)
unescape_shell-Writes_example = unescape_shell-Writes name 5 (omega arith) (omega arith)

unescape-percent_encode_example :
    unescape (percent_encode (λ c. not (c == b'%')) (codes "5% x")) true
    ≡ (if ltb 4096 (length (codes "5% x")) then none else some (codes "5% x"))
unescape-percent_encode_example =
    unescape-percent_encode (λ c. not (c == b'%')) (codes "5% x") refl (omega arith)
