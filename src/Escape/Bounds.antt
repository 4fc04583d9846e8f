-- ===== src/Escape/Bounds.antt =====
-- `unescape_shell` stays inside its buffer.
use mathlib.Core.Option
use rhel_fapolicyd.Base.{
  ℕ, zero, suc, ◌+◌, ◌≤◌, ◌<◌, ◌≡◌, refl, inl, inr, true, false, ◌&&◌, Option, some, [], ◌∷◌, ◌==◌,
  ap, arith, ltb, Bool-cases, length, get_or, drop, Bytes, length-drop,
}
use rhel_fapolicyd.Escape.{isoctal, unescape_loop, unescape_shell}
use rhel_fapolicyd.Escape.RoundTrip.{IsText}

-- The call returned, and wrote at most `n` bytes before the NUL.
abbrev pub Writes : ℕ → Option Bytes → Type 0
Writes n o = (r : Bytes) × (o ≡ some r) × (length r ≤ n)

IsText-drop : (k : ℕ) (s : Bytes) → IsText s → IsText (drop k s)
IsText-drop zero s t = t
IsText-drop (suc k) [] t = t
IsText-drop (suc k) (c ∷ s) t = IsText-drop k s t.2

Writes-map : (c n m : ℕ) (o : Option Bytes) → Writes n o → n < m → Writes m (Option.map (◌∷◌ c) o)
Writes-map c n m o (r, e, h) k = (c ∷ r, ap (Option.map (◌∷◌ c)) e, omega arith)

isoctal-get_or : (s : Bytes) (i : ℕ) → isoctal (get_or s i 0) ≡ true → i < length s
isoctal-get_or [] i h = cc
isoctal-get_or (c ∷ s) zero h = omega arith
isoctal-get_or (c ∷ s) (suc i) h = omega (arith, isoctal-get_or s i h)

text-head : (s : Bytes) → IsText s → 0 < length s → (get_or s 0 0 == 0) ≡ false
text-head [] t h = absurd (omega arith)
text-head (c ∷ s) t h = ground arith

unescape_loop-Writes :
    (fuel len sz : ℕ) (s : Bytes)
    → IsText s
    → length s < fuel
    → len ≤ sz + length s + 1
    → Writes (length s) (unescape_loop fuel len sz s)
unfolding unescape_loop
unescape_loop-Writes zero len sz s t h k = absurd (omega arith)
unescape_loop-Writes (suc fuel) len sz [] t h k = ([], refl, omega arith)
unescape_loop-Writes (suc fuel) len sz (c ∷ s) (pos, small, t) h k =
    elim (Bool-cases (
      c == b'\\'
      && (ltb (sz + 3) len
          && (isoctal (get_or s 0 0) && (isoctal (get_or s 1 0) && isoctal (get_or s 2 0)))))) [
            | inl octal ↦
                let long : 2 < length s = isoctal-get_or s 2 (ground arith) in
                let rest = length-drop 3 s in
                rw octal (
                  Writes-map _ (length (drop 3 s)) _ _
                    (unescape_loop-Writes fuel len (sz + 4) (drop 3 s) (IsText-drop 3 s t)
                      (omega arith) (omega arith))
                    (omega arith))
            | inr other ↦ elim (Bool-cases (c == b'\\' && ltb (sz + 2) len)) [
              | inl quoted ↦
                  let more : 0 < length s = ground arith in
                  let rest = length-drop 1 s in
                  rw (other, quoted, text-head s t more)
                    (Writes-map _ (length (drop 1 s)) _ _
                      (unescape_loop-Writes fuel len (sz + 2) (drop 1 s) (IsText-drop 1 s t)
                        (omega arith) (omega arith))
                      (omega arith))
              | inr plain ↦
                  rw (other, plain)
                    (Writes-map _ (length s) _ _
                      (unescape_loop-Writes fuel len (sz + 1) s t (omega arith) (omega arith))
                      (omega arith))
            ]
          ]

-- On any C string and any length up to the size of its buffer, `unescape_shell` returns: it never
-- steps over the NUL, and what it writes is no longer than what it read.
pub unescape_shell-Writes :
    (s : Bytes) (len : ℕ) → IsText s → len ≤ length s + 1 → Writes (length s) (unescape_shell s len)
unfolding unescape_shell
unescape_shell-Writes s len t k =
    unescape_loop-Writes (suc (length s)) len 0 s t (omega arith) (omega arith)
