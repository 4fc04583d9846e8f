-- ===== src/Base/Text.antt =====
-- C strings as lists of bytes, without the final NUL.
use Prim.Native.Char.{code}
use Prim.Native.Nat.{ℕ, zero, suc}
use Prim.Native.String.{String}
use mathlib.Core.Path.{◌≡◌}
use mathlib.Core.Logic.{◌↔◌}
use mathlib.Core.Bool.{Bool, true, false, ◌&&◌, ◌||◌}
use mathlib.Core.List.{List, [], ◌∷◌, ◌++◌}
use native.Mathlib.Omega.{arith}
use rhel_fapolicyd.Base.Tests.{◌==◌}

abbrev pub Bytes : Type 0
Bytes = List ℕ

-- The bytes of an ASCII literal.
abbrev pub codes : String → Bytes
codes String.[] = []
codes (String.◌∷◌ c s) = code c ∷ codes s

-- `strcmp(a, b) == 0`
unfoldable pub streq : Bytes → Bytes → Bool
streq [] [] = true
streq (x ∷ xs) (y ∷ ys) = x == y && streq xs ys
streq _ _ = false

-- `strncmp(a, b, n) == 0`
unfoldable pub strneq : Bytes → Bytes → ℕ → Bool
strneq a b zero = true
strneq [] [] (suc n) = true
strneq (x ∷ xs) (y ∷ ys) (suc n) = x == y && strneq xs ys n
strneq _ _ (suc n) = false

pub streq_iff : (a b : Bytes) → (streq a b ≡ true) ↔ (a ≡ b)
unfolding streq
streq_iff (x ∷ a) (y ∷ b) = ground (arith, streq_iff a b)
streq_iff _ _ = ground arith

-- Whether a newline is among the bytes.
abbrev pub has_newline : Bytes → Bool
has_newline [] = false
has_newline (c ∷ s) = c == 10 || has_newline s

pub has_newline-append :
    (xs ys : Bytes)
    → has_newline xs ≡ false
    → has_newline ys ≡ false
    → has_newline (xs ++ ys) ≡ false
has_newline-append [] ys h k = k
has_newline-append (x ∷ xs) ys h k = ground (arith, has_newline-append xs ys)
