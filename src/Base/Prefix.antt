-- ===== src/Base/Prefix.antt =====
-- Prefixes of C strings: `strncmp` with a string's own length.
use Prim.Native.Nat.{ℕ, zero, suc}
use mathlib.Core.Path.{◌≡◌, refl}
use mathlib.Core.Bool.{true}
use mathlib.Core.List.{[], ◌∷◌, ◌++◌}
use native.Mathlib.Omega.{arith}
use rhel_fapolicyd.Base.Lists.{length}
use rhel_fapolicyd.Base.Tests.{◌==◌}
use rhel_fapolicyd.Base.Text.{Bytes, strneq}

-- `p` is a prefix of `s`.
abbrev pub IsPrefix : Bytes → Bytes → Type 0
IsPrefix p s = (rest : Bytes) × (s ≡ p ++ rest)

pub strneq→IsPrefix : (s p : Bytes) → strneq s p (length p) ≡ true → IsPrefix p s
unfolding strneq
strneq→IsPrefix s [] h = (s, refl)
strneq→IsPrefix [] (y ∷ p) h = cc
strneq→IsPrefix (x ∷ s) (y ∷ p) h =
    let same : x ≡ y = ground arith in
    let (rest, e) = strneq→IsPrefix s p (ground arith) in (rest, λ i. same i ∷ e i)

strneq-append : (p rest : Bytes) → strneq (p ++ rest) p (length p) ≡ true
unfolding strneq
strneq-append [] rest = refl
strneq-append (y ∷ p) rest = ground (arith, strneq-append p rest)

pub IsPrefix→strneq : (s p : Bytes) → IsPrefix p s → strneq s p (length p) ≡ true
IsPrefix→strneq s p (rest, e) = rw e (strneq-append p rest)

==_comm : (a b : ℕ) → (a == b) ≡ (b == a)
==_comm a b = ground arith

pub strneq_comm : (a b : Bytes) (n : ℕ) → strneq a b n ≡ strneq b a n
unfolding strneq
strneq_comm a b zero = refl
strneq_comm [] [] (suc n) = refl
strneq_comm [] (y ∷ b) (suc n) = refl
strneq_comm (x ∷ a) [] (suc n) = refl
strneq_comm (x ∷ a) (y ∷ b) (suc n) = rw (==_comm x y, strneq_comm a b n) refl
