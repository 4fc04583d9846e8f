-- ===== src/Strings/Trim.antt =====
-- What `fapolicyd_strtrim` leaves of a string.
use rhel_fapolicyd.Base.{
  ℕ, zero, suc, ◌-◌, ◌≤◌, ◌<◌, ◌≡◌, refl, sym, ap, ◌∙◌, inl, inr, Bool-cases, true, false, some, [],
  ◌∷◌, ◌++◌, length, get_or, take, drop, take-append-drop, Bytes, arith,
}
use rhel_fapolicyd.Strings.{isspace, skip_spaces, trim_end, fapolicyd_strtrim}

abbrev pub AllSpaces : Bytes → Type 0
AllSpaces [] = Unit
AllSpaces (c ∷ cs) = (isspace c ≡ true) × AllSpaces cs

-- Neither the first nor the last character is a space.
abbrev pub IsTrimmed : Bytes → Type 0
IsTrimmed s = (isspace (get_or s 0 0) ≡ false) × (isspace (get_or s (length s - 1) 0) ≡ false)

skip_spaces-split :
    (s : Bytes)
    → (before : Bytes) × AllSpaces before
      × (s ≡ before ++ skip_spaces s)
      × (isspace (get_or (skip_spaces s) 0 0) ≡ false)
unfolding skip_spaces
skip_spaces-split [] = ([], tt, refl, refl)
skip_spaces-split (c ∷ cs) = elim (Bool-cases (isspace c)) [
  | inl space ↦
      let (before, spaces, split, starts) = skip_spaces-split cs in
      rw space (c ∷ before, (space, spaces), ap (◌∷◌ c) split, starts)
  | inr other ↦ rw other ([], tt, refl, other)
]

AllSpaces-drop :
    (s : Bytes) (n : ℕ)
    → isspace (get_or s n 0) ≡ true
    → AllSpaces (drop (suc n) s)
    → AllSpaces (drop n s)
AllSpaces-drop [] zero h a = tt
AllSpaces-drop [] (suc n) h a = tt
AllSpaces-drop (c ∷ s) zero h a = (h, a)
AllSpaces-drop (c ∷ s) (suc n) h a = AllSpaces-drop s n h a

AllSpaces-drop-length : (s : Bytes) → AllSpaces (drop (length s) s)
AllSpaces-drop-length [] = tt
AllSpaces-drop-length (c ∷ s) = AllSpaces-drop-length s

last-cons :
    (c : ℕ) (t : Bytes)
    → 0 < length t
    → get_or (c ∷ t) (length (c ∷ t) - 1) 0 ≡ get_or t (length t - 1) 0
last-cons c [] h = absurd (omega arith)
last-cons c (d ∷ t) h =
    let outer : suc (suc (length t)) - 1 ≡ suc (length t) = omega arith in
    let inner : length t ≡ suc (length t) - 1 = omega arith in
    ap (λ k. get_or (c ∷ d ∷ t) k 0) outer ∙ ap (λ k. get_or (d ∷ t) k 0) inner

take_pos : (s : Bytes) (n : ℕ) → n < length s → 0 < length (take (suc n) s)
take_pos [] n h = absurd (omega arith)
take_pos (c ∷ s) n h = omega arith

-- The last of the first `n` characters of a string.
last-take :
    (s : Bytes) (n : ℕ)
    → n < length s
    → get_or (take (suc n) s) (length (take (suc n) s) - 1) 0 ≡ get_or s n 0
last-take [] n h = absurd (omega arith)
last-take (c ∷ s) zero h = refl
last-take (c ∷ s) (suc n) h =
    last-cons c (take (suc n) s) (take_pos s n (omega arith)) ∙ last-take s n (omega arith)

first-take :
    (s : Bytes) (n : ℕ) → isspace (get_or s 0 0) ≡ false → isspace (get_or (take n s) 0 0) ≡ false
first-take s zero h = refl
first-take [] (suc n) h = refl
first-take (c ∷ s) (suc n) h = h

-- What the loop from the end leaves.
abbrev pub Ended : Bytes → Bytes → Type 0
Ended s r = (after : Bytes) × AllSpaces after × (s ≡ r ++ after) × IsTrimmed r

trim_end-Ended :
    (s : Bytes) (n : ℕ)
    → isspace (get_or s 0 0) ≡ false
    → n ≤ length s
    → AllSpaces (drop n s)
    → Ended s (trim_end n s)
unfolding trim_end
trim_end-Ended s zero starts h spaces = (s, spaces, refl, (refl, refl))
trim_end-Ended s (suc n) starts h spaces = elim (Bool-cases (isspace (get_or s n 0))) [
  | inl space ↦ rw space (trim_end-Ended s n starts (omega arith) (AllSpaces-drop s n space spaces))
  | inr other ↦ rw other (
    drop (suc n) s,
    spaces,
    sym (take-append-drop (suc n) s),
    (first-take s (suc n) starts, ap isspace (last-take s n (omega arith)) ∙ other),
  )
]

-- `fapolicyd_strtrim` takes nothing but white space off the two ends of a string, and all of it: the
-- string is what is left between two runs of white space, and what is left neither begins nor ends
-- with white space.
pub fapolicyd_strtrim-IsTrimmed :
    (s : Bytes)
    → (before after r : Bytes) × (fapolicyd_strtrim (some s) ≡ some r)
      × (s ≡ before ++ (r ++ after))
      × AllSpaces before
      × AllSpaces after
      × IsTrimmed r
unfolding fapolicyd_strtrim
fapolicyd_strtrim-IsTrimmed s =
    let start = skip_spaces s in
    let (before, spaces, split, starts) = skip_spaces-split s in
    let (after, spaces', split', trimmed) =
      trim_end-Ended start (length start) starts (omega arith) (AllSpaces-drop-length start) in
    (
      before,
      after,
      trim_end (length start) start,
      refl,
      split ∙ ap (λ k. before ++ k) split',
      spaces,
      spaces',
      trimmed,
    )
