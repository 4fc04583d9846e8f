-- ===== src/Filter/Loader/Text.antt =====
-- The text of a trust filter's file: the lines of a tree, and the lines that `getline` gives of it.
use Prim.Native.Nat.{max}
use rhel_fapolicyd.Base.{
  ℕ, zero, suc, Option, none, some, ◌≡◌, ◌⊎◌, refl, ap, ◌∙◌, false, List, [], ◌∷◌, ◌++◌, ◌==◌,
  arith, replicate, Bytes, has_newline, has_newline-append,
}
use rhel_fapolicyd.Filter.{FilterType, add, sub, Filter, filter, Filters, no_filters, more}
use rhel_fapolicyd.Filter.Loader.{getlines}
use rhel_fapolicyd.Strings.{fapolicyd_strtrim}

abbrev pub sign : FilterType → ℕ
sign add = 43
sign _ = 45

abbrev pub piece : Option Bytes → Bytes
piece none = []
piece (some p) = p

-- The lines of a tree: a line is indented by its level less one, and the last of a list comes first,
-- since the loader puts new nodes in front.
unfoldable mutual
  pub lines_of : ℕ → Filter → List Bytes
  lines_of indent (filter type path fs) =
      ((replicate indent 32) ++ (sign type ∷ 32 ∷ piece path)) ∷ lines_of_all (suc indent) fs

  pub lines_of_all : ℕ → Filters → List Bytes
  lines_of_all indent no_filters = []
  lines_of_all indent (more f fs) = lines_of_all indent fs ++ lines_of indent f

-- Trees that a file can describe: each node adds or subtracts a path without white space at its ends
-- and without newlines.
unfoldable mutual
  pub Writable : Filter → Type 0
  Writable (filter type path fs) =
      ((type ≡ add) ⊎ (type ≡ sub))
      × (path ≡ some (piece path))
      × (fapolicyd_strtrim (some (piece path)) ≡ some (piece path))
      × (has_newline (piece path) ≡ false)
      × AllWritable fs

  pub AllWritable : Filters → Type 0
  AllWritable no_filters = Unit
  AllWritable (more f fs) = Writable f × AllWritable fs

unfoldable mutual
  pub height : Filter → ℕ
  height (filter type path fs) = suc (heights fs)

  pub heights : Filters → ℕ
  heights no_filters = 0
  heights (more f fs) = max (height f) (heights fs)

-- The text with these lines.
abbrev pub text_of : List Bytes → Bytes
text_of [] = []
text_of (l ∷ ls) = l ++ (10 ∷ text_of ls)

abbrev pub AllUnbroken : List Bytes → Type 0
AllUnbroken [] = Unit
AllUnbroken (l ∷ ls) = (has_newline l ≡ false) × AllUnbroken ls

AllUnbroken-append : (ls ms : List Bytes) → AllUnbroken ls → AllUnbroken ms → AllUnbroken (ls ++ ms)
AllUnbroken-append [] ms h k = k
AllUnbroken-append (l ∷ ls) ms (h, hs) k = (h, AllUnbroken-append ls ms hs k)

has_newline-replicate : (n : ℕ) → has_newline (replicate n 32) ≡ false
has_newline-replicate zero = refl
has_newline-replicate (suc n) = has_newline-replicate n

getlines-line : (l t : Bytes) → has_newline l ≡ false → getlines (l ++ (10 ∷ t)) ≡ l ∷ getlines t
unfolding getlines
getlines-line [] t h = refl
getlines-line (c ∷ l) t h =
    let here : (c == 10) ≡ false = ground arith in
    let later : has_newline l ≡ false = ground arith in rw (here, getlines-line l t later) refl

-- Lines without newlines are what `getline` gives of their text.
pub getlines-text_of : (ls : List Bytes) → AllUnbroken ls → getlines (text_of ls) ≡ ls
unfolding getlines
getlines-text_of [] h = refl
getlines-text_of (l ∷ ls) (h, hs) =
    getlines-line l (text_of ls) h ∙ ap (λ t. l ∷ t) (getlines-text_of ls hs)

sign-unbroken :
    (type : FilterType) (p : Bytes)
    → has_newline p ≡ false
    → has_newline (sign type ∷ 32 ∷ p) ≡ false
sign-unbroken add p h = h
sign-unbroken _ p h = h

mutual
  unfolding lines_of lines_of_all Writable AllWritable

  node-AllUnbroken : (f : Filter) (indent : ℕ) → Writable f → AllUnbroken (lines_of indent f)
  node-AllUnbroken (filter type path fs) indent (signed, has_path, trimmed, unbroken, ws) = (
    has_newline-append (replicate indent 32) (sign type ∷ 32 ∷ piece path)
        (has_newline-replicate indent) (sign-unbroken type (piece path) unbroken),
    all-AllUnbroken fs (suc indent) ws,
  )

  -- No line of a tree that a file can describe has a newline.
  pub all-AllUnbroken :
      (fs : Filters) (indent : ℕ) → AllWritable fs → AllUnbroken (lines_of_all indent fs)
  all-AllUnbroken no_filters indent w = tt
  all-AllUnbroken (more f fs) indent (w, ws) =
      AllUnbroken-append (lines_of_all indent fs) (lines_of indent f) (all-AllUnbroken fs indent ws)
        (node-AllUnbroken f indent w)
