-- ===== src/Strings.antt =====
-- src/library/string-util.c: trimming of a string in place, and the search for a character. The
-- locale is C.
pub mod Trim
mod Tests
use rhel_fapolicyd.Base.{
  ℕ, zero, suc, ◌+◌, ◌-◌, Bool, true, false, ◌&&◌, ◌||◌, Option, none, some, List, [], ◌∷◌, ◌++◌,
  ltb, leb, ◌==◌, if◌then◌else◌, length, get_or, take, Bytes,
}

-- Space, and the characters from the tabulator to the carriage return.
abbrev pub isspace : ℕ → Bool
isspace c = c == 32 || (leb 9 c && leb c 13)

-- `while (*start && isspace(*start)) start++`
unfoldable pub skip_spaces : Bytes → Bytes
skip_spaces [] = []
skip_spaces (c ∷ cs) = let rest = skip_spaces cs in if isspace c then rest else c ∷ cs

-- The loop from the end: `end` is the last of the first `n` characters.
unfoldable pub trim_end : ℕ → Bytes → Bytes
trim_end zero s = []
trim_end (suc n) s =
    let rest = trim_end n s in if isspace (get_or s n 0) then rest else take (suc n) s

unfoldable pub fapolicyd_strtrim : Option Bytes → Option Bytes
unfolding skip_spaces trim_end
fapolicyd_strtrim none = none
fapolicyd_strtrim (some s) = let start = skip_spaces s in some (trim_end (length start) start)
