-- ===== src/Filter/Loader.antt =====
-- `filter_load_file`, from the text of the file on. A node on the
-- loader's stack is held with the descendants that it has so far, and is put into its parent's list
-- when it is popped, where the code does so by pointer when it is pushed.
pub mod Frames
pub mod RoundTrip
pub mod Text
use rhel_fapolicyd.Base.{
  ℕ, zero, suc, ◌+◌, ◌-◌, Bool, true, false, Option, none, some, List, [], ◌∷◌, ltb, leb, ◌==◌,
  if◌then◌else◌, length, Bytes,
}
use rhel_fapolicyd.Filter.{
  FilterType, none_type, add, sub, comment, bad, Filter, filter, Filters, no_filters, more,
  max_filter_depth,
}
use rhel_fapolicyd.Strings.{fapolicyd_strtrim}

pub record Frame : Type 0 where
  pub level : ℕ
  pub type : FilterType
  pub path : Option Bytes
  pub list : Filters

-- What a line comes to: nothing, a filter, an error, or a read behind the line's end.
pub data Line : Type 0 where
  ignored refused overread : Line
  entry : ℕ → FilterType → Bytes → Line

-- The result of the load: the tree, the result 1, or an access that C does not define.
pub data Loaded : Type 0 where
  loaded : Filter → Loaded
  rejected undefined : Loaded

-- `strtrim(&line[i + 2])`, from the bytes behind the sign at `i`.
unfoldable pub rest_of : ℕ → FilterType → Bytes → Line
rest_of level type [] = overread
rest_of level type (c ∷ rest) = elim (fapolicyd_strtrim (some rest)) [
  | none ↦ refused
  | some trimmed ↦ entry level type trimmed
]

-- The loop over the line's first bytes. What it trims for a comment or an error is not used, and is
-- left out.
unfoldable pub scan_line : ℕ → Bytes → Line
unfolding rest_of
scan_line level [] = refused
scan_line level (c ∷ cs) =
    let deeper = scan_line (level + 1) cs in
    if c == 32
    then deeper
    else if c == 43
    then rest_of level add cs
    else if c == 45
    then rest_of level sub cs
    else if c == 35
    then ignored
    else refused

unfoldable pub parse_line : Bytes → Line
unfolding scan_line
parse_line [] = ignored
parse_line (c ∷ cs) = scan_line 1 (c ∷ cs)

abbrev pub close : Frame → Filter
close f = filter f.type f.path f.list

-- `stack_pop_vars`, that often, from a stack that must not get empty.
unfoldable pub pop_frames : ℕ → List Frame → Option (List Frame)
pop_frames zero st = some st
pop_frames (suc n) [] = none
pop_frames (suc n) (f ∷ []) = none
pop_frames (suc n) (f ∷ g ∷ st) = pop_frames n (record g { list = more (close f) g.list } ∷ st)

-- The push of the new node, `none` if the stack is full.
unfoldable pub push_frame : ℕ → FilterType → Bytes → List Frame → Option (List Frame)
push_frame level type path st =
    if leb max_filter_depth (length st)
    then none
    else some (record { level = level; type = type; path = some path; list = no_filters } ∷ st)

pub data Placed : Type 0 where
  next : List Frame → Placed
  bad_place no_top : Placed

unfoldable pub put_below : ℕ → ℕ → FilterType → Bytes → List Frame → Placed
unfolding pop_frames push_frame
put_below pops level type path st = elim (pop_frames pops st) [
  | none ↦ no_top
  | some popped ↦ elim (push_frame level type path popped) [
    | none ↦ bad_place
    | some pushed ↦ next pushed
  ]
]

-- The comparison of the line's level with that of the line before.
unfoldable pub place : ℕ → FilterType → Bytes → List Frame → Placed
unfolding put_below
place level type path [] = no_top
place level type path (top ∷ st) =
    if level == top.level
    then put_below 1 level type path (top ∷ st)
    else if level == top.level + 1
    then put_below 0 level type path (top ∷ st)
    else if ltb level top.level
    then put_below (top.level - level + 1) level type path (top ∷ st)
    else bad_place

-- All that is left to pop goes into the root's list.
unfoldable pub finish : List Frame → Loaded
finish [] = undefined
finish (f ∷ []) = loaded (close f)
finish (f ∷ g ∷ st) = finish (record g { list = more (close f) g.list } ∷ st)

unfoldable pub load_lines : List Bytes → List Frame → Loaded
unfolding parse_line place finish
load_lines [] st = finish st
load_lines (line ∷ lines) st = elim (parse_line line) [
  | ignored ↦ load_lines lines st
  | refused ↦ rejected
  | overread ↦ undefined
  | entry level type path ↦ elim (place level type path st) [
    | next pushed ↦ load_lines lines pushed
    | bad_place ↦ rejected
    | no_top ↦ undefined
  ]
]

abbrev pub root_frame : Frame
root_frame = record { level = 0; type = none_type; path = none; list = no_filters }

-- A byte before the lines of what follows it.
abbrev pub join_line : ℕ → List Bytes → List Bytes
join_line c [] = (c ∷ []) ∷ []
join_line c (l ∷ ls) = (c ∷ l) ∷ ls

-- The lines that `getline` gives, each cut at its newline (`strchr(line, '\n')`).
unfoldable pub getlines : Bytes → List Bytes
getlines [] = []
getlines (c ∷ s) = let ls = getlines s in if c == 10 then [] ∷ ls else join_line c ls

unfoldable pub filter_load_file : Bytes → Loaded
unfolding load_lines getlines
filter_load_file text = load_lines (getlines text) (root_frame ∷ [])
