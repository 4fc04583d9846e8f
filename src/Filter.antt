-- ===== src/Filter.antt =====
-- src/library/filter.c: which paths the trust database keeps. A filter is a tree of path pieces, and
-- a path is tested by a walk over it with a stack of bounded depth. `fnmatch` is a parameter. The
-- flags of a node, which are 0 between calls, stand in the node's stack item here: a node of a tree
-- is on the stack at most once, and its flags are reset when it is popped.
pub mod Agrees
pub mod Loader
mod Tests
pub mod Walk
use rhel_fapolicyd.Base.{
  ℕ, zero, suc, ◌+◌, ◌-◌, Bool, true, false, not, ◌&&◌, ◌||◌, ◌⊎◌, inl, inr, Option, none, some,
  List, [], ◌∷◌, ltb, leb, ◌==◌, if◌then◌else◌, length, take, drop, Bytes, streq, strneq,
}

pub data FilterType : Type 0 where
  none_type add sub comment bad : FilterType

mutual
  pub data Filter : Type 0 where
    filter : FilterType → Option Bytes → Filters → Filter

  pub data Filters : Type 0 where
    no_filters : Filters
    more : Filter → Filters → Filters

-- `list_get_first(&filter->list) == NULL`
abbrev pub is_leaf : Filters → Bool
is_leaf no_filters = true
is_leaf (more f fs) = false

pub data FilterRc : Type 0 where
  filter_deny filter_allow filter_err_depth : FilterRc

-- What a check comes to: a code, an access outside a string, or a walk that the fuel does not
-- follow to its end.
pub data Checked : Type 0 where
  answer : FilterRc → Checked
  beyond unfinished : Checked

pub record StackItem : Type 0 where
  pub level : ℕ
  pub offset : ℕ
  pub filter : Filter
  pub processed : Bool
  pub matched : Bool

abbrev pub max_filter_depth : ℕ
max_filter_depth = 64

abbrev slash : ℕ
slash = 47

abbrev dot : ℕ
dot = 46

-- `strstr(s, "/../") != NULL`
abbrev has_inner : Bytes → Bool
has_inner [] = false
has_inner (b ∷ bs) = strneq (b ∷ bs) (slash ∷ dot ∷ dot ∷ slash ∷ []) 4 || has_inner bs

abbrev starts_up : Bytes → Bool
starts_up (a ∷ b ∷ []) = (a == dot) && (b == dot)
starts_up (a ∷ b ∷ c ∷ bs) = (a == dot) && (b == dot) && (c == slash)
starts_up _ = false

-- The three tests for a reference to a parent directory.
unfoldable pub has_parent : Bytes → Bool
has_parent path =
    starts_up path
    || has_inner path
    || (leb 3 (length path) && streq (drop (length path - 3) path) (slash ∷ dot ∷ dot ∷ []))

-- `strpbrk(s, "?*[") != NULL`
abbrev pub is_wildcard : Bytes → Bool
is_wildcard [] = false
is_wildcard (b ∷ bs) = (b == 63) || (b == 42) || (b == 91) || is_wildcard bs

-- The places of `/` in a string that begins at the index `i`.
abbrev slashes : ℕ → Bytes → List ℕ
slashes i [] = []
slashes i (b ∷ bs) = if b == slash then i ∷ slashes (suc i) bs else slashes (suc i) bs

pub record Lims : Type 0 where
  pub count : ℕ
  pub filter_old_lim : ℕ
  pub path_old_lim : ℕ

-- The loop that pairs the slashes of the filter with those of the path.
unfoldable pub pair_lims : List ℕ → List ℕ → Lims → Lims
pair_lims [] ps r = r
pair_lims (f ∷ fs) [] r = record r { count = r.count + 1; filter_old_lim = f }
pair_lims (f ∷ fs) (p ∷ ps) r =
    pair_lims fs ps (record { count = r.count + 1; filter_old_lim = f; path_old_lim = p })

-- `filter->path[filter->len - 1] == '/'`. For an empty path this reads the byte before it, and counts
-- as true here: `directory_answer` says what then follows.
abbrev ends_slash : Bytes → Bool
ends_slash [] = true
ends_slash (b ∷ []) = b == slash
ends_slash (b ∷ c ∷ bs) = ends_slash (c ∷ bs)

abbrev pub is_directory : Option Bytes → Bool
is_directory none = false
is_directory (some p) = ends_slash p

abbrev pub type_answer : FilterType → Checked
type_answer add = answer filter_allow
type_answer _ = answer filter_deny

-- What the test for a directory leads to.
abbrev pub directory_answer : FilterType → Option Bytes → Checked
directory_answer type none = type_answer type
directory_answer type (some []) = beyond
directory_answer type (some (b ∷ bs)) = type_answer type

abbrev path_of : Filter → Option Bytes
path_of (filter type path fs) = path

abbrev type_of : Filter → FilterType
type_of (filter type path fs) = type

abbrev pub fresh : ℕ → ℕ → Filter → StackItem
fresh level offset f = record {
  level = level;
  offset = offset;
  filter = f;
  processed = false;
  matched = false;
}

-- `stack_push_vars`, with `sp` the height of the stack: `none` is the result -1.
unfoldable pub stack_push_vars : List StackItem → ℕ → ℕ → Filter → Option (List StackItem)
stack_push_vars stack level offset f =
    if leb max_filter_depth (length stack) then none else some (fresh level offset f ∷ stack)

unfoldable pub push_descendants : Filters → ℕ → ℕ → List StackItem → Option (List StackItem)
unfolding stack_push_vars
push_descendants no_filters level offset stack = some stack
push_descendants (more f fs) level offset stack = elim (stack_push_vars stack level offset f) [
  | none ↦ none
  | some pushed ↦ push_descendants fs level offset pushed
]

-- The loop that pops processed items: a decision, or the stack with an item to process on top.
unfoldable pub pop_processed : List StackItem → Checked ⊎ List StackItem
pop_processed [] = inr []
pop_processed (item ∷ stack) =
    let rest = pop_processed stack in
    if item.processed
    then (if item.matched && is_directory (path_of item.filter)
        then inl (directory_answer (type_of item.filter) (path_of item.filter))
        else rest)
    else inr (item ∷ stack)

abbrev paired : Bytes → ℕ → Bytes → Lims
paired path offset piece =
    pair_lims (slashes 0 piece) (slashes offset (drop offset path))
      (record { count = 0; filter_old_lim = 0; path_old_lim = offset })

-- `count && *(filter_old_lim+1) == '\0'`
abbrev is_cut : Lims → Bytes → Bool
is_cut r piece = not (r.count == 0) && (r.filter_old_lim + 1 == length piece)

-- Whether the match of a piece leaves the copy of the path: its offset is behind the end, or the byte
-- behind the paired slash, which is cleared, is behind the final NUL.
unfoldable pub is_outside : Bytes → ℕ → Bytes → Bool
unfolding pair_lims
is_outside path offset piece =
    let r = paired path offset piece in
    ltb (length path) offset
    || (is_wildcard piece && is_cut r piece && (r.path_old_lim == length path))

module _ (fnmatch : Bytes → Bytes → Bool) where
  -- A piece with wildcards: the part of the path up to the paired slash, if the piece ends in `/`.
  unfoldable pub match_wildcard : Bytes → ℕ → Bytes → Option ℕ
  unfolding pair_lims
  match_wildcard path offset piece =
      let r = paired path offset piece in
      let rest =
        if is_cut r piece
        then take (r.path_old_lim + 1 - offset) (drop offset path)
        else drop offset path in
      if fnmatch piece rest then some (r.path_old_lim + offset) else none

  -- The match of one node with the path from `offset` on: the new offset.
  unfoldable pub match_piece : Bytes → ℕ → Bytes → Option ℕ
  unfolding match_wildcard
  match_piece path offset piece =
      if is_wildcard piece
      then match_wildcard path offset piece
      else (if strneq (drop offset path) piece (length piece)
          then some (offset + length piece)
          else none)

  -- One turn of the outer loop on the item on top, up to the pops.
  unfoldable pub visit : Bytes → ℕ → ℕ → Filter → List StackItem → Checked ⊎ List StackItem
  unfolding match_piece push_descendants is_outside
  visit path level offset (filter type none fs) below =
      elim (push_descendants fs (level + 1) offset (
        record {
          level = level;
          offset = offset;
          filter = filter type none fs;
          processed = true;
          matched = false;
        }
        ∷ below)) [ none ↦ inl (answer filter_err_depth) | some stack ↦ inr stack ]
  visit path level offset (filter type (some piece) fs) below =
      if is_outside path offset piece then inl beyond else elim (match_piece path offset piece) [
        | none ↦ inr (
            record {
              level = level;
              offset = offset;
              filter = filter type (some piece) fs;
              processed = true;
              matched = false;
            }
            ∷ below)
        | some offset' ↦
            if is_leaf fs && (is_wildcard piece || length path == offset')
            then inl (type_answer type)
            else elim (push_descendants fs (level + 1) offset' (
                record {
                  level = level;
                  offset = offset;
                  filter = filter type (some piece) fs;
                  processed = true;
                  matched = true;
                }
                ∷ below)) [ none ↦ inl (answer filter_err_depth) | some stack ↦ inr stack ]
      ]

  -- The outer loop, from the end of the pops on, for that many turns.
  unfoldable pub walk : ℕ → Bytes → Checked ⊎ List StackItem → Checked
  unfolding pop_processed visit
  walk fuel path (inl decided) = decided
  walk fuel path (inr []) = answer filter_deny
  walk zero path (inr (item ∷ below)) = unfinished
  walk (suc fuel) path (inr (item ∷ below)) =
      elim (visit path item.level item.offset item.filter below) [
        | inl decided ↦ decided
        | inr stack ↦ walk fuel path (pop_processed stack)
      ]

  unfoldable pub filter_check : ℕ → Filter → Option Bytes → Checked
  unfolding walk pop_processed has_parent
  filter_check fuel root none = answer filter_deny
  filter_check fuel root (some path) =
      if has_parent path then answer filter_deny else elim (stack_push_vars [] 0 0 root) [
        | none ↦ answer filter_err_depth
        | some stack ↦ walk fuel path (pop_processed stack)
      ]
