-- ===== src/Filter/Walk.antt =====
-- The walk of `filter_check` against a recursive reading of the tree.
use Prim.Native.Nat.{max}
use rhel_fapolicyd.Base.{
  ℕ, zero, suc, ◌+◌, ◌≤◌, ◌≡◌, refl, sym, ap, ◌∙◌, Bool, true, false, ◌&&◌, ◌||◌, ◌⊎◌, inl, inr,
  Option, none, some, List, [], ◌∷◌, leb, ◌==◌, if◌then◌else◌, Bool-cases, arith, length, Bytes,
}
use rhel_fapolicyd.Filter.{
  FilterType, add, Filter, filter, Filters, no_filters, more, is_leaf, Checked, beyond, unfinished,
  StackItem, max_filter_depth, is_wildcard, is_directory, type_answer, directory_answer, fresh,
  stack_push_vars, push_descendants, pop_processed, is_outside, match_piece, visit, walk,
}

-- The number of nodes.
unfoldable mutual
  pub size : Filter → ℕ
  size (filter type path fs) = suc (sizes fs)

  pub sizes : Filters → ℕ
  sizes no_filters = 0
  sizes (more f fs) = sizes fs + size f

-- The items that the walk has on the stack at once, above the node's own.
unfoldable mutual
  pub depth : Filter → ℕ
  depth (filter type path fs) = depths fs

  pub depths : Filters → ℕ
  depths no_filters = 0
  depths (more f fs) = suc (max (depth f) (depths fs))

-- What a node without an opinion leaves to the nodes before it, and the first opinion otherwise.
abbrev pub finished : Checked → Bool
finished unfinished = false
finished _ = true

pub type-finished : (type : FilterType) → finished (type_answer type) ≡ true
type-finished add = refl
type-finished _ = refl

abbrev pub or_else : Option Checked → Option Checked → Option Checked
or_else none b = b
or_else (some c) b = some c

sum-cases {ℓ} : {A B : Type ℓ} (s : A ⊎ B) → ((a : A) × (s ≡ inl a)) ⊎ ((b : B) × (s ≡ inr b))
sum-cases (inl a) = inl (a, refl)
sum-cases (inr b) = inr (b, refl)

-- The code of an opinion, and what follows where there is none.
abbrev pub settle : Option Checked → Checked → Checked
settle none rest = rest
settle (some c) rest = c

pub settle-or_else :
    (a b : Option Checked) (rest : Checked) → settle (or_else a b) rest ≡ settle a (settle b rest)
settle-or_else none b rest = refl
settle-or_else (some c) b rest = refl

unfoldable pub own : FilterType → Bytes → Option Checked
own type piece =
    if is_directory (some piece) then some (directory_answer type (some piece)) else none

directory-finished :
    (type : FilterType) (path : Option Bytes) → finished (directory_answer type path) ≡ true
directory-finished type none = type-finished type
directory-finished type (some []) = refl
directory-finished type (some (b ∷ bs)) = type-finished type

pub own-finished :
    (type : FilterType) (piece : Bytes) (r : Checked)
    → finished r ≡ true
    → finished (settle (own type piece) r) ≡ true
unfolding own
own-finished type piece r h = elim (Bool-cases (is_directory (some piece))) [
  | inl dir ↦ rw dir (directory-finished type (some piece))
  | inr file ↦ rw file h
]

push-ok :
    (stack : List StackItem) (level offset : ℕ) (f : Filter)
    → suc (length stack) ≤ max_filter_depth
    → stack_push_vars stack level offset f ≡ some (fresh level offset f ∷ stack)
unfolding stack_push_vars
push-ok stack level offset f h =
    let room : leb max_filter_depth (length stack) ≡ false = ground arith in
    rw (stack_push_vars, room) refl

-- The stack with all descendants on it.
unfoldable pub pushed : Filters → ℕ → ℕ → List StackItem → List StackItem
pushed no_filters level offset stack = stack
pushed (more f fs) level offset stack = pushed fs level offset (fresh level offset f ∷ stack)

pub push_descendants-ok :
    (fs : Filters) (level offset : ℕ) (stack : List StackItem)
    → length stack + depths fs ≤ max_filter_depth
    → push_descendants fs level offset stack ≡ some (pushed fs level offset stack)
unfolding push_descendants depths pushed
push_descendants-ok no_filters level offset stack h = refl
push_descendants-ok (more f fs) level offset stack h =
    rw (push_descendants, push-ok stack level offset f (omega arith))
      (push_descendants-ok fs level offset (fresh level offset f ∷ stack) (omega arith))

module _ (fnmatch : Bytes → Bytes → Bool) (path : Bytes) where
  unfoldable mutual
    -- The opinion of a node on the path from `offset` on: that of its last descendant with an opinion,
    -- and its own if it is a directory that matched.
    pub opinion : Filter → ℕ → Option Checked
    opinion (filter type none fs) offset = opinions fs offset
    opinion (filter type (some piece) fs) offset =
        if is_outside path offset piece
        then some beyond
        else elim (match_piece fnmatch path offset piece) [
          | none ↦ none
          | some offset' ↦
              if is_leaf fs && (is_wildcard piece || length path == offset')
              then some (type_answer type)
              else or_else (opinions fs offset') (
                  if is_directory (some piece)
                  then some (directory_answer type (some piece))
                  else none)
        ]

    pub opinions : Filters → ℕ → Option Checked
    opinions no_filters offset = none
    opinions (more f fs) offset = or_else (opinions fs offset) (opinion f offset)

  abbrev pub resume : ℕ → List StackItem → Checked
  resume fuel stack = walk fnmatch fuel path (pop_processed stack)

  pub walk-decided :
      (fuel : ℕ) (item : StackItem) (below : List StackItem) (c : Checked)
      → visit fnmatch path item.level item.offset item.filter below ≡ inl c
      → walk fnmatch (suc fuel) path (inr (item ∷ below)) ≡ c
  unfolding walk
  walk-decided fuel item below c e = rw (walk, e) refl

  pub walk-goes :
      (fuel : ℕ) (item : StackItem) (below stack : List StackItem)
      → visit fnmatch path item.level item.offset item.filter below ≡ inr stack
      → walk fnmatch (suc fuel) path (inr (item ∷ below)) ≡ resume fuel stack
  unfolding walk
  walk-goes fuel item below stack e = rw (walk, e) refl

  -- More turns than are needed do not change the result.
  pub walk-more :
      (k fuel : ℕ) (s : Checked ⊎ List StackItem) (r : Checked)
      → walk fnmatch fuel path s ≡ r
      → finished r ≡ true
      → walk fnmatch (fuel + k) path s ≡ r
  unfolding walk
  walk-more k fuel (inl decided) r e h = e
  walk-more k fuel (inr []) r e h = e
  walk-more k zero (inr (item ∷ below)) r e h =
      let clash : finished unfinished ≡ true = ap finished e ∙ h in cc
  walk-more k (suc fuel) (inr (item ∷ below)) r e h =
      let more_fuel : suc fuel + k ≡ suc (fuel + k) = omega arith in
      ap (λ n. walk fnmatch n path (inr (item ∷ below))) more_fuel
      ∙ elim (sum-cases (visit fnmatch path item.level item.offset item.filter below)) [
        | inl (c, at) ↦
            walk-decided (fuel + k) item below c at ∙ sym (walk-decided fuel item below c at) ∙ e
        | inr (stack, at) ↦
            walk-goes (fuel + k) item below stack at
            ∙ walk-more k fuel (pop_processed stack) r
                (sym (walk-goes fuel item below stack at) ∙ e) h
      ]

  pub pop-matched :
      (fuel level offset : ℕ) (type : FilterType) (piece : Bytes) (fs : Filters)
      (below : List StackItem) (r : Checked)
      → resume fuel below ≡ r
      → resume fuel (
          record {
            level = level;
            offset = offset;
            filter = filter type (some piece) fs;
            processed = true;
            matched = true;
          }
          ∷ below)
        ≡ settle (own type piece) r
  unfolding pop_processed walk own
  pop-matched fuel level offset type piece fs below r e =
      elim (Bool-cases (is_directory (some piece))) [ inl dir ↦ rw dir refl | inr file ↦ rw file e ]
