-- ===== src/Filter/Tests.antt =====
-- A small tree of filters, and the instance of its property.
use rhel_fapolicyd.Base.{
  ℕ, suc, ◌+◌, ◌≤◌, ◌≡◌, inl, inr, refl, Bool, true, false, ◌&&◌, ◌||◌, none, some, [], ◌∷◌, ◌==◌,
  if◌then◌else◌, arith, Bytes, codes, strneq, streq,
}
use rhel_fapolicyd.Filter.{
  none_type, add, sub, Filter, filter, Filters, no_filters, more, filter_deny, filter_allow, answer,
  beyond, has_parent, pair_lims, stack_push_vars, push_descendants, pop_processed, is_outside,
  match_wildcard, match_piece, visit, walk, filter_check,
}
use rhel_fapolicyd.Filter.Agrees.{filter_check-opinion}
use rhel_fapolicyd.Filter.Loader.{
  loaded, rejected, undefined, rest_of, scan_line, parse_line, pop_frames, push_frame, put_below,
  place, finish, load_lines, getlines, filter_load_file,
}
use rhel_fapolicyd.Filter.Loader.RoundTrip.{filter_load_file-lines_of_all}
use rhel_fapolicyd.Filter.Loader.Text.{
  lines_of, lines_of_all, text_of, Writable, AllWritable, height, heights,
}
use rhel_fapolicyd.Strings.{fapolicyd_strtrim, skip_spaces, trim_end}
use rhel_fapolicyd.Filter.Walk.{size, depth, opinion, settle}

program : Unit {0}
unfolding has_parent pair_lims stack_push_vars push_descendants pop_processed match_wildcard
    is_outside match_piece visit walk filter_check strneq streq size depth rest_of scan_line
    parse_line pop_frames push_frame put_below place finish load_lines getlines filter_load_file
    lines_of Writable height fapolicyd_strtrim skip_spaces trim_end
program = tt

-- A matcher that knows `?` and `*`.
abbrev some_tail : (Bytes → Bool) → Bytes → Bool
some_tail test [] = test []
some_tail test (c ∷ s) = test (c ∷ s) || some_tail test s

abbrev one_byte : (Bytes → Bool) → ℕ → Bytes → Bool
one_byte test p [] = false
one_byte test p (c ∷ s) = ((p == 63) || (p == c)) && test s

abbrev glob : Bytes → Bytes → Bool
glob [] [] = true
glob [] (c ∷ s) = false
glob (p ∷ ps) s = let rest = glob ps in if p == 42 then some_tail rest s else one_byte rest p s

-- Allow all, but what is in /u/, and there allow what ends in .p.
abbrev tree : Filter
tree = filter none_type none (
    more
      (filter add (some (codes "/")) (
        more
          (filter sub (some (codes "u/"))
            (more (filter add (some (codes "*.p")) no_filters) no_filters))
          no_filters))
      no_filters)

decisions :
    (filter_check glob 9 tree (some (codes "/b")) ≡ answer filter_allow)
    × (filter_check glob 9 tree (some (codes "/u/a.p")) ≡ answer filter_allow)
    × (filter_check glob 9 tree (some (codes "/u/a.q")) ≡ answer filter_deny)
    × (filter_check glob 9 tree (some (codes "/u/../a.p")) ≡ answer filter_deny)
unfolding program
decisions = (refl, refl, refl, refl)

-- A directory with a wildcard below another piece: the offset counts the piece twice, and its
-- descendant is compared with what stands behind the end of the path.
abbrev nested : Filter
nested = filter none_type none (
    more
      (filter sub (some (codes "/u/")) (
        more
          (filter sub (some (codes "?/"))
            (more (filter add (some (codes "x")) no_filters) no_filters))
          no_filters))
      no_filters)

doubled_offset : filter_check glob 9 nested (some (codes "/u/a/x")) ≡ beyond
unfolding program
doubled_offset = refl

-- A piece without bytes, as of the line `+ `, with another below it: the test for a directory reads
-- before its first byte.
abbrev empty_piece : Filter
empty_piece = filter none_type none (
    more (filter add (some []) (more (filter add (some (codes "x")) no_filters) no_filters))
      no_filters)

-- A wildcard piece that ends in its first slash, at the end of the path: the byte behind the final NUL
-- is cleared.
abbrev past_end : Filter
past_end = filter none_type none (
    more
      (filter add (some (codes "/u")) (more (filter add (some (codes "?/")) no_filters) no_filters))
      no_filters)

accesses :
    (filter_check glob 9 empty_piece (some (codes "/u")) ≡ beyond)
    × (filter_check glob 9 past_end (some (codes "/u")) ≡ beyond)
unfolding program
accesses = (refl, refl)

tree_fits : suc (depth tree) ≤ 64
unfolding program
tree_fits = omega arith

filter_check-opinion_example : filter_check glob (size tree + 0) tree (some (codes "/u/a.p")) ≡ (
    if has_parent (codes "/u/a.p")
    then answer filter_deny
    else settle (opinion glob (codes "/u/a.p") tree 0) (answer filter_deny))
filter_check-opinion_example = filter_check-opinion glob (codes "/u/a.p") tree 0 tree_fits

abbrev below_root : Filters
below_root =
    more
      (filter add (some (codes "/")) (
        more
          (filter sub (some (codes "u/"))
            (more (filter add (some (codes "*.p")) no_filters) no_filters))
          no_filters))
      no_filters

loads :
    (filter_load_file (codes "# all but programs\n+ /\n - u/\n\n  + *.p \n")
      ≡ loaded (filter none_type none below_root))
    × (filter_load_file (codes "+ /\n  + *.p\n") ≡ rejected)
    × (filter_load_file (codes "* /") ≡ rejected)
    × (filter_load_file (codes "+\n") ≡ undefined)
unfolding program
loads = (refl, refl, refl, refl)

below_root-AllWritable : AllWritable below_root
unfolding program
below_root-AllWritable = (
  (
    inl refl,
    refl,
    refl,
    refl,
    ((inr refl, refl, refl, refl, ((inl refl, refl, refl, refl, tt), tt)), tt),
  ),
  tt,
)

below_root-heights : suc (heights below_root) ≤ 64
unfolding program
below_root-heights = omega arith

filter_load_file-lines_of_all_example :
    filter_load_file (text_of (lines_of_all 0 below_root))
    ≡ loaded (filter none_type none below_root)
filter_load_file-lines_of_all_example =
    filter_load_file-lines_of_all below_root below_root-AllWritable below_root-heights
