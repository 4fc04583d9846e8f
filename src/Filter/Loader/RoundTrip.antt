-- ===== src/Filter/Loader/RoundTrip.antt =====
-- The loader gives a tree back from its lines.
use mathlib.Core.List.{append-nil, append_assoc}
use rhel_fapolicyd.Base.{
  ℕ, zero, suc, ◌+◌, ◌-◌, ◌≤◌, ◌<◌, ◌≡◌, ◌⊎◌, inl, inr, refl, sym, ap, ◌∙◌, none, some, List, [],
  ◌∷◌, ◌++◌, arith, length, replicate, Bytes,
}
use rhel_fapolicyd.Filter.{
  FilterType, none_type, add, sub, comment, bad, Filter, filter, Filters, no_filters, more,
  max_filter_depth,
}
use rhel_fapolicyd.Filter.Loader.{
  Frame, entry, loaded, rest_of, scan_line, parse_line, finish, load_lines, root_frame,
  filter_load_file,
}
use rhel_fapolicyd.Filter.Loader.Frames.{
  Leveled, put, put_all, collapse, length-collapse, collapse-Leveled, collapse-collapse,
  finish-collapse, opened, place-ok,
}
use rhel_fapolicyd.Filter.Loader.Text.{
  sign, piece, lines_of, lines_of_all, Writable, AllWritable, height, heights, text_of,
  getlines-text_of, all-AllUnbroken,
}
use rhel_fapolicyd.Strings.{fapolicyd_strtrim}

scan_indent :
    (k level : ℕ) (cs : Bytes) → scan_line level (replicate k 32 ++ cs) ≡ scan_line (level + k) cs
unfolding scan_line
scan_indent zero level cs = ap (λ n. scan_line n cs) {x = level} (omega arith)
scan_indent (suc k) level cs =
    scan_indent k (level + 1) cs ∙ ap (λ n. scan_line n cs) {x = level + 1 + k} (omega arith)

scan_sign :
    (level : ℕ) (type : FilterType) (p : Bytes)
    → (type ≡ add) ⊎ (type ≡ sub)
    → fapolicyd_strtrim (some p) ≡ some p
    → scan_line level (sign type ∷ 32 ∷ p) ≡ entry level type p
unfolding scan_line rest_of
scan_sign level add p s trimmed = rw (scan_line, rest_of, trimmed) refl
scan_sign level sub p s trimmed = rw (scan_line, rest_of, trimmed) refl
scan_sign level none_type p s trimmed = elim s [ inl e ↦ cc | inr e ↦ cc ]
scan_sign level comment p s trimmed = elim s [ inl e ↦ cc | inr e ↦ cc ]
scan_sign level bad p s trimmed = elim s [ inl e ↦ cc | inr e ↦ cc ]

parse_scan :
    (k : ℕ) (c : ℕ) (cs : Bytes)
    → parse_line (replicate k 32 ++ (c ∷ cs)) ≡ scan_line 1 (replicate k 32 ++ (c ∷ cs))
unfolding parse_line
parse_scan zero c cs = refl
parse_scan (suc k) c cs = refl

-- The stack after some lines of level `l`: cut down to that level, it has the nodes in the list on top.
record Reads (l : ℕ) (before : List Frame) (fs : Filters) (lines rest : List Bytes) : Type 0 where
  after : List Frame
  runs : load_lines (lines ++ rest) before ≡ load_lines rest after
  leveled : Leveled after
  reach : l ≤ length after
  has : collapse (length after - l) after ≡ put_all fs (collapse (length before - l) before)

put_all-opened :
    (fs : Filters) (level : ℕ) (type : FilterType) (p : Bytes) (st : List Frame)
    → put_all fs (opened level type p no_filters ∷ st) ≡ opened level type p fs ∷ st
put_all-opened no_filters level type p st = refl
put_all-opened (more f fs) level type p st = ap (put f) (put_all-opened fs level type p st)

put_all-root : (fs : Filters) → put_all fs (root_frame ∷ []) ≡ record root_frame { list = fs } ∷ []
put_all-root no_filters = refl
put_all-root (more f fs) = ap (put f) (put_all-root fs)

-- The first line of a node opens it.
opens :
    (indent : ℕ) (type : FilterType) (p : Bytes) (before : List Frame) (lines : List Bytes)
    → (type ≡ add) ⊎ (type ≡ sub)
    → fapolicyd_strtrim (some p) ≡ some p
    → Leveled before
    → suc indent ≤ length before
    → suc indent < max_filter_depth
    → load_lines ((replicate indent 32 ++ (sign type ∷ 32 ∷ p)) ∷ lines) before
      ≡ load_lines lines
          (opened (suc indent) type p no_filters ∷ collapse (length before - suc indent) before)
unfolding load_lines
opens indent type p before lines signed trimmed v reach room =
    let at_level : 1 + indent ≡ suc indent = omega arith in
    let parsed : parse_line (replicate indent 32 ++ (sign type ∷ 32 ∷ p))
        ≡ entry (suc indent) type p =
      parse_scan indent (sign type) (32 ∷ p)
      ∙ scan_indent indent 1 (sign type ∷ 32 ∷ p)
      ∙ ap (λ n. scan_line n (sign type ∷ 32 ∷ p)) at_level
      ∙ scan_sign (suc indent) type p signed trimmed in
    rw (load_lines, parsed, place-ok (suc indent) type p before v (omega arith) reach room) refl

mutual
  unfolding lines_of lines_of_all Writable AllWritable height heights

  node-Reads :
      (f : Filter) (indent : ℕ) (before : List Frame) (rest : List Bytes)
      → Writable f
      → Leveled before
      → suc indent ≤ length before
      → suc indent + height f ≤ max_filter_depth
      → Reads (suc indent) before (more f no_filters) (lines_of indent f) rest
  node-Reads (filter type path fs) indent before rest (signed, has_path, trimmed, unbroken, ws) v
        reach room =
      let p = piece path in
      let c = collapse (length before - suc indent) before in
      let st = opened (suc indent) type p no_filters ∷ c in
      let size : length c ≡ suc indent =
        length-collapse (length before - suc indent) before (omega arith) ∙ omega arith in
      let r =
        all-Reads fs (suc indent) st rest ws
          (sym size, collapse-Leveled (length before - suc indent) before v) (omega (arith, size))
          (omega arith) in
      let none_popped : length st - suc (suc indent) ≡ 0 = omega (arith, size) in
      let deeper = r.reach in
      let one_more : length r.after - suc (suc indent) + 1 ≡ length r.after - suc indent =
        omega arith in
      record {
        after = r.after;
        runs =
            opens indent type p before (lines_of_all (suc indent) fs ++ rest) signed trimmed v reach
              (omega arith)
            ∙ r.runs;
        leveled = r.leveled;
        reach = omega arith;
        has =
            ap (λ n. collapse n r.after) (sym one_more)
            ∙ sym (collapse-collapse (length r.after - suc (suc indent)) 1 r.after)
            ∙ ap (collapse 1) (
                r.has
                ∙ ap (λ n. put_all fs (collapse n st)) none_popped
                ∙ put_all-opened fs (suc indent) type p c)
            ∙ ap (λ x. put (filter type x fs) c) (sym has_path);
      }

  all-Reads :
      (fs : Filters) (indent : ℕ) (before : List Frame) (rest : List Bytes)
      → AllWritable fs
      → Leveled before
      → suc indent ≤ length before
      → suc indent + heights fs ≤ max_filter_depth
      → Reads (suc indent) before fs (lines_of_all indent fs) rest
  all-Reads no_filters indent before rest w v reach room = record {
    after = before;
    runs = refl;
    leveled = v;
    reach = reach;
    has = refl;
  }
  all-Reads (more f fs) indent before rest (w, ws) v reach room =
      let r = all-Reads fs indent before (lines_of indent f ++ rest) ws v reach (omega arith) in
      let n = node-Reads f indent r.after rest w r.leveled r.reach (omega arith) in
      record {
        after = n.after;
        runs =
            ap (λ ls. load_lines ls before)
              (append_assoc (lines_of_all indent fs) (lines_of indent f) rest)
            ∙ r.runs
            ∙ n.runs;
        leveled = n.leveled;
        reach = n.reach;
        has = n.has ∙ ap (put f) r.has;
      }

-- The text of the lines of any tree whose nodes add or subtract paths without white space at their
-- ends and without newlines, at most 63 deep, is accepted, and the loader builds this tree from it.
pub filter_load_file-lines_of_all :
    (fs : Filters)
    → AllWritable fs
    → suc (heights fs) ≤ max_filter_depth
    → filter_load_file (text_of (lines_of_all 0 fs)) ≡ loaded (filter none_type none fs)
unfolding filter_load_file load_lines finish
filter_load_file-lines_of_all fs ws room =
    let st = root_frame ∷ [] in
    let r = all-Reads fs 0 st [] ws (refl, tt) (omega arith) (omega (arith, room)) in
    let above = r.reach in
    ap (λ ls. load_lines ls st)
      (getlines-text_of (lines_of_all 0 fs) (all-AllUnbroken fs 0 ws)
        ∙ sym (append-nil (lines_of_all 0 fs)))
    ∙ r.runs
    ∙ finish-collapse (length r.after - 1) r.after (omega arith)
    ∙ ap finish (r.has ∙ put_all-root fs)
