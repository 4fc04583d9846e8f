-- ===== src/Filter/Agrees.antt =====
-- `filter_check` gives the opinion of the tree.
use rhel_fapolicyd.Base.{
  ℕ, suc, ◌+◌, ◌≤◌, ◌≡◌, refl, sym, ap, ◌∙◌, Bool, true, false, ◌&&◌, ◌||◌, inl, inr, Option, none,
  some, List, [], ◌∷◌, ◌==◌, if◌then◌else◌, Bool-cases, Option-cases, arith, length, Bytes,
}
use rhel_fapolicyd.Filter.{
  FilterType, Filter, filter, Filters, no_filters, more, is_leaf, filter_deny, Checked, answer,
  is_outside, beyond, StackItem, max_filter_depth, has_parent, is_wildcard, type_answer, fresh,
  stack_push_vars, pop_processed, match_piece, visit, walk, filter_check,
}
use rhel_fapolicyd.Filter.Walk.{
  size, sizes, depth, depths, or_else, finished, opinion, opinions, settle, settle-or_else, pushed,
  push_descendants-ok, resume, walk-decided, walk-goes, walk-more, own, pop-matched, own-finished,
  type-finished,
}

module _ (fnmatch : Bytes → Bytes → Bool) (path : Bytes) where
  or_else-done :
      (a b : Option Checked) (r : Checked)
      → finished (settle a (settle b r)) ≡ true
      → finished (settle (or_else a b) r) ≡ true
  or_else-done a b r h = ap finished (settle-or_else a b r) ∙ h

  mutual
    unfolding opinion opinions own

    opinion-done :
        (f : Filter) (offset : ℕ) (r : Checked)
        → finished r ≡ true
        → finished (settle (opinion fnmatch path f offset) r) ≡ true
    opinion-done (filter type none fs) offset r h = opinions-done fs offset r h
    opinion-done (filter type (some piece) fs) offset r h =
        elim (Bool-cases (is_outside path offset piece)) [
          | inl far ↦ rw far refl
          | inr near ↦ elim (Option-cases (match_piece fnmatch path offset piece)) [
            | inl miss ↦ rw (near, miss) h
            | inr (to, hit) ↦
                elim (Bool-cases (is_leaf fs && (is_wildcard piece || length path == to))) [
                  | inl leaf ↦ rw (near, hit, leaf) (type-finished type)
                  | inr inner ↦
                      rw (near, hit, inner)
                        (or_else-done (opinions fnmatch path fs to) (own type piece) r (
                          opinions-done fs to (settle (own type piece) r)
                            (own-finished type piece r h)))
                ]
          ]
        ]

    opinions-done :
        (fs : Filters) (offset : ℕ) (r : Checked)
        → finished r ≡ true
        → finished (settle (opinions fnmatch path fs offset) r) ≡ true
    opinions-done no_filters offset r h = h
    opinions-done (more f fs) offset r h =
        or_else-done (opinions fnmatch path fs offset) (opinion fnmatch path f offset) r (
          opinions-done fs offset (settle (opinion fnmatch path f offset) r)
            (opinion-done f offset r h))

  abbrev passed : ℕ → ℕ → Filter → Bool → StackItem
  passed level offset f matched = record {
    level = level;
    offset = offset;
    filter = f;
    processed = true;
    matched = matched;
  }

  visit_root :
      (type : FilterType) (fs : Filters) (level offset : ℕ) (below : List StackItem)
      → suc (length below) + depths fs ≤ max_filter_depth
      → visit fnmatch path level offset (filter type none fs) below
        ≡ inr
            (pushed fs (level + 1) offset (passed level offset (filter type none fs) false ∷ below))
  unfolding visit
  visit_root type fs level offset below h =
      rw
        (
          visit,
          push_descendants-ok fs (level + 1) offset
              (passed level offset (filter type none fs) false ∷ below) h,
        )
        refl

  visit_inner :
      (type : FilterType) (piece : Bytes) (fs : Filters) (level offset to : ℕ)
      (below : List StackItem)
      → suc (length below) + depths fs ≤ max_filter_depth
      → is_outside path offset piece ≡ false
      → match_piece fnmatch path offset piece ≡ some to
      → (is_leaf fs && (is_wildcard piece || length path == to)) ≡ false
      → visit fnmatch path level offset (filter type (some piece) fs) below
        ≡ inr (
            pushed fs
              (level + 1)
              to
              (passed level offset (filter type (some piece) fs) true ∷ below))
  unfolding visit
  visit_inner type piece fs level offset to below h near hit inner =
      rw
        (
          visit,
          near,
          hit,
          inner,
          push_descendants-ok fs (level + 1) to
              (passed level offset (filter type (some piece) fs) true ∷ below) h,
        )
        refl

  mutual
    unfolding visit pop_processed size sizes depth depths opinion opinions pushed own

    -- The walk from a node's item on gives the node's opinion, and goes on below where it has none.
    visit-opinion :
        (f : Filter) (level offset fuel : ℕ) (below : List StackItem) (r : Checked)
        → suc (length below) + depth f ≤ max_filter_depth
        → finished r ≡ true
        → resume fnmatch path fuel below ≡ r
        → walk fnmatch (size f + fuel) path (inr (fresh level offset f ∷ below))
          ≡ settle (opinion fnmatch path f offset) r
    visit-opinion (filter type none fs) level offset fuel below r h done e =
        let f = filter type none fs in
        let turns : suc (sizes fs) + fuel ≡ suc (sizes fs + fuel) = omega arith in
        ap (λ n. walk fnmatch n path (inr (fresh level offset f ∷ below))) turns
        ∙ walk-goes fnmatch path (sizes fs + fuel) (fresh level offset f) below
            (pushed fs (level + 1) offset (passed level offset f false ∷ below))
            (visit_root type fs level offset below h)
        ∙ descend-opinions fs (level + 1) offset fuel (passed level offset f false ∷ below) r h done
            e
    visit-opinion (filter type (some piece) fs) level offset fuel below r h done e =
        let f = filter type (some piece) fs in
        let item = fresh level offset f in
        let n = sizes fs + fuel in
        let turns : suc (sizes fs) + fuel ≡ suc (sizes fs + fuel) = omega arith in
        ap (λ k. walk fnmatch k path (inr (item ∷ below))) turns
        ∙ elim (Bool-cases (is_outside path offset piece)) [
          | inl far ↦
              walk-decided fnmatch path n item below beyond (rw (visit, far) refl) ∙ rw far refl
          | inr near ↦ elim (Option-cases (match_piece fnmatch path offset piece)) [
            | inl miss ↦
                let back : sizes fs + fuel ≡ fuel + sizes fs = omega arith in
                walk-goes fnmatch path n item below (passed level offset f false ∷ below)
                  (rw (visit, near, miss) refl)
                ∙ ap (λ k. resume fnmatch path k below) back
                ∙ walk-more fnmatch path (sizes fs) fuel (pop_processed below) r e done
                ∙ rw (near, miss) refl
            | inr (to, hit) ↦
                elim (Bool-cases (is_leaf fs && (is_wildcard piece || length path == to))) [
                  | inl leaf ↦
                      walk-decided fnmatch path n item below (type_answer type)
                        (rw (visit, near, hit, leaf) refl)
                      ∙ rw (near, hit, leaf) refl
                  | inr inner ↦
                      let r' = settle (own type piece) r in
                      walk-goes fnmatch path n item below
                        (pushed fs (level + 1) to (passed level offset f true ∷ below))
                        (visit_inner type piece fs level offset to below h near hit inner)
                      ∙ descend-opinions fs (level + 1) to fuel (passed level offset f true ∷ below)
                          r' h (own-finished type piece r done)
                          (pop-matched fnmatch path fuel level offset type piece fs below r e)
                      ∙ rw (near, hit, inner)
                          (sym (settle-or_else (opinions fnmatch path fs to) (own type piece) r))
                ]
          ]
        ]

    descend-opinions :
        (fs : Filters) (level offset fuel : ℕ) (stack : List StackItem) (r : Checked)
        → length stack + depths fs ≤ max_filter_depth
        → finished r ≡ true
        → resume fnmatch path fuel stack ≡ r
        → resume fnmatch path (sizes fs + fuel) (pushed fs level offset stack)
          ≡ settle (opinions fnmatch path fs offset) r
    descend-opinions no_filters level offset fuel stack r h done e =
        let turns : 0 + fuel ≡ fuel = omega arith in ap (λ n. resume fnmatch path n stack) turns ∙ e
    descend-opinions (more f fs) level offset fuel stack r h done e =
        let turns : sizes fs + size f + fuel ≡ sizes fs + (size f + fuel) = omega arith in
        let r' = settle (opinion fnmatch path f offset) r in
        ap (λ n. resume fnmatch path n (pushed fs level offset (fresh level offset f ∷ stack)))
          turns
        ∙ descend-opinions fs level offset (size f + fuel) (fresh level offset f ∷ stack) r'
            (omega arith) (opinion-done f offset r done)
            (visit-opinion f level offset fuel stack r (omega arith) done e)
        ∙ sym (settle-or_else (opinions fnmatch path fs offset) (opinion fnmatch path f offset) r)

  -- Over any `fnmatch`, for a tree whose nodes and waiting siblings on one way down fit the stack, and
  -- with a turn for each of its nodes or more: filter_check comes to an end, denies a path with a
  -- reference to a parent directory, and answers any other with the opinion of the tree, read
  -- recursively, or denies where the tree has none.
  pub filter_check-opinion :
      (root : Filter) (more_fuel : ℕ)
      → suc (depth root) ≤ max_filter_depth
      → filter_check fnmatch (size root + more_fuel) root (some path) ≡ (
          if has_parent path
          then answer filter_deny
          else settle (opinion fnmatch path root 0) (answer filter_deny))
  unfolding filter_check stack_push_vars pop_processed walk
  filter_check-opinion root more_fuel h = elim (Bool-cases (has_parent path)) [
    | inl up ↦ rw (filter_check, up) refl
    | inr plain ↦
        rw (filter_check, plain)
          (visit-opinion root 0 0 more_fuel [] (answer filter_deny) (omega arith) refl refl)
  ]
