-- ===== src/Filter/Loader/Frames.antt =====
-- The loader's stack: each frame's level is its height.
use rhel_fapolicyd.Base.{
  ℕ, zero, suc, ◌+◌, ◌-◌, ◌≤◌, ◌<◌, ◌≡◌, refl, sym, ap, ◌∙◌, true, false, some, List, [], ◌∷◌, ltb,
  leb, ◌==◌, inl, inr, Bool-cases, arith, length, Bytes,
}
use rhel_fapolicyd.Filter.{FilterType, Filter, Filters, no_filters, more, max_filter_depth}
use rhel_fapolicyd.Filter.Loader.{
  Frame, close, pop_frames, push_frame, next, put_below, place, finish,
}

abbrev pub Leveled : List Frame → Type 0
Leveled [] = Unit
Leveled (f ∷ st) = (f.level ≡ length st) × Leveled st

-- A node put into the list of the frame on top.
abbrev pub put : Filter → List Frame → List Frame
put f [] = []
put f (top ∷ st) = record top { list = more f top.list } ∷ st

abbrev pub put_all : Filters → List Frame → List Frame
put_all no_filters st = st
put_all (more f fs) st = put f (put_all fs st)

-- That many frames popped.
abbrev pub collapse : ℕ → List Frame → List Frame
collapse zero st = st
collapse (suc n) [] = []
collapse (suc n) (f ∷ st) = collapse n (put (close f) st)

length-put : (f : Filter) (st : List Frame) → length (put f st) ≡ length st
length-put f [] = refl
length-put f (top ∷ st) = refl

put-Leveled : (f : Filter) (st : List Frame) → Leveled st → Leveled (put f st)
put-Leveled f [] v = tt
put-Leveled f (top ∷ st) v = v

pub length-collapse :
    (n : ℕ) (st : List Frame) → n ≤ length st → length (collapse n st) ≡ length st - n
length-collapse zero st h = omega arith
length-collapse (suc n) [] h = elim h [ ]
length-collapse (suc n) (f ∷ st) h =
    let size = length-put (close f) st in
    length-collapse n (put (close f) st) (omega (arith, size)) ∙ omega (arith, size)

pub collapse-Leveled : (n : ℕ) (st : List Frame) → Leveled st → Leveled (collapse n st)
collapse-Leveled zero st v = v
collapse-Leveled (suc n) [] v = tt
collapse-Leveled (suc n) (f ∷ st) (at, v) =
    collapse-Leveled n (put (close f) st) (put-Leveled (close f) st v)

collapse_empty : (n : ℕ) → collapse n [] ≡ []
collapse_empty zero = refl
collapse_empty (suc n) = refl

pub collapse-collapse :
    (n m : ℕ) (st : List Frame) → collapse m (collapse n st) ≡ collapse (n + m) st
collapse-collapse zero m st = ap (λ k. collapse k st) {x = m} (omega arith)
collapse-collapse (suc n) m [] = collapse_empty m ∙ sym (collapse_empty (suc n + m))
collapse-collapse (suc n) m (f ∷ st) =
    collapse-collapse n m (put (close f) st)
    ∙ ap (λ k. collapse k (f ∷ st)) {x = suc (n + m)} (omega arith)

pop_frames-collapse :
    (n : ℕ) (st : List Frame) → n < length st → pop_frames n st ≡ some (collapse n st)
unfolding pop_frames
pop_frames-collapse zero st h = refl
pop_frames-collapse (suc n) [] h = elim h [ ]
pop_frames-collapse (suc n) (f ∷ []) h = ground arith
pop_frames-collapse (suc n) (f ∷ g ∷ st) h =
    pop_frames-collapse n (put (close f) (g ∷ st)) (omega arith)

pub finish-collapse : (n : ℕ) (st : List Frame) → n < length st → finish st ≡ finish (collapse n st)
unfolding finish
finish-collapse zero st h = refl
finish-collapse (suc n) [] h = elim h [ ]
finish-collapse (suc n) (f ∷ []) h = ground arith
finish-collapse (suc n) (f ∷ g ∷ st) h = finish-collapse n (put (close f) (g ∷ st)) (omega arith)

abbrev pub opened : ℕ → FilterType → Bytes → Filters → Frame
opened level type path fs = record { level = level; type = type; path = some path; list = fs }

put_below-ok :
    (pops level : ℕ) (type : FilterType) (path : Bytes) (st : List Frame)
    → pops < length st
    → length st - pops < max_filter_depth
    → put_below pops level type path st
      ≡ next (opened level type path no_filters ∷ collapse pops st)
unfolding put_below push_frame
put_below-ok pops level type path st h room =
    let size = length-collapse pops st (omega arith) in
    let free : leb max_filter_depth (length (collapse pops st)) ≡ false = ground arith in
    rw (put_below, pop_frames-collapse pops st h, push_frame, free) refl

-- A line at a level that the stack reaches is put where its level says.
pub place-ok :
    (level : ℕ) (type : FilterType) (path : Bytes) (st : List Frame)
    → Leveled st
    → 1 ≤ level
    → level ≤ length st
    → level < max_filter_depth
    → place level type path st
      ≡ next (opened level type path no_filters ∷ collapse (length st - level) st)
unfolding place
place-ok level type path [] v one reach room = ground arith
place-ok level type path (top ∷ st) (at, v) one reach room =
    elim (Bool-cases (level == top.level)) [
      | inl same ↦
          let pops : 1 ≡ length (top ∷ st) - level = ground arith in
          rw (place, same)
            (put_below-ok 1 level type path (top ∷ st) (ground arith) (ground arith)
              ∙ ap (λ n. next (opened level type path no_filters ∷ collapse n (top ∷ st))) pops)
      | inr other ↦ elim (Bool-cases (level == top.level + 1)) [
        | inl deeper ↦
            let pops : 0 ≡ length (top ∷ st) - level = ground arith in
            rw (place, other, deeper)
              (put_below-ok 0 level type path (top ∷ st) (ground arith) (ground arith)
                ∙ ap (λ n. next (opened level type path no_filters ∷ collapse n (top ∷ st))) pops)
        | inr not_deeper ↦
            let pops : top.level - level + 1 ≡ length (top ∷ st) - level = ground arith in
            let less : ltb level top.level ≡ true = ground arith in
            rw (place, other, not_deeper, less)
              (put_below-ok (top.level - level + 1) level type path (top ∷ st) (ground arith)
                  (ground arith)
                ∙ ap (λ n. next (opened level type path no_filters ∷ collapse n (top ∷ st))) pops)
      ]
    ]
