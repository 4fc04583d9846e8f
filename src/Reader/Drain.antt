-- ===== src/Reader/Drain.antt =====
-- Calls of `fd_fgets_r` behind the end of the file.
use mathlib.Core.Path.{subst}
use rhel_fapolicyd.Base.{
  ℕ, suc, ◌+◌, ◌-◌, ◌≤◌, ◌≡◌, ◌⊎◌, inl, inr, refl, sym, ap, ◌∙◌, true, List, [], ◌∷◌, ◌++◌,
  Bool-cases, Option-cases, arith, map, length, take, length-take, length-append, Bytes,
}
use rhel_fapolicyd.Reader.{
  Reader, Answer, is_mapped, find_newline, unread, avail, line_length, hand_back, give, fd_fgets_r,
}
use rhel_fapolicyd.Reader.Lines.{IsReader, given, give-Gives, length-unread, line_length_bound}
use rhel_fapolicyd.Reader.Memory.{store_at-Stored}
use rhel_fapolicyd.Reader.RoundTrip.{calls}

line_length-positive : (st : Reader) (room : ℕ) → 1 ≤ avail st → 1 ≤ line_length st (suc (suc room))
unfolding line_length
line_length-positive st room h = elim (Option-cases (find_newline (unread st))) [
  | inl none_ ↦ rw (line_length, none_) (ground arith)
  | inr (i, at) ↦ rw (line_length, at) (ground arith)
]

hand_back-given :
    (st : Reader) (room : ℕ)
    → IsReader st
    → st.eof ≡ true
    → (given (hand_back st (suc room)).0 ≡ take (line_length st (suc room)) (unread st))
      × ((hand_back st (suc room)).1.eof ≡ true)
unfolding hand_back
hand_back-given st room v e =
    let n = line_length st (suc room) in
    let (inside, short, line) = line_length_bound st room v in
    let o = v.ordered in
    let b = v.bounded in
    let s =
      store_at-Stored st.memory (st.buffer + n + (avail st - n)) [] (0 ∷ [])
        (omega (arith, v.room)) in
    elim (Bool-cases (is_mapped st.mem_type)) [
      | inl mapped ↦ rw (hand_back, mapped) (refl, ground arith)
      | inr plain ↦ rw (hand_back, plain, s.result) (refl, e)
    ]

-- The rest of the file is handed out without a look at the descriptor.
pub at_end :
    {F : Type 0} (read : F → ℕ → Answer × F) (tries : ℕ) (st : Reader) (room : ℕ) (f : F)
    → st.eof ≡ true
    → fd_fgets_r read tries st (suc room) f ≡ ((give st (suc room)).0, (give st (suc room)).1, f)
unfolding fd_fgets_r
at_end read tries st room f e = elim (Option-cases (find_newline (unread st))) [
  | inl none_ ↦ simp (fd_fgets_r, none_, e) refl
  | inr (i, at) ↦ rw (fd_fgets_r, at) refl
]

give-end : (st : Reader) (room : ℕ) → st.eof ≡ true → give st (suc room) ≡ hand_back st (suc room)
unfolding give
give-end st room e = elim (Option-cases (find_newline (unread st))) [
  | inl none_ ↦ simp (give, none_, e) refl
  | inr (i, at) ↦ rw (give, at) refl
]

length_zero : (xs : Bytes) → length xs ≤ 0 → xs ≡ []
length_zero [] h = refl
length_zero (x ∷ xs) h = elim h [ ]

give-shrinks :
    (st : Reader) (size : ℕ)
    → IsReader st
    → st.eof ≡ true
    → ((give st (suc (suc size))).1.eof ≡ true)
      × (length (unread (give st (suc (suc size))).1) ≤ length (unread st) - 1)
give-shrinks st size v e =
    let room = suc size in
    let g = give-Gives st room v in
    let back = give-end st room e in
    let (line, ended) = hand_back-given st room v e in
    let total =
      ap length g.parts
      ∙ length-append (given (give st (suc room)).0) (unread (give st (suc room)).1) in
    let taken =
      ap length (ap (λ r. given r.0) back ∙ line)
      ∙ length-take (line_length st (suc room)) (unread st) in
    let full = length-unread st v in
    let some_ = line_length-positive st size in
    let enough : (avail st ≡ 0) ⊎ (1 ≤ avail st) = ground arith in
    (
      ap (λ r. r.1.eof) back ∙ ended,
      elim enough [
        | inl nothing ↦ omega (arith, total, full, nothing)
        | inr left ↦ omega (arith, total, taken, full, left, some_ left)
      ],
    )

-- Behind the end of the file, on a region with a byte more than its size: as many calls as there are
-- unread bytes, or more, each with room for at least one, return exactly these bytes, leave none, and
-- do not read.
pub calls-drain :
    {F : Type 0} (read : F → ℕ → Answer × F) (tries : ℕ) (sizes : List ℕ) (st : Reader) (f : F)
    → IsReader st
    → st.eof ≡ true
    → length (unread st) ≤ length sizes
    → ((calls read tries (map suc sizes) st f).0 ≡ unread st)
      × (unread (calls read tries (map suc sizes) st f).1 ≡ [])
      × ((calls read tries (map suc sizes) st f).2 ≡ f)
calls-drain read tries [] st f v e h =
    let none_ = length_zero (unread st) (omega arith) in (sym none_, none_, refl)
calls-drain read tries (size ∷ sizes) st f v e h =
    let r = give st (suc (suc size)) in
    let g = give-Gives st (suc size) v in
    let (ended, fewer) = give-shrinks st size v e in
    let (all, none_, same) =
      calls-drain read tries sizes r.1 f g.holds ended (omega (arith, fewer)) in
    subst
      (λ x.
        (given x.0 ++ (calls read tries (map suc sizes) x.1 x.2).0 ≡ unread st)
        × (unread (calls read tries (map suc sizes) x.1 x.2).1 ≡ [])
        × ((calls read tries (map suc sizes) x.1 x.2).2 ≡ f))
      (sym (at_end read tries st (suc size) f e))
      (ap (λ xs. given r.0 ++ xs) all ∙ sym g.parts, none_, same)
