-- ===== src/Reader/Lines.antt =====
-- The part of the unread bytes that a call hands back.
use rhel_fapolicyd.Base.{
  ℕ, zero, suc, ◌+◌, ◌-◌, ◌≤◌, ◌<◌, ◌≡◌, ◌⊎◌, inl, inr, refl, sym, ap, ◌∙◌, Bool, true, false, not,
  ◌&&◌, none, some, [], ◌∷◌, ◌++◌, ltb, ◌==◌, Bool-cases, Option-cases, arith, length, take, drop,
  length-take, length-drop, take-append-drop, Bytes,
}
use rhel_fapolicyd.Reader.{
  Reader, Outcome, returned, not_yet, waiting, aborted, overrun, is_mapped, newline_byte,
  find_newline, unread, avail, line_length, hand_back, give,
}
use rhel_fapolicyd.Reader.Memory.{store_at-Stored, drop-drop}

-- The pointers are in order, and the region has a byte more than `eptr` says, for the final NUL.
pub record IsReader (st : Reader) : Type 0 where
  pub ordered : st.buffer ≤ st.current
  pub bounded : st.current ≤ st.eptr
  pub room : st.eptr < length st.memory

-- The bytes that a call returns.
abbrev pub given : Outcome → Bytes
given (returned bs) = bs
given _ = []

-- Neither a failed assertion nor a write outside the region.
abbrev pub safe : Outcome → Bool
safe aborted = false
safe overrun = false
safe _ = true

abbrev pub still_waits : Outcome → Bool
still_waits waiting = true
still_waits _ = false

-- At most one line: no newline but at the end.
abbrev pub OneLine : Bytes → Type 0
OneLine bs = (find_newline bs ≡ none) ⊎ ((i : ℕ) × (find_newline bs ≡ some i) × (length bs ≡ suc i))

pub length-unread : (st : Reader) → IsReader st → length (unread st) ≡ avail st
length-unread st v =
    let a = length-drop st.buffer (take st.current st.memory) in
    let b = length-take st.current st.memory in
    let c = v.bounded in let d = v.room in a ∙ ap (λ n. n - st.buffer) (b ∙ ground arith)

find_newline_bound : (bs : Bytes) (i : ℕ) → find_newline bs ≡ some i → i < length bs
find_newline_bound [] i h = cc
find_newline_bound (b ∷ bs) i h = elim (Bool-cases (b == newline_byte)) [
  | inl here ↦ ground arith
  | inr there ↦ elim (Option-cases (find_newline bs)) [
    | inl none_ ↦ ground arith
    | inr (j, at) ↦ let ih = find_newline_bound bs j at in ground arith
  ]
]

find_newline-take : (n : ℕ) (bs : Bytes) → find_newline bs ≡ none → find_newline (take n bs) ≡ none
find_newline-take zero bs h = refl
find_newline-take (suc n) [] h = refl
find_newline-take (suc n) (b ∷ bs) h = elim (Bool-cases (b == newline_byte)) [
  | inl here ↦ ground arith
  | inr there ↦ elim (Option-cases (find_newline bs)) [
    | inl none_ ↦ rw (there, find_newline-take n bs none_) refl
    | inr (j, at) ↦ ground arith
  ]
]

take-OneLine :
    (n : ℕ) (bs : Bytes) → ((i : ℕ) → find_newline bs ≡ some i → n ≤ suc i) → OneLine (take n bs)
take-OneLine zero bs h = inl refl
take-OneLine (suc n) [] h = inl refl
take-OneLine (suc n) (b ∷ bs) h = elim (Bool-cases (b == newline_byte)) [
  | inl here ↦
      let short : suc n ≤ 1 = h 0 (rw here refl) in
      inr (0, rw here refl, length-take (suc n) (b ∷ bs) ∙ omega arith)
  | inr there ↦
      let behind : (i : ℕ) → find_newline bs ≡ some i → n ≤ suc i =
        λ i at. let s = h (suc i) (rw (there, at) refl) in omega arith in
      elim (take-OneLine n bs behind) [
        | inl none_ ↦ inl (rw (there, none_) refl)
        | inr (i, at, size) ↦ inr (suc i, rw (there, at) refl, ap suc size)
      ]
]

pub line_length_bound :
    (st : Reader) (room : ℕ)
    → IsReader st
    → (line_length st (suc room) ≤ avail st)
      × (line_length st (suc room) ≤ room)
      × ((i : ℕ) → find_newline (unread st) ≡ some i → line_length st (suc room) ≤ suc i)
unfolding line_length
line_length_bound st room v = elim (Option-cases (find_newline (unread st))) [
  | inl none_ ↦ rw none_ (ground arith, ground arith, λ i at. cc)
  | inr (i, at) ↦
      let inside = find_newline_bound (unread st) i at in
      let size = length-unread st v in
      rw at (ground arith, ground arith, λ j same. let e : j ≡ i = cc in ground arith)
]

-- What a call hands back of the bytes that were there before, and whether it waits.
pub record Gives (before : Bytes) (room : ℕ) (waits : Bool) (r : Outcome × Reader) : Type 0 where
  pub holds : IsReader r.1
  pub parts : before ≡ given r.0 ++ unread r.1
  pub short : length (given r.0) ≤ room
  pub one_line : OneLine (given r.0)
  pub sound : safe r.0 ≡ true
  pub ended : still_waits r.0 ≡ waits

-- The bytes behind a line, when those before `current` are the same.
advance :
    (st : Reader) (n : ℕ) (m : Bytes)
    → m ≡ take st.current st.memory
    → unread st ≡ take n (unread st) ++ drop (st.buffer + n) m
advance st n m same =
    let rest : drop (st.buffer + n) m ≡ drop n (unread st) =
      ap (drop (st.buffer + n)) same ∙ sym (drop-drop st.buffer n (take st.current st.memory)) in
    sym (take-append-drop n (unread st)) ∙ ap (λ xs. take n (unread st) ++ xs) (sym rest)

hand_back-Gives :
    (st : Reader) (room : ℕ) → IsReader st → Gives (unread st) room false (hand_back st (suc room))
unfolding hand_back
hand_back-Gives st room v =
    let n = line_length st (suc room) in
    let (inside, short, line) = line_length_bound st room v in
    let o = v.ordered in
    let b = v.bounded in
    let same : st.buffer + n + (avail st - n) ≡ st.current = omega arith in
    let size : length (take n (unread st)) ≡ n =
      length-take n (unread st) ∙ omega (arith, length-unread st v) in
    let s =
      store_at-Stored st.memory (st.buffer + n + (avail st - n)) [] (0 ∷ [])
        (omega (arith, v.room)) in
    elim (Bool-cases (is_mapped st.mem_type)) [
      | inl mapped ↦ rw mapped (record {
        holds = record { ordered = omega arith; bounded = omega arith; room = v.room };
        parts = advance st n _ (ap (λ k. take k st.memory) same);
        short = omega (arith, size);
        one_line = take-OneLine n (unread st) line;
        sound = refl;
        ended = refl;
      })
      | inr plain ↦
          rw (plain, s.result)
            (record {
              holds = record {
                ordered = omega arith;
                bounded = omega arith;
                room = omega (arith, s.size, v.room);
              };
              parts = advance st n _ (s.before ∙ ap (λ k. take k st.memory) same);
              short = omega (arith, size);
              one_line = take-OneLine n (unread st) line;
              sound = refl;
              ended = refl;
            })
    ]

not_yet-Gives : (st : Reader) (room : ℕ) → IsReader st → Gives (unread st) room false (not_yet, st)
not_yet-Gives st room v = record {
  holds = v;
  parts = refl;
  short = omega arith;
  one_line = inl refl;
  sound = refl;
  ended = refl;
}

pub give-Gives :
    (st : Reader) (room : ℕ) → IsReader st → Gives (unread st) room false (give st (suc room))
unfolding give
give-Gives st room v = elim (Option-cases (find_newline (unread st))) [
  | inr (i, at) ↦ rw (give, at) (hand_back-Gives st room v)
  | inl none_ ↦
      rw (give, none_)
        (elim (Bool-cases
          (not st.eof && ltb (avail st) (suc room - 1) && not (st.current == st.eptr))) [
            | inl later ↦ rw later (not_yet-Gives st room v)
            | inr now ↦ rw now (hand_back-Gives st room v)
          ])
]
