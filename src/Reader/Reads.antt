-- ===== src/Reader/Reads.antt =====
-- A call of `fd_fgets_r`, over any descriptor.
use mathlib.Core.List.{append-nil, append_assoc}
use mathlib.Core.Path.{subst}
use rhel_fapolicyd.Base.{
  ℕ, zero, suc, ◌+◌, ◌-◌, ◌≤◌, ◌≡◌, ◌⊎◌, inl, inr, refl, sym, ap, ◌∙◌, Bool, true, false, not, ◌&&◌,
  some, [], ◌∷◌, ◌++◌, ◌==◌, Bool-cases, Option-cases, arith, length, take, drop, length-take,
  length-append, Bytes,
}
use rhel_fapolicyd.Reader.{
  Reader, Answer, interrupted, failed, bytes, Outcome, find_newline, unread, avail, store_at,
  compact, give, read_loop, arrive, pull, fd_fgets_r,
}
use rhel_fapolicyd.Reader.Lines.{IsReader, Gives, give-Gives, length-unread}
use rhel_fapolicyd.Reader.Memory.{store_at-Stored, drop_within}

abbrev pub payload : Answer → Bytes
payload (bytes bs) = bs
payload _ = []

abbrev pub is_interrupted : Answer → Bool
is_interrupted interrupted = true
is_interrupted _ = false

pub Answer-cases :
    (a : Answer) → (a ≡ interrupted) ⊎ ((a ≡ failed) ⊎ ((bs : Bytes) × (a ≡ bytes bs)))
Answer-cases interrupted = inl refl
Answer-cases failed = inr (inl refl)
Answer-cases (bytes bs) = inr (inr (bs, refl))

-- The region with its unread bytes in front, and the reader that has them there.
pub record Compacted (st : Reader) : Type 0 where
  pub out : Reader
  pub result : compact st ≡ some out
  pub holds : IsReader out
  pub unchanged : unread out ≡ unread st
  pub eof : out.eof ≡ st.eof

compact-Compacted : (st : Reader) → IsReader st → Compacted st
unfolding compact
compact-Compacted st v = elim (Bool-cases ((st.current == st.eptr) && not (st.buffer == 0))) [
  | inr there ↦ record {
    out = st;
    result = rw (compact, there) refl;
    holds = v;
    unchanged = refl;
    eof = refl;
  }
  | inl full ↦
      let o = v.ordered in
      let b = v.bounded in
      let r = v.room in
      let size = length-unread st v in
      let s =
        store_at-Stored st.memory 0 (unread st) [] (omega (arith, length-append (unread st) [])) in
      let stored : store_at st.memory 0 (unread st) ≡ some s.out =
        ap (store_at st.memory 0) (sym (append-nil (unread st))) ∙ s.result in
      let front : avail st ≡ 0 + length (unread st) = omega (arith, size) in
      let z = store_at-Stored s.out (avail st) [] (0 ∷ []) (ground arith) in
      record {
        out = record st { memory = z.out; buffer = 0; current = avail st };
        result = rw (compact, full, stored, z.result) refl;
        holds = record {
          ordered = omega arith;
          bounded = omega arith;
          room = omega (arith, z.size, s.size);
        };
        unchanged = z.before ∙ ap (λ n. take n s.out) front ∙ s.through;
        eof = refl;
      }
]

-- The bytes that arrive are put behind the unread ones.
arrive-Gives :
    (st : Reader) (room : ℕ) (a : Answer)
    → IsReader st
    → length (payload a) ≤ st.eptr - st.current
    → Gives (unread st ++ payload a) room (is_interrupted a) (arrive st (suc room) a)
unfolding arrive
arrive-Gives st room interrupted v h = record {
  holds = v;
  parts = append-nil (unread st);
  short = omega arith;
  one_line = inl refl;
  sound = refl;
  ended = refl;
}
arrive-Gives st room failed v h = record {
  holds = v;
  parts = append-nil (unread st);
  short = omega arith;
  one_line = inl refl;
  sound = refl;
  ended = refl;
}
arrive-Gives st room (bytes []) v h = rw append-nil (
    give-Gives (record st { eof = true }) room
      (record { ordered = v.ordered; bounded = v.bounded; room = v.room }))
arrive-Gives st room (bytes (b ∷ bs)) v h =
    let xs = b ∷ bs in
    let o = v.ordered in
    let r = v.room in
    let c = v.bounded in
    let s =
      store_at-Stored st.memory st.current xs (0 ∷ []) (omega (arith, length-append xs (0 ∷ []))) in
    let st' : Reader = record st { memory = s.out; current = st.current + length xs } in
    let known : length (take st.current st.memory) ≡ st.current =
      length-take st.current st.memory ∙ ground arith in
    let whole : unread st' ≡ unread st ++ xs =
      ap (drop st.buffer) s.through
      ∙ drop_within st.buffer (take st.current st.memory) xs (omega arith) in
    let held : IsReader st' = record {
      ordered = omega arith;
      bounded = omega arith;
      room = omega (arith, s.size);
    } in
    let g = give-Gives st' room held in
    rw (arrive, s.result) (subst (λ ys. Gives ys room false (give st' (suc room))) whole g)

module _ {F : Type 0} (read : F → ℕ → Answer × F) where
  -- Calls of `read` that lead from one state of the descriptor to another, and all they gave.
  pub data Delivered : F → Bytes → F → Type 0 where
    stay : {f : F} → Delivered f [] f
    step :
        {f g : F} {ys : Bytes} (n : ℕ)
        → Delivered (read f n).1 ys g
        → Delivered f (payload (read f n).0 ++ ys) g

  pub Delivered-trans :
      {f g h : F} {xs ys : Bytes} → Delivered f xs g → Delivered g ys h → Delivered f (xs ++ ys) h
  Delivered-trans stay d = d
  Delivered-trans {f} {g} {h} {xs} {ys} (step {ys = zs} n c) d =
      subst (λ ws. Delivered f ws h) (sym (append_assoc (payload (read f n).0) zs ys))
        (step n (Delivered-trans c d))

  -- The loop over EINTR gives the bytes of its last call.
  read_loop-Delivered :
      (tries : ℕ) (f : F) (n : ℕ)
      → ((g : F) (m : ℕ) → length (payload (read g m).0) ≤ m)
      → Delivered f (payload (read_loop read tries f n).0) (read_loop read tries f n).1
        × (length (payload (read_loop read tries f n).0) ≤ n)
  unfolding read_loop
  read_loop-Delivered zero f n law = (stay, omega arith)
  read_loop-Delivered (suc tries) f n law =
      let (d, size) = read_loop-Delivered tries (read f n).1 n law in
      elim (Answer-cases (read f n).0) [
        | inl e ↦
            rw (read_loop, e)
              (
                subst
                    (λ a.
                      Delivered f (payload a ++ payload (read_loop read tries (read f n).1 n).0)
                        (read_loop read tries (read f n).1 n).1)
                    e (step n d),
                size,
              )
        | inr (inl e) ↦
            rw (read_loop, e)
              (subst (λ a. Delivered f (payload a ++ []) (read f n).1) e (step n stay), omega arith)
        | inr (inr (bs, e)) ↦
            rw (read_loop, e)
              (
                subst (λ ws. Delivered f ws (read f n).1) (append-nil bs)
                    (subst (λ a. Delivered f (payload a ++ []) (read f n).1) e (step n stay)),
                subst (λ a. length (payload a) ≤ n) e (law f n),
              )
      ]

  -- What a call does to the reader and to the descriptor.
  pub record Reads (tries : ℕ) (st : Reader) (room : ℕ) (f : F) (r : Outcome × Reader × F)
      : Type 0 where
    pub new : Bytes
    pub waits : Bool
    pub delivered : Delivered f new r.2
    pub gives : Gives (unread st ++ new) room waits (r.0, r.1)
    pub why : (waits ≡ false) ⊎ ((n : ℕ) × (waits ≡ is_interrupted (read_loop read tries f n).0))

  no_read :
      (tries : ℕ) (st : Reader) (room : ℕ) (f : F)
      → IsReader st
      → Reads tries st room f ((give st (suc room)).0, (give st (suc room)).1, f)
  no_read tries st room f v = record {
    new = [];
    waits = false;
    delivered = stay;
    gives =
        subst (λ ys. Gives ys room false (give st (suc room))) (sym (append-nil (unread st)))
          (give-Gives st room v);
    why = inl refl;
  }

  pull-Reads :
      (tries : ℕ) (st : Reader) (room : ℕ) (f : F)
      → ((g : F) (m : ℕ) → length (payload (read g m).0) ≤ m)
      → IsReader st
      → Reads tries st room f (pull read tries st (suc room) f)
  unfolding pull
  pull-Reads tries st room f law v = elim (Bool-cases (st.current == st.eptr)) [
    | inl full ↦ rw (pull, full) (no_read tries st room f v)
    | inr free ↦
        let n = st.eptr - st.current in
        let (d, size) = read_loop-Delivered tries f n law in
        let a = (read_loop read tries f n).0 in
        rw (pull, free)
          (record {
            new = payload a;
            waits = is_interrupted a;
            delivered = d;
            gives = arrive-Gives st room a v size;
            why = inr (n, refl);
          })
  ]

  -- Over any `read` that gives no more than it is asked for, on a region with a byte more than its
  -- size: a call returns at most one line of at most `room` bytes, from the front of the bytes that
  -- were unread and those that it read, keeps the others, and writes nothing outside the region.
  pub fd_fgets_r-Reads :
      (tries : ℕ) (st : Reader) (room : ℕ) (f : F)
      → ((g : F) (m : ℕ) → length (payload (read g m).0) ≤ m)
      → IsReader st
      → Reads tries st room f (fd_fgets_r read tries st (suc room) f)
  unfolding fd_fgets_r
  fd_fgets_r-Reads tries st room f law v = elim (Option-cases (find_newline (unread st))) [
    | inr (i, at) ↦ rw (fd_fgets_r, at) (no_read tries st room f v)
    | inl none_ ↦ elim (Bool-cases st.eof) [
      | inl ended ↦ simp (fd_fgets_r, none_, ended) (no_read tries st room f v)
      | inr open_ ↦
          let c = compact-Compacted st v in
          let p = pull-Reads tries c.out room f law c.holds in
          simp (fd_fgets_r, none_, open_, c.result)
            (record {
              new = p.new;
              waits = p.waits;
              delivered = p.delivered;
              gives =
                  subst
                    (λ ys. Gives (ys ++ p.new) room p.waits (
                      (pull read tries c.out (suc room) f).0,
                      (pull read tries c.out (suc room) f).1,
                    ))
                    c.unchanged p.gives;
              why = p.why;
            })
    ]
  ]
