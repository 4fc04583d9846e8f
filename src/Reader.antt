-- ===== src/Reader.antt =====
-- src/library/fd-fgets.c: lines read from a descriptor through a buffer. The buffer is a region of
-- memory, `buffer`, `current` and `eptr` are offsets into it (`orig` is 0), and a write outside the
-- region is an outcome. The kernel's `read` is a parameter over the descriptor's state.
pub mod Memory
pub mod Reads
pub mod RoundTrip
mod Tests
pub mod Drain
pub mod Lines
use rhel_fapolicyd.Base.{
  ℕ, zero, suc, ◌+◌, ◌-◌, ◌*◌, Bool, true, false, not, ◌&&◌, Option, none, some, List, [], ◌∷◌,
  ◌++◌, ltb, leb, ◌==◌, if◌then◌else◌, length, take, drop, replicate, Bytes,
}

pub data FdMem : Type 0 where
  self_managed malloc mmap mmap_file : FdMem

abbrev pub is_mapped : FdMem → Bool
is_mapped mmap_file = true
is_mapped _ = false

pub record Reader : Type 0 where
  pub memory : Bytes
  pub buffer : ℕ
  pub current : ℕ
  pub eptr : ℕ
  pub eof : Bool
  pub mem_type : FdMem
  pub buff_size : ℕ

-- What one call of `read` answers: EINTR, another error, or bytes, none of them at the end.
pub data Answer : Type 0 where
  interrupted failed : Answer
  bytes : Bytes → Answer

-- What a call of `fd_fgets_r` comes to. `waiting` stands for a call whose `read` is interrupted more
-- often than the model follows it, `aborted` for the failed assertion.
pub data Outcome : Type 0 where
  returned : Bytes → Outcome
  not_yet read_failed waiting aborted overrun : Outcome

abbrev buf_size : ℕ
buf_size = 8_192

abbrev pub newline_byte : ℕ
newline_byte = 10

-- `memchr(s, '\n', n)` on the bytes in question: the index of the first.
abbrev pub find_newline : Bytes → Option ℕ
find_newline [] = none
find_newline (b ∷ bs) =
    if b == newline_byte
    then some 0
    else elim (find_newline bs) [ none ↦ none | some i ↦ some (suc i) ]

-- Bytes written from an offset on, in the region or not at all.
abbrev pub store_at : Bytes → ℕ → Bytes → Option Bytes
store_at m off bs =
    if leb (off + length bs) (length m)
    then some (take off m ++ bs ++ drop (off + length bs) m)
    else none

-- The bytes from `buffer` to `current`.
abbrev pub unread : Reader → Bytes
unread st = drop st.buffer (take st.current st.memory)

abbrev pub avail : Reader → ℕ
avail st = st.current - st.buffer

-- `internal` is this list, of 2 * BUF_SIZE + 1 bytes.
unfoldable pub fd_fgets_state_init : Bytes → Reader
fd_fgets_state_init internal = record {
  memory = internal;
  buffer = 0;
  current = 0;
  eptr = 2 * buf_size;
  eof = false;
  mem_type = self_managed;
  buff_size = 2 * buf_size;
}

unfoldable pub fd_fgets_clear_r : Reader → Option Reader
fd_fgets_clear_r st =
    if is_mapped st.mem_type
    then some (record st { buffer = 0; current = st.eptr; eof = false })
    else elim (store_at st.memory 0 (0 ∷ [])) [
      | none ↦ none
      | some m ↦ some (record st { memory = m; buffer = 0; current = 0; eof = false })
    ]

-- `none` is the failed assertion.
unfoldable pub fd_fgets_more_r : Reader → ℕ → Option Bool
fd_fgets_more_r st zero = none
fd_fgets_more_r st (suc room) = elim (find_newline (unread st)) [
  | some i ↦ some true
  | none ↦ some (leb room (avail st))
]

-- `buf` is the region handed over, and `none` the result 1.
unfoldable pub fd_setvbuf_r : Reader → Option Bytes → ℕ → FdMem → Option Reader
fd_setvbuf_r st none buff_size how = none
fd_setvbuf_r st (some buf) zero how = none
fd_setvbuf_r st (some buf) (suc n) how = some (record {
  memory = buf;
  buffer = 0;
  current = if is_mapped how then suc n else 0;
  eptr = suc n;
  eof = false;
  mem_type = how;
  buff_size = suc n;
})

-- The move of the unread bytes to the start of the region.
unfoldable pub compact : Reader → Option Reader
compact st =
    if (st.current == st.eptr) && not (st.buffer == 0)
    then (elim (store_at st.memory 0 (unread st)) [
      | none ↦ none
      | some moved ↦ elim (store_at moved (avail st) (0 ∷ [])) [
        | none ↦ none
        | some m ↦ some (record st { memory = m; buffer = 0; current = avail st })
      ]
    ])
    else some st

-- The number of bytes to hand back.
unfoldable pub line_length : Reader → ℕ → ℕ
line_length st blen = elim (find_newline (unread st)) [
  | some i ↦ if ltb (blen - 1) (i + 1) then blen - 1 else i + 1
  | none ↦ if ltb (avail st) (blen - 1) then avail st else blen - 1
]

-- Steps 4 and 5: the copy, and the pointers behind it.
unfoldable pub hand_back : Reader → ℕ → Outcome × Reader
unfolding line_length
hand_back st blen =
    let n = line_length st blen in
    let front = st.buffer + n in
    let rest = front + (avail st - n) in
    if is_mapped st.mem_type
    then (
      returned (take n (unread st)),
      record st {
        buffer = front;
        current = rest;
        eof = if ltb front st.eptr then st.eof else true;
      },
    )
    else elim (store_at st.memory rest (0 ∷ [])) [
      | none ↦ (overrun, st)
      | some m ↦
          (returned (take n (unread st)), record st { memory = m; buffer = front; current = rest })
    ]

-- Step 3: with no line, no end, and room for more, the call comes back later.
unfoldable pub give : Reader → ℕ → Outcome × Reader
unfolding hand_back
give st blen = elim (find_newline (unread st)) [
  | some i ↦ hand_back st blen
  | none ↦
      if not st.eof && ltb (avail st) (blen - 1) && not (st.current == st.eptr)
      then (not_yet, st)
      else hand_back st blen
]

-- The bytes that arrived, and what the call makes of them.
unfoldable pub arrive : Reader → ℕ → Answer → Outcome × Reader
unfolding give
arrive st blen interrupted = (waiting, st)
arrive st blen failed = (read_failed, st)
arrive st blen (bytes []) = give (record st { eof = true }) blen
arrive st blen (bytes (b ∷ bs)) = elim (store_at st.memory st.current ((b ∷ bs) ++ 0 ∷ [])) [
  | none ↦ (overrun, st)
  | some m ↦ give (record st { memory = m; current = st.current + length (b ∷ bs) }) blen
]

-- Where the bytes come from.
module _ {F : Type 0} (read : F → ℕ → Answer × F) where
  -- The loop over EINTR, followed that often.
  unfoldable pub read_loop : ℕ → F → ℕ → Answer × F
  read_loop zero f n = (interrupted, f)
  read_loop (suc tries) f n =
      let rest = read_loop tries (read f n).1 n in
      elim (read f n).0 [
        | interrupted ↦ rest
        | failed ↦ (failed, (read f n).1)
        | bytes bs ↦ (bytes bs, (read f n).1)
      ]

  -- Step 2, behind the move.
  unfoldable pub pull : ℕ → Reader → ℕ → F → Outcome × Reader × F
  unfolding read_loop arrive give
  pull tries st blen f =
      if st.current == st.eptr
      then ((give st blen).0, (give st blen).1, f)
      else let r = read_loop tries f (st.eptr - st.current) in
        ((arrive st blen r.0).0, (arrive st blen r.0).1, r.1)

  unfoldable pub fd_fgets_r : ℕ → Reader → ℕ → F → Outcome × Reader × F
  unfolding pull compact give
  fd_fgets_r tries st zero f = (aborted, st, f)
  fd_fgets_r tries st (suc room) f = elim (find_newline (unread st)) [
    | some i ↦ ((give st (suc room)).0, (give st (suc room)).1, f)
    | none ↦
        if st.eof
        then ((give st (suc room)).0, (give st (suc room)).1, f)
        else elim (compact st) [ none ↦ (overrun, st, f) | some st1 ↦ pull tries st1 (suc room) f ]
  ]
