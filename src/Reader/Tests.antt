-- ===== src/Reader/Tests.antt =====
-- A small region and a scripted descriptor, and the instances of the properties.
use rhel_fapolicyd.Base.{
  ℕ, suc, ◌≤◌, ◌≡◌, refl, true, false, some, List, [], ◌∷◌, ◌++◌, length, take, length-take, map,
  arith, Bytes,
}
use rhel_fapolicyd.Reader.{
  malloc, mmap_file, Reader, Answer, interrupted, failed, bytes, read_failed, overrun, unread,
  fd_fgets_state_init, fd_fgets_clear_r, fd_fgets_more_r, fd_setvbuf_r, compact, line_length,
  hand_back, give, read_loop, arrive, pull, fd_fgets_r,
}
use rhel_fapolicyd.Reader.Drain.{calls-drain}
use rhel_fapolicyd.Reader.Lines.{IsReader, safe, still_waits}
use rhel_fapolicyd.Reader.Reads.{payload, Delivered, Reads, fd_fgets_r-Reads}
use rhel_fapolicyd.Reader.RoundTrip.{calls, calls-Delivered, Settles, now, later, fd_fgets_r-ends}

program : Unit {0}
unfolding fd_fgets_state_init fd_fgets_clear_r fd_fgets_more_r fd_setvbuf_r compact line_length
    hand_back give read_loop arrive pull fd_fgets_r
program = tt

abbrev Script : Type 0
Script = List Answer

-- The answers in turn, none longer than what was asked for, and then the end of the file.
abbrev scripted : Script → ℕ → Answer × Script
scripted [] n = (bytes [], [])
scripted (interrupted ∷ s) n = (interrupted, s)
scripted (failed ∷ s) n = (failed, s)
scripted (bytes bs ∷ s) n = (bytes (take n bs), s)

scripted_law : (s : Script) (n : ℕ) → length (payload (scripted s n).0) ≤ n
scripted_law [] n = omega arith
scripted_law (interrupted ∷ s) n = omega arith
scripted_law (failed ∷ s) n = omega arith
scripted_law (bytes bs ∷ s) n = omega (arith, length-take n bs)

abbrev nine : Bytes
nine = 0 ∷ 0 ∷ 0 ∷ 0 ∷ 0 ∷ 0 ∷ 0 ∷ 0 ∷ 0 ∷ []

-- Room for eight bytes.
abbrev small : Reader
small = record {
  memory = nine;
  buffer = 0;
  current = 0;
  eptr = 8;
  eof = false;
  mem_type = malloc;
  buff_size = 8;
}

small-IsReader : IsReader small
small-IsReader = record { ordered = omega arith; bounded = omega arith; room = omega arith }

-- "ab\ncd", after an interruption, in two parts.
abbrev script : Script
script = interrupted ∷ bytes (97 ∷ 98 ∷ []) ∷ bytes (10 ∷ 99 ∷ 100 ∷ []) ∷ []

first_calls : (calls scripted 3 (5 ∷ 5 ∷ 5 ∷ []) small script).0 ≡ 97 ∷ 98 ∷ 10 ∷ 99 ∷ 100 ∷ []
unfolding program
first_calls = refl

-- A region handed over with its exact size is written one byte behind its end.
exact_region :
    (fd_fgets_r scripted 1 (record small { memory = nine; eptr = 9 }) 20 (bytes (nine) ∷ [])).0
    ≡ overrun
unfolding program
exact_region = refl

-- The last line of a mapped file, without a newline: the region is written to and the descriptor read.
mapped_tail :
    (fd_fgets_r scripted 1
      (record small {
        memory = 97 ∷ 10 ∷ 98 ∷ [];
        buffer = 2;
        current = 3;
        eptr = 3;
        mem_type = mmap_file;
      })
      20
      (bytes (99 ∷ []) ∷ [])).2
    ≡ []
unfolding program
mapped_tail = refl

-- `fd_fgets_more_r` says that there is enough, and the call reads all the same.
more_reads :
    (fd_fgets_more_r (record small { current = 3 }) 3 ≡ some true)
    × ((fd_fgets_r scripted 1 (record small { current = 3 }) 3 (failed ∷ [])).0 ≡ read_failed)
unfolding program
more_reads = (refl, refl)

fd_fgets_r-Reads_example : Reads scripted 3 small 5 script (fd_fgets_r scripted 3 small 6 script)
fd_fgets_r-Reads_example = fd_fgets_r-Reads scripted 3 small 5 script scripted_law small-IsReader

calls-Delivered_example :
    (new : Bytes) × Delivered scripted script new (calls scripted 3 (5 ∷ 5 ∷ []) small script).2
    × ((calls scripted 3 (5 ∷ 5 ∷ []) small script).0
          ++ unread (calls scripted 3 (5 ∷ 5 ∷ []) small script).1
        ≡ unread small ++ new)
calls-Delivered_example =
    calls-Delivered scripted 3 (5 ∷ 5 ∷ []) small script scripted_law small-IsReader

script-Settles : (n : ℕ) → Settles scripted n 2 script
script-Settles n = later (now refl)

fd_fgets_r-ends_example :
    (still_waits (fd_fgets_r scripted 2 small 6 script).0 ≡ false)
    × (safe (fd_fgets_r scripted 2 small 6 script).0 ≡ true)
fd_fgets_r-ends_example =
    fd_fgets_r-ends scripted 2 small 5 script scripted_law small-IsReader script-Settles

-- "a\nb" at the end of the file.
abbrev ended : Reader
ended = record {
  memory = 97 ∷ 10 ∷ 98 ∷ 0 ∷ 0 ∷ 0 ∷ 0 ∷ 0 ∷ 0 ∷ [];
  buffer = 0;
  current = 3;
  eptr = 8;
  eof = true;
  mem_type = malloc;
  buff_size = 8;
}

ended-IsReader : IsReader ended
ended-IsReader = record { ordered = omega arith; bounded = omega arith; room = omega arith }

calls-drain_example :
    ((calls scripted 1 (map suc (4 ∷ 4 ∷ 4 ∷ [])) ended script).0 ≡ unread ended)
    × (unread (calls scripted 1 (map suc (4 ∷ 4 ∷ 4 ∷ [])) ended script).1 ≡ [])
    × ((calls scripted 1 (map suc (4 ∷ 4 ∷ 4 ∷ [])) ended script).2 ≡ script)
calls-drain_example =
    calls-drain scripted 1 (4 ∷ 4 ∷ 4 ∷ []) ended script ended-IsReader refl (omega arith)
