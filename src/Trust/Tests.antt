-- ===== src/Trust/Tests.antt =====
-- Trust files on concrete entries.
use rhel_fapolicyd.Base.{
  has_newline, ℕ, zero, suc, ◌<◌, ◌≤◌, ◌==◌, length, ◌≡◌, refl, true, false, none, some, List, [],
  ◌∷◌, ◌++◌, replicate, Bytes, codes, streq, strneq, arith,
}
use rhel_fapolicyd.LList.Calls.{ListEntry, has_entry}
use rhel_fapolicyd.Strings.{skip_spaces}
use rhel_fapolicyd.Trust.{
  Grants, malformed, overrun, fields, parse_line_backwards, data_string, src_file_db, Loading,
  loaded, trust_file_load, fresh_load, load_line, is_skipped, file_hash_length, file_hash_alg,
  add_entry,
}
use rhel_fapolicyd.Trust.Additions.{Adds, trust_file_append-Adds}
use rhel_fapolicyd.Trust.Decimal.{strtol, decimal}
use rhel_fapolicyd.Trust.Edit.{Measure, prune, measure_all, make_data_string}
use rhel_fapolicyd.Trust.Edits.{Deletes, trust_file_delete_path-Deletes}
use rhel_fapolicyd.Trust.NoDuplicates.{Leaves, trust_file_load-Leaves, NoDup}
use rhel_fapolicyd.Trust.Line.{AllPlain}
use rhel_fapolicyd.Trust.RoundTrip.{ReadBack, write_out_list-ReadBack, ample, current}
use rhel_fapolicyd.Trust.Entries.{Writable, AllWritable}

abbrev zeros : Bytes
zeros = replicate 64 b'0'

abbrev item : Bytes → ListEntry
item path = (path, some (data_string src_file_db 5 zeros))

plain_zeros : (n : ℕ) → AllPlain (replicate n b'0')
plain_zeros zero = tt
plain_zeros (suc n) = (refl, plain_zeros n)

standing :
    (path : Bytes) (source : ℕ)
    → source < 10
    → length path ≤ 4096
    → is_skipped path ≡ false
    → has_newline path ≡ false
    → Writable (path, some (data_string source 5 zeros))
standing path source d short listed unbroken = record {
  size = 5;
  sha = zeros;
  source = source;
  payload = refl;
  one_digit = d;
  short = short;
  listed = listed;
  unbroken = unbroken;
  fits = omega arith;
  width = refl;
  plain = plain_zeros 64;
}

abbrev two : List ListEntry
two = item (codes "/a b") ∷ item (codes "/usr/x") ∷ []

two-AllWritable : AllWritable two
two-AllWritable = (
  standing (codes "/a b") 2 (omega arith) (omega arith) refl refl,
  (standing (codes "/usr/x") 2 (omega arith) (omega arith) refl refl, tt),
)

two-NoDup : NoDup two
unfolding has_entry streq
two-NoDup = (refl, (refl, tt))

write_out_list-ReadBack_example : ReadBack two two-AllWritable none
write_out_list-ReadBack_example = write_out_list-ReadBack two two-AllWritable none two-NoDup

abbrev back : ReadBack two two-AllWritable none
back = write_out_list-ReadBack two two-AllWritable none two-NoDup

reads_two : trust_file_load false ample (some back.file) [] [] ≡ loaded 0 (current back.seen two)
unfolding two-AllWritable standing
reads_two = back.reads

trust_file_delete_path-Deletes_example : Deletes back.file two (codes "/usr")
trust_file_delete_path-Deletes_example =
    trust_file_delete_path-Deletes back.file (codes "/usr") two back.seen reads_two two-AllWritable
      two-NoDup

abbrev measure : Measure
measure path = some (5, zeros)

abbrev added : List ListEntry
added = (codes "/a b", none) ∷ (codes "/new", none) ∷ []

added-NoDup : NoDup added
unfolding has_entry streq
added-NoDup = (refl, (refl, tt))

sum-AllWritable : AllWritable (two ++ measure_all measure (prune two added))
unfolding measure_all prune streq make_data_string
sum-AllWritable = (
  two-AllWritable.0,
  (two-AllWritable.1.0, (standing (codes "/new") 0 (omega arith) (omega arith) refl refl, tt)),
)

trust_file_append-Adds_example : Adds measure back.file two added sum-AllWritable
trust_file_append-Adds_example =
    trust_file_append-Adds measure back.file two added back.seen reads_two sum-AllWritable two-NoDup
      added-NoDup

trust_file_load-Leaves_example : Leaves (trust_file_load false ample (some (codes "/a 5 00")) [] [])
trust_file_load-Leaves_example = trust_file_load-Leaves false ample (some (codes "/a 5 00")) []

abbrev bad_text : Bytes
bad_text = codes "/usr/bin/ls 12"

bad_load : trust_file_load false ample (some bad_text) [] [] ≡ loaded 2 (fresh_load [] [])
unfolding trust_file_load load_line parse_line_backwards skip_spaces strneq
bad_load = refl

-- Memory for no entry of the second line.
abbrev scarce : ℕ → Grants
scarce line = record { index_ok = true; entry_ok = line == 1; copy_ok = true; item_ok = true }

abbrev text_of : Bytes
text_of = codes "/a 5 " ++ (zeros ++ (10 ∷ (codes "/b 5 " ++ (zeros ++ (10 ∷ [])))))

abbrev partial : Loading
partial = record {
  escaped = false;
  seen = codes "/a" ∷ [];
  list = item (codes "/a") ∷ [];
  memfd = [];
}

scarce_load : trust_file_load false scarce (some text_of) [] [] ≡ loaded 3 partial
unfolding trust_file_load load_line parse_line_backwards skip_spaces strneq strtol file_hash_length
    file_hash_alg data_string decimal add_entry streq
scarce_load = refl

standing_partial : AllWritable (partial.list ++ measure_all measure added)
unfolding measure_all make_data_string
standing_partial = (
  standing (codes "/a") 2 (omega arith) (omega arith) refl refl,
  (
    standing (codes "/a b") 0 (omega arith) (omega arith) refl refl,
    (standing (codes "/new") 0 (omega arith) (omega arith) refl refl, tt),
  ),
)

partial-NoDup : NoDup (partial.list ++ measure_all measure added)
unfolding has_entry streq measure_all
partial-NoDup = (refl, (refl, (refl, tt)))

abbrev partial_back :
    ReadBack (partial.list ++ measure_all measure added) standing_partial (some text_of)
partial_back =
    write_out_list-ReadBack (partial.list ++ measure_all measure added) standing_partial
      (some text_of) partial-NoDup

malformed_line : parse_line_backwards (codes "/usr/bin/ls 12") ≡ malformed
unfolding parse_line_backwards skip_spaces
malformed_line = refl

blanks : parse_line_backwards (codes "/a b 12 00  ") ≡ fields (codes "/a b") 12 (codes "00")
unfolding parse_line_backwards skip_spaces strtol
blanks = refl

-- A number of 1023 digits is copied into 1024 bytes with two bytes behind it.
number_overruns :
    parse_line_backwards (codes "/a " ++ (replicate 1023 b'1' ++ codes " 00")) ≡ overrun
unfolding parse_line_backwards skip_spaces
number_overruns = refl
