-- ===== src/Trust.antt =====
-- src/library/trust-file.c: the files of trusted paths. This module has the formats, the parsing of
-- a line from its end, the loading of a file and the writing of one. The list of entries is shown by
-- its items (LList has the list itself). A file is its bytes; none is NUL.
pub mod Additions
pub mod Decimal
pub mod Edit
pub mod Edits
pub mod Entries
pub mod Failures
pub mod All
pub mod Line
pub mod NoDuplicates
mod Remains
pub mod RoundTrip
pub mod Text
mod Tests
use mathlib.Core.List.{reverse}
use mathlib.Core.Option
use rhel_fapolicyd.Base.{
  ℕ, zero, suc, ◌+◌, ◌-◌, ◌*◌, ◌^◌, Bool, true, false, not, ◌&&◌, ◌||◌, Option, none, some, List,
  [], ◌∷◌, ◌++◌, ltb, leb, ◌==◌, if◌then◌else◌, length, take, drop, get_or, Bytes, codes, streq,
  strneq,
}
use rhel_fapolicyd.Escape.{unescape}
use rhel_fapolicyd.LList.Calls.{ListEntry}
pub use rhel_fapolicyd.Process.{HashAlg, alg_none, alg_md5, alg_sha1, alg_sha256, alg_sha512}
use rhel_fapolicyd.Strings.{isspace, skip_spaces}
use rhel_fapolicyd.Trust.Decimal.{decimal, strtol}

unfoldable pub file_hash_length : HashAlg → ℕ
file_hash_length alg_none = 0
file_hash_length alg_md5 = 16
file_hash_length alg_sha1 = 20
file_hash_length alg_sha256 = 32
file_hash_length alg_sha512 = 64

unfoldable pub file_hash_alg : ℕ → HashAlg
file_hash_alg len =
    if len == 64
    then alg_sha256
    else if len == 128
    then alg_sha512
    else if len == 32
    then alg_md5
    else if len == 40
    then alg_sha1
    else alg_none

abbrev pub is_sha256 : HashAlg → Bool
is_sha256 alg_sha256 = true
is_sha256 _ = false

-- `FILE_DIGEST_STRING_MAX`
abbrev pub digest_string_max : ℕ
digest_string_max = 136

-- `BUFFER_SIZE`
abbrev pub buffer_size : ℕ
buffer_size = 4246

-- `SRC_FILE_DB`
abbrev pub src_file_db : ℕ
src_file_db = 2

abbrev pub header_old : Bytes
header_old = codes "# AUTOGENERATED FILE VERSION 2" ++ (10 ∷ [])

abbrev pub header0 : Bytes
header0 = codes "# AUTOGENERATED FILE VERSION 3" ++ (10 ∷ [])

abbrev pub header1 : Bytes
header1 = codes "# This file contains a list of trusted files" ++ (10 ∷ [])

abbrev pub header2 : Bytes
header2 = b'#' ∷ 10 ∷ []

abbrev pub header3 : Bytes
header3 = codes "#  FULL PATH        SIZE                             SHA256" ++ (10 ∷ [])

abbrev pub header4 : Bytes
header4 =
    codes
      "# /home/user/my-ls 157984 61a9960bf7d255a85811f4afcac51067b8f2e4c75e21cf4f2af95319d4ed1b87"
    ++ (10 ∷ [])

abbrev pub headers : List Bytes
headers = header0 ∷ header1 ∷ header2 ∷ header3 ∷ header4 ∷ []

-- `DATA_FORMAT`, "%u %zu %s"
unfoldable pub data_string : ℕ → ℕ → Bytes → Bytes
data_string source size sha = decimal source ++ (b' ' ∷ decimal size ++ (b' ' ∷ sha))

-- The bytes before the first delimiter and those behind it.
unfoldable pub cut_delim : Bytes → Option (Bytes × Bytes)
cut_delim [] = none
cut_delim (c ∷ cs) =
    let further = Option.map (λ (p : Bytes × Bytes). (c ∷ p.0, p.1)) (cut_delim cs) in
    if c == b' ' then some ([], cs) else further

-- What the parser of a line comes to: an error, a number that overruns `number[1024]`, or the three
-- parts.
pub data Fields : Type 0 where
  malformed overrun : Fields
  fields : Bytes → ℕ → Bytes → Fields

-- The copies to `sha`, `number` and `path`, with their bounds.
unfoldable pub copy_fields : Bytes → Bytes → Bytes → Fields
copy_fields path number sha =
    if ltb 1024 (length number + 2)
    then overrun
    else fields (take 4096 path) (strtol number) (take (digest_string_max - 1) sha)

-- The first delimiter from the end has the digest behind it, reversed here; the second has the
-- number.
abbrev pub cut_number : Bytes → Option (Bytes × Bytes) → Fields
cut_number sha none = malformed
cut_number sha (some (number, path)) = copy_fields (reverse path) (reverse number) (reverse sha)

abbrev pub cut_sha : Option (Bytes × Bytes) → Fields
cut_sha none = malformed
cut_sha (some (sha, before)) = cut_number sha (cut_delim before)

-- The line is read from its end, where white space is stripped first.
unfoldable pub parse_line_backwards : Bytes → Fields
unfolding copy_fields cut_delim
parse_line_backwards line = cut_sha (cut_delim (skip_spaces (reverse line)))

-- Which allocations succeed while a line is read.
pub record Grants : Type 0 where
  pub index_ok : Bool
  pub entry_ok : Bool
  pub copy_ok : Bool
  pub item_ok : Bool

pub record Loading : Type 0 where
  pub escaped : Bool
  pub seen : List Bytes
  pub list : List ListEntry
  pub memfd : Bytes

pub data Step : Type 0 where
  next : Loading → Step
  out : ℕ → Loading → Step
  smashed : Step

-- `HASH_FIND_STR(seen, index, entry)`
unfoldable pub find_str : List Bytes → Bytes → Bool
find_str [] index = false
find_str (s ∷ ss) index = if streq s index then true else find_str ss index

-- The entry goes to the memfd or to the list.
unfoldable pub keep_entry : Bool → Grants → Bytes → Bytes → Loading → Loading
keep_entry to_memfd mem index payload st =
    if to_memfd
    then record st {
      seen = index ∷ st.seen;
      memfd = st.memfd ++ (index ++ (b' ' ∷ payload ++ (10 ∷ [])));
    }
    else if mem.copy_ok && mem.item_ok
    then record st { seen = index ∷ st.seen; list = st.list ++ ((index, some payload) ∷ []) }
    else st

-- From the search for duplicates on.
unfoldable pub add_entry : Bool → Grants → Bytes → Option Bytes → Loading → Step
unfolding keep_entry find_str
add_entry to_memfd mem payload none st = next st
add_entry to_memfd mem payload (some index) st =
    if find_str st.seen index
    then next st
    else if not mem.entry_ok
    then out 3 st
    else next (keep_entry to_memfd mem index payload st)

-- `escaped ? unescape(name) : strdup(name)`
abbrev pub index_of : Bool → Bool → Bytes → Option Bytes
index_of escaped ok name = if escaped then unescape name ok else if ok then some name else none

-- A line that has been parsed: its digest, its size in the buffer, its path.
unfoldable pub load_fields : Bool → Grants → Fields → Loading → Step
load_fields to_memfd mem malformed st = out 2 st
load_fields to_memfd mem overrun st = smashed
load_fields to_memfd mem (fields name sz sha) st =
    let expected_len = file_hash_length (file_hash_alg (length sha)) * 2 in
    let payload = data_string src_file_db sz sha in
    if expected_len == 0 || not (length sha == expected_len)
    then out 2 st
    else if not (is_sha256 (file_hash_alg (length sha)))
    then out 2 st
    else if leb buffer_size (length payload)
    then next st
    else add_entry to_memfd mem payload (index_of st.escaped mem.index_ok name) st

-- `iscntrl(buffer[0]) || buffer[0] == '#'`
abbrev pub is_skipped : Bytes → Bool
is_skipped buffer = let c = get_or buffer 0 0 in ltb c 32 || (c == 127 || c == b'#')

unfoldable pub load_line : Bool → Grants → ℕ → Bytes → Loading → Step
unfolding parse_line_backwards load_fields
load_line to_memfd mem line buffer st =
    if is_skipped buffer
    then next (record st {
      escaped = st.escaped || line == 1 && strneq buffer header_old (length header_old);
    })
    else load_fields to_memfd mem (parse_line_backwards buffer) st

-- `fgets` into a buffer that takes `n` bytes: what it reads, and what is left.
unfoldable pub fgets : ℕ → Bytes → Bytes × Bytes
fgets zero s = ([], s)
fgets (suc n) [] = ([], [])
fgets (suc n) (c ∷ s) =
    let rest = fgets n s in if c == 10 then (c ∷ [], s) else (c ∷ rest.0, rest.1)

-- What the calls of `fgets` read of a file in turn; the fuel is the size of the file.
unfoldable pub buffers : ℕ → Bytes → List Bytes
unfolding fgets
buffers fuel [] = []
buffers zero (c ∷ s) = []
buffers (suc fuel) (c ∷ s) = let r = fgets (buffer_size - 1) (c ∷ s) in r.0 ∷ buffers fuel r.1

-- What a load comes to; `wrecked` is the overrun of the buffer of a number.
pub data LoadResult : Type 0 where
  loaded : ℕ → Loading → LoadResult
  wrecked : LoadResult

-- `line` is the number of the line, and `mem` tells the allocations of each.
unfoldable pub load_lines_from : Bool → (ℕ → Grants) → ℕ → List Bytes → Loading → LoadResult
load_lines_from to_memfd mem line [] st = loaded 0 st
load_lines_from to_memfd mem line (b ∷ bs) st = elim (load_line to_memfd (mem line) line b st) [
  | next st' ↦ load_lines_from to_memfd mem (line + 1) bs st'
  | out rc st' ↦ loaded rc st'
  | smashed ↦ wrecked
]

-- Nothing read yet, before a list and a memfd that hold something already.
abbrev pub fresh_load : List ListEntry → Bytes → Loading
fresh_load list memfd = record { escaped = false; seen = []; list = list; memfd = memfd }

-- `none` for a file that cannot be opened.
unfoldable pub trust_file_load :
    Bool → (ℕ → Grants) → Option Bytes → List ListEntry → Bytes → LoadResult
unfolding load_lines_from buffers
trust_file_load to_memfd mem none list memfd = loaded 1 (fresh_load list memfd)
trust_file_load to_memfd mem (some text) list memfd =
    load_lines_from to_memfd mem 1 (buffers (length text) text) (fresh_load list memfd)
