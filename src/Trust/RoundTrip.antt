-- ===== src/Trust/RoundTrip.antt =====
-- src/library/trust-file.c: a list that `write_out_list` has written is read back.
use mathlib.Core.List.{append_assoc, append-nil}
use rhel_fapolicyd.Base.{
  ℕ, ◌+◌, ◌≡◌, refl, sym, ap, ◌∙◌, true, false, inl, inr, Option, some, List, [], ◌∷◌, ◌++◌, leb,
  length, length-append, Bytes, streq, strneq, streq_iff, Bool-cases, arith,
}
use rhel_fapolicyd.LList.Calls.{ListEntry, has_entry}
use rhel_fapolicyd.Trust.{
  headers, file_hash_alg, file_hash_length, src_file_db, buffer_size, data_string, fields, Grants,
  Loading, next, find_str, keep_entry, add_entry, load_fields, load_line, is_skipped, loaded,
  load_lines_from, trust_file_load,
}
use rhel_fapolicyd.Trust.Decimal.{decimal, length-decimal}
use rhel_fapolicyd.Trust.Edit.{write_out_list}
use rhel_fapolicyd.Trust.Line.{parse_line_backwards-line_of}
use rhel_fapolicyd.Trust.NoDuplicates.{NoDup}
use rhel_fapolicyd.Trust.Text.{whole, buffers-whole}
use rhel_fapolicyd.Trust.Entries.{
  Writable, AllWritable, restored, lines, entry_line, data_string-digit, put_lines-lines,
  AllLines-lines, AllLines-headers,
}

-- Every allocation succeeds.
abbrev pub ample : ℕ → Grants
ample line = record { index_ok = true; entry_ok = true; copy_ok = true; item_ok = true }

abbrev pub current : List Bytes → List ListEntry → Loading
current seen list = record { escaped = false; seen = seen; list = list; memfd = [] }

load_headers :
    (ls : List Bytes)
    → load_lines_from false ample 1 (headers ++ ls) (current [] [])
      ≡ load_lines_from false ample 6 ls (current [] [])
unfolding load_lines_from load_line strneq
load_headers ls = refl

is_skipped-append : (c : ℕ) (s rest : Bytes) → is_skipped ((c ∷ s) ++ rest) ≡ is_skipped (c ∷ s)
is_skipped-append c s rest = refl

is_skipped_line : (path rest : Bytes) → is_skipped path ≡ false → is_skipped (path ++ rest) ≡ false
is_skipped_line [] rest h = absurd (cc)
is_skipped_line (c ∷ s) rest h = h

module _ (e : ListEntry) (w : Writable e) (seen : List Bytes) (list : List ListEntry)
    (unseen : find_str seen e.0 ≡ false) (line : ℕ) where
  abbrev kept : Loading
  kept = current (e.0 ∷ seen) (list ++ ((e.0, some (data_string src_file_db w.size w.sha)) ∷ []))

  load_fields-kept :
      load_fields false (ample line) (fields e.0 w.size w.sha) (current seen list) ≡ next kept
  unfolding load_fields file_hash_alg file_hash_length add_entry keep_entry
  load_fields-kept =
      let small : leb buffer_size (length (data_string src_file_db w.size w.sha)) ≡ false = ground (
        arith,
        ap length (data_string-digit src_file_db w.size w.sha (omega arith)),
        length-append (decimal w.size) (b' ' ∷ w.sha),
        length-decimal w.size,
        w.width,
      ) in
      rw (w.width, small, unseen) refl

  load_line-kept :
      load_line false (ample line) line (entry_line e w) (current seen list) ≡ next kept
  unfolding load_line
  load_line-kept =
      let listed =
        is_skipped_line e.0 (b' ' ∷ (decimal w.size ++ (b' ' ∷ (w.sha ++ (10 ∷ []))))) w.listed in
      let parsed =
        parse_line_backwards-line_of e.0 w.sha w.size w.short w.plain (omega (arith, w.width))
          (omega (arith, w.width)) w.fits in
      rw (listed, parsed) load_fields-kept

pub streq_refl : (a : Bytes) → streq a a ≡ true
streq_refl a = (streq_iff a a).1 refl

-- No path of the entries has been seen.
abbrev Unseen : List Bytes → List ListEntry → Type 0
Unseen seen es = (k : Bytes) → has_entry k es ≡ true → find_str seen k ≡ false

has_entry-head :
    (k : Bytes) (v : Option Bytes) (es : List ListEntry) → has_entry k ((k, v) ∷ es) ≡ true
unfolding has_entry
has_entry-head k v es = rw (streq_refl k) refl

has_entry-tail :
    (j k : Bytes) (v : Option Bytes) (es : List ListEntry)
    → has_entry k es ≡ true
    → has_entry k ((j, v) ∷ es) ≡ true
unfolding has_entry
has_entry-tail j k v es h = ground arith

Unseen-tail :
    (seen : List Bytes) (j : Bytes) (v : Option Bytes) (es : List ListEntry)
    → has_entry j es ≡ false
    → Unseen seen ((j, v) ∷ es)
    → Unseen (j ∷ seen) es
unfolding find_str
Unseen-tail seen j v es new u k h = elim (Bool-cases (streq j k)) [
  | inl same ↦
      let e : j ≡ k = (streq_iff j k).0 same in
      let clash : false ≡ true = sym new ∙ ap (λ i. has_entry i es) e ∙ h in absurd (cc)
  | inr other ↦ rw other (u k (has_entry-tail j k v es h))
]

-- What the reading of the lines of the entries gives.
record Reads (line : ℕ) (bs : List Bytes) (seen : List Bytes) (list more : List ListEntry)
    : Type 0 where
  seen_after : List Bytes
  runs :
      load_lines_from false ample line bs (current seen list)
      ≡ loaded 0 (current seen_after (list ++ more))

load_entries :
    (es : List ListEntry) (h : AllWritable es) (line : ℕ) (seen : List Bytes)
    (list : List ListEntry)
    → NoDup es
    → Unseen seen es
    → Reads line (lines es h) seen list (restored es h)
unfolding load_lines_from
load_entries [] h line seen list d u = record {
  seen_after = seen;
  runs = ap (λ xs. loaded 0 (current seen xs)) (sym (append-nil list));
}
load_entries (e ∷ es) h line seen list d u =
    let kept_entry : ListEntry = (e.0, some (data_string src_file_db h.0.size h.0.sha)) in
    let unseen = u e.0 (has_entry-head e.0 e.1 es) in
    let ih =
      load_entries es h.1 (line + 1) (e.0 ∷ seen) (list ++ (kept_entry ∷ [])) d.1
        (Unseen-tail seen e.0 e.1 es d.0 u) in
    record {
      seen_after = ih.seen_after;
      runs =
          rw (load_lines_from, load_line-kept e h.0 seen list unseen line)
            (ih.runs
              ∙ ap (λ xs. loaded 0 (current ih.seen_after xs))
                  (append_assoc list (kept_entry ∷ []) (restored es h.1)));
    }

-- A file that is written and read back.
pub record ReadBack (es : List ListEntry) (h : AllWritable es) (old : Option Bytes) : Type 0 where
  pub file : Bytes
  pub writes : write_out_list true es old ≡ some (0, some file)
  pub seen : List Bytes
  pub reads :
      trust_file_load false ample (some file) [] [] ≡ loaded 0 (current seen (restored es h))

-- A list of entries with no path twice is written, and the file is read back as the same paths in
-- the same order, each with its size and its digest, when memory suffices: for paths of at most 4096
-- bytes that have no newline and do not start like a comment, sizes below 2 ^ 63, digests of 64
-- bytes without white space, and payloads of one digit, the size and the digest.
pub write_out_list-ReadBack :
    (es : List ListEntry) (h : AllWritable es) (old : Option Bytes) → NoDup es → ReadBack es h old
unfolding write_out_list trust_file_load find_str
write_out_list-ReadBack es h old d =
    let ls = lines es h in
    let file = whole (headers ++ ls) in
    let r = load_entries es h 6 [] [] d (λ k _. refl) in
    record {
      file = file;
      writes = rw (put_lines-lines es h) refl;
      seen = r.seen_after;
      reads =
          ap (λ bs. load_lines_from false ample 1 bs (current [] []))
            (buffers-whole (headers ++ ls) (AllLines-headers ls (AllLines-lines es h)))
          ∙ load_headers ls
          ∙ r.runs;
    }
