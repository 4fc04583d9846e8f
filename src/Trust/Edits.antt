-- ===== src/Trust/Edits.antt =====
-- src/library/trust-file.c: what a deletion leaves in a file, and the edits after a load that fails.
use mathlib.Core.Path.{subst}
use rhel_fapolicyd.Base.{
  ℕ, suc, ◌+◌, ◌≡◌, ◌↔◌, refl, sym, ap, ◌∙◌, true, false, inl, inr, Option, some, List, [], ◌∷◌,
  ◌==◌, length, Bytes, streq, strneq, streq_iff, Bool-cases, IsPrefix, strneq→IsPrefix, pos, arith,
}
use rhel_fapolicyd.LList.Calls.{ListEntry, has_entry}
use rhel_fapolicyd.Trust.{loaded, trust_file_load}
use rhel_fapolicyd.Trust.Edit.{
  answer, write_out_list, delete_entries, write_if_changed, trust_file_delete_path,
}
use rhel_fapolicyd.Trust.NoDuplicates.{NoDup}
use rhel_fapolicyd.Trust.RoundTrip.{ample, current, write_out_list-ReadBack}
use rhel_fapolicyd.Trust.Entries.{AllWritable, restored}
use rhel_fapolicyd.Trust.Remains.{
  Remains, SameData, Same, outside→clear, delete_entries-Remains, Remains-writable,
  Remains-restored,
}

restored_again :
    (es : List ListEntry) (h : AllWritable es) (k : Bytes)
    → has_entry k (restored es h) ≡ has_entry k es
unfolding has_entry
restored_again [] h k = refl
restored_again (e ∷ es) h k = rw (restored_again es h.1 k) refl

length-restored : (es : List ListEntry) (h : AllWritable es) → length (restored es h) ≡ length es
length-restored [] h = refl
length-restored (e ∷ es) h = ap suc (length-restored es h.1)

-- What the loop of the deletion leaves of a list.
record Left (path : Bytes) (es : List ListEntry) (r : ℕ × List ListEntry) : Type 0 where
  counted : r.0 + length r.1 ≡ length es
  writable : AllWritable es → AllWritable r.1
  nodup : NoDup es → NoDup r.1
  kept :
      (k : Bytes)
      → has_entry k r.1 ≡ true
      → (has_entry k es ≡ true) × (strneq k path (length path) ≡ false)
  keeps :
      (k : Bytes)
      → has_entry k es ≡ true
      → strneq k path (length path) ≡ false
      → has_entry k r.1 ≡ true
  untouched : r.0 ≡ 0 → r.1 ≡ es

subset_absent :
    (k : Bytes) (es : List ListEntry) (r : List ListEntry)
    → (has_entry k r ≡ true → has_entry k es ≡ true)
    → has_entry k es ≡ false
    → has_entry k r ≡ false
subset_absent k es r f h = elim (Bool-cases (has_entry k r)) [
  | inl yes' ↦ let clash = f yes' in absurd (cc)
  | inr no' ↦ no'
]

module _ (path index : Bytes) (v : Option Bytes) (es : List ListEntry) (r : ℕ × List ListEntry)
    (l : Left path es r) where
  match_case : strneq index path (length path) ≡ true → Left path ((index, v) ∷ es) (r.0 + 1, r.1)
  unfolding has_entry
  match_case m = record {
    counted = omega (arith, l.counted);
    writable = λ h. l.writable h.1;
    nodup = λ d. l.nodup d.1;
    kept = λ k h. let (old, outside) = l.kept k h in (ground arith, outside);
    keeps = λ k h outside. elim (Bool-cases (streq k index)) [
      | inl same ↦
          let e : k ≡ index = (streq_iff k index).0 same in
          let clash : false ≡ true = sym outside ∙ ap (λ i. strneq i path (length path)) e ∙ m in
          absurd (cc)
      | inr other ↦ l.keeps k (ground arith) outside
    ];
    untouched = λ z. absurd (omega arith);
  }

  other_case :
      strneq index path (length path) ≡ false → Left path ((index, v) ∷ es) (r.0, (index, v) ∷ r.1)
  unfolding has_entry
  other_case m = record {
    counted = omega (arith, l.counted);
    writable = λ h. (h.0, l.writable h.1);
    nodup = λ d. (subset_absent index es r.1 (λ h. (l.kept index h).0) d.0, l.nodup d.1);
    kept = λ k h. elim (Bool-cases (streq k index)) [
      | inl same ↦
          (rw same refl, ap (λ i. strneq i path (length path)) ((streq_iff k index).0 same) ∙ m)
      | inr other ↦ let (old, outside) = l.kept k (ground arith) in (ground arith, outside)
    ];
    keeps = λ k h outside. elim (Bool-cases (streq k index)) [
      | inl same ↦ rw same refl
      | inr other ↦ rw other (l.keeps k (ground arith) outside)
    ];
    untouched = λ z. ap (λ xs. (index, v) ∷ xs) (l.untouched z);
  }

delete_entries-Left : (path : Bytes) (es : List ListEntry) → Left path es (delete_entries path es)
unfolding delete_entries has_entry
delete_entries-Left path [] = record {
  counted = refl;
  writable = λ h. tt;
  nodup = λ d. tt;
  kept = λ k h. absurd (cc);
  keeps = λ k h outside. h;
  untouched = λ z. refl;
}
delete_entries-Left path ((index, v) ∷ es) =
    let ih = delete_entries-Left path es in
    elim (Bool-cases (strneq index path (length path))) [
      | inl m ↦ rw m (match_case path index v es (delete_entries path es) ih m)
      | inr m ↦ rw m (other_case path index v es (delete_entries path es) ih m)
    ]

-- What a deletion promises of a file that holds the entries.
pub record Deletes (file : Bytes) (es : List ListEntry) (path : Bytes) : Type 0 where
  pub count : ℕ
  pub after : Bytes
  pub left : List ListEntry
  pub seen : List Bytes
  pub runs :
      trust_file_delete_path ample true (some file) path
      ≡ some (record { rc = pos count; file = some after })
  pub reads : trust_file_load false ample (some after) [] [] ≡ loaded 0 (current seen left)
  pub counted : count + length left ≡ length es
  pub remains : Remains path SameData es left
  pub exact :
      (k : Bytes) → (has_entry k left ≡ true) ↔ ((has_entry k es ≡ true) × (IsPrefix path k → ⊥))

clear→outside : (path k : Bytes) → (IsPrefix path k → ⊥) → strneq k path (length path) ≡ false
clear→outside path k h = elim (Bool-cases (strneq k path (length path))) [
  | inl same ↦ absurd (h (strneq→IsPrefix k path same))
  | inr other ↦ other
]

module _ (path : Bytes) (es left : List ListEntry) (r : ℕ × List ListEntry) (l : Left path es r)
    (same : (k : Bytes) → has_entry k left ≡ has_entry k r.1) where
  left_exact :
      (k : Bytes) → (has_entry k left ≡ true) ↔ ((has_entry k es ≡ true) × (IsPrefix path k → ⊥))
  left_exact k = (
    λ h. let (old, outside) = l.kept k (sym (same k) ∙ h) in (old, outside→clear path k outside),
    λ h. same k ∙ l.keeps k h.0 (clear→outside path k h.1),
  )

write_if_changed-zero :
    (file : Option Bytes) (r : ℕ × List ListEntry)
    → r.0 ≡ 0
    → write_if_changed true file r ≡ some (record { rc = pos 0; file = file })
write_if_changed-zero file r h = rw h refl

write_if_changed-some :
    (file : Option Bytes) (r : ℕ × List ListEntry)
    → (r.0 == 0) ≡ false
    → write_if_changed true file r ≡ answer (pos r.0) (write_out_list true r.1 file)
write_if_changed-some file r h = rw h refl

module _ (file path : Bytes) (es : List ListEntry) (seen : List Bytes)
    (reads : trust_file_load false ample (some file) [] [] ≡ loaded 0 (current seen es)) where
  deletes :
      trust_file_delete_path ample true (some file) path
      ≡ write_if_changed true (some file) (delete_entries path es)
  unfolding trust_file_delete_path
  deletes = rw reads refl

  -- A deletion in a file that reads, with no path in the escaped form, as a list of entries that can stand in a file and have no path
  -- twice, when memory suffices and the file can be written: the file then reads as exactly the
  -- entries whose paths do not begin with the given path, in their order and with their sizes and
  -- digests, and the answer is the number of the others.
  pub trust_file_delete_path-Deletes : AllWritable es → NoDup es → Deletes file es path
  trust_file_delete_path-Deletes h d =
      let r = delete_entries path es in
      let l = delete_entries-Left path es in
      elim (Bool-cases (r.0 == 0)) [
        | inl e ↦
            let none_out : r.0 ≡ 0 = ground arith in
            record {
              count = 0;
              after = file;
              left = es;
              seen = seen;
              runs = deletes ∙ write_if_changed-zero (some file) r none_out;
              reads = reads;
              counted = omega arith;
              remains =
                  Remains-writable path es es
                    (subst (Remains path Same es) (l.untouched none_out)
                      (delete_entries-Remains path es))
                    h;
              exact =
                  left_exact path es es r l (λ k. ap (has_entry k) (sym (l.untouched none_out)));
            }
        | inr e ↦
            let w = l.writable h in
            let back = write_out_list-ReadBack r.1 w (some file) (l.nodup d) in
            record {
              count = r.0;
              after = back.file;
              left = restored r.1 w;
              seen = back.seen;
              runs =
                  deletes
                  ∙ write_if_changed-some (some file) r e
                  ∙ ap (answer (pos r.0)) back.writes;
              reads = back.reads;
              counted = omega (arith, l.counted, length-restored r.1 w);
              remains = Remains-restored path es r.1 (delete_entries-Remains path es) w;
              exact = left_exact path es (restored r.1 w) r l (restored_again r.1 w);
            }
      ]
