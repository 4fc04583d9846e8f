-- ===== src/Trust/Remains.antt =====
-- src/library/trust-file.c: the entries that `trust_file_delete_path` leaves of a list, in order and
-- with their data.
use rhel_fapolicyd.Base.{
  ℕ, ◌≡◌, refl, ◌∙◌, false, inl, inr, Option, some, List, [], ◌∷◌, length, Bytes, strneq,
  Bool-cases, IsPrefix, strneq→IsPrefix, IsPrefix→strneq,
}
use rhel_fapolicyd.LList.Calls.{ListEntry}
use rhel_fapolicyd.Trust.{data_string, src_file_db}
use rhel_fapolicyd.Trust.Edit.{delete_entries}
use rhel_fapolicyd.Trust.Entries.{AllWritable, restored}

-- What is left of a list without the entries whose paths begin with `path`: the others in their order,
-- each payload related to what it was.
pub data Remains (path : Bytes) (Kept : Option Bytes → Option Bytes → Type 0)
    : List ListEntry → List ListEntry → Type 0 where
  nothing : Remains path Kept [] []
  gone :
      {k : Bytes} {v : Option Bytes} {es ls : List ListEntry}
      → IsPrefix path k
      → Remains path Kept es ls
      → Remains path Kept ((k, v) ∷ es) ls
  stays :
      {k : Bytes} {v v' : Option Bytes} {es ls : List ListEntry}
      → (IsPrefix path k → ⊥)
      → Kept v v'
      → Remains path Kept es ls
      → Remains path Kept ((k, v) ∷ es) ((k, v') ∷ ls)

-- Payloads with the same size and digest; the source may change.
pub record SameData (v v' : Option Bytes) : Type 0 where
  pub source : ℕ
  pub source' : ℕ
  pub size : ℕ
  pub sha : Bytes
  pub old : v ≡ some (data_string source size sha)
  pub new : v' ≡ some (data_string source' size sha)

abbrev pub Same : Option Bytes → Option Bytes → Type 0
Same v v' = v ≡ v'

pub outside→clear : (path k : Bytes) → strneq k path (length path) ≡ false → IsPrefix path k → ⊥
outside→clear path k h p = let same = IsPrefix→strneq k path p in absurd (cc)

pub delete_entries-Remains :
    (path : Bytes) (es : List ListEntry) → Remains path Same es (delete_entries path es).1
unfolding delete_entries
delete_entries-Remains path [] = nothing
delete_entries-Remains path ((index, v) ∷ es) =
    let later = delete_entries-Remains path es in
    elim (Bool-cases (strneq index path (length path))) [
      | inl m ↦ rw m (gone (strneq→IsPrefix index path m) later)
      | inr m ↦ rw m (stays (outside→clear path index m) refl later)
    ]

-- Entries that can stand in a file have their data, also as a load gives them.
pub Remains-writable :
    (path : Bytes) (es ls : List ListEntry)
    → Remains path Same es ls
    → AllWritable ls
    → Remains path SameData es ls
Remains-writable path es ls nothing w = nothing
Remains-writable path _ ls (gone p r) w = gone p (Remains-writable path _ ls r w)
Remains-writable path _ _ (stays o e r) (w, ws) =
    stays o
      (record {
        source = w.source;
        source' = w.source;
        size = w.size;
        sha = w.sha;
        old = e ∙ w.payload;
        new = w.payload;
      })
      (Remains-writable path _ _ r ws)

pub Remains-restored :
    (path : Bytes) (es ls : List ListEntry)
    → Remains path Same es ls
    → (w : AllWritable ls) → Remains path SameData es (restored ls w)
Remains-restored path es ls nothing w = nothing
Remains-restored path _ ls (gone p r) w = gone p (Remains-restored path _ ls r w)
Remains-restored path _ _ (stays o e r) (w, ws) =
    stays o
      (record {
        source = w.source;
        source' = src_file_db;
        size = w.size;
        sha = w.sha;
        old = e ∙ w.payload;
        new = refl;
      })
      (Remains-restored path _ _ r ws)
