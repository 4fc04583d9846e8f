-- ===== src/Rules/Directories.antt =====
-- src/library/rules.c: what `check_dirs` finds.
use mathlib.Core.List.{Memᴰ}
use mathlib.Core.List.Memᴰ
use rhel_fapolicyd.Base.{
  ℕ, ◌≡◌, refl, ap, ◌∙◌, sym, ◌↔◌, inl, inr, true, List, [], ◌∷◌, Bool-cases, if◌then◌else◌, drop,
  Bytes, strneq, length, IsPrefix, strneq→IsPrefix, IsPrefix→strneq,
}
use rhel_fapolicyd.Rules.{dirs, any_dir, check_dirs}

-- One of the directories is a prefix of the path.
abbrev pub Below : List Bytes → Bytes → Type 0
Below ds path = (d : Bytes) × Memᴰ d ds × IsPrefix d path

any_dir-Below : (ds : List Bytes) (path : Bytes) → any_dir ds path ≡ true → Below ds path
unfolding any_dir
any_dir-Below [] path h = cc
any_dir-Below (d ∷ ds) path h = elim (Bool-cases (strneq path d (length d))) [
  | inl hit ↦ (d, Memᴰ.head refl, strneq→IsPrefix path d hit)
  | inr miss ↦
      let (d', at, p) =
        any_dir-Below ds path (sym (ap (λ b. if b then true else any_dir ds path) miss) ∙ h) in
      (d', Memᴰ.tail at, p)
]

Below-any_dir : (ds : List Bytes) (path : Bytes) → Below ds path → any_dir ds path ≡ true
unfolding any_dir
Below-any_dir [] path (d, at, p) = absurd (Memᴰ.not-nil at)
Below-any_dir (d ∷ ds) path (d', Memᴰ.head same, p) =
    rw (ap (λ x. strneq path x (length x)) (sym same) ∙ IsPrefix→strneq path d' p) refl
Below-any_dir (d ∷ ds) path (d', Memᴰ.tail at, p) = elim (Bool-cases (strneq path d (length d))) [
  | inl hit ↦ rw hit refl
  | inr miss ↦ rw miss (Below-any_dir ds path (d', at, p))
]

-- `check_dirs` from an index on answers 1 exactly for the paths that begin with one of the system
-- directories of the table from that index on.
pub check_dirs_iff : (i : ℕ) (path : Bytes) → (check_dirs i path ≡ true) ↔ Below (drop i dirs) path
unfolding check_dirs
check_dirs_iff i path = (any_dir-Below (drop i dirs) path, Below-any_dir (drop i dirs) path)
