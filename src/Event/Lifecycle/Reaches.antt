-- ===== src/Event/Lifecycle/Reaches.antt =====
-- The records of a process that the events and the rules lead to.
use rhel_fapolicyd.Base.{
  ℕ, ◌≡◌, inl, inr, Bool, true, false, not, ◌&&◌, Option, none, some, Bytes, ℤ, Bool-cases,
  Option-cases,
}
use rhel_fapolicyd.Event.Lifecycle.{Asked, review, first_seen, collect_path}
use rhel_fapolicyd.Process.{collecting, state_eq, before_full, ProcInfo}
use rhel_fapolicyd.Rules.Pattern.{subj_pattern_test}
use rhel_fapolicyd.Event.Lifecycle.Fullness.{
  is_full, not_full_early, not_full_start, review-full, subj_pattern_test_decides,
}

-- A process is seen first in the state COLLECTING; then its record is reviewed by an event that keeps it,
-- collects a path, or is tested by a rule, in any order.
pub data Reaches (environ : ℤ → ℤ) (linker : Bytes) : ProcInfo → Type 0 where
  first :
      (info : ProcInfo) (a : Asked)
      → state_eq info.state collecting ≡ true
      → Reaches environ linker (first_seen a info)
  reviewed :
      (info : ProcInfo) (a : Asked)
      → Reaches environ linker info
      → (review linker a info).evict ≡ false
      → Reaches environ linker (record info { state = (review linker a info).state })
  collected :
      (info : ProcInfo) (skip_path : Bool) (file : Option Bytes) (gathered : ℕ)
      → Reaches environ linker info
      → Reaches environ linker (collect_path skip_path file gathered info).0
  tested :
      (info : ProcInfo) (uval : ℕ) (exec_perm : Bool)
      → Reaches environ linker info
      → Reaches environ linker (subj_pattern_test environ linker uval exec_perm info).0

-- A record that is full has both of its paths.
abbrev pub BothPaths : ProcInfo → Type 0
BothPaths info = ((p : Bytes) × (info.path1 ≡ some p)) × ((p : Bytes) × (info.path2 ≡ some p))

abbrev IsPathed : ProcInfo → Type 0
IsPathed info = is_full info.state ≡ true → BothPaths info

and_right : (a b : Bool) → (a && b) ≡ true → b ≡ true
and_right true b h = h
and_right false b h = cc

collect_path-IsPathed :
    (skip_path : Bool) (file : Option Bytes) (gathered : ℕ) (info : ProcInfo)
    → IsPathed info
    → IsPathed (collect_path skip_path file gathered info).0
unfolding collect_path
collect_path-IsPathed skip_path none gathered info v = v
collect_path-IsPathed skip_path (some file) gathered info v =
    elim (Bool-cases (not skip_path && before_full info.state)) [
      | inr other ↦ rw other v
      | inl early ↦ elim (Option-cases info.path1) [
        | inl none1 ↦
            rw (early, none1) (λ h. absurd (not_full_early info.state (and_right _ _ early) h))
        | inr (p, some1) ↦ elim (Option-cases info.path2) [
          | inl none2 ↦ rw (early, some1, none2) (λ h. cc)
          | inr (q, some2) ↦ rw (early, some1, some2) (λ h. ((p, some1), (q, some2)))
        ]
      ]
    ]

first_seen-IsPathed :
    (a : Asked) (info : ProcInfo)
    → state_eq info.state collecting ≡ true
    → IsPathed (first_seen a info)
unfolding first_seen
first_seen-IsPathed a info start = elim (Bool-cases a.open_perm) [
  | inl opened ↦ rw opened (λ h. cc)
  | inr executed ↦ rw executed (λ h. absurd (not_full_start info.state start h))
]

review-IsPathed :
    (linker : Bytes) (a : Asked) (info : ProcInfo)
    → IsPathed info
    → IsPathed (record info { state = (review linker a info).state })
review-IsPathed linker a info v h = v (review-full linker a info h)

Reaches-IsPathed :
    (environ : ℤ → ℤ) (linker : Bytes) (info : ProcInfo)
    → Reaches environ linker info
    → IsPathed info
Reaches-IsPathed environ linker _ (first info a start) = first_seen-IsPathed a info start
Reaches-IsPathed environ linker _ (reviewed info a r keeps) =
    review-IsPathed linker a info (Reaches-IsPathed environ linker info r)
Reaches-IsPathed environ linker _ (collected info skip_path file gathered r) =
    collect_path-IsPathed skip_path file gathered info (Reaches-IsPathed environ linker info r)
Reaches-IsPathed environ linker _ (tested info uval exec_perm r) =
    λ h. absurd (subj_pattern_test_decides environ linker uval exec_perm info h)

-- However a process is reviewed, its paths collected and its pattern tested, in whatever order: when
-- its record is full, the time at which its pattern is decided, both of its paths are known.
pub Reaches-BothPaths :
    (environ : ℤ → ℤ) (linker : Bytes) (info : ProcInfo)
    → Reaches environ linker info
    → is_full info.state ≡ true
    → BothPaths info
Reaches-BothPaths environ linker info r h = Reaches-IsPathed environ linker info r h
