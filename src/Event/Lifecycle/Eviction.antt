-- ===== src/Event/Lifecycle/Eviction.antt =====
-- When a cached subject is kept.
use rhel_fapolicyd.Base.{
  ℕ, ◌≡◌, refl, ap, ◌∙◌, inl, inr, Bool, true, false, not, ◌&&◌, ◌||◌, Bytes, Bool-cases,
}
use rhel_fapolicyd.Event.Lifecycle.{
  Review, Asked, see_reopen, finish_static, reopen_static, await_interpreter, skip_reopened, review,
}
use rhel_fapolicyd.Rules.Pattern.{is_path}
use rhel_fapolicyd.Process.{
  State, collecting, reopen, static_reopen, static_partial, state_eq, has_flag, has_interp,
  ProcInfo,
}

and_false : (b : Bool) → (b && false) ≡ false
and_false true = refl
and_false false = refl

module _ (a : Asked) (other : a.differs ≡ true) where
  finish_static_other : (r : Review) → finish_static a r ≡ r
  unfolding finish_static
  finish_static_other r = rw (other, and_false) refl

  reopen_static_other : (r : Review) → reopen_static a r ≡ r
  unfolding reopen_static
  reopen_static_other r = rw (other, and_false, and_false) refl

  await_interpreter_other : (elf_info : ℕ) (r : Review) → await_interpreter a elf_info r ≡ r
  unfolding await_interpreter
  await_interpreter_other elf_info r = rw (other, and_false, and_false, and_false, and_false) refl

  skip_reopened_other : (r : Review) → skip_reopened a r ≡ r
  unfolding skip_reopened
  skip_reopened_other r = rw (other, and_false, and_false, and_false) refl

  see_reopen_other :
      (linker : Bytes) (info : ProcInfo)
      → see_reopen linker a info
        ≡ record { state = info.state; evict = true; skip_path = false; reset = false }
  unfolding see_reopen
  see_reopen_other linker info = rw (other, and_false, and_false) refl

  -- An event of a process other than the cached one evicts the cached subject: whatever the state of
  -- its record, none of the exceptions for an execute applies, so that no attribute of one process
  -- is used for another.
  pub review_other :
      (linker : Bytes) (info : ProcInfo)
      → review linker a info
        ≡ record { state = info.state; evict = true; skip_path = false; reset = false }
  unfolding review
  review_other linker info =
      skip_reopened_other _
      ∙ await_interpreter_other info.elf_info _
      ∙ reopen_static_other _
      ∙ finish_static_other _
      ∙ see_reopen_other linker info

-- The exceptions: an execute by the same process that does not evict its subject.
abbrev pub is_exception : Asked → ProcInfo → Bool
is_exception a info =
    state_eq info.state static_partial
    || (state_eq info.state static_reopen && a.open_perm
        || state_eq info.state reopen && has_flag info.elf_info has_interp)

review_same :
    (linker : Bytes) (open_perm exec_perm : Bool) (info : ProcInfo) (s : State)
    → (review linker
        (record { open_perm = open_perm; exec_perm = exec_perm; differs = false })
        (record info { state = s })).evict
      ≡ (exec_perm
          && not (
              is_exception
                (record { open_perm = open_perm; exec_perm = exec_perm; differs = false })
                (record info { state = s })))
unfolding review
review_same linker true true info collecting = elim (Bool-cases (is_path info.path1 linker)) [
  | inl loader ↦ rw loader refl
  | inr other ↦ rw other refl
]
review_same linker true false info collecting = elim (Bool-cases (is_path info.path1 linker)) [
  | inl loader ↦ rw loader refl
  | inr other ↦ rw other refl
]
review_same linker true true info reopen = elim (Bool-cases (has_flag info.elf_info has_interp)) [
  | inl interp ↦ rw interp refl
  | inr none_ ↦ rw none_ refl
]
review_same linker false true info reopen = elim (Bool-cases (has_flag info.elf_info has_interp)) [
  | inl interp ↦ rw interp refl
  | inr none_ ↦ rw none_ refl
]
review_same linker false false info reopen = refl
review_same linker _ _ info _ = refl

-- An event of the cached process evicts the cached subject exactly if it is an execute, except for
-- the execute of a static program that has just finished its own, of one that is being reopened when
-- the event also asks for an open, and for that of the interpreter that the program names.
pub review_evict :
    (linker : Bytes) (a : Asked) (info : ProcInfo)
    → a.differs ≡ false
    → (review linker a info).evict ≡ (a.exec_perm && not (is_exception a info))
review_evict linker a info same =
    ap (λ d. (review linker (record a { differs = d }) info).evict) same
    ∙ review_same linker a.open_perm a.exec_perm info info.state
