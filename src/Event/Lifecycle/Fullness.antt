-- ===== src/Event/Lifecycle/Fullness.antt =====
-- Which steps of a process's record make it full: none but the collection of a path.
use rhel_fapolicyd.Base.{
  ℕ, ◌≡◌, refl, sym, ap, ◌∙◌, inl, inr, Bool, true, false, not, ◌&&◌, ◌==◌, Bytes, ℤ, pos, int_eq,
  Bool-cases,
}
use rhel_fapolicyd.Event.Lifecycle.{
  Review, Asked, see_reopen, finish_static, reopen_static, await_interpreter, skip_reopened, review,
}
use rhel_fapolicyd.Process.{
  State, collecting, reopen, static_reopen, static_partial, full, normal, ld_so, state_eq,
  before_full, has_interp, has_flag, has_error, is_elf, has_dynamic, clear_proc_info, ProcInfo,
}
use rhel_fapolicyd.Rules.{Match}
use rhel_fapolicyd.Rules.Pattern.{is_path, make_decision, test_early, subj_pattern_test}

abbrev pub is_full : State → Bool
is_full s = state_eq s full

see_reopen-full :
    (linker : Bytes) (a : Asked) (info : ProcInfo)
    → is_full (see_reopen linker a info).state ≡ true
    → is_full info.state ≡ true
unfolding see_reopen
see_reopen-full linker a info =
    elim (Bool-cases (state_eq info.state collecting && (a.open_perm && not a.differs))) [
      | inl seen ↦ elim (Bool-cases (is_path info.path1 linker)) [
        | inl loader ↦ rw (seen, loader) (λ h. cc)
        | inr other ↦ rw (seen, other) (λ h. cc)
      ]
      | inr unseen ↦ rw unseen (λ h. h)
    ]

finish_static-full :
    (a : Asked) (r : Review) → is_full (finish_static a r).state ≡ true → is_full r.state ≡ true
unfolding finish_static
finish_static-full a r = elim (Bool-cases (state_eq r.state static_partial && not a.differs)) [
  | inl done ↦ elim (Bool-cases a.exec_perm) [
    | inl executed ↦ rw (done, executed) (λ h. cc)
    | inr opened ↦ rw (done, opened) (λ h. cc)
  ]
  | inr other ↦ rw other (λ h. h)
]

reopen_static-full :
    (a : Asked) (r : Review) → is_full (reopen_static a r).state ≡ true → is_full r.state ≡ true
unfolding reopen_static
reopen_static-full a r =
    elim (Bool-cases (state_eq r.state static_reopen && (a.open_perm && not a.differs))) [
      | inl seen ↦ rw seen (λ h. cc)
      | inr other ↦ rw other (λ h. h)
    ]

await_interpreter-full :
    (a : Asked) (elf_info : ℕ) (r : Review)
    → is_full (await_interpreter a elf_info r).state ≡ true
    → is_full r.state ≡ true
unfolding await_interpreter
await_interpreter-full a elf_info r =
    elim (Bool-cases (
      state_eq r.state reopen
      && (not r.skip_path && (a.exec_perm && (has_flag elf_info has_interp && not a.differs))))) [
        | inl seen ↦ rw seen (λ h. cc)
        | inr other ↦ rw other (λ h. h)
      ]

skip_reopened-state : (a : Asked) (r : Review) → (skip_reopened a r).state ≡ r.state
unfolding skip_reopened
skip_reopened-state a r =
    elim (Bool-cases
      (state_eq r.state reopen && (not r.skip_path && (a.open_perm && not a.differs)))) [
        | inl seen ↦ rw seen refl
        | inr other ↦ rw other refl
      ]

-- No review makes a record full.
pub review-full :
    (linker : Bytes) (a : Asked) (info : ProcInfo)
    → is_full (review linker a info).state ≡ true
    → is_full info.state ≡ true
unfolding review
review-full linker a info h = see_reopen-full linker a info (
    finish_static-full a _ (
      reopen_static-full a _ (
        await_interpreter-full a info.elf_info _ (sym (ap is_full (skip_reopened-state a _)) ∙ h))))

-- A record before STATE_FULL is not full, nor is one that is new.
pub not_full_early : (s : State) → before_full s ≡ true → is_full s ≡ true → ⊥
not_full_early full early h = cc
not_full_early _ early h = cc

pub not_full_start : (s : State) → state_eq s collecting ≡ true → is_full s ≡ true → ⊥
not_full_start full start h = cc
not_full_start _ start h = cc

make_decision-full :
    (environ : ℤ → ℤ) (uval : ℕ) (info : ProcInfo)
    → is_full (make_decision environ uval info).0.state ≡ true
    → is_full info.state ≡ true
unfolding make_decision clear_proc_info
make_decision-full environ uval info = elim (Bool-cases (uval == 0)) [
  | inl normal_pattern ↦ rw normal_pattern (λ h. h)
  | inr u0 ↦ elim (Bool-cases (uval == 1)) [
    | inl ld_so_pattern ↦ rw (u0, ld_so_pattern) (λ h. h)
    | inr u1 ↦ elim (Bool-cases (uval == 2)) [
      | inl static_pattern ↦ rw (u0, u1, static_pattern) (λ h. h)
      | inr u2 ↦ elim (Bool-cases (uval == 3 && int_eq (environ info.pid) (pos 1))) [
        | inl preloaded ↦ rw (u0, u1, u2, preloaded) (λ h. cc)
        | inr other ↦ rw (u0, u1, u2, other) (λ h. h)
      ]
    ]
  ]
]

-- A test that has left the state full.
abbrev LeavesFull : ProcInfo × Match → Type 0
LeavesFull r = is_full r.0.state ≡ true

test_early_second :
    (environ : ℤ → ℤ) (linker : Bytes) (uval : ℕ) (exec_perm : Bool) (info : ProcInfo)
    → (info.elf_info == 0) ≡ false
    → (has_flag info.elf_info is_elf
        && (state_eq info.state collecting && not (has_flag info.elf_info has_dynamic)))
      ≡ false
    → state_eq info.state static_partial ≡ true
    → test_early environ linker uval exec_perm info ≡ make_decision environ uval info
unfolding test_early
test_early_second environ linker uval exec_perm info some_elf other second =
    rw (some_elf, other, second) refl

test_early-full :
    (environ : ℤ → ℤ) (linker : Bytes) (uval : ℕ) (exec_perm : Bool) (info : ProcInfo)
    → LeavesFull (test_early environ linker uval exec_perm info)
    → is_full info.state ≡ true
unfolding test_early clear_proc_info
test_early-full environ linker uval exec_perm info = elim (Bool-cases (info.elf_info == 0)) [
  | inl no_elf ↦ rw no_elf (λ h. cc)
  | inr some_elf ↦
      elim (Bool-cases (
        has_flag info.elf_info is_elf
        && (state_eq info.state collecting && not (has_flag info.elf_info has_dynamic)))) [
          | inl reopened ↦
              rw (some_elf, reopened)
                (λ h.
                  let k =
                    make_decision-full environ uval (record info { state = static_reopen }) h in
                  cc)
          | inr other ↦ elim (Bool-cases (state_eq info.state static_partial)) [
            | inl second ↦ λ h. make_decision-full environ uval info (
                sym (
                  ap (λ r. is_full r.0.state)
                    (test_early_second environ linker uval exec_perm info some_elf other second))
                ∙ h)
            | inr dynamic ↦ elim (Bool-cases (exec_perm && is_path info.path1 linker)) [
              | inl linked ↦
                  rw (some_elf, other, dynamic, linked)
                    (λ h.
                      let k = make_decision-full environ uval (record info { state = ld_so }) h in
                      cc)
              | inr undecided ↦ rw (some_elf, other, dynamic, undecided) (λ h. h)
            ]
          ]
        ]
]

module _ (environ : ℤ → ℤ) (linker : Bytes) (uval : ℕ) (exec_perm : Bool) (info : ProcInfo) where
  test_before_full :
      before_full info.state ≡ true
      → subj_pattern_test environ linker uval exec_perm info
        ≡ test_early environ linker uval exec_perm info
  unfolding subj_pattern_test
  test_before_full early = rw early refl

  test_decided :
      before_full info.state ≡ false
      → is_full info.state ≡ false
      → subj_pattern_test environ linker uval exec_perm info ≡ make_decision environ uval info
  unfolding subj_pattern_test
  test_decided late ready = rw (late, ready) refl

  test_full :
      before_full info.state ≡ false
      → is_full info.state ≡ true
      → LeavesFull (subj_pattern_test environ linker uval exec_perm info)
      → ⊥
  unfolding subj_pattern_test clear_proc_info
  test_full late ready = elim (Bool-cases (has_flag info.elf_info has_error)) [
    | inl damaged ↦ rw (late, ready, damaged) (λ h. cc)
    | inr sound ↦ elim (Bool-cases (is_path info.path1 linker)) [
      | inl linked ↦
          rw (late, ready, sound, linked)
            (λ h. let k = make_decision-full environ uval (record info { state = ld_so }) h in cc)
      | inr direct ↦
          rw (late, ready, sound, direct)
            (λ h. let k = make_decision-full environ uval (record info { state = normal }) h in cc)
    ]
  ]

-- No test leaves a record full.
pub subj_pattern_test_decides :
    (environ : ℤ → ℤ) (linker : Bytes) (uval : ℕ) (exec_perm : Bool) (info : ProcInfo)
    → LeavesFull (subj_pattern_test environ linker uval exec_perm info)
    → ⊥
subj_pattern_test_decides environ linker uval exec_perm info =
    elim (Bool-cases (before_full info.state)) [
      | inl early ↦ λ h. not_full_early info.state early (
          test_early-full environ linker uval exec_perm info (
            sym (
              ap (λ r. is_full r.0.state)
                (test_before_full environ linker uval exec_perm info early))
            ∙ h))
      | inr late ↦ elim (Bool-cases (is_full info.state)) [
        | inl ready ↦ test_full environ linker uval exec_perm info late ready
        | inr decided ↦ λ h.
            let k = make_decision-full environ uval info (
              sym (
                ap (λ r. is_full r.0.state)
                  (test_decided environ linker uval exec_perm info late decided))
              ∙ h) in
            cc
      ]
    ]
