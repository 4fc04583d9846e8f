-- ===== src/Rules/Exclusive.antt =====
-- The patterns normal, ld_so and static tell processes apart.
use rhel_fapolicyd.Base.{
  ℕ, zero, suc, ◌<◌, ◌≡◌, refl, sym, ◌∙◌, inl, inr, Bool, true, false, not, ◌&&◌, Option, none,
  some, ◌==◌, if◌then◌else◌, Bool-cases, ℤ, Bytes, arith,
}
use rhel_fapolicyd.Process.{
  State, collecting, static_reopen, static_partial, full, normal, not_elf, ld_so, static, bad_elf,
  state_eq, before_full, is_elf, has_error, has_dynamic, has_flag, ProcInfo,
}
use rhel_fapolicyd.Rules.{Match, matched}
use rhel_fapolicyd.Rules.Pattern.{match_if, is_path, make_decision, test_early, subj_pattern_test}

-- The pattern that a state belongs to.
abbrev pub kind : State → Option ℕ
kind normal = some 0
kind ld_so = some 1
kind static_reopen = some 2
kind static_partial = some 2
kind static = some 2
kind _ = none

-- The state that the test looks at, which does not depend on the rule's pattern.
unfoldable pub early_state : Bytes → Bool → ProcInfo → State
early_state linker exec_perm info =
    if info.elf_info == 0
    then not_elf
    else if has_flag info.elf_info is_elf
        && (state_eq info.state collecting && not (has_flag info.elf_info has_dynamic))
    then static_reopen
    else if state_eq info.state static_partial
    then info.state
    else if exec_perm && is_path info.path1 linker
    then ld_so
    else info.state

unfoldable pub tested_state : Bytes → Bool → ProcInfo → State
tested_state linker exec_perm info =
    if before_full info.state
    then early_state linker exec_perm info
    else if not (state_eq info.state full)
    then info.state
    else if has_flag info.elf_info has_error
    then bad_elf
    else if is_path info.path1 linker
    then ld_so
    else normal

kind-normal : (s : State) → match_if (state_eq s normal) ≡ matched → kind s ≡ some 0
kind-normal normal h = refl
kind-normal _ h = cc

kind-ld_so : (s : State) → match_if (state_eq s ld_so) ≡ matched → kind s ≡ some 1
kind-ld_so ld_so h = refl
kind-ld_so _ h = cc

kind-static :
    (s : State)
    → (if state_eq s static_reopen
        then matched
        else if state_eq s static_partial
        then matched
        else match_if (state_eq s static))
      ≡ matched
    → kind s ≡ some 2
kind-static static_reopen h = refl
kind-static static_partial h = refl
kind-static static h = refl
kind-static _ h = cc

make_decision-kind :
    (environ : ℤ → ℤ) (u : ℕ) (info : ProcInfo)
    → u < 3
    → (make_decision environ u info).1 ≡ matched
    → kind info.state ≡ some u
unfolding make_decision
make_decision-kind environ zero info small h = kind-normal info.state h
make_decision-kind environ (suc zero) info small h = kind-ld_so info.state h
make_decision-kind environ (suc (suc zero)) info small h = kind-static info.state h
make_decision-kind environ (suc (suc (suc u))) info small h = absurd (omega arith)

module _ (environ : ℤ → ℤ) (linker : Bytes) (u : ℕ) (small : u < 3) (exec_perm : Bool) where
  -- A test that matches did so by the state it looks at.
  abbrev pub ByState : State → ProcInfo × Match → Type 0
  ByState s r = r.1 ≡ matched → kind s ≡ some u

  decision-ByState :
      (info : ProcInfo) (s : State)
      → ByState s (make_decision environ u (record info { state = s }))
  decision-ByState info s h = make_decision-kind environ u (record info { state = s }) small h

  same_state : (info : ProcInfo) → ByState info.state (make_decision environ u info)
  same_state info h = make_decision-kind environ u info small h

  test_early_partial :
      (info : ProcInfo)
      → (info.elf_info == 0) ≡ false
      → (has_flag info.elf_info is_elf
          && (state_eq info.state collecting && not (has_flag info.elf_info has_dynamic)))
        ≡ false
      → state_eq info.state static_partial ≡ true
      → (test_early environ linker u exec_perm info ≡ make_decision environ u info)
        × (early_state linker exec_perm info ≡ info.state)
  unfolding test_early early_state
  test_early_partial info some_elf other second =
      (rw (some_elf, other, second) refl, rw (some_elf, other, second) refl)

  abbrev pub EarlyByState : ProcInfo → Type 0
  EarlyByState info =
      ByState (early_state linker exec_perm info) (test_early environ linker u exec_perm info)

  test_early_dynamic :
      (info : ProcInfo)
      → (info.elf_info == 0) ≡ false
      → (has_flag info.elf_info is_elf
          && (state_eq info.state collecting && not (has_flag info.elf_info has_dynamic)))
        ≡ false
      → state_eq info.state static_partial ≡ false
      → EarlyByState info
  unfolding test_early early_state
  test_early_dynamic info some_elf other dynamic =
      elim (Bool-cases (exec_perm && is_path info.path1 linker)) [
        | inl linked ↦ rw (some_elf, other, dynamic, linked) (decision-ByState info ld_so)
        | inr undecided ↦ rw (some_elf, other, dynamic, undecided) (λ h. cc)
      ]

  test_early_static :
      (info : ProcInfo)
      → (info.elf_info == 0) ≡ false
      → (has_flag info.elf_info is_elf
          && (state_eq info.state collecting && not (has_flag info.elf_info has_dynamic)))
        ≡ true
      → EarlyByState info
  unfolding test_early early_state
  test_early_static info some_elf reopened =
      rw (some_elf, reopened) (decision-ByState info static_reopen)

  test_early_no_elf : (info : ProcInfo) → (info.elf_info == 0) ≡ true → EarlyByState info
  unfolding test_early early_state
  test_early_no_elf info no_elf = rw no_elf (λ h. cc)

  test_early-ByState : (info : ProcInfo) → EarlyByState info
  test_early-ByState info = elim (Bool-cases (info.elf_info == 0)) [
    | inl no_elf ↦ test_early_no_elf info no_elf
    | inr some_elf ↦
        elim (Bool-cases (
          has_flag info.elf_info is_elf
          && (state_eq info.state collecting && not (has_flag info.elf_info has_dynamic)))) [
            | inl reopened ↦ test_early_static info some_elf reopened
            | inr other ↦ elim (Bool-cases (state_eq info.state static_partial)) [
              | inl second ↦
                  let (test, state) = test_early_partial info some_elf other second in
                  rw (test, state) (same_state info)
              | inr dynamic ↦ test_early_dynamic info some_elf other dynamic
            ]
          ]
  ]

  test_before_full :
      (info : ProcInfo)
      → before_full info.state ≡ true
      → (subj_pattern_test environ linker u exec_perm info
          ≡ test_early environ linker u exec_perm info)
        × (tested_state linker exec_perm info ≡ early_state linker exec_perm info)
  unfolding subj_pattern_test tested_state
  test_before_full info early = (rw early refl, rw early refl)

  test_decided :
      (info : ProcInfo)
      → before_full info.state ≡ false
      → state_eq info.state full ≡ false
      → (subj_pattern_test environ linker u exec_perm info ≡ make_decision environ u info)
        × (tested_state linker exec_perm info ≡ info.state)
  unfolding subj_pattern_test tested_state
  test_decided info late ready = (rw (late, ready) refl, rw (late, ready) refl)

  abbrev pub TestByState : ProcInfo → Type 0
  TestByState info =
      ByState (tested_state linker exec_perm info)
        (subj_pattern_test environ linker u exec_perm info)

  test_full :
      (info : ProcInfo)
      → before_full info.state ≡ false
      → state_eq info.state full ≡ true
      → TestByState info
  unfolding subj_pattern_test tested_state
  test_full info late ready = elim (Bool-cases (has_flag info.elf_info has_error)) [
    | inl damaged ↦ rw (late, ready, damaged) (λ h. cc)
    | inr sound ↦ elim (Bool-cases (is_path info.path1 linker)) [
      | inl linked ↦ rw (late, ready, sound, linked) (decision-ByState info ld_so)
      | inr direct ↦ rw (late, ready, sound, direct) (decision-ByState info normal)
    ]
  ]

  subj_pattern_test-ByState : (info : ProcInfo) → TestByState info
  subj_pattern_test-ByState info = elim (Bool-cases (before_full info.state)) [
    | inl early ↦
        let (test, state) = test_before_full info early in
        rw (test, state) (test_early-ByState info)
    | inr late ↦ elim (Bool-cases (state_eq info.state full)) [
      | inl ready ↦ test_full info late ready
      | inr decided ↦
          let (test, state) = test_decided info late decided in rw (test, state) (same_state info)
    ]
  ]

-- On the same process, path and kind of access, at most one of the patterns normal, ld_so and static
-- matches.
pub subj_pattern_test_exclusive :
    (environ : ℤ → ℤ) (linker : Bytes) (exec_perm : Bool) (info : ProcInfo) (u v : ℕ)
    → u < 3
    → v < 3
    → (subj_pattern_test environ linker u exec_perm info).1 ≡ matched
    → (subj_pattern_test environ linker v exec_perm info).1 ≡ matched
    → u ≡ v
subj_pattern_test_exclusive environ linker exec_perm info u v small small' h h' =
    let by_u = subj_pattern_test-ByState environ linker u small exec_perm info h in
    let by_v = subj_pattern_test-ByState environ linker v small' exec_perm info h' in
    let both : some u ≡ some v = sym by_u ∙ by_v in cc
