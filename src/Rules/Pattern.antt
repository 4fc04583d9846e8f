-- ===== src/Rules/Pattern.antt =====
-- src/library/rules.c: `subj_pattern_test`, which decides how a process was started.
use rhel_fapolicyd.Base.{
  ℕ, Bool, false, not, ◌&&◌, Option, none, some, ◌==◌, if◌then◌else◌, ℤ, pos, int_eq, Bytes, streq,
}
use rhel_fapolicyd.Process.{
  collecting, static_reopen, static_partial, full, normal, not_elf, ld_so, static, bad_elf,
  ld_preload, state_eq, before_full, is_elf, has_error, has_dynamic, has_flag, ProcInfo,
  clear_proc_info,
}
use rhel_fapolicyd.Rules.{Match, no_match, matched, match_error}

-- The values of a rule's pattern.
abbrev pub pattern_normal : ℕ
pattern_normal = 0

abbrev pub pattern_ld_so : ℕ
pattern_ld_so = 1

abbrev pub pattern_static : ℕ
pattern_static = 2

abbrev pub pattern_ld_preload : ℕ
pattern_ld_preload = 3

-- `path1 && strcmp(path1, SYSTEM_LD_SO) == 0`
unfoldable pub is_path : Option Bytes → Bytes → Bool
is_path none p = false
is_path (some path) p = streq path p

abbrev pub match_if : Bool → Match
match_if b = if b then matched else no_match

-- The part behind `make_decision`. `environ` is the answer of `check_environ_from_pid`.
unfoldable pub make_decision : (ℤ → ℤ) → ℕ → ProcInfo → ProcInfo × Match
unfolding clear_proc_info
make_decision environ uval info =
    if uval == pattern_normal
    then (clear_proc_info info, match_if (state_eq info.state normal))
    else if uval == pattern_ld_so
    then (clear_proc_info info, match_if (state_eq info.state ld_so))
    else if uval == pattern_static
    then (
      clear_proc_info info,
      (if state_eq info.state static_reopen
          then matched
          else if state_eq info.state static_partial
          then matched
          else match_if (state_eq info.state static)),
    )
    else if uval == pattern_ld_preload && int_eq (environ info.pid) (pos 1)
    then (clear_proc_info (record info { state = ld_preload }), matched)
    else (clear_proc_info info, no_match)

-- Before STATE_FULL only one or two paths are known. A missing path is no linker's.
unfoldable pub test_early : (ℤ → ℤ) → Bytes → ℕ → Bool → ProcInfo → ProcInfo × Match
unfolding make_decision is_path
test_early environ linker uval exec_perm info =
    if info.elf_info == 0
    then (clear_proc_info (record info { state = not_elf }), no_match)
    else if has_flag info.elf_info is_elf
        && (state_eq info.state collecting && not (has_flag info.elf_info has_dynamic))
    then make_decision environ uval (record info { state = static_reopen })
    else if state_eq info.state static_partial
    then make_decision environ uval info
    else if exec_perm && is_path info.path1 linker
    then make_decision environ uval (record info { state = ld_so })
    else (info, no_match)

unfoldable pub subj_pattern_test : (ℤ → ℤ) → Bytes → ℕ → Bool → ProcInfo → ProcInfo × Match
unfolding test_early
subj_pattern_test environ linker uval exec_perm info =
    if before_full info.state
    then test_early environ linker uval exec_perm info
    else if not (state_eq info.state full)
    then make_decision environ uval info
    else if has_flag info.elf_info has_error
    then (clear_proc_info (record info { state = bad_elf }), match_error)
    else if is_path info.path1 linker
    then make_decision environ uval (record info { state = ld_so })
    else make_decision environ uval (record info { state = normal })
