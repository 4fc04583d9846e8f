-- ===== src/Event/Lifecycle.antt =====
-- src/library/event.c: the part of `new_event` that follows a process through execve. A cached
-- subject is reviewed when an event of its process comes in, and the path of the file is collected
-- until three have been seen.
pub mod Fullness
pub mod Reaches
pub mod Eviction
use rhel_fapolicyd.Base.{
  ℕ, Bool, true, false, not, ◌&&◌, ◌||◌, Option, none, some, ◌==◌, if◌then◌else◌, Bytes,
}
use rhel_fapolicyd.Process.{
  State, collecting, reopen, default_reopen, static_reopen, partial, static_partial, full, normal,
  static, state_eq, before_full, has_interp, has_flag, ProcInfo,
}
use rhel_fapolicyd.Rules.Pattern.{is_path}

-- The locals `evict` and `skip_path`, the cached subject's state, and whether its attributes are
-- reset.
pub record Review : Type 0 where
  pub state : State
  pub evict : Bool
  pub skip_path : Bool
  pub reset : Bool

-- What an event asks: the bits FAN_OPEN_PERM and FAN_OPEN_EXEC_PERM, and `rc`, true if the process
-- is not the cached one.
pub record Asked : Type 0 where
  pub open_perm : Bool
  pub exec_perm : Bool
  pub differs : Bool

-- The second of the two events of an execute. The loader's own path keeps on being collected.
unfoldable pub see_reopen : Bytes → Asked → ProcInfo → Review
see_reopen linker a info =
    let evict = a.differs || a.exec_perm in
    if state_eq info.state collecting && (a.open_perm && not a.differs)
    then record {
      state = if is_path info.path1 linker then default_reopen else reopen;
      evict = evict;
      skip_path = true;
      reset = false;
    }
    else record { state = info.state; evict = evict; skip_path = false; reset = false }

-- execve of a static program has finished.
unfoldable pub finish_static : Asked → Review → Review
finish_static a r =
    if state_eq r.state static_partial && not a.differs
    then (if a.exec_perm
        then record r { state = collecting; evict = false; reset = true }
        else record r { state = static; skip_path = true; evict = false; reset = true })
    else r

unfoldable pub reopen_static : Asked → Review → Review
reopen_static a r =
    if state_eq r.state static_reopen && (a.open_perm && not a.differs)
    then record r { state = static_partial; evict = false; skip_path = true }
    else r

-- The program has an interpreter, which comes next.
unfoldable pub await_interpreter : Asked → ℕ → Review → Review
await_interpreter a elf_info r =
    if state_eq r.state reopen
      && (not r.skip_path && (a.exec_perm && (has_flag elf_info has_interp && not a.differs)))
    then record r { state = default_reopen; evict = false; skip_path = true }
    else r

unfoldable pub skip_reopened : Asked → Review → Review
skip_reopened a r =
    if state_eq r.state reopen && (not r.skip_path && (a.open_perm && not a.differs))
    then record r { skip_path = true }
    else r

unfoldable pub review : Bytes → Asked → ProcInfo → Review
unfolding see_reopen finish_static reopen_static await_interpreter skip_reopened
review linker a info = skip_reopened a (
    await_interpreter a info.elf_info
      (reopen_static a (finish_static a (see_reopen linker a info))))

-- The record of a process that is not in the cache. One that is first seen opening a file is already
-- running, and is not followed.
unfoldable pub first_seen : Asked → ProcInfo → ProcInfo
first_seen a info = if a.open_perm then record info { state = normal } else info

-- The end of `new_event`. `file` is the event's PATH, `gathered` what `gather_elf` says of the file;
-- the flag is true if the subject's attributes are reset.
unfoldable pub collect_path : Bool → Option Bytes → ℕ → ProcInfo → ProcInfo × Bool
collect_path skip_path none gathered info = (info, false)
collect_path skip_path (some file) gathered info =
    if not skip_path && before_full info.state
    then elim info.path1 [
      | none ↦ (record info { path1 = some file; elf_info = gathered }, false)
      | some first ↦ elim info.path2 [
        | none ↦ (record info { path2 = some file; state = partial }, false)
        | some second ↦ (record info { state = full }, true)
      ]
    ]
    else (info, false)
