-- ===== src/Process.antt =====
-- The parts of src/library/process.h, process.c, file.h and file.c that the event and rule code
-- computes with: the fingerprints of a process and of a file, their comparison, and the states of
-- pattern detection. What these files read from /proc, from descriptors and from ELF files enters
-- the model as the record `Env` of Event.
pub mod Fingerprints
use rhel_fapolicyd.Base.{
  ℕ, Bool, true, false, not, ◌&&◌, Option, none, some, ltb, ◌==◌, if◌then◌else◌, List, [], ℤ,
  int_eq, Bytes,
}
use Prim.Native.Nat.{bit_and}

pub data State : Type 0 where
  collecting reopen default_reopen static_reopen partial static_partial full : State
  normal not_elf ld_so static bad_elf ld_preload : State

-- The values of the enumeration, for `<`.
abbrev pub state_val : State → ℕ
state_val collecting = 0
state_val reopen = 1
state_val default_reopen = 2
state_val static_reopen = 3
state_val partial = 4
state_val static_partial = 5
state_val full = 6
state_val normal = 7
state_val not_elf = 8
state_val ld_so = 9
state_val static = 10
state_val bad_elf = 11
state_val ld_preload = 12

abbrev pub state_eq : State → State → Bool
state_eq a b = state_val a == state_val b

-- `state < STATE_FULL`
abbrev pub before_full : State → Bool
before_full s = ltb (state_val s) 6

-- The bits of `elf_info`.
abbrev pub is_elf : ℕ
is_elf = 0x1

abbrev pub has_error : ℕ
has_error = 0x2

abbrev pub has_dynamic : ℕ
has_dynamic = 0x8

abbrev pub has_interp : ℕ
has_interp = 0x20

-- `info & flag`, as a condition
unfoldable pub has_flag : ℕ → ℕ → Bool
has_flag info flag = not (bit_and info flag == 0)

pub record ProcInfo : Type 0 where
  pub pid : ℤ
  pub device : ℕ
  pub inode : ℕ
  pub tv_sec : ℕ
  pub tv_nsec : ℕ
  pub state : State
  pub path1 : Option Bytes
  pub path2 : Option Bytes
  pub elf_info : ℕ

unfoldable pub clear_proc_info : ProcInfo → ProcInfo
clear_proc_info info = record info { path1 = none; path2 = none }

-- True for the return value 1: not the same process.
unfoldable pub compare_proc_infos : Option ProcInfo → Option ProcInfo → Bool
compare_proc_infos none p2 = true
compare_proc_infos (some p1) none = true
compare_proc_infos (some p1) (some p2) =
    if not (p1.inode == p2.inode)
    then true
    else if not (int_eq p1.pid p2.pid)
    then true
    else if not (p1.tv_nsec == p2.tv_nsec)
    then true
    else if not (p1.tv_sec == p2.tv_sec)
    then true
    else not (p1.device == p2.device)

pub data HashAlg : Type 0 where
  alg_none alg_md5 alg_sha1 alg_sha256 alg_sha512 : HashAlg

pub record FileInfo : Type 0 where
  pub device : ℕ
  pub inode : ℕ
  pub mode : ℕ
  pub size : ℕ
  pub tv_sec : ℕ
  pub tv_nsec : ℕ
  pub digest_alg : HashAlg
  pub digest : Bytes

-- True for the return value 1: not the same file. The mode and the digest are not compared.
unfoldable pub compare_file_infos : Option FileInfo → Option FileInfo → Bool
compare_file_infos none p2 = true
compare_file_infos (some p1) none = true
compare_file_infos (some p1) (some p2) =
    if not (p1.inode == p2.inode)
    then true
    else if not (p1.tv_nsec == p2.tv_nsec)
    then true
    else if not (p1.tv_sec == p2.tv_sec)
    then true
    else if not (p1.size == p2.size)
    then true
    else not (p1.device == p2.device)
