-- ===== src/Config.antt =====
-- src/library/daemon-config.c and conf.h: the options of the daemon, from the lines of its file on,
-- without their newlines. The accounts of the system, the memory of strings, the test of the shell's
-- IMA hash and the way that the program is built are the record Host.
pub mod Bounds
mod Tests
use rhel_fapolicyd.Base.{
  ℕ, zero, suc, ◌+◌, ◌-◌, ◌*◌, ◌%◌, ◌^◌, Bool, true, false, not, ◌&&◌, ◌||◌, Option, none, some,
  List, [], ◌∷◌, ltb, leb, ◌==◌, if◌then◌else◌, Bytes, codes, streq,
}

pub data Integrity : Type 0 where
  in_none in_size in_ima in_sha256 : Integrity

pub record Conf : Type 0 where
  pub permissive : ℕ
  pub nice_val : ℕ
  pub q_size : ℕ
  pub uid : ℕ
  pub gid : ℕ
  pub do_stat_report : ℕ
  pub detailed_report : ℕ
  pub db_max_size : ℕ
  pub subj_cache_size : ℕ
  pub obj_cache_size : ℕ
  pub watch_fs : Option Bytes
  pub ignore_mounts : Option Bytes
  pub trust : Option Bytes
  pub integrity : Integrity
  pub syslog_format : Option Bytes
  pub rpm_sha256_only : ℕ
  pub allow_filesystem_mark : ℕ
  pub report_interval : ℕ

-- `getpwnam` gives the numbers of a user and of its group, `getgrnam` that of a group. `shell_ima` is
-- whether the test of the IMA hash of /bin/sh passes, `strdup` what a copy of a string gives.
pub record Host : Type 0 where
  pub getpwnam : Bytes → Option (ℕ × ℕ)
  pub getgrnam : Bytes → Option ℕ
  pub strdup : Bytes → Option Bytes
  pub shell_ima : Bool
  pub use_rpm : Bool
  pub mark_filesystem : Bool

-- The result 0 of a parser is `true`.
abbrev pub Parsed : Type 0
Parsed = Bool × Conf

abbrev pub isdigit : ℕ → Bool
isdigit b = leb 48 b && leb b 57

-- `strtoul` in base 10 on leading digits, before its range is tested.
abbrev pub digits_from : ℕ → Bytes → ℕ
digits_from n [] = n
digits_from n (b ∷ bs) =
    let rest = digits_from (10 * n + (b - 48)) bs in if isdigit b then rest else n

-- `none` stands for ERANGE.
unfoldable pub strtoul : Bytes → Option ℕ
strtoul s = let n = digits_from 0 s in if ltb n (2 ^ 64) then some n else none

abbrev only_digits : Bytes → Bool
only_digits [] = true
only_digits (b ∷ bs) = isdigit b && only_digits bs

-- The number that is stored in an `unsigned`.
unfoldable pub unsigned_int_parser : Bytes → Option ℕ
unfolding strtoul
unsigned_int_parser s =
    if only_digits s then elim (strtoul s) [ none ↦ none | some n ↦ some (n % 2 ^ 32) ] else none

abbrev pub with_number : Bytes → Conf → (ℕ → Parsed) → Parsed
with_number s c k = elim (unsigned_int_parser s) [ none ↦ (false, c) | some n ↦ k n ]

unfoldable pub permissive_parser : Bytes → Conf → Parsed
permissive_parser s c =
    with_number s c (λ n. (true, record c { permissive = if ltb 1 n then 1 else n }))

unfoldable pub nice_val_parser : Bytes → Conf → Parsed
nice_val_parser s c = with_number s c (λ n. (not (ltb 20 n), record c { nice_val = n }))

unfoldable pub do_stat_report_parser : Bytes → Conf → Parsed
do_stat_report_parser s c =
    with_number s c (λ n. (true, record c { do_stat_report = if ltb 2 n then 1 else n }))

abbrev pub starts_digit : Bytes → Bool
starts_digit [] = false
starts_digit (b ∷ bs) = isdigit b

unfoldable pub uid_parser : Host → Bytes → Conf → Parsed
uid_parser host s c =
    if starts_digit s
    then elim (strtoul s) [
      | none ↦ (false, c)
      | some n ↦ (true, record c { uid = n % 2 ^ 32; gid = n % 2 ^ 32 })
    ]
    else elim (host.getpwnam s) [
      | none ↦ (false, c)
      | some pw ↦ (true, record c { uid = pw.0; gid = pw.1 })
    ]

unfoldable pub gid_parser : Host → Bytes → Conf → Parsed
gid_parser host s c =
    if starts_digit s
    then elim (strtoul s) [ none ↦ (false, c) | some n ↦ (true, record c { gid = n % 2 ^ 32 }) ]
    else elim (host.getgrnam s) [ none ↦ (false, c) | some g ↦ (true, record c { gid = g }) ]

-- The result of a parser that stores a copy.
abbrev pub stored : Option Bytes → Bool
stored none = false
stored (some s) = true

abbrev tolower : ℕ → ℕ
tolower b = if leb 65 b && leb b 90 then b + 32 else b

-- `strcasecmp(a, b) == 0`
abbrev pub strcaseeq : Bytes → Bytes → Bool
strcaseeq [] [] = true
strcaseeq (x ∷ xs) (y ∷ ys) = (tolower x == tolower y) && strcaseeq xs ys
strcaseeq _ _ = false

unfoldable pub integrity_parser : Host → Bytes → Conf → Parsed
integrity_parser host s c =
    if strcaseeq s (codes "none")
    then (true, record c { integrity = in_none })
    else if strcaseeq s (codes "size")
    then (true, record c { integrity = in_size })
    else if strcaseeq s (codes "ima")
    then (host.shell_ima, record c { integrity = in_ima })
    else if strcaseeq s (codes "sha256")
    then (true, record c { integrity = in_sha256 })
    else (false, c)

unfoldable pub rpm_sha256_only_parser : Host → Bytes → Conf → Parsed
rpm_sha256_only_parser host s c =
    if host.use_rpm
    then with_number s c (λ n. (true, record c { rpm_sha256_only = if ltb 1 n then 0 else n }))
    else (true, c)

unfoldable pub fs_mark_parser : Host → Bytes → Conf → Parsed
fs_mark_parser host s c =
    if host.mark_filesystem
    then with_number s c
        (λ n. (true, record c { allow_filesystem_mark = if ltb 1 n then 0 else n }))
    else (true, c)

abbrev pub Parser : Type 0
Parser = Bytes → Conf → Parsed

-- A parser of a number that is taken as it is.
abbrev pub number : (ℕ → Conf → Conf) → Parser
number put s c = with_number s c (λ n. (true, put n c))

abbrev pub text : Host → (Option Bytes → Conf → Conf) → Parser
text host put s c = (stored (host.strdup s), put (host.strdup s) c)

unfoldable pub keywords : Host → List (Bytes × Parser)
unfolding permissive_parser nice_val_parser do_stat_report_parser uid_parser gid_parser
    integrity_parser rpm_sha256_only_parser fs_mark_parser
keywords host =
    (codes "permissive", permissive_parser)
    ∷ (codes "nice_val", nice_val_parser)
    ∷ (codes "q_size", number (λ n c. record c { q_size = n }))
    ∷ (codes "uid", uid_parser host)
    ∷ (codes "gid", gid_parser host)
    ∷ (codes "detailed_report", number (λ n c. record c { detailed_report = n }))
    ∷ (codes "db_max_size", number (λ n c. record c { db_max_size = n }))
    ∷ (codes "subj_cache_size", number (λ n c. record c { subj_cache_size = n }))
    ∷ (codes "obj_cache_size", number (λ n c. record c { obj_cache_size = n }))
    ∷ (codes "do_stat_report", do_stat_report_parser)
    ∷ (codes "watch_fs", text host (λ s c. record c { watch_fs = s }))
    ∷ (codes "ignore_mounts", text host (λ s c. record c { ignore_mounts = s }))
    ∷ (codes "trust", text host (λ s c. record c { trust = s }))
    ∷ (codes "integrity", integrity_parser host)
    ∷ (codes "syslog_format", text host (λ s c. record c { syslog_format = s }))
    ∷ (codes "rpm_sha256_only", rpm_sha256_only_parser host)
    ∷ (codes "allow_filesystem_mark", fs_mark_parser host)
    ∷ (codes "report_interval", number (λ n c. record c { report_interval = n }))
    ∷ []

unfoldable pub kw_lookup : List (Bytes × Parser) → Bytes → Option Parser
kw_lookup [] name = none
kw_lookup (kw ∷ kws) name =
    let rest = kw_lookup kws name in if streq kw.0 name then some kw.1 else rest

unfoldable pub clear_daemon_config : Host → Conf
clear_daemon_config host = record {
  permissive = 0;
  nice_val = 10;
  q_size = 800;
  uid = 0;
  gid = 0;
  do_stat_report = 1;
  detailed_report = 1;
  db_max_size = 100;
  subj_cache_size = 4_099;
  obj_cache_size = 8_191;
  watch_fs = host.strdup (codes "ext4,xfs,tmpfs");
  ignore_mounts = none;
  trust = host.strdup (if host.use_rpm then codes "rpmdb,file" else codes "file");
  integrity = in_none;
  syslog_format = host.strdup (codes "rule,dec,perm,auid,pid,exe,:,path,ftype");
  rpm_sha256_only = 0;
  allow_filesystem_mark = 0;
  report_interval = 0;
}

abbrev skip_blanks : Bytes → Bytes
skip_blanks [] = []
skip_blanks (b ∷ bs) = if b == 32 then skip_blanks bs else b ∷ bs

-- The bytes before the first space, and those behind it if there is one.
abbrev cut_blank : Bytes → Bytes × Option Bytes
cut_blank [] = ([], none)
cut_blank (b ∷ bs) =
    let rest = cut_blank bs in if b == 32 then ([], some bs) else (b ∷ rest.0, rest.1)

-- `_strsplit`: the next word and the text that it left off at.
unfoldable pub strsplit : Option Bytes → Option Bytes × Option Bytes
strsplit none = (none, none)
strsplit (some s) = elim (skip_blanks s) [
  | [] ↦ (none, none)
  | b ∷ bs ↦ (some (cut_blank (b ∷ bs)).0, (cut_blank (b ∷ bs)).1)
]

-- The name and the value of a line, where it has them. What else the result of `nv_split` says is
-- only printed.
unfoldable pub nv_split : Bytes → Option Bytes × Option Bytes
unfolding strsplit
nv_split buf =
    let first = strsplit (some buf) in
    let second = strsplit first.1 in
    let third = strsplit second.1 in
    elim first.0 [
      | none ↦ (none, none)
      | some name ↦
          if (elim name [ [] ↦ false | b ∷ bs ↦ b == 35 ]) then (none, none) else elim second.0 [
            | none ↦ (some name, none)
            | some sign ↦ if streq sign (codes "=") then (some name, third.0) else (some name, none)
          ]
    ]

-- The loop over the lines.
unfoldable pub config_lines : Host → List Bytes → Conf → Parsed
unfolding nv_split kw_lookup keywords
config_lines host [] c = (true, c)
config_lines host (line ∷ lines) c = elim (nv_split line).0 [
  | none ↦ config_lines host lines c
  | some name ↦ elim (nv_split line).1 [
    | none ↦ (false, c)
    | some value ↦ elim (kw_lookup (keywords host) name) [
      | none ↦ (false, c)
      | some parser ↦
          let rest = config_lines host lines (parser value c).1 in
          if (parser value c).0 then rest else (false, (parser value c).1)
    ]
  ]
]

-- Of a file that exists and can be opened.
unfoldable pub load_daemon_config : Host → List Bytes → Parsed
unfolding clear_daemon_config config_lines
load_daemon_config host lines = config_lines host lines (clear_daemon_config host)
