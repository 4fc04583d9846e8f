-- ===== src/Config/Tests.antt =====
-- A small file of options, and the instance of the property.
use rhel_fapolicyd.Base.{
  ◌≡◌, refl, true, false, none, some, List, [], ◌∷◌, Bytes, codes, streq, if◌then◌else◌,
}
use rhel_fapolicyd.Config.{
  Conf, Host, strtoul, unsigned_int_parser, permissive_parser, nice_val_parser,
  do_stat_report_parser, uid_parser, gid_parser, integrity_parser, rpm_sha256_only_parser,
  fs_mark_parser, keywords, kw_lookup, clear_daemon_config, strsplit, nv_split, config_lines,
  load_daemon_config,
}
use rhel_fapolicyd.Config.Bounds.{Sane, load_daemon_config-Sane}

program : Unit {0}
unfolding streq strtoul unsigned_int_parser permissive_parser nice_val_parser do_stat_report_parser
    uid_parser gid_parser integrity_parser rpm_sha256_only_parser fs_mark_parser keywords kw_lookup
    clear_daemon_config strsplit nv_split config_lines load_daemon_config
program = tt

abbrev host : Host
host = record {
  getpwnam = λ s. if streq s (codes "fapolicyd") then some (992, 990) else none;
  getgrnam = λ s. none;
  strdup = λ s. some s;
  shell_ima = false;
  use_rpm = true;
  mark_filesystem = true;
}

abbrev options : List Bytes
options =
    codes "# options"
    ∷ codes "permissive = 7"
    ∷ codes "  nice_val =  14 "
    ∷ []
    ∷ codes "uid = fapolicyd"
    ∷ codes "integrity = SHA256"
    ∷ []

abbrev conf : Conf
unfolding program
conf = (load_daemon_config host options).1

options_accepted : (load_daemon_config host options).0 ≡ true
unfolding program
options_accepted = refl

options_stored :
    (conf.permissive ≡ 1) × (conf.nice_val ≡ 14) × (conf.gid ≡ 990) × (conf.q_size ≡ 800)
unfolding program
options_stored = (refl, refl, refl, refl)

options_refused :
    ((load_daemon_config host (codes "nice_val = 21" ∷ [])).0 ≡ false)
    × ((load_daemon_config host (codes "q_sizes = 21" ∷ [])).0 ≡ false)
    × ((load_daemon_config host (codes "q_size 21" ∷ [])).0 ≡ false)
    × ((load_daemon_config host (codes "integrity = ima" ∷ [])).0 ≡ false)
unfolding program
options_refused = (refl, refl, refl, refl)

-- A number is taken modulo 2 ^ 32.
queue_wraps : (load_daemon_config host (codes "q_size = 4294967301" ∷ [])).1.q_size ≡ 5
unfolding program
queue_wraps = refl

load_daemon_config-Sane_example : Sane (load_daemon_config host options).1
load_daemon_config-Sane_example = load_daemon_config-Sane host options options_accepted
