-- ===== src/Config/Bounds.antt =====
-- What a configuration that was accepted satisfies.
use mathlib.Core.Path.{subst}
use rhel_fapolicyd.Base.{
  ℕ, ◌≤◌, ◌≡◌, ◌⊎◌, refl, sym, ap, ◌∙◌, inl, inr, true, false, not, some, List, [], ◌∷◌, ltb,
  Bool-cases, Option-cases, arith, Bytes, streq, codes,
}
use rhel_fapolicyd.Config.{
  Conf, Host, Parsed, Parser, strtoul, unsigned_int_parser, with_number, number, starts_digit,
  strcaseeq, permissive_parser, nice_val_parser, do_stat_report_parser, uid_parser, gid_parser,
  integrity_parser, rpm_sha256_only_parser, fs_mark_parser, keywords, kw_lookup,
  clear_daemon_config, nv_split, config_lines, load_daemon_config,
}

abbrev pub Sane : Conf → Type 0
Sane c =
    (c.permissive ≤ 1)
    × (c.nice_val ≤ 20)
    × (c.do_stat_report ≤ 2)
    × (c.rpm_sha256_only ≤ 1)
    × (c.allow_filesystem_mark ≤ 1)

-- What a parser keeps where it accepts its value.
abbrev Keeps : Parsed → Type 0
Keeps r = (r.0 ≡ false) ⊎ Sane r.1

abbrev Sound : Parser → Type 0
Sound p = (s : Bytes) (c : Conf) → Sane c → Keeps (p s c)

with_number-Keeps :
    (s : Bytes) (c : Conf) (k : ℕ → Parsed) → ((n : ℕ) → Keeps (k n)) → Keeps (with_number s c k)
with_number-Keeps s c k keeps = elim (Option-cases (unsigned_int_parser s)) [
  | inl bad ↦ rw (with_number, bad) (inl refl)
  | inr (n, good) ↦ rw (with_number, good) (keeps n)
]

permissive_parser-Sound : Sound permissive_parser
unfolding permissive_parser
permissive_parser-Sound s c (p, n, d, r, m) =
    with_number-Keeps s c _ (λ k. inr (ground arith, n, d, r, m))

nice_val_parser-Sound : Sound nice_val_parser
unfolding nice_val_parser
nice_val_parser-Sound s c (p, n, d, r, m) = with_number-Keeps s c _ (λ k.
    elim (Bool-cases (ltb 20 k)) [
      | inl large ↦ inl (ap not large)
      | inr small ↦ inr (p, ground arith, d, r, m)
    ])

do_stat_report_parser-Sound : Sound do_stat_report_parser
unfolding do_stat_report_parser
do_stat_report_parser-Sound s c (p, n, d, r, m) =
    with_number-Keeps s c _ (λ k. inr (p, n, ground arith, r, m))

rpm_sha256_only_parser-Sound : (host : Host) → Sound (rpm_sha256_only_parser host)
unfolding rpm_sha256_only_parser
rpm_sha256_only_parser-Sound host s c (p, n, d, r, m) = elim (Bool-cases host.use_rpm) [
  | inl built ↦ rw built (with_number-Keeps s c _ (λ k. inr (p, n, d, ground arith, m)))
  | inr without ↦ rw without (inr (p, n, d, r, m))
]

fs_mark_parser-Sound : (host : Host) → Sound (fs_mark_parser host)
unfolding fs_mark_parser
fs_mark_parser-Sound host s c (p, n, d, r, m) = elim (Bool-cases host.mark_filesystem) [
  | inl built ↦ rw built (with_number-Keeps s c _ (λ k. inr (p, n, d, r, ground arith)))
  | inr without ↦ rw without (inr (p, n, d, r, m))
]

uid_parser-Sound : (host : Host) → Sound (uid_parser host)
unfolding uid_parser
uid_parser-Sound host s c v = elim (Bool-cases (starts_digit s)) [
  | inl digit ↦ elim (Option-cases (strtoul s)) [
    | inl bad ↦ rw (digit, bad) (inl refl)
    | inr (n, good) ↦ rw (digit, good) (inr v)
  ]
  | inr name ↦ elim (Option-cases (host.getpwnam s)) [
    | inl bad ↦ rw (name, bad) (inl refl)
    | inr (n, good) ↦ rw (name, good) (inr v)
  ]
]

gid_parser-Sound : (host : Host) → Sound (gid_parser host)
unfolding gid_parser
gid_parser-Sound host s c v = elim (Bool-cases (starts_digit s)) [
  | inl digit ↦ elim (Option-cases (strtoul s)) [
    | inl bad ↦ rw (digit, bad) (inl refl)
    | inr (n, good) ↦ rw (digit, good) (inr v)
  ]
  | inr name ↦ elim (Option-cases (host.getgrnam s)) [
    | inl bad ↦ rw (name, bad) (inl refl)
    | inr (n, good) ↦ rw (name, good) (inr v)
  ]
]

integrity_parser-Sound : (host : Host) → Sound (integrity_parser host)
unfolding integrity_parser
integrity_parser-Sound host s c v = elim (Bool-cases (strcaseeq s (codes "none"))) [
  | inl a ↦ rw a (inr v)
  | inr a ↦ elim (Bool-cases (strcaseeq s (codes "size"))) [
    | inl b ↦ rw (a, b) (inr v)
    | inr b ↦ elim (Bool-cases (strcaseeq s (codes "ima"))) [
      | inl d ↦ rw (a, b, d) (inr v)
      | inr d ↦ elim (Bool-cases (strcaseeq s (codes "sha256"))) [
        | inl e ↦ rw (a, b, d, e) (inr v)
        | inr e ↦ rw (a, b, d, e) (inl refl)
      ]
    ]
  ]
]

number-Sound :
    (put : ℕ → Conf → Conf) → ((n : ℕ) (c : Conf) → Sane c → Sane (put n c)) → Sound (number put)
number-Sound put keeps s c v = with_number-Keeps s c (λ n. (true, put n c)) (λ n. inr (keeps n c v))

abbrev AllSound : List (Bytes × Parser) → Type 0
AllSound [] = Unit
AllSound (kw ∷ kws) = Sound kw.1 × AllSound kws

keywords-AllSound : (host : Host) → AllSound (keywords host)
unfolding keywords
keywords-AllSound host = (
  permissive_parser-Sound,
  (
    nice_val_parser-Sound,
    (
      number-Sound _ (λ n c v. v),
      (
        uid_parser-Sound host,
        (
          gid_parser-Sound host,
          (
            number-Sound _ (λ n c v. v),
            (
              number-Sound _ (λ n c v. v),
              (
                number-Sound _ (λ n c v. v),
                (
                  number-Sound _ (λ n c v. v),
                  (
                    do_stat_report_parser-Sound,
                    (
                      (λ s c v. inr v),
                      (
                        (λ s c v. inr v),
                        (
                          (λ s c v. inr v),
                          (
                            integrity_parser-Sound host,
                            (
                              (λ s c v. inr v),
                              (
                                rpm_sha256_only_parser-Sound host,
                                (fs_mark_parser-Sound host, (number-Sound _ (λ n c v. v), tt)),
                              ),
                            ),
                          ),
                        ),
                      ),
                    ),
                  ),
                ),
              ),
            ),
          ),
        ),
      ),
    ),
  ),
)

kw_lookup-Sound :
    (kws : List (Bytes × Parser)) (name : Bytes) (p : Parser)
    → AllSound kws
    → kw_lookup kws name ≡ some p
    → Sound p
unfolding kw_lookup
kw_lookup-Sound [] name p all e = cc
kw_lookup-Sound (kw ∷ kws) name p (first, all) e = elim (Bool-cases (streq kw.0 name)) [
  | inl here ↦
      let both : kw_lookup (kw ∷ kws) name ≡ some kw.1 = rw (kw_lookup, here) refl in
      let same : some kw.1 ≡ some p = sym both ∙ e in
      let is_p : kw.1 ≡ p = cc in subst (λ q. Sound q) is_p first
  | inr there ↦
      let behind : kw_lookup (kw ∷ kws) name ≡ kw_lookup kws name = rw (kw_lookup, there) refl in
      kw_lookup-Sound kws name p all (sym behind ∙ e)
]

config_lines-Keeps :
    (host : Host) (lines : List Bytes) (c : Conf) → Sane c → Keeps (config_lines host lines c)
unfolding config_lines
config_lines-Keeps host [] c v = inr v
config_lines-Keeps host (line ∷ lines) c v = elim (Option-cases (nv_split line).0) [
  | inl blank ↦ rw (config_lines, blank) (config_lines-Keeps host lines c v)
  | inr (name, named) ↦ elim (Option-cases (nv_split line).1) [
    | inl none_ ↦ rw (config_lines, named, none_) (inl refl)
    | inr (value, given) ↦ elim (Option-cases (kw_lookup (keywords host) name)) [
      | inl unknown ↦ rw (config_lines, named, given, unknown) (inl refl)
      | inr (p, known) ↦
          let sound =
            kw_lookup-Sound (keywords host) name p (keywords-AllSound host) known value c v in
          elim (Bool-cases (p value c).0) [
            | inr refused ↦ rw (config_lines, named, given, known, refused) (inl refl)
            | inl accepted ↦
                rw (config_lines, named, given, known, accepted)
                  (elim sound [
                    | inl clash ↦ let both : true ≡ false = sym accepted ∙ clash in cc
                    | inr sane ↦ config_lines-Keeps host lines (p value c).1 sane
                  ])
          ]
    ]
  ]
]

-- Whatever the lines of the file, the accounts and the way the program is built: when the
-- configuration is accepted, permissive, rpm_sha256_only and allow_filesystem_mark are 0 or 1,
-- nice_val is at most 20 and do_stat_report at most 2.
pub load_daemon_config-Sane :
    (host : Host) (lines : List Bytes)
    → (load_daemon_config host lines).0 ≡ true
    → Sane (load_daemon_config host lines).1
unfolding load_daemon_config clear_daemon_config
load_daemon_config-Sane host lines accepted =
    elim (config_lines-Keeps host lines (clear_daemon_config host)
      (omega arith, omega arith, omega arith, omega arith, omega arith)) [
        | inl refused ↦ let both : true ≡ false = sym accepted ∙ refused in cc
        | inr sane ↦ sane
      ]
