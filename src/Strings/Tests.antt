-- ===== src/Strings/Tests.antt =====
-- The trimming of concrete strings, and the instance of its property.
use rhel_fapolicyd.Base.{◌≡◌, refl, none, some, codes}
use rhel_fapolicyd.Strings.{fapolicyd_strtrim}

strtrim_runs :
    (fapolicyd_strtrim (some (codes "  a b ")) ≡ some (codes "a b"))
    × (fapolicyd_strtrim (some (codes "   ")) ≡ some (codes ""))
    × (fapolicyd_strtrim none ≡ none)
unfolding fapolicyd_strtrim
strtrim_runs = (refl, refl, refl)
