-- ===== src/LList/Tests.antt =====
-- The list on concrete entries.
use rhel_fapolicyd.Base.{ℕ, ◌≡◌, refl, true, false, none, some, List, [], ◌∷◌, codes}
use rhel_fapolicyd.LList.{Item, LList, list_init, list_prepend, list_append, list_merge}
use rhel_fapolicyd.LList.Linked.{init-IsLinked, appended, appended-IsLinked}
use rhel_fapolicyd.LList.Calls.{Owner, Call, append, remove, contains, empty, Agree, calls-Agree}
use rhel_fapolicyd.LList.Merge.{Merges, list_merge-Merges}

abbrev start : Owner
start = record { list = list_init; next = 0 }

abbrev item : ℕ → Item
item a = record { addr = a; index = codes "/usr/bin/ls"; payload = some (codes "2 1 00") }

abbrev one : LList
one = appended list_init (item 0)

abbrev two : LList
two = appended list_init (item 1)

abbrev work : List Call
work =
    append true (codes "/a") none
    ∷ append true (codes "/b") none
    ∷ append false (codes "/c") none
    ∷ contains (codes "/b")
    ∷ remove (codes "/b")
    ∷ append true (codes "/d") none
    ∷ empty
    ∷ []

calls-Agree_example : Agree start work
calls-Agree_example = calls-Agree start work (init-IsLinked 0)

list_merge-Merges_example : Merges 1 one two (item 5)
list_merge-Merges_example =
    list_merge-Merges 1 one two (appended-IsLinked 0 list_init (item 0) (init-IsLinked 0) refl)
      (item 0) [] refl (item 5)

-- A list that has only been prepended to has no `last`: an append writes through NULL.
append_faults : list_append (list_prepend list_init (some (item 0))).1 (some (item 1)) ≡ none
unfolding list_append list_prepend
append_faults = refl

merge_drops : list_merge (list_prepend list_init (some (item 0))).1 two ≡ some (two, list_init)
unfolding list_merge list_prepend
merge_drops = refl
