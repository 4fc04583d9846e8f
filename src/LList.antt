-- ===== src/LList.antt =====
-- src/library/llist.c: the linked list in which the trust entries are held. A list is the chain of
-- nodes that `first` leads to, each with its address, beside the pointer `last` and the count. A
-- write through `last` replaces what follows the node of that address. The addresses that malloc
-- gives are arguments.
pub mod Calls
pub mod Linked
pub mod Merge
pub mod Removals
mod Tests
use mathlib.Core.Option
use rhel_fapolicyd.Base.{
  ℕ, ◌+◌, ◌-◌, Bool, true, false, Option, none, some, List, [], ◌∷◌, ◌==◌, if◌then◌else◌, Bytes,
  streq,
}

pub record Item : Type 0 where
  pub addr : ℕ
  pub index : Bytes
  pub payload : Option Bytes

pub record LList : Type 0 where
  pub count : ℕ
  pub first : List Item
  pub last : Option ℕ

abbrev pub list_init : LList
list_init = record { count = 0; first = []; last = none }

-- `none`: malloc gave no memory.
unfoldable pub create_item : Option ℕ → Bytes → Option Bytes → Option Item
create_item none index payload = none
create_item (some a) index payload = some (record { addr = a; index = index; payload = payload })

-- `p->next = tail`, with `p` the node of address `z`; `none` where the chain has no such node.
unfoldable pub store_next : ℕ → List Item → List Item → Option (List Item)
store_next z tail [] = none
store_next z tail (x ∷ xs) =
    let further = Option.map (◌∷◌ x) (store_next z tail xs) in
    if x.addr == z then some (x ∷ tail) else further

-- `last->next = tail`; `none` is the write through NULL or to a node that is not in the chain.
abbrev pub link_at : Option ℕ → List Item → List Item → Option (List Item)
link_at none tail xs = none
link_at (some z) tail xs = store_next z tail xs

unfoldable pub link_last : LList → List Item → Option (List Item)
link_last l tail = link_at l.last tail l.first

unfoldable pub list_prepend : LList → Option Item → ℕ × LList
list_prepend l none = (1, l)
list_prepend l (some item) = (0, record l { count = l.count + 1; first = item ∷ l.first })

abbrev pub with_last : LList → Item → Option (List Item) → Option (ℕ × LList)
with_last l item none = none
with_last l item (some xs) =
    some (0, record { count = l.count + 1; first = xs; last = some item.addr })

abbrev pub append_item : LList → List Item → Item → Option (ℕ × LList)
append_item l [] item =
    some (0, record { count = l.count + 1; first = item ∷ []; last = some item.addr })
append_item l (x ∷ xs) item = with_last l item (link_last l (item ∷ []))

-- The code and the list; `none` is a fault.
unfoldable pub list_append : LList → Option Item → Option (ℕ × LList)
unfolding link_last store_next
list_append l none = some (1, l)
list_append l (some item) = append_item l l.first item

abbrev pub emptied : LList → List Item → LList
emptied l [] = l
emptied l (x ∷ xs) = list_init

unfoldable pub list_empty : LList → LList
list_empty l = emptied l l.first

unfoldable pub contains_from : List Item → Bytes → Bool
contains_from [] str = false
contains_from (x ∷ xs) str = if streq str x.index then true else contains_from xs str

unfoldable pub list_contains : LList → Bytes → Bool
unfolding contains_from
list_contains l str = contains_from l.first str

-- The chain without the first node that has the string, and `last`.
pub record Unlinked : Type 0 where
  pub chain : List Item
  pub tail : Option ℕ

abbrev pub behind : Item → Unlinked → Unlinked
behind x u = record { chain = x ∷ u.chain; tail = u.tail }

-- What `if (!lptr->next) list->last = prev` leaves in `last`.
abbrev pub last_after : List Item → Option ℕ → Option ℕ → Option ℕ
last_after [] prev last = prev
last_after (x ∷ xs) prev last = last

unfoldable pub remove_from : Option ℕ → Option ℕ → Bytes → List Item → Option Unlinked
remove_from prev last str [] = none
remove_from prev last str (x ∷ xs) =
    let further = Option.map (behind x) (remove_from (some x.addr) last str xs) in
    if streq str x.index
    then some (record { chain = xs; tail = last_after xs prev last })
    else further

abbrev pub removed : LList → Option Unlinked → ℕ × LList
removed l none = (0, l)
removed l (some u) = (1, record { count = l.count - 1; first = u.chain; last = u.tail })

unfoldable pub list_remove : LList → Bytes → ℕ × LList
unfolding remove_from
list_remove l str = removed l (remove_from none l.last str l.first)

abbrev pub joined : LList → LList → Option (List Item) → Option (LList × LList)
joined dest src none = none
joined dest src (some xs) =
    some (record dest { count = dest.count + src.count; first = xs }, list_init)

abbrev pub merge_at : Option ℕ → LList → LList → Option (LList × LList)
merge_at none dest src = some (src, list_init)
merge_at (some z) dest src = joined dest src (link_last dest src.first)

-- The two lists, with `src` emptied.
unfoldable pub list_merge : LList → LList → Option (LList × LList)
unfolding link_last store_next
list_merge dest src = merge_at dest.last dest src
