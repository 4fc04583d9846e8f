-- ===== src/LList/Removals.antt =====
-- src/library/llist.c: what `list_remove` leaves of a list.
use mathlib.Core.Option
use rhel_fapolicyd.Base.{
  ℕ, ◌+◌, ◌≡◌, refl, sym, false, inl, inr, Option, none, some, List, [], ◌∷◌, if◌then◌else◌, length,
  Bytes, streq, Bool-cases, arith,
}
use rhel_fapolicyd.LList.{
  Item, LList, list_remove, remove_from, last_after, Unlinked, behind, removed,
}
use rhel_fapolicyd.LList.Linked.{last_of, Below, Absent, Distinct, IsLinked}

-- A plain list of entries without the first that has the string.
unfoldable pub remove_entry : Bytes → List (Bytes × Option Bytes) → List (Bytes × Option Bytes)
remove_entry str [] = []
remove_entry str ((k, v) ∷ es) = if streq str k then es else (k, v) ∷ remove_entry str es

abbrev pub entry_of : Item → Bytes × Option Bytes
entry_of x = (x.index, x.payload)

abbrev pub entries : List Item → List (Bytes × Option Bytes)
entries [] = []
entries (x ∷ xs) = entry_of x ∷ entries xs

-- What the removal from a chain gives.
pub record Unlinks (n : ℕ) (prev : Option ℕ) (str : Bytes) (xs : List Item) (u : Unlinked)
    : Type 0 where
  pub shown : entries u.chain ≡ remove_entry str (entries xs)
  pub shorter : length u.chain + 1 ≡ length xs
  pub tail_end : u.tail ≡ last_of prev u.chain
  pub below : Below n u.chain
  pub distinct : Distinct u.chain
  pub absent : (a : ℕ) → Absent a xs → Absent a u.chain

last_after-last_of :
    (prev : Option ℕ) (x : Item) (xs : List Item)
    → last_after xs prev (last_of (some x.addr) xs) ≡ last_of prev xs
last_after-last_of prev x [] = refl
last_after-last_of prev x (y ∷ ys) = refl

abbrev pub Removes : ℕ → Option ℕ → Bytes → List Item → Option Unlinked → Type 0
Removes n prev str xs none = remove_entry str (entries xs) ≡ entries xs
Removes n prev str xs (some u) = Unlinks n prev str xs u

Removes-behind :
    (n : ℕ) (prev : Option ℕ) (str : Bytes) (x : Item) (xs : List Item) (o : Option Unlinked)
    → streq str x.index ≡ false
    → Below n (x ∷ xs)
    → Distinct (x ∷ xs)
    → Removes n (some x.addr) str xs o
    → Removes n prev str (x ∷ xs) (Option.map (behind x) o)
unfolding remove_entry
Removes-behind n prev str x xs none other b d h = rw (other, h) refl
Removes-behind n prev str x xs (some u) other b d h = record {
  shown = rw (other, h.shown) refl;
  shorter = omega (arith, h.shorter);
  tail_end = h.tail_end;
  below = (b.0, h.below);
  distinct = (h.absent x.addr d.0, h.distinct);
  absent = λ a k. (k.0, h.absent a k.1);
}

pub remove_from-Removes :
    (n : ℕ) (prev last : Option ℕ) (str : Bytes) (xs : List Item)
    → last ≡ last_of prev xs
    → Below n xs
    → Distinct xs
    → Removes n prev str xs (remove_from prev last str xs)
unfolding remove_from remove_entry
remove_from-Removes n prev last str [] ends b d = refl
remove_from-Removes n prev last str (x ∷ xs) ends b d = elim (Bool-cases (streq str x.index)) [
  | inl same ↦ rw same (record {
    shown = rw same refl;
    shorter = omega arith;
    tail_end = rw ends (last_after-last_of prev x xs);
    below = b.1;
    distinct = d.1;
    absent = λ a k. k.1;
  })
  | inr other ↦ rw other (
      Removes-behind n prev str x xs _ other b d
        (remove_from-Removes n (some x.addr) last str xs ends b.1 d.1))
]

-- What a removal promises of the list.
pub record Removed (n : ℕ) (str : Bytes) (l : LList) : Type 0 where
  pub shown : entries (list_remove l str).1.first ≡ remove_entry str (entries l.first)
  pub linked : IsLinked n (list_remove l str).1
  pub told : ((list_remove l str).0 + (list_remove l str).1.count ≡ l.count)

removed-Removed :
    (n : ℕ) (str : Bytes) (l : LList) (o : Option Unlinked)
    → IsLinked n l
    → list_remove l str ≡ removed l o
    → Removes n none str l.first o
    → Removed n str l
removed-Removed n str l none h e r = record {
  shown = rw e (sym r);
  linked = rw e h;
  told = rw e (omega arith);
}
removed-Removed n str l (some u) h e r = record {
  shown = rw e r.shown;
  linked = rw e (record {
    ends = r.tail_end;
    counted = omega (arith, r.shorter, h.counted);
    below = r.below;
    distinct = r.distinct;
  });
  told = rw e (omega (arith, r.shorter, h.counted));
}

pub list_remove-Removed : (n : ℕ) (str : Bytes) (l : LList) → IsLinked n l → Removed n str l
unfolding list_remove
list_remove-Removed n str l h =
    removed-Removed n str l (remove_from none l.last str l.first) h refl
      (remove_from-Removes n none l.last str l.first h.ends h.below h.distinct)
