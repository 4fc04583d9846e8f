-- ===== src/LList/Linked.antt =====
-- When `last` is the end of the chain, and that the operations keep it there.
use mathlib.Core.Path.{subst}
use rhel_fapolicyd.Base.{
  ℕ, ◌+◌, ◌≤◌, ◌<◌, ◌≡◌, ◌≢◌, refl, sym, ap, ◌∙◌, Option, none, some, List, [], ◌∷◌, ◌++◌, length,
  length-append, arith,
}
use rhel_fapolicyd.LList.{
  Item, LList, append_item, list_init, store_next, link_at, link_last, list_append,
}

abbrev pub last_of : Option ℕ → List Item → Option ℕ
last_of prev [] = prev
last_of prev (x ∷ xs) = last_of (some x.addr) xs

-- Every node lies below `n`, the addresses not given yet.
abbrev pub Below : ℕ → List Item → Type 0
Below n [] = Unit
Below n (x ∷ xs) = (x.addr < n) × Below n xs

abbrev pub Absent : ℕ → List Item → Type 0
Absent a [] = Unit
Absent a (x ∷ xs) = (x.addr ≢ a) × Absent a xs

abbrev pub Distinct : List Item → Type 0
Distinct [] = Unit
Distinct (x ∷ xs) = Absent x.addr xs × Distinct xs

pub record IsLinked (n : ℕ) (l : LList) : Type 0 where
  pub ends : l.last ≡ last_of none l.first
  pub counted : l.count ≡ length l.first
  pub below : Below n l.first
  pub distinct : Distinct l.first

pub init-IsLinked : (n : ℕ) → IsLinked n list_init
init-IsLinked n = record { ends = refl; counted = refl; below = tt; distinct = tt }

last-ne :
    (a z : ℕ) (prev : Option ℕ) (x : Item) (xs : List Item)
    → Absent a (x ∷ xs)
    → last_of prev (x ∷ xs) ≡ some z
    → a ≢ z
last-ne a z prev x [] h e = λ same. h.0 (let s : some x.addr ≡ some z = e in cc)
last-ne a z prev x (y ∷ ys) h e = last-ne a z (some x.addr) y ys h.1 e

-- A write through a `last` that is the end of the chain appends.
pub store_next-append :
    (z : ℕ) (tail : List Item) (prev : Option ℕ) (x : Item) (xs : List Item)
    → Distinct (x ∷ xs)
    → last_of prev (x ∷ xs) ≡ some z
    → store_next z tail (x ∷ xs) ≡ some ((x ∷ xs) ++ tail)
unfolding store_next
store_next-append z tail prev x [] d e = let same : some x.addr ≡ some z = e in ground arith
store_next-append z tail prev x (y ∷ ys) d e =
    let other = last-ne x.addr z (some x.addr) y ys d.0 e in
    ground (arith, store_next-append z tail (some x.addr) y ys d.1 e)

pub Below-mono : (n m : ℕ) (xs : List Item) → n ≤ m → Below n xs → Below m xs
Below-mono n m [] h b = tt
Below-mono n m (x ∷ xs) h b = (omega arith, Below-mono n m xs h b.1)

pub Below-append : (n : ℕ) (xs ys : List Item) → Below n xs → Below n ys → Below n (xs ++ ys)
Below-append n [] ys b c = c
Below-append n (x ∷ xs) ys b c = (b.0, Below-append n xs ys b.1 c)

Below→Absent : (n : ℕ) (xs : List Item) → Below n xs → Absent n xs
Below→Absent n [] b = tt
Below→Absent n (x ∷ xs) b = (λ e. omega arith, Below→Absent n xs b.1)

Absent-snoc :
    (a : ℕ) (xs : List Item) (y : Item) → Absent a xs → y.addr ≢ a → Absent a (xs ++ (y ∷ []))
Absent-snoc a [] y h n = (n, tt)
Absent-snoc a (x ∷ xs) y h n = (h.0, Absent-snoc a xs y h.1 n)

Distinct-snoc :
    (xs : List Item) (y : Item) → Distinct xs → Absent y.addr xs → Distinct (xs ++ (y ∷ []))
Distinct-snoc [] y d h = (tt, tt)
Distinct-snoc (x ∷ xs) y d h =
    (Absent-snoc x.addr xs y d.0 (λ e. h.0 (sym e)), Distinct-snoc xs y d.1 h.1)

last_of-snoc :
    (prev : Option ℕ) (xs : List Item) (y : Item) → last_of prev (xs ++ (y ∷ [])) ≡ some y.addr
last_of-snoc prev [] y = refl
last_of-snoc prev (x ∷ xs) y = last_of-snoc (some x.addr) xs y

-- The list that an append gives.
abbrev pub appended : LList → Item → LList
appended l item = record {
  count = l.count + 1;
  first = l.first ++ (item ∷ []);
  last = some item.addr;
}

pub last_of-some : (prev : ℕ) (xs : List Item) → (z : ℕ) × (last_of (some prev) xs ≡ some z)
last_of-some prev [] = (prev, refl)
last_of-some prev (x ∷ xs) = last_of-some x.addr xs

pub link_last-append :
    (n : ℕ) (l : LList) (x : Item) (xs tail : List Item)
    → IsLinked n l
    → l.first ≡ x ∷ xs
    → link_last l tail ≡ some (l.first ++ tail)
unfolding link_last
link_last-append n l x xs tail h e =
    let (z, at) = last_of-some x.addr xs in
    let ends : l.last ≡ some z = h.ends ∙ ap (last_of none) e ∙ at in
    let d : Distinct (x ∷ xs) = subst Distinct e h.distinct in
    ap (λ o. link_at o tail l.first) ends
    ∙ ap (link_at (some z) tail) e
    ∙ store_next-append z tail none x xs d at
    ∙ ap (λ ys. some (ys ++ tail)) (sym e)

append_item-snoc :
    (n : ℕ) (l : LList) (item : Item) (xs : List Item)
    → IsLinked n l
    → l.first ≡ xs
    → append_item l xs item
      ≡ some (0, record { count = l.count + 1; first = xs ++ (item ∷ []); last = some item.addr })
append_item-snoc n l item [] h e = refl
append_item-snoc n l item (x ∷ xs) h e =
    let linked : link_last l (item ∷ []) ≡ some ((x ∷ xs) ++ (item ∷ [])) =
      link_last-append n l x xs (item ∷ []) h e ∙ ap (λ ys. some (ys ++ (item ∷ []))) e in
    rw linked refl

pub append-snoc :
    (n : ℕ) (l : LList) (item : Item)
    → IsLinked n l
    → list_append l (some item) ≡ some (0, appended l item)
unfolding list_append
append-snoc n l item h = append_item-snoc n l item l.first h refl

pub appended-IsLinked :
    (n : ℕ) (l : LList) (item : Item)
    → IsLinked n l
    → item.addr ≡ n
    → IsLinked (n + 1) (appended l item)
appended-IsLinked n l item h e =
    let absent : Absent item.addr l.first =
      subst (λ a. Absent a l.first) (sym e) (Below→Absent n l.first h.below) in
    record {
      ends = sym (last_of-snoc none l.first item);
      counted = omega (arith, h.counted, length-append l.first (item ∷ []));
      below =
          Below-append (n + 1) l.first (item ∷ [])
            (Below-mono n (n + 1) l.first (omega arith) h.below) (omega arith, tt);
      distinct = Distinct-snoc l.first item h.distinct absent;
    }
