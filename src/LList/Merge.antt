-- ===== src/LList/Merge.antt =====
-- src/library/llist.c: `list_merge`, and what a later append does to its result.
use rhel_fapolicyd.Base.{
  ℕ, ◌+◌, ◌≡◌, sym, ap, ◌∙◌, inl, inr, none, some, List, [], ◌∷◌, ◌++◌, Option-cases, arith,
}
use rhel_fapolicyd.LList.{
  Item, LList, list_init, store_next, link_at, link_last, append_item, list_append, merge_at,
  joined, with_last, list_merge,
}
use rhel_fapolicyd.LList.Linked.{IsLinked, last_of, last_of-some, link_last-append}

-- What a merge gives.
abbrev pub merged : LList → LList → LList
merged dest src = record {
  count = dest.count + src.count;
  first = dest.first ++ src.first;
  last = dest.last;
}

-- What follows the node that is written to does not matter.
store_next-more :
    (z : ℕ) (tail ys more r : List Item)
    → store_next z tail ys ≡ some r
    → store_next z tail (ys ++ more) ≡ some r
unfolding store_next
store_next-more z tail [] more r h = absurd (cc)
store_next-more z tail (y ∷ ys) more r h = elim (Option-cases (store_next z tail ys)) [
  | inl missing ↦ ground (arith, missing)
  | inr (q, found) ↦ ground (arith, found, store_next-more z tail ys more q found)
]

append_item-link :
    (l : LList) (item : Item) (xs ys : List Item) (x : Item)
    → l.first ≡ x ∷ xs
    → link_last l (item ∷ []) ≡ some ys
    → list_append l (some item)
      ≡ some (0, record { count = l.count + 1; first = ys; last = some item.addr })
unfolding list_append
append_item-link l item xs ys x e h = ap (λ zs. append_item l zs item) e ∙ ap (with_last l item) h

behind_merge :
    (dest : LList) (more : List Item) (item : Item) (r : List Item) (z : ℕ)
    → dest.last ≡ some z
    → link_last dest (item ∷ []) ≡ some r
    → link_at dest.last (item ∷ []) (dest.first ++ more) ≡ some r
unfolding link_last
behind_merge dest more item r z e h =
    ap (λ o. link_at o (item ∷ []) (dest.first ++ more)) e
    ∙ store_next-more z (item ∷ []) dest.first more r
        (ap (λ o. link_at o (item ∷ []) dest.first) (sym e) ∙ h)

linked_merge :
    (dest src : LList) (item : Item) (r : List Item) (z : ℕ)
    → dest.last ≡ some z
    → link_last dest (item ∷ []) ≡ some r
    → link_last (merged dest src) (item ∷ []) ≡ some r
unfolding link_last
linked_merge dest src item r z e h = behind_merge dest src.first item r z e h

last_of-cons :
    (n : ℕ) (l : LList) (x : Item) (xs : List Item)
    → IsLinked n l
    → l.first ≡ x ∷ xs
    → (z : ℕ) × (l.last ≡ some z) × (last_of none (x ∷ xs) ≡ some z)
last_of-cons n l x xs h e =
    let (z, at) = last_of-some x.addr xs in (z, h.ends ∙ ap (last_of none) e ∙ at, at)

-- What a merge of `src` behind a list that is not empty gives, and an append after it.
pub record Merges (n : ℕ) (dest src : LList) (item : Item) : Type 0 where
  pub joins : list_merge dest src ≡ some (merged dest src, list_init)
  pub append_cuts :
      list_append (merged dest src) (some item)
      ≡ some (
        0,
        record {
          count = dest.count + src.count + 1;
          first = dest.first ++ (item ∷ []);
          last = some item.addr;
        },
      )

module _ (n : ℕ) (dest src : LList) (h : IsLinked n dest) (x : Item) (xs : List Item)
    (e : dest.first ≡ x ∷ xs) where
  merge-merged : list_merge dest src ≡ some (merged dest src, list_init)
  unfolding list_merge
  merge-merged =
      let (z, ends, _) = last_of-cons n dest x xs h e in
      ap (λ o. merge_at o dest src) ends
      ∙ ap (joined dest src) (link_last-append n dest x xs src.first h e)

  append-merged :
      (item : Item)
      → list_append (merged dest src) (some item)
        ≡ some (
          0,
          record {
            count = dest.count + src.count + 1;
            first = dest.first ++ (item ∷ []);
            last = some item.addr;
          },
        )
  append-merged item =
      let (z, ends, at) = last_of-cons n dest x xs h e in
      let kept : link_last dest (item ∷ []) ≡ some (dest.first ++ (item ∷ [])) =
        link_last-append n dest x xs (item ∷ []) h e in
      append_item-link (merged dest src) item (xs ++ src.first) (dest.first ++ (item ∷ [])) x
        (ap (λ ys. ys ++ src.first) e) (linked_merge dest src item _ z ends kept)

  -- `list_merge` of a list behind one that is not empty joins their nodes and adds their counts, but
  -- leaves `last` at the node where the first list ended: an append after it cuts off every node of
  -- the second list, while the count still includes them.
  pub list_merge-Merges : (item : Item) → Merges n dest src item
  list_merge-Merges item = record { joins = merge-merged; append_cuts = append-merged item }
