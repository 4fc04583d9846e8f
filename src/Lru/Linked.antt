-- ===== src/Lru/Linked.antt =====
-- Doubly linked segments of the store.
use mathlib.Core.Bool.{or_assoc}
use rhel_fapolicyd.Base.{
  ℕ, ◌≡◌, refl, sym, ap, ◌∙◌, inl, inr, Bool, true, false, ◌||◌, Option, some, List, [], ◌∷◌, ◌++◌,
  ◌==◌, ==_iff, Bool-cases, arith,
}
use rhel_fapolicyd.Lru.{
  Ptr, QNode, Store, ok, write, load, set_prev, set_next, with_prev, with_next,
}

-- A node of the list: its slot in the hash table, its address, and what it stores.
pub record Entry {ℓ} (A : Type ℓ) : Type ℓ where
  pub key : ℕ
  pub ptr : Ptr
  pub uses : ℕ
  pub item : Option A

module _ {ℓ} {A : Type ℓ} where
  abbrev pub has : Ptr → List (Entry A) → Bool
  has a [] = false
  has a (e ∷ es) = (a == e.ptr) || has a es

  abbrev pub Distinct : List (Entry A) → Type 0
  Distinct [] = Unit
  Distinct (e ∷ es) = (has e.ptr es ≡ false) × Distinct es

  -- The first address of a segment that `c` follows, and the last of one that `b` precedes.
  abbrev pub first_of : List (Entry A) → Option Ptr → Option Ptr
  first_of [] c = c
  first_of (e ∷ es) c = some e.ptr

  abbrev pub last_of : List (Entry A) → Option Ptr → Option Ptr
  last_of [] b = b
  last_of (e ∷ es) b = last_of es (some e.ptr)

  abbrev pub node_of : Entry A → Option Ptr → Option Ptr → QNode A
  node_of e b c = record { prev = b; next = c; uses = e.uses; item = e.item }

  -- The nodes of the entries, linked in both directions, between `b` and `c`.
  abbrev pub Linked : Store A → Option Ptr → List (Entry A) → Option Ptr → Type ℓ
  Linked h b [] c = Unit
  Linked h b (e ∷ es) c =
      (h e.ptr ≡ some (node_of e b (first_of es c))) × Linked h (some e.ptr) es c

  pub has-append : (a : Ptr) (xs ys : List (Entry A)) → has a (xs ++ ys) ≡ (has a xs || has a ys)
  has-append a [] ys = refl
  has-append a (x ∷ xs) ys = rw (has-append a xs ys, or_assoc)

  pub first_of-append :
      (xs ys : List (Entry A)) (c : Option Ptr)
      → first_of (xs ++ ys) c ≡ first_of xs (first_of ys c)
  first_of-append [] ys c = refl
  first_of-append (x ∷ xs) ys c = refl

  pub last_of-append :
      (xs ys : List (Entry A)) (b : Option Ptr) → last_of (xs ++ ys) b ≡ last_of ys (last_of xs b)
  last_of-append [] ys b = refl
  last_of-append (x ∷ xs) ys b = last_of-append xs ys (some x.ptr)

  pub Linked-join :
      (h : Store A) (b : Option Ptr) (xs ys : List (Entry A)) (c : Option Ptr)
      → Linked h b xs (first_of ys c)
      → Linked h (last_of xs b) ys c
      → Linked h b (xs ++ ys) c
  Linked-join h b [] ys c l r = r
  Linked-join h b (x ∷ xs) ys c (at, l) r = (
    at ∙ ap (λ k. some (node_of x b k)) (sym (first_of-append xs ys c)),
    Linked-join h (some x.ptr) xs ys c l r,
  )

  pub Linked-split :
      (h : Store A) (b : Option Ptr) (xs ys : List (Entry A)) (c : Option Ptr)
      → Linked h b (xs ++ ys) c
      → Linked h b xs (first_of ys c) × Linked h (last_of xs b) ys c
  Linked-split h b [] ys c l = (tt, l)
  Linked-split h b (x ∷ xs) ys c (at, l) =
      let (left, right) = Linked-split h (some x.ptr) xs ys c l in
      ((at ∙ ap (λ k. some (node_of x b k)) (first_of-append xs ys c), left), right)

  -- A segment survives a change of the store that spares its addresses.
  Linked-frame :
      (h g : Store A) (b : Option Ptr) (xs : List (Entry A)) (c : Option Ptr)
      → ((a : Ptr) → has a xs ≡ true → g a ≡ h a)
      → Linked h b xs c
      → Linked g b xs c
  Linked-frame h g b [] c same l = tt
  Linked-frame h g b (x ∷ xs) c same (at, l) = (
    same x.ptr (ground arith) ∙ at,
    Linked-frame h g (some x.ptr) xs c (λ a i. same a (ground arith)) l,
  )

  pub write_other :
      (h : Store A) (p a : Ptr) (v : Option (QNode A)) → (a == p) ≡ false → write h p v a ≡ h a
  unfolding write
  write_other h p a v other = rw other refl

  pub write_self : (h : Store A) (p : Ptr) (v : Option (QNode A)) → write h p v p ≡ v
  unfolding write
  write_self h p v = rw ((==_iff p p).1 refl) refl

  pub has_differs :
      (a p : Ptr) (xs : List (Entry A)) → has a xs ≡ true → has p xs ≡ false → (a == p) ≡ false
  has_differs a p xs i out = elim (Bool-cases (a == p)) [
    | inr other ↦ other
    | inl same ↦ let clash = ap (λ k. has k xs) ((==_iff a p).0 same) in cc
  ]

  pub Linked-write :
      (h : Store A) (b : Option Ptr) (xs : List (Entry A)) (c : Option Ptr) (p : Ptr)
      (v : Option (QNode A))
      → has p xs ≡ false
      → Linked h b xs c
      → Linked (write h p v) b xs c
  Linked-write h b xs c p v out =
      Linked-frame h (write h p v) b xs c (λ a i. write_other h p a v (has_differs a p xs i out))

  -- A new `prev` of the first node, and a new `next` of the last.
  pub Linked-first :
      (h : Store A) (b b' : Option Ptr) (x : Entry A) (xs : List (Entry A)) (c : Option Ptr)
      → has x.ptr xs ≡ false
      → Linked h b (x ∷ xs) c
      → Linked (write h x.ptr (some (node_of x b' (first_of xs c)))) b' (x ∷ xs) c
  Linked-first h b b' x xs c out (at, l) =
      (write_self h x.ptr _, Linked-write h (some x.ptr) xs c x.ptr _ out l)

  -- The lookups that the code makes.
  pub load-ok : (h : Store A) (p : Ptr) (n : QNode A) → h p ≡ some n → load h (some p) ≡ ok n
  unfolding load
  load-ok h p n e = rw (load, e) refl

  pub set_prev-ok :
      (h : Store A) (p : Ptr) (n : QNode A) (v : Option Ptr)
      → h p ≡ some n
      → set_prev h (some p) v ≡ ok (write h p (some (with_prev n v)))
  unfolding set_prev
  set_prev-ok h p n v e = rw (set_prev, load, e) refl

  pub set_next-ok :
      (h : Store A) (p : Ptr) (n : QNode A) (v : Option Ptr)
      → h p ≡ some n
      → set_next h (some p) v ≡ ok (write h p (some (with_next n v)))
  unfolding set_next
  set_next-ok h p n v e = rw (set_next, load, e) refl
