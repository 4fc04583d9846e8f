-- ===== src/Lru/Slots.antt =====
-- The slots of the hash table and the entries that fill them.
use rhel_fapolicyd.Base.{
  ℕ, zero, suc, ◌<◌, ◌≤◌, ◌≡◌, ◌≢◌, refl, sym, ap, ◌∙◌, inl, inr, Option, none, some, List, [], ◌∷◌,
  ◌++◌, ◌==◌, ==_iff, if◌then◌else◌, Bool-cases, arith, length, set, get_elem?-set_self,
  get_elem?-set_ne, replicate,
}
use rhel_fapolicyd.Lru.{Ptr, slot}
use rhel_fapolicyd.Lru.Linked.{Entry}

-- The number of slots in use.
abbrev pub taken : List (Option Ptr) → ℕ
taken [] = 0
taken (none ∷ s) = taken s
taken (some p ∷ s) = suc (taken s)

pub slot-set_self :
    (s : List (Option Ptr)) (k : ℕ) (v : Option Ptr) → k < length s → slot (set s k v) k ≡ v
slot-set_self s k v h = rw (slot, get_elem?-set_self s k v h) refl

pub slot-set_other :
    (s : List (Option Ptr)) (i k : ℕ) (v : Option Ptr) → i ≢ k → slot (set s i v) k ≡ slot s k
slot-set_other s i k v h = rw (slot, get_elem?-set_ne s v h) refl

pub slot-replicate : (n k : ℕ) → slot (replicate n none) k ≡ none
slot-replicate zero k = refl
slot-replicate (suc n) zero = refl
slot-replicate (suc n) (suc k) = slot-replicate n k

pub taken-replicate : (n : ℕ) → taken (replicate n none) ≡ 0
taken-replicate zero = refl
taken-replicate (suc n) = taken-replicate n

pub taken-fill :
    (s : List (Option Ptr)) (k : ℕ) (p : Ptr)
    → k < length s
    → slot s k ≡ none
    → taken (set s k (some p)) ≡ suc (taken s)
taken-fill [] k p h e = elim h [ ]
taken-fill (none ∷ s) zero p h e = refl
taken-fill (some a ∷ s) zero p h e = cc
taken-fill (none ∷ s) (suc k) p h e = taken-fill s k p (omega arith) e
taken-fill (some a ∷ s) (suc k) p h e = ap suc (taken-fill s k p (omega arith) e)

pub taken-clear :
    (s : List (Option Ptr)) (k : ℕ) (p : Ptr)
    → slot s k ≡ some p
    → taken s ≡ suc (taken (set s k none))
taken-clear [] k p e = cc
taken-clear (none ∷ s) zero p e = cc
taken-clear (some a ∷ s) zero p e = refl
taken-clear (none ∷ s) (suc k) p e = taken-clear s k p e
taken-clear (some a ∷ s) (suc k) p e = ap suc (taken-clear s k p e)

pub taken_bound : (s : List (Option Ptr)) → taken s ≤ length s
taken_bound [] = omega arith
taken_bound (none ∷ s) = omega (arith, taken_bound s)
taken_bound (some p ∷ s) = omega (arith, taken_bound s)

pub taken_free :
    (s : List (Option Ptr)) (k : ℕ) → k < length s → slot s k ≡ none → taken s < length s
taken_free [] k h e = elim h [ ]
taken_free (none ∷ s) zero h e = omega (arith, taken_bound s)
taken_free (some a ∷ s) zero h e = cc
taken_free (none ∷ s) (suc k) h e = omega (arith, taken_free s k (omega arith) e)
taken_free (some a ∷ s) (suc k) h e = omega (arith, taken_free s k (omega arith) e)

module _ {ℓ} {A : Type ℓ} where
  -- What the slot of a key holds when the list is `es`.
  abbrev pub ptr_of : ℕ → List (Entry A) → Option Ptr
  ptr_of k [] = none
  ptr_of k (e ∷ es) = if e.key == k then some e.ptr else ptr_of k es

  abbrev pub KeysDistinct : List (Entry A) → Type 0
  KeysDistinct [] = Unit
  KeysDistinct (e ∷ es) = (ptr_of e.key es ≡ none) × KeysDistinct es

  abbrev pub find_key : ℕ → List (Entry A) → Option (Entry A)
  find_key k [] = none
  find_key k (e ∷ es) = if e.key == k then some e else find_key k es

  abbrev pub drop_key : ℕ → List (Entry A) → List (Entry A)
  drop_key k [] = []
  drop_key k (e ∷ es) = if e.key == k then es else e ∷ drop_key k es

  -- The entry of a key, and what stands around it.
  pub record Found (k : ℕ) (p : Ptr) (es : List (Entry A)) : Type ℓ where
    pub newer : List (Entry A)
    pub entry : Entry A
    pub older : List (Entry A)
    pub split : es ≡ newer ++ entry ∷ older
    pub at_key : entry.key ≡ k
    pub at_ptr : entry.ptr ≡ p
    pub find : find_key k es ≡ some entry
    pub rest : drop_key k es ≡ newer ++ older

  pub ptr_of-Found : (k : ℕ) (p : Ptr) (es : List (Entry A)) → ptr_of k es ≡ some p → Found k p es
  ptr_of-Found k p [] h = cc
  ptr_of-Found k p (e ∷ es) h = elim (Bool-cases (e.key == k)) [
    | inl here ↦ record {
      newer = [];
      entry = e;
      older = es;
      split = refl;
      at_key = (==_iff e.key k).0 here;
      at_ptr = ground arith;
      find = rw here refl;
      rest = rw here refl;
    }
    | inr there ↦
        let f = ptr_of-Found k p es (ground arith) in
        record {
          newer = e ∷ f.newer;
          entry = f.entry;
          older = f.older;
          split = ap (λ xs. e ∷ xs) f.split;
          at_key = f.at_key;
          at_ptr = f.at_ptr;
          find = rw there f.find;
          rest = rw there (ap (λ xs. e ∷ xs) f.rest);
        }
  ]

  pub find_key-none : (k : ℕ) (es : List (Entry A)) → ptr_of k es ≡ none → find_key k es ≡ none
  find_key-none k [] h = refl
  find_key-none k (e ∷ es) h = elim (Bool-cases (e.key == k)) [
    | inl here ↦ ground arith
    | inr there ↦ rw there (find_key-none k es (ground arith))
  ]

  pub ptr_of-drop_other :
      (k j : ℕ) (es : List (Entry A)) → k ≢ j → ptr_of j (drop_key k es) ≡ ptr_of j es
  ptr_of-drop_other k j [] h = refl
  ptr_of-drop_other k j (e ∷ es) h = elim (Bool-cases (e.key == k)) [
    | inl here ↦ rw here (ground (arith, (==_iff e.key k).0 here))
    | inr there ↦ rw (there, ptr_of-drop_other k j es h) refl
  ]

  ptr_of-drop_none :
      (k j : ℕ) (es : List (Entry A)) → ptr_of j es ≡ none → ptr_of j (drop_key k es) ≡ none
  ptr_of-drop_none k j [] h = refl
  ptr_of-drop_none k j (e ∷ es) h = elim (Bool-cases (e.key == k)) [
    | inl here ↦ rw here (ground arith)
    | inr there ↦ rw there (elim (Bool-cases (e.key == j)) [
      | inl same ↦ ground arith
      | inr other ↦ rw other (ptr_of-drop_none k j es (ground arith))
    ])
  ]

  pub KeysDistinct-drop :
      (k : ℕ) (es : List (Entry A))
      → KeysDistinct es
      → (ptr_of k (drop_key k es) ≡ none) × KeysDistinct (drop_key k es)
  KeysDistinct-drop k [] d = (refl, tt)
  KeysDistinct-drop k (e ∷ es) (out, d) = elim (Bool-cases (e.key == k)) [
    | inl here ↦ rw here (sym (ap (λ j. ptr_of j es) ((==_iff e.key k).0 here)) ∙ out, d)
    | inr there ↦
        let (gone, rest) = KeysDistinct-drop k es d in
        rw there (rw there gone, (ptr_of-drop_none k e.key es out, rest))
  ]
