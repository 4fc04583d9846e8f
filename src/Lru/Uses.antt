-- ===== src/Lru/Uses.antt =====
-- `check_lru_cache`, the use of a key.
use mathlib.Core.Path.{subst}
use rhel_fapolicyd.Base.{
  ℕ, suc, ◌<◌, ◌≡◌, ◌≢◌, ◌⊎◌, refl, sym, ap, ◌∙◌, inl, inr, true, false, Option, none, some, List,
  [], ◌∷◌, ◌++◌, ◌==◌, ==_iff, lt→ltb, Bool-cases, Option-cases, arith, length, length-append,
}
use rhel_fapolicyd.Lru.{Ptr, Lru, Run, ok, inc64, slot, check_lru_cache}
use rhel_fapolicyd.Lru.Linked.{Entry, has, Distinct, Linked}
use rhel_fapolicyd.Lru.Moves.{move_to_front-Moved}
use rhel_fapolicyd.Lru.Unlinks.{IsBack, Distinct-remove, ptr_eq_refl}
use rhel_fapolicyd.Lru.Slots.{
  ptr_of, KeysDistinct, find_key, drop_key, ptr_of-Found, find_key-none, ptr_of-drop_other,
  KeysDistinct-drop,
}
use rhel_fapolicyd.Lru.Touch.{bump, touch, IsLru}
use rhel_fapolicyd.Lru.Enqueued.{enqueue-Gives, new_entry}

module _ {ℓ} {A : Type ℓ} where
  -- The run returns the cache and its front, where the entry of the key is now.
  pub record Used (q : Lru A) (key : ℕ) (p : Ptr) (es : List (Entry A))
      (r : Run (Lru A × Option Ptr)) : Type ℓ where
    pub out : Lru A
    pub result : r ≡ ok (out, out.front)
    pub holds : IsLru out (touch key p es)
    pub in_front : slot out.array key ≡ out.front
    pub counters :
        ((slot q.array key ≢ none) × (out.hits ≡ inc64 q.hits) × (out.misses ≡ q.misses))
        ⊎ ((slot q.array key ≡ none) × (out.hits ≡ q.hits) × (out.misses ≡ inc64 q.misses))

  touch-miss :
      (key : ℕ) (p : Ptr) (es : List (Entry A))
      → ptr_of key es ≡ none
      → touch key p es ≡ new_entry key p ∷ es
  unfolding touch
  touch-miss key p [] h = refl
  touch-miss key p (f ∷ fs) h = elim (Bool-cases (f.key == key)) [
    | inl here ↦ ground arith
    | inr there ↦ rw (there, find_key-none key fs (ground arith)) refl
  ]

  touch-hit :
      (key : ℕ) (p : Ptr) (f : Entry A) (fs : List (Entry A)) (e : Entry A)
      → (f.key == key) ≡ false
      → find_key key fs ≡ some e
      → touch key p (f ∷ fs) ≡ bump e ∷ f ∷ drop_key key fs
  unfolding touch
  touch-hit key p f fs e there found = rw (there, found) refl

  IsLru-recount :
      (q : Lru A) (es : List (Entry A)) (h m : ℕ)
      → IsLru q es
      → IsLru (record q { hits = h; misses = m }) es
  IsLru-recount q es h m v = record {
    front = v.front;
    back = v.back;
    linked = v.linked;
    distinct = v.distinct;
    keys = v.keys;
    slots = v.slots;
    filled = v.filled;
    counted = v.counted;
    size = v.size;
    small = v.small;
  }

  use_miss :
      (q : Lru A) (es : List (Entry A)) (key : ℕ) (p : Ptr)
      → IsLru q es
      → key < q.total
      → slot q.array key ≡ none
      → has p es ≡ false
      → Used q key p es (check_lru_cache q key (some p))
  unfolding check_lru_cache
  use_miss q es key p v bound free fresh =
      let g = enqueue-Gives q es key p v bound free fresh in
      let held =
        IsLru-recount g.out (new_entry key p ∷ es) g.out.hits (inc64 g.out.misses) g.holds in
      let free' = sym (v.slots key) ∙ free in
      record {
        out = record g.out { misses = inc64 g.out.misses };
        result = rw (check_lru_cache, lt→ltb key q.total bound, free, g.result) refl;
        holds = rw (touch-miss key p es free') held;
        in_front = held.slots key ∙ rw (ptr_eq_refl key) (sym held.front);
        counters = inr (free, g.hits, ap inc64 g.misses);
      }

  use_front :
      (q : Lru A) (f : Entry A) (fs : List (Entry A)) (key : ℕ) (p : Ptr)
      → IsLru q (f ∷ fs)
      → key < q.total
      → (f.key == key) ≡ true
      → Used q key p (f ∷ fs) (check_lru_cache q key (some p))
  unfolding check_lru_cache touch
  use_front q f fs key p v bound here =
      let at : slot q.array key ≡ some f.ptr = v.slots key ∙ rw here refl in
      record {
        out = record q { hits = inc64 q.hits };
        result =
            rw (check_lru_cache, lt→ltb key q.total bound, at, v.front, ptr_eq_refl f.ptr) refl;
        holds = rw here (IsLru-recount q (f ∷ fs) (inc64 q.hits) q.misses v);
        in_front = at ∙ sym v.front;
        counters = inl (λ e. cc, refl, refl);
      }

  slots_moved :
      (f : Entry A) (fs : List (Entry A)) (key k page : ℕ) (e : Entry A)
      → (f.key == key) ≡ false
      → ptr_of key fs ≡ some page
      → e.key ≡ key
      → e.ptr ≡ page
      → ptr_of k (f ∷ fs) ≡ ptr_of k (bump e ∷ f ∷ drop_key key fs)
  slots_moved f fs key k page e there at at_key at_ptr = elim (Bool-cases (e.key == k)) [
    | inl same ↦
        let is_k : key ≡ k = sym at_key ∙ (==_iff e.key k).0 same in
        rw same (ap (λ j. ptr_of j (f ∷ fs)) (sym is_k) ∙ rw (there, at) (ap some (sym at_ptr)))
    | inr other ↦
        rw
          (other, ptr_of-drop_other key k fs (λ same. ground (arith, ==_iff e.key k, same, at_key)))
          refl
  ]

  keys_moved :
      (f : Entry A) (fs : List (Entry A)) (key : ℕ) (e : Entry A)
      → KeysDistinct (f ∷ fs)
      → (f.key == key) ≡ false
      → e.key ≡ key
      → KeysDistinct (bump e ∷ f ∷ drop_key key fs)
  keys_moved f fs key e (out, d) there at_key =
      let (gone, rest) = KeysDistinct-drop key fs d in
      let other : key ≢ f.key = λ same. ground (arith, ==_iff f.key key, same) in
      (
        ap (λ j. ptr_of j (f ∷ drop_key key fs)) at_key ∙ rw there gone,
        (ptr_of-drop_other key f.key fs other ∙ out, rest),
      )

  moved_length :
      (f : Entry A) (newer : List (Entry A)) (e : Entry A) (older : List (Entry A))
      → length (f ∷ newer ++ e ∷ older) ≡ suc (length (f ∷ newer ++ older))
  moved_length f newer e older =
      rw (length-append newer (e ∷ older), length-append newer older) (omega arith)

  use_moved :
      (q : Lru A) (f : Entry A) (fs : List (Entry A)) (key page : ℕ) (p : Ptr)
      → IsLru q (f ∷ fs)
      → key < q.total
      → (f.key == key) ≡ false
      → ptr_of key fs ≡ some page
      → Used q key p (f ∷ fs) (check_lru_cache q key (some p))
  unfolding check_lru_cache
  use_moved q f fs key page p v bound there found =
      let F = ptr_of-Found key page fs found in
      let e = F.entry in
      let whole : f ∷ fs ≡ f ∷ F.newer ++ e ∷ F.older = ap (λ xs. f ∷ xs) F.split in
      let rest : f ∷ F.newer ++ F.older ≡ f ∷ drop_key key fs = ap (λ xs. f ∷ xs) (sym F.rest) in
      let distinct : Distinct (f ∷ F.newer ++ e ∷ F.older) =
        subst (λ xs. Distinct xs) whole v.distinct in
      let (d_rest, out) = Distinct-remove (f ∷ F.newer) e F.older distinct in
      let m =
        move_to_front-Moved q f F.newer e F.older v.front
          (subst (λ xs. IsBack q.end xs) whole v.back) distinct
          (subst (λ xs. Linked q.store none xs none) whole v.linked) in
      let at : slot q.array key ≡ some e.ptr =
        v.slots key ∙ rw there (found ∙ ap some (sym F.at_ptr)) in
      let not_front : (e.ptr == f.ptr) ≡ false = ground arith in
      let held : IsLru m.out (bump e ∷ f ∷ drop_key key fs) = record {
        front = m.front;
        back = subst (λ xs. IsBack m.out.end (bump e ∷ xs)) rest m.back;
        linked = subst (λ xs. Linked m.out.store none (bump e ∷ xs) none) rest m.linked;
        distinct = subst (λ xs. Distinct (bump e ∷ xs)) rest (out, d_rest);
        keys = keys_moved f fs key e v.keys there F.at_key;
        slots = λ k.
            rw m.array (v.slots k ∙ slots_moved f fs key k page e there found F.at_key F.at_ptr);
        filled = rw (m.array, m.count) v.filled;
        counted =
            m.count
            ∙ v.counted
            ∙ ap length whole
            ∙ moved_length f F.newer e F.older
            ∙ ap (λ xs. suc (length xs)) rest;
        size = rw (m.array, m.total) v.size;
        small = rw m.total v.small;
      } in
      record {
        out = m.out;
        result =
            rw (check_lru_cache, lt→ltb key q.total bound, at, v.front, not_front, m.result) refl;
        holds = rw (touch-hit key p f fs e there F.find) held;
        in_front = held.slots key ∙ rw ((==_iff e.key key).1 F.at_key) (sym held.front);
        counters = inl (λ none_. cc, m.hits, m.misses);
      }

  -- On a sound cache, a use of a key below the size, with a node at a free address, succeeds: it
  -- reaches no `abort` and no pointer to no node. It leaves a sound cache of the list that `touch`
  -- gives, returns the front, which is in the slot of the key, and counts a hit if the slot was in
  -- use and a miss if not.
  pub check_lru_cache-Used :
      (q : Lru A) (es : List (Entry A)) (key : ℕ) (p : Ptr)
      → IsLru q es
      → key < q.total
      → has p es ≡ false
      → Used q key p es (check_lru_cache q key (some p))
  check_lru_cache-Used q [] key p v bound fresh = use_miss q [] key p v bound (v.slots key) fresh
  check_lru_cache-Used q (f ∷ fs) key p v bound fresh = elim (Bool-cases (f.key == key)) [
    | inl here ↦ use_front q f fs key p v bound here
    | inr there ↦ elim (Option-cases (ptr_of key fs)) [
      | inl free ↦ use_miss q (f ∷ fs) key p v bound (v.slots key ∙ rw there free) fresh
      | inr (page, found) ↦ use_moved q f fs key page p v bound there found
    ]
  ]
