-- ===== src/Lru/Touch.antt =====
-- What the cache promises: a list of entries, the newest in front.
use rhel_fapolicyd.Base.{
  ℕ, ◌^◌, ◌<◌, ◌≡◌, refl, none, some, List, [], ◌∷◌, ◌==◌, if◌then◌else◌, length, length-replicate,
}
use rhel_fapolicyd.Lru.{Ptr, Lru, init_lru, slot, inc64}
use rhel_fapolicyd.Lru.Linked.{Entry, Distinct, first_of, Linked}
use rhel_fapolicyd.Lru.Unlinks.{IsBack}
use rhel_fapolicyd.Lru.Slots.{
  taken, ptr_of, KeysDistinct, find_key, drop_key, slot-replicate, taken-replicate,
}

module _ {ℓ} {A : Type ℓ} where
  abbrev pub bump : Entry A → Entry A
  bump e = record e { uses = inc64 e.uses }

  -- A use of a key: its entry moves to the front, or a new one at the address `p` comes there.
  -- A use of the entry in front changes nothing.
  unfoldable pub touch : ℕ → Ptr → List (Entry A) → List (Entry A)
  touch key p [] = record { key = key; ptr = p; uses = 1; item = none } ∷ []
  touch key p (f ∷ fs) = if f.key == key then f ∷ fs else elim (find_key key fs) [
    | none ↦ record { key = key; ptr = p; uses = 1; item = none } ∷ f ∷ fs
    | some e ↦ bump e ∷ f ∷ drop_key key fs
  ]

  -- The cache `q` holds the list `es`: the nodes are linked both ways, the slots of the table point
  -- at them, and the counter counts them.
  pub record IsLru (q : Lru A) (es : List (Entry A)) : Type ℓ where
    pub front : q.front ≡ first_of es none
    pub back : IsBack q.end es
    pub linked : Linked q.store none es none
    pub distinct : Distinct es
    pub keys : KeysDistinct es
    pub slots : (k : ℕ) → slot q.array k ≡ ptr_of k es
    pub filled : taken q.array ≡ q.count
    pub counted : q.count ≡ length es
    pub size : length q.array ≡ q.total
    pub small : q.total < 2 ^ 32

  pub init_lru-IsLru : (qsize : ℕ) → qsize < 2 ^ 32 → IsLru (init_lru {A = A} qsize) []
  unfolding init_lru
  init_lru-IsLru qsize small = record {
    front = refl;
    back = tt;
    linked = tt;
    distinct = tt;
    keys = tt;
    slots = λ k. slot-replicate qsize k;
    filled = taken-replicate qsize;
    counted = refl;
    size = length-replicate qsize none;
    small = small;
  }
