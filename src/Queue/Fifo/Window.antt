-- ===== src/Queue/Fifo/Window.antt =====
-- The slots of a ring that are in use.
use rhel_fapolicyd.Base.{
  ℕ, zero, suc, ◌+◌, ◌-◌, ◌<◌, ◌≡◌, ◌≢◌, refl, sym, ap, List, [], ◌∷◌, ◌++◌, ltb, if◌then◌else◌,
  arith, length, set, get_or, ◌∙◌,
}
use rhel_fapolicyd.Queue.{uint_mod, next_slot}

unfoldable pub wrap : ℕ → ℕ → ℕ
wrap n x = if ltb x n then x else x - n

pub next_slot-wrap : (n i : ℕ) → i < n → n < uint_mod → next_slot n i ≡ wrap n (i + 1)
unfolding next_slot wrap
next_slot-wrap n i h k = ground arith

wrap-start : (n i : ℕ) → i < n → wrap n (i + 0) ≡ i
unfolding wrap
wrap-start n i h = ground arith

pub wrap-lt : (n i : ℕ) → i < n → wrap n (i + 1) < n
unfolding wrap
wrap-lt n i h = ground arith

wrap-ne : (n i k : ℕ) → i < n → suc k < n → wrap n (i + suc k) ≢ i
unfolding wrap
wrap-ne n i k h j = ground arith

pub wrap-step : (n i k : ℕ) → i < n → suc k < n → wrap n (i + suc k) ≡ wrap n (wrap n (i + 1) + k)
unfolding wrap
wrap-step n i k h j = ground arith

module _ {ℓ} {A : Type ℓ} where
  -- `k` events from slot `i` on, in a ring of `n` slots.
  unfoldable pub window : A → List A → ℕ → ℕ → ℕ → List A
  window blank ev n zero i = []
  window blank ev n (suc k) i = get_or ev i blank ∷ window blank ev n k (wrap n (i + 1))

  pub length-window : (blank : A) (ev : List A) (n k i : ℕ) → length (window blank ev n k i) ≡ k
  unfolding window
  length-window blank ev n zero i = refl
  length-window blank ev n (suc k) i = ap suc (length-window blank ev n k (wrap n (i + 1)))

  get_or-set_self : (ev : List A) (i : ℕ) (x d : A) → i < length ev → get_or (set ev i x) i d ≡ x
  get_or-set_self [] i x d h = absurd (omega arith)
  get_or-set_self (y ∷ ev) zero x d h = refl
  get_or-set_self (y ∷ ev) (suc i) x d h = get_or-set_self ev i x d (omega arith)

  get_or-set_ne :
      (ev : List A) (i j : ℕ) (x d : A) → i ≢ j → get_or (set ev i x) j d ≡ get_or ev j d
  get_or-set_ne [] i j x d h = refl
  get_or-set_ne (y ∷ ev) zero zero x d h = absurd (h refl)
  get_or-set_ne (y ∷ ev) zero (suc j) x d h = refl
  get_or-set_ne (y ∷ ev) (suc i) zero x d h = refl
  get_or-set_ne (y ∷ ev) (suc i) (suc j) x d h = get_or-set_ne ev i j x d (λ e. h (ap suc e))

  -- A write behind the window lengthens it by one.
  pub window-set :
      (blank x : A) (ev : List A) (n k i p : ℕ)
      → length ev ≡ n
      → i < n
      → k < n
      → p ≡ wrap n (i + k)
      → window blank (set ev p x) n (suc k) i ≡ window blank ev n k i ++ x ∷ []
  unfolding window
  window-set blank x ev n zero i p l hi hk e =
      let here : p ≡ i = e ∙ wrap-start n i hi in
      rw here (ap (λ y. y ∷ []) (get_or-set_self ev i x blank (omega arith)))
  window-set blank x ev n (suc k) i p l hi hk e =
      rw (get_or-set_ne ev p i x blank (λ q. wrap-ne n i k hi hk (sym e ∙ q))) (
        ap (◌∷◌ (get_or ev i blank)) (
          window-set blank x ev n k (wrap n (i + 1)) p l (wrap-lt n i hi) (omega arith)
            (e ∙ wrap-step n i k hi hk)))
