-- ===== src/Reader/Memory.antt =====
-- Writes to the region, and what its parts hold then.
use mathlib.Core.List.{append_assoc}
use rhel_fapolicyd.Base.{
  ℕ, zero, suc, ◌+◌, ◌≤◌, ◌≡◌, refl, sym, ap, ◌∙◌, true, some, List, [], ◌∷◌, ◌++◌, leb, arith,
  length, take, drop, length-take, length-drop, length-append, Bytes,
}
use rhel_fapolicyd.Reader.{store_at}

module _ {ℓ} {A : Type ℓ} where
  pub take_first : (xs ys : List A) → take (length xs) (xs ++ ys) ≡ xs
  take_first [] ys = refl
  take_first (x ∷ xs) ys = ap (λ zs. x ∷ zs) (take_first xs ys)

  pub drop_within : (n : ℕ) (xs ys : List A) → n ≤ length xs → drop n (xs ++ ys) ≡ drop n xs ++ ys
  drop_within zero xs ys h = refl
  drop_within (suc n) [] ys h = elim h [ ]
  drop_within (suc n) (x ∷ xs) ys h = drop_within n xs ys (omega arith)

  drop_empty : (m : ℕ) → drop {A = A} m [] ≡ []
  drop_empty zero = refl
  drop_empty (suc m) = refl

  pub drop-drop : (n m : ℕ) (xs : List A) → drop m (drop n xs) ≡ drop (n + m) xs
  drop-drop zero m xs = ap (λ k. drop k xs) (omega arith)
  drop-drop (suc n) m [] = drop_empty m ∙ sym (drop_empty (suc n + m))
  drop-drop (suc n) m (x ∷ xs) =
      drop-drop n m xs ∙ ap (λ k. drop k (x ∷ xs)) {x = suc (n + m)} (omega arith)

pub record Stored (m : Bytes) (off : ℕ) (front back : Bytes) : Type 0 where
  pub out : Bytes
  pub result : store_at m off (front ++ back) ≡ some out
  pub size : length out ≡ length m
  pub before : take off out ≡ take off m
  pub through : take (off + length front) out ≡ take off m ++ front

-- A write within the region gives a region of that size, with the bytes in their place.
pub store_at-Stored :
    (m : Bytes) (off : ℕ) (front back : Bytes)
    → off + length (front ++ back) ≤ length m
    → Stored m off front back
store_at-Stored m off front back h =
    let bs = front ++ back in
    let tail = drop (off + length bs) m in
    let head_size : length (take off m) ≡ off = length-take off m ∙ ground arith in
    let head = take off m in
    let whole : (head ++ bs) ++ tail ≡ (head ++ front) ++ (back ++ tail) =
      ap (λ x. x ++ tail) (sym (append_assoc head front back))
      ∙ append_assoc (head ++ front) back tail in
    let front_size : off + length front ≡ length (take off m ++ front) =
      sym (length-append (take off m) front ∙ ap (λ n. n + length front) head_size) in
    let fits : leb (off + length bs) (length m) ≡ true = ground arith in
    record {
      out = take off m ++ bs ++ tail;
      result = rw (store_at, fits) refl;
      size =
          length-append (head ++ bs) tail
          ∙ omega (arith, head_size, length-append head bs, length-drop (off + length bs) m);
      before =
          ap (take off) (append_assoc head bs tail)
          ∙ ap (λ n. take n (head ++ (bs ++ tail))) (sym head_size)
          ∙ take_first head (bs ++ tail);
      through =
          ap (λ n. take n ((head ++ bs) ++ tail)) front_size
          ∙ ap (take (length (head ++ front))) whole
          ∙ take_first (head ++ front) (back ++ tail);
    }
