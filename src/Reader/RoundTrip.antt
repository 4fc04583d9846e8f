-- ===== src/Reader/RoundTrip.antt =====
-- Sequences of calls of `fd_fgets_r`.
use mathlib.Core.List.{append-nil, append_assoc}
use rhel_fapolicyd.Base.{
  ℕ, suc, ◌≤◌, ◌≡◌, inl, inr, refl, sym, ap, ◌∙◌, true, false, List, [], ◌∷◌, ◌++◌, length, Bytes,
}
use rhel_fapolicyd.Reader.{Reader, Answer, unread, read_loop, fd_fgets_r}
use rhel_fapolicyd.Reader.Lines.{IsReader, given, safe, still_waits}
use rhel_fapolicyd.Reader.Reads.{
  payload, is_interrupted, Delivered, stay, Delivered-trans, fd_fgets_r-Reads, Answer-cases,
}

module _ {F : Type 0} (read : F → ℕ → Answer × F) where
  -- One call after the other, each with its room for bytes, and all that they return.
  abbrev pub calls : ℕ → List ℕ → Reader → F → Bytes × Reader × F
  calls tries [] st f = ([], st, f)
  calls tries (room ∷ rooms) st f =
      let r = fd_fgets_r read tries st (suc room) f in
      let rest = calls tries rooms r.1 r.2 in (given r.0 ++ rest.0, rest.1, rest.2)

  -- Over any `read` that gives no more than it is asked for, on a region with a byte more than its
  -- size, whatever the sizes of the calls and wherever reads fail or are interrupted: the bytes that
  -- the calls return, followed by those still unread, are the bytes that were unread before, followed
  -- by those that the reads gave.
  pub calls-Delivered :
      (tries : ℕ) (rooms : List ℕ) (st : Reader) (f : F)
      → ((g : F) (m : ℕ) → length (payload (read g m).0) ≤ m)
      → IsReader st
      → (new : Bytes) × Delivered read f new (calls tries rooms st f).2
        × ((calls tries rooms st f).0 ++ unread (calls tries rooms st f).1 ≡ unread st ++ new)
  calls-Delivered tries [] st f law v = ([], stay, sym (append-nil (unread st)))
  calls-Delivered tries (room ∷ rooms) st f law v =
      let r = fd_fgets_r read tries st (suc room) f in
      let c = fd_fgets_r-Reads read tries st room f law v in
      let (new, d, parts) = calls-Delivered tries rooms r.1 r.2 law c.gives.holds in
      let rest = calls tries rooms r.1 r.2 in
      (
        c.new ++ new,
        Delivered-trans read c.delivered d,
        append_assoc (given r.0) rest.0 (unread rest.1)
            ∙ ap (λ x. given r.0 ++ x) parts
            ∙ sym (append_assoc (given r.0) (unread r.1) new)
            ∙ ap (λ x. x ++ new) (sym c.gives.parts)
            ∙ append_assoc (unread st) c.new new,
      )

  -- The descriptor answers a read of `n` bytes with something else than EINTR, within that many calls.
  pub data Settles (n : ℕ) : ℕ → F → Type 0 where
    now : {f : F} {tries : ℕ} → is_interrupted (read f n).0 ≡ false → Settles n (suc tries) f
    later : {f : F} {tries : ℕ} → Settles n tries (read f n).1 → Settles n (suc tries) f

  read_loop-Settles :
      (n : ℕ) {tries : ℕ} {f : F}
      → Settles n tries f
      → is_interrupted (read_loop read tries f n).0 ≡ false
  unfolding read_loop
  read_loop-Settles n (now {f} {tries} e) = elim (Answer-cases (read f n).0) [
    | inl i ↦ let same : true ≡ false = sym (ap is_interrupted i) ∙ e in cc
    | inr (inl i) ↦ rw (read_loop, i) refl
    | inr (inr (bs, i)) ↦ rw (read_loop, i) refl
  ]
  read_loop-Settles n (later {f} {tries} s) =
      let ih = read_loop-Settles n s in
      elim (Answer-cases (read f n).0) [
        | inl i ↦ rw (read_loop, i) ih
        | inr (inl i) ↦ rw (read_loop, i) refl
        | inr (inr (bs, i)) ↦ rw (read_loop, i) refl
      ]

  -- Over such a `read` and region, a call comes to an end within the number of tries in which the
  -- descriptor answers a read of any size: it does not wait, does not fail the assertion and does not
  -- leave the region.
  pub fd_fgets_r-ends :
      (tries : ℕ) (st : Reader) (room : ℕ) (f : F)
      → ((g : F) (m : ℕ) → length (payload (read g m).0) ≤ m)
      → IsReader st
      → ((n : ℕ) → Settles n tries f)
      → (still_waits (fd_fgets_r read tries st (suc room) f).0 ≡ false)
        × (safe (fd_fgets_r read tries st (suc room) f).0 ≡ true)
  fd_fgets_r-ends tries st room f law v settles =
      let c = fd_fgets_r-Reads read tries st room f law v in
      elim c.why [
        | inl e ↦ (c.gives.ended ∙ e, c.gives.sound)
        | inr (n, e) ↦ (c.gives.ended ∙ e ∙ read_loop-Settles n (settles n), c.gives.sound)
      ]
