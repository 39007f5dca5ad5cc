-- ===== src/Base/Window.antt =====
-- The items of a ring: `count` slots from `head` on, going round at `cap`. The slots are given by a
-- function, so that each ring says for itself what a slot holds.
use Prim.Native.Nat.{ℕ, zero, suc, ◌+◌, ◌-◌, ◌%◌, ◌<◌}
use mathlib.Core.List.{List, [], ◌∷◌, ◌++◌}
use mathlib.Core.Logic.{◌≢◌}
use mathlib.Core.Path.{◌≡◌, refl, sym, ap, ap₂, ◌∙◌}
use native.Mathlib.Decide.{dec_lt}
use native.Mathlib.Nat.{mod-add-mod, mod-eq_of_lt, mod-eq-sub-mod, add-zero}
use native.Mathlib.Omega.{arith}
use xiaozhi.Base.Lists.{length}
use xiaozhi.Base.Tests.{size_mod, add_size, add_size-eq_add}

module _ {ℓ} {A : Type ℓ} (slot : ℕ → A) (cap : ℕ) where
  abbrev pub window : ℕ → ℕ → List A
  window head zero = []
  window head (suc n) = slot head ∷ window ((head + 1) % cap) n

  pub length-window : (head n : ℕ) → length (window head n) ≡ n
  length-window head zero = refl
  length-window head (suc n) = ap suc (length-window ((head + 1) % cap) n)

  -- The code tests `count == 0`, where `window` matches.
  pub window_split :
      (head n : ℕ) → n ≢ 0 → window head n ≡ slot head ∷ window ((head + 1) % cap) (n - 1)
  window_split head zero h = absurd (h refl)
  window_split head (suc n) h = ap (λ k. window head (suc k)) (omega arith)

-- A whole round leads back.
pub round_trip : (cap h : ℕ) → h < cap → (h + cap) % cap ≡ h
round_trip cap h p = grind arith

-- From `h`, between one and `cap - 1` steps round the ring do not lead back to `h`.
pub step-ne_start : (cap h k : ℕ) → h < cap → k + 1 < cap → (h + (k + 1)) % cap ≢ h
step-ne_start cap h k p q = elim (dec_lt (h + (k + 1)) cap) [
  | yes r ↦ omega (arith, mod-eq_of_lt r)
  | no r ↦ omega (
    arith,
    mod-eq-sub-mod {n = h + (k + 1)} {m = cap} (omega arith),
    mod-eq_of_lt {n = h + (k + 1) - cap} {m = cap} (omega arith),
  )
]

pub round : (cap h k : ℕ) → ((h + 1) % cap + k) % cap ≡ (h + (k + 1)) % cap
round cap h k = rw mod-add-mod (ap (λ m. m % cap) (omega arith))

module _ {ℓ} {A : Type ℓ} (f g : ℕ → A) (cap : ℕ) where
  -- A change of one slot outside a window does not show in it.
  pub window_frame :
      (i : ℕ)
      → ((j : ℕ) → j < cap → j ≢ i → g j ≡ f j)
      → (n h : ℕ) → h < cap
      → ((k : ℕ) → k < n → (h + k) % cap ≢ i)
      → window g cap h n ≡ window f cap h n
  window_frame i same zero h p away = refl
  window_frame i same (suc n) h p away =
      ap₂ ◌∷◌ (same h p (λ e. away 0 (omega arith) (rw (add-zero, mod-eq_of_lt p) e))) (
        window_frame i same n ((h + 1) % cap) (omega arith)
          (λ k q e. away (k + 1) (omega arith) (sym (round cap h k) ∙ e)))

  -- Filling the slot just past a window that is not full extends it at its end.
  pub window_push :
      (v : A) (i : ℕ)
      → g i ≡ v
      → ((j : ℕ) → j < cap → j ≢ i → g j ≡ f j)
      → (n h : ℕ) → h < cap
      → n < cap
      → i ≡ (h + n) % cap
      → window g cap h (suc n) ≡ window f cap h n ++ v ∷ []
  window_push v i here same zero h p q e =
      ap (λ x. x ∷ []) (ap g (sym (e ∙ rw (add-zero, mod-eq_of_lt p))) ∙ here)
  window_push v i here same (suc n) h p q e =
      ap₂ ◌∷◌
        (same h p (λ e'.
          step-ne_start cap h n p (omega arith)
            (sym (e' ∙ e ∙ ap (λ m. (h + m) % cap) (omega arith)))))
        (window_push v i here same n ((h + 1) % cap) (omega arith) (omega arith)
          (e ∙ ap (λ m. (h + m) % cap) (omega arith) ∙ sym (round cap h n)))

-- The index past the items stays the sum of `head` and the count after an item is added,
pub tail_after_push : (cap h n t : ℕ) → t ≡ (h + n) % cap → (t + 1) % cap ≡ (h + (n + 1)) % cap
tail_after_push cap h n t e = rw (e, mod-add-mod) (ap (λ m. m % cap) (omega arith))

-- and after one is removed.
pub tail_after_pop :
    (cap h n t : ℕ) → n ≢ 0 → t ≡ (h + n) % cap → t ≡ ((h + 1) % cap + (n - 1)) % cap
tail_after_pop cap h n t some_left e = e ∙ sym (rw mod-add-mod (ap (λ m. m % cap) (omega arith)))

-- The same with steps of `size_t`, which cannot wrap.
pub tail_push :
    (cap h n t : ℕ)
    → cap < size_mod
    → 0 < cap
    → t ≡ (h + n) % cap
    → add_size t 1 % cap ≡ (h + (n + 1)) % cap
tail_push cap h n t small full e =
    rw (add_size-eq_add t 1 (omega arith)) (tail_after_push cap h n t e)

pub tail_pop :
    (cap h n t : ℕ)
    → cap < size_mod
    → h < cap
    → n ≢ 0
    → t ≡ (h + n) % cap
    → t ≡ (add_size h 1 % cap + (n - 1)) % cap
tail_pop cap h n t small inside some_left e =
    rw (add_size-eq_add h 1 (omega arith)) (tail_after_pop cap h n t some_left e)
