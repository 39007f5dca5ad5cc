-- ===== src/Base/Memory.antt =====
-- `memcpy` into an array and reads of a part of one, at byte offsets.
use Prim.Native.Nat.{ℕ, zero, suc, ◌+◌, ◌≤◌}
use mathlib.Core.List.{List, [], ◌∷◌, ◌++◌}
use mathlib.Core.Logic.{◌⊎◌, inl, inr}
use mathlib.Core.Path.{◌≡◌, refl, sym, ap, ◌∙◌}
use native.Mathlib.Omega.{arith}
use xiaozhi.Base.Lists.{
  length, take, drop, length-append, take-append_length, length-drop, drop-nil,
}

module _ {ℓ} {A : Type ℓ} where
  -- `memcpy(dst + off, src, length src)`, inside `dst`.
  unfoldable pub copy_at : List A → ℕ → List A → List A
  copy_at dst zero src = src ++ drop (length src) dst
  copy_at [] (suc off) src = []
  copy_at (x ∷ dst) (suc off) src = x ∷ copy_at dst off src

  -- `n` items from `off` on.
  abbrev pub slice : List A → ℕ → ℕ → List A
  slice xs off n = take n (drop off xs)

  pub length-copy_at :
      (dst : List A) (off : ℕ) (src : List A)
      → off + length src ≤ length dst
      → length (copy_at dst off src) ≡ length dst
  unfolding copy_at
  length-copy_at dst zero src h =
      omega (arith, length-append src (drop (length src) dst), length-drop (length src) dst)
  length-copy_at [] (suc off) src h = refl
  length-copy_at (x ∷ dst) (suc off) src h = ap suc (length-copy_at dst off src (omega arith))

  -- What was copied is read back.
  pub slice-copy_at :
      (dst : List A) (off : ℕ) (src : List A)
      → off + length src ≤ length dst
      → slice (copy_at dst off src) off (length src) ≡ src
  unfolding copy_at
  slice-copy_at dst zero src h = take-append_length src (drop (length src) dst)
  slice-copy_at [] (suc off) src h = absurd (omega arith)
  slice-copy_at (x ∷ dst) (suc off) src h = slice-copy_at dst off src (omega arith)

  pub take-append_le : (n : ℕ) (xs ys : List A) → n ≤ length xs → take n (xs ++ ys) ≡ take n xs
  take-append_le zero xs ys h = refl
  take-append_le (suc n) [] ys h = absurd (omega arith)
  take-append_le (suc n) (x ∷ xs) ys h = ap (◌∷◌ x) (take-append_le n xs ys (omega arith))

  -- A copy of at least `n` items shows in the first `n`.
  pub slice-copy_at_le :
      (dst : List A) (off : ℕ) (src : List A) (n : ℕ)
      → off + length src ≤ length dst
      → n ≤ length src
      → slice (copy_at dst off src) off n ≡ take n src
  unfolding copy_at
  slice-copy_at_le dst zero src n h le = take-append_le n src (drop (length src) dst) le
  slice-copy_at_le [] (suc off) src n h le = absurd (omega arith)
  slice-copy_at_le (x ∷ dst) (suc off) src n h le = slice-copy_at_le dst off src n (omega arith) le

  drop-append_ge :
      (k : ℕ) (xs ys : List A) → length xs ≤ k → drop k (xs ++ drop (length xs) ys) ≡ drop k ys
  drop-append_ge k [] ys h = refl
  drop-append_ge zero (x ∷ xs) ys h = absurd (omega arith)
  drop-append_ge (suc k) (x ∷ xs) [] h =
      ap (λ z. drop k (xs ++ z)) (sym (drop-nil A (length xs)))
      ∙ drop-append_ge k xs [] (omega arith)
      ∙ drop-nil A k
  drop-append_ge (suc k) (x ∷ xs) (y ∷ ys) h = drop-append_ge k xs ys (omega arith)

  -- A copy elsewhere does not show.
  pub slice-copy_at_frame :
      (dst : List A) (off : ℕ) (src : List A) (at n : ℕ)
      → (at + n ≤ off) ⊎ (off + length src ≤ at)
      → slice (copy_at dst off src) at n ≡ slice dst at n
  unfolding copy_at
  slice-copy_at_frame dst off src at zero h = refl
  slice-copy_at_frame dst zero src at (suc n) (inl h) = absurd (omega arith)
  slice-copy_at_frame dst zero src at (suc n) (inr h) =
      ap (take (suc n)) (drop-append_ge at src dst (omega arith))
  slice-copy_at_frame [] (suc off) src at (suc n) h = refl
  slice-copy_at_frame (x ∷ dst) (suc off) src zero (suc n) (inl h) =
      ap (◌∷◌ x) (slice-copy_at_frame dst off src zero n (inl (omega arith)))
  slice-copy_at_frame (x ∷ dst) (suc off) src zero (suc n) (inr h) = absurd (omega arith)
  slice-copy_at_frame (x ∷ dst) (suc off) src (suc at) (suc n) (inl h) =
      slice-copy_at_frame dst off src at (suc n) (inl (omega arith))
  slice-copy_at_frame (x ∷ dst) (suc off) src (suc at) (suc n) (inr h) =
      slice-copy_at_frame dst off src at (suc n) (inr (omega arith))
