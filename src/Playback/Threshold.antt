-- ===== src/Playback/Threshold.antt =====
-- The number of frames that starts the device.
use xiaozhi.Base.{
  ℕ, zero, suc, inl, inr, Bool-cases, ◌≡◌, ◌≤◌, ◌<◌, ◌*◌, ◌/◌, ◌-◌, ◌||◌, arith, ltb, ◌==◌,
  if◌then◌else◌, size_mod,
}
use xiaozhi.Playback.{compute_start_threshold}

abbrev pub min : ℕ → ℕ → ℕ
min a b = if ltb a b then a else b

-- The product of two `size_t` values that passes the guard does not wrap, and one that is refused
-- would be longer than any buffer.
guard : (a b : ℕ) → 0 < b → a ≤ (size_mod - 1) / b → a * b < size_mod
guard a b h k = grind arith

beyond : (a b : ℕ) → 0 < b → (size_mod - 1) / b < a → size_mod ≤ a * b
beyond a b h k = grind arith

-- On sizes of a `size_t`, the start threshold is 0 without a buffer, the whole buffer if there is no
-- period or no number of periods, and else the smaller of the buffer and the frames of the periods,
-- their product taken without the wrap of `size_t`.
pub compute_start_threshold_lem :
    (buffer period periods : ℕ)
    → buffer < size_mod
    → compute_start_threshold buffer period periods ≡ (
        if buffer == 0
        then 0
        else if period == 0 || periods == 0
        then buffer
        else min (period * periods) buffer)
unfolding compute_start_threshold
compute_start_threshold_lem buffer period zero h = ground arith
compute_start_threshold_lem buffer period (suc n) h =
    elim (Bool-cases (ltb ((size_mod - 1) / suc n) period)) [
      | inl e ↦ let big = beyond period (suc n) (omega arith) (ground arith) in rw e (ground arith)
      | inr e ↦ let small = guard period (suc n) (omega arith) (ground arith) in rw e (ground arith)
    ]
