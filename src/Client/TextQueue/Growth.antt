-- ===== src/Client/TextQueue/Growth.antt =====
-- How far the array of texts grows.
use xiaozhi.Base.{
  ℕ, zero, suc, ◌+◌, ◌*◌, ◌%◌, ◌^◌, ◌≤◌, ◌<◌, ◌≡◌, ◌⊎◌, inl, inr, refl, arith, ltb, ◌==◌,
  Bool-cases, size_mod,
}
use xiaozhi.Client.TextQueue.{TextQueue, double_up, new_capacity}

-- The loop ends with its test false: with fuel for the distance the result is large enough, and
-- below twice the need if the loop ran at all.
double_up_enough :
    (fuel c needed : ℕ)
    → 0 < c
    → needed ≤ 2 ^ 63
    → needed ≤ fuel + c
    → (needed ≤ double_up fuel c needed)
      × ((double_up fuel c needed ≡ c) ⊎ (double_up fuel c needed < 2 * needed))
unfolding double_up
double_up_enough zero c needed pos small enough = (omega arith, inl refl)
double_up_enough (suc fuel) c needed pos small enough = elim (Bool-cases (ltb c needed)) [
  | inl more ↦
      let lt : c < needed = ground arith in
      let twice : c * 2 % size_mod ≡ c * 2 = omega arith in
      rw (more, twice)
        (ground (arith, double_up_enough fuel (c * 2) needed (omega arith) small (omega arith)))
  | inr stop ↦ rw stop (ground arith)
]

-- If more slots are needed than there are, and at most 2 ^ 63, `ensure_text_capacity` asks for
-- enough, and for fewer than twice as many or at most 4: its loop ends, and the size does not
-- wrap.
pub new_capacity_enough :
    (q : TextQueue) (needed : ℕ)
    → q.capacity < needed
    → needed ≤ 2 ^ 63
    → (needed ≤ new_capacity q needed)
      × ((new_capacity q needed < 2 * needed) ⊎ (new_capacity q needed ≤ 4))
unfolding new_capacity
new_capacity_enough q needed lt small = elim (Bool-cases (q.capacity == 0)) [
  | inl none ↦
      rw none (ground (arith, double_up_enough needed 4 needed (omega arith) small (omega arith)))
  | inr some ↦
      let twice : q.capacity * 2 % size_mod ≡ q.capacity * 2 = omega arith in
      rw (some, twice)
        (ground (
          arith,
          double_up_enough needed (q.capacity * 2) needed (ground arith) small (omega arith),
        ))
]
