-- ===== src/Client/TextQueue/Capacity.antt =====
-- How large the array of texts becomes when memory is finite.
use xiaozhi.Base.{
  ◌+◌, ◌^◌, ◌<◌, ◌≡◌, ◌⊎◌, refl, Bool, true, false, inl, inr, arith, leb, Bool-cases, size_mod,
  add_size,
}
use xiaozhi.Base.Strings.{Bytes}
use xiaozhi.Client.TextQueue.{
  TextQueue, new_capacity, enlarge, ensure_capacity, append, queue_copy, queue, shift, pop,
}
use xiaozhi.Client.TextQueue.Refine.{IsValid, queue_refines, text_pop_refines}

-- A valid array of fewer than 2 ^ 60 slots.
pub record Bounded (q : TextQueue) : Type 0 where
  pub valid : IsValid q
  pub small : q.capacity < 2 ^ 60

capacity-queue_copy :
    (q : TextQueue) (payload : Bytes) (copied : Bool)
    → (queue_copy q payload copied).1.capacity ≡ q.capacity
unfolding queue_copy append
capacity-queue_copy q payload true = refl
capacity-queue_copy q payload false = refl

capacity-queue :
    (q : TextQueue) (payload : Bytes) (memory copied : Bool)
    → q.count + 1 < size_mod
    → ((queue q payload memory copied).1.capacity ≡ q.capacity)
      ⊎ ((memory ≡ true)
          × ((queue q payload memory copied).1.capacity ≡ new_capacity q (q.count + 1)))
unfolding queue ensure_capacity
capacity-queue q payload memory copied h =
    let step : add_size q.count 1 ≡ q.count + 1 = omega arith in
    elim (Bool-cases (leb (q.count + 1) q.capacity)) [
      | inl fits ↦ rw (step, fits) (inl (capacity-queue_copy q payload copied))
      | inr full ↦ elim (Bool-cases memory) [
        | inl found ↦
            rw (step, full, found)
              (inr (
                refl,
                capacity-queue_copy (enlarge q (new_capacity q (q.count + 1))) payload copied,
              ))
        | inr missing ↦ rw (step, full, missing) (inl refl)
      ]
    ]

-- A text that is queued leaves it so, as long as `realloc` finds no memory for more slots.
pub queue-Bounded :
    {q : TextQueue} (payload : Bytes) (memory copied : Bool)
    → (memory ≡ true → new_capacity q (q.count + 1) < 2 ^ 60)
    → Bounded q
    → Bounded (queue q payload memory copied).1
queue-Bounded {q} payload memory copied fits b = record {
  valid = (queue_refines payload memory copied b.valid (omega (arith, b.small))).0;
  small = elim (capacity-queue q payload memory copied (omega (arith, b.small, b.valid.count_in))) [
    | inl e ↦ rw e b.small
    | inr (m, e) ↦ rw e (fits m)
  ];
}

capacity-pop : (q : TextQueue) → (pop q).1.capacity ≡ q.capacity
unfolding pop shift
capacity-pop q = ground arith

pub pop-Bounded : {q : TextQueue} → Bounded q → Bounded (pop q).1
pop-Bounded {q} b = record {
  valid = (text_pop_refines b.valid).0;
  small = rw (capacity-pop q) b.small;
}
