-- ===== src/Client/TextQueue/Refine.antt =====
-- The array of texts behaves as a queue without bound.
use native.Mathlib.Decide.{ℕ_discrete}
use xiaozhi.Base.{
  ℕ, zero, suc, ◌+◌, ◌-◌, ◌^◌, ◌≤◌, ◌<◌, ◌≡◌, ◌≢◌, ◌⊎◌, refl, sym, ap, ◌∙◌, Bool, true, false, inl,
  inr, List, [], ◌∷◌, ◌++◌, none, some, Status, ok, failed, arith, ltb, leb, Bool-cases, size_mod,
  add_size, length, length-append, length-set, length-replicate, take, take-append_length,
  length-take, drop, get_or, set, replicate,
}
use xiaozhi.Base.Memory.{copy_at, slice, length-copy_at, take-append_le}
use xiaozhi.Base.Strings.{Bytes}
use xiaozhi.Client.TextQueue.{
  TextQueue, new_capacity, enlarge, ensure_capacity, append, queue_copy, queue, shift, pop,
}
use xiaozhi.Client.TextQueue.Growth.{new_capacity_enough}

pub record IsValid (q : TextQueue) : Type 0 where
  pub slots : length q.items ≡ q.capacity
  pub count_in : q.count ≤ q.capacity

abbrev pub contents : TextQueue → List Bytes
contents q = take q.count q.items

take-set :
    (xs : List Bytes) (n : ℕ) (v : Bytes)
    → n < length xs
    → take (suc n) (set xs n v) ≡ take n xs ++ v ∷ []
take-set [] n v h = absurd (omega arith)
take-set (x ∷ xs) zero v h = refl
take-set (x ∷ xs) (suc n) v h = ap (◌∷◌ x) (take-set xs n v (omega arith))

take_split :
    (n : ℕ) (xs : List Bytes)
    → n ≢ 0
    → n ≤ length xs
    → take n xs ≡ get_or xs 0 [] ∷ take (n - 1) (drop 1 xs)
take_split zero xs h le = absurd (h refl)
take_split (suc n) [] h le = absurd (omega arith)
take_split (suc n) (x ∷ xs) h le = ap (λ k. x ∷ take k xs) (omega arith)

append-IsValid :
    {q : TextQueue} (m : Bytes)
    → IsValid q
    → q.count < q.capacity
    → q.capacity < size_mod
    → IsValid (append q m)
unfolding append
append-IsValid {q} m v h small = record {
  slots = length-set _ _ _ ∙ v.slots;
  count_in = omega arith;
}

contents-append :
    {q : TextQueue} (m : Bytes)
    → IsValid q
    → q.count < q.capacity
    → q.capacity < size_mod
    → contents (append q m) ≡ contents q ++ m ∷ []
unfolding append
contents-append {q} m v h small =
    let step : add_size q.count 1 ≡ suc q.count = omega arith in
    rw step (take-set q.items q.count m (omega (arith, v.slots)))

-- A queue with room for one more, holding the same.
record Ready (q q' : TextQueue) : Type 0 where
  valid : IsValid q'
  room : q'.count < q'.capacity
  small : q'.capacity < size_mod
  same : contents q' ≡ contents q

enlarge-Ready :
    {q : TextQueue} (capacity : ℕ)
    → IsValid q
    → q.count < capacity
    → q.capacity ≤ capacity
    → capacity < size_mod
    → Ready q (enlarge q capacity)
enlarge-Ready {q} capacity v h more small = record {
  valid = record {
    slots = omega (
      arith,
      length-append q.items (replicate (capacity - q.capacity) []),
      length-replicate {A = Bytes} (capacity - q.capacity) [],
      v.slots,
    );
    count_in = omega arith;
  };
  room = h;
  small = small;
  same = take-append_le q.count q.items _ (omega (arith, v.slots, v.count_in));
}

-- A queue of fewer than 2^62 slots is made ready, or `realloc` fails and nothing is changed.
ensure_capacity-Ready :
    {q : TextQueue} (memory : Bool)
    → IsValid q
    → q.capacity < 2 ^ 62
    → ((q' : TextQueue) × (ensure_capacity q (add_size q.count 1) memory ≡ (ok, q')) × Ready q q')
      ⊎ ((ensure_capacity q (add_size q.count 1) memory ≡ (failed, q)) × (memory ≡ false))
unfolding ensure_capacity
ensure_capacity-Ready {q} memory v small =
    let step : add_size q.count 1 ≡ q.count + 1 = omega (arith, v.count_in) in
    elim (Bool-cases (leb (q.count + 1) q.capacity)) [
      | inl fits ↦ inl (
        q,
        rw (step, fits),
        record { valid = v; room = ground arith; small = omega arith; same = refl },
      )
      | inr full ↦
          let (enough, bound) =
            new_capacity_enough q (q.count + 1) (ground arith) (omega (arith, v.count_in)) in
          elim (Bool-cases memory) [
            | inl found ↦ inl (
              enlarge q (new_capacity q (q.count + 1)),
              rw (step, full, found),
              enlarge-Ready (new_capacity q (q.count + 1)) v (omega arith) (ground arith)
                  (omega (arith, v.count_in)),
            )
            | inr missing ↦ inr (rw (step, full, missing), missing)
          ]
    ]

-- What `xiaozhi_client_queue_text` does to the texts that wait, `texts`.
abbrev pub Queued : List Bytes → Bytes → Bool → Bool → Status × TextQueue → Type 0
Queued texts payload memory copied (ok, q') = contents q' ≡ texts ++ payload ∷ []
Queued texts payload memory copied (failed, q') =
    (contents q' ≡ texts) × ((memory ≡ false) ⊎ (copied ≡ false))

queued :
    {q q' : TextQueue} (payload : Bytes) (memory copied : Bool)
    → Ready q q'
    → IsValid (queue_copy q' payload copied).1
      × Queued (contents q) payload memory copied (queue_copy q' payload copied)
unfolding queue_copy
queued {q} {q'} payload memory true r = (
  append-IsValid payload r.valid r.room r.small,
  contents-append payload r.valid r.room r.small ∙ ap (λ xs. xs ++ payload ∷ []) r.same,
)
queued payload memory false r = (r.valid, (r.same, inr refl))

-- On a valid array of fewer than 2 ^ 62 slots, `xiaozhi_client_queue_text` puts the text behind
-- those that wait, or fails for want of memory and leaves those that wait as they are; the array
-- stays valid.
pub queue_refines :
    {q : TextQueue} (payload : Bytes) (memory copied : Bool)
    → IsValid q
    → q.capacity < 2 ^ 62
    → IsValid (queue q payload memory copied).1
      × Queued (contents q) payload memory copied (queue q payload memory copied)
unfolding queue
queue_refines {q} payload memory copied v small = elim (ensure_capacity-Ready memory v small) [
  | inl (q', e, r) ↦ rw e (queued payload memory copied r)
  | inr (e, missing) ↦ rw e (v, (refl, inl missing))
]

slice_all : (xs : List Bytes) (n : ℕ) → n + 1 ≤ length xs → length (slice xs 1 n) ≡ n
slice_all [] n h = absurd (omega arith)
slice_all (x ∷ xs) n h = omega (arith, length-take n xs)

take-copy_at : (xs ys : List Bytes) (n : ℕ) → length ys ≡ n → take n (copy_at xs 0 ys) ≡ ys
unfolding copy_at
take-copy_at xs ys n e = rw (← e) (take-append_length ys (drop (length ys) xs))

-- The `memmove` leaves the texts behind the first.
contents-shift :
    {q : TextQueue}
    → IsValid q
    → q.count ≢ 0
    → contents (shift q) ≡ take (q.count - 1) (drop 1 q.items)
unfolding shift
contents-shift {q} v h = elim (Bool-cases (ltb 1 q.count)) [
  | inl many ↦
      let n = q.count - 1 in
      let size : length (slice q.items 1 n) ≡ n =
        slice_all q.items n (omega (arith, v.slots, v.count_in)) in
      rw many (take-copy_at q.items (slice q.items 1 n) n size)
  | inr one ↦ let none_left : q.count - 1 ≡ 0 = ground arith in rw (one, none_left)
]

shift-IsValid : {q : TextQueue} → IsValid q → q.count ≢ 0 → IsValid (shift q)
unfolding shift
shift-IsValid {q} v h =
    let n = q.count - 1 in
    elim (Bool-cases (ltb 1 q.count)) [
      | inl many ↦
          let size : length (slice q.items 1 n) ≡ n =
            slice_all q.items n (omega (arith, v.slots, v.count_in)) in
          rw many (record {
            slots =
                length-copy_at q.items 0 (slice q.items 1 n) (omega (arith, v.slots, v.count_in))
                ∙ v.slots;
            count_in = omega arith;
          })
      | inr one ↦ rw one (record { slots = v.slots; count_in = omega arith })
    ]

pop_empty : (q : TextQueue) → q.count ≡ 0 → pop q ≡ (none, q)
unfolding pop
pop_empty q h = ground arith

pop-some : (q : TextQueue) → q.count ≢ 0 → pop q ≡ (some (get_or q.items 0 []), shift q)
unfolding pop
pop-some q h = ground arith

-- On a valid array, `xiaozhi_client_pop_text_locked` takes the oldest text and leaves the others
-- in order, or finds none and changes nothing; the array stays valid.
pub text_pop_refines :
    {q : TextQueue}
    → IsValid q
    → IsValid (pop q).1
      × (((contents q ≡ []) × (pop q ≡ (none, q)))
          ⊎ ((m : Bytes) × ((pop q).0 ≡ some m) × (contents q ≡ m ∷ contents (pop q).1)))
text_pop_refines {q} v = elim (ℕ_discrete q.count 0) [
  | yes h ↦ rw (pop_empty q h) (v, inl (ap (λ n. take n q.items) h, refl))
  | no h ↦ rw (pop-some q h) (
    shift-IsValid v h,
    inr (
      get_or q.items 0 [],
      refl,
      take_split q.count q.items h (omega (arith, v.slots, v.count_in))
          ∙ ap (◌∷◌ (get_or q.items 0 [])) (sym (contents-shift v h)),
    ),
  )
]
