-- ===== src/MsgQueue/Refine.antt =====
-- A message ring holds the newest messages.
use native.Mathlib.Decide.{ℕ_discrete}
use xiaozhi.Base.{
  ℕ, suc, ◌+◌, ◌-◌, ◌%◌, ◌≤◌, ◌<◌, ◌^◌, ◌≡◌, ◌≢◌, sym, ap, ◌∙◌, true, List, [], ◌∷◌, ◌++◌,
  append_assoc, append-nil, map, some, ◌⊎◌, inl, inr, ltb, ◌==◌, if◌then◌else◌, Bool-cases, arith,
  length, length-set, length-replicate, drop, get_or, set, get_or-set_self, get_or-set_ne,
}
use xiaozhi.Base.Strings.{Bytes, truncate}
use xiaozhi.Base.Window.{
  window, length-window, window_split, window_push, tail_after_push, tail_after_pop,
}
use xiaozhi.MsgQueue.{MsgQueue, max_msg_len, init, advance, store, push, pop}

pub record IsValid (q : MsgQueue) : Type 0 where
  pub slots : length q.buffer ≡ q.capacity
  pub small : q.capacity < 2 ^ 31
  pub head_in : q.head < q.capacity
  pub count_in : q.count ≤ q.capacity
  pub tail_at : q.tail ≡ (q.head + q.count) % q.capacity

pub init-IsValid :
    (capacity : ℕ) {q : MsgQueue}
    → 0 < capacity
    → capacity < 2 ^ 31
    → init capacity true true ≡ some q
    → IsValid q × (q.count ≡ 0)
unfolding init
init-IsValid capacity h small e = ground (arith, length-replicate {A = Bytes} capacity [])

advance-IsValid : {q : MsgQueue} → IsValid q → q.count ≢ 0 → IsValid (advance q)
unfolding advance
advance-IsValid {q} v h = record {
  slots = v.slots;
  small = v.small;
  head_in = omega arith;
  count_in = omega arith;
  tail_at = tail_after_pop q.capacity q.head q.count q.tail h v.tail_at;
}

store-IsValid : {q : MsgQueue} (m : Bytes) → IsValid q → q.count < q.capacity → IsValid (store q m)
unfolding store
store-IsValid {q} m v h = record {
  slots = length-set q.buffer q.tail _ ∙ v.slots;
  small = v.small;
  head_in = v.head_in;
  count_in = omega arith;
  tail_at = tail_after_push q.capacity q.head q.count q.tail v.tail_at;
}

push_full : (q : MsgQueue) (m : Bytes) → q.count ≡ q.capacity → push q m ≡ store (advance q) m
unfolding push
push_full q m h = ground arith

push_room : (q : MsgQueue) (m : Bytes) → q.count ≢ q.capacity → push q m ≡ store q m
unfolding push
push_room q m h = ground arith

-- Without its oldest message a full queue has room.
advance_room :
    {q : MsgQueue}
    → IsValid q
    → q.count ≡ q.capacity
    → (q.count ≢ 0) × ((advance q).count < (advance q).capacity)
unfolding advance
advance_room v h = omega arith

pub push-IsValid : {q : MsgQueue} (m : Bytes) → IsValid q → IsValid (push q m)
push-IsValid {q} m v = elim (ℕ_discrete q.count q.capacity) [
  | yes full ↦ rw (push_full q m full) (
      let (some_left, room) = advance_room v full in
      store-IsValid m (advance-IsValid v some_left) room)
  | no room ↦ rw (push_room q m room) (store-IsValid m v (omega (arith, v.count_in)))
]

abbrev pub contents : MsgQueue → List Bytes
contents q = window (λ i. get_or q.buffer i []) q.capacity q.head q.count

pub length-contents : (q : MsgQueue) → length (contents q) ≡ q.count
length-contents q = length-window (λ i. get_or q.buffer i []) q.capacity q.head q.count

store_refines :
    {q : MsgQueue} (m : Bytes)
    → IsValid q
    → q.count < q.capacity
    → contents (store q m) ≡ contents q ++ truncate max_msg_len m ∷ []
unfolding store
store_refines {q} m v h =
    let count : q.count + 1 ≡ suc q.count = omega arith in
    rw count (
      window_push (λ i. get_or q.buffer i [])
        (λ i. get_or (set q.buffer q.tail (truncate max_msg_len m)) i []) q.capacity
        (truncate max_msg_len m) q.tail (get_or-set_self q.buffer q.tail _ [] (omega arith))
        (λ j p ne. get_or-set_ne q.buffer q.tail j _ [] (λ e. ne (sym e))) q.count q.head v.head_in
        h v.tail_at)

advance_refines :
    {q : MsgQueue}
    → IsValid q
    → q.count ≢ 0
    → contents q ≡ get_or q.buffer q.head [] ∷ contents (advance q)
unfolding advance
advance_refines {q} v h = window_split (λ i. get_or q.buffer i []) q.capacity q.head q.count h

-- `msg_queue_push` appends the first 255 bytes of the message; a full queue first loses its oldest.
pub push_refines :
    {q : MsgQueue} (m : Bytes)
    → IsValid q
    → contents (push q m)
      ≡ drop (q.count + 1 - q.capacity) (contents q) ++ truncate max_msg_len m ∷ []
push_refines {q} m v = elim (ℕ_discrete q.count q.capacity) [
  | yes full ↦
      let (some_left, room) = advance_room v full in
      let one : q.count + 1 - q.capacity ≡ 1 = omega arith in
      rw (push_full q m full, one, advance_refines v some_left)
        (store_refines m (advance-IsValid v some_left) room)
  | no room ↦
      let none_lost : q.count + 1 - q.capacity ≡ 0 = omega (arith, v.count_in) in
      rw (push_room q m room, none_lost) (store_refines m v (omega (arith, v.count_in)))
]

window_empty : (q : MsgQueue) → q.count ≡ 0 → contents q ≡ []
window_empty q h = ap (window (λ i. get_or q.buffer i []) q.capacity q.head) h

-- On a valid queue, `msg_queue_pop` copies out as much of the oldest message as the caller's
-- buffer takes, and removes it; on an empty queue it returns 0 and changes nothing.
pub msg_pop_refines :
    {q : MsgQueue} (buf : Bytes) (buf_size : ℕ)
    → IsValid q
    → ((contents q ≡ []) × (pop q buf buf_size ≡ ((0, buf), q)))
      ⊎ ((m : Bytes) × (contents q ≡ m ∷ contents (pop q buf buf_size).1)
          × ((pop q buf buf_size).0 ≡ (length (truncate buf_size m), truncate buf_size m)))
unfolding pop
msg_pop_refines {q} buf buf_size v = elim (Bool-cases (ltb 0 q.count)) [
  | inl some_left ↦
      inr (get_or q.buffer q.head [], rw some_left (advance_refines v (ground arith)), rw some_left)
  | inr empty ↦ inl (window_empty q (ground arith), rw empty)
]

unfoldable pub push_all : MsgQueue → List Bytes → MsgQueue
push_all q [] = q
push_all q (m ∷ ms) = push_all (push q m) ms

push_count :
    {q : MsgQueue} (m : Bytes)
    → IsValid q
    → ((push q m).capacity ≡ q.capacity)
      × ((push q m).count ≡ (if q.count == q.capacity then q.count else q.count + 1))
unfolding push store advance
push_count {q} m v = ground arith

push_then :
    (ms : List Bytes) {q : MsgQueue} (m : Bytes)
    → IsValid q
    → drop
        ((push q m).count + length ms - (push q m).capacity)
        (contents (push q m) ++ map (truncate max_msg_len) ms)
      ≡ drop
          (q.count + suc (length ms) - q.capacity)
          (contents q ++ truncate max_msg_len m ∷ map (truncate max_msg_len) ms)
push_then ms {q} m v = elim (ℕ_discrete q.count q.capacity) [
  | yes full ↦
      let (some_left, room) = advance_room v full in
      let lost : (push q m).count + length ms - (push q m).capacity ≡ length ms =
        ground (arith, push_count m v) in
      let more : q.count + suc (length ms) - q.capacity ≡ suc (length ms) = omega arith in
      let one : q.count + 1 - q.capacity ≡ 1 = omega arith in
      rw (lost, more, push_refines m v, one, advance_refines v some_left) (rw append_assoc)
  | no room ↦
      let lost : (push q m).count + length ms - (push q m).capacity
          ≡ q.count + suc (length ms) - q.capacity =
        ground (arith, push_count m v) in
      let none_lost : q.count + 1 - q.capacity ≡ 0 = omega (arith, v.count_in) in
      rw (lost, push_refines m v, none_lost) (rw append_assoc)
]

-- After any messages a valid queue holds the newest ones, each cut to 255 bytes, as many as it
-- can.
pub msg_push_all_refines :
    (ms : List Bytes) {q : MsgQueue}
    → IsValid q
    → contents (push_all q ms)
      ≡ drop (q.count + length ms - q.capacity) (contents q ++ map (truncate max_msg_len) ms)
unfolding push_all
msg_push_all_refines [] {q} v =
    let none_lost : q.count + 0 - q.capacity ≡ 0 = omega (arith, v.count_in) in
    rw (none_lost, append-nil)
msg_push_all_refines (m ∷ ms) {q} v = msg_push_all_refines ms (push-IsValid m v) ∙ push_then ms m v
