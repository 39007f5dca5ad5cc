-- ===== src/EventQueue/Invariant.antt =====
-- The representation invariant of the event ring.
use xiaozhi.Base.{
  ℕ, ◌+◌, ◌%◌, ◌≤◌, ◌<◌, ◌≡◌, ◌≢◌, ◌∙◌, refl, true, List, [], ◌∷◌, some, arith, length, length-set,
  length-replicate, size_mod,
}
use xiaozhi.Base.Window.{tail_push, tail_pop}
use xiaozhi.Event.{Event}
use xiaozhi.EventQueue.{EventQueue, zero_event, init, push, push_all, take_head}

pub record IsValid (q : EventQueue) : Type 0 where
  pub storage : length q.items ≡ q.capacity
  pub small : q.capacity < size_mod
  pub head_in : q.head < q.capacity
  pub count_in : q.count ≤ q.capacity
  pub tail_at : q.tail ≡ (q.head + q.count) % q.capacity

pub init-IsValid :
    (capacity : ℕ) {q : EventQueue}
    → capacity < size_mod
    → init capacity true ≡ some q
    → IsValid q × (q.count ≡ 0) × (q.capacity ≡ capacity)
unfolding init
init-IsValid capacity h e = ground (arith, length-replicate capacity zero_event)

pub push-IsValid : {q : EventQueue} (e : Event) → IsValid q → IsValid (push q e).1
unfolding push
push-IsValid {q} e v =
    ground (arith, length-set q.items q.tail e, tail_push q.capacity q.head q.count q.tail v.small)

pub capacity-push : (q : EventQueue) (e : Event) → (push q e).1.capacity ≡ q.capacity
unfolding push
capacity-push q e = ground arith

pub take_head-IsValid : {q : EventQueue} → IsValid q → q.count ≢ 0 → IsValid (take_head q).1
unfolding take_head
take_head-IsValid {q} v h =
    ground (arith, tail_pop q.capacity q.head q.count q.tail v.small v.head_in h v.tail_at)

pub push_all-IsValid : (es : List Event) {q : EventQueue} → IsValid q → IsValid (push_all q es)
unfolding push_all
push_all-IsValid [] v = v
push_all-IsValid (e ∷ es) v = push_all-IsValid es (push-IsValid e v)

pub capacity-push_all : (q : EventQueue) (es : List Event) → (push_all q es).capacity ≡ q.capacity
unfolding push_all
capacity-push_all q [] = refl
capacity-push_all q (e ∷ es) = capacity-push_all (push q e).1 es ∙ capacity-push q e

pub capacity-take_head : (q : EventQueue) → (take_head q).1.capacity ≡ q.capacity
unfolding take_head
capacity-take_head q = refl
