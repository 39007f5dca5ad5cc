-- ===== src/EventQueue/Refine.antt =====
-- A valid event ring behaves as the bounded queue of its events.
use xiaozhi.Base.{
  ℕ, ◌+◌, ◌-◌, ◌≡◌, ◌≢◌, refl, sym, List, [], ◌∷◌, ◌++◌, append_assoc, append-nil, Option, none,
  some, arith, length, take, take-nil, take-cons, get_or, set, get_or-set_self, get_or-set_ne,
  add_size,
}
use native.Mathlib.Decide.{ℕ_discrete}
use xiaozhi.Base.Int.{pos}
use xiaozhi.Base.Window.{window, length-window, window_split, window_push}
use xiaozhi.Event.{Event}
use xiaozhi.EventQueue.Invariant.{
  IsValid, push-IsValid, capacity-push, take_head-IsValid, capacity-take_head,
}
use xiaozhi.EventQueue.{
  EventQueue, Popped, event, zero_event, push, push_all, take_head, pop, wait_locked,
}
use xiaozhi.Fifo
use xiaozhi.Fifo.{Op, put, get, Reply, answered, received}

abbrev slot : EventQueue → ℕ → Event
slot q i = get_or q.items i zero_event

abbrev pub contents : EventQueue → List Event
contents q = window (slot q) q.capacity q.head q.count

pub length-contents : (q : EventQueue) → length (contents q) ≡ q.count
length-contents q = length-window (slot q) q.capacity q.head q.count

pub push_refines :
    {q : EventQueue} (e : Event)
    → IsValid q
    → let (s, q') = push q e in (s, contents q') ≡ Fifo.push q.capacity (contents q) e
unfolding push Fifo.push
push_refines {q} e v = ground (
  arith,
  length-contents q,
  window_push (slot q) (λ i. get_or (set q.items q.tail e) i zero_event) q.capacity e q.tail
      (get_or-set_self q.items q.tail e zero_event (omega arith))
      (λ j h ne. get_or-set_ne q.items q.tail j e zero_event (λ p. ne (sym p))) q.count q.head,
)

-- What `*event` receives, and what is left.
pub take_head_refines :
    {q : EventQueue}
    → IsValid q
    → q.count ≢ 0
    → let (e, q') = take_head q in contents q ≡ e ∷ contents q'
unfolding take_head
take_head_refines {q} v h =
    let step : add_size q.head 1 ≡ q.head + 1 = omega arith in
    rw step (window_split (slot q) q.capacity q.head q.count h)

polled : EventQueue → Option (Popped × EventQueue) → Option Event × EventQueue
polled q none = (none, q)
polled q (some (event e, q')) = (some e, q')
polled q (some (_, q')) = (none, q')

-- A pop that does not wait, as the main loop's with a timeout of 0 would be.
unfoldable pub poll : EventQueue → Option Event × EventQueue
unfolding polled
poll q = polled q (pop q (pos 0) [])

poll_empty : (q : EventQueue) → q.count ≡ 0 → poll q ≡ (none, q)
unfolding poll pop wait_locked
poll_empty q h = ground arith

poll_ready : (q : EventQueue) → q.count ≢ 0 → poll q ≡ (some (take_head q).0, (take_head q).1)
unfolding poll pop wait_locked
poll_ready q h = ground arith

-- The calls of a client in order, with what each returns.
unfoldable pub run : EventQueue → List (Op Event) → List (Reply Event)
run q [] = []
run q (put e ∷ ops) = let (s, q') = push q e in answered s ∷ run q' ops
run q (get ∷ ops) = let (e, q') = poll q in received e ∷ run q' ops

pub poll_refines :
    {q : EventQueue}
    → IsValid q
    → let (e, q') = poll q in
      ((e, contents q') ≡ Fifo.pop (contents q)) × IsValid q' × (q'.capacity ≡ q.capacity)
unfolding Fifo.pop
poll_refines {q} v = elim (ℕ_discrete q.count 0) [
  | yes h ↦ rw (poll_empty q h) (rw h refl, v, refl)
  | no h ↦
      rw (poll_ready q h) (rw (take_head_refines v h), take_head-IsValid v h, capacity-take_head q)
]

-- No sequence of pushes and polls tells a valid ring from the bounded queue of its contents.
pub event_run_refines :
    (ops : List (Op Event)) {q : EventQueue}
    → IsValid q
    → run q ops ≡ Fifo.run q.capacity (contents q) ops
unfolding run Fifo.run
event_run_refines [] v = refl
event_run_refines (put e ∷ ops) {q} v =
    rw (event_run_refines ops (push-IsValid e v), ← push_refines e v, capacity-push)
event_run_refines (get ∷ ops) {q} v =
    let (same, valid, cap) = poll_refines v in rw (event_run_refines ops valid, ← same, cap)

push_full : (q : EventQueue) (e : Event) → q.count ≡ q.capacity → (push q e).1 ≡ q
unfolding push
push_full q e h = ground arith

push_room :
    {q : EventQueue} (e : Event)
    → IsValid q
    → q.count ≢ q.capacity
    → ((push q e).1.count ≡ q.count + 1) × (contents (push q e).1 ≡ contents q ++ e ∷ [])
unfolding push Fifo.push
push_room {q} e v h = ground (arith, push_refines e v, length-contents q)

-- Pushes are accepted, in order, as long as there is room.
pub push_all_refines :
    (es : List Event) {q : EventQueue}
    → IsValid q
    → contents (push_all q es) ≡ contents q ++ take (q.capacity - q.count) es
unfolding push_all
push_all_refines [] {q} v = rw (take-nil Event, append-nil)
push_all_refines (e ∷ es) {q} v = elim (ℕ_discrete q.count q.capacity) [
  | yes h ↦ ground (arith, push_full q e, push_all_refines es v)
  | no h ↦ ground (
    arith,
    push_room e v h,
    push_all_refines es (push-IsValid e v),
    capacity-push q e,
    take-cons (q.capacity - q.count) e es,
    append_assoc (contents q) (e ∷ []) (take (q.capacity - q.count - 1) es),
  )
]
