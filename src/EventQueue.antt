-- ===== src/EventQueue.antt =====
-- src/event_queue.c: the ring of events between the threads and the main loop. Each call holds the
-- mutex, but for the time that `pthread_cond_timedwait` sleeps: what other threads push in that time
-- is part of the schedule that `pop` takes. Pointers to the queue and to the event are not NULL.
pub mod Abstract
pub mod Deadline
pub mod Invariant
pub mod Refine
pub mod Sleeping
pub mod Waiting
use xiaozhi.Base.{
  ℕ, ◌+◌, ◌-◌, ◌%◌, Bool, true, false, not, ◌||◌, List, [], ◌∷◌, Option, none, some, Status, ok,
  failed, ◌==◌, ltb, if◌then◌else◌, add_size, get_or, set, replicate,
}
use xiaozhi.Base.Int.{ℤ, pos, is_positive}
use xiaozhi.Event.{EventType, Event}

pub record EventQueue : Type 0 where
  pub items : List Event
  pub capacity : ℕ
  pub head : ℕ
  pub tail : ℕ
  pub count : ℕ

-- An item as `calloc` leaves it.
abbrev pub zero_event : Event
zero_event = record { type = EventType.nothing; code = pos 0; data_len = 0; text = [] }

-- `allocated` is whether `calloc` found the memory.
unfoldable pub init : ℕ → Bool → Option EventQueue
init capacity allocated =
    if capacity == 0 || not allocated
    then none
    else some (record {
      items = replicate capacity zero_event;
      capacity = capacity;
      head = 0;
      tail = 0;
      count = 0;
    })

unfoldable pub push : EventQueue → Event → Status × EventQueue
push queue event = if queue.count == queue.capacity then (failed, queue) else (
  ok,
  record queue {
    items = set queue.items queue.tail event;
    tail = add_size queue.tail 1 % queue.capacity;
    count = add_size queue.count 1;
  },
)

-- Pushes by other threads, in order; their return values are theirs.
unfoldable pub push_all : EventQueue → List Event → EventQueue
push_all queue [] = queue
push_all queue (e ∷ es) = push_all (push queue e).1 es

-- What one `pthread_cond_timedwait` returned, and what was pushed while it slept.
pub data Wake : Type 0 where
  woken timed_out broken : Wake

pub record Sleep : Type 0 where
  pub pushed : List Event
  pub wake : Wake

-- The results 1, 0 and -1.
pub data Waited : Type 0 where
  ready timeout failure : Waited

-- The `while` loop, over the sleeps that it makes; `none` means that it still sleeps after these.
unfoldable pub wait_loop : EventQueue → List Sleep → Option (Waited × EventQueue)
wait_loop queue [] = if queue.count == 0 then none else some (ready, queue)
wait_loop queue (s ∷ sleeps) =
    let queue' = push_all queue s.pushed in
    let rest = wait_loop queue' sleeps in
    if queue.count == 0
    then (elim s.wake [
      | woken ↦ rest
      | timed_out ↦ some (timeout, queue')
      | broken ↦ some (failure, queue')
    ])
    else some (ready, queue)

unfoldable pub wait_locked : EventQueue → ℤ → List Sleep → Option (Waited × EventQueue)
wait_locked queue timeout_ms sleeps =
    if is_positive timeout_ms
    then wait_loop queue sleeps
    else some (if ltb 0 queue.count then ready else timeout, queue)

-- `*event = items[head]` and the lines after it.
unfoldable pub take_head : EventQueue → Event × EventQueue
take_head queue = (
  get_or queue.items queue.head zero_event,
  record queue { head = add_size queue.head 1 % queue.capacity; count = queue.count - 1 },
)

pub data Popped : Type 0 where
  event : Event → Popped
  nothing failure : Popped

finish_pop : Waited → EventQueue → Popped × EventQueue
finish_pop ready queue = let (e, queue') = take_head queue in (event e, queue')
finish_pop timeout queue = (nothing, queue)
finish_pop failure queue = (Popped.failure, queue)

unfoldable pub pop : EventQueue → ℤ → List Sleep → Option (Popped × EventQueue)
unfolding finish_pop
pop queue timeout_ms sleeps = elim (wait_locked queue timeout_ms sleeps) [
  | none ↦ none
  | some (w, queue') ↦ some (finish_pop w queue')
]

unfoldable pub destroy : EventQueue → EventQueue
destroy queue = record { items = []; capacity = 0; head = 0; tail = 0; count = 0 }
