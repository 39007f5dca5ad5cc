-- ===== src/EventQueue/Abstract.antt =====
-- The event queue without its representation: two rings that hold the same events, wherever their heads
-- lie, are one queue.
use mathlib.Core.Quot
use mathlib.Core.Quot.{Quot, Quot-set}
use xiaozhi.Base.{ℕ, ◌≡◌, ◌↔◌, sym, ap, ap₂, ◌∙◌, List, Option, Status}
use xiaozhi.Event.{Event}
use xiaozhi.EventQueue.{EventQueue}
use xiaozhi.EventQueue as Ring
use xiaozhi.EventQueue.Invariant.{IsValid, push-IsValid, capacity-push}
use xiaozhi.EventQueue.Refine.{contents, push_refines, poll, poll_refines}
use xiaozhi.Fifo

abbrev pub ValidRing : Type 0
ValidRing = (q : EventQueue) × IsValid q

-- The same number of slots, and the same events, oldest first.
abbrev pub Same : ValidRing → ValidRing → Type 0
Same a b = (a.0.capacity ≡ b.0.capacity) × (contents a.0 ≡ contents b.0)

abbrev pub Queue : Type 0
Queue = Quot Same

abbrev pub View : Type 0
View = ℕ × List Event

view-set : IsSet View
view-set = hlevel

abbrev ring_view : ValidRing → View
ring_view a = (a.0.capacity, contents a.0)

pub view_of : Queue → View
view_of = Quot.lift view-set ring_view (λ a b h. cc)

push_ring : Event → ValidRing → Status × ValidRing
push_ring e (q, v) = ((Ring.push q e).0, ((Ring.push q e).1, push-IsValid e v))

poll_ring : ValidRing → Option Event × ValidRing
poll_ring (q, v) = ((poll q).0, ((poll q).1, (poll_refines v).1))

-- What a caller sees of a push: the return value and the queue.
abbrev seen : {A : Type 0} → A × ValidRing → A × Queue
seen (a, r) = (a, Quot.mk r)

seen_path : {A : Type 0} (x y : A × ValidRing) → x.0 ≡ y.0 → Same x.1 y.1 → seen x ≡ seen y
seen_path x y e s = ap₂ (λ a q. (a, q)) e (Quot.sound s)

abbrev pub sized : {A : Type 0} → ℕ → A × List Event → A × View
sized n (a, es) = (a, (n, es))

abbrev viewed : {A : Type 0} → A × ValidRing → A × View
viewed (a, r) = (a, ring_view r)

-- A ring that was pushed to, as a bounded queue sees it.
push_ring_view :
    (e : Event) (a : ValidRing)
    → viewed (push_ring e a) ≡ sized a.0.capacity (Fifo.push a.0.capacity (contents a.0) e)
unfolding push_ring
push_ring_view e (q, v) =
    ap (λ n. sized n ((Ring.push q e).0, contents (Ring.push q e).1)) (capacity-push q e)
    ∙ ap (sized q.capacity) (push_refines e v)

poll_ring_view :
    (a : ValidRing) → viewed (poll_ring a) ≡ sized a.0.capacity (Fifo.pop (contents a.0))
unfolding poll_ring
poll_ring_view (q, v) =
    ap (λ n. sized n ((poll q).0, contents (poll q).1)) (poll_refines v).2
    ∙ ap (sized q.capacity) (poll_refines v).0

push-Same : (e : Event) (a b : ValidRing) → Same a b → seen (push_ring e a) ≡ seen (push_ring e b)
push-Same e a b (cap, held) =
    let same =
      push_ring_view e a
      ∙ ap₂ (λ n es. sized n (Fifo.push n es e)) cap held
      ∙ sym (push_ring_view e b) in
    seen_path (push_ring e a) (push_ring e b) (ap (λ x. x.0) same)
      (ap (λ x. x.1.0) same, ap (λ x. x.1.1) same)

poll-Same : (a b : ValidRing) → Same a b → seen (poll_ring a) ≡ seen (poll_ring b)
poll-Same a b (cap, held) =
    let same =
      poll_ring_view a ∙ ap₂ (λ n es. sized n (Fifo.pop es)) cap held ∙ sym (poll_ring_view b) in
    seen_path (poll_ring a) (poll_ring b) (ap (λ x. x.0) same)
      (ap (λ x. x.1.0) same, ap (λ x. x.1.1) same)

-- The operations of the queue.
pub push : Event → Queue → Status × Queue
push e = Quot.lift (hlevel Quot-set) (λ a. seen (push_ring e a)) (push-Same e)

pub poll_queue : Queue → Option Event × Queue
poll_queue = Quot.lift (hlevel Quot-set) (λ a. seen (poll_ring a)) poll-Same

abbrev pub seen_view : {A : Type 0} → A × Queue → A × View
seen_view (a, q) = (a, view_of q)

view_injective : (a b : Queue) → view_of a ≡ view_of b → a ≡ b
unfolding view_of
view_injective =
    Quot.ind (hlevel Quot-set)
      (λ a. Quot.ind (hlevel Quot-set) (λ b e. Quot.sound (ap (λ x. x.0) e, ap (λ x. x.1) e)))

-- What a queue is, its rings forgotten.
abbrev pub IsBounded : Queue → Type 0
IsBounded a =
    ((b : Queue) → (a ≡ b) ↔ (view_of a ≡ view_of b))
    × ((e : Event)
        → seen_view (push e a) ≡ sized (view_of a).0 (Fifo.push (view_of a).0 (view_of a).1 e))
    × (seen_view (poll_queue a) ≡ sized (view_of a).0 (Fifo.pop (view_of a).1))

-- Valid rings that have as many slots and hold the same events, wherever their heads lie, are equal as
-- queues, and push and poll are functions of queues: they return the same for equal ones. Two queues
-- are equal exactly if they have the same capacity and the same events, oldest first, and push and
-- poll do with these what a bounded queue does.
pub queue-IsBounded : (a : Queue) → IsBounded a
unfolding view_of push poll_queue
queue-IsBounded a = (λ b. (λ e. ap view_of e, view_injective a b), λ e. pushed e a, polled a)
  where
    pushed :
        (e : Event) (q : Queue)
        → seen_view (push e q) ≡ sized (view_of q).0 (Fifo.push (view_of q).0 (view_of q).1 e)
    pushed e = Quot.ind (hlevel) (λ r. push_ring_view e r)

    polled : (q : Queue) → seen_view (poll_queue q) ≡ sized (view_of q).0 (Fifo.pop (view_of q).1)
    polled = Quot.ind (hlevel) (λ r. poll_ring_view r)
