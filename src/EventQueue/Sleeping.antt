-- ===== src/EventQueue/Sleeping.antt =====
-- How long `event_queue_wait_locked` sleeps, and the queue that it then finds.
use xiaozhi.Base.{
  ℕ, zero, suc, ◌-◌, ◌≡◌, ◌≢◌, refl, sym, ap, ◌∙◌, List, [], ◌∷◌, ◌++◌, append-nil, some, arith,
  take, length, length-append, length-take, ◌<◌,
}
use xiaozhi.Event.{Event}
use xiaozhi.EventQueue.Invariant.{IsValid}
use xiaozhi.EventQueue.Refine.{contents, length-contents, push_all_refines}
use xiaozhi.EventQueue.{
  EventQueue, Sleep, Wake, woken, timed_out, broken, Waited, ready, timeout, failure, push_all,
  wait_loop,
}

-- What was pushed in the first `n` sleeps.
abbrev pub pushed_in : ℕ → List Sleep → List Event
pushed_in zero sleeps = []
pushed_in (suc n) [] = []
pushed_in (suc n) (s ∷ sleeps) = s.pushed ++ pushed_in n sleeps

push_all-append :
    (es fs : List Event) (q : EventQueue) → push_all q (es ++ fs) ≡ push_all (push_all q es) fs
unfolding push_all
push_all-append [] fs q = refl
push_all-append (e ∷ es) fs q = push_all-append es fs _

-- How many sleeps a wait makes that starts with so many events: none if there is one, and otherwise as
-- many as it takes until one ends by a timeout or an error or leaves an event behind.
abbrev pub made : ℕ → List Sleep → ℕ
made (suc count) sleeps = 0
made zero [] = 0
made zero (s ∷ sleeps) = elim s.wake [
  | woken ↦ (elim s.pushed [ [] ↦ suc (made zero sleeps) | _ ∷ _ ↦ 1 ])
  | _ ↦ 1
]

-- How the last of these sleeps ends; `woken` if there is none.
abbrev pub last_wake : ℕ → List Sleep → Wake
last_wake (suc count) sleeps = woken
last_wake zero [] = woken
last_wake zero (s ∷ sleeps) = elim s.wake [
  | woken ↦ (elim s.pushed [ [] ↦ last_wake zero sleeps | _ ∷ _ ↦ woken ])
  | timed_out ↦ timed_out
  | broken ↦ broken
]

abbrev pub waited_as : Wake → Waited
waited_as woken = ready
waited_as timed_out = timeout
waited_as broken = failure

-- The queue and the answer after the wait.
pub record Slept (q : EventQueue) (count : ℕ) (sleeps : List Sleep) (w : Waited) (q' : EventQueue)
    : Type 0 where
  pub queue : q' ≡ push_all q (pushed_in (made count sleeps) sleeps)
  pub answer : w ≡ waited_as (last_wake count sleeps)
  pub filled : w ≡ ready → q'.count ≢ 0

-- One push into an empty queue is kept.
pushed-filled :
    (q : EventQueue) (e : Event) (es : List Event)
    → IsValid q
    → q.count ≡ 0
    → (push_all q (e ∷ es)).count ≢ 0
pushed-filled q e es v empty none_left =
    let all = push_all_refines (e ∷ es) v in
    let room : 0 < q.capacity - q.count = omega (arith, v.head_in) in
    omega (
      arith,
      none_left,
      length-contents (push_all q (e ∷ es)),
      ap length all,
      length-append (contents q) (take (q.capacity - q.count) (e ∷ es)),
      length-take (q.capacity - q.count) (e ∷ es),
      room,
    )

wait_loop-filled :
    (sleeps : List Sleep) (q : EventQueue) (k : ℕ) {w : Waited} {q' : EventQueue}
    → q.count ≡ suc k
    → wait_loop q sleeps ≡ some (w, q')
    → (w ≡ ready) × (q' ≡ q)
unfolding wait_loop
wait_loop-filled [] q k c e = (ground arith, ground arith)
wait_loop-filled (s ∷ sleeps) q k c e = (ground arith, ground arith)

wait_loop-empty :
    (s : Sleep) (sleeps : List Sleep) (q : EventQueue) {w : Waited} {q' : EventQueue}
    → q.count ≡ 0
    → wait_loop q (s ∷ sleeps) ≡ some (w, q')
    → (elim s.wake [
      | woken ↦ wait_loop (push_all q s.pushed) sleeps
      | timed_out ↦ some (timeout, push_all q s.pushed)
      | broken ↦ some (failure, push_all q s.pushed)
    ])
      ≡ some (w, q')
unfolding wait_loop
wait_loop-empty s sleeps q c e = rw c at e

-- The first sleep of a wait that finds no event.
wake_Slept :
    (k : Wake) (pushed : List Event) (sleeps : List Sleep) (q : EventQueue) {w : Waited}
    {q' : EventQueue}
    → IsValid q
    → q.count ≡ 0
    → (wait_loop q sleeps ≡ some (w, q') → Slept q 0 sleeps w q')
    → (elim k [
      | woken ↦ wait_loop (push_all q pushed) sleeps
      | timed_out ↦ some (timeout, push_all q pushed)
      | broken ↦ some (failure, push_all q pushed)
    ])
      ≡ some (w, q')
    → Slept q 0 (record { pushed = pushed; wake = k } ∷ sleeps) w q'
unfolding push_all
wake_Slept woken [] sleeps q v c later e =
    let r = later e in record { queue = r.queue; answer = r.answer; filled = r.filled }
wake_Slept woken (x ∷ xs) sleeps q v c later e =
    let q1 = push_all q (x ∷ xs) in
    let some_left = pushed-filled q x xs v c in
    let (r, same) = wait_loop-filled sleeps q1 (q1.count - 1) (omega (arith, some_left)) e in
    record {
      queue = same ∙ ap (push_all q) (sym (append-nil (x ∷ xs)));
      answer = r;
      filled = λ _ h. some_left (sym (ap (λ (b : EventQueue). b.count) same) ∙ h);
    }
wake_Slept timed_out pushed sleeps q {w} {q'} v c later e =
    let same : q' ≡ push_all q pushed = ground arith in
    record {
      queue = same ∙ ap (push_all q) (sym (append-nil pushed));
      answer = ground arith;
      filled = λ r. ground arith;
    }
wake_Slept broken pushed sleeps q {w} {q'} v c later e =
    let same : q' ≡ push_all q pushed = ground arith in
    record {
      queue = same ∙ ap (push_all q) (sym (append-nil pushed));
      answer = ground arith;
      filled = λ r. ground arith;
    }

not_yet : (q : EventQueue) {x : Waited × EventQueue} → q.count ≡ 0 → wait_loop q [] ≡ some x → ⊥
unfolding wait_loop
not_yet q c e = ground arith

still_filled : {q q' : EventQueue} {k : ℕ} → q.count ≡ suc k → q' ≡ q → q'.count ≢ 0
still_filled c same = λ h. absurd (omega (arith, c, ap (λ (b : EventQueue). b.count) same, h))

pub wait_loop-Slept :
    (sleeps : List Sleep) (q : EventQueue) (count : ℕ) {w : Waited} {q' : EventQueue}
    → IsValid q
    → q.count ≡ count
    → wait_loop q sleeps ≡ some (w, q')
    → Slept q count sleeps w q'
unfolding push_all
wait_loop-Slept [] q (suc k) v c e =
    let (r, same) = wait_loop-filled [] q k c e in
    record { queue = same; answer = r; filled = λ _. still_filled c same }
wait_loop-Slept (s ∷ sleeps) q (suc k) v c e =
    let (r, same) = wait_loop-filled (s ∷ sleeps) q k c e in
    record { queue = same; answer = r; filled = λ _. still_filled c same }
wait_loop-Slept [] q zero v c e = absurd (not_yet q c e)
wait_loop-Slept (s ∷ sleeps) q zero v c e =
    wake_Slept s.wake s.pushed sleeps q v c (wait_loop-Slept sleeps q zero v c)
      (wait_loop-empty s sleeps q c e)
