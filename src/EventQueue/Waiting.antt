-- ===== src/EventQueue/Waiting.antt =====
-- `event_queue_pop` with a timeout, against what other threads push while it sleeps.
use xiaozhi.Base.{
  ℕ, ◌-◌, ◌≡◌, ◌≢◌, subst, ◌⊎◌, inl, inr, refl, sym, ap, ◌∙◌, Bool, true, false, List, [], ◌∷◌,
  ◌++◌, none, some, ltb, arith, take, length, if◌then◌else◌, Bool-cases, Option-cases,
}
use xiaozhi.Base.Int.{ℤ, is_positive}
use xiaozhi.Event.{Event}
use xiaozhi.EventQueue.Invariant.{IsValid, push_all-IsValid, take_head-IsValid}
use xiaozhi.EventQueue.Refine.{contents, length-contents, take_head_refines, push_all_refines}
use xiaozhi.EventQueue.{
  EventQueue, Sleep, Wake, woken, timed_out, broken, Waited, ready, timeout, Popped, event,
  push_all, wait_loop, wait_locked, take_head, finish_pop, pop,
}
use xiaozhi.EventQueue.Sleeping.{pushed_in, made, last_wake, waited_as, Slept, wait_loop-Slept}

-- What a pop returns and leaves, of what the queue held and others pushed.
abbrev pub Splits : List Event → Popped → List Event → Type 0
Splits held (event e) left = held ≡ e ∷ left
Splits held _ left = held ≡ left

-- The events that a queue has after the pushes of `n` sleeps.
abbrev pub held : ℕ → EventQueue → List Sleep → List Event
held n q sleeps = contents q ++ take (q.capacity - q.count) (pushed_in n sleeps)

-- An event is returned exactly if the last sleep, if any, ended with one in the queue.
abbrev pub Answers : Wake → Popped → Type 0
Answers woken (event e) = Unit
Answers timed_out Popped.nothing = Unit
Answers broken Popped.failure = Unit
Answers _ _ = ⊥

-- A pop that does not wait.
abbrev pub Polls : List Event → Popped → List Event → Type 0
Polls [] Popped.nothing left = left ≡ []
Polls (e ∷ es) (event e') left = (e' ≡ e) × (left ≡ es)
Polls _ _ _ = ⊥

-- A pop with a timeout that is positive, or not.
abbrev pub Pops : Bool → EventQueue → List Sleep → Popped → EventQueue → Type 0
Pops true q sleeps p q' =
    Splits (held (made q.count sleeps) q sleeps) p (contents q')
    × Answers (last_wake q.count sleeps) p
Pops false q sleeps p q' = Polls (contents q) p (contents q')

contents-Slept :
    {q q' : EventQueue} {count : ℕ} {sleeps : List Sleep} {w : Waited}
    → IsValid q
    → Slept q count sleeps w q'
    → held (made count sleeps) q sleeps ≡ contents q'
contents-Slept {q} {q'} {count} {sleeps} v s =
    sym (ap contents s.queue ∙ push_all_refines (pushed_in (made count sleeps) sleeps) v)

valid-Slept :
    {q q' : EventQueue} {count : ℕ} {sleeps : List Sleep} {w : Waited}
    → IsValid q
    → Slept q count sleeps w q'
    → IsValid q'
valid-Slept {count} {sleeps} v s =
    rw s.queue (push_all-IsValid (pushed_in (made count sleeps) sleeps) v)

finish-Splits :
    (k : Wake) {q' : EventQueue} {held : List Event}
    → IsValid q'
    → (waited_as k ≡ ready → q'.count ≢ 0)
    → held ≡ contents q'
    → let x = finish_pop (waited_as k) q' in
      Splits held x.0 (contents x.1) × Answers k x.0 × IsValid x.1
unfolding finish_pop
finish-Splits woken v f h = (h ∙ take_head_refines v (f refl), tt, take_head-IsValid v (f refl))
finish-Splits timed_out v f h = (h, tt, v)
finish-Splits broken v f h = (h, tt, v)

abbrev PopsValid : Bool → EventQueue → List Sleep → Popped × EventQueue → Type 0
PopsValid b q sleeps x = Pops b q sleeps x.0 x.1 × IsValid x.1

-- The wait has ended.
waited-Pops :
    {q : EventQueue} {sleeps : List Sleep} {w : Waited} {waited : EventQueue}
    → IsValid q
    → Slept q q.count sleeps w waited
    → PopsValid true q sleeps (finish_pop w waited)
waited-Pops {q} {sleeps} {w} {waited} v s =
    let (splits, answers, valid) =
      finish-Splits (last_wake q.count sleeps) {q' = waited}
        {held = held (made q.count sleeps) q sleeps} (valid-Slept v s)
        (λ r. s.filled (s.answer ∙ r)) (contents-Slept v s) in
    subst (λ w. PopsValid true q sleeps (finish_pop w waited)) (sym s.answer)
      ((splits, answers), valid)

no_items : {A : Type 0} (xs : List A) → length xs ≡ 0 → xs ≡ []
no_items [] e = refl
no_items (x ∷ xs) e = absurd (omega (arith, e))

-- There was no wait.
polls-Pops :
    (q : EventQueue) (sleeps : List Sleep) (b : Bool)
    → IsValid q
    → ltb 0 q.count ≡ b
    → PopsValid false q sleeps (finish_pop (if b then ready else timeout) q)
unfolding finish_pop
polls-Pops q sleeps true v h =
    let some_left : q.count ≢ 0 = ground arith in
    let (e, q') = take_head q in
    (
      subst (λ es. Polls es (event e) (contents q')) (sym (take_head_refines v some_left))
          (refl, refl),
      take_head-IsValid v some_left,
    )
polls-Pops q sleeps false v h =
    let none_left : q.count ≡ 0 = ground arith in
    let empty = no_items (contents q) (length-contents q ∙ none_left) in
    (subst (λ es. Polls es Popped.nothing (contents q)) (sym empty) empty, v)

wait_locked-loop :
    (q : EventQueue) (timeout_ms : ℤ) (sleeps : List Sleep) {waited : EventQueue} {w : Waited}
    → is_positive timeout_ms ≡ true
    → wait_locked q timeout_ms sleeps ≡ some (w, waited)
    → wait_loop q sleeps ≡ some (w, waited)
unfolding wait_locked
wait_locked-loop q timeout_ms sleeps t h = rw t at h

wait_locked-now :
    (q : EventQueue) (timeout_ms : ℤ) (sleeps : List Sleep) {waited : EventQueue} {w : Waited}
    → is_positive timeout_ms ≡ false
    → wait_locked q timeout_ms sleeps ≡ some (w, waited)
    → ((if ltb 0 q.count then ready else timeout) ≡ w) × (q ≡ waited)
unfolding wait_locked
wait_locked-now q timeout_ms sleeps f h = (cc (rw f at h), cc (rw f at h))

pop-PopsValid :
    {q : EventQueue} {x : Popped × EventQueue} (timeout_ms : ℤ) (sleeps : List Sleep)
    → IsValid q
    → pop q timeout_ms sleeps ≡ some x
    → PopsValid (is_positive timeout_ms) q sleeps x
unfolding pop
pop-PopsValid {q} {x} timeout_ms sleeps v e =
    elim (Option-cases (wait_locked q timeout_ms sleeps)) [
      | inl sleeping ↦ cc (rw (sleeping, pop) at e)
      | inr ((w, waited), h) ↦
          let same : finish_pop w waited ≡ x = cc (rw (h, pop) at e) in
          elim (Bool-cases (is_positive timeout_ms)) [
            | inl t ↦
                let looped : wait_loop q sleeps ≡ some (w, waited) =
                  wait_locked-loop q timeout_ms sleeps t h in
                rw t (
                  subst (PopsValid true q sleeps) same
                    (waited-Pops v (wait_loop-Slept sleeps q q.count v refl looped)))
            | inr f ↦
                let (answer, still) = wait_locked-now q timeout_ms sleeps f h in
                rw f (
                  subst (PopsValid false q sleeps)
                    (ap (λ w. finish_pop w q) answer ∙ ap (finish_pop w) still ∙ same)
                    (polls-Pops q sleeps (ltb 0 q.count) v refl))
          ]
    ]

-- Whatever the threads push while `event_queue_pop` sleeps, when it returns from a valid queue it has
-- lost no event. With a positive timeout it sleeps as long as the queue is empty, until a sleep leaves
-- an event in it or ends by a timeout or an error: the events that the queue held, with those of all
-- these sleeps that fitted behind them, are the one that it returns, if any, followed by those that it
-- leaves; and it returns the oldest exactly if no sleep ended by a timeout or an error, 0 after a
-- timeout and -1 after an error. Otherwise it returns the oldest event and leaves the others, or 0 if
-- there is none.
pub pop-Splits :
    {q q' : EventQueue} {p : Popped} (timeout_ms : ℤ) (sleeps : List Sleep)
    → IsValid q
    → pop q timeout_ms sleeps ≡ some (p, q')
    → Pops (is_positive timeout_ms) q sleeps p q'
pop-Splits timeout_ms sleeps v e = (pop-PopsValid timeout_ms sleeps v e).0

pub pop-IsValid :
    {q q' : EventQueue} {p : Popped} (timeout_ms : ℤ) (sleeps : List Sleep)
    → IsValid q
    → pop q timeout_ms sleeps ≡ some (p, q')
    → IsValid q'
pop-IsValid timeout_ms sleeps v e = (pop-PopsValid timeout_ms sleeps v e).1

-- Some sleep of the schedule ends by a timeout or an error.
abbrev pub Ends : List Sleep → Type 0
Ends [] = ⊥
Ends (s ∷ sleeps) = (s.wake ≢ woken) ⊎ Ends sleeps

wait_loop-ne-none :
    (sleeps : List Sleep) (q : EventQueue) → (q.count ≢ 0) ⊎ Ends sleeps → wait_loop q sleeps ≢ none
unfolding wait_loop
wait_loop-ne-none [] q h = ground arith
wait_loop-ne-none (s ∷ sleeps) q h = ground (arith, wait_loop-ne-none sleeps (push_all q s.pushed))

-- A pop returns if its timeout is not positive, if the queue holds an event, or if one of its sleeps
-- ends by a timeout or an error.
pub pop-ne-none :
    (q : EventQueue) (timeout_ms : ℤ) (sleeps : List Sleep)
    → (is_positive timeout_ms ≡ false) ⊎ (q.count ≢ 0) ⊎ Ends sleeps
    → pop q timeout_ms sleeps ≢ none
unfolding pop wait_locked
pop-ne-none q timeout_ms sleeps h = ground (arith, wait_loop-ne-none sleeps q)
