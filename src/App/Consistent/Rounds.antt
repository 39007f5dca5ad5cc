-- ===== src/App/Consistent/Rounds.antt =====
-- The main loop keeps the flags of the runtime in agreement.
use xiaozhi.App.Consistent.{
  Consistent, Off-Consistent, push_event-Consistent, connect-Consistent, set_state-Off, reset-Off,
}
use xiaozhi.App.Loop.{
  press_enter, handle_manual_line, Stdin, line, end_of_input, poll_stdin, is_uploading, dispatch,
  dispatch_type, after_pop, Tick, Round, round, next, run_loop, begin_run, Progress, running,
}
use xiaozhi.App.State.{App, World, request_stop, reset_to_idle}
use xiaozhi.App.Consistent.Events.{if-Consistent, type-Consistent}
use xiaozhi.Base.{
  ◌≡◌, ◌⊎◌, refl, subst, Bool, true, false, not, ◌||◌, List, [], ◌∷◌, Option, none, some,
  if◌then◌else◌, inl, inr,
}
use xiaozhi.Base.Int.{pos}
use xiaozhi.Base.Strings.{Bytes, codes, str_eq}
use xiaozhi.Event.{EventType}
use xiaozhi.EventQueue
use xiaozhi.EventQueue.{EventQueue, Popped}
use xiaozhi.Session.{State}

stop-Consistent : (app : App) → Consistent app → Consistent (request_stop app)
unfolding request_stop
stop-Consistent app c =
    push_event-Consistent (record app { stop_requested = true }) EventType.shutdown none (pos 0)
      (record { microphone = c.microphone; client = c.client; upload = c.upload })

line-Consistent :
    (app : App) (text : Bytes) → Consistent app → Consistent (handle_manual_line app text)
unfolding handle_manual_line press_enter
line-Consistent app text c =
    if-Consistent (str_eq text (codes "q\n") || str_eq text (codes "q\r\n")) (stop-Consistent app c)
      (if-Consistent (str_eq text (codes "\n") || str_eq text (codes "\r\n"))
        (if-Consistent (is_uploading app.session.state)
          (push_event-Consistent app EventType.manual_stop none (pos 0) c)
          (push_event-Consistent app EventType.manual_start none (pos 0) c))
        c)

stdin-Consistent : (app : App) (s : Stdin) → Consistent app → Consistent (poll_stdin app s)
unfolding poll_stdin
stdin-Consistent app (line text) c = line-Consistent app text c
stdin-Consistent app end_of_input c = stop-Consistent app c
stdin-Consistent app Stdin.nothing c = c
stdin-Consistent app Stdin.error c = c

pub events-Consistent :
    (app : App) (q : EventQueue) → Consistent app → Consistent (record app { events = q })
events-Consistent app q c = record {
  microphone = c.microphone;
  client = c.client;
  upload = c.upload;
}

unfoldable pub RoundKeeps : Round → Type 0
RoundKeeps Round.waits = Unit
RoundKeeps Round.failed = Unit
RoundKeeps (next app) = Consistent app

Round-cases :
    (r : Round) → (r ≡ Round.waits) ⊎ ((r ≡ Round.failed) ⊎ ((app : App) × (r ≡ next app)))
Round-cases Round.waits = inl refl
Round-cases Round.failed = inr (inl refl)
Round-cases (next app) = inr (inr (app, refl))

after_pop-Consistent :
    {Item : Type 0} (t : Tick Item) (app : App) (x : Option (Popped × EventQueue))
    → Consistent app
    → RoundKeeps (after_pop t app x)
unfolding after_pop dispatch RoundKeeps
after_pop-Consistent t app none c = tt
after_pop-Consistent t app (some (Popped.failure, q)) c = tt
after_pop-Consistent t app (some (Popped.nothing, q)) c =
    stdin-Consistent (record app { events = q }) t.stdin (events-Consistent app q c)
after_pop-Consistent t app (some (Popped.event e, q)) c =
    let a = record app { events = q } in
    stdin-Consistent (dispatch_type t.world a e.type e.text) t.stdin
      (type-Consistent t.world a e.type e.text (events-Consistent app q c))

pub round-Consistent :
    {Item : Type 0} (t : Tick Item) (app : App) → Consistent app → RoundKeeps (round t app)
unfolding round
round-Consistent t app c =
    after_pop-Consistent t app (EventQueue.pop app.events (pos 100) t.sleeps) c

-- The state that some rounds leave.
abbrev pub Leaves : Progress → Type 0
Leaves (Progress.returned code app) = Consistent app
Leaves Progress.waits = Unit
Leaves (running app) = Consistent app

if-Leaves : (b : Bool) (x y : Progress) → Leaves x → Leaves y → Leaves (if b then x else y)
if-Leaves true x y c d = c
if-Leaves false x y c d = d

-- The main loop keeps the flags of the runtime in agreement, whatever the events, the answers of the
-- outside and the lines of the standard input: the microphone uploads just when the app does, the
-- client is started just when its thread is meant to run, and an upload runs only in the state
-- UPLOADING_AUDIO, with a dump file that is open and a session that the server named.
run_loop-Consistent :
    {Item : Type 0} (app : App) (ticks : List (Tick Item))
    → Consistent app
    → Leaves (run_loop app ticks)
unfolding run_loop RoundKeeps
run_loop-Consistent app [] c = c
run_loop-Consistent app (t ∷ ticks) c =
    if-Leaves app.stop_requested _ _ c (elim (Round-cases (round t app)) [
      | inl e ↦ rw e tt
      | inr (inl e) ↦ rw e c
      | inr (inr (a, e)) ↦
          rw e (run_loop-Consistent a ticks (subst RoundKeeps e (round-Consistent t app c)))
    ])

pub begin-Consistent :
    {Item : Type 0} (w : World Item) (app : App)
    → app.client.running ≡ app.client_started
    → Consistent (begin_run w app)
unfolding begin_run
begin-Consistent w app e =
    let o = reset-Off app e in
    if-Consistent (not (reset_to_idle app).client_started)
      (connect-Consistent w (set_state-Off State.connecting o)) (Off-Consistent o)

-- From the start of `app_run` on, if the flags of the client agree.
pub run-Consistent :
    {Item : Type 0} (w : World Item) (app : App) (ticks : List (Tick Item))
    → app.client.running ≡ app.client_started
    → Leaves (run_loop (begin_run w app) ticks)
run-Consistent w app ticks e =
    run_loop-Consistent (begin_run w app) ticks (begin-Consistent w app e)
