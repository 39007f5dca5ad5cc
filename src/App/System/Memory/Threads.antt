-- ===== src/App/System/Memory/Threads.antt =====
-- Each round of a thread keeps the shared memory well formed.
use xiaozhi.App.System.{Hand, listen, listened}
use xiaozhi.App.Loop.{
  press_enter, handle_manual_line, Stdin, line, end_of_input, poll_stdin, is_uploading, dispatch,
  dispatch_type, after_pop, Tick, Round, round, next,
}
use xiaozhi.App.State.{App, request_stop}
use xiaozhi.App.System.{
  System, turned, play, Move, main, client, client_begins, client_ends, microphone, playback,
  rounded, move, Allowed, Reach, here, if_none, later,
}
use xiaozhi.App.System.Memory.{Safe, if-Safe, events-Arrays, sound-Arrays}
use xiaozhi.App.System.Memory.Actions.{FitsNext, push_event-Safe}
use xiaozhi.App.System.Memory.Handlers.{type-Safe}
use xiaozhi.AudioBuffer.Invariant as Blocks
use xiaozhi.Base.{
  ◌≡◌, refl, subst, Bool, true, false, ◌||◌, Option, none, some, if◌then◌else◌, arith,
}
use xiaozhi.Base.Int.{pos}
use xiaozhi.Base.Strings.{Bytes, codes, str_eq}
use xiaozhi.Event.{EventType}
use xiaozhi.EventQueue
use xiaozhi.EventQueue.{EventQueue}
use xiaozhi.EventQueue.Invariant as Events
use xiaozhi.EventQueue.Waiting as Waiting
use xiaozhi.Playback
use xiaozhi.Playback.{Player, Turn, turn, waits}
use xiaozhi.App.System.Memory.Callbacks.{serve-Safe, begin-Safe, end-Safe, HandSafe, listen-Safe}

stop-Safe : (app : App) → Safe app → Safe (request_stop app)
unfolding request_stop
stop-Safe app v =
    push_event-Safe (record app { stop_requested = true }) EventType.shutdown none (pos 0) v

line-Safe : (app : App) (text : Bytes) → Safe app → Safe (handle_manual_line app text)
unfolding handle_manual_line press_enter
line-Safe app text v =
    if-Safe (str_eq text (codes "q\n") || str_eq text (codes "q\r\n")) _ _ (stop-Safe app v) (
      if-Safe (str_eq text (codes "\n") || str_eq text (codes "\r\n")) _ _
        (if-Safe (is_uploading app.session.state) _ _
          (push_event-Safe app EventType.manual_stop none (pos 0) v)
          (push_event-Safe app EventType.manual_start none (pos 0) v))
        v)

stdin-Safe : (app : App) (s : Stdin) → Safe app → Safe (poll_stdin app s)
unfolding poll_stdin
stdin-Safe app (line text) v = line-Safe app text v
stdin-Safe app end_of_input v = stop-Safe app v
stdin-Safe app Stdin.nothing v = v
stdin-Safe app Stdin.error v = v

abbrev RoundSafe : Round → Type 0
RoundSafe (next app) = Safe app
RoundSafe _ = Unit

-- From the event that was popped on.
popped-Safe :
    {Item : Type 0} (t : Tick Item) (app : App) (x : Option (EventQueue.Popped × EventQueue))
    {app' : App}
    → ((p : EventQueue.Popped) (q : EventQueue) → x ≡ some (p, q) → Events.IsValid q)
    → FitsNext t.world app
    → Safe app
    → after_pop t app x ≡ next app'
    → Safe app'
unfolding after_pop dispatch
popped-Safe t app none valid fits v e = absurd (cc e)
popped-Safe t app (some (EventQueue.Popped.failure, q)) valid fits v e = absurd (cc e)
popped-Safe t app (some (EventQueue.Popped.nothing, q)) {app'} valid fits v e =
    subst RoundSafe e
      (stdin-Safe (record app { events = q }) t.stdin (events-Arrays v (valid _ q refl)))
popped-Safe t app (some (EventQueue.Popped.event k, q)) {app'} valid fits v e =
    let a = record app { events = q } in
    subst RoundSafe e (
      stdin-Safe (dispatch_type t.world a k.type k.text) t.stdin
        (type-Safe t.world a k.type k.text fits (events-Arrays v (valid _ q refl))))

pub round-Safe :
    {Item : Type 0} (t : Tick Item) (app app' : App)
    → FitsNext t.world app
    → Safe app
    → round t app ≡ next app'
    → Safe app'
unfolding round
round-Safe t app app' fits v e =
    popped-Safe t app (EventQueue.pop app.events (pos 100) t.sleeps)
      (λ p q f. Waiting.pop-IsValid {p = p} (pos 100) t.sleeps v.events_valid f) fits v e

-- A round of the playback's thread.
pub turn-IsValid :
    (p : Player) (opens written : Bool)
    → Blocks.IsValid p.pb.queue
    → Blocks.IsValid (turn p opens written).player.pb.queue
unfolding turn Playback.play
turn-IsValid p opens written v = ground (arith, Blocks.pop-IsValid v)

if-IsValid :
    {x y : EventQueue} (b : Bool)
    → Events.IsValid x
    → Events.IsValid y
    → Events.IsValid (if b then x else y)
if-IsValid true v w = v
if-IsValid false v w = w

RunSafe : Option System → Type 0
RunSafe none = Unit
RunSafe (some s) = Safe s.app

turned-Safe :
    (s : System) (t : Turn) → Blocks.IsValid t.player.pb.queue → Safe s.app → Safe (turned s t).app
unfolding turned
turned-Safe s t q v =
    events-Arrays (sound-Arrays v q)
      (if-IsValid t.finished (Events.push-IsValid _ v.events_valid) v.events_valid)

pub play-Safe :
    (s : System) (opens written : Bool) {s' : System}
    → Safe s.app
    → play s opens written ≡ some s'
    → Safe s'.app
unfolding play RunSafe
play-Safe s opens written v e =
    let p : Player = record { pb = s.app.playback; device = s.device } in
    subst RunSafe (if_none (waits p) e).1
      (turned-Safe s (turn p opens written) (turn-IsValid p opens written v.sound_valid) v)

rounded-Safe :
    (s : System) (r : Round) {s' : System}
    → ((app : App) → r ≡ next app → Safe app)
    → rounded s r ≡ some s'
    → Safe s'.app
unfolding rounded RunSafe
rounded-Safe s Round.waits f e = absurd (cc e)
rounded-Safe s Round.failed f e = absurd (cc e)
rounded-Safe s (next app) f e = subst RunSafe e (f app refl)

listened-Safe : (s : System) (x : Option (Hand × App)) → HandSafe x → RunSafe (listened s x)
unfolding listened RunSafe
listened-Safe s none v = tt
listened-Safe s (some (hand, app)) v = v

pub move-Safe :
    {Item : Type 0} (m : Move Item) (s : System) {s' : System}
    → Allowed m s
    → Safe s.app
    → move m s ≡ some s'
    → Safe s'.app
unfolding move RunSafe
move-Safe (main t) s {s'} fits v e =
    rounded-Safe s (round t s.app) {s' = s'} (λ a f. round-Safe t s.app a fits v f)
      (if_none s.app.stop_requested e).1
move-Safe (client env reason decode) s fits v e =
    subst RunSafe e (serve-Safe s.app env reason decode v)
move-Safe (client_begins made parse_uri initiate decode) s fits v e =
    subst RunSafe e (begin-Safe s.app made parse_uri initiate decode v)
move-Safe (client_ends closing decode) s fits v e =
    subst RunSafe e (end-Safe s.app closing decode v)
move-Safe (microphone heard) s fits v e =
    subst RunSafe e (listened-Safe s (listen heard s.hand s.app) (listen-Safe heard s.hand s.app v))
move-Safe (playback opens written) s {s'} fits v e = play-Safe s opens written {s' = s'} v e

-- From well-formed memory, no order of the threads' rounds, whatever the outside answers, leads to
-- memory that is not: the ring of events, the queues and receive buffers of the client, the ring of
-- sound and the session's id keep their invariants and sizes. `realloc` finds no memory for 2 ^ 60
-- pointers.
pub Reach-Safe : {Item : Type 0} {s s' : System} → Safe s.app → Reach Item s s' → Safe s'.app
Reach-Safe v here = v
Reach-Safe v (later r m fits e) = move-Safe m _ fits (Reach-Safe v r) e
