-- ===== src/App/Loop.antt =====
-- `app_run`: the handling of an event, the standard input, and the loop.
use xiaozhi.App.Actions.{connect}
use xiaozhi.App.Messages.{handle_session, handle_protocol_event}
use xiaozhi.App.State.{App, World, push_event, set_state, reset_to_idle, request_stop}
use xiaozhi.Base.{Bool, true, false, not, ◌||◌, List, [], ◌∷◌, Option, none, some, if◌then◌else◌}
use xiaozhi.Base.Int.{ℤ, pos, negsuc}
use xiaozhi.Base.Strings.{Bytes, codes, str_eq}
use xiaozhi.Event.{Event, EventType}
use xiaozhi.EventQueue
use xiaozhi.EventQueue.{EventQueue, Popped, Sleep}
use xiaozhi.Protocol.{parse_incoming_json}
use xiaozhi.Session.{State}

unfoldable pub is_uploading : State → Bool
is_uploading State.uploading_audio = true
is_uploading _ = false

-- A line that is only the end of a line.
unfoldable pub press_enter : App → App
press_enter app =
    if is_uploading app.session.state
    then push_event app EventType.manual_stop none (pos 0)
    else push_event app EventType.manual_start none (pos 0)

unfoldable pub handle_manual_line : App → Bytes → App
handle_manual_line app line =
    if str_eq line (codes "q\n") || str_eq line (codes "q\r\n")
    then request_stop app
    else if str_eq line (codes "\n") || str_eq line (codes "\r\n")
    then press_enter app
    else app

-- What `app_poll_stdin` finds: nothing to read (or no terminal), a line, the end of the input, or an
-- error.
pub data Stdin : Type 0 where
  nothing : Stdin
  line : Bytes → Stdin
  end_of_input : Stdin
  error : Stdin

unfoldable pub poll_stdin : App → Stdin → App
poll_stdin app nothing = app
poll_stdin app (line text) = handle_manual_line app text
poll_stdin app end_of_input = request_stop app
poll_stdin app Stdin.error = app

-- A message of the server; one that cannot be parsed is only logged.
unfoldable pub handle_text : {Item : Type 0} → World Item → App → Bytes → App
handle_text w app text = elim (parse_incoming_json w.json text) [
  | none ↦ app
  | some event ↦ handle_protocol_event w app event
]

unfoldable pub finish_playback : App → App
finish_playback app = if app.tts_done then reset_to_idle app else app

-- The `switch` of the loop, for the event's type and text.
unfoldable pub dispatch_type : {Item : Type 0} → World Item → App → EventType → Bytes → App
dispatch_type w app EventType.manual_start text = handle_session w app EventType.manual_start
dispatch_type w app EventType.wakeword_detected text =
    handle_session w app EventType.wakeword_detected
dispatch_type w app EventType.manual_stop text = handle_session w app EventType.manual_stop
dispatch_type w app EventType.ws_connected text = handle_session w app EventType.ws_connected
dispatch_type w app EventType.ws_text text = handle_text w app text
dispatch_type w app EventType.capture_silence_timeout text =
    handle_session w app EventType.capture_silence_timeout
dispatch_type w app EventType.playback_finished text = finish_playback app
dispatch_type w app EventType.error text = handle_session w app EventType.error
dispatch_type w app EventType.shutdown text = record app { stop_requested = true }
dispatch_type w app _ text = app

unfoldable pub dispatch : {Item : Type 0} → World Item → App → Event → App
dispatch w app event = dispatch_type w app event.type event.text

-- A round of the loop: what the wait for an event meets, the answers of the outside, and the standard
-- input.
pub record Tick (Item : Type 0) : Type 0 where
  pub sleeps : List Sleep
  pub world : World Item
  pub stdin : Stdin

-- How a round ends: the wait for an event does not end in these sleeps, the queue fails, or the state
-- in which the test of the loop follows.
pub data Round : Type 0 where
  waits failed : Round
  next : App → Round

unfoldable pub after_pop : {Item : Type 0} → Tick Item → App → Option (Popped × EventQueue) → Round
after_pop t app none = waits
after_pop t app (some (Popped.failure, events)) = failed
after_pop t app (some (Popped.nothing, events)) =
    next (poll_stdin (record app { events = events }) t.stdin)
after_pop t app (some (Popped.event e, events)) =
    next (poll_stdin (dispatch t.world (record app { events = events }) e) t.stdin)

-- One round of the `while` loop behind its test.
unfoldable pub round : {Item : Type 0} → Tick Item → App → Round
unfolding after_pop
round t app = after_pop t app (EventQueue.pop app.events (pos 100) t.sleeps)

-- After some rounds, the loop has returned 0 or -1, waits, or is before its next test.
pub data Progress : Type 0 where
  returned : ℤ → App → Progress
  waits : Progress
  running : App → Progress

unfoldable pub run_loop : {Item : Type 0} → App → List (Tick Item) → Progress
run_loop app [] = running app
run_loop app (t ∷ ticks) =
    if app.stop_requested then Progress.returned (pos 0) app else (elim (round t app) [
      | Round.waits ↦ Progress.waits
      | failed ↦ Progress.returned (negsuc 0) app
      | next app' ↦ run_loop app' ticks
    ])

-- The start of `app_run`, up to its loop.
unfoldable pub begin_run : {Item : Type 0} → World Item → App → App
begin_run w app =
    let idle = reset_to_idle app in
    if not idle.client_started then connect w (set_state idle State.connecting) else idle

pub data Run : Type 0 where
  stops : ℤ → Run
  loops : App → Run

-- `app_run` up to its loop: the value that it returns early, or the state in which the loop begins.
unfoldable pub run : {Item : Type 0} → World Item → App → Run
run w app =
    if not app.initialized
    then stops (negsuc 0)
    else if app.activation_pending
    then stops (pos 1)
    else if app.skip_runtime_init
    then stops (pos 0)
    else loops (begin_run w app)
