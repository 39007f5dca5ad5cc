-- ===== src/App/Recover.antt =====
-- What an error does.
use xiaozhi.App.Actions.{
  start_client, started, tell, stop_client, forget_session, return_to_wake, handle_action,
}
use xiaozhi.App.Consistent.{Consistent}
use xiaozhi.App.Loop.{dispatch, dispatch_type}
use xiaozhi.App.Messages.{handle_session}
use xiaozhi.App.Callbacks.{client_callback, message_zero}
use xiaozhi.App.State.{
  App, World, event_of, push_event, set_state, upload_off, close_opus_dump_file,
}
use xiaozhi.Base.{
  ◌≡◌, refl, sym, subst, ap, ◌∙◌, Bool, true, false, List, [], ◌∷◌, none, if◌then◌else◌, arith,
  some, inl, inr, Bool-cases,
}
use xiaozhi.Base.Strings.{Bytes, codes}
use xiaozhi.Capture.{set_uploading}
use xiaozhi.Client.Calls
use xiaozhi.Client.Calls.{Closing, closes, fails, quiet}
use xiaozhi.EventQueue
use xiaozhi.EventQueue.{EventQueue}
use xiaozhi.Base.Int.{pos, negsuc}
use xiaozhi.Dump.{Dump, close_dump, close_file}
use xiaozhi.Event.{Event, EventType}
use xiaozhi.Session.{Action, Session, State, handle_event}

-- The events after the old connection is closed, with what libwebsockets reports of that: an
-- unexpected end of a connection is an error, unless the program stops.
abbrev pub reported : Closing → Bool → EventQueue → EventQueue
reported quiet stops events = events
reported closes stops events =
    let message = codes "websocket disconnected (code=0)" in
    if stops
    then events
    else (EventQueue.push events (event_of EventType.error (some message) (pos 0))).1
reported (fails message) stops events =
    (EventQueue.push events (event_of EventType.error (some message) (negsuc 0))).1

-- What the error leaves, whether or not a thread can be made for the new connection.
pub record Reset (made : Bool) (closing : Closing) (app app' : App) : Type 0 where
  pub state : app'.session.state ≡ State.connecting
  pub running : app'.client.running ≡ made
  pub started : app'.client_started ≡ made
  pub upload : app'.upload_enabled ≡ false
  pub microphone : app'.capture.uploading ≡ false
  pub session_id : app'.session_id ≡ []
  pub tts_done : app'.tts_done ≡ false
  pub dump : app.dump_mutex_initialized ≡ true → app'.dump.file ≡ none
  pub events :
      app'.events
      ≡ (if app.client_started then reported closing app.stop_requested app.events else app.events)

close-closed : (d : Dump) (b : Bool) → b ≡ true → (close_dump d b).file ≡ none
unfolding close_dump close_file
close-closed d b e = ground arith

-- What closing the connection of a client that runs leaves.
told_reported :
    {Item : Type 0} (w : World Item) (app : App)
    → app.client.running ≡ true
    → tell app (Calls.stop app.client w.closing) ≡ record app {
      client = (Calls.stop app.client w.closing).0;
      events = reported w.closing app.stop_requested app.events;
    }
unfolding tell client_callback push_event Calls.stop Calls.thread_end
told_reported w app r = ground (arith, message_zero)

if_true : {A : Type 0} (b : Bool) (x y : A) → b ≡ true → (if b then x else y) ≡ x
if_true true x y e = refl
if_true false x y e = absurd (cc e)

if_false : {A : Type 0} (b : Bool) (x y : A) → b ≡ false → (if b then x else y) ≡ y
if_false true x y e = absurd (cc e)
if_false false x y e = refl

stopped :
    {Item : Type 0} (w : World Item) (app : App)
    → app.client.running ≡ app.client_started
    → app.client_started ≡ true
    → stop_client w app ≡ record app {
      client = (Calls.stop app.client w.closing).0;
      client_started = false;
      events = reported w.closing app.stop_requested app.events;
    }
unfolding stop_client
stopped w app e on =
    if_true app.client_started _ app on
    ∙ ap (λ (a : App). record a { client_started = false }) (told_reported w app (e ∙ on))

not_stopped :
    {Item : Type 0} (w : World Item) (app : App)
    → app.client_started ≡ false
    → stop_client w app ≡ app
unfolding stop_client
not_stopped w app off = if_false app.client_started _ app off

-- From the stopped client on.
reconnect : {Item : Type 0} → World Item → App → App
reconnect w app = (start_client w (set_state app State.connecting)).1

return-Reset :
    {Item : Type 0} (w : World Item) (app : App)
    → app.client.running ≡ app.client_started
    → Reset w.thread_made w.closing app (return_to_wake w app)
unfolding return_to_wake start_client started forget_session close_opus_dump_file upload_off
    set_state set_uploading Calls.start Calls.stop Calls.thread_end reconnect
return-Reset w app e =
    let silent =
      forget_session (close_opus_dump_file (upload_off (record app { tts_done = false }))) in
    elim (Bool-cases app.client_started) [
      | inl on ↦
          subst (λ a. Reset w.thread_made w.closing app (reconnect w a))
            (sym (stopped w silent e on))
            (record {
              state = ground arith;
              running = ground arith;
              started = ground arith;
              upload = ground arith;
              microphone = ground arith;
              session_id = ground arith;
              tts_done = ground arith;
              dump = λ h. ground (arith, close-closed app.dump app.dump_mutex_initialized h);
              events = ground arith;
            })
      | inr off ↦
          subst (λ a. Reset w.thread_made w.closing app (reconnect w a))
            (sym (not_stopped w silent off))
            (record {
              state = ground arith;
              running = ground arith;
              started = ground arith;
              upload = ground arith;
              microphone = ground arith;
              session_id = ground arith;
              tts_done = ground arith;
              dump = λ h. ground (arith, close-closed app.dump app.dump_mutex_initialized h);
              events = ground arith;
            })
    ]

Reset-after :
    {made : Bool} {closing : Closing} {app app' : App} (s : Session)
    → Reset made closing (record app { session = s }) app'
    → Reset made closing app app'
Reset-after s r = record {
  state = r.state;
  running = r.running;
  started = r.started;
  upload = r.upload;
  microphone = r.microphone;
  session_id = r.session_id;
  tts_done = r.tts_done;
  dump = r.dump;
  events = r.events;
}

error_type :
    {Item : Type 0} (w : World Item) (app : App) (text : Bytes)
    → dispatch_type w app EventType.error text
      ≡ return_to_wake w (record app { session = record { state = State.error_backoff } })
unfolding dispatch_type handle_session handle_event handle_action
error_type w app text = refl

pub dispatch-error :
    {Item : Type 0} (w : World Item) (app : App) (e : Event)
    → Consistent app
    → e.type ≡ EventType.error
    → Reset w.thread_made w.closing app (dispatch w app e)
unfolding dispatch
dispatch-error w app e c t =
    rw (t, error_type w app e.text)
      (Reset-after (record { state = State.error_backoff })
        (return-Reset w (record app { session = record { state = State.error_backoff } }) c.client))

if_same : {A : Type 0} (b : Bool) (x : A) → (if b then x else x) ≡ x
if_same true x = refl
if_same false x = refl

-- The events that a user and the microphone make.
abbrev pub is_local : EventType → Bool
is_local EventType.manual_start = true
is_local EventType.manual_stop = true
is_local EventType.wakeword_detected = true
is_local EventType.capture_silence_timeout = true
is_local _ = false

abbrev pub AllLocal : List Event → Type 0
AllLocal [] = Unit
AllLocal (e ∷ es) = (is_local e.type ≡ true) × AllLocal es

abbrev pub dispatch_all : {Item : Type 0} → World Item → App → List Event → App
dispatch_all w app [] = app
dispatch_all w app (e ∷ es) = dispatch_all w (dispatch w app e) es

local_ignored :
    (s : Session) (t : EventType)
    → s.state ≡ State.connecting
    → is_local t ≡ true
    → handle_event s t ≡ (Action.nothing, s)
unfolding handle_event
local_ignored s t e h = ground arith

local_type :
    {Item : Type 0} (w : World Item) (app : App) (t : EventType) (text : Bytes)
    → is_local t ≡ true
    → dispatch_type w app t text ≡ handle_session w app t
unfolding dispatch_type
local_type w app EventType.manual_start text h = refl
local_type w app EventType.manual_stop text h = refl
local_type w app EventType.wakeword_detected text h = refl
local_type w app EventType.capture_silence_timeout text h = refl
local_type w app EventType.nothing text h = cc
local_type w app EventType.ws_connected text h = cc
local_type w app EventType.ws_hello text h = cc
local_type w app EventType.ws_text text h = cc
local_type w app EventType.ws_binary text h = cc
local_type w app EventType.playback_finished text h = cc
local_type w app EventType.error text h = cc
local_type w app EventType.shutdown text h = cc

local_same :
    {Item : Type 0} (w : World Item) (app : App) (t : EventType)
    → app.session.state ≡ State.connecting
    → is_local t ≡ true
    → handle_session w app t ≡ app
unfolding handle_session handle_action
local_same w app t e h =
    ap (λ (x : Action × Session). handle_action w (record app { session = x.1 }) x.0)
      (local_ignored app.session t e h)

stuck :
    {Item : Type 0} (w : World Item) (app : App) (es : List Event)
    → app.session.state ≡ State.connecting
    → AllLocal es
    → dispatch_all w app es ≡ app
unfolding dispatch
stuck w app [] s h = refl
stuck w app (e ∷ es) s h =
    rw (local_type w app e.type e.text h.0, local_same w app e.type s h.0) (stuck w app es s h.1)

-- If the thread of the new connection cannot be made, and libwebsockets has nothing to report of the
-- old one, as when the server closed it before, the program waits for good: the client does not run,
-- nothing is queued, and no event of the user or of the microphone changes the state again.
pub failed_restart :
    {Item : Type 0} (w : World Item) (app : App) (e : Event) (es : List Event)
    → Consistent app
    → e.type ≡ EventType.error
    → w.thread_made ≡ false
    → w.closing ≡ quiet
    → AllLocal es
    → ((dispatch w app e).client.running ≡ false)
      × ((dispatch w app e).events ≡ app.events)
      × (dispatch_all w (dispatch w app e) es ≡ dispatch w app e)
failed_restart w app e es c t f q h =
    let r = dispatch-error w app e c t in
    (
      r.running ∙ f,
      r.events
          ∙ ap
              (λ k.
                if app.client_started then reported k app.stop_requested app.events else app.events)
              q
          ∙ if_same app.client_started app.events,
      stuck w (dispatch w app e) es r.state h,
    )
