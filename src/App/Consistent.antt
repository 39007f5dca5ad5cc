-- ===== src/App/Consistent.antt =====
-- What holds of the runtime between the events: the flags of the app, of the microphone and of the
-- client agree, and an upload runs only in its state, with an open dump and a session.
pub mod Events
pub mod Kept
pub mod Rounds
use xiaozhi.App.Actions.{
  report, check, started, tell, upload_on, open_upload, request_playback_stop, start_client,
  stop_client, forget_session, connect, start_listen, stop_listen, abort, return_to_wake,
  handle_action,
}
use xiaozhi.App.Callbacks.{client_callback}
use xiaozhi.App.Send.{
  send_hello, send_listen_start, send_listen_stop, send_abort, send_built, hello_config, with_dump,
  open_opus_dump_file,
}
use xiaozhi.App.State.{
  App, World, push_event, set_state, upload_off, close_opus_dump_file, reset_to_idle,
}
use xiaozhi.Base.{
  ℕ, ◌≡◌, ◌≢◌, refl, sym, ap, subst, ◌∙◌, Bool, true, false, not, ◌||◌, ◌&&◌, List, [], ◌∷◌, Option,
  none, some, Status, ok, failed, if◌then◌else◌, arith, inl, inr, Bool-cases, Option-cases,
}
use xiaozhi.Base.Int.{ℤ, negsuc}
use xiaozhi.Base.Strings.{Bytes, codes, is_empty}
use xiaozhi.Capture.{set_uploading}
use xiaozhi.Client.Calls
use xiaozhi.Client.State.{Client}
use xiaozhi.Dump.{Dump, open_dump, close_file}
use xiaozhi.Event.{Event, EventType}
use xiaozhi.Protocol.{build_hello, build_listen_start_manual, build_listen_stop_manual, build_abort}
use xiaozhi.Session.{Action, State}

pub record Consistent (app : App) : Type 0 where
  pub microphone : app.capture.uploading ≡ app.upload_enabled
  pub client : app.client.running ≡ app.client_started
  pub upload :
      app.upload_enabled ≡ true
      → (app.session.state ≡ State.uploading_audio) × (app.dump.file ≢ none) × (app.session_id ≢ [])

-- The same without an upload, in any state.
pub record Off (app : App) : Type 0 where
  pub microphone : app.capture.uploading ≡ false
  pub client : app.client.running ≡ app.client_started
  pub upload : app.upload_enabled ≡ false

pub Off-Consistent : {app : App} → Off app → Consistent app
Off-Consistent o = record {
  microphone = o.microphone ∙ sym o.upload;
  client = o.client;
  upload = λ e. cc;
}

-- What queues a text changes the client's queue alone.
pub record Queues (app app' : App) : Type 0 where
  pub client : Client
  pub running : client.running ≡ app.client.running
  pub result : app' ≡ record app { client = client }

queue_text-running :
    (c : Client) (p : Bytes) (m k : Bool) → (Calls.queue_text c p m k).1.running ≡ c.running
unfolding Calls.queue_text
queue_text-running c p m k = refl

module _ {Item : Type 0} (w : World Item) where
  built-Queues : (app : App) (b : Status × Bytes) → Queues app (send_built w app b).1
  unfolding send_built
  built-Queues app (failed, p) = record { client = app.client; running = refl; result = refl }
  built-Queues app (ok, p) = record {
    client = (Calls.queue_text app.client p w.memory w.copied).1;
    running = queue_text-running app.client p w.memory w.copied;
    result = refl;
  }

  keeps : (app : App) → Queues app app
  keeps app = record { client = app.client; running = refl; result = refl }

  pub hello-Queues : (app : App) → Queues app (send_hello w app).1
  unfolding send_hello
  hello-Queues app =
      elim (Option-cases (build_hello w.json (hello_config app) 512 w.objects_created)) [
        | inl e ↦ rw (send_hello, e) (keeps app)
        | inr (p, e) ↦ rw (send_hello, e) (built-Queues app (ok, p))
      ]

  pub start-Queues : (app : App) → Queues app (send_listen_start w app).1
  unfolding send_listen_start
  start-Queues app = elim (Bool-cases (is_empty app.session_id)) [
    | inl e ↦ rw e (keeps app)
    | inr e ↦ rw e (built-Queues app (build_listen_start_manual app.session_id 256))
  ]

  stop-Queues : (app : App) → Queues app (send_listen_stop w app).1
  unfolding send_listen_stop
  stop-Queues app = elim (Bool-cases (is_empty app.session_id)) [
    | inl e ↦ rw e (keeps app)
    | inr e ↦ rw e (built-Queues app (build_listen_stop_manual app.session_id 256))
  ]

  abort-Queues : (app : App) → Queues app (send_abort w app).1
  unfolding send_abort
  abort-Queues app = built-Queues app (build_abort (some (codes "manual_interrupt")) 256)

pub Queues-Off : {app app' : App} → Queues app app' → Off app → Off app'
Queues-Off q o =
    subst Off (sym q.result)
      (record { microphone = o.microphone; client = q.running ∙ o.client; upload = o.upload })

pub Queues-Consistent : {app app' : App} → Queues app app' → Consistent app → Consistent app'
Queues-Consistent q c =
    subst Consistent (sym q.result)
      (record { microphone = c.microphone; client = q.running ∙ c.client; upload = c.upload })

pub push_event-Consistent :
    (app : App) (t : EventType) (text : Option Bytes) (code : ℤ)
    → Consistent app
    → Consistent (push_event app t text code)
unfolding push_event
push_event-Consistent app t text code c = record {
  microphone = c.microphone;
  client = c.client;
  upload = c.upload;
}

pub check-Consistent : (m : Bytes) (x : Status × App) → Consistent x.1 → Consistent (check m x)
unfolding check report
check-Consistent m (ok, app) c = c
check-Consistent m (failed, app) c = push_event-Consistent app EventType.error (some m) (negsuc 0) c

pub upload_off-Off : (app : App) → app.client.running ≡ app.client_started → Off (upload_off app)
unfolding upload_off set_uploading
upload_off-Off app e = record { microphone = refl; client = e; upload = refl }

close-Off : {app : App} → Off app → Off (close_opus_dump_file app)
unfolding close_opus_dump_file
close-Off o = record { microphone = o.microphone; client = o.client; upload = o.upload }

pub set_state-Off : {app : App} (s : State) → Off app → Off (set_state app s)
unfolding set_state
set_state-Off s o = record { microphone = o.microphone; client = o.client; upload = o.upload }

forget-Off : {app : App} → Off app → Off (forget_session app)
unfolding forget_session
forget-Off o = record { microphone = o.microphone; client = o.client; upload = o.upload }

if-Off :
    {x y : App} (b : Bool) → (b ≡ true → Off x) → (b ≡ false → Off y) → Off (if b then x else y)
if-Off true f g = f refl
if-Off false f g = g refl

stop-not_running : (c : Client) (closing : Calls.Closing) → (Calls.stop c closing).0.running ≡ false
unfolding Calls.stop Calls.thread_end
stop-not_running c closing = ground arith

-- What stopping the client leaves, but for the events.
pub told :
    {Item : Type 0} (w : World Item) (app : App)
    → tell app (Calls.stop app.client w.closing) ≡ record app {
      client = (Calls.stop app.client w.closing).0;
      events = (tell app (Calls.stop app.client w.closing)).events;
    }
unfolding tell client_callback push_event Calls.stop Calls.thread_end
told w app = ground arith

stop_client-Off : {Item : Type 0} (w : World Item) {app : App} → Off app → Off (stop_client w app)
unfolding stop_client
stop_client-Off w {app} o =
    if-Off app.client_started
      (λ e. rw (told w app) (record {
        microphone = o.microphone;
        client = stop-not_running app.client w.closing;
        upload = o.upload;
      }))
      (λ e. o)

start-running :
    (c : Client) (b : Bool) → (Calls.start c b).0 ≡ ok → (Calls.start c b).1.running ≡ true
unfolding Calls.start
start-running c b e = ground arith

start-failed :
    (c : Client) (b : Bool) → (Calls.start c b).0 ≡ failed → (Calls.start c b).1.running ≡ c.running
unfolding Calls.start
start-failed c b e = ground arith

started-Off :
    (app : App) (x : Status × Client)
    → Off app
    → (x.0 ≡ ok → x.1.running ≡ true)
    → (x.0 ≡ failed → x.1.running ≡ app.client.running)
    → Off (started app x).1
unfolding started
started-Off app (ok, c) o f g = record {
  microphone = o.microphone;
  client = f refl;
  upload = o.upload;
}
started-Off app (failed, c) o f g = record {
  microphone = o.microphone;
  client = g refl ∙ o.client;
  upload = o.upload;
}

start_client-Off :
    {Item : Type 0} (w : World Item) {app : App} → Off app → Off (start_client w app).1
unfolding start_client
start_client-Off w {app} o =
    started-Off app (Calls.start app.client w.thread_made) o
      (start-running app.client w.thread_made) (start-failed app.client w.thread_made)

pub reset-Off : (app : App) → app.client.running ≡ app.client_started → Off (reset_to_idle app)
unfolding reset_to_idle
reset-Off app e =
    set_state-Off
      (if app.client_started && Calls.is_connected app.client then State.ready else State.idle)
      (close-Off (upload_off-Off (record app { tts_done = false }) e))

playback-Off : {app : App} → Off app → Off (request_playback_stop app)
unfolding request_playback_stop
playback-Off o = record { microphone = o.microphone; client = o.client; upload = o.upload }

module _ {Item : Type 0} (w : World Item) where
  pub connect-Consistent : {app : App} → Off app → Consistent (connect w app)
  unfolding connect
  connect-Consistent {app} o =
      let before = record app { session_id = []; tts_done = false } in
      let off : Off before = record {
        microphone = o.microphone;
        client = o.client;
        upload = o.upload;
      } in
      check-Consistent (codes "failed to start websocket client") (start_client w before)
        (Off-Consistent (start_client-Off w off))

  pub stop_listen-Consistent :
      (app : App) → app.client.running ≡ app.client_started → Consistent (stop_listen w app)
  unfolding stop_listen
  stop_listen-Consistent app e =
      let off = close-Off (upload_off-Off app e) in
      check-Consistent (codes "failed to queue listen stop")
        (send_listen_stop w (close_opus_dump_file (upload_off app)))
        (Off-Consistent (Queues-Off (stop-Queues w (close_opus_dump_file (upload_off app))) off))

  pub abort-Consistent :
      (app : App) → app.client.running ≡ app.client_started → Consistent (abort w app)
  unfolding abort
  abort-Consistent app e =
      let closed = close_opus_dump_file (upload_off app) in
      let sent = (send_abort w closed).1 in
      let off = Queues-Off (abort-Queues w closed) (close-Off (upload_off-Off app e)) in
      let stopped = forget_session (stop_client w (request_playback_stop sent)) in
      check-Consistent (codes "failed to restart websocket client") (start_client w stopped)
        (Off-Consistent (start_client-Off w (forget-Off (stop_client-Off w (playback-Off off)))))

  pub return_to_wake-Off :
      (app : App) → app.client.running ≡ app.client_started → Off (return_to_wake w app)
  unfolding return_to_wake
  return_to_wake-Off app e = start_client-Off w (
      set_state-Off State.connecting (
        stop_client-Off w
          (forget-Off (close-Off (upload_off-Off (record app { tts_done = false }) e)))))
