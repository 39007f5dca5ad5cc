-- ===== src/App/Talk.antt =====
-- An utterance, from the key that starts it to the key that ends it.
pub mod Ending
pub mod Overtake
use xiaozhi.App.Actions.{check, start_listen, open_upload, upload_on, stop_listen, handle_action}
use xiaozhi.App.Loop.{dispatch, dispatch_type}
use xiaozhi.App.Messages.{handle_session}
use xiaozhi.App.Send.{
  send_built, send_listen_start, send_listen_stop, with_dump, open_opus_dump_file,
}
use xiaozhi.App.State.{App, World, set_state, upload_off, close_opus_dump_file}
use xiaozhi.Base.{
  ◌≡◌, ◌≢◌, ◌<◌, ◌^◌, refl, true, false, List, [], ◌∷◌, ◌++◌, none, some, Status, ok, failed, arith,
  inl, inr, length,
}
use xiaozhi.Base.Strings.{Bytes, codes, is_empty}
use xiaozhi.Capture.{set_uploading}
use xiaozhi.Client.Calls.{queue_text}
use xiaozhi.Client.State.{Client}
use xiaozhi.Client.TextQueue
use xiaozhi.Client.TextQueue.{TextQueue}
use xiaozhi.Client.TextQueue.Refine.{IsValid, contents, Queued, queue_refines}
use xiaozhi.Dump.{Dump, open_dump, close_file, close_dump}
use xiaozhi.Event.{Event, EventType}
use xiaozhi.Protocol.Build.{build_listen_manual_lem}
use xiaozhi.Protocol.{listen_text}
use xiaozhi.Session.{State, handle_event}

abbrev pub start_text : Bytes → Bytes
start_text id =
    listen_text id (codes "\",\"type\":\"listen\",\"state\":\"start\",\"mode\":\"manual\"}")

abbrev pub stop_text : Bytes → Bytes
stop_text id =
    listen_text id (codes "\",\"type\":\"listen\",\"state\":\"stop\",\"mode\":\"manual\"}")

-- The texts that wait to be sent.
abbrev pub texts : App → List Bytes
texts app = contents app.client.pending_text

-- A session that the server named, and a queue of texts with memory for one more.
pub record CanSend {Item : Type 0} (w : World Item) (app : App) : Type 0 where
  pub session : app.session_id ≢ []
  pub fits : length app.session_id < 64
  pub queue : IsValid app.client.pending_text
  pub small : app.client.pending_text.capacity < 2 ^ 62
  pub memory : w.memory ≡ true
  pub copied : w.copied ≡ true

Queued-ok :
    (ts : List Bytes) (p : Bytes) (x : Status × TextQueue)
    → Queued ts p true true x
    → (x.0 ≡ ok) × (contents x.1 ≡ ts ++ p ∷ [])
Queued-ok ts p (ok, q) h = (refl, h)
Queued-ok ts p (failed, q) h = elim h.1 [ inl e ↦ cc | inr e ↦ cc ]

-- A message that could be built is queued behind the others.
pub sends :
    {Item : Type 0} (w : World Item) (app : App) (p : Bytes)
    → CanSend w app
    → ((send_built w app (ok, p)).0 ≡ ok)
      × (contents (send_built w app (ok, p)).1.client.pending_text ≡ texts app ++ p ∷ [])
unfolding send_built queue_text
sends w app p c =
    rw (c.memory, c.copied)
      (Queued-ok (texts app) p (TextQueue.queue app.client.pending_text p true true)
        (queue_refines p true true c.queue c.small).1)

nonempty : (id : Bytes) → id ≢ [] → is_empty id ≡ false
nonempty [] h = absurd (h refl)
nonempty (c ∷ id) h = refl

start-sent :
    {Item : Type 0} (w : World Item) (app : App)
    → CanSend w app
    → send_listen_start w app ≡ send_built w app (ok, start_text app.session_id)
unfolding send_listen_start
start-sent w app c =
    rw
      (
        nonempty app.session_id c.session,
        (build_listen_manual_lem app.session_id c.session c.fits).0,
      )
      refl

-- A message changes the client alone.
pub built-client :
    {Item : Type 0} (w : World Item) (app : App) (p : Bytes)
    → (client : Client) × ((send_built w app (ok, p)).1 ≡ record app { client = client })
unfolding send_built
built-client w app p = ((queue_text app.client p w.memory w.copied).1, refl)

-- What the start of an utterance leaves.
pub record Uploads (app app' : App) : Type 0 where
  pub state : app'.session.state ≡ State.uploading_audio
  pub upload : app'.upload_enabled ≡ true
  pub microphone : app'.capture.uploading ≡ true
  pub dump : app'.dump.file ≡ some []
  pub sent : texts app' ≡ texts app ++ start_text app.session_id ∷ []

upload-on :
    {Item : Type 0} (w : World Item) (app : App) (x : Status × App)
    → w.in_build ≡ true
    → (x.0 ≡ ok) × (texts x.1 ≡ texts app ++ start_text app.session_id ∷ [])
    → Uploads app (open_upload w x)
unfolding open_upload upload_on open_opus_dump_file open_dump with_dump set_state set_uploading
upload-on w app (ok, a) b h =
    rw b (record { state = refl; upload = refl; microphone = refl; dump = refl; sent = h.1 })
upload-on w app (failed, a) b h = cc

unfoldable pub in_state : App → State → App
in_state app s = record app { session = record { state = s } }

start_event :
    {Item : Type 0} (w : World Item) (app : App)
    → app.session.state ≡ State.ready
    → handle_session w app EventType.manual_start
      ≡ start_listen w (in_state app State.uploading_audio)
unfolding handle_session handle_event handle_action in_state
start_event w app s = rw s refl

again : {app app' : App} → Uploads (in_state app State.uploading_audio) app' → Uploads app app'
unfolding in_state
again u = record {
  state = u.state;
  upload = u.upload;
  microphone = u.microphone;
  dump = u.dump;
  sent = u.sent;
}

pub start-CanSend :
    {Item : Type 0} (w : World Item) (app : App)
    → CanSend w app
    → CanSend w (in_state app State.uploading_audio)
unfolding in_state
start-CanSend w app c = record {
  session = c.session;
  fits = c.fits;
  queue = c.queue;
  small = c.small;
  memory = c.memory;
  copied = c.copied;
}

pub start-dispatch :
    {Item : Type 0} (w : World Item) (app : App) (e : Event)
    → CanSend w app
    → app.session.state ≡ State.ready
    → e.type ≡ EventType.manual_start
    → dispatch w app e
      ≡ open_upload w
          (send_built w (in_state app State.uploading_audio) (ok, start_text app.session_id))
unfolding dispatch dispatch_type start_listen in_state
start-dispatch w app e c s t =
    let a = in_state app State.uploading_audio in
    rw (t, start_event w app s, start-sent w a (start-CanSend w app c)) refl

-- In READY, with a session that the server named, memory and a dump file that opens, the key that
-- starts an utterance queues the message "listen start" of this session behind the texts that wait,
-- opens an empty dump and turns the upload and the microphone on, in UPLOADING_AUDIO.
pub dispatch-Uploads :
    {Item : Type 0} (w : World Item) (app : App) (e : Event)
    → CanSend w app
    → w.in_build ≡ true
    → app.session.state ≡ State.ready
    → e.type ≡ EventType.manual_start
    → Uploads app (dispatch w app e)
unfolding in_state
dispatch-Uploads w app e c b s t =
    let a = in_state app State.uploading_audio in
    rw (start-dispatch w app e c s t) (
      again (
        upload-on w a (send_built w a (ok, start_text app.session_id)) b
          (sends w a (start_text app.session_id) (start-CanSend w app c))))
