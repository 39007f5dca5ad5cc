-- ===== src/App/Talk/Ending.antt =====
-- The key that ends an utterance.
use xiaozhi.App.Actions.{check, stop_listen, handle_action}
use xiaozhi.App.Loop.{dispatch, dispatch_type}
use xiaozhi.App.Messages.{handle_session}
use xiaozhi.App.Send.{send_built, send_listen_stop}
use xiaozhi.App.State.{App, World, upload_off, close_opus_dump_file}
use xiaozhi.Base.{◌≡◌, refl, true, false, [], ◌∷◌, ◌++◌, none, some, Status, ok, failed, arith}
use xiaozhi.Base.Strings.{Bytes, codes}
use xiaozhi.Capture.{set_uploading}
use xiaozhi.Client.State.{Client}
use xiaozhi.Dump.{Dump, close_file, close_dump}
use xiaozhi.Event.{Event, EventType}
use xiaozhi.Protocol.Build.{build_listen_manual_lem}
use xiaozhi.Session.{State, handle_event}
use xiaozhi.App.Talk.{CanSend, texts, stop_text, sends, nonempty, in_state, built-client}

stop-sent :
    {Item : Type 0} (w : World Item) (app : App)
    → CanSend w app
    → send_listen_stop w app ≡ send_built w app (ok, stop_text app.session_id)
unfolding send_listen_stop
stop-sent w app c =
    rw
      (
        nonempty app.session_id c.session,
        (build_listen_manual_lem app.session_id c.session c.fits).1,
      )
      refl

-- What the end of an utterance leaves; `bytes` is what was recorded.
pub record Ended (bytes : Bytes) (app app' : App) : Type 0 where
  pub state : app'.session.state ≡ State.waiting_tts
  pub upload : app'.upload_enabled ≡ false
  pub microphone : app'.capture.uploading ≡ false
  pub dump : app'.dump.file ≡ none
  pub saved : app'.dump.saved ≡ bytes ∷ app.dump.saved
  pub sent : texts app' ≡ texts app ++ stop_text app.session_id ∷ []

pub stop_event :
    {Item : Type 0} (w : World Item) (app : App)
    → app.session.state ≡ State.uploading_audio
    → handle_session w app EventType.manual_stop ≡ stop_listen w (in_state app State.waiting_tts)
unfolding handle_session handle_event handle_action in_state
stop_event w app s = rw s refl

-- Before the message is queued.
unfoldable pub silenced : App → App
silenced app = close_opus_dump_file (upload_off (in_state app State.waiting_tts))

close-some :
    (d : Dump) (bytes : Bytes)
    → d.file ≡ some bytes
    → ((close_dump d true).file ≡ none) × ((close_dump d true).saved ≡ bytes ∷ d.saved)
unfolding close_dump close_file
close-some d bytes e = ground arith

ends :
    {Item : Type 0} (w : World Item) (app : App) (bytes : Bytes) (app' : App)
    → app.dump.file ≡ some bytes
    → app.dump_mutex_initialized ≡ true
    → (client : Client) × (app' ≡ record (silenced app) { client = client })
    → texts app' ≡ texts app ++ stop_text app.session_id ∷ []
    → Ended bytes app app'
unfolding silenced close_opus_dump_file upload_off set_uploading in_state
ends w app bytes app' d m (client, e) h =
    let closed = close-some app.dump bytes d in
    record {
      state = rw e refl;
      upload = rw e refl;
      microphone = rw e refl;
      dump = rw (e, m) closed.0;
      saved = rw (e, m) closed.1;
      sent = h;
    }

check-ok : (m : Bytes) (x : Status × App) → x.0 ≡ ok → check m x ≡ x.1
unfolding check
check-ok m (ok, a) e = refl
check-ok m (failed, a) e = cc

pub silenced-CanSend :
    {Item : Type 0} (w : World Item) (app : App) → CanSend w app → CanSend w (silenced app)
unfolding silenced close_opus_dump_file upload_off in_state
silenced-CanSend w app c = record {
  session = c.session;
  fits = c.fits;
  queue = c.queue;
  small = c.small;
  memory = c.memory;
  copied = c.copied;
}

pub stop-dispatch :
    {Item : Type 0} (w : World Item) (app : App) (e : Event)
    → CanSend w app
    → app.session.state ≡ State.uploading_audio
    → e.type ≡ EventType.manual_stop
    → dispatch w app e ≡ (send_built w (silenced app) (ok, stop_text app.session_id)).1
unfolding dispatch dispatch_type stop_listen silenced close_opus_dump_file upload_off in_state
stop-dispatch w app e c s t =
    let a = silenced app in
    let c' = silenced-CanSend w app c in
    let p = stop_text app.session_id in
    rw
      (
        t,
        stop_event w app s,
        stop-sent w a c',
        check-ok (codes "failed to queue listen stop") (send_built w a (ok, p)) (sends w a p c').0,
      )
      refl

-- In UPLOADING_AUDIO, with a session that the server named and memory, the key that ends an utterance
-- turns the upload and the microphone off, saves the dump with what was recorded, and queues the
-- message "listen stop" of this session behind the texts that wait, in WAITING_TTS.
pub dispatch-Ended :
    {Item : Type 0} (w : World Item) (app : App) (e : Event) (bytes : Bytes)
    → CanSend w app
    → app.dump.file ≡ some bytes
    → app.dump_mutex_initialized ≡ true
    → app.session.state ≡ State.uploading_audio
    → e.type ≡ EventType.manual_stop
    → Ended bytes app (dispatch w app e)
unfolding silenced close_opus_dump_file upload_off in_state
dispatch-Ended w app e bytes c d m s t =
    let a = silenced app in
    let p = stop_text app.session_id in
    rw (stop-dispatch w app e c s t) (
      ends w app bytes (send_built w a (ok, p)).1 d m (built-client w a p)
        (sends w a p (silenced-CanSend w app c)).1)
