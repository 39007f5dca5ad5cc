-- ===== src/App/Actions.antt =====
-- `app_handle_action`: what follows an answer of the session.
use xiaozhi.App.Send.{
  send_hello, send_listen_start, send_listen_stop, send_abort, open_opus_dump_file,
}
use xiaozhi.App.Callbacks.{client_callback}
use xiaozhi.App.State.{App, World, push_event, set_state, upload_off, close_opus_dump_file}
use xiaozhi.Base.{true, false, [], Option, none, some, Status, ok, failed, if◌then◌else◌}
use xiaozhi.Base.Int.{negsuc}
use xiaozhi.Base.Strings.{Bytes, codes}
use xiaozhi.Capture
use xiaozhi.Client.Calls
use xiaozhi.Client.State.{Client, Callback}
use xiaozhi.Event.{EventType}
use xiaozhi.Playback
use xiaozhi.Session.{Action, State}

-- The event of a call that failed.
unfoldable pub report : App → Bytes → App
report app message = push_event app EventType.error (some message) (negsuc 0)

-- `if (f() != 0) app_push_event(app, APP_EVENT_ERROR, message, -1);`
unfoldable pub check : Bytes → Status × App → App
check message (ok, app) = app
check message (failed, app) = report app message

-- `if (xiaozhi_client_start(&app->client) == 0) app->client_started = 1;`
unfoldable pub started : App → Status × Client → Status × App
started app (ok, client) = (ok, record app { client = client; client_started = true })
started app (failed, client) = (failed, record app { client = client })

unfoldable pub start_client : {Item : Type 0} → World Item → App → Status × App
unfolding started
start_client w app = started app (Calls.start app.client w.thread_made)

-- The client, and the call that it makes into the program, which carries no audio.
unfoldable pub tell : App → Client × Option Callback → App
tell app (client, none) = record app { client = client }
tell app (client, some c) = client_callback (record app { client = client }) c (λ packet room. none)

-- `if (app->client_started) xiaozhi_client_stop(&app->client); app->client_started = 0;`
-- The client's thread reports the end of its connection before it is joined.
unfoldable pub stop_client : {Item : Type 0} → World Item → App → App
unfolding tell
stop_client w app =
    if app.client_started
    then record (tell app (Calls.stop app.client w.closing)) { client_started = false }
    else app

-- `app->session_id[0] = '\0'`
unfoldable pub forget_session : App → App
forget_session app = record app { session_id = [] }

unfoldable pub connect : {Item : Type 0} → World Item → App → App
connect w app =
    check (codes "failed to start websocket client")
      (start_client w (record app { session_id = []; tts_done = false }))

-- From the opened dump on.
unfoldable pub upload_on : Status × App → App
upload_on (failed, app) = report app (codes "failed to open opus dump file")
upload_on (ok, app) = record (set_state app State.uploading_audio) {
  upload_enabled = true;
  capture = Capture.set_uploading app.capture true;
}

-- From the queued message on.
unfoldable pub open_upload : {Item : Type 0} → World Item → Status × App → App
unfolding upload_on
open_upload w (failed, app) = report app (codes "failed to queue listen start")
open_upload w (ok, app) = upload_on (open_opus_dump_file w app)

unfoldable pub start_listen : {Item : Type 0} → World Item → App → App
unfolding open_upload
start_listen w app = open_upload w (send_listen_start w app)

unfoldable pub stop_listen : {Item : Type 0} → World Item → App → App
stop_listen w app =
    check (codes "failed to queue listen stop")
      (send_listen_stop w (close_opus_dump_file (upload_off app)))

unfoldable pub request_playback_stop : App → App
request_playback_stop app = record app { playback = Playback.request_stop app.playback }

unfoldable pub abort : {Item : Type 0} → World Item → App → App
unfolding request_playback_stop
abort w app = check (codes "failed to restart websocket client") (
    start_client w (
      forget_session (
        stop_client w
          (request_playback_stop (send_abort w (close_opus_dump_file (upload_off app))).1))))

-- The sleep of `reconnect_backoff_ms` changes nothing, and a failed start is only logged.
unfoldable pub return_to_wake : {Item : Type 0} → World Item → App → App
return_to_wake w app =
    (start_client w (
      set_state
        (stop_client w
          (forget_session (close_opus_dump_file (upload_off (record app { tts_done = false })))))
        State.connecting)).1

unfoldable pub handle_action : {Item : Type 0} → World Item → App → Action → App
handle_action w app Action.connect = connect w app
handle_action w app Action.send_hello = check (codes "failed to queue hello") (send_hello w app)
handle_action w app Action.start_listen = start_listen w app
handle_action w app Action.stop_listen = stop_listen w app
handle_action w app Action.abort = abort w app
handle_action w app Action.return_to_wake = return_to_wake w app
handle_action w app _ = app
