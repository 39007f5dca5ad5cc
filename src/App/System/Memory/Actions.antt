-- ===== src/App/System/Memory/Actions.antt =====
-- The actions of the session keep the shared memory well formed.
use xiaozhi.App.Actions.{
  report, check, started, tell, upload_on, open_upload, start_listen, stop_client, stop_listen,
  start_client, connect, abort, return_to_wake, handle_action, request_playback_stop,
  forget_session,
}
use xiaozhi.App.Callbacks.{client_callback}
use xiaozhi.App.Send.{
  send_hello, send_listen_start, send_listen_stop, send_abort, send_built, hello_config, with_dump,
  open_opus_dump_file,
}
use xiaozhi.App.State.{
  App, World, push_event, set_state, upload_off, close_opus_dump_file, reset_to_idle,
}
use xiaozhi.App.System.Memory.{Safe, if-Safe, events-Arrays, client-Arrays, id-Arrays}
use xiaozhi.Base.{
  ◌≡◌, ◌+◌, ◌^◌, ◌<◌, Bool, true, false, not, [], Option, some, Status, ok, failed, arith, inl, inr,
  Bool-cases, Option-cases,
}
use xiaozhi.Base.Int.{ℤ, negsuc}
use xiaozhi.Base.Strings.{Bytes, is_empty}
use xiaozhi.Client.Calls
use xiaozhi.Client.Calls.{closes, fails, quiet, closing_call}
use xiaozhi.Client.Callback.Memory.{ClientSafe}
use xiaozhi.Client.State.{Client}
use xiaozhi.Client.TextQueue.{new_capacity}
use xiaozhi.Client.TextQueue.Capacity.{queue-Bounded}
use xiaozhi.Dump.{Dump, open_dump}
use xiaozhi.Event.{EventType}
use xiaozhi.EventQueue.Invariant as Events
use xiaozhi.Playback
use xiaozhi.Protocol.{build_hello, build_listen_start_manual, build_listen_stop_manual}
use xiaozhi.Session.{Action, State}

pub push_event-Safe :
    (app : App) (t : EventType) (text : Option Bytes) (code : ℤ)
    → Safe app
    → Safe (push_event app t text code)
unfolding push_event
push_event-Safe app t text code v = events-Arrays v (Events.push-IsValid _ v.events_valid)

forget-Safe : (app : App) → Safe app → Safe (forget_session app)
unfolding forget_session
forget-Safe app v = id-Arrays v (omega arith)

off-Safe : (app : App) → Safe app → Safe (upload_off app)
unfolding upload_off
off-Safe app v = v

close-Safe : (app : App) → Safe app → Safe (close_opus_dump_file app)
unfolding close_opus_dump_file
close-Safe app v = v

pub reset-Safe : (app : App) → Safe app → Safe (reset_to_idle app)
unfolding reset_to_idle upload_off close_opus_dump_file set_state
reset-Safe app v = v

check-Safe : (m : Bytes) (x : Status × App) → Safe x.1 → Safe (check m x)
unfolding check report
check-Safe m (ok, app) v = v
check-Safe m (failed, app) v = push_event-Safe app EventType.error (some m) (negsuc 0) v

-- Starting and stopping the client leaves its arrays.
abbrev pub SameArrays : Client → Client → Type 0
SameArrays c d =
    (c.pending_text ≡ d.pending_text)
    × (c.pending_binary ≡ d.pending_binary)
    × (c.recv_text ≡ d.recv_text)
    × (c.recv_binary ≡ d.recv_binary)

pub same-ClientSafe : (c d : Client) → SameArrays c d → ClientSafe d → ClientSafe c
same-ClientSafe c d (a, b, t, r) v = rw (a, b, t, r) v

start-SameArrays : (c : Client) (b : Bool) → SameArrays (Calls.start c b).1 c
unfolding Calls.start
start-SameArrays c b = ground arith

stop-SameArrays : (c : Client) (closing : Calls.Closing) → SameArrays (Calls.stop c closing).0 c
unfolding Calls.stop Calls.thread_end
stop-SameArrays c closing = ground arith

started-Safe :
    (app : App) (x : Status × Client) → ClientSafe x.1 → Safe app → Safe (started app x).1
unfolding started
started-Safe app (ok, c) s v = client-Arrays v s
started-Safe app (failed, c) s v = client-Arrays v s

start_client-Safe :
    {Item : Type 0} (w : World Item) (app : App) → Safe app → Safe (start_client w app).1
unfolding start_client
start_client-Safe w app v =
    started-Safe app (Calls.start app.client w.thread_made)
      (same-ClientSafe (Calls.start app.client w.thread_made).1 app.client
        (start-SameArrays app.client w.thread_made) v.client_safe)
      v

-- The call that the client makes as it closes.
tell-Safe :
    (app : App) (c : Client) (closing : Calls.Closing)
    → ClientSafe c
    → Safe app
    → Safe (tell app (c, closing_call closing))
unfolding tell client_callback
tell-Safe app c quiet s v = client-Arrays v s
tell-Safe app c closes s v =
    let a = record app { client = c } in
    let v' : Safe a = client-Arrays v s in
    if-Safe app.stop_requested a _ v' (push_event-Safe a _ _ _ v')
tell-Safe app c (fails message) s v =
    push_event-Safe (record app { client = c }) _ _ _ (client-Arrays v s)

stopped-Safe :
    (app : App) (closing : Calls.Closing)
    → Safe app
    → Safe (tell app (Calls.stop app.client closing))
unfolding Calls.stop Calls.thread_end tell
stopped-Safe app closing v = elim (Bool-cases (not app.client.running)) [
  | inl off ↦ rw off v
  | inr on ↦ rw on (tell-Safe app _ closing v.client_safe v)
]

stop_client-Safe :
    {Item : Type 0} (w : World Item) (app : App) → Safe app → Safe (stop_client w app)
unfolding stop_client
stop_client-Safe w app v = if-Safe app.client_started _ _ (stopped-Safe app w.closing v) v

-- `realloc` finds no memory for 2 ^ 60 slots when the next text is queued.
abbrev pub FitsNext : {Item : Type 0} → World Item → App → Type 0
FitsNext w app =
    w.memory ≡ true
    → new_capacity app.client.pending_text (app.client.pending_text.count + 1) < 2 ^ 60

module _ {Item : Type 0} (w : World Item) where
  pub connect-Safe : (app : App) → Safe app → Safe (connect w app)
  unfolding connect
  connect-Safe app v =
      let forgot = record app { session_id = []; tts_done = false } in
      check-Safe _ (start_client w forgot) (start_client-Safe w forgot (id-Arrays v (omega arith)))

  built-Safe :
      (app : App) (b : Status × Bytes) → FitsNext w app → Safe app → Safe (send_built w app b).1
  unfolding send_built Calls.queue_text
  built-Safe app (failed, p) fits v = v
  built-Safe app (ok, p) fits v = client-Arrays v (record {
    texts_bounded = queue-Bounded p w.memory w.copied fits v.client_safe.texts_bounded;
    blocks_valid = v.client_safe.blocks_valid;
    text_fits = v.client_safe.text_fits;
    binary_fits = v.client_safe.binary_fits;
  })

  hello-Safe : (app : App) → FitsNext w app → Safe app → Safe (send_hello w app).1
  unfolding send_hello
  hello-Safe app fits v =
      elim (Option-cases (build_hello w.json (hello_config app) 512 w.objects_created)) [
        | inl e ↦ rw (send_hello, e) v
        | inr (p, e) ↦ rw (send_hello, e) (built-Safe app (ok, p) fits v)
      ]

  start-Safe : (app : App) → FitsNext w app → Safe app → Safe (send_listen_start w app).1
  unfolding send_listen_start
  start-Safe app fits v = elim (Bool-cases (is_empty app.session_id)) [
    | inl e ↦ simp e v
    | inr e ↦ simp e (built-Safe app (build_listen_start_manual app.session_id 256) fits v)
  ]

  stop-Safe : (app : App) → FitsNext w app → Safe app → Safe (send_listen_stop w app).1
  unfolding send_listen_stop
  stop-Safe app fits v = elim (Bool-cases (is_empty app.session_id)) [
    | inl e ↦ simp e v
    | inr e ↦ simp e (built-Safe app (build_listen_stop_manual app.session_id 256) fits v)
  ]

  upload-Safe : (x : Status × App) → Safe x.1 → Safe (open_upload w x)
  unfolding open_upload upload_on report open_opus_dump_file with_dump set_state
  upload-Safe (failed, app) v = push_event-Safe app EventType.error _ (negsuc 0) v
  upload-Safe (ok, app) v = opened-Safe (open_dump app.dump w.in_build w.in_tmp)
    where
      opened-Safe : (d : Status × Dump) → Safe (upload_on (with_dump app d))
      opened-Safe (failed, d) =
          push_event-Safe (record app { dump = d }) EventType.error _ (negsuc 0) v
      opened-Safe (ok, d) = v

  pub action-Safe :
      (app : App) (a : Action) → FitsNext w app → Safe app → Safe (handle_action w app a)
  unfolding handle_action start_listen stop_listen abort return_to_wake send_abort
      request_playback_stop set_state close_opus_dump_file upload_off Playback.request_stop
  action-Safe app Action.nothing fits v = v
  action-Safe app Action.connect fits v = connect-Safe app v
  action-Safe app Action.send_hello fits v = check-Safe _ (send_hello w app) (hello-Safe app fits v)
  action-Safe app Action.start_listen fits v =
      upload-Safe (send_listen_start w app) (start-Safe app fits v)
  action-Safe app Action.stop_listen fits v =
      check-Safe _ (send_listen_stop w (close_opus_dump_file (upload_off app)))
        (stop-Safe (close_opus_dump_file (upload_off app)) fits v)
  action-Safe app Action.abort fits v =
      let sent = (send_abort w (close_opus_dump_file (upload_off app))).1 in
      let forgot = forget_session (stop_client w (request_playback_stop sent)) in
      check-Safe _ (start_client w forgot) (
        start_client-Safe w forgot (
          forget-Safe (stop_client w (request_playback_stop sent)) (
            stop_client-Safe w (request_playback_stop sent)
              (built-Safe (close_opus_dump_file (upload_off app)) _ fits v))))
  action-Safe app Action.start_playback fits v = v
  action-Safe app Action.return_to_wake fits v =
      let forgot =
        forget_session (close_opus_dump_file (upload_off (record app { tts_done = false }))) in
      start_client-Safe w (set_state (stop_client w forgot) State.connecting) (
        stop_client-Safe w forgot
          (forget-Safe (close_opus_dump_file (upload_off (record app { tts_done = false }))) v))
