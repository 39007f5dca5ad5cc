-- ===== src/App/System/Memory/Callbacks.antt =====
-- The callbacks of the client and of the microphone keep the shared memory well formed.
use xiaozhi.App.System.{
  end_client, listed, Hand, idle, reading, writing, queueing, measuring, Heard, listen,
}
use xiaozhi.Client.Calls.{Closing, closing_call}
use xiaozhi.Capture.{measure}
use xiaozhi.App.Callbacks.{play_frames, receive_audio, client_callback}
use xiaozhi.App.State.{App}
use xiaozhi.App.System.{Decode, call_back, called, serve_client, begin_client, measured}
use xiaozhi.App.System.Memory.{Safe, if-Safe, events-Arrays, client-Arrays, sound-Arrays}
use xiaozhi.App.System.Memory.Actions.{push_event-Safe, SameArrays, same-ClientSafe}
use xiaozhi.AudioBuffer.Invariant as Blocks
use xiaozhi.Base.{
  if◌then◌else◌, ℕ, Bool, true, false, not, ◌||◌, List, [], ◌∷◌, ◌==◌, Option, none, some, inl, inr,
  arith, length, Bool-cases,
}
use xiaozhi.Base.Strings.{Bytes}
use xiaozhi.Capture.{Capture}
use xiaozhi.Client.Callback.{Env, Reason, callback}
use xiaozhi.Client.Calls.{Uri, ConnectInfo, thread_begin, thread_end}
use xiaozhi.Client.Callback.Memory.{callback-ClientSafe, queue_binary-ClientSafe}
use xiaozhi.Client.State.{
  Client, Callback, on_connected, on_disconnected, on_text, on_binary, on_error,
}
use xiaozhi.EventQueue.Invariant as Events
use xiaozhi.Opus.{decode_frame}
use xiaozhi.Playback
use xiaozhi.Playback.{Player, Turn, turn, waits}

-- The callbacks of the client.
enqueued-Safe :
    (app : App) (pcm : Bytes) (frames : ℕ)
    → Safe app
    → Safe (record app {
      playback = (Playback.enqueue app.playback pcm frames app.decoder_sample_rate).1;
    })
unfolding Playback.enqueue
enqueued-Safe app pcm frames v = elim (Bool-cases (frames == 0)) [
  | inl e ↦ simp e v
  | inr e ↦ simp e (sound-Arrays v (Blocks.push-IsValid _ app.decoder_sample_rate v.sound_valid))
]

frames-Safe : (app : App) (x : Option (Bytes × ℕ)) → Safe app → Safe (play_frames app x)
unfolding play_frames
frames-Safe app none v = v
frames-Safe app (some (pcm, frames)) v =
    if-Safe (frames == 0) app _ v (enqueued-Safe app pcm frames v)

callback-Safe :
    (app : App) (c : Callback) (decode : Decode) → Safe app → Safe (client_callback app c decode)
unfolding client_callback receive_audio
callback-Safe app on_connected decode v = push_event-Safe app _ _ _ v
callback-Safe app (on_disconnected code) decode v =
    if-Safe app.stop_requested app _ v (push_event-Safe app _ _ _ v)
callback-Safe app (on_text payload) decode v = push_event-Safe app _ _ _ v
callback-Safe app (on_binary payload) decode v =
    if-Safe (app.upload_enabled || length payload == 0) app _ v
      (frames-Safe app (decode_frame app.decoder payload 4096 decode) v)
callback-Safe app (on_error message) decode v = push_event-Safe app _ _ _ v

call_back-Safe :
    (cs : List Callback) (app : App) (decode : Decode) → Safe app → Safe (call_back app cs decode)
unfolding call_back
call_back-Safe [] app decode v = v
call_back-Safe (c ∷ cs) app decode v =
    call_back-Safe cs (client_callback app c decode) decode (callback-Safe app c decode v)

-- A round of the client's thread.
pub serve-Safe :
    (app : App) (env : Env) (reason : Reason) (decode : Decode)
    → Safe app
    → Safe (serve_client app env reason decode)
unfolding serve_client
serve-Safe app env reason decode v =
    call_back-Safe (called (callback app.client env reason).outputs)
      (record app { client = (callback app.client env reason).client }) decode
      (client-Arrays v (callback-ClientSafe app.client env reason v.client_safe))

begun-SameArrays :
    (c : Client) (made : Bool) (parse_uri : Bytes → Option Uri) (initiate : ConnectInfo → Bool)
    → SameArrays (thread_begin c made parse_uri initiate).client c
unfolding thread_begin
begun-SameArrays c made parse_uri initiate = ground arith

pub begin-Safe :
    (app : App) (made : Bool) (parse_uri : Bytes → Option Uri) (initiate : ConnectInfo → Bool)
    (decode : Decode)
    → Safe app
    → Safe (begin_client app made parse_uri initiate decode)
unfolding begin_client
begin-Safe app made parse_uri initiate decode v =
    let b = thread_begin app.client made parse_uri initiate in
    call_back-Safe b.calls (record app { client = b.client }) decode
      (client-Arrays v (
        same-ClientSafe b.client app.client (begun-SameArrays app.client made parse_uri initiate)
          v.client_safe))

pub end-Safe :
    (app : App) (closing : Closing) (decode : Decode)
    → Safe app
    → Safe (end_client app closing decode)
unfolding end_client thread_end
end-Safe app closing decode v =
    call_back-Safe (listed (closing_call closing))
      (record app { client = (thread_end app.client closing).0 }) decode v

-- A step of the microphone's thread.
measured-Safe : (app : App) (m : Bool × Capture) → Safe app → Safe (measured app m)
unfolding measured
measured-Safe app (false, c) v = v
measured-Safe app (true, c) v = events-Arrays v (Events.push-IsValid _ v.events_valid)

abbrev pub HandSafe : Option (Hand × App) → Type 0
HandSafe none = Unit
HandSafe (some (hand, app)) = Safe app

begun-Safe :
    (b : Bool) (hand : Hand) (app : App)
    → Safe app
    → HandSafe (if b then none else some (hand, app))
begun-Safe true hand app v = tt
begun-Safe false hand app v = v

pub listen-Safe : (i : Heard) (hand : Hand) (app : App) → Safe app → HandSafe (listen i hand app)
unfolding listen
listen-Safe i idle app v = begun-Safe (not app.capture.running) _ app v
listen-Safe i (reading uploading) app v = v
listen-Safe i (writing uploading pcm frames packet) app v = v
listen-Safe i (queueing uploading pcm frames packet) app v =
    client-Arrays v (queue_binary-ClientSafe app.client packet v.client_safe)
listen-Safe i (measuring uploading pcm frames) app v =
    measured-Safe app (measure app.capture uploading pcm frames) v
