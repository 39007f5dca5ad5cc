-- ===== src/App/System/Agreement.antt =====
-- Each round of a thread keeps the flags of the runtime in agreement.
use xiaozhi.App.System.{
  end_client, listed, Hand, idle, reading, writing, queueing, measuring, Heard, listen, listened,
}
use xiaozhi.Client.Calls.{closing_call}
use xiaozhi.App.Callbacks.{play_frames, receive_audio, client_callback}
use xiaozhi.App.Consistent.{Consistent, push_event-Consistent}
use xiaozhi.App.Consistent.Events.{if-Consistent}
use xiaozhi.App.Consistent.Rounds.{round-Consistent, begin-Consistent, RoundKeeps}
use xiaozhi.App.Loop.{Round, round, next, begin_run}
use xiaozhi.App.Setup.{Options, Supplies, init}
use xiaozhi.App.Setup.Memory.{init-SafeIfUp, begin-Safe}
use xiaozhi.App.Setup.Start.{init-Agrees}
use xiaozhi.App.State.{App, World}
use xiaozhi.App.System.{
  System, Decode, call_back, called, serve_client, begin_client, measured, turned, play, Move, main,
  client, client_begins, client_ends, microphone, playback, rounded, move, Reach, here, later,
}
use xiaozhi.App.System.Memory.{Safe}
use xiaozhi.App.System.Memory.Threads.{Reach-Safe}
use xiaozhi.Base.{
  ℕ, ◌≡◌, ◌≢◌, refl, subst, ◌∙◌, Bool, true, false, not, ◌||◌, List, [], ◌∷◌, ◌==◌, Option, none,
  some, if◌then◌else◌, arith, length,
}
use xiaozhi.Base.Int.{ℤ}
use xiaozhi.Base.Strings.{Bytes}
use xiaozhi.Capture.{Capture, measure}
use xiaozhi.Client.Callback.{Env, Reason, callback}
use xiaozhi.Client.Callback.Memory.{callback-running}
use xiaozhi.Client.Calls.{Uri, ConnectInfo, thread_begin, thread_end, queue_binary}
use xiaozhi.Client.State.{
  Client, Callback, on_connected, on_disconnected, on_text, on_binary, on_error,
}
use xiaozhi.Dump.{Dump, write_packet}
use xiaozhi.Opus.{decode_frame}
use xiaozhi.Playback.{Playback, Player, Turn, turn, waits}

client-Consistent :
    (app : App) (c : Client)
    → c.running ≡ app.client.running
    → Consistent app
    → Consistent (record app { client = c })
client-Consistent app c e k = record {
  microphone = k.microphone;
  client = e ∙ k.client;
  upload = k.upload;
}

playback-Consistent :
    (app : App) (p : Playback) → Consistent app → Consistent (record app { playback = p })
playback-Consistent app p k = record {
  microphone = k.microphone;
  client = k.client;
  upload = k.upload;
}

frames-Consistent :
    (app : App) (x : Option (Bytes × ℕ)) → Consistent app → Consistent (play_frames app x)
unfolding play_frames
frames-Consistent app none k = k
frames-Consistent app (some (pcm, frames)) k =
    if-Consistent (frames == 0) k (playback-Consistent app _ k)

callback-Consistent :
    (app : App) (c : Callback) (decode : Decode)
    → Consistent app
    → Consistent (client_callback app c decode)
unfolding client_callback receive_audio
callback-Consistent app on_connected decode k = push_event-Consistent app _ _ _ k
callback-Consistent app (on_disconnected code) decode k =
    if-Consistent app.stop_requested k (push_event-Consistent app _ _ _ k)
callback-Consistent app (on_text payload) decode k = push_event-Consistent app _ _ _ k
callback-Consistent app (on_binary payload) decode k =
    if-Consistent (app.upload_enabled || length payload == 0) k
      (frames-Consistent app (decode_frame app.decoder payload 4096 decode) k)
callback-Consistent app (on_error message) decode k = push_event-Consistent app _ _ _ k

call_back-Consistent :
    (cs : List Callback) (app : App) (decode : Decode)
    → Consistent app
    → Consistent (call_back app cs decode)
unfolding call_back
call_back-Consistent [] app decode k = k
call_back-Consistent (c ∷ cs) app decode k =
    call_back-Consistent cs (client_callback app c decode) decode
      (callback-Consistent app c decode k)

serve-Consistent :
    (app : App) (env : Env) (reason : Reason) (decode : Decode)
    → Consistent app
    → Consistent (serve_client app env reason decode)
unfolding serve_client
serve-Consistent app env reason decode k =
    let h = callback app.client env reason in
    call_back-Consistent (called h.outputs) (record app { client = h.client }) decode
      (client-Consistent app h.client (callback-running app.client env reason) k)

begun-running :
    (c : Client) (made : Bool) (parse_uri : Bytes → Option Uri) (initiate : ConnectInfo → Bool)
    → (thread_begin c made parse_uri initiate).client.running ≡ c.running
unfolding thread_begin
begun-running c made parse_uri initiate = ground arith

begun-Consistent :
    (app : App) (made : Bool) (parse_uri : Bytes → Option Uri) (initiate : ConnectInfo → Bool)
    (decode : Decode)
    → Consistent app
    → Consistent (begin_client app made parse_uri initiate decode)
unfolding begin_client
begun-Consistent app made parse_uri initiate decode k =
    let b = thread_begin app.client made parse_uri initiate in
    call_back-Consistent b.calls (record app { client = b.client }) decode
      (client-Consistent app b.client (begun-running app.client made parse_uri initiate) k)

-- A packet is written to the file that is open, which stays open.
still_open :
    (d : Dump) (packet : Bytes) (initialized : Bool) (first second : ℕ)
    → d.file ≢ none
    → (write_packet d packet initialized first second).1.file ≢ none
unfolding write_packet
still_open d packet initialized first second h = ground arith

queue_binary-running : (c : Client) (p : Bytes) → (queue_binary c p).1.running ≡ c.running
unfolding queue_binary
queue_binary-running c p = ground arith

measured-Consistent :
    (app : App) (m : Bool × Capture)
    → m.1.uploading ≡ app.capture.uploading
    → Consistent app
    → Consistent (measured app m)
unfolding measured
measured-Consistent app (false, c) e k = record {
  microphone = e ∙ k.microphone;
  client = k.client;
  upload = k.upload;
}
measured-Consistent app (true, c) e k = record {
  microphone = e ∙ k.microphone;
  client = k.client;
  upload = k.upload;
}

measure-uploading :
    (c : Capture) (b : Bool) (pcm : List ℤ) (frames : ℕ)
    → (measure c b pcm frames).1.uploading ≡ c.uploading
unfolding measure
measure-uploading c b pcm frames = ground arith

abbrev HandKeeps : Option (Hand × App) → Type 0
HandKeeps none = Unit
HandKeeps (some (hand, app)) = Consistent app

begun-Keeps :
    (b : Bool) (hand : Hand) (app : App)
    → Consistent app
    → HandKeeps (if b then none else some (hand, app))
begun-Keeps true hand app k = tt
begun-Keeps false hand app k = k

listen-Consistent :
    (i : Heard) (hand : Hand) (app : App) → Consistent app → HandKeeps (listen i hand app)
unfolding listen
listen-Consistent i idle app k = begun-Keeps (not app.capture.running) _ app k
listen-Consistent i (reading uploading) app k = k
listen-Consistent i (writing uploading pcm frames packet) app k = record {
  microphone = k.microphone;
  client = k.client;
  upload = λ e. (
    (k.upload e).0,
    still_open app.dump packet app.dump_mutex_initialized i.first i.second (k.upload e).1,
    (k.upload e).2,
  );
}
listen-Consistent i (queueing uploading pcm frames packet) app k =
    client-Consistent app (queue_binary app.client packet).1
      (queue_binary-running app.client packet) k
listen-Consistent i (measuring uploading pcm frames) app k =
    measured-Consistent app (measure app.capture uploading pcm frames)
      (measure-uploading app.capture uploading pcm frames) k

turned-Consistent : (s : System) (t : Turn) → Consistent s.app → Consistent (turned s t).app
unfolding turned
turned-Consistent s t k = record { microphone = k.microphone; client = k.client; upload = k.upload }

abbrev Keeps : Option System → Type 0
Keeps none = Unit
Keeps (some s) = Consistent s.app

rounded-Keeps : (s : System) (r : Round) → RoundKeeps r → Keeps (rounded s r)
unfolding rounded RoundKeeps
rounded-Keeps s Round.waits k = tt
rounded-Keeps s Round.failed k = tt
rounded-Keeps s (next app) k = k

if-Keeps : (b : Bool) (x : Option System) → Keeps x → Keeps (if b then none else x)
if-Keeps true x k = tt
if-Keeps false x k = k

listened-Keeps : (s : System) (x : Option (Hand × App)) → HandKeeps x → Keeps (listened s x)
unfolding listened
listened-Keeps s none k = tt
listened-Keeps s (some (hand, app)) k = k

move-Keeps : {Item : Type 0} (m : Move Item) (s : System) → Consistent s.app → Keeps (move m s)
unfolding move play end_client thread_end
move-Keeps (main t) s k =
    if-Keeps s.app.stop_requested (rounded s (round t s.app))
      (rounded-Keeps s (round t s.app) (round-Consistent t s.app k))
move-Keeps (client env reason decode) s k = serve-Consistent s.app env reason decode k
move-Keeps (client_begins made parse_uri initiate decode) s k =
    begun-Consistent s.app made parse_uri initiate decode k
move-Keeps (client_ends closing decode) s k =
    call_back-Consistent (listed (closing_call closing))
      (record s.app { client = (thread_end s.app.client closing).0 }) decode
      (client-Consistent s.app (thread_end s.app.client closing).0 refl k)
move-Keeps (microphone heard) s k =
    listened-Keeps s (listen heard s.hand s.app) (listen-Consistent heard s.hand s.app k)
move-Keeps (playback opens written) s k =
    let p : Player = record { pb = s.app.playback; device = s.device } in
    if-Keeps (waits p) (some (turned s (turn p opens written)))
      (turned-Consistent s (turn p opens written) k)

-- From flags that agree, no order of the threads' rounds, whatever the outside answers, leads to flags
-- that do not.
pub Reach-Consistent :
    {Item : Type 0} {s s' : System} → Consistent s.app → Reach Item s s' → Consistent s'.app
Reach-Consistent k here = k
Reach-Consistent k (later {x} r m fits e) = subst Keeps e (move-Keeps m x (Reach-Consistent k r))

-- From the start of the program on, if `app_init` got as far as the modules of the runtime, then
-- whatever the order of the rounds of the main loop, of the client's and the playback's threads and of
-- the steps of the microphone's, whatever the events, the lines of the standard input and the answers of the
-- outside: the shared memory is well formed (no ring, queue, receive buffer or id leaves its bounds),
-- and the flags of the runtime agree: the microphone uploads just when the app does, the client is
-- started just when its thread is meant to run, and an upload runs only in the state UPLOADING_AUDIO,
-- with a dump file that is open and a session that the server named. `realloc` finds no memory for
-- 2 ^ 60 pointers.
pub started-Safe-Consistent :
    {Item : Type 0} (o : Options) (s : Supplies) (w : World Item) {s' : System}
    → (init o s).1.runtime_modules_initialized ≡ true
    → Reach Item (record { app = begin_run w (init o s).1; device = none; hand = idle }) s'
    → Safe s'.app × Consistent s'.app
started-Safe-Consistent o s w up r = (
  Reach-Safe (begin-Safe w (init o s).1 (init-SafeIfUp o s up)) r,
  Reach-Consistent (begin-Consistent w (init o s).1 (init-Agrees o s)) r,
)
