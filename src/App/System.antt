-- ===== src/App/System.antt =====
-- The whole program: the main loop, the thread of the client, the thread of the microphone and the
-- thread of the playback, which share the runtime. A step is one round of one of them, and of the
-- microphone's thread, whose test of `upload_enabled` no lock joins to what follows it, a part of one.
pub mod Memory
pub mod Agreement
pub mod Microphone
pub mod Utterance
use xiaozhi.Opus.{encode_frame}
use xiaozhi.Dump.{write_packet}
use xiaozhi.App.Callbacks.{client_callback, capture_on_pcm}
use xiaozhi.App.Loop.{Tick, Round, round, next}
use xiaozhi.App.State.{App, World}
use xiaozhi.Base.{
  ℕ, ◌+◌, ◌^◌, ◌<◌, ◌≡◌, refl, Bool, true, false, not, List, [], ◌∷◌, Option, none, some,
  if◌then◌else◌, length, ◌==◌,
}
use xiaozhi.Base.Int.{ℤ}
use xiaozhi.Base.Strings.{Bytes}
use xiaozhi.Capture.{Capture, measure, silence_timeout}
use xiaozhi.Client.Callback.{Output, call, Env, Reason, Handled, callback}
use xiaozhi.Client.Calls.{Uri, ConnectInfo, Begun, Closing, thread_begin, thread_end, queue_binary}
use xiaozhi.Client.State.{Callback}
use xiaozhi.Client.TextQueue.{TextQueue, new_capacity}
use xiaozhi.EventQueue
use xiaozhi.Playback.{Playback, Player, Turn, playback_finished, turn, waits}

-- Where the microphone's thread is in a round of its loop: before it; with `uploading` as it was when
-- the round began, in `snd_pcm_readi`; with a packet of the samples that is still to be written to the
-- dump, or still to be queued; and before the measuring of silence.
pub data Hand : Type 0 where
  idle : Hand
  reading : Bool → Hand
  writing queueing : Bool → List ℤ → ℕ → Bytes → Hand
  measuring : Bool → List ℤ → ℕ → Hand

-- The runtime, the device that the thread of the playback holds, and the round of the microphone's.
pub record System : Type 0 where
  pub app : App
  pub device : Option ℤ
  pub hand : Hand

-- What libopus makes of a packet, with room for so many samples.
abbrev pub Decode : Type 0
Decode = Bytes → ℕ → Option (Bytes × ℕ)

-- The calls of the client into the runtime, in order.
unfoldable pub call_back : App → List Callback → Decode → App
call_back app [] decode = app
call_back app (c ∷ cs) decode = call_back (client_callback app c decode) cs decode

abbrev pub called : List Output → List Callback
called [] = []
called (call c ∷ outputs) = c ∷ called outputs
called (_ ∷ outputs) = called outputs

abbrev pub listed : Option Callback → List Callback
listed none = []
listed (some c) = c ∷ []

-- `xiaozhi_client_callback` on the runtime's client.
unfoldable pub serve_client : App → Env → Reason → Decode → App
unfolding call_back
serve_client app env reason decode =
    let h = callback app.client env reason in
    call_back (record app { client = h.client }) (called h.outputs) decode

-- The start of the client's thread, up to its loop.
unfoldable pub begin_client :
    App → Bool → (Bytes → Option Uri) → (ConnectInfo → Bool) → Decode → App
unfolding call_back
begin_client app made parse_uri initiate decode =
    let b = thread_begin app.client made parse_uri initiate in
    call_back (record app { client = b.client }) b.calls decode

-- The end of the client's thread.
unfoldable pub end_client : App → Closing → Decode → App
unfolding call_back
end_client app closing decode =
    let (client, last) = thread_end app.client closing in
    call_back (record app { client = client }) (listed last) decode

unfoldable pub measured : App → Bool × Capture → App
measured app (false, capture) = record app { capture = capture }
measured app (true, capture) = record app {
  capture = capture;
  events = (EventQueue.push app.events silence_timeout).1;
}

-- What the outside answers to the microphone's thread: what `snd_pcm_readi` returns, what libopus makes
-- of the samples, and how many bytes each `fwrite` takes.
pub record Heard : Type 0 where
  pub read : Option (List ℤ × ℕ)
  pub encoded : Option Bytes
  pub first : ℕ
  pub second : ℕ

-- The samples go on as a packet, if there is one.
unfoldable pub packed : Bool → List ℤ → ℕ → Option Bytes → Hand
packed uploading pcm frames none = measuring uploading pcm frames
packed uploading pcm frames (some packet) =
    if length packet == 0
    then measuring uploading pcm frames
    else writing uploading pcm frames packet

-- The call of `app_capture_on_pcm` up to the packet: `upload_enabled` is tested once, with no lock.
unfoldable pub after_read : App → Bool → Option (List ℤ × ℕ) → Option Bytes → Hand
unfolding packed
after_read app uploading none encoded = idle
after_read app uploading (some (pcm, frames)) encoded =
    if app.upload_enabled
    then packed uploading pcm frames (encode_frame app.encoder frames encoded)
    else measuring uploading pcm frames

-- A step of the microphone's thread: it reads the shared memory, or changes one part of it, under the
-- lock of that part. `none` is that the thread leaves its loop.
unfoldable pub listen : Heard → Hand → App → Option (Hand × App)
unfolding after_read measured
listen i idle app =
    if not app.capture.running then none else some (reading app.capture.uploading, app)
listen i (reading uploading) app = some (after_read app uploading i.read i.encoded, app)
listen i (writing uploading pcm frames packet) app = some (
  queueing uploading pcm frames packet,
  record app {
    dump = (write_packet app.dump packet app.dump_mutex_initialized i.first i.second).1;
  },
)
listen i (queueing uploading pcm frames packet) app =
    some
      (measuring uploading pcm frames, record app { client = (queue_binary app.client packet).1 })
listen i (measuring uploading pcm frames) app =
    some (idle, measured app (measure app.capture uploading pcm frames))

-- A whole round of the microphone's thread, within which no other thread takes a step.
unfoldable pub hear : App → Option (List ℤ × ℕ) → Option Bytes → ℕ → ℕ → App
unfolding measured
hear app none encode first second = app
hear app (some (pcm, frames)) encode first second =
    if not app.capture.running
    then app
    else measured (capture_on_pcm app frames encode first second)
        (measure app.capture app.capture.uploading pcm frames)

unfoldable pub turned : System → Turn → System
turned s t = record s {
  app = record s.app {
    playback = t.player.pb;
    events =
        if t.finished then (EventQueue.push s.app.events playback_finished).1 else s.app.events;
  };
  device = t.player.device;
}

-- A round of the playback's thread, unless it sleeps.
unfoldable pub play : System → Bool → Bool → Option System
unfolding turned
play s opens written =
    let p : Player = record { pb = s.app.playback; device = s.device } in
    if waits p then none else some (turned s (turn p opens written))

-- One round, of whose thread, with what the outside answers; of the microphone's thread one step.
pub data Move (Item : Type 0) : Type 0 where
  main : Tick Item → Move Item
  client : Env → Reason → Decode → Move Item
  client_begins : Bool → (Bytes → Option Uri) → (ConnectInfo → Bool) → Decode → Move Item
  client_ends : Closing → Decode → Move Item
  microphone : Heard → Move Item
  playback : Bool → Bool → Move Item

unfoldable pub rounded : System → Round → Option System
rounded s (next app) = some (record s { app = app })
rounded s _ = none

unfoldable pub listened : System → Option (Hand × App) → Option System
listened s none = none
listened s (some (hand, app)) = some (record s { app = app; hand = hand })

-- `none` is that the thread does not move: it waits, or has left its loop.
unfoldable pub move : {Item : Type 0} → Move Item → System → Option System
unfolding rounded listened
move (main t) s = if s.app.stop_requested then none else rounded s (round t s.app)
move (client env reason decode) s = some (record s { app = serve_client s.app env reason decode })
move (client_begins made parse_uri initiate decode) s =
    some (record s { app = begin_client s.app made parse_uri initiate decode })
move (client_ends closing decode) s = some (record s { app = end_client s.app closing decode })
move (microphone heard) s = listened s (listen heard s.hand s.app)
move (playback opens written) s = play s opens written

-- An array of 2 ^ 60 pointers has 2 ^ 63 bytes: `realloc` returns NULL for it.
abbrev pub Fits : TextQueue → Bool → Type 0
Fits q memory = memory ≡ true → new_capacity q (q.count + 1) < 2 ^ 60

abbrev pub Allowed : {Item : Type 0} → Move Item → System → Type 0
Allowed (main t) s = Fits s.app.client.pending_text t.world.memory
Allowed _ s = Unit

-- The states that the threads lead to from `s`, in any order of their rounds.
pub data Reach (Item : Type 0) (s : System) : System → Type 0 where
  here : Reach Item s s
  later :
      {x y : System}
      → Reach Item s x
      → (m : Move Item) → Allowed m x
      → move m x ≡ some y
      → Reach Item s y

-- A guard that is passed.
pub if_none :
    {A : Type 0} (b : Bool) {x : Option A} {y : A}
    → (if b then none else x) ≡ some y
    → (b ≡ false) × (x ≡ some y)
if_none true e = absurd (cc e)
if_none false e = (refl, e)
