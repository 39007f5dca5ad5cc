-- ===== src/App/System/Memory.antt =====
-- The memory that the threads share stays well formed.
pub mod Actions
pub mod Handlers
pub mod Callbacks
pub mod Threads
use xiaozhi.App.State.{App}
use xiaozhi.AudioBuffer.{AudioBuffer}
use xiaozhi.AudioBuffer.Invariant as Blocks
use xiaozhi.Base.{ℕ, ◌<◌, ◌≤◌, Bool, true, false, length, if◌then◌else◌}
use xiaozhi.Base.Strings.{Bytes}
use xiaozhi.Client.Receive.{recv_size}
use xiaozhi.Client.State.{Client}
use xiaozhi.Client.Callback.Memory.{Buffers}
use xiaozhi.Client.TextQueue.{TextQueue}
use xiaozhi.Client.TextQueue.Capacity.{Bounded}
use xiaozhi.EventQueue.{EventQueue}
use xiaozhi.EventQueue.Invariant as Events

-- The parts of the runtime that are arrays: the ring of events, the client's arrays, the ring of sound,
-- and `session_id`, of 64 bytes.
pub record Arrays (events : EventQueue) (texts : TextQueue) (blocks : AudioBuffer)
    (text binary : Bytes) (sound : AudioBuffer) (id : Bytes) : Type 0 where
  pub events_valid : Events.IsValid events
  pub client_safe : Buffers texts blocks text binary
  pub sound_valid : Blocks.IsValid sound
  pub id_fits : length id < 64

abbrev pub Safe : App → Type 0
Safe app =
    Arrays app.events app.client.pending_text app.client.pending_binary app.client.recv_text
      app.client.recv_binary app.playback.queue app.session_id

pub if-Safe : (b : Bool) (x y : App) → Safe x → Safe y → Safe (if b then x else y)
if-Safe true x y v w = v
if-Safe false x y v w = w

module _ {events : EventQueue} {texts : TextQueue} {blocks : AudioBuffer} {text binary : Bytes}
    {sound : AudioBuffer} {id : Bytes} (v : Arrays events texts blocks text binary sound id) where
  pub events-Arrays :
      {q : EventQueue} → Events.IsValid q → Arrays q texts blocks text binary sound id
  events-Arrays q = record {
    events_valid = q;
    client_safe = v.client_safe;
    sound_valid = v.sound_valid;
    id_fits = v.id_fits;
  }

  pub client-Arrays :
      {ts : TextQueue} {bs : AudioBuffer} {t b : Bytes}
      → Buffers ts bs t b
      → Arrays events ts bs t b sound id
  client-Arrays c = record {
    events_valid = v.events_valid;
    client_safe = c;
    sound_valid = v.sound_valid;
    id_fits = v.id_fits;
  }

  pub sound-Arrays :
      {s : AudioBuffer} → Blocks.IsValid s → Arrays events texts blocks text binary s id
  sound-Arrays s = record {
    events_valid = v.events_valid;
    client_safe = v.client_safe;
    sound_valid = s;
    id_fits = v.id_fits;
  }

  pub id-Arrays : {i : Bytes} → length i < 64 → Arrays events texts blocks text binary sound i
  id-Arrays i = record {
    events_valid = v.events_valid;
    client_safe = v.client_safe;
    sound_valid = v.sound_valid;
    id_fits = i;
  }
