-- ===== src/App/Talk/Overtake.antt =====
-- What the end of an utterance sends, and in what order.
use xiaozhi.App.Loop.{dispatch}
use xiaozhi.App.Send.{send_built}
use xiaozhi.App.State.{App, World, upload_off, close_opus_dump_file}
use xiaozhi.App.Talk.{CanSend, texts, stop_text, sends, in_state}
use xiaozhi.App.Talk.Ending.{silenced, silenced-CanSend, stop-dispatch}
use xiaozhi.AudioBuffer.Invariant as Blocks
use xiaozhi.AudioBuffer.Refine as Sound
use xiaozhi.Base.{
  ◌≡◌, ◌<◌, ℕ, ap, ◌∙◌, map, map-append, append_assoc, length, ok, ◌∷◌, ◌++◌, [], length-append,
  arith,
}
use xiaozhi.Base.Strings.{Bytes}
use xiaozhi.Client.Calls.{queue_text}
use xiaozhi.Client.Callback.{text}
use xiaozhi.Client.Callback.Order.{IsValid, frames, block_frame, serve, serve_all}
use xiaozhi.Client.TextQueue.Refine.{queue_refines}
use xiaozhi.Event.{Event, EventType}
use xiaozhi.Session.{State}

sent-IsValid :
    {Item : Type 0} (w : World Item) (app : App) (p : Bytes)
    → CanSend w app
    → Blocks.IsValid app.client.pending_binary
    → IsValid (send_built w app (ok, p)).1.client
unfolding send_built queue_text
sent-IsValid w app p c b = record {
  texts = (queue_refines p w.memory w.copied c.queue c.small).0;
  blocks = b;
}

-- A message stands in front of the audio.
frames-sent :
    {Item : Type 0} (w : World Item) (app : App) (p : Bytes)
    → CanSend w app
    → frames (send_built w app (ok, p)).1.client
      ≡ map text (texts app) ++ text p ∷ map block_frame (Sound.contents app.client.pending_binary)
unfolding send_built queue_text
frames-sent w app p c =
    let audio = map block_frame (Sound.contents app.client.pending_binary) in
    ap (λ ts. map text ts ++ audio) (sends w app p c).1
    ∙ ap (λ fs. fs ++ audio) (map-append text (texts app) (p ∷ []))
    ∙ append_assoc (map text (texts app)) (text p ∷ []) audio

-- "listen stop" overtakes the sound of its own utterance: in UPLOADING_AUDIO, with a session that the
-- server named and memory, the key that ends the utterance makes the client send the texts that wait,
-- then "listen stop", and only behind it the audio that still waits. The queues are valid, no write
-- fails, and there are more write callbacks than frames wait.
pub stop_overtakes_audio :
    {Item : Type 0} (w : World Item) (app : App) (e : Event) (n : ℕ)
    → CanSend w app
    → Blocks.IsValid app.client.pending_binary
    → app.session.state ≡ State.uploading_audio
    → e.type ≡ EventType.manual_stop
    → length (frames app.client) < n
    → (serve n (dispatch w app e).client).0
      ≡ map text (texts app)
        ++ text (stop_text app.session_id)
          ∷ map block_frame (Sound.contents app.client.pending_binary)
unfolding silenced close_opus_dump_file upload_off in_state
stop_overtakes_audio w app e n c b s t h =
    let a = silenced app in
    let p = stop_text app.session_id in
    let c' = silenced-CanSend w app c in
    let next = (send_built w a (ok, p)).1.client in
    let audio = map block_frame (Sound.contents app.client.pending_binary) in
    let order = frames-sent w a p c' in
    rw (stop-dispatch w app e c s t) (
      (serve_all n next (sent-IsValid w a p c' b)
        (omega (
          arith,
          h,
          ap length order,
          length-append (map text (texts app)) (text p ∷ audio),
          length-append (map text (texts app)) audio,
        ))
        (omega (arith, h))).0
      ∙ order)
