-- ===== src/App/Consistent/Events.antt =====
-- An event of the main loop keeps the flags of the runtime in agreement.
use xiaozhi.App.Consistent.{Consistent, Off-Consistent, upload_off-Off, set_state-Off, reset-Off}
use xiaozhi.App.Loop.{handle_text, finish_playback, dispatch_type}
use xiaozhi.App.Messages.{
  with_decoder, handle_kind, handle_hello, update_decoder_from_hello, reinit_decoder,
  take_session_id, tts_start, tts_stop, handle_protocol_event,
}
use xiaozhi.App.State.{App, World}
use xiaozhi.App.Consistent.Kept.{session-Consistent}
use xiaozhi.AudioBuffer
use xiaozhi.Base.{
  Bool, true, false, ◌&&◌, ◌==◌, [], ◌∷◌, Status, ok, failed, if◌then◌else◌, inl, inr, Option-cases,
}
use xiaozhi.Base.Int.{ℤ, pos, int_eq}
use xiaozhi.Base.Strings.{Bytes}
use xiaozhi.Event.{EventType}
use xiaozhi.Opus.{Decoder, decoder_init, decoder_destroy}
use xiaozhi.Protocol.{Kind, IncomingEvent, parse_incoming_json}
use xiaozhi.Session.{State}

pub if-Consistent :
    {x y : App} (b : Bool) → Consistent x → Consistent y → Consistent (if b then x else y)
if-Consistent true c d = c
if-Consistent false c d = d

with_decoder-Consistent :
    (app : App) (rate : ℤ) (x : Status × Decoder)
    → Consistent app
    → Consistent (with_decoder app rate x)
unfolding with_decoder
with_decoder-Consistent app rate (ok, d) c = record {
  microphone = c.microphone;
  client = c.client;
  upload = c.upload;
}
with_decoder-Consistent app rate (failed, d) c = record {
  microphone = c.microphone;
  client = c.client;
  upload = c.upload;
}

decoder-Consistent :
    {Item : Type 0} (w : World Item) (app : App) (rate channels : ℤ)
    → Consistent app
    → Consistent (reinit_decoder w app rate channels)
unfolding reinit_decoder
decoder-Consistent w app rate channels c =
    if-Consistent (int_eq rate app.decoder_sample_rate && int_eq channels (pos 1)) c (
      with_decoder-Consistent app rate
        (decoder_init (decoder_destroy app.decoder) rate channels w.decoder_created) c)

session_id-Consistent :
    (app : App) (id : Bytes) → Consistent app → Consistent (take_session_id app id)
unfolding take_session_id
session_id-Consistent app [] c = c
session_id-Consistent app (x ∷ id) c = record {
  microphone = c.microphone;
  client = c.client;
  upload = λ e. ((c.upload e).0, (c.upload e).1, λ z. cc);
}

hello-Consistent :
    {Item : Type 0} (w : World Item) (app : App) (event : IncomingEvent)
    → Consistent app
    → Consistent (handle_hello w app event)
unfolding handle_hello update_decoder_from_hello
hello-Consistent w app event c =
    session-Consistent w (update_decoder_from_hello w (take_session_id app event.session_id) event)
      EventType.ws_hello
      (decoder-Consistent w (take_session_id app event.session_id) _ _
        (session_id-Consistent app event.session_id c))

tts_start-Consistent : (app : App) → Consistent app → Consistent (tts_start app)
unfolding tts_start
tts_start-Consistent app c =
    let o = set_state-Off State.playing_tts (upload_off-Off app c.client) in
    Off-Consistent (record { microphone = o.microphone; client = o.client; upload = o.upload })

done-Consistent : (app : App) (b : Bool) → Consistent app → Consistent (record app { tts_done = b })
done-Consistent app b c = record { microphone = c.microphone; client = c.client; upload = c.upload }

tts_stop-Consistent : (app : App) → Consistent app → Consistent (tts_stop app)
unfolding tts_stop
tts_stop-Consistent app c =
    let d = record app { tts_done = true } in
    if-Consistent (AudioBuffer.size app.playback.queue == 0) (Off-Consistent (reset-Off d c.client))
      (done-Consistent app true c)

kind-Consistent :
    {Item : Type 0} (w : World Item) (app : App) (event : IncomingEvent) (k : Kind)
    → Consistent app
    → Consistent (handle_kind w app event k)
unfolding handle_kind
kind-Consistent w app event Kind.hello c = hello-Consistent w app event c
kind-Consistent w app event Kind.tts_start c = tts_start-Consistent app c
kind-Consistent w app event Kind.tts_stop c = tts_stop-Consistent app c
kind-Consistent w app event _ c = c

text-Consistent :
    {Item : Type 0} (w : World Item) (app : App) (text : Bytes)
    → Consistent app
    → Consistent (handle_text w app text)
unfolding handle_text handle_protocol_event
text-Consistent w app text c = elim (Option-cases (parse_incoming_json w.json text)) [
  | inl e ↦ rw (handle_text, e) c
  | inr (event, e) ↦ rw (handle_text, e) (kind-Consistent w app event event.type c)
]

pub type-Consistent :
    {Item : Type 0} (w : World Item) (app : App) (t : EventType) (text : Bytes)
    → Consistent app
    → Consistent (dispatch_type w app t text)
unfolding dispatch_type finish_playback
type-Consistent w app EventType.manual_start text c =
    session-Consistent w app EventType.manual_start c
type-Consistent w app EventType.wakeword_detected text c =
    session-Consistent w app EventType.wakeword_detected c
type-Consistent w app EventType.manual_stop text c =
    session-Consistent w app EventType.manual_stop c
type-Consistent w app EventType.ws_connected text c =
    session-Consistent w app EventType.ws_connected c
type-Consistent w app EventType.ws_text text c = text-Consistent w app text c
type-Consistent w app EventType.capture_silence_timeout text c =
    session-Consistent w app EventType.capture_silence_timeout c
type-Consistent w app EventType.playback_finished text c =
    if-Consistent app.tts_done (Off-Consistent (reset-Off app c.client)) c
type-Consistent w app EventType.error text c = session-Consistent w app EventType.error c
type-Consistent w app EventType.shutdown text c = record {
  microphone = c.microphone;
  client = c.client;
  upload = c.upload;
}
type-Consistent w app _ text c = c
