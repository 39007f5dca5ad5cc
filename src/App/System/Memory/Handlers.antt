-- ===== src/App/System/Memory/Handlers.antt =====
-- The handlers of the main loop keep the shared memory well formed.
use xiaozhi.App.Loop.{handle_text, finish_playback, dispatch_type}
use xiaozhi.App.Messages.{
  with_decoder, handle_kind, handle_hello, update_decoder_from_hello, reinit_decoder,
  take_session_id, tts_start, tts_stop, handle_session, handle_protocol_event,
}
use xiaozhi.App.State.{App, World, set_state, upload_off}
use xiaozhi.App.System.Memory.Actions.{FitsNext, action-Safe, reset-Safe}
use xiaozhi.App.System.Memory.{Safe, if-Safe, id-Arrays}
use xiaozhi.AudioBuffer
use xiaozhi.AudioBuffer.{AudioBuffer}
use xiaozhi.Base.{
  Bool, true, false, ◌&&◌, ◌==◌, [], ◌∷◌, Status, ok, failed, if◌then◌else◌, arith, inl, inr,
  Option-cases,
}
use xiaozhi.Base.Int.{ℤ, pos, int_eq}
use xiaozhi.Base.Strings.{Bytes, length-truncate}
use xiaozhi.Event.{EventType}
use xiaozhi.Opus.{Decoder, decoder_init, decoder_destroy}
use xiaozhi.Protocol.{Kind, IncomingEvent, parse_incoming_json}
use xiaozhi.Session.{handle_event}

module _ {Item : Type 0} (w : World Item) where
  session-Safe :
      (app : App) (t : EventType) → FitsNext w app → Safe app → Safe (handle_session w app t)
  unfolding handle_session
  session-Safe app t fits v =
      action-Safe w (record app { session = (handle_event app.session t).1 })
        (handle_event app.session t).0 fits v

  -- What holds before a text is queued.
  Before : App → Type 0
  Before app = FitsNext w app × Safe app

  id-Before : (app : App) (id : Bytes) → Before app → Before (take_session_id app id)
  unfolding take_session_id Before
  id-Before app [] b = b
  id-Before app (c ∷ id) (fits, v) = (fits, id-Arrays v (length-truncate 64 (c ∷ id) (omega arith)))

  rate-Before :
      (app : App) (rate : ℤ) (x : Status × Decoder) → Before app → Before (with_decoder app rate x)
  unfolding with_decoder Before
  rate-Before app rate (ok, d) b = b
  rate-Before app rate (failed, d) b = b

  if-Before : (c : Bool) (x y : App) → Before x → Before y → Before (if c then x else y)
  if-Before true x y a b = a
  if-Before false x y a b = b

  decoder-Before :
      (app : App) (rate channels : ℤ) → Before app → Before (reinit_decoder w app rate channels)
  unfolding reinit_decoder
  decoder-Before app rate channels b =
      if-Before (int_eq rate app.decoder_sample_rate && int_eq channels (pos 1)) _ _ b (
        rate-Before app rate
          (decoder_init (decoder_destroy app.decoder) rate channels w.decoder_created) b)

  kind-Safe :
      (app : App) (event : IncomingEvent) (k : Kind) → Before app → Safe (handle_kind w app event k)
  unfolding handle_kind handle_hello update_decoder_from_hello tts_start tts_stop upload_off
      set_state Before
  kind-Safe app event Kind.hello b =
      let known = take_session_id app event.session_id in
      let ready = decoder-Before known _ _ (id-Before app event.session_id b) in
      session-Safe (update_decoder_from_hello w known event) EventType.ws_hello ready.0 ready.1
  kind-Safe app event Kind.tts_start (fits, v) = v
  kind-Safe app event Kind.tts_stop (fits, v) =
      if-Safe (AudioBuffer.size app.playback.queue == 0) _ (record app { tts_done = true })
        (reset-Safe (record app { tts_done = true }) v) v
  kind-Safe app event _ (fits, v) = v

  text-Safe : (app : App) (text : Bytes) → FitsNext w app → Safe app → Safe (handle_text w app text)
  unfolding handle_text handle_protocol_event Before
  text-Safe app text fits v = elim (Option-cases (parse_incoming_json w.json text)) [
    | inl e ↦ rw (handle_text, e) v
    | inr (event, e) ↦ rw (handle_text, e) (kind-Safe app event event.type (fits, v))
  ]

  pub type-Safe :
      (app : App) (t : EventType) (text : Bytes)
      → FitsNext w app
      → Safe app
      → Safe (dispatch_type w app t text)
  unfolding dispatch_type finish_playback
  type-Safe app EventType.manual_start text fits v = session-Safe app EventType.manual_start fits v
  type-Safe app EventType.wakeword_detected text fits v =
      session-Safe app EventType.wakeword_detected fits v
  type-Safe app EventType.manual_stop text fits v = session-Safe app EventType.manual_stop fits v
  type-Safe app EventType.ws_connected text fits v = session-Safe app EventType.ws_connected fits v
  type-Safe app EventType.ws_text text fits v = text-Safe app text fits v
  type-Safe app EventType.capture_silence_timeout text fits v =
      session-Safe app EventType.capture_silence_timeout fits v
  type-Safe app EventType.playback_finished text fits v =
      if-Safe app.tts_done _ app (reset-Safe app v) v
  type-Safe app EventType.error text fits v = session-Safe app EventType.error fits v
  type-Safe app _ text fits v = v
