-- ===== src/App/Messages.antt =====
-- `app_handle_protocol_event`: what the messages of the server do.
use xiaozhi.App.Actions.{handle_action}
use xiaozhi.App.State.{App, World, set_state, upload_off, reset_to_idle}
use xiaozhi.AudioBuffer
use xiaozhi.Base.{true, false, [], ◌∷◌, Status, ok, failed, if◌then◌else◌, ◌==◌, ◌&&◌}
use xiaozhi.Base.Int.{ℤ, pos, is_positive, int_eq}
use xiaozhi.Base.Strings.{Bytes, truncate}
use xiaozhi.Event.{EventType}
use xiaozhi.Opus.{Decoder, decoder_init, decoder_destroy}
use xiaozhi.Protocol.{Kind, IncomingEvent}
use xiaozhi.Session.{Action, Session, State, handle_event}

unfoldable pub with_decoder : App → ℤ → Status × Decoder → App
with_decoder app rate (ok, decoder) = record app { decoder = decoder; decoder_sample_rate = rate }
with_decoder app rate (failed, decoder) = record app { decoder = decoder }

unfoldable pub reinit_decoder : {Item : Type 0} → World Item → App → ℤ → ℤ → App
unfolding with_decoder
reinit_decoder w app rate channels =
    if int_eq rate app.decoder_sample_rate && int_eq channels (pos 1)
    then app
    else with_decoder app rate
        (decoder_init (decoder_destroy app.decoder) rate channels w.decoder_created)

unfoldable pub update_decoder_from_hello : {Item : Type 0} → World Item → App → IncomingEvent → App
update_decoder_from_hello w app event =
    reinit_decoder w app
      (if is_positive event.output_sample_rate
        then event.output_sample_rate
        else app.decoder_sample_rate)
      (if is_positive event.output_channels then event.output_channels else pos 1)

-- `session_id` is copied from a hello that has one.
unfoldable pub take_session_id : App → Bytes → App
take_session_id app [] = app
take_session_id app (c ∷ id) = record app { session_id = truncate 64 (c ∷ id) }

after_event : {Item : Type 0} → World Item → App → Action × Session → App
after_event w app (action, session) = handle_action w (record app { session = session }) action

-- `app_handle_action(app, session_handle_event(&app->session, type))`
unfoldable pub handle_session : {Item : Type 0} → World Item → App → EventType → App
unfolding after_event
handle_session w app type = after_event w app (handle_event app.session type)

unfoldable pub handle_hello : {Item : Type 0} → World Item → App → IncomingEvent → App
handle_hello w app event =
    handle_session w (update_decoder_from_hello w (take_session_id app event.session_id) event)
      EventType.ws_hello

unfoldable pub tts_start : App → App
tts_start app = record (set_state (upload_off app) State.playing_tts) { tts_done = false }

unfoldable pub tts_stop : App → App
tts_stop app =
    if AudioBuffer.size app.playback.queue == 0
    then reset_to_idle (record app { tts_done = true })
    else record app { tts_done = true }

-- The `switch`; the other kinds are only logged.
unfoldable pub handle_kind : {Item : Type 0} → World Item → App → IncomingEvent → Kind → App
handle_kind w app event Kind.hello = handle_hello w app event
handle_kind w app event Kind.tts_start = tts_start app
handle_kind w app event Kind.tts_stop = tts_stop app
handle_kind w app event _ = app

unfoldable pub handle_protocol_event : {Item : Type 0} → World Item → App → IncomingEvent → App
handle_protocol_event w app event = handle_kind w app event event.type
