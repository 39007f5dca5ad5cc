-- ===== src/App/Callbacks.antt =====
-- The callbacks that run on the threads of the client and of the microphone. What libopus makes of a
-- packet or of samples, and what `fwrite` takes, are arguments.
use xiaozhi.App.State.{App, push_event}
use xiaozhi.Base.{
  ℕ, zero, suc, ◌≡◌, refl, ◌+◌, ◌/◌, ◌%◌, ◌||◌, ◌∷◌, ◌++◌, Option, none, some, ◌==◌, if◌then◌else◌,
  length,
}
use xiaozhi.Base.Int.{ℤ, pos, negsuc}
use xiaozhi.Base.Strings.{Bytes, codes, truncate}
use xiaozhi.Client.Calls.{queue_binary}
use xiaozhi.Client.State.{Callback, on_connected, on_disconnected, on_text, on_binary, on_error}
use xiaozhi.Dump.{write_packet}
use xiaozhi.Event.{EventType}
use xiaozhi.Opus.{decode_frame, encode_frame}
use xiaozhi.Playback
use xiaozhi.Playback.{Playback}

-- `%d`: the decimal digits of a number before the text, with fuel for the digits.
digits : ℕ → ℕ → Bytes → Bytes
digits zero n text = text
digits (suc fuel) n text =
    let more = digits fuel (n / 10) ((b'0' + n % 10) ∷ text) in
    if n / 10 == 0 then (b'0' + n % 10) ∷ text else more

print_int : ℤ → Bytes → Bytes
unfolding digits
print_int (pos n) text = digits 20 n text
print_int (negsuc n) text = b'-' ∷ digits 20 (n + 1) text

unfoldable pub disconnect_message : ℤ → Bytes
unfolding print_int
disconnect_message code =
    truncate 128 (codes "websocket disconnected (code=" ++ print_int code (codes ")"))

pub message_zero : disconnect_message (pos 0) ≡ codes "websocket disconnected (code=0)"
unfolding disconnect_message print_int digits
message_zero = refl

-- A packet of the server: what is played, at the rate of the decoder.
unfoldable pub play_frames : App → Option (Bytes × ℕ) → App
play_frames app none = app
play_frames app (some (pcm, frames)) = if frames == 0 then app else record app {
  playback = (Playback.enqueue app.playback pcm frames app.decoder_sample_rate).1;
}

unfoldable pub receive_audio : App → Bytes → (Bytes → ℕ → Option (Bytes × ℕ)) → App
unfolding play_frames
receive_audio app payload decode =
    if app.upload_enabled || length payload == 0
    then app
    else play_frames app (decode_frame app.decoder payload 4096 decode)

-- `app_client_on_connected`, `app_client_on_disconnected`, `app_client_on_text`,
-- `app_client_on_binary` and `app_client_on_error`.
unfoldable pub client_callback : App → Callback → (Bytes → ℕ → Option (Bytes × ℕ)) → App
unfolding disconnect_message
client_callback app on_connected decode = push_event app EventType.ws_connected none (pos 0)
client_callback app (on_disconnected code) decode =
    if app.stop_requested
    then app
    else push_event app EventType.error (some (disconnect_message code)) code
client_callback app (on_text payload) decode =
    push_event app EventType.ws_text (some payload) (pos 0)
client_callback app (on_binary payload) decode = receive_audio app payload decode
client_callback app (on_error message) decode =
    push_event app EventType.error (some message) (negsuc 0)

-- A packet that is recorded and queued; that either fails is only logged.
unfoldable pub queue_packet : App → ℕ → ℕ → Option Bytes → App
queue_packet app first second none = app
queue_packet app first second (some packet) = if length packet == 0 then app else record app {
  dump = (write_packet app.dump packet app.dump_mutex_initialized first second).1;
  client = (queue_binary app.client packet).1;
}

-- `app_capture_on_pcm`; `encode` is what libopus makes of the samples in a buffer of 512 bytes.
unfoldable pub capture_on_pcm : App → ℕ → Option Bytes → ℕ → ℕ → App
unfolding queue_packet
capture_on_pcm app frames encode first second =
    if app.upload_enabled
    then queue_packet app first second (encode_frame app.encoder frames encode)
    else app
