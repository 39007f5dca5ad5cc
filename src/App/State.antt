-- ===== src/App/State.antt =====
-- `app_runtime_t`, the outcomes of the calls that leave the program, and the small functions of the
-- runtime. Pointers are not NULL; what is only logged is left out.
use xiaozhi.Base.{Bool, true, false, [], Option, none, some, if◌then◌else◌, length, ◌&&◌}
use xiaozhi.Base.Int.{ℤ, pos}
use xiaozhi.Base.Strings.{Bytes, codes, str_eq, truncate}
use xiaozhi.Capture
use xiaozhi.Capture.{Capture}
use xiaozhi.Client.Calls
use xiaozhi.Client.State.{Client}
use xiaozhi.Config.Types.{AppConfig}
use xiaozhi.Dump.{Dump, close_dump}
use xiaozhi.Event.{Event, EventType, text_size}
use xiaozhi.EventQueue
use xiaozhi.EventQueue.{EventQueue}
use xiaozhi.Log.{Level, debug, info, warn, error}
use xiaozhi.Opus.{Encoder, Decoder}
use xiaozhi.Playback.{Playback}
use xiaozhi.Protocol.{Json}
use xiaozhi.Session.{Session, State}

pub record App : Type 0 where
  pub config : AppConfig
  pub events : EventQueue
  pub session : Session
  pub client : Client
  pub encoder : Encoder
  pub decoder : Decoder
  pub capture : Capture
  pub playback : Playback
  pub initialized : Bool
  pub check_only : Bool
  pub skip_runtime_init : Bool
  pub stop_requested : Bool
  pub client_started : Bool
  pub runtime_modules_initialized : Bool
  pub activation_pending : Bool
  pub upload_enabled : Bool
  pub decoder_sample_rate : ℤ
  pub tts_done : Bool
  pub dump : Dump
  pub dump_mutex_initialized : Bool
  pub session_id : Bytes

-- What the calls that leave the program answer while one event is handled: whether a thread can be
-- made, what closing the old connection reports, whether `realloc` and `strdup` find memory for a text, whether the JSON objects and the opus
-- decoder can be created, and whether a dump file opens in build/ and in /tmp; and the JSON library.
pub record World (Item : Type 0) : Type 0 where
  pub thread_made : Bool
  pub closing : Calls.Closing
  pub memory : Bool
  pub copied : Bool
  pub objects_created : Bool
  pub decoder_created : Bool
  pub in_build : Bool
  pub in_tmp : Bool
  pub json : Json Item

-- The event that `app_push_event` builds.
unfoldable pub event_of : EventType → Option Bytes → ℤ → Event
event_of type none code = record { type = type; code = code; data_len = 0; text = [] }
event_of type (some text) code = record {
  type = type;
  code = code;
  data_len = length (truncate text_size text);
  text = truncate text_size text;
}

-- `app_push_event`; that the queue is full is ignored.
unfoldable pub push_event : App → EventType → Option Bytes → ℤ → App
push_event app type text code = record app {
  events = (EventQueue.push app.events (event_of type text code)).1;
}

unfoldable pub parse_log_level : Bytes → Level
parse_log_level name =
    if str_eq name (codes "info")
    then info
    else if str_eq name (codes "debug")
    then debug
    else if str_eq name (codes "warn")
    then warn
    else if str_eq name (codes "error")
    then error
    else info

-- `app->session.state = state`
unfoldable pub set_state : App → State → App
set_state app state = record app { session = record { state = state } }

-- `upload_enabled = 0` and `audio_capture_set_uploading(&app->capture, 0)`.
unfoldable pub upload_off : App → App
upload_off app = record app {
  upload_enabled = false;
  capture = Capture.set_uploading app.capture false;
}

-- `app_close_opus_dump_file`
unfoldable pub close_opus_dump_file : App → App
close_opus_dump_file app = record app { dump = close_dump app.dump app.dump_mutex_initialized }

unfoldable pub reset_to_idle : App → App
reset_to_idle app =
    set_state (close_opus_dump_file (upload_off (record app { tts_done = false })))
      (if app.client_started && Calls.is_connected app.client then State.ready else State.idle)

-- `app_request_stop`
unfoldable pub request_stop : App → App
request_stop app = push_event (record app { stop_requested = true }) EventType.shutdown none (pos 0)
