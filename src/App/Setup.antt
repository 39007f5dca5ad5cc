-- ===== src/App/Setup.antt =====
-- `app_init`, `app_bootstrap_ota` and `app_destroy`.
pub mod Check
pub mod Memory
pub mod Start
use xiaozhi.App.State.{App}
use xiaozhi.AudioBuffer
use xiaozhi.Base.{
  Bool, true, false, [], ◌∷◌, ◌++◌, Option, none, some, Status, ok, failed, if◌then◌else◌, take,
}
use xiaozhi.Base.Int.{pos}
use xiaozhi.Base.Strings.{Bytes, codes, is_empty, truncate}
use xiaozhi.Capture
use xiaozhi.Capture.{Capture, CaptureConfig, zero_capture}
use xiaozhi.Client.Calls
use xiaozhi.Client.State.{ClientConfig}
use xiaozhi.Config.Load.{Loaded, File, load_file}
use xiaozhi.Config.Types.{AppConfig}
use xiaozhi.EventQueue
use xiaozhi.EventQueue.{EventQueue}
use xiaozhi.Opus.{Encoder, Decoder, zero_encoder, zero_decoder, encoder_init, decoder_init}
use xiaozhi.Ota.{OtaResponse}
use xiaozhi.Playback
use xiaozhi.Playback.{Playback, PlaybackConfig}
use xiaozhi.Session

-- `value` if `id` is empty; both fit the array.
default_id : Bytes → Bytes → Bytes
default_id [] value = truncate 64 value
default_id (c ∷ id) value = c ∷ id

unfoldable pub fill_default_ids : AppConfig → AppConfig
unfolding default_id
fill_default_ids c = record c {
  device = record {
    device_id = default_id c.device.device_id (codes "desktop-device");
    client_id = default_id c.device.client_id (codes "desktop-client");
  };
}

-- The answer of the OTA server in place of the configured value, if it has one.
answered : Bytes → Bytes → Bytes
answered value [] = value
answered value (c ∷ answer) = truncate 256 (c ∷ answer)

-- The url and the token that the program uses after the bootstrap.
unfoldable pub take_answer : AppConfig → OtaResponse → AppConfig
unfolding answered
take_answer c response = record c {
  server = record c.server {
    url = answered c.server.url response.url;
    token = answered c.server.token response.token;
  };
}

-- `app_bootstrap_ota`: the status, the configuration and `activation_pending`. `response` is what the
-- fetcher returns.
pub record Bootstrap : Type 0 where
  pub status : Status
  pub config : AppConfig
  pub activation_pending : Bool

after_answer : AppConfig → OtaResponse → Bootstrap
after_answer c response =
    if response.activation_required
    then record { status = ok; config = c; activation_pending = true }
    else record {
      status = if is_empty c.server.url then failed else ok;
      config = c;
      activation_pending = false;
    }

unfoldable pub bootstrap_ota : AppConfig → Option OtaResponse → Bootstrap
unfolding after_answer
bootstrap_ota c none = record { status = failed; config = c; activation_pending = false }
bootstrap_ota c (some response) = after_answer (take_answer c response) response

-- `client_cfg`
authorization : Bytes → Bytes
authorization [] = []
authorization (c ∷ token) = truncate 256 (codes "Bearer " ++ take 240 (c ∷ token))

client_config : AppConfig → ClientConfig
unfolding authorization
client_config c = record {
  url = truncate 256 c.server.url;
  protocol_version = c.server.protocol_version;
  authorization = authorization c.server.token;
  device_id = truncate 64 c.device.device_id;
  client_id = truncate 64 c.device.client_id;
}

playback_config : AppConfig → PlaybackConfig
playback_config c = record {
  device = truncate 64 c.audio.playback_device;
  channels = pos 1;
  default_sample_rate = pos 24000;
  queue_capacity = 32;
  max_frame_bytes = 8192;
}

capture_config : AppConfig → CaptureConfig
capture_config c = record {
  device = truncate 64 c.audio.capture_device;
  sample_rate = c.audio.input_sample_rate;
  channels = pos 1;
  period_frames = 960;
  silence_timeout_ms = c.audio.silence_timeout_ms;
  silence_threshold = c.audio.silence_threshold;
}

-- Whether each module gets what it needs from the system.
pub record Resources : Type 0 where
  pub client_memory : Bool
  pub encoder_created : Bool
  pub decoder_created : Bool
  pub playback_memory : Bool
  pub playback_thread : Bool
  pub capture_thread : Bool

-- `app_init_runtime_modules`, module by module; each step gives the status and the state so far.
init_capture : Resources → App → Status × App
unfolding capture_config
init_capture r app = elim (Capture.start (capture_config app.config) r.capture_thread) [
  | none ↦ (failed, record app { capture = zero_capture })
  | some capture ↦ (ok, record app { capture = capture; runtime_modules_initialized = true })
]

init_playback : Resources → App → Status × App
unfolding playback_config init_capture
init_playback r app =
    elim (Playback.init (playback_config app.config) r.playback_memory r.playback_thread) [
      | none ↦ (failed, app)
      | some playback ↦ init_capture r (record app { playback = playback })
    ]

init_decoder : Resources → App → Status × Decoder → Status × App
unfolding init_playback
init_decoder r app (failed, decoder) = (failed, record app { decoder = decoder })
init_decoder r app (ok, decoder) =
    init_playback r (record app { decoder = decoder; decoder_sample_rate = pos 24000 })

init_encoder : Resources → App → Status × Encoder → Status × App
unfolding init_decoder
init_encoder r app (failed, encoder) = (failed, record app { encoder = encoder })
init_encoder r app (ok, encoder) =
    init_decoder r (record app { encoder = encoder })
      (decoder_init app.decoder (pos 24000) (pos 1) r.decoder_created)

unfoldable pub init_runtime_modules : Resources → App → Status × App
unfolding init_encoder client_config
init_runtime_modules r app = elim (Calls.init (client_config app.config) r.client_memory) [
  | none ↦ (failed, record app { dump_mutex_initialized = true })
  | some client ↦
      init_encoder r (record app { dump_mutex_initialized = true; client = client })
        (encoder_init app.encoder app.config.audio.input_sample_rate (pos 1) (pos 60)
          r.encoder_created)
]

-- What `memset` leaves of the records.
abbrev pub zero_config : AppConfig
zero_config = record {
  ota = record { url = []; accept_language = []; app_version = []; elf_sha256 = [] };
  server = record { url = []; token = []; protocol_version = pos 0 };
  device = record { device_id = []; client_id = [] };
  board = record { type = []; name = []; ssid = []; rssi = pos 0 };
  audio = record {
    capture_device = [];
    playback_device = [];
    input_sample_rate = pos 0;
    silence_timeout_ms = pos 0;
    silence_threshold = pos 0;
    max_utterance_ms = pos 0;
  };
  runtime = record { log_level = []; reconnect_backoff_ms = pos 0 };
}

-- The zeroed runtime.
unfoldable pub zero_app : App
zero_app = record {
  config = zero_config;
  events = record { items = []; capacity = 0; head = 0; tail = 0; count = 0 };
  session = Session.init;
  client = Calls.zero_client;
  encoder = zero_encoder;
  decoder = zero_decoder;
  capture = zero_capture;
  playback = record {
    config = record {
      device = [];
      channels = pos 0;
      default_sample_rate = pos 0;
      queue_capacity = 0;
      max_frame_bytes = 0;
    };
    queue = AudioBuffer.zero_buffer;
    running = false;
    stop_requested = false;
  };
  initialized = false;
  check_only = false;
  skip_runtime_init = false;
  stop_requested = false;
  client_started = false;
  runtime_modules_initialized = false;
  activation_pending = false;
  upload_enabled = false;
  decoder_sample_rate = pos 0;
  tts_done = false;
  dump = record { file = none; index = 0; saved = [] };
  dump_mutex_initialized = false;
  session_id = [];
}

pub record Options : Type 0 where
  pub check_only : Bool
  pub skip_runtime_init : Bool

-- What the steps of `app_init` behind the event queue need: the answer of the fetcher, and the system's
-- resources.
pub record Supplies : Type 0 where
  pub file : File
  pub copied : Bool
  pub events_memory : Bool
  pub response : Option OtaResponse
  pub resources : Resources

after_bootstrap : Supplies → App → Status → Status × App
after_bootstrap s app failed = (failed, app)
after_bootstrap s app ok =
    if app.activation_pending
    then (ok, app)
    else if app.skip_runtime_init
    then (ok, app)
    else init_runtime_modules s.resources app

bootstrap : Supplies → App → Status × App
unfolding after_bootstrap
bootstrap s app =
    let b = bootstrap_ota app.config s.response in
    after_bootstrap s (record app { config = b.config; activation_pending = b.activation_pending })
      b.status

-- From the event queue on.
init_session : Options → Supplies → AppConfig → EventQueue → Status × App
unfolding bootstrap
init_session o s config events =
    let app = record zero_app {
      config = config;
      events = events;
      check_only = o.check_only;
      skip_runtime_init = o.skip_runtime_init;
      initialized = true;
    } in
    if o.check_only then (ok, app) else bootstrap s app

-- From the loaded configuration on.
init_events : Options → Supplies → Loaded → Status × App
unfolding init_session
init_events o s loaded = elim loaded.error [
  | some message ↦ (failed, record zero_app { config = loaded.config })
  | none ↦ elim (EventQueue.init 64 s.events_memory) [
    | none ↦ (failed, record zero_app { config = fill_default_ids loaded.config })
    | some events ↦ init_session o s (fill_default_ids loaded.config) events
  ]
]

-- `app_init`; the options are kept by what they set.
unfoldable pub init : Options → Supplies → Status × App
unfolding init_events
init o s = init_events o s (load_file s.file zero_config s.copied)

-- `app_destroy` of an app that is initialised ends with the zeroed runtime; before that it stops the
-- client, the microphone and the playback. The state that these leave is what `memset` clears.
unfoldable pub destroy : App → App
destroy app = if app.initialized then zero_app else app
