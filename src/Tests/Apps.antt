-- ===== src/Tests/Apps.antt =====
-- The runtime.
use xiaozhi.Client.Calls.{closes, quiet, zero_client}
use xiaozhi.App.Consistent.{Consistent}
use xiaozhi.App.Decoder.{Decodes, stereo_stays}
use xiaozhi.App.Loop.{Tick, line, dispatch}
use xiaozhi.App.Messages.{update_decoder_from_hello}
use xiaozhi.App.Recover.{dispatch_all, failed_restart}
use xiaozhi.App.Setup.{Options, Supplies, zero_app}
use xiaozhi.App.State.{App, World}
use xiaozhi.App.Talk.{CanSend, Uploads, dispatch-Uploads}
use xiaozhi.App.Talk.Ending.{Ended, dispatch-Ended}
use xiaozhi.Base.{ℕ, ◌≡◌, refl, true, false, [], ◌∷◌, none, some, arith}
use xiaozhi.Base.Int.{pos}
use xiaozhi.Base.Strings.{codes}
use xiaozhi.Capture.{zero_capture}
use xiaozhi.Event.{Event, EventType}
use xiaozhi.EventQueue.{timed_out}
use xiaozhi.Protocol.{Json, IncomingEvent, Kind}
use xiaozhi.Session.{State}

-- A JSON library that finds no object in any text.
abbrev pub no_json : Json ℕ
no_json = record {
  parse = λ text. none;
  get = λ item name. none;
  string = λ item. none;
  number = λ item. none;
  create_object = 0;
  add_string = λ item name s. item;
  add_number = λ item name n. item;
  add_item = λ item name child. item;
  print = λ item. some (codes "{}");
}

abbrev pub good_world : World ℕ
good_world = record {
  thread_made = true;
  closing = quiet;
  memory = true;
  copied = true;
  objects_created = true;
  decoder_created = true;
  in_build = true;
  in_tmp = true;
  json = no_json;
}

abbrev no_threads : World ℕ
no_threads = record good_world { thread_made = false }

abbrev pub enter : Tick ℕ
enter = record {
  sleeps = record { pushed = []; wake = timed_out } ∷ [];
  world = good_world;
  stdin = line (codes "\n");
}

abbrev pub event_of : EventType → Event
event_of t = record { type = t; code = pos 0; data_len = 0; text = [] }

abbrev pub ready_app : App
ready_app = record zero_app {
  session = record { state = State.ready };
  session_id = codes "s1";
  dump_mutex_initialized = true;
}

abbrev pub uploading_app : App
uploading_app = record ready_app {
  session = record { state = State.uploading_audio };
  upload_enabled = true;
  capture = record zero_capture { uploading = true };
  dump = record { file = some (codes "ab"); index = 1; saved = [] };
}

pub uploading-Consistent : Consistent uploading_app
unfolding zero_app zero_capture
uploading-Consistent = record {
  microphone = refl;
  client = refl;
  upload = λ e. (refl, (λ z. cc), (λ z. cc));
}

abbrev hello_of : ℕ → IncomingEvent
hello_of channels = record {
  type = Kind.hello;
  session_id = codes "s1";
  text = [];
  emotion = [];
  output_sample_rate = pos 24000;
  output_channels = pos channels;
}

-- A start with a configuration that validates, and an answer of the OTA server.
abbrev pub good_supplies : Supplies
good_supplies = record {
  file = record {
    opened = true;
    seek_end = true;
    size = some 66;
    seek_set = true;
    allocated = true;
    content = codes "[ota]\nurl=http://o\napp_version=1\n[board]\ntype=desktop\nname=pc\nr=1\n";
  };
  copied = true;
  events_memory = true;
  response = some (record {
    activation_required = false;
    code = [];
    message = [];
    url = codes "ws://x";
    token = [];
  });
  resources = record {
    client_memory = true;
    encoder_created = true;
    decoder_created = true;
    playback_memory = true;
    playback_thread = true;
    capture_thread = true;
  };
}

abbrev pub options : Options
options = record { check_only = false; skip_runtime_init = false }

-- A client that is connected, whose connection is closed by the program.
abbrev connected_app : App
connected_app = record uploading_app {
  client = record zero_client { running = true; connected = true; context = true; wsi = true };
  client_started = true;
}

connected-Consistent : Consistent connected_app
unfolding zero_app zero_capture
connected-Consistent = record {
  microphone = refl;
  client = refl;
  upload = λ e. (refl, (λ z. cc), (λ z. cc));
}

abbrev closing_world : World ℕ
closing_world = record good_world { closing = closes }

failed_restart_example :
    ((dispatch no_threads connected_app (event_of EventType.error)).client.running ≡ false)
    × ((dispatch no_threads connected_app (event_of EventType.error)).events ≡ connected_app.events)
    × (dispatch_all no_threads
          (dispatch no_threads connected_app (event_of EventType.error))
          (event_of EventType.manual_start ∷ [])
        ≡ dispatch no_threads connected_app (event_of EventType.error))
failed_restart_example =
    failed_restart no_threads connected_app (event_of EventType.error)
      (event_of EventType.manual_start ∷ []) connected-Consistent refl refl refl (refl, tt)

ready-CanSend : CanSend good_world ready_app
unfolding zero_app
ready-CanSend = record {
  session = λ e. cc;
  fits = omega arith;
  queue = record { slots = refl; count_in = omega arith };
  small = omega arith;
  memory = refl;
  copied = refl;
}

uploading-CanSend : CanSend good_world uploading_app
unfolding zero_app
uploading-CanSend = record {
  session = λ e. cc;
  fits = omega arith;
  queue = record { slots = refl; count_in = omega arith };
  small = omega arith;
  memory = refl;
  copied = refl;
}

dispatch-Uploads_example :
    Uploads ready_app (dispatch good_world ready_app (event_of EventType.manual_start))
dispatch-Uploads_example =
    dispatch-Uploads good_world ready_app (event_of EventType.manual_start) ready-CanSend refl refl
      refl

dispatch-Ended_example :
    Ended
      (codes "ab")
      uploading_app
      (dispatch good_world uploading_app (event_of EventType.manual_stop))
dispatch-Ended_example =
    dispatch-Ended good_world uploading_app (event_of EventType.manual_stop) (codes "ab")
      uploading-CanSend refl refl refl refl

stereo_stays_example :
    Decodes 23999 1 (update_decoder_from_hello good_world ready_app (hello_of 2))
    × Decodes 23999 1 (
        update_decoder_from_hello good_world
          (update_decoder_from_hello good_world ready_app (hello_of 2))
          (hello_of 1))
stereo_stays_example =
    stereo_stays good_world ready_app (hello_of 2) (hello_of 1) 23999 1 refl (omega arith)
      (record { rate_asked = refl; channels_asked = refl })
      (record { rate_asked = refl; channels_asked = refl })
