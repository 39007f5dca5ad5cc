-- ===== src/Tests/Systems.antt =====
-- The threads of the whole program.
use xiaozhi.App.System.{
  Heard, Hand, idle, reading, serve_client, listen, listened, after_read, end_client,
}
use xiaozhi.Client.Calls.{quiet}
use xiaozhi.App.Consistent.{Consistent}
use xiaozhi.App.Loop.{begin_run, dispatch}
use xiaozhi.App.State.{App}
use xiaozhi.App.System.{
  System, Decode, Move, client, client_ends, microphone, hear, move, Reach, here, later,
}
use xiaozhi.App.System.Agreement.{started-Safe-Consistent}
use xiaozhi.App.System.Memory.{Safe}
use xiaozhi.Base.{
  ap, not, if◌then◌else◌, ℕ, ◌≡◌, ◌≢◌, ◌⊎◌, ◌++◌, map, length, refl, true, false, [], ◌∷◌, none,
  some, arith,
}
use xiaozhi.Base.Int.{pos}
use xiaozhi.App.Setup.{init, zero_app}
use xiaozhi.App.System.Microphone.{Hearing, heard_sent}
use xiaozhi.App.Talk.{CanSend, texts, stop_text}
use xiaozhi.App.Talk.Overtake.{stop_overtakes_audio}
use xiaozhi.AudioBuffer
use xiaozhi.AudioBuffer.Refine
use xiaozhi.Event.{EventType}
use xiaozhi.AudioBuffer.{fresh}
use xiaozhi.AudioBuffer.Invariant
use xiaozhi.Base.Strings.{Bytes, codes}
use xiaozhi.Capture.{zero_capture}
use xiaozhi.Client.Calls.{zero_client}
use xiaozhi.Client.Callback.{established, text, binary}
use xiaozhi.Client.Callback.Order.{all_well, frames, block_frame, serve}
use xiaozhi.Dump.{header}
use xiaozhi.Opus.{zero_encoder, encode_frame}
use xiaozhi.Session.{State}
use xiaozhi.Tests.Queues.{no_event, no_event-IsValid}
use xiaozhi.Tests.Apps.{good_world, options, good_supplies, uploading_app, event_of}

abbrev no_sound : Decode
no_sound = λ packet room. none

abbrev started : System
started = record {
  app = begin_run good_world (init options good_supplies).1;
  device = none;
  hand = idle;
}

-- The client connects.
abbrev connects : Move ℕ
connects = client all_well established no_sound

up : (init options good_supplies).1.runtime_modules_initialized ≡ true
unfolding init xiaozhi.Config.Load.load_file xiaozhi.Config.Load.load_from_string
    xiaozhi.Config.Load.read_lines xiaozhi.Config.Text.tokens xiaozhi.Config.Load.c_string
    xiaozhi.Config.Load.read_line xiaozhi.Config.Load.read_trimmed xiaozhi.Config.Text.trim
    xiaozhi.Config.Text.strip_space xiaozhi.Config.Text.skip_space xiaozhi.Config.Text.is_space
    xiaozhi.Config.Text.cut xiaozhi.Config.Load.validate xiaozhi.Config.Assign.assign_value
    xiaozhi.Base.Strings.str_eq xiaozhi.Config.Assign.assign_ota xiaozhi.Config.Assign.assign_board
    xiaozhi.App.Setup.bootstrap_ota xiaozhi.App.Setup.fill_default_ids
    xiaozhi.App.Setup.init_runtime_modules xiaozhi.App.Setup.take_answer xiaozhi.App.Setup.zero_app
    xiaozhi.AudioBuffer.init xiaozhi.AudioBuffer.place_blocks xiaozhi.Capture.correct
    xiaozhi.Capture.start xiaozhi.Capture.zero_capture xiaozhi.Client.Calls.init
    xiaozhi.Config.Assign.assign_audio xiaozhi.Config.Assign.assign_device
    xiaozhi.Config.Assign.assign_runtime xiaozhi.Config.Assign.assign_server
    xiaozhi.Config.Load.after_lines xiaozhi.Config.Load.read_header xiaozhi.Config.Load.read_pair
    xiaozhi.Config.Text.atoi xiaozhi.Config.Types.defaults xiaozhi.EventQueue.init
    xiaozhi.Opus.decoder_init xiaozhi.Opus.encoder_init xiaozhi.Opus.samples_of
    xiaozhi.Opus.zero_decoder xiaozhi.Opus.zero_encoder xiaozhi.Playback.correct
    xiaozhi.Playback.init xiaozhi.Session.init
up = refl

abbrev heard : Heard
heard = record { read = some (pos 9 ∷ [], 960); encoded = none; first = 0; second = 0 }

abbrev connected : System
connected = record started { app = serve_client started.app all_well established no_sound }

listening : connected.app.capture.running ≡ true
unfolding init xiaozhi.Config.Load.load_file xiaozhi.Config.Load.load_from_string
    xiaozhi.Config.Load.read_lines xiaozhi.Config.Text.tokens xiaozhi.Config.Load.c_string
    xiaozhi.Config.Load.read_line xiaozhi.Config.Load.read_trimmed xiaozhi.Config.Text.trim
    xiaozhi.Config.Text.strip_space xiaozhi.Config.Text.skip_space xiaozhi.Config.Text.is_space
    xiaozhi.Config.Text.cut xiaozhi.Config.Load.validate xiaozhi.Config.Assign.assign_value
    xiaozhi.Base.Strings.str_eq xiaozhi.Config.Assign.assign_ota xiaozhi.Config.Assign.assign_board
    xiaozhi.App.Setup.bootstrap_ota xiaozhi.App.Setup.fill_default_ids
    xiaozhi.App.Setup.init_runtime_modules xiaozhi.App.Setup.take_answer xiaozhi.App.Setup.zero_app
    xiaozhi.AudioBuffer.init xiaozhi.AudioBuffer.place_blocks xiaozhi.Capture.correct
    xiaozhi.Capture.start xiaozhi.Capture.zero_capture xiaozhi.Client.Calls.init
    xiaozhi.Config.Assign.assign_audio xiaozhi.Config.Assign.assign_device
    xiaozhi.Config.Assign.assign_runtime xiaozhi.Config.Assign.assign_server
    xiaozhi.Config.Load.after_lines xiaozhi.Config.Load.read_header xiaozhi.Config.Load.read_pair
    xiaozhi.Config.Text.atoi xiaozhi.Config.Types.defaults xiaozhi.EventQueue.init
    xiaozhi.Opus.decoder_init xiaozhi.Opus.encoder_init xiaozhi.Opus.samples_of
    xiaozhi.Opus.zero_decoder xiaozhi.Opus.zero_encoder xiaozhi.Playback.correct
    xiaozhi.Playback.init xiaozhi.Session.init xiaozhi.Client.Callback.callback serve_client
    xiaozhi.App.System.call_back begin_run xiaozhi.App.State.reset_to_idle
    xiaozhi.App.State.set_state xiaozhi.App.State.close_opus_dump_file xiaozhi.App.State.upload_off
    xiaozhi.Capture.set_uploading xiaozhi.App.Callbacks.client_callback xiaozhi.App.State.push_event
    xiaozhi.App.Actions.connect xiaozhi.App.Actions.check xiaozhi.App.Actions.start_client
    xiaozhi.App.Actions.started xiaozhi.Client.Calls.start xiaozhi.Client.Calls.signal_writable
listening = refl

abbrev begun : System
begun = record connected { hand = reading connected.app.capture.uploading }

begins : move {Item = ℕ} (microphone heard) connected ≡ some begun
unfolding move listened listen
begins =
    ap
      (λ b.
        listened connected
          (if not b then none else some (reading connected.app.capture.uploading, connected.app)))
      listening

move-connected : move connects started ≡ some connected
unfolding move
move-connected = refl

abbrev ended : System
ended = record begun { app = end_client begun.app quiet no_sound }

move-ended : move {Item = ℕ} (client_ends quiet no_sound) begun ≡ some ended
unfolding move
move-ended = refl

-- The client connects, the microphone's thread begins a round, and the client gives up its context.
started-Reach : Reach ℕ started ended
started-Reach =
    later (later (later here connects tt move-connected) (microphone heard) tt begins)
      (client_ends quiet no_sound) tt move-ended

started-Safe-Consistent_example : Safe ended.app × Consistent ended.app
started-Safe-Consistent_example =
    started-Safe-Consistent options good_supplies good_world up started-Reach

-- It hears a sample.
abbrev next_step : Hand × App
next_step =
    (after_read ended.app connected.app.capture.uploading heard.read heard.encoded, ended.app)

-- A runtime that uploads, with a ring for two blocks of eight bytes.
abbrev hearing_app : App
hearing_app = record uploading_app {
  capture = record zero_capture { running = true; uploading = true };
  encoder = record zero_encoder { encoder = true; samples_per_channel = pos 960 };
  events = no_event;
  client = record zero_client { pending_binary = fresh 2 8 };
  playback = record zero_app.playback { queue = fresh 2 8 };
}

hearing : Hearing hearing_app 960 (some (codes "op")) (codes "op")
unfolding encode_frame
hearing = record {
  running = refl;
  uploading = refl;
  mutex = refl;
  encoded = refl;
  some_byte = omega arith;
  not_long = omega arith;
  fits = omega arith;
  room = omega arith;
}

ring-IsValid : AudioBuffer.Invariant.IsValid (fresh 2 8)
unfolding AudioBuffer.init
ring-IsValid = (AudioBuffer.Invariant.init-IsValid 2 8 (omega arith) refl).0

hearing-Safe : Safe hearing_app
unfolding zero_app
hearing-Safe = record {
  events_valid = no_event-IsValid;
  client_safe = record {
    texts_bounded = record {
      valid = record { slots = refl; count_in = omega arith };
      small = omega arith;
    };
    blocks_valid = ring-IsValid;
    text_fits = omega arith;
    binary_fits = omega arith;
  };
  sound_valid = ring-IsValid;
  id_fits = omega arith;
}

hearing-Consistent : Consistent hearing_app
unfolding zero_app
hearing-Consistent = record {
  microphone = refl;
  client = refl;
  upload = λ e. (refl, (λ z. cc), (λ z. cc));
}

heard_sent_example :
    let heard = hear hearing_app (some (pos 9 ∷ [], 960)) (some (codes "op")) 2 2 in
    (frames heard.client ≡ frames hearing_app.client ++ binary (codes "op") ∷ [])
    × ((bytes : Bytes) × (hearing_app.dump.file ≡ some bytes)
        × (heard.dump.file ≡ some (bytes ++ (header 2 ++ codes "op"))))
heard_sent_example = heard_sent hearing_app (pos 9 ∷ []) hearing-Safe hearing-Consistent hearing

-- A runtime that uploads, with two bytes of audio that wait.
abbrev speaking_app : App
speaking_app = record uploading_app {
  client = record zero_client {
    pending_binary = (AudioBuffer.push (fresh 2 8) (codes "op") (pos 0)).1;
  };
}

speaking-CanSend : CanSend good_world speaking_app
unfolding zero_app
speaking-CanSend = record {
  session = λ e. cc;
  fits = omega arith;
  queue = record { slots = refl; count_in = omega arith };
  small = omega arith;
  memory = refl;
  copied = refl;
}

one_block : length (frames speaking_app.client) ≡ 1
unfolding AudioBuffer.push AudioBuffer.store AudioBuffer.init
one_block = refl

stop_overtakes_audio_example :
    (serve 2 (dispatch good_world speaking_app (event_of EventType.manual_stop)).client).0
    ≡ map text (texts speaking_app)
      ++ text (stop_text (codes "s1"))
        ∷ map block_frame (AudioBuffer.Refine.contents speaking_app.client.pending_binary)
stop_overtakes_audio_example =
    stop_overtakes_audio good_world speaking_app (event_of EventType.manual_stop) 2 speaking-CanSend
      (AudioBuffer.Invariant.push-IsValid (codes "op") (pos 0) ring-IsValid) refl refl
      (omega (arith, one_block))
