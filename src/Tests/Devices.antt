-- ===== src/Tests/Devices.antt =====
-- The devices and the file that the tool writes.
use xiaozhi.App.Loop.{dispatch}
use xiaozhi.App.State.{App}
use xiaozhi.App.System.Utterance.{Sound, packets, AllEncoded, hear_all, utterance_plays}
use xiaozhi.App.Talk.{CanSend}
use xiaozhi.Capture.{zero_capture}
use xiaozhi.Event.{EventType}
use xiaozhi.Opus.{zero_encoder, encode_frame}
use xiaozhi.Tests.Apps.{ready_app, good_world, event_of}
use xiaozhi.Alsa.{calls_on, nothing_held}
use xiaozhi.App.Setup.{zero_app}
use xiaozhi.AudioBuffer.{fresh}
use xiaozhi.Base.{ℕ, ◌≡◌, refl, true, false, List, [], ◌∷◌, Option, none, some, length, drop, arith}
use xiaozhi.Base.Int.{pos}
use xiaozhi.Base.Strings.{Bytes, codes}
use xiaozhi.Capture.{zero_capture}
use xiaozhi.Capture.Device as Microphone
use xiaozhi.Capture.Device.{thread_calls-balanced}
use xiaozhi.Dump.{close_file}
use xiaozhi.Dump.Decode.{Host}
use xiaozhi.Dump.Wav.{main}
use xiaozhi.Dump.Wav.Fields.{Describes, all_pcm}
use xiaozhi.Playback.{Playback}
use xiaozhi.Playback.Device as Speaker
use xiaozhi.Playback.Device.{Turning, device_after}
use xiaozhi.Playback.Device.Holding.{holds, thread_calls-held}

-- A microphone that does not take the rate.
abbrev no_rate : Microphone.Answers
no_rate = record {
  opened = pos 0;
  allocated = true;
  any_good = true;
  access_good = true;
  format_good = true;
  channels_good = true;
  rate_good = false;
  period = some 480;
  applied = pos 0;
}

thread_calls-balanced_example :
    calls_on nothing_held
      (Microphone.thread_calls zero_capture.config no_rate true (true ∷ false ∷ []))
    ≡ some nothing_held
thread_calls-balanced_example =
    thread_calls-balanced zero_capture.config no_rate true (true ∷ false ∷ [])

abbrev good_answers : Speaker.Answers
good_answers = record {
  opened = pos 0;
  allocated = true;
  any_good = true;
  access_good = true;
  format_good = true;
  channels_good = true;
  rate_good = true;
  applied = pos 0;
  sw = record {
    sizes = some (5760, 1440);
    allocated = true;
    current_good = true;
    avail_good = false;
    threshold_good = true;
    applied = true;
  };
}

-- A block to play, and then a thread that is to end.
abbrev loaded : Playback
loaded = record zero_app.playback { queue = record (fresh 2 8) { count = 1 }; running = true }

abbrev turnings : List Turning
turnings =
    record { pb = loaded; answers = good_answers; writes = 2; written = false }
    ∷ record {
      pb = record loaded { running = false };
      answers = good_answers;
      writes = 0;
      written = true;
    }
    ∷ []

thread_calls-held_example :
    calls_on (holds none) (Speaker.thread_calls none turnings)
    ≡ some (holds (device_after none turnings))
thread_calls-held_example = thread_calls-held none turnings

abbrev good_host : Host
good_host = record { memory = λ n. true; samples_written = λ p. true }

abbrev echoes : ℕ → Bytes → Option Bytes
echoes i packet = some packet

-- A runtime that listens, and what it hears.
abbrev listening_app : App
listening_app = record ready_app {
  capture = record zero_capture { running = true };
  encoder = record zero_encoder { encoder = true; samples_per_channel = pos 960 };
}

listening-CanSend : CanSend good_world listening_app
unfolding zero_app
listening-CanSend = record {
  session = λ e. cc;
  fits = omega arith;
  queue = record { slots = refl; count_in = omega arith };
  small = omega arith;
  memory = refl;
  copied = refl;
}

abbrev sounds : List Sound
sounds =
    record { pcm = pos 9 ∷ []; frames = 960; packet = codes "ab" }
    ∷ record { pcm = pos 0 ∷ []; frames = 960; packet = codes "c" }
    ∷ []

encodes : AllEncoded listening_app.encoder sounds
unfolding encode_frame
encodes = (refl, (refl, tt))

utterance_plays_example :
    (bytes : Bytes) × (wav : Bytes) × ((dispatch good_world
        (hear_all (dispatch good_world listening_app (event_of EventType.manual_start)) sounds)
        (event_of EventType.manual_stop)).dump.saved
      ≡ bytes ∷ (close_file listening_app.dump).saved)
    × (main 3 good_host echoes 0 (some bytes) true true
        ≡ some (record { status = 0; output = some wav }))
    × Describes wav (length (all_pcm echoes 0 (packets sounds))) 16000 1 16
    × (drop 44 wav ≡ all_pcm echoes 0 (packets sounds))
utterance_plays_example =
    utterance_plays good_world good_world listening_app (event_of EventType.manual_start)
      (event_of EventType.manual_stop) sounds good_host echoes 0 3 listening-CanSend refl refl refl
      refl refl refl encodes ((omega arith, omega arith), ((omega arith, omega arith), tt))
      (λ n. refl) (λ p. refl) (omega arith) (omega arith)
