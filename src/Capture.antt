-- ===== src/Capture.antt =====
-- src/audio_capture.c and audio_capture.h: the microphone thread, and the measuring of silence. ALSA is
-- an argument: what each `snd_pcm_readi` returns.
pub mod Device
pub mod Level
pub mod Silence
use xiaozhi.Base.{
  ℕ, ◌+◌, ◌*◌, ◌/◌, Bool, true, false, not, ◌&&◌, List, [], ◌∷◌, Option, none, some, ◌==◌, leb, ltb,
  if◌then◌else◌, length,
}
use xiaozhi.Base.Int.{ℤ, pos, negsuc, is_positive, is_negative, lt_int, to_int16, magnitude}
use xiaozhi.Base.Strings.{Bytes, codes, is_empty, truncate}
use xiaozhi.Event.{Event, EventType}

pub record CaptureConfig : Type 0 where
  pub device : Bytes
  pub sample_rate : ℤ
  pub channels : ℤ
  pub period_frames : ℕ
  pub silence_timeout_ms : ℤ
  pub silence_threshold : ℤ

pub record Capture : Type 0 where
  pub config : CaptureConfig
  pub running : Bool
  pub uploading : Bool
  pub silence_accumulator_ms : ℕ

-- `(int16_t)(sample < 0 ? -sample : sample)`
unfoldable pub abs_sample : ℤ → ℤ
abs_sample sample = to_int16 (magnitude sample)

-- The loop, from the peak so far.
unfoldable pub peak_from : ℤ → List ℤ → ℤ
peak_from peak [] = peak
peak_from peak (s ∷ pcm) = peak_from (if lt_int peak (abs_sample s) then abs_sample s else peak) pcm

unfoldable pub max_abs_sample : List ℤ → ℤ
max_abs_sample pcm = peak_from (pos 0) pcm

-- `int` values that are not negative here: `audio_capture_start` sees to it.
unfoldable pub natural : ℤ → ℕ
natural (pos n) = n
natural (negsuc n) = 0

unfoldable pub chunk_ms : Capture → ℕ → ℕ
chunk_ms cap frames = (frames * 1000) / natural cap.config.sample_rate

-- The end of a round of the thread's loop: `uploading` as the round read it at its start, and the
-- samples that were read. Beside the state stands whether `push_silence_timeout` is called. The sum
-- stays below the timeout and a chunk, so that it does not reach the bound of `int`.
unfoldable pub measure : Capture → Bool → List ℤ → ℕ → Bool × Capture
measure cap uploading pcm frames =
    if uploading && is_positive cap.config.silence_timeout_ms
    then (let sum = cap.silence_accumulator_ms + chunk_ms cap frames in
        if lt_int cap.config.silence_threshold (max_abs_sample pcm)
        then (false, record cap { silence_accumulator_ms = 0 })
        else if leb (natural cap.config.silence_timeout_ms) sum
        then (true, record cap { silence_accumulator_ms = 0 })
        else (false, record cap { silence_accumulator_ms = sum }))
    else (false, record cap { silence_accumulator_ms = 0 })

-- The event of `push_silence_timeout`.
unfoldable pub silence_timeout : Event
silence_timeout = record {
  type = EventType.capture_silence_timeout;
  code = pos 0;
  data_len = 0;
  text = [];
}

-- What a round does: it leaves the loop, or it reads, and `none` is a read that fails.
pub data Round : Type 0 where
  left : Round
  failed_read : Round
  heard : Bool → Capture → Round

unfoldable pub capture_round : Capture → Option (List ℤ × ℕ) → Round
capture_round cap read = if not cap.running then left else (elim read [
  | none ↦ failed_read
  | some (pcm, frames) ↦
      let (timeout, cap') = measure cap cap.uploading pcm frames in heard timeout cap'
])

-- The corrections of `audio_capture_start` to the configuration that it is given.
unfoldable pub correct : CaptureConfig → CaptureConfig
correct c = record {
  device = if is_empty c.device then truncate 64 (codes "default") else c.device;
  sample_rate = if is_positive c.sample_rate then c.sample_rate else pos 16000;
  channels = if is_positive c.channels then c.channels else pos 1;
  period_frames = if c.period_frames == 0 then 960 else c.period_frames;
  silence_timeout_ms = if is_negative c.silence_timeout_ms then pos 1200 else c.silence_timeout_ms;
  silence_threshold = if is_negative c.silence_threshold then pos 500 else c.silence_threshold;
}

-- `audio_capture_start`; `thread_made` is whether `pthread_create` succeeds.
unfoldable pub start : CaptureConfig → Bool → Option Capture
start c thread_made =
    if not thread_made
    then none
    else some (record {
      config = correct c;
      running = true;
      uploading = false;
      silence_accumulator_ms = 0;
    })

unfoldable pub set_uploading : Capture → Bool → Capture
set_uploading cap enabled = record cap {
  uploading = enabled;
  silence_accumulator_ms = if enabled then cap.silence_accumulator_ms else 0;
}

-- What `audio_capture_stop` leaves: `memset`.
unfoldable pub zero_capture : Capture
zero_capture = record {
  config = record {
    device = [];
    sample_rate = pos 0;
    channels = pos 0;
    period_frames = 0;
    silence_timeout_ms = pos 0;
    silence_threshold = pos 0;
  };
  running = false;
  uploading = false;
  silence_accumulator_ms = 0;
}

unfoldable pub stop : Capture → Capture
stop cap = zero_capture
