-- ===== src/Playback.antt =====
-- src/audio_playback.c, audio_playback.h and audio_playback_internal.h: the queue of decoded sound, and
-- the thread that plays it. ALSA is an argument: whether the device opens, what each write and each
-- recovery returns.
pub mod Device
pub mod Frames
pub mod Threshold
pub mod Turns
use xiaozhi.AudioBuffer
use xiaozhi.AudioBuffer.{AudioBuffer, Block}
use xiaozhi.Base.{
  ℕ, zero, suc, ◌+◌, ◌-◌, ◌*◌, ◌/◌, ◌%◌, Bool, true, false, not, ◌&&◌, ◌||◌, List, [], ◌∷◌, ◌++◌,
  Option, none, some, ◌==◌, leb, ltb, if◌then◌else◌, length, take, drop, Status, ok, failed,
  size_mod,
}
use xiaozhi.Base.Int.{ℤ, pos, negsuc, is_positive, int_eq}
use xiaozhi.Base.Strings.{Bytes, codes, is_empty, truncate}
use xiaozhi.Event.{Event, EventType}

-- The event of `push_playback_finished`.
unfoldable pub playback_finished : Event
playback_finished = record {
  type = EventType.playback_finished;
  code = pos 0;
  data_len = 0;
  text = [];
}

-- `audio_playback_compute_start_threshold`; `SIZE_MAX` is 2 ^ 64 - 1.
unfoldable pub compute_start_threshold : ℕ → ℕ → ℕ → ℕ
compute_start_threshold buffer_frames period_frames periods_to_buffer =
    if buffer_frames == 0
    then 0
    else if period_frames == 0 || periods_to_buffer == 0
    then buffer_frames
    else if ltb ((size_mod - 1) / periods_to_buffer) period_frames
    then buffer_frames
    else (let requested = (period_frames * periods_to_buffer) % size_mod in
        if ltb requested buffer_frames then requested else buffer_frames)

-- What `write_frames` returns: a number of frames, or an error, with whether `recover` then returns 0.
pub data Answer : Type 0 where
  wrote : ℕ → Answer
  error : Bool → Answer

-- How `audio_playback_write_all_frames` ends, and the samples that the device took.
pub record Written : Type 0 where
  pub result : Status
  pub taken : List ℤ

abbrev pub takes : List ℤ → Option Written → Option Written
takes samples none = none
takes samples (some w) = some (record w { taken = samples ++ w.taken })

-- The loop, over the answers of the device; `none` means that it is still running after these.
unfoldable pub write_loop : List ℤ → ℕ → ℕ → ℕ → List Answer → Option Written
write_loop pcm frames channels written [] =
    if ltb written frames then none else some (record { result = ok; taken = [] })
write_loop pcm frames channels written (wrote zero ∷ answers) =
    some (record { result = if ltb written frames then failed else ok; taken = [] })
write_loop pcm frames channels written (wrote (suc n) ∷ answers) =
    let rest = write_loop pcm frames channels (written + suc n) answers in
    if ltb written frames
    then takes (take (suc n * channels) (drop (written * channels) pcm)) rest
    else some (record { result = ok; taken = [] })
write_loop pcm frames channels written (error false ∷ answers) =
    some (record { result = if ltb written frames then failed else ok; taken = [] })
write_loop pcm frames channels written (error true ∷ answers) =
    let rest = write_loop pcm frames channels written answers in
    if ltb written frames then rest else some (record { result = ok; taken = [] })

unfoldable pub write_all_frames : List ℤ → ℕ → ℕ → List Answer → Option Written
write_all_frames pcm frames channels answers =
    if frames == 0 || channels == 0
    then some (record { result = failed; taken = [] })
    else write_loop pcm frames channels 0 answers

-- `audio_playback_alsa_recover`; what `snd_pcm_recover` returns is `recovered`. The numbers are
-- EAGAIN and EINTR.
unfoldable pub alsa_recover : ℤ → Bool → Status
alsa_recover err recovered =
    if int_eq err (negsuc 10) || int_eq err (negsuc 3) then ok else if recovered then ok else failed

pub record PlaybackConfig : Type 0 where
  pub device : Bytes
  pub channels : ℤ
  pub default_sample_rate : ℤ
  pub queue_capacity : ℕ
  pub max_frame_bytes : ℕ

pub record Playback : Type 0 where
  pub config : PlaybackConfig
  pub queue : AudioBuffer
  pub running : Bool
  pub stop_requested : Bool

unfoldable pub correct : PlaybackConfig → PlaybackConfig
correct c = record c {
  channels = if is_positive c.channels then c.channels else pos 1;
  queue_capacity = if c.queue_capacity == 0 then 16 else c.queue_capacity;
  max_frame_bytes = if c.max_frame_bytes == 0 then 4096 else c.max_frame_bytes;
  device = if is_empty c.device then truncate 64 (codes "default") else c.device;
}

-- `audio_playback_init`: whether the memory of the queue and the thread can be had.
unfoldable pub init : PlaybackConfig → Bool → Bool → Option Playback
init c allocated thread_made =
    elim (AudioBuffer.init (correct c).queue_capacity (correct c).max_frame_bytes allocated) [
      | none ↦ none
      | some queue ↦
          if not thread_made
          then none
          else some
              (record { config = correct c; queue = queue; running = true; stop_requested = false })
    ]

unfoldable pub channels : Playback → ℕ
channels pb = elim pb.config.channels [ pos n ↦ n | negsuc n ↦ 0 ]

-- `audio_playback_enqueue`; `pcm` are the bytes from the pointer on.
unfoldable pub enqueue : Playback → Bytes → ℕ → ℤ → Status × Playback
enqueue pb pcm frames sample_rate =
    if frames == 0
    then (failed, pb)
    else (let bytes = (frames * 2 * channels pb) % size_mod in
        let (rc, queue) = AudioBuffer.push pb.queue (take bytes pcm) sample_rate in
        (rc, record pb { queue = queue }))

unfoldable pub request_stop : Playback → Playback
request_stop pb = record pb { stop_requested = true }

-- The thread: `device` is `current_rate` if the device is open.
pub record Player : Type 0 where
  pub pb : Playback
  pub device : Option ℤ

-- Whether the thread sleeps on its condition variable.
unfoldable pub waits : Player → Bool
waits p = p.pb.running && (p.pb.queue.count == 0 && not p.pb.stop_requested)

-- What one round of the loop does, beside the state that it leaves: it ends the thread, or finds
-- nothing, or plays the bytes of a block, or drops a block as the device does not open; `finished` is
-- whether `push_playback_finished` is called.
pub data Did : Type 0 where
  ended stopped found_nothing : Did
  played unplayed : Bytes → Did

pub record Turn : Type 0 where
  pub player : Player
  pub did : Did
  pub finished : Bool

-- Whether the device has to be opened for a block.
unfoldable pub needs_open : Option ℤ → ℤ → Bool
needs_open none rate = true
needs_open (some current) rate = not (int_eq current rate)

-- The end of a round, with a block: whether the device opens, and whether
-- `audio_playback_write_all_frames` returns 0.
unfoldable pub play : Playback → Option ℤ → Block → Bool → Bool → Turn
play pb device block opens written =
    if needs_open device block.sample_rate && not opens
    then record {
      player = record { pb = pb; device = none };
      did = unplayed (AudioBuffer.read pb.queue block);
      finished = false;
    }
    else record {
      player = record { pb = pb; device = some block.sample_rate };
      did = played (AudioBuffer.read pb.queue block);
      finished = written && pb.queue.count == 0;
    }

after_pop : Player → Option Block × AudioBuffer → Bool → Bool → Turn
after_pop p (none, queue) opens written = record {
  player = record p { pb = record p.pb { queue = queue } };
  did = found_nothing;
  finished = false;
}
after_pop p (some block, queue) opens written =
    play (record p.pb { queue = queue }) p.device block opens written

-- A round of `audio_playback_thread` behind its wait.
unfoldable pub turn : Player → Bool → Bool → Turn
unfolding after_pop
turn p opens written =
    if not p.pb.running
    then record { player = record p { device = none }; did = ended; finished = false }
    else if p.pb.stop_requested
    then record {
      player = record { pb = record p.pb { stop_requested = false }; device = none };
      did = stopped;
      finished = true;
    }
    else after_pop p (AudioBuffer.pop p.pb.queue) opens written

-- `audio_playback_destroy`, up to its `memset`.
unfoldable pub destroy : Playback → Playback
destroy pb = record pb { running = false; queue = AudioBuffer.destroy pb.queue }
