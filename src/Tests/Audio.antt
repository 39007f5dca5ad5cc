-- ===== src/Tests/Audio.antt =====
-- The microphone, the playback, the audio ring, the dump of an upload and the OTA answer.
use xiaozhi.AudioBuffer
use xiaozhi.AudioBuffer.Aliasing
use xiaozhi.AudioBuffer.Aliasing.{popped_lasts, popped_overwritten}
use xiaozhi.AudioBuffer.Invariant.{IsValid, Placed}
use xiaozhi.AudioBuffer.Refine.{audio_run_refines, contents}
use xiaozhi.AudioBuffer.{AudioBuffer, Block, block_at, read, pop, push}
use xiaozhi.Base.{
  ℕ, zero, suc, ◌≡◌, ◌<◌, ◌↔◌, refl, true, false, [], ◌∷◌, none, some, arith, take, ok,
}
use xiaozhi.Base.Int.{pos, negsuc, lt_int}
use xiaozhi.Base.Memory.{copy_at}
use xiaozhi.Base.Strings.{codes}
use xiaozhi.Capture.Level.{Loud, max_abs_sample_iff}
use xiaozhi.Capture.Silence.{Chunk, hear_all, hear_all-once}
use xiaozhi.Capture.{
  Capture, abs_sample, peak_from, max_abs_sample, chunk_ms, natural, zero_capture,
}
use xiaozhi.Dump.Decode.{Host}
use xiaozhi.Dump.{Dump}
use xiaozhi.Fifo
use xiaozhi.Fifo.{put, get}
use xiaozhi.Playback.Frames.{write_all_frames_lem}
use xiaozhi.Playback.Turns.{play_all, stop_keeps_queue}
use xiaozhi.Playback.{Player, Written, wrote, error, write_all_frames, request_stop, turn}

-- A ring of one block of two bytes, which is full.
abbrev full_ring : AudioBuffer
full_ring = record {
  blocks = record { data_at = 0; len = 2; sample_rate = pos 16000 } ∷ [];
  storage = codes "ab";
  capacity = 1;
  block_capacity = 2;
  head = 0;
  tail = 0;
  count = 1;
}

full_ring-Placed : (i : ℕ) → i < 1 → Placed full_ring i
full_ring-Placed zero h = record { start = refl; fits = omega arith }
full_ring-Placed (suc n) h = absurd (omega arith)

full_ring-IsValid : IsValid full_ring
full_ring-IsValid = record {
  block_count = refl;
  storage_size = refl;
  small = omega arith;
  head_in = omega arith;
  count_in = omega arith;
  tail_at = refl;
  placed = full_ring-Placed;
}

abbrev popped_ring : AudioBuffer
popped_ring = record full_ring { count = 0 }

abbrev old_block : Block
old_block = record { data_at = 0; len = 2; sample_rate = pos 16000 }

pop_full : pop full_ring ≡ (some old_block, popped_ring)
unfolding pop AudioBuffer.advance
pop_full = refl

abbrev pushed_ring : AudioBuffer
pushed_ring = record full_ring { storage = codes "cd" }

push_popped : push popped_ring (codes "cd") (pos 16000) ≡ (ok, pushed_ring)
unfolding push AudioBuffer.store copy_at
push_popped = refl

audio_run_refines_example :
    AudioBuffer.Refine.run full_ring (get ∷ put (codes "cd", pos 8000) ∷ get ∷ [])
    ≡ Fifo.run 1 (contents full_ring) (get ∷ put (codes "cd", pos 8000) ∷ get ∷ [])
audio_run_refines_example =
    audio_run_refines (get ∷ put (codes "cd", pos 8000) ∷ get ∷ []) full_ring-IsValid (omega arith)

popped_lasts_example : read (Aliasing.push_all popped_ring []) old_block ≡ read full_ring old_block
popped_lasts_example = popped_lasts [] full_ring-IsValid pop_full (omega arith)

popped_overwritten_example : read pushed_ring old_block ≡ take 2 (codes "cd")
popped_overwritten_example =
    popped_overwritten (codes "cd") (pos 16000) full_ring-IsValid refl pop_full push_popped
      (omega arith)

max_abs_sample_iff_example :
    (lt_int (pos 500) (max_abs_sample (negsuc 32767 ∷ pos 700 ∷ [])) ≡ true)
    ↔ Loud 500 (negsuc 32767 ∷ pos 700 ∷ [])
max_abs_sample_iff_example =
    max_abs_sample_iff 500 (negsuc 32767 ∷ pos 700 ∷ []) (omega arith, (omega arith, tt))

abbrev listening : Capture
listening = record zero_capture {
  config = record {
    device = [];
    sample_rate = pos 16000;
    channels = pos 1;
    period_frames = 960;
    silence_timeout_ms = pos 100;
    silence_threshold = pos 500;
  };
  uploading = true;
}

abbrev quiet_chunk : Chunk
quiet_chunk = record { pcm = pos 3 ∷ []; frames = 960 }

hear_all-once_example :
    (hear_all listening (quiet_chunk ∷ []) ≡ (0, record listening { silence_accumulator_ms = 60 }))
    × (hear_all listening (quiet_chunk ∷ quiet_chunk ∷ [])
        ≡ (1, record listening { silence_accumulator_ms = 0 }))
unfolding zero_capture chunk_ms natural max_abs_sample peak_from abs_sample
hear_all-once_example =
    hear_all-once listening 100 (quiet_chunk ∷ []) quiet_chunk refl (omega arith) (refl, (refl, tt))
      (omega arith) (omega arith)

write_all_frames_lem_example :
    (w : Written) × (write_all_frames (pos 1 ∷ pos 2 ∷ []) 2 1 (wrote 1 ∷ error true ∷ wrote 1 ∷ [])
      ≡ some w)
    × (w.result ≡ ok → w.taken ≡ pos 1 ∷ pos 2 ∷ [])
write_all_frames_lem_example =
    write_all_frames_lem (pos 1 ∷ pos 2 ∷ []) 2 1 (wrote 1 ∷ error true ∷ wrote 1 ∷ []) refl
      (omega arith, (omega arith, tt)) (omega arith)

abbrev player : Player
player = record {
  pb = record {
    config = record {
      device = [];
      channels = pos 1;
      default_sample_rate = pos 24000;
      queue_capacity = 1;
      max_frame_bytes = 2;
    };
    queue = full_ring;
    running = true;
    stop_requested = false;
  };
  device = none;
}

stop_keeps_queue_example :
    ((turn (record player { pb = request_stop player.pb }) true true).finished ≡ true)
    × ((play_all (record player { pb = request_stop player.pb }) (true ∷ true ∷ [])).0
        ≡ codes "ab" ∷ [])
stop_keeps_queue_example = stop_keeps_queue player true (true ∷ []) full_ring-IsValid refl refl

abbrev host : Host
host = record { memory = λ n. true; samples_written = λ p. true }

abbrev no_dump : Dump
no_dump = record { file = none; index = 0; saved = [] }
