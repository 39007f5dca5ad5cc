-- ===== src/Dump/Wav/Fields.antt =====
-- What a reader of WAV files finds in the output of the tool.
use xiaozhi.Base.{
  ℕ, ◌+◌, ◌*◌, ◌^◌, ◌≡◌, ◌<◌, refl, ap, Bool, true, List, [], ◌∷◌, ◌++◌, Option, some, length,
  length-append, drop, arith,
}
use xiaozhi.Base.Memory.{copy_at, slice}
use xiaozhi.Base.Strings.{Bytes, codes}
use xiaozhi.Dump.{Dump, open_dump, close_dump, close_file}
use xiaozhi.Dump.Decode.{finished, Host}
use xiaozhi.Dump.Laws.{AllSized, record_all, record-decode}
use xiaozhi.Dump.Wav.{le16, le32, wav_header, write_wav_header, pcm_of, write_pcm, finish, main}

-- The number that some bytes stand for, the lowest first.
abbrev pub number : Bytes → ℕ
number [] = 0
number (b ∷ bytes) = b + 256 * number bytes

-- The number in a field of a file.
abbrev pub field : Bytes → ℕ → ℕ → ℕ
field file offset size = number (slice file offset size)

-- A header for samples of so many bytes, rate, channels and bits, in front of anything.
pub record Describes (file : Bytes) (size sample_rate channels bits : ℕ) : Type 0 where
  pub riff : slice file 0 4 ≡ codes "RIFF"
  pub riff_size : field file 4 4 ≡ 36 + size
  pub wave : slice file 8 8 ≡ codes "WAVEfmt "
  pub pcm_format : field file 20 2 ≡ 1
  pub channel_count : field file 22 2 ≡ channels
  pub samples_per_second : field file 24 4 ≡ sample_rate
  pub bytes_per_second : 8 * field file 28 4 ≡ sample_rate * channels * bits
  pub bytes_per_frame : 8 * field file 32 2 ≡ channels * bits
  pub bits_per_sample : field file 34 2 ≡ bits
  pub data_name : slice file 36 4 ≡ codes "data"
  pub data_size : field file 40 4 ≡ size

header-Describes :
    (size : ℕ) (rest : Bytes)
    → 36 + size < 2 ^ 32
    → Describes (wav_header size 16000 1 16 ++ rest) size 16000 1 16
unfolding wav_header le16 le32
header-Describes size rest h = record {
  riff = refl;
  riff_size = omega arith;
  wave = refl;
  pcm_format = refl;
  channel_count = refl;
  samples_per_second = refl;
  bytes_per_second = refl;
  bytes_per_frame = refl;
  bits_per_sample = refl;
  data_name = refl;
  data_size = omega arith;
}

-- The samples of all packets.
abbrev pub all_pcm : (ℕ → Bytes → Option Bytes) → ℕ → List Bytes → Bytes
all_pcm decode i [] = []
all_pcm decode i (p ∷ ps) = pcm_of (decode i p) ++ all_pcm decode (i + 1) ps

write_pcm-all :
    (decode : ℕ → Bytes → Option Bytes) (short i : ℕ) (ps : List Bytes)
    → length (all_pcm decode i ps) < 2 ^ 32
    → write_pcm decode finished short i ps ≡ (all_pcm decode i ps, length (all_pcm decode i ps))
unfolding write_pcm
write_pcm-all decode short i [] h = refl
write_pcm-all decode short i (p ∷ ps) h =
    let pcm = pcm_of (decode i p) in
    let total = length-append pcm (all_pcm decode (i + 1) ps) in
    let rest = write_pcm-all decode short (i + 1) ps (omega (arith, total)) in
    rw rest (ap (λ n. (pcm ++ all_pcm decode (i + 1) ps, n)) (omega (arith, total, h)))

-- The header at the end is written over the placeholder.
patched :
    (pcm : Bytes) (size : ℕ)
    → write_wav_header (write_wav_header [] 0 ++ pcm) size ≡ wav_header size 16000 1 16 ++ pcm
unfolding write_wav_header wav_header le16 le32 copy_at
patched pcm size = refl

after_header : (size : ℕ) (pcm : Bytes) → drop 44 (wav_header size 16000 1 16 ++ pcm) ≡ pcm
unfolding wav_header le16 le32
after_header size pcm = refl

-- A dump that an upload recorded becomes a WAV file: from packets of 1 to 65535 bytes that are each
-- written whole, the program saves a file from which the tool makes one with exit status 0, and a
-- reader of that file finds a header for 16-bit samples of one channel at 16000 Hz with the true
-- number of bytes of samples, and behind it the samples of all packets, in order. The tool opens its
-- files, gets its memory, writes its samples, and they are fewer than 2^32 - 36 bytes; more rounds
-- than packets are fuel enough.
pub recorded_plays :
    (dump : Dump) (tmp : Bool) (host : Host) (decode : ℕ → Bytes → Option Bytes) (short fuel : ℕ)
    (ps : List Bytes)
    → ((n : ℕ) → host.memory n ≡ true)
    → ((p : Bytes) → host.samples_written p ≡ true)
    → AllSized ps
    → length ps < fuel
    → 36 + length (all_pcm decode 0 ps) < 2 ^ 32
    → (bytes : Bytes) × (wav : Bytes) × ((close_dump
          (record_all (open_dump dump true tmp).1 ps)
          true).saved
        ≡ bytes ∷ (close_file dump).saved)
      × (main fuel host decode short (some bytes) true true
          ≡ some (record { status = 0; output = some wav }))
      × Describes wav (length (all_pcm decode 0 ps)) 16000 1 16
      × (drop 44 wav ≡ all_pcm decode 0 ps)
unfolding main finish
recorded_plays dump tmp host decode short fuel ps m w sized f h =
    let (bytes, saved, read) = record-decode dump tmp host fuel ps m w sized f in
    let pcm = all_pcm decode 0 ps in
    let total = write_pcm-all decode short 0 ps (omega arith) in
    (
      bytes,
      wav_header (length pcm) 16000 1 16 ++ pcm,
      saved,
      rw (read, total, patched pcm (length pcm)) refl,
      header-Describes (length pcm) pcm h,
      after_header (length pcm) pcm,
    )
