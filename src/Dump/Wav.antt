-- ===== src/Dump/Wav.antt =====
-- tools/decode_opus_dump.c: `write_wav_header` and `main`. What libopus makes of a packet, whether the
-- files open and whether the writes succeed are arguments.
pub mod Fields
use xiaozhi.Base.{
  ℕ, zero, suc, ◌+◌, ◌*◌, ◌/◌, ◌%◌, ◌^◌, ◌≡◌, ◌<◌, refl, Bool, not, List, [], ◌∷◌, ◌++◌, Option,
  none, some, ◌==◌, if◌then◌else◌, length, take, arith,
}
use xiaozhi.Base.Memory.{copy_at}
use xiaozhi.Base.Strings.{Bytes, codes}
use xiaozhi.Dump.Decode.{End, unwritten, no_memory, Decoded, Host, read_packets}

-- The bytes of a `uint16_t` and of a `uint32_t`.
unfoldable pub le16 : ℕ → Bytes
le16 n = n % 256 ∷ (n / 256) % 256 ∷ []

unfoldable pub le32 : ℕ → Bytes
le32 n = n % 256 ∷ (n / 256) % 256 ∷ (n / 65536) % 256 ∷ (n / 16777216) % 256 ∷ []

-- The 44 bytes of the header.
unfoldable pub wav_header : ℕ → ℕ → ℕ → ℕ → Bytes
unfolding le16 le32
wav_header data_size sample_rate channels bits_per_sample =
    codes "RIFF"
    ++ (le32 ((36 + data_size) % 2 ^ 32)
        ++ (codes "WAVE"
            ++ (codes "fmt "
                ++ (le32 16
                    ++ (le16 1
                        ++ (le16 channels
                            ++ (le32 sample_rate
                                ++ (le32 (((sample_rate * channels * bits_per_sample) % 2 ^ 32) / 8)
                                    ++ (le16 (((channels * bits_per_sample) / 8) % 2 ^ 16)
                                        ++ (le16 bits_per_sample
                                            ++ (codes "data" ++ le32 data_size)))))))))))

-- `fseek` to the start, and `fwrite` of the header over what is there.
unfoldable pub write_wav_header : Bytes → ℕ → Bytes
write_wav_header file data_size = copy_at file 0 (wav_header data_size 16000 1 16)

abbrev pub pcm_of : Option Bytes → Bytes
pcm_of none = []
pcm_of (some pcm) = pcm

-- What the loop writes behind the header, and `data_size`: `decode` is what libopus makes of the i-th
-- packet, and `short` the number of bytes that a write that fails has taken.
unfoldable pub write_pcm : (ℕ → Bytes → Option Bytes) → End → ℕ → ℕ → List Bytes → Bytes × ℕ
write_pcm decode stop short i [] = ([], 0)
write_pcm decode unwritten short i (p ∷ []) = (take short (pcm_of (decode i p)), 0)
write_pcm decode stop short i (p ∷ packets) =
    let pcm = pcm_of (decode i p) in
    let (rest, size) = write_pcm decode stop short (i + 1) packets in
    (pcm ++ rest, (length pcm + size) % 2 ^ 32)

-- The exit status, and the output file if it was opened.
pub record Exit : Type 0 where
  pub status : ℕ
  pub output : Option Bytes

-- The placeholder of the header, the samples, and the header at the end.
unfoldable pub finish : (ℕ → Bytes → Option Bytes) → ℕ → Decoded → Exit
unfolding write_pcm
finish decode short d =
    let (pcm, data_size) = write_pcm decode d.stop short 0 d.packets in
    let file = write_wav_header [] 0 ++ pcm in
    elim d.stop [
      | no_memory ↦ record { status = 1; output = some file }
      | _ ↦ record { status = 0; output = some (write_wav_header file data_size) }
    ]

-- `main`, with fuel for its loop; `input` is the dump, if it opens.
unfoldable pub main :
    ℕ → Host → (ℕ → Bytes → Option Bytes) → ℕ → Option Bytes → Bool → Bool → Option Exit
main fuel host decode short none output_opens decoder_created =
    some (record { status = 1; output = none })
main fuel host decode short (some file) output_opens decoder_created =
    if not output_opens
    then some (record { status = 1; output = none })
    else if not decoder_created
    then some (record { status = 1; output = some (write_wav_header [] 0) })
    else (elim (read_packets fuel host 0 file) [
      | none ↦ none
      | some d ↦ some (finish decode short d)
    ])
