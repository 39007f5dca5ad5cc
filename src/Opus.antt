-- ===== src/Opus.antt =====
-- src/opus_codec.c and opus_codec.h: the wrappers round libopus, whose results are arguments. Pointers
-- are not NULL.
use xiaozhi.Base.{
  ℕ, ◌*◌, ◌/◌, Bool, true, false, not, ◌||◌, Option, none, ◌==◌, if◌then◌else◌, length, Status, ok,
  failed,
}
use xiaozhi.Base.Int.{ℤ, pos, negsuc, is_positive, int_eq}
use xiaozhi.Base.Strings.{Bytes}

-- `encoder` and `decoder` are whether the pointers are set.
pub record Encoder : Type 0 where
  pub encoder : Bool
  pub sample_rate : ℤ
  pub channels : ℤ
  pub frame_ms : ℤ
  pub samples_per_channel : ℤ

pub record Decoder : Type 0 where
  pub decoder : Bool
  pub sample_rate : ℤ
  pub channels : ℤ

unfoldable pub zero_encoder : Encoder
zero_encoder = record {
  encoder = false;
  sample_rate = pos 0;
  channels = pos 0;
  frame_ms = pos 0;
  samples_per_channel = pos 0;
}

unfoldable pub zero_decoder : Decoder
zero_decoder = record { decoder = false; sample_rate = pos 0; channels = pos 0 }

-- `(sample_rate * frame_ms) / 1000` of numbers above 0.
unfoldable pub samples_of : ℤ → ℤ → ℤ
samples_of (pos rate) (pos ms) = pos ((rate * ms) / 1000)
samples_of _ _ = pos 0

-- `created` is whether `opus_encoder_create` succeeds.
unfoldable pub encoder_init : Encoder → ℤ → ℤ → ℤ → Bool → Status × Encoder
encoder_init enc sample_rate channels frame_ms created =
    if not (is_positive sample_rate) || (not (is_positive channels) || not (is_positive frame_ms))
    then (failed, enc)
    else if not created
    then (failed, zero_encoder)
    else (
      ok,
      record {
        encoder = true;
        sample_rate = sample_rate;
        channels = channels;
        frame_ms = frame_ms;
        samples_per_channel = samples_of sample_rate frame_ms;
      },
    )

-- The length and the bytes of the packet, or `none` for a result that is an error; `encode` is what
-- `opus_encode` gives.
unfoldable pub encode_frame : Encoder → ℕ → Option Bytes → Option Bytes
encode_frame enc samples_per_channel encode =
    if not enc.encoder
    then none
    else if not (int_eq (pos samples_per_channel) enc.samples_per_channel)
    then none
    else encode

unfoldable pub encoder_destroy : Encoder → Encoder
encoder_destroy enc = zero_encoder

unfoldable pub decoder_init : Decoder → ℤ → ℤ → Bool → Status × Decoder
decoder_init dec sample_rate channels created =
    if not (is_positive sample_rate) || not (is_positive channels)
    then (failed, dec)
    else if not created
    then (failed, zero_decoder)
    else (ok, record { decoder = true; sample_rate = sample_rate; channels = channels })

-- The room for samples of one channel.
unfoldable pub frame_capacity : ℕ → ℤ → ℕ
frame_capacity pcm_capacity (pos channels) = pcm_capacity / channels
frame_capacity pcm_capacity (negsuc n) = 0

-- The samples of each channel, as the bytes of the buffer and their number; `decode` is what
-- `opus_decode` gives when it has room for a number of samples.
unfoldable pub decode_frame :
    Decoder → Bytes → ℕ → (Bytes → ℕ → Option (Bytes × ℕ)) → Option (Bytes × ℕ)
decode_frame dec packet pcm_capacity decode =
    if not dec.decoder || (length packet == 0 || not (is_positive dec.channels))
    then none
    else if frame_capacity pcm_capacity dec.channels == 0
    then none
    else decode packet (frame_capacity pcm_capacity dec.channels)

unfoldable pub decoder_destroy : Decoder → Decoder
decoder_destroy dec = zero_decoder
