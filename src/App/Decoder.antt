-- ===== src/App/Decoder.antt =====
-- The decoder after the hello of the server.
use xiaozhi.App.Messages.{with_decoder, reinit_decoder, update_decoder_from_hello}
use xiaozhi.App.State.{App, World}
use xiaozhi.Base.{ℕ, suc, ◌≡◌, ◌<◌, refl, true, false, ◌&&◌, arith}
use xiaozhi.Base.Int.{ℤ, pos, int_eq, int_eq_refl}
use xiaozhi.Opus.{decoder_init, decoder_destroy}
use xiaozhi.Protocol.{IncomingEvent}

-- A hello that asks for this rate and this number of channels.
pub record Asks (rate channels : ℕ) (event : IncomingEvent) : Type 0 where
  pub rate_asked : event.output_sample_rate ≡ pos (suc rate)
  pub channels_asked : event.output_channels ≡ pos (suc channels)

pub record Decodes (r c : ℕ) (app : App) : Type 0 where
  pub ready : app.decoder.decoder ≡ true
  pub rate : app.decoder_sample_rate ≡ pos (suc r)
  pub channels : app.decoder.channels ≡ pos (suc c)

several :
    (r c : ℕ) (rate : ℤ)
    → 0 < c
    → (int_eq (pos (suc r)) rate && int_eq (pos (suc c)) (pos 1)) ≡ false
several r c rate h = ground arith

reinit :
    {Item : Type 0} (w : World Item) (app : App) (r c : ℕ)
    → w.decoder_created ≡ true
    → (int_eq (pos (suc r)) app.decoder_sample_rate && int_eq (pos (suc c)) (pos 1)) ≡ false
    → Decodes r c (reinit_decoder w app (pos (suc r)) (pos (suc c)))
unfolding reinit_decoder with_decoder decoder_init decoder_destroy
reinit w app r c m e = record { ready = ground arith; rate = ground arith; channels = ground arith }

kept :
    {Item : Type 0} (w : World Item) (app : App) (r c : ℕ)
    → Decodes r c app
    → reinit_decoder w app (pos (suc r)) (pos 1) ≡ app
unfolding reinit_decoder
kept w app r c d = rw (d.rate, int_eq_refl (pos (suc r))) refl

asked :
    {Item : Type 0} (w : World Item) (app : App) (event : IncomingEvent) (r c : ℕ)
    → Asks r c event
    → update_decoder_from_hello w app event ≡ reinit_decoder w app (pos (suc r)) (pos (suc c))
unfolding update_decoder_from_hello
asked w app event r c a = rw (a.rate_asked, a.channels_asked) (ground arith)

-- A hello that asks for several channels gets a decoder of them; a later hello that asks for one
-- channel at the same rate changes nothing, so that the decoder still gives several.
pub stereo_stays :
    {Item : Type 0} (w : World Item) (app : App) (first second : IncomingEvent) (r c : ℕ)
    → w.decoder_created ≡ true
    → 0 < c
    → Asks r c first
    → Asks r 0 second
    → Decodes r c (update_decoder_from_hello w app first)
      × Decodes r c (update_decoder_from_hello w (update_decoder_from_hello w app first) second)
stereo_stays w app first second r c m h a b =
    let d = reinit w app r c m (several r c app.decoder_sample_rate h) in
    rw (asked w app first r c a) (
      d,
      rw
          (
            asked w (reinit_decoder w app (pos (suc r)) (pos (suc c))) second r 0 b,
            kept w (reinit_decoder w app (pos (suc r)) (pos (suc c))) r c d,
          )
          d,
    )
