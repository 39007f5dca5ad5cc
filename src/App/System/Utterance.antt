-- ===== src/App/System/Utterance.antt =====
-- What an utterance records, from the key that starts it over the rounds of the microphone's thread to
-- the key that ends it.
use xiaozhi.App.Actions.{check, report, open_upload, upload_on, stop_listen}
use xiaozhi.App.Loop.{dispatch, dispatch_type}
use xiaozhi.App.Send.{send_built, send_listen_stop, with_dump, open_opus_dump_file}
use xiaozhi.App.State.{App, World, set_state, push_event, upload_off, close_opus_dump_file}
use xiaozhi.App.System.{measured, hear}
use xiaozhi.App.System.Microphone.{sent, hear-whole}
use xiaozhi.App.Talk.{
  CanSend, start_text, sends, in_state, start-CanSend, start-dispatch, built-client,
}
use xiaozhi.App.Talk.Ending.{stop_event}
use xiaozhi.Base.{
  ℕ, ◌+◌, ◌^◌, ◌<◌, ◌≡◌, refl, ap, ◌∙◌, Bool, true, false, List, [], ◌∷◌, Option, some, Status, ok,
  failed, arith, length, map, drop, if◌then◌else◌,
}
use xiaozhi.Base.Int.{ℤ}
use xiaozhi.Base.Strings.{Bytes, codes, is_empty}
use xiaozhi.Capture.{Capture, measure, set_uploading}
use xiaozhi.Dump.{Dump, open_dump, close_dump, close_file, write_packet}
use xiaozhi.Dump.Decode.{Host}
use xiaozhi.Dump.Laws.{AllSized, record_all}
use xiaozhi.Dump.Wav.{main}
use xiaozhi.Dump.Wav.Fields.{Describes, all_pcm, recorded_plays}
use xiaozhi.Event.{Event, EventType}
use xiaozhi.Opus.{Encoder, encode_frame}
use xiaozhi.Protocol.{build_listen_stop_manual}
use xiaozhi.Session.{State}

-- A chunk of samples, and the packet that libopus makes of it.
pub record Sound : Type 0 where
  pub pcm : List ℤ
  pub frames : ℕ
  pub packet : Bytes

abbrev pub packets : List Sound → List Bytes
packets sounds = map (λ (s : Sound). s.packet) sounds

-- Every chunk is of the encoder's size.
abbrev pub AllEncoded : Encoder → List Sound → Type 0
AllEncoded enc [] = Unit
AllEncoded enc (s ∷ sounds) =
    (encode_frame enc s.frames (some s.packet) ≡ some s.packet) × AllEncoded enc sounds

-- A round of the microphone's thread for each chunk, with every packet written whole.
unfoldable pub hear_all : App → List Sound → App
hear_all app [] = app
hear_all app (s ∷ sounds) =
    hear_all (hear app (some (s.pcm, s.frames)) (some s.packet) 2 (length s.packet)) sounds

-- A runtime that records with this encoder.
record Recording (enc : Encoder) (app : App) : Type 0 where
  state : app.session.state ≡ State.uploading_audio
  uploading : app.upload_enabled ≡ true
  running : app.capture.running ≡ true
  mutex : app.dump_mutex_initialized ≡ true
  encoder : app.encoder ≡ enc

opened :
    {Item : Type 0} (w : World Item) (app : App) (x : Status × App)
    → w.in_build ≡ true
    → app.capture.running ≡ true
    → app.dump_mutex_initialized ≡ true
    → x.0 ≡ ok
    → (client : xiaozhi.Client.State.Client) × (x.1 ≡ record app { client = client })
    → Recording app.encoder (open_upload w x)
      × ((open_upload w x).dump ≡ (open_dump app.dump true w.in_tmp).1)
unfolding open_upload upload_on open_opus_dump_file open_dump with_dump set_state set_uploading
opened w app (failed, a) b r m e (c, f) = cc
opened w app (ok, a) b r m e (c, f) =
    rw (f, b)
      (record { state = refl; uploading = refl; running = r; mutex = m; encoder = refl }, refl)

start-Recording :
    {Item : Type 0} (w : World Item) (app : App) (e : Event)
    → CanSend w app
    → w.in_build ≡ true
    → app.capture.running ≡ true
    → app.dump_mutex_initialized ≡ true
    → app.session.state ≡ State.ready
    → e.type ≡ EventType.manual_start
    → Recording app.encoder (dispatch w app e)
      × ((dispatch w app e).dump ≡ (open_dump app.dump true w.in_tmp).1)
unfolding in_state
start-Recording w app e c b r m s t =
    let a = in_state app State.uploading_audio in
    let p = start_text app.session_id in
    rw (start-dispatch w app e c s t) (
      opened w a (send_built w a (ok, p)) b r m (sends w a p (start-CanSend w app c)).0
        (built-client w a p))

measure-running :
    (c : Capture) (uploading : Bool) (pcm : List ℤ) (n : ℕ)
    → (measure c uploading pcm n).1.running ≡ c.running
unfolding measure
measure-running c uploading pcm n = ground arith

measured-Recording :
    {enc : Encoder} (app : App) (m : Bool × Capture)
    → m.1.running ≡ true
    → Recording enc app
    → Recording enc (measured app m) × ((measured app m).dump ≡ app.dump)
unfolding measured
measured-Recording app (true, c) r k = (
  record {
    state = k.state;
    uploading = k.uploading;
    running = r;
    mutex = k.mutex;
    encoder = k.encoder;
  },
  refl,
)
measured-Recording app (false, c) r k = (
  record {
    state = k.state;
    uploading = k.uploading;
    running = r;
    mutex = k.mutex;
    encoder = k.encoder;
  },
  refl,
)

-- A round records its packet.
hear-Recording :
    {enc : Encoder} (app : App) (s : Sound)
    → Recording enc app
    → encode_frame enc s.frames (some s.packet) ≡ some s.packet
    → 0 < length s.packet
    → let heard = hear app (some (s.pcm, s.frames)) (some s.packet) 2 (length s.packet) in
      Recording enc heard
      × (heard.dump ≡ (write_packet app.dump s.packet true 2 (length s.packet)).1)
hear-Recording {enc} app s k e h =
    let m = measure app.capture app.capture.uploading s.pcm s.frames in
    let encoded = ap (λ enc. encode_frame enc s.frames (some s.packet)) k.encoder ∙ e in
    let kept =
      measured-Recording {enc = enc} (sent app s.packet) m
        (measure-running app.capture app.capture.uploading s.pcm s.frames ∙ k.running)
        (record {
          state = k.state;
          uploading = k.uploading;
          running = k.running;
          mutex = k.mutex;
          encoder = k.encoder;
        }) in
    rw (hear-whole app s.pcm s.frames (some s.packet) s.packet k.running k.uploading encoded h)
      (kept.0, kept.1 ∙ ap (λ b. (write_packet app.dump s.packet b 2 (length s.packet)).1) k.mutex)

hear_all-Recording :
    {enc : Encoder} (sounds : List Sound) (app : App)
    → Recording enc app
    → AllEncoded enc sounds
    → AllSized (packets sounds)
    → Recording enc (hear_all app sounds)
      × ((hear_all app sounds).dump ≡ record_all app.dump (packets sounds))
unfolding hear_all
hear_all-Recording [] app k e h = (k, refl)
hear_all-Recording (s ∷ sounds) app k e h =
    let one = hear-Recording app s k e.0 h.0.0 in
    let next = hear app (some (s.pcm, s.frames)) (some s.packet) 2 (length s.packet) in
    let rest = hear_all-Recording sounds next one.0 e.1 h.1 in
    (rest.0, rest.1 ∙ ap (λ d. record_all d (packets sounds)) one.1)

check-dump : (message : Bytes) (x : Status × App) → (check message x).dump ≡ x.1.dump
unfolding check report push_event
check-dump message (ok, app) = refl
check-dump message (failed, app) = refl

built-dump :
    {Item : Type 0} (w : World Item) (app : App) (x : Status × Bytes)
    → (send_built w app x).1.dump ≡ app.dump
unfolding send_built
built-dump w app (ok, p) = refl
built-dump w app (failed, p) = refl

if-dump :
    (b : Bool) (x y : Status × App) (d : Dump)
    → x.1.dump ≡ d
    → y.1.dump ≡ d
    → (if b then x else y).1.dump ≡ d
if-dump true x y d e f = e
if-dump false x y d e f = f

stop_sent-dump :
    {Item : Type 0} (w : World Item) (app : App) → (send_listen_stop w app).1.dump ≡ app.dump
unfolding send_listen_stop
stop_sent-dump w app =
    if-dump (is_empty app.session_id) (failed, app)
      (send_built w app (build_listen_stop_manual app.session_id 256)) app.dump refl
      (built-dump w app (build_listen_stop_manual app.session_id 256))

-- The end of an utterance closes the dump, whether or not the message can be sent.
stop-dump :
    {Item : Type 0} (w : World Item) (app : App) (e : Event)
    → app.session.state ≡ State.uploading_audio
    → e.type ≡ EventType.manual_stop
    → (dispatch w app e).dump ≡ close_dump app.dump app.dump_mutex_initialized
unfolding dispatch dispatch_type stop_listen close_opus_dump_file upload_off in_state
stop-dump w app e s t =
    let a = close_opus_dump_file (upload_off (in_state app State.waiting_tts)) in
    rw (t, stop_event w app s)
      (check-dump (codes "failed to queue listen stop") (send_listen_stop w a) ∙ stop_sent-dump w a)

-- What is said can be heard: in READY, with a session that the server named, the key that starts an
-- utterance, the rounds of the microphone's thread and the key that ends it save a file, from which
-- tools/decode_opus_dump.c makes a WAV file with exit status 0; a reader of that file finds a header
-- for 16-bit samples of one channel at 16000 Hz with the true number of bytes of samples, and behind
-- it the samples of all packets, in order. The microphone runs, the start finds memory and opens its
-- dump file, libopus makes a packet of 1 to 65535 bytes of each chunk, and each is written whole; the
-- tool opens its files, gets its memory, writes its samples, and they are fewer than 2^32 - 36 bytes;
-- more rounds than packets are fuel enough. Whether "listen stop" can be sent does not matter. No other
-- thread takes a step within a round.
pub utterance_plays :
    {Item : Type 0} (w w' : World Item) (app : App) (start stop : Event) (sounds : List Sound)
    (host : Host) (decode : ℕ → Bytes → Option Bytes) (short fuel : ℕ)
    → CanSend w app
    → w.in_build ≡ true
    → app.capture.running ≡ true
    → app.dump_mutex_initialized ≡ true
    → app.session.state ≡ State.ready
    → start.type ≡ EventType.manual_start
    → stop.type ≡ EventType.manual_stop
    → AllEncoded app.encoder sounds
    → AllSized (packets sounds)
    → ((n : ℕ) → host.memory n ≡ true)
    → ((p : Bytes) → host.samples_written p ≡ true)
    → length (packets sounds) < fuel
    → 36 + length (all_pcm decode 0 (packets sounds)) < 2 ^ 32
    → (bytes : Bytes) × (wav : Bytes) × ((dispatch w'
          (hear_all (dispatch w app start) sounds)
          stop).dump.saved
        ≡ bytes ∷ (close_file app.dump).saved)
      × (main fuel host decode short (some bytes) true true
          ≡ some (record { status = 0; output = some wav }))
      × Describes wav (length (all_pcm decode 0 (packets sounds))) 16000 1 16
      × (drop 44 wav ≡ all_pcm decode 0 (packets sounds))
utterance_plays w w' app start stop sounds host decode short fuel c b r m s t t' e h k l f n =
    let first = start-Recording w app start c b r m s t in
    let heard = hear_all-Recording sounds (dispatch w app start) first.0 e h in
    let dump =
      stop-dump w' (hear_all (dispatch w app start) sounds) stop heard.0.state t'
      ∙ ap (λ i. close_dump (hear_all (dispatch w app start) sounds).dump i) heard.0.mutex
      ∙ ap (λ d. close_dump d true) (heard.1 ∙ ap (λ d. record_all d (packets sounds)) first.1) in
    let (bytes, wav, saved, plays, described, samples) =
      recorded_plays app.dump w.in_tmp host decode short fuel (packets sounds) k l h f n in
    (bytes, wav, ap (λ (d : Dump). d.saved) dump ∙ saved, plays, described, samples)
