-- ===== src/App/Setup/Memory.antt =====
-- What `app_init` leaves is well formed, if it gets as far as the modules of the runtime.
use xiaozhi.App.Loop.{begin_run}
use xiaozhi.App.Setup.{
  Options, Supplies, Resources, zero_app, capture_config, playback_config, client_config,
  fill_default_ids, bootstrap_ota, init_capture, init_playback, init_decoder, init_encoder,
  init_runtime_modules, after_bootstrap, bootstrap, init_session, init_events, init, zero_config,
}
use xiaozhi.App.State.{App, World, set_state, reset_to_idle}
use xiaozhi.App.System.Memory.{Safe, if-Safe}
use xiaozhi.App.System.Memory.Actions.{connect-Safe, reset-Safe}
use xiaozhi.AudioBuffer
use xiaozhi.AudioBuffer.{AudioBuffer}
use xiaozhi.AudioBuffer.Invariant as Blocks
use xiaozhi.Base.{
  ◌≡◌, ◌<◌, ◌*◌, ℕ, refl, subst, Bool, true, false, not, [], Option, none, some, Status, ok, failed,
  if◌then◌else◌, inl, inr, Bool-cases, Option-cases, arith, length, size_mod,
}
use xiaozhi.Base.Int.{pos}
use xiaozhi.Base.Strings.{Bytes, is_empty}
use xiaozhi.Capture
use xiaozhi.Client.Calls
use xiaozhi.Client.Callback.Memory.{Buffers, ClientSafe}
use xiaozhi.Client.State.{Client, ClientConfig}
use xiaozhi.Client.TextQueue
use xiaozhi.Config.Load.{load_file}
use xiaozhi.Config.Types.{AppConfig}
use xiaozhi.EventQueue
use xiaozhi.EventQueue.{EventQueue}
use xiaozhi.EventQueue.Invariant as Events
use xiaozhi.Opus.{Encoder, Decoder, decoder_init}
use xiaozhi.Playback
use xiaozhi.Playback.{Playback, PlaybackConfig}
use xiaozhi.Session.{State}

-- A ring of blocks that could be allocated.
fresh-IsValid :
    (capacity size : ℕ) (allocated : Bool) {b : AudioBuffer}
    → capacity * size < size_mod
    → AudioBuffer.init capacity size allocated ≡ some b
    → Blocks.IsValid b
unfolding AudioBuffer.init
fresh-IsValid capacity size true h e = (Blocks.init-IsValid capacity size h e).0
fresh-IsValid capacity size false h e = absurd (ground arith)

abbrev OkClient : Option Client → Type 0
OkClient none = Unit
OkClient (some c) = ClientSafe c

empty-Buffers : {b : AudioBuffer} → Blocks.IsValid b → Buffers TextQueue.empty b [] []
empty-Buffers v = record {
  texts_bounded = record {
    valid = record { slots = refl; count_in = omega arith };
    small = omega arith;
  };
  blocks_valid = v;
  text_fits = omega arith;
  binary_fits = omega arith;
}

pub init-ClientSafe :
    (c : ClientConfig) (m : Bool) {client : Client}
    → Calls.init c m ≡ some client
    → ClientSafe client
unfolding Calls.init
init-ClientSafe c m {client} e = elim (Bool-cases (is_empty c.url)) [
  | inl none_given ↦ absurd (cc (rw none_given at e))
  | inr given ↦ elim (Option-cases (AudioBuffer.init 32 4096 m)) [
    | inl f ↦ absurd (cc (rw (given, f) at e))
    | inr (b, f) ↦
        subst OkClient (rw (given, f) at e)
          (empty-Buffers (fresh-IsValid 32 4096 m (omega arith) f))
  ]
]

abbrev OkPlayback : Option Playback → Type 0
OkPlayback none = Unit
OkPlayback (some p) = Blocks.IsValid p.queue

init-IsValid :
    (c : PlaybackConfig) (m thread : Bool) {p : Playback}
    → (Playback.correct c).queue_capacity * (Playback.correct c).max_frame_bytes < size_mod
    → Playback.init c m thread ≡ some p
    → Blocks.IsValid p.queue
unfolding Playback.init
init-IsValid c m thread h e =
    let k = Playback.correct c in
    elim (Option-cases (AudioBuffer.init k.queue_capacity k.max_frame_bytes m)) [
      | inl f ↦ absurd (cc (rw (f, Playback.init) at e))
      | inr (b, f) ↦ elim (Bool-cases thread) [
        | inl made ↦
            subst OkPlayback (rw (f, made, Playback.init) at e)
              (fresh-IsValid k.queue_capacity k.max_frame_bytes m h f)
        | inr not_made ↦ absurd (cc (rw (f, not_made, Playback.init) at e))
      ]
    ]

playback_fits :
    (c : AppConfig)
    → (Playback.correct (playback_config c)).queue_capacity
        * (Playback.correct (playback_config c)).max_frame_bytes
      < size_mod
unfolding playback_config Playback.correct
playback_fits c = omega arith

-- Well formed, if the modules of the runtime have been initialised.
abbrev pub SafeIfUp : App → Type 0
SafeIfUp app = app.runtime_modules_initialized ≡ true → Safe app

module _ (r : Resources) where
  capture-SafeIfUp : (app : App) → Safe app → SafeIfUp (init_capture r app).1
  unfolding init_capture
  capture-SafeIfUp app v =
      elim (Option-cases (Capture.start (capture_config app.config) r.capture_thread)) [
        | inl e ↦ rw (init_capture, e) (λ _. v)
        | inr (c, e) ↦ rw (init_capture, e) (λ _. v)
      ]

  -- Before the playback is initialised: all but the ring of sound, and the flag is off.
  playback-SafeIfUp :
      (app : App)
      → Events.IsValid app.events
      → ClientSafe app.client
      → length app.session_id < 64
      → app.runtime_modules_initialized ≡ false
      → SafeIfUp (init_playback r app).1
  unfolding init_playback
  playback-SafeIfUp app q c i off =
      elim (Option-cases
        (Playback.init (playback_config app.config) r.playback_memory r.playback_thread)) [
          | inl e ↦ rw (init_playback, e) (λ up. absurd (cc))
          | inr (p, e) ↦
              rw (init_playback, e)
                (capture-SafeIfUp (record app { playback = p })
                  (record {
                    events_valid = q;
                    client_safe = c;
                    sound_valid =
                        init-IsValid (playback_config app.config) r.playback_memory
                          r.playback_thread (playback_fits app.config) e;
                    id_fits = i;
                  }))
        ]

  decoder-SafeIfUp :
      (app : App) (x : Status × Decoder)
      → Events.IsValid app.events
      → ClientSafe app.client
      → length app.session_id < 64
      → app.runtime_modules_initialized ≡ false
      → SafeIfUp (init_decoder r app x).1
  unfolding init_decoder
  decoder-SafeIfUp app (failed, d) q c i off = λ up. absurd (cc)
  decoder-SafeIfUp app (ok, d) q c i off =
      playback-SafeIfUp (record app { decoder = d; decoder_sample_rate = pos 24000 }) q c i off

  encoder-SafeIfUp :
      (app : App) (x : Status × Encoder)
      → Events.IsValid app.events
      → ClientSafe app.client
      → length app.session_id < 64
      → app.runtime_modules_initialized ≡ false
      → SafeIfUp (init_encoder r app x).1
  unfolding init_encoder
  encoder-SafeIfUp app (failed, k) q c i off = λ up. absurd (cc)
  encoder-SafeIfUp app (ok, k) q c i off =
      decoder-SafeIfUp (record app { encoder = k })
        (decoder_init app.decoder (pos 24000) (pos 1) r.decoder_created) q c i off

  modules-SafeIfUp :
      (app : App)
      → Events.IsValid app.events
      → length app.session_id < 64
      → app.runtime_modules_initialized ≡ false
      → SafeIfUp (init_runtime_modules r app).1
  unfolding init_runtime_modules
  modules-SafeIfUp app q i off =
      elim (Option-cases (Calls.init (client_config app.config) r.client_memory)) [
        | inl e ↦ rw (init_runtime_modules, e) (λ up. absurd (cc))
        | inr (c, e) ↦
            rw (init_runtime_modules, e)
              (encoder-SafeIfUp (record app { dump_mutex_initialized = true; client = c }) _ q
                (init-ClientSafe (client_config app.config) r.client_memory e) i off)
      ]

if-SafeIfUp :
    (b : Bool) (x y : Status × App) → SafeIfUp x.1 → SafeIfUp y.1 → SafeIfUp (if b then x else y).1
if-SafeIfUp true x y a c = a
if-SafeIfUp false x y a c = c

bootstrapped-SafeIfUp :
    (s : Supplies) (app : App) (st : Status)
    → Events.IsValid app.events
    → length app.session_id < 64
    → app.runtime_modules_initialized ≡ false
    → SafeIfUp (after_bootstrap s app st).1
unfolding after_bootstrap
bootstrapped-SafeIfUp s app failed q i off = λ up. absurd (cc)
bootstrapped-SafeIfUp s app ok q i off =
    if-SafeIfUp app.activation_pending (ok, app) _ (λ up. absurd (cc))
      (if-SafeIfUp app.skip_runtime_init (ok, app) _ (λ up. absurd (cc))
        (modules-SafeIfUp s.resources app q i off))

session-SafeIfUp :
    (o : Options) (s : Supplies) (c : AppConfig) (q : EventQueue)
    → Events.IsValid q
    → SafeIfUp (init_session o s c q).1
unfolding init_session bootstrap zero_app
session-SafeIfUp o s c q v =
    let app = record zero_app {
      config = c;
      events = q;
      check_only = o.check_only;
      skip_runtime_init = o.skip_runtime_init;
      initialized = true;
    } in
    let b = bootstrap_ota c s.response in
    if-SafeIfUp o.check_only (ok, app) (bootstrap s app) (λ up. absurd (cc))
      (bootstrapped-SafeIfUp s
        (record app { config = b.config; activation_pending = b.activation_pending }) b.status v
        (omega arith) refl)

fresh_events-IsValid :
    (memory : Bool) {q : EventQueue} → EventQueue.init 64 memory ≡ some q → Events.IsValid q
unfolding EventQueue.init
fresh_events-IsValid true e = (Events.init-IsValid 64 (omega arith) e).0
fresh_events-IsValid false e = absurd (ground arith)

events-SafeIfUp :
    (o : Options) (s : Supplies) (error : Option Bytes) (c : AppConfig)
    → SafeIfUp (init_events o s (record { error = error; config = c })).1
unfolding init_events zero_app
events-SafeIfUp o s (some m) c = λ up. absurd (cc)
events-SafeIfUp o s none c = elim (Option-cases (EventQueue.init 64 s.events_memory)) [
  | inl f ↦ rw (init_events, f) (λ up. absurd (cc))
  | inr (q, f) ↦
      rw (init_events, f)
        (session-SafeIfUp o s (fill_default_ids c) q (fresh_events-IsValid s.events_memory f))
]

-- If `app_init` got as far as the modules of the runtime, the shared memory is well formed.
pub init-SafeIfUp : (o : Options) (s : Supplies) → SafeIfUp (init o s).1
unfolding init
init-SafeIfUp o s =
    let loaded = load_file s.file zero_config s.copied in
    events-SafeIfUp o s loaded.error loaded.config

pub begin-Safe : {Item : Type 0} (w : World Item) (app : App) → Safe app → Safe (begin_run w app)
unfolding begin_run set_state
begin-Safe w app v =
    let idle = reset_to_idle app in
    if-Safe (not idle.client_started) _ idle
      (connect-Safe w (set_state idle State.connecting) (reset-Safe app v)) (reset-Safe app v)
