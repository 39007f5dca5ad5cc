-- ===== src/App/Setup/Start.antt =====
-- From the start of the program on.
use xiaozhi.App.Consistent.Rounds.{Leaves, run-Consistent}
use xiaozhi.App.Loop.{Tick, begin_run, run_loop}
use xiaozhi.App.Setup.{
  Options, Supplies, Resources, zero_app, capture_config, playback_config, client_config,
  fill_default_ids, bootstrap_ota, init_capture, init_playback, init_decoder, init_encoder,
  init_runtime_modules, after_bootstrap, bootstrap, init_session, init_events, init, zero_config,
}
use xiaozhi.App.State.{App, World}
use xiaozhi.Base.{
  ◌≡◌, refl, sym, ◌∙◌, Bool, true, false, List, Option, none, some, Status, ok, failed,
  if◌then◌else◌, inl, inr, Bool-cases, Option-cases, arith,
}
use xiaozhi.Base.Int.{pos}
use xiaozhi.Base.Strings.{Bytes}
use xiaozhi.Capture
use xiaozhi.Client.Calls
use xiaozhi.Client.State.{Client, ClientConfig}
use xiaozhi.Config.Load.{load_file}
use xiaozhi.Config.Types.{AppConfig}
use xiaozhi.EventQueue
use xiaozhi.EventQueue.{EventQueue}
use xiaozhi.Opus.{Encoder, Decoder, decoder_init}
use xiaozhi.Playback

-- The flags of the client.
abbrev Agrees : App → Type 0
Agrees app = app.client.running ≡ app.client_started

module _ (r : Resources) where
  capture-Agrees : (app : App) → Agrees app → Agrees (init_capture r app).1
  unfolding init_capture
  capture-Agrees app a =
      elim (Option-cases (Capture.start (capture_config app.config) r.capture_thread)) [
        | inl e ↦ rw (init_capture, e) a
        | inr (c, e) ↦ rw (init_capture, e) a
      ]

  playback-Agrees : (app : App) → Agrees app → Agrees (init_playback r app).1
  unfolding init_playback
  playback-Agrees app a =
      elim (Option-cases
        (Playback.init (playback_config app.config) r.playback_memory r.playback_thread)) [
          | inl e ↦ rw (init_playback, e) a
          | inr (p, e) ↦ rw (init_playback, e) (capture-Agrees (record app { playback = p }) a)
        ]

  decoder-Agrees : (app : App) (x : Status × Decoder) → Agrees app → Agrees (init_decoder r app x).1
  unfolding init_decoder
  decoder-Agrees app (failed, d) a = a
  decoder-Agrees app (ok, d) a =
      playback-Agrees (record app { decoder = d; decoder_sample_rate = pos 24000 }) a

  encoder-Agrees : (app : App) (x : Status × Encoder) → Agrees app → Agrees (init_encoder r app x).1
  unfolding init_encoder
  encoder-Agrees app (failed, c) a = a
  encoder-Agrees app (ok, c) a =
      decoder-Agrees (record app { encoder = c })
        (decoder_init app.decoder (pos 24000) (pos 1) r.decoder_created) a

init-stopped :
    (c : ClientConfig) (m : Bool) (client : Client)
    → Calls.init c m ≡ some client
    → client.running ≡ false
unfolding Calls.init
init-stopped c m client e = ground arith

modules-Agrees :
    (r : Resources) (app : App)
    → app.client.running ≡ false
    → app.client_started ≡ false
    → Agrees (init_runtime_modules r app).1
unfolding init_runtime_modules
modules-Agrees r app a s =
    elim (Option-cases (Calls.init (client_config app.config) r.client_memory)) [
      | inl e ↦ rw (init_runtime_modules, e, a, s) refl
      | inr (c, e) ↦
          rw (init_runtime_modules, e)
            (encoder-Agrees r (record app { dump_mutex_initialized = true; client = c }) _
              (init-stopped (client_config app.config) r.client_memory c e ∙ sym s))
    ]

bootstrapped-Agrees :
    (s : Supplies) (app : App) (st : Status)
    → app.client.running ≡ false
    → app.client_started ≡ false
    → Agrees (after_bootstrap s app st).1
unfolding after_bootstrap
bootstrapped-Agrees s app failed a b = a ∙ sym b
bootstrapped-Agrees s app ok a b = elim (Bool-cases app.activation_pending) [
  | inl e ↦ simp e (a ∙ sym b)
  | inr e ↦ elim (Bool-cases app.skip_runtime_init) [
    | inl f ↦ simp (e, f) (a ∙ sym b)
    | inr f ↦ simp (e, f) (modules-Agrees s.resources app a b)
  ]
]

if-Agrees :
    (b : Bool) (x y : Status × App) → Agrees x.1 → Agrees y.1 → Agrees (if b then x else y).1
if-Agrees true x y a c = a
if-Agrees false x y a c = c

session-Agrees :
    (o : Options) (s : Supplies) (c : AppConfig) (q : EventQueue) → Agrees (init_session o s c q).1
unfolding init_session bootstrap zero_app
session-Agrees o s c q =
    let app = record zero_app {
      config = c;
      events = q;
      check_only = o.check_only;
      skip_runtime_init = o.skip_runtime_init;
      initialized = true;
    } in
    let b = bootstrap_ota c s.response in
    if-Agrees o.check_only (ok, app) (bootstrap s app) refl
      (bootstrapped-Agrees s
        (record app { config = b.config; activation_pending = b.activation_pending }) b.status refl
        refl)

events-Agrees :
    (o : Options) (s : Supplies) (error : Option Bytes) (c : AppConfig)
    → Agrees (init_events o s (record { error = error; config = c })).1
unfolding init_events zero_app
events-Agrees o s (some m) c = refl
events-Agrees o s none c = elim (Option-cases (EventQueue.init 64 s.events_memory)) [
  | inl f ↦ rw (init_events, f) refl
  | inr (q, f) ↦ rw (init_events, f) (session-Agrees o s (fill_default_ids c) q)
]

pub init-Agrees : (o : Options) (s : Supplies) → Agrees (init o s).1
unfolding init
init-Agrees o s =
    let loaded = load_file s.file zero_config s.copied in
    events-Agrees o s loaded.error loaded.config

-- From the start of the program on, whatever `app_init` finds, the main loop keeps the flags of the
-- runtime in agreement, whatever the events, the answers of the outside and the lines of the standard
-- input: the microphone uploads just when the app does, the client is started just when its thread is
-- meant to run, and an upload runs only in the state UPLOADING_AUDIO, with a dump file that is open
-- and a session that the server named.
pub init-run-Consistent :
    {Item : Type 0} (o : Options) (s : Supplies) (w : World Item) (ticks : List (Tick Item))
    → Leaves (run_loop (begin_run w (init o s).1) ticks)
init-run-Consistent o s w ticks = run-Consistent w (init o s).1 ticks (init-Agrees o s)
