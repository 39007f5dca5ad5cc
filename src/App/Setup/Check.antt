-- ===== src/App/Setup/Check.antt =====
-- `app_init` of a run that only checks the configuration.
use xiaozhi.App.Setup.{
  Options, Supplies, zero_config, fill_default_ids, init_session, init_events, init,
}
use xiaozhi.Base.{
  ◌≡◌, ◌≢◌, ◌↔◌, refl, Bool, true, Option, none, some, ok, inl, inr, Option-cases, arith,
}
use xiaozhi.Base.Strings.{Bytes}
use xiaozhi.Config.Load.{load_file}
use xiaozhi.Config.Types.{AppConfig}
use xiaozhi.EventQueue

has_memory : (m : Bool) → (EventQueue.init 64 m ≢ none) ↔ (m ≡ true)
unfolding EventQueue.init
has_memory m = ground arith

abbrev checking : Bool → Options
checking skip = record { check_only = true; skip_runtime_init = skip }

session-ok :
    (skip : Bool) (s : Supplies) (c : AppConfig) (q : EventQueue.EventQueue)
    → (init_session (checking skip) s c q).0 ≡ ok
unfolding init_session
session-ok skip s c q = refl

events-ok :
    (skip : Bool) (s : Supplies) (error : Option Bytes) (c : AppConfig)
    → ((init_events (checking skip) s (record { error = error; config = c })).0 ≡ ok)
      ↔ ((error ≡ none) × (s.events_memory ≡ true))
unfolding init_events
events-ok skip s (some m) c = ((λ e. absurd (cc e)), (λ (e, m). absurd (cc e)))
events-ok skip s none c = elim (Option-cases (EventQueue.init 64 s.events_memory)) [
  | inl e ↦
      rw (init_events, e)
        ((λ f. absurd (cc f)), (λ (_, m). absurd ((has_memory s.events_memory).1 m e)))
  | inr (q, e) ↦
      rw (init_events, e)
        (
          λ f. (refl, (has_memory s.events_memory).0 (λ g. cc)),
          λ f. session-ok skip s (fill_default_ids c) q,
        )
]

-- It succeeds exactly if the configuration is good and the queue of events can be made.
pub check_only_iff :
    (skip : Bool) (s : Supplies)
    → ((init (record { check_only = true; skip_runtime_init = skip }) s).0 ≡ ok)
      ↔ (((load_file s.file zero_config s.copied).error ≡ none) × (s.events_memory ≡ true))
unfolding init
check_only_iff skip s =
    let loaded = load_file s.file zero_config s.copied in
    events-ok skip s loaded.error loaded.config
