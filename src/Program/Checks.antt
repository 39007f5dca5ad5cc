-- ===== src/Program/Checks.antt =====
-- What `--check-config` checks.
use xiaozhi.App.Loop.{Tick}
use xiaozhi.App.Setup.{Supplies, init, zero_config}
use xiaozhi.App.Setup.Check.{check_only_iff}
use xiaozhi.App.State.{App, World}
use xiaozhi.Base.{
  ◌≡◌, ◌≢◌, ◌↔◌, refl, sym, ap, ◌∙◌, true, false, List, none, some, Status, ok, failed,
}
use xiaozhi.Base.Strings.{Bytes}
use xiaozhi.Config.Load.{load_file}
use xiaozhi.Program.{parse_args, main, after_init}

module _ {Item : Type 0} (w : World Item) (ticks : List (Tick Item)) where
  status_iff : (x : Status × App) → ((after_init true w ticks x ≡ some 0) ↔ (x.0 ≡ ok))
  unfolding after_init
  status_iff (ok, app) = ((λ e. refl), (λ e. refl))
  status_iff (failed, app) = ((λ e. absurd (cc e)), (λ e. absurd (cc e)))

  ends : (x : Status × App) → after_init true w ticks x ≢ none
  unfolding after_init
  ends (ok, app) = λ e. cc
  ends (failed, app) = λ e. cc

  -- With `--check-config` on the command line the program ends, without a round of its loop, and its
  -- exit status is 0 exactly if the configuration file that the command line names is read and is
  -- valid, and the queue of events can be made.
  pub check_config_iff :
      (args : List Bytes) (supplies : Bytes → Supplies)
      → (parse_args args).check_only ≡ true
      → let s = supplies (parse_args args).config_path in
        (main args supplies w ticks ≢ none)
        × ((main args supplies w ticks ≡ some 0)
            ↔ (((load_file s.file zero_config s.copied).error ≡ none) × (s.events_memory ≡ true)))
  unfolding main
  check_config_iff args supplies e =
      let s = supplies (parse_args args).config_path in
      let checks = check_only_iff false s in
      let started = init (record { check_only = true; skip_runtime_init = false }) s in
      let same : main args supplies w ticks ≡ after_init true w ticks started =
        ap
          (λ b.
            after_init b w ticks (init (record { check_only = b; skip_runtime_init = false }) s))
          e in
      let status = status_iff started in
      (
        λ f. ends started (sym same ∙ f),
        (λ f. checks.0 (status.0 (sym same ∙ f)), λ k. same ∙ status.1 (checks.1 k)),
      )
