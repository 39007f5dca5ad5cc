-- ===== src/Program.antt =====
-- src/main.c: the options of the command line, and the course of the program.
pub mod Checks
use xiaozhi.App.Loop.{Tick, Progress, Run, stops, loops, run, run_loop}
use xiaozhi.App.Setup.{Options, Supplies, init}
use xiaozhi.App.State.{App, World, request_stop}
use xiaozhi.Base.{
  ℕ, Bool, true, false, List, [], ◌∷◌, Option, none, some, Status, ok, failed, if◌then◌else◌,
}
use xiaozhi.Base.Int.{ℤ, pos, int_eq}
use xiaozhi.Base.Strings.{Bytes, codes, str_eq}

-- `app_options_t` as `parse_args` fills it.
pub record Opts : Type 0 where
  pub config_path : Bytes
  pub check_only : Bool

-- The loop, from the options so far, over the arguments behind the program's name.
unfoldable pub parse_from : Opts → List Bytes → Opts
parse_from opts [] = opts
parse_from opts (arg ∷ []) =
    if str_eq arg (codes "--check-config") then record opts { check_only = true } else opts
parse_from opts (arg ∷ value ∷ args) =
    let skipped = parse_from (record opts { config_path = value }) args in
    let checked = parse_from (record opts { check_only = true }) (value ∷ args) in
    let ignored = parse_from opts (value ∷ args) in
    if str_eq arg (codes "--config")
    then skipped
    else if str_eq arg (codes "--check-config")
    then checked
    else ignored

unfoldable pub parse_args : List Bytes → Opts
unfolding parse_from
parse_args args =
    parse_from (record { config_path = codes "config/xiaozhi.ini"; check_only = false }) args

-- `sigint_handler`, once `global_app` is set.
unfoldable pub sigint_handler : App → App
sigint_handler app = request_stop app

exit_status : ℤ → ℕ
exit_status rc = if int_eq rc (pos 0) then 0 else 1

after_loop : Progress → Option ℕ
unfolding exit_status
after_loop (Progress.returned rc app) = some (exit_status rc)
after_loop _ = none

after_run : {Item : Type 0} → List (Tick Item) → Run → Option ℕ
unfolding exit_status after_loop
after_run ticks (stops rc) = some (exit_status rc)
after_run ticks (loops app) = after_loop (run_loop app ticks)

after_init : {Item : Type 0} → Bool → World Item → List (Tick Item) → Status × App → Option ℕ
unfolding after_run
after_init check_only w ticks (failed, app) = some 1
after_init check_only w ticks (ok, app) = if check_only then some 0 else after_run ticks (run w app)

-- `main`: the exit status, or `none` while the loop still runs. What the configuration file holds is
-- that of the path that was given.
unfoldable pub main :
    {Item : Type 0} → List Bytes → (Bytes → Supplies) → World Item → List (Tick Item) → Option ℕ
unfolding after_init
main args supplies w ticks =
    let opts = parse_args args in
    after_init opts.check_only w ticks (
      init (record { check_only = opts.check_only; skip_runtime_init = false })
        (supplies opts.config_path))
