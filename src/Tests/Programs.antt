-- ===== src/Tests/Programs.antt =====
-- The command line.
use xiaozhi.App.Setup.{zero_config}
use xiaozhi.Base.{◌≡◌, ◌≢◌, ◌↔◌, refl, true, [], ◌∷◌, none, some}
use xiaozhi.Base.Strings.{codes}
use xiaozhi.Config.Load.{load_file}
use xiaozhi.Program.{main, parse_args}
use xiaozhi.Program.Checks.{check_config_iff}
use xiaozhi.Tests.Apps.{good_world, good_supplies, enter}

is_check : (parse_args (codes "--check-config" ∷ [])).check_only ≡ true
unfolding parse_args xiaozhi.Base.Strings.str_eq
is_check = refl

check_config_iff_example :
    (main (codes "--check-config" ∷ []) (λ path. good_supplies) good_world (enter ∷ []) ≢ none)
    × ((main (codes "--check-config" ∷ []) (λ path. good_supplies) good_world (enter ∷ []) ≡ some 0)
        ↔ (((load_file good_supplies.file zero_config good_supplies.copied).error ≡ none)
            × (good_supplies.events_memory ≡ true)))
check_config_iff_example =
    check_config_iff good_world (enter ∷ []) (codes "--check-config" ∷ []) (λ path. good_supplies)
      is_check
