-- ===== src/Tests/Configs.antt =====
-- The configuration file.
use xiaozhi.Base.{◌≡◌, refl, true, none, some, arith}
use xiaozhi.Base.Strings.{codes}
use xiaozhi.Config.Assign.{assign_value}
use xiaozhi.Config.Load.Lines.{IsKey, read_line-assigns}
use xiaozhi.Config.Load.Valid.{Usable, load_from_string-Usable}
use xiaozhi.Config.Load.{Reader, read_line, load_from_string}
use xiaozhi.Config.Text.{is_space}
use xiaozhi.Config.Types.Sizes.{Fits}
use xiaozhi.Config.Types.{defaults}

abbrev reader : Reader
reader = record { config = defaults; section = codes "server" }

url-IsKey : IsKey (codes "url")
unfolding is_space
url-IsKey = record {
  starts = refl;
  ends = refl;
  some_byte = λ e. cc;
  no_equals = ground arith;
  no_hash = ground arith;
  no_semicolon = ground arith;
  no_bracket = ground arith;
}

read_line-assigns_example :
    read_line reader (codes " url = ws://x ")
    ≡ some (record reader {
      config = assign_value defaults (codes "server") (codes "url") (codes "ws://x");
    })
unfolding is_space
read_line-assigns_example =
    read_line-assigns reader (codes "url") (codes "ws://x") (codes " ") (codes " ") (codes " ")
      (codes " ") url-IsKey refl refl (λ e. cc) (refl, tt) (refl, tt) (refl, tt) (refl, tt)

load_from_string-Usable_example :
    Fits (load_from_string (codes "[ota]\n") true).config
    × ((load_from_string (codes "[ota]\n") true).error ≡ none
        → Usable (load_from_string (codes "[ota]\n") true).config)
load_from_string-Usable_example = load_from_string-Usable (codes "[ota]\n") true
