-- ===== src/Config/Load/Valid.antt =====
-- A configuration that loads is one that the program can run with.
use xiaozhi.Base.{
  ◌≡◌, subst, Bool, true, false, List, [], ◌∷◌, Option, none, some, inl, inr, arith, Option-cases,
}
use xiaozhi.Base.Int.{is_positive}
use xiaozhi.Base.Strings.{Bytes, is_empty}
use xiaozhi.Config.Assign.Bounds.{assign_value-Fits}
use xiaozhi.Config.Load.{
  Reader, read_pair, read_header, read_trimmed, read_line, read_lines, validate, load_from_string,
  after_lines,
}
use xiaozhi.Config.Text.{trim, cut, tokens}
use xiaozhi.Config.Types.{AppConfig, defaults}
use xiaozhi.Config.Types.Sizes.{Fits, defaults-Fits}

-- What `config_validate` asks for.
pub record Usable (c : AppConfig) : Type 0 where
  pub ota_url : is_empty c.ota.url ≡ false
  pub app_version : is_empty c.ota.app_version ≡ false
  pub board_type : is_empty c.board.type ≡ false
  pub board_name : is_empty c.board.name ≡ false
  pub protocol : is_positive c.server.protocol_version ≡ true

validate-Usable : (c : AppConfig) → validate c ≡ none → Usable c
unfolding validate
validate-Usable c e = ground arith

pair-Fits : (r : Reader) (o : Option (Bytes × Bytes)) → Fits r.config → Fits (read_pair r o).config
unfolding read_pair
pair-Fits r none f = f
pair-Fits r (some kv) f = assign_value-Fits r.config r.section (trim kv.0) (trim kv.1) f

AllFit : Option Reader → Type 0
AllFit none = Unit
AllFit (some r) = Fits r.config

header-Fits : (r : Reader) (o : Option (Bytes × Bytes)) → Fits r.config → AllFit (read_header r o)
unfolding read_header AllFit
header-Fits r none f = tt
header-Fits r (some x) f = f

trimmed-Fits : (r : Reader) (s : Bytes) → Fits r.config → AllFit (read_trimmed r s)
unfolding read_trimmed AllFit
trimmed-Fits r [] f = f
trimmed-Fits r (c ∷ s) f =
    ground (arith, header-Fits r (cut b']' s) f, pair-Fits r (cut b'=' (c ∷ s)) f)

line-Fits : (r : Reader) (line : Bytes) → Fits r.config → AllFit (read_line r line)
unfolding read_line
line-Fits r line f = trimmed-Fits r (trim line) f

lines-Fits : (r : Reader) (ls : List Bytes) → Fits r.config → Fits (read_lines r ls).1
unfolding read_lines AllFit
lines-Fits r [] f = f
lines-Fits r (line ∷ ls) f =
    let t = line-Fits r line f in
    elim (Option-cases (read_line r line)) [
      | inl e ↦ rw (read_lines, e) f
      | inr (r', e) ↦ rw (read_lines, e) (lines-Fits r' ls (subst AllFit e t))
    ]

loaded-Fits : (x : Bool × AppConfig) → Fits x.1 → Fits (after_lines x).config
unfolding after_lines
loaded-Fits (true, c) f = f
loaded-Fits (false, c) f = f

loaded-Usable :
    (x : Bool × AppConfig) → (after_lines x).error ≡ none → Usable (after_lines x).config
unfolding after_lines
loaded-Usable (true, c) e = validate-Usable c e
loaded-Usable (false, c) e = cc

-- Whatever the text of the file, `config_load_from_string` leaves every string inside its array, and
-- when it reports success the configuration has an OTA url, an application version, a board type and
-- a board name, and a protocol version above 0.
pub load_from_string-Usable :
    (ini : Bytes) (copied : Bool)
    → Fits (load_from_string ini copied).config
      × ((load_from_string ini copied).error ≡ none → Usable (load_from_string ini copied).config)
unfolding load_from_string
load_from_string-Usable ini true =
    let x = read_lines (record { config = defaults; section = [] }) (tokens ini) in
    (
      loaded-Fits x
          (lines-Fits (record { config = defaults; section = [] }) (tokens ini) defaults-Fits),
      loaded-Usable x,
    )
load_from_string-Usable ini false = (defaults-Fits, λ e. cc)
