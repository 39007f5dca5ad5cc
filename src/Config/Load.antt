-- ===== src/Config/Load.antt =====
-- `config_load_from_string`, `config_validate` and `config_load_file`.
pub mod Lines
pub mod Valid
use xiaozhi.Base.{
  ℕ, Bool, true, false, ◌||◌, List, [], ◌∷◌, Option, none, some, ◌==◌, if◌then◌else◌, not, length,
}
use xiaozhi.Base.Int.{ℤ, is_positive}
use xiaozhi.Base.Strings.{Bytes, codes, is_empty, truncate}
use xiaozhi.Config.Assign.{assign_value}
use xiaozhi.Config.Text.{trim, cut, tokens}
use xiaozhi.Config.Types.{AppConfig, defaults}

-- The configuration so far, and the section that the next line belongs to (`char section[32]`).
pub record Reader : Type 0 where
  pub config : AppConfig
  pub section : Bytes

-- A line `key = value`.
unfoldable pub read_pair : Reader → Option (Bytes × Bytes) → Reader
read_pair r none = r
read_pair r (some (key, value)) = record r {
  config = assign_value r.config r.section (trim key) (trim value);
}

-- A line `[section]`; `none` if it has no end.
unfoldable pub read_header : Reader → Option (Bytes × Bytes) → Option Reader
read_header r none = none
read_header r (some (name, rest)) = some (record r { section = truncate 32 name })

-- One line, trimmed.
unfoldable pub read_trimmed : Reader → Bytes → Option Reader
unfolding read_pair read_header
read_trimmed r [] = some r
read_trimmed r (c ∷ s) =
    if c == b'#' || c == b';'
    then some r
    else if c == b'['
    then read_header r (cut b']' s)
    else some (read_pair r (cut b'=' (c ∷ s)))

unfoldable pub read_line : Reader → Bytes → Option Reader
read_line r line = read_trimmed r (trim line)

-- The loop over the lines; beside `none` stands the configuration as the failure leaves it.
unfoldable pub read_lines : Reader → List Bytes → Bool × AppConfig
read_lines r [] = (true, r.config)
read_lines r (line ∷ lines) = elim (read_line r line) [
  | none ↦ (false, r.config)
  | some r' ↦ read_lines r' lines
]

-- The message of the first test that fails.
unfoldable pub validate : AppConfig → Option Bytes
validate c =
    if is_empty c.ota.url
    then some (codes "missing ota.url")
    else if is_empty c.ota.app_version
    then some (codes "missing ota.app_version")
    else if is_empty c.board.type
    then some (codes "missing board.type")
    else if is_empty c.board.name
    then some (codes "missing board.name")
    else if not (is_positive c.server.protocol_version)
    then some (codes "invalid server.protocol_version")
    else none

-- `error` is the message that is put into `err`, and `none` the return value 0; the caller's buffer
-- is not modelled.
pub record Loaded : Type 0 where
  pub error : Option Bytes
  pub config : AppConfig

unfoldable pub after_lines : Bool × AppConfig → Loaded
after_lines (false, c) = record { error = some (codes "invalid section header"); config = c }
after_lines (true, c) = record { error = validate c; config = c }

-- `copied` is whether `strdup` found memory.
unfoldable pub load_from_string : Bytes → Bool → Loaded
unfolding after_lines
load_from_string ini copied =
    if not copied
    then record { error = some (codes "out of memory"); config = defaults }
    else after_lines (read_lines (record { config = defaults; section = [] }) (tokens ini))

-- What the C library says of a file, in the order of the calls: whether it opens, whether both calls
-- of `fseek` succeed, its size (`none` for -1), whether `malloc` succeeds, and the bytes that `fread`
-- returns.
pub record File : Type 0 where
  pub opened : Bool
  pub seek_end : Bool
  pub size : Option ℕ
  pub seek_set : Bool
  pub allocated : Bool
  pub content : Bytes

-- The C string in an array of bytes.
unfoldable pub c_string : Bytes → Bytes
c_string [] = []
c_string (c ∷ s) = if c == 0 then [] else c ∷ c_string s

-- The failures of `config_load_file`, each with the configuration that the caller gave.
abbrev fails : AppConfig → Bytes → Loaded
fails before message = record { error = some message; config = before }

read_file : File → ℕ → AppConfig → Bool → Loaded
read_file f size before copied =
    if not f.seek_set
    then fails before (codes "failed to rewind config file")
    else if not f.allocated
    then fails before (codes "out of memory")
    else if not (length f.content == size)
    then fails before (codes "failed to read config file")
    else load_from_string (c_string f.content) copied

unfoldable pub load_file : File → AppConfig → Bool → Loaded
unfolding read_file
load_file f before copied =
    if not f.opened
    then fails before (codes "failed to open config file")
    else if not f.seek_end
    then fails before (codes "failed to seek config file")
    else (elim f.size [
      | none ↦ fails before (codes "failed to determine config size")
      | some size ↦ read_file f size before copied
    ])
