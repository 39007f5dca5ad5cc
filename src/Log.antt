-- ===== src/Log.antt =====
-- src/log.c and log.h: which lines are logged. `ts` is the time as it is printed, and `text` the line as
-- `vfprintf` prints it.
use xiaozhi.Base.{ℕ, [], ◌++◌, ltb, if◌then◌else◌}
use xiaozhi.Base.Strings.{Bytes, codes}

pub data Level : Type 0 where
  error warn info debug : Level

-- The number of a level.
unfoldable pub number : Level → ℕ
number error = 0
number warn = 1
number info = 2
number debug = 3

unfoldable pub log_level_name : Level → Bytes
log_level_name error = codes "ERROR"
log_level_name warn = codes "WARN"
log_level_name info = codes "INFO"
log_level_name debug = codes "DEBUG"

-- `current_level`, and what was written.
pub record Log : Type 0 where
  pub current_level : Level
  pub written : Bytes

unfoldable pub start : Log
start = record { current_level = info; written = [] }

unfoldable pub log_write : Log → Level → Bytes → Bytes → Log
log_write log level ts text =
    if ltb (number log.current_level) (number level) then log else record log {
      written =
          log.written
          ++ (codes "["
              ++ (ts
                  ++ (codes "] "
                      ++ (log_level_name level ++ (codes " " ++ (text ++ codes "\n"))))));
    }

unfoldable pub log_set_level : Log → Level → Log
log_set_level log level = record log { current_level = level }

unfoldable pub log_error : Log → Bytes → Bytes → Log
log_error log ts text = log_write log error ts text

unfoldable pub log_warn : Log → Bytes → Bytes → Log
log_warn log ts text = log_write log warn ts text

unfoldable pub log_info : Log → Bytes → Bytes → Log
log_info log ts text = log_write log info ts text

unfoldable pub log_debug : Log → Bytes → Bytes → Log
log_debug log ts text = log_write log debug ts text
