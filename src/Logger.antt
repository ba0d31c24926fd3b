-- ===== src/Logger.antt =====
-- The logger (src/veltix/logger/core.py, levels.py). The logger of the logging package takes a
-- record from its level on and hands it to its handlers. What it has taken, and what the console
-- handler has got, are counted from the last _setup.
pub mod Counting
use veltix.Prelude.{
  ℕ, ◌+◌, Bool, true, false, not, ◌&&◌, ◌||◌, List, [], ◌∷◌, ltb, nat_eq, if◌then◌else◌, eq_nat,
  eq_string, eq_list,
}
use veltix.Prelude.Text.{Text}

pub data LogLevel : Type 0 where
  trace debug info success warning error critical : LogLevel

-- int(level)
unfoldable pub severity : LogLevel → ℕ
severity trace = 5
severity debug = 10
severity info = 20
severity success = 25
severity warning = 30
severity error = 40
severity critical = 50

-- The fields of LoggerConfig that the logger decides by; `has_file` says that file_path is given.
pub record LoggerConfig : Type 0 where
  pub level : LogLevel
  pub enabled : Bool
  pub has_file : Bool

-- A record of the logging package
abbrev pub LogRecord : Type 0
LogRecord = LogLevel × Text

-- `internal_level` is the level of the logging package's logger.
pub record Logger : Type 0 where
  pub config : LoggerConfig
  pub stats : LogLevel → ℕ
  pub internal_level : ℕ
  pub console_handler : Bool
  pub file_handler : Bool
  pub taken : List LogRecord
  pub console : List LogRecord

-- logging.CRITICAL + 10
abbrev pub above_all : ℕ
above_all = 50 + 10

-- Logger._setup
unfoldable pub setup : LoggerConfig → Logger
setup config = record {
  config = config;
  stats = λ l. 0;
  internal_level = if config.enabled then severity config.level else above_all;
  console_handler = config.enabled;
  file_handler = config.enabled && config.has_file;
  taken = [];
  console = [];
}

-- Logger.configure
unfoldable pub configure : LoggerConfig → Logger → Logger
configure config s = setup config

-- `self._internal.log`
unfoldable pub internal_log : LogLevel → Text → Logger → Logger
internal_log level message s = if ltb (severity level) s.internal_level then s else record s {
  taken = (level, message) ∷ s.taken;
  console = if s.console_handler then (level, message) ∷ s.console else s.console;
}

-- `self._stats[level] += 1`
unfoldable pub counted : LogLevel → Logger → Logger
counted level s = record s {
  stats = λ l. if nat_eq (severity l) (severity level) then s.stats l + 1 else s.stats l;
}

-- Logger._log
unfoldable pub log : LogLevel → Text → Logger → Logger
log level message s =
    if not s.config.enabled || ltb (severity level) (severity s.config.level)
    then s
    else internal_log level message (counted level s)

-- Logger.set_level
unfoldable pub set_level : LogLevel → Logger → Logger
set_level level s = record s {
  config = record s.config { level = level };
  internal_level = severity level;
}

-- Logger.enable
unfoldable pub enable : Logger → Logger
enable s = record s {
  config = record s.config { enabled = true };
  internal_level = severity s.config.level;
}

-- Logger.disable
unfoldable pub disable : Logger → Logger
disable s = record s { config = record s.config { enabled = false }; internal_level = above_all }

-- Logger.get_stats
unfoldable pub get_stats : Logger → LogLevel → ℕ
get_stats s = s.stats
