-- ===== src/Logger/Levels.antt =====
-- The levels of logrus, as the names in the two `initLogger` (cmd/authserver/logger.go and
-- cmd/authclient/logger.go), and the state of its standard logger that the programs set.
use connauth.Common.{ℕ, String, Bool, true, false, ◌||◌, List, ◌==◌, map, if◌then◌else◌}
use connauth.Text.{Unicode, runes, runes_eq}
use connauth.Logger.{AliyunSlsConfig}

-- logrus.Level is a number: `other_level` is one without a name.
pub data Level : Type 0 where
  panic_level fatal_level error_level warn_level info_level debug_level trace_level : Level
  other_level : ℕ → Level

pub record TextFormatter : Type 0 where
  pub full_timestamp : Bool
  pub timestamp_format : String
  pub disable_timestamp : Bool

-- The hooks of the log service that were added, newest first.
pub record Logging : Type 0 where
  pub hooks : List AliyunSlsConfig
  pub level : Level
  pub formatter : TextFormatter

-- `switch strings.ToLower(cfg.LogLevel)`
unfoldable pub level_of : Unicode → String → Level
level_of u name =
    let s = map u.to_lower (runes name) in
    if s == runes "p" || s == runes "panic"
    then panic_level
    else if s == runes "f" || s == runes "fatal"
    then fatal_level
    else if s == runes "e" || s == runes "error"
    then error_level
    else if s == runes "w" || (s == runes "warn" || s == runes "warning")
    then warn_level
    else if s == runes "i" || s == runes "info"
    then info_level
    else if s == runes "d" || s == runes "debug"
    then debug_level
    else if s == runes "t" || (s == runes "trace" || (s == runes "v" || s == runes "verbose"))
    then trace_level
    else warn_level

abbrev pub timestamped : TextFormatter
timestamped = record {
  full_timestamp = true;
  timestamp_format = "2006-01-02 15:04:05";
  disable_timestamp = false;
}
