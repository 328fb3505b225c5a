-- ===== src/Client/Logging.antt =====
-- `initLogger` of the client (cmd/authclient/logger.go). It never fails.
use connauth.Library.{Library}
use connauth.Logger.Levels.{Logging, level_of, timestamped}
use connauth.Client.Config.{Config}

unfoldable pub init_logger : Library → Config → Logging → Logging
init_logger lib cfg l = record l {
  level = level_of lib.unicode cfg.log_level;
  formatter = timestamped;
}
