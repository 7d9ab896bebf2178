-- ===== src/Configuration/LogLevel.antt =====
-- The log levels of logrus that setLogLevel chooses from.
use nginx_k8s_loadbalancer.Base.{String, ◌==◌, if◌then◌else◌}

pub data LogLevel : Type 0 where
  panic fatal error warn info debug trace : LogLevel

unfoldable pub set_log_level : String → LogLevel
set_log_level s =
    if s == "panic"
    then panic
    else if s == "fatal"
    then fatal
    else if s == "error"
    then error
    else if s == "warn"
    then warn
    else if s == "info"
    then info
    else if s == "debug"
    then debug
    else if s == "trace"
    then trace
    else warn
