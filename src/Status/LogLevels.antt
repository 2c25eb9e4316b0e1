-- ===== src/Status/LogLevels.antt =====
-- Log levels: `enum class log` and its functions, of
-- src/common/include/project/common/status/log.h and src/common/src/status/log.cc.
use https_http_server.Shared.{
  ℕ, ◌/◌, Bool, true, false, ◌++◌, ◌∷◌, ◌==◌, if◌then◌else◌, Text, codes, text_eq,
}
use https_http_server.Status.Codes.{Http, code}
use https_http_server.Status.RetCodes.{RetCode, retcode_number}

pub data Log : Type 0 where
  unknown trace debug info warning error critical : Log

-- `static_cast<int>(level)`
unfoldable pub level_number : Log → ℕ
level_number unknown = 0
level_number trace = 1
level_number debug = 2
level_number info = 3
level_number warning = 4
level_number error = 5
level_number critical = 6

-- `to_log(std::string_view v)`
unfoldable pub to_log_of_name : Text → Log
unfolding text_eq
to_log_of_name v =
    if text_eq v (codes "info")
    then info
    else if text_eq v (codes "error")
    then error
    else if text_eq v (codes "warning")
    then warning
    else if text_eq v (codes "debug")
    then debug
    else if text_eq v (codes "trace")
    then trace
    else if text_eq v (codes "critical")
    then critical
    else unknown

-- `to_log(int16_t v)`, at the values that are not negative.
unfoldable pub to_log_of_number : ℕ → Log
to_log_of_number v =
    if v == 1
    then trace
    else if v == 2
    then debug
    else if v == 3
    then info
    else if v == 4
    then warning
    else if v == 5
    then error
    else if v == 6
    then critical
    else unknown

-- The switch that `to_log(http)` and `to_log(retCode)` share, on the leading digit.
pub level_of_digit : ℕ → Log
level_of_digit d =
    if d == 1
    then info
    else if d == 2
    then info
    else if d == 3
    then info
    else if d == 4
    then warning
    else if d == 5
    then error
    else unknown

-- `to_log(http v)`
unfoldable pub to_log_of_status : Http → Log
unfolding level_of_digit code
to_log_of_status v = level_of_digit (code v / 100)

-- `to_log(retCode v)`
unfoldable pub to_log_of_retcode : RetCode → Log
unfolding level_of_digit retcode_number
to_log_of_retcode v = level_of_digit (retcode_number v / 10000)

-- `obsolete_reason(log v)`
unfoldable pub level_reason : Log → Text
level_reason trace = codes "TRACE"
level_reason debug = codes "DEBUG"
level_reason info = codes "INFO"
level_reason warning = codes "WARN"
level_reason error = codes "ERROR"
level_reason critical = codes "CRIT"
level_reason unknown = codes "<unknown-log>"

-- The escape byte of `\033`.
abbrev escape : Text → Text
escape s = 27 ∷ s

unfoldable pub log_color : Log → Text
log_color trace = escape (codes "[90m")
log_color debug = escape (codes "[36m")
log_color info = escape (codes "[32m")
log_color warning = escape (codes "[33m")
log_color error = escape (codes "[31m")
log_color critical = escape (codes "[1;31m")
log_color unknown = escape (codes "[0m")

abbrev pub log_reset : Text
log_reset = escape (codes "[0m")

unfoldable pub colored_reason : Log → Text
unfolding log_color level_reason
colored_reason v = log_color v ++ (level_reason v ++ log_reset)

unfoldable pub important_log : Log → Bool
important_log info = false
important_log trace = false
important_log debug = false
important_log _ = true
