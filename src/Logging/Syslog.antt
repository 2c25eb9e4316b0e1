-- ===== src/Logging/Syslog.antt =====
-- The messages of the logging system about itself, of
-- src/logging/include/project/logging/syslog.h. The formatting of `fmt` is the parameter `FmtLib`.
pub mod Printed
mod Examples
use https_http_server.Shared.{ℕ, List, ◌∷◌, ◌++◌, Text, codes}
use https_http_server.Status.LogLevels.{Log, info, warning, error, critical, level_reason}
use https_http_server.Codec.Serialize.{to_decimal}

-- What a format string and its arguments, as texts, become: a text, or an exception with what it says.
pub data Formatted : Type 0 where
  formatted thrown : Text → Formatted

pub record FmtLib : Type 0 where
  pub vformat : Text → List Text → Formatted

-- `ErrorMessage`: a format, and the place of the call.
pub record ErrorMessage : Type 0 where
  pub format : Text
  pub file : Text
  pub line : ℕ
  pub column : ℕ

-- `stdout` and `stderr`.
pub data Out : Type 0 where
  stdout stderr : Out

-- What has been written to the two; `std::cerr` writes to `stderr`.
pub record Console : Type 0 where
  pub output : Text
  pub errors : Text

abbrev pub print : Out → Text → Console → Console
print stdout t s = record { output = s.output ++ t; errors = s.errors }
print stderr t s = record { output = s.output; errors = s.errors ++ t }

-- The format that `syslog` makes.
unfoldable pub message_format : Log → Text → Text
unfolding level_reason
message_format level format =
    codes "[" ++ (level_reason level ++ (codes "_SYSLOG] {}:({}:{}) " ++ (format ++ codes "\n")))

module _ (F : FmtLib) where
  unfoldable pub syslog : Out → Log → ErrorMessage → List Text → Console → Console
  unfolding message_format to_decimal
  syslog out level em args s =
      elim (F.vformat (message_format level em.format)
        (em.file ∷ to_decimal em.line ∷ to_decimal em.column ∷ args)) [
          | formatted t ↦ print out t s
          | thrown what ↦ print stderr (what ++ codes "\n") s
        ]

  unfoldable pub sys_info : ErrorMessage → List Text → Console → Console
  unfolding syslog
  sys_info = syslog stdout info

  unfoldable pub sys_error : ErrorMessage → List Text → Console → Console
  unfolding syslog
  sys_error = syslog stderr error

  unfoldable pub sys_crit : ErrorMessage → List Text → Console → Console
  unfolding syslog
  sys_crit = syslog stderr critical

  unfoldable pub sys_warn : ErrorMessage → List Text → Console → Console
  unfolding syslog
  sys_warn = syslog stdout warning
