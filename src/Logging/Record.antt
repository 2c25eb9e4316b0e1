-- ===== src/Logging/Record.antt =====
-- `LogInfo` and its formats, of src/logging/include/project/logging/logging.h and
-- src/logging/src/logging.cc. The time of a record is its text.
pub mod Formats
pub mod Time
mod Examples
use https_http_server.Shared.{
  ℕ, List, [], ◌∷◌, ◌++◌, map, Text, codes, text_eq, Option, none, some, if◌then◌else◌,
}
use https_http_server.Status.LogLevels.{Log, level_number, level_reason, colored_reason}
use https_http_server.Message.Envelope.{JsonLib}
use https_http_server.Codec.Serialize.{to_decimal}

abbrev pub LogField : Type 0
LogField = Text × Text

pub record LogInfo : Type 0 where
  pub status : Log
  pub info : Text
  pub file : Text
  pub line : ℕ
  pub column : ℕ
  pub details : List LogField
  pub timepoint : Text

abbrev pub Format : Type 0
Format = LogInfo → Text

-- `base.pop_back()`
unfoldable pub pop_back : Text → Text
pop_back [] = []
pop_back (c ∷ []) = []
pop_back (c ∷ d ∷ s) = c ∷ pop_back (d ∷ s)

-- The loop over the details.
unfoldable pub print_details : List LogField → Text
print_details [] = []
print_details ((k, v) ∷ fs) =
    codes "\t- " ++ (k ++ (codes ": \"" ++ (v ++ (codes "\"\n" ++ print_details fs))))

-- The part of `ConsoleFormat` before the details.
unfoldable pub console_head : LogInfo → Text
unfolding colored_reason to_decimal
console_head i =
    codes "["
    ++ (i.timepoint
        ++ (codes "] ["
            ++ (colored_reason i.status
                ++ (codes "] "
                    ++ (i.file
                        ++ (codes ":("
                            ++ (to_decimal i.line
                                ++ (codes ":"
                                    ++ (to_decimal i.column
                                        ++ (codes ") \"" ++ (i.info ++ codes "\"")))))))))))

-- `ConsoleFormat`. Its format strings are literals that fit their arguments, so nothing is thrown.
unfoldable pub console_format : Format
unfolding console_head print_details pop_back
console_format i = elim i.details [
  | [] ↦ console_head i
  | d ∷ ds ↦ pop_back ((console_head i ++ codes " details:\n") ++ print_details (d ∷ ds))
]

module _ (J : JsonLib) where
  open J use {Json, number, text, object, array, dump_line}

  -- A pair of texts as JSON.
  abbrev pair_json : LogField → Json
  pair_json (k, v) = array (text k ∷ text v ∷ [])

  -- `JsonFormat`
  unfoldable pub json_format : Format
  unfolding level_number level_reason
  json_format i = dump_line (
      object (
        (codes "timepoint", text i.timepoint)
        ∷ (codes "status_code", number (level_number i.status))
        ∷ (codes "status", text (level_reason i.status))
        ∷ (codes "file", text i.file)
        ∷ (codes "line", number i.line)
        ∷ (codes "details", array (map pair_json i.details))
        ∷ []))

  -- `FormatIs`: `none` is the empty function.
  unfoldable pub format_is : Text → Option Format
  unfolding text_eq console_format json_format
  format_is name =
      if text_eq name (codes "console")
      then some console_format
      else if text_eq name (codes "json")
      then some json_format
      else none
