-- ===== src/Logging/Config.antt =====
-- `ConsoleSink::create` and `FileSink::create`, of src/logging/src/logging.cc, and `CreateSink` and
-- `LogManager::ParseLogConfig`, of src/logging/src/manager/logging_manager.cc. The nodes of yaml-cpp
-- are the parameter `YamlLib`. Messages to the system log are not modelled.
use https_http_server.Shared.{
  ℕ, List, [], ◌∷◌, ◌++◌, Text, codes, text_eq, Option, none, some, Bool, true, false, ◌&&◌,
  if◌then◌else◌, ◌==◌,
}
use https_http_server.Message.Envelope.{JsonLib}
use https_http_server.Logging.Record.{Format, format_is}
use https_http_server.Logging.Sinks.{Sink, console, file}

-- What the code uses of `YAML::Node`: its tests, `size`, `operator[]` with a name (`none` where it
-- throws), `*begin()`, the elements, and `as<bool>` and `as<std::string>` (`none` where they throw).
pub record YamlLib : Type 1 where
  pub Node : Type 0
  pub is_defined : Node → Bool
  pub is_map : Node → Bool
  pub is_scalar : Node → Bool
  pub is_sequence : Node → Bool
  pub size : Node → ℕ
  pub at : Node → Text → Option Node
  pub begin : Node → Node × Node
  pub items : Node → List Node
  pub as_bool : Node → Option Bool
  pub as_text : Node → Option Text

-- A value; `nullptr` or `std::nullopt`; or an exception, all of which are `YAML::Exception`.
pub data Read {ℓ} (A : Type ℓ) : Type ℓ where
  ok : A → Read A
  absent thrown : Read A

infixl 5 ◌>>=◌ ◌>>◌
abbrev pub ◌>>=◌ {ℓ κ} : {A : Type ℓ} {B : Type κ} → Read A → (A → Read B) → Read B
ok a >>= f = f a
absent >>= f = absent
thrown >>= f = thrown

abbrev pub ◌>>◌ {ℓ} : {B : Type ℓ} → Read (Unit {0}) → Read B → Read B
m >> k = m >>= λ _. k

-- Return null unless the test holds.
abbrev pub check : Bool → Read (Unit {0})
check true = ok tt
check false = absent

-- What an expression that may throw gives.
abbrev pub value {ℓ} : {A : Type ℓ} → Option A → Read A
value none = thrown
value (some a) = ok a

-- The empty function in a Boolean test.
abbrev pub callable {ℓ} : {A : Type ℓ} → Option A → Read A
callable none = absent
callable (some a) = ok a

module _ (J : JsonLib) (Y : YamlLib) where
  open Y use {
    Node, is_defined, is_map, is_scalar, is_sequence, size, at, begin, items, as_bool, as_text,
  }

  -- `ConsoleSink::create`
  unfoldable pub create_console : Node → Read Sink
  unfolding format_is
  create_console config = do
    check (is_defined config && is_map config)
    format_node ← value (at config (codes "format"))
    check (is_defined format_node && is_scalar format_node)
    name ← value (as_text format_node)
    format ← callable (format_is J name)
    ok (console format)

  -- `FileSink(path, format)`: the path that is opened, at the time `now`.
  abbrev pub log_path : Text → Text → Text
  log_path now [] = codes "log_" ++ (now ++ codes ".log")
  log_path now (c ∷ cs) = c ∷ cs

  -- The sink over a file that holds `before`; `none` stands for the `std::runtime_error` where the
  -- file is not open, which `create` catches.
  abbrev pub open_file : Option Text → Format → Option Sink
  open_file none format = none
  open_file (some before) format =
      some (file (record { format = format; stream = record { file = before; buffer = [] } }))

  -- `FileSink::create`; `files` tells what stands in the file of a path, if it can be opened.
  unfoldable pub create_file : (Text → Option Text) → Text → Node → Read Sink
  unfolding format_is
  create_file files now config = do
    check (is_defined config && is_map config)
    format_node ← value (at config (codes "format"))
    check (is_defined format_node && is_scalar format_node)
    path_node ← value (at config (codes "path"))
    check (is_defined path_node && is_scalar path_node)
    name ← value (as_text format_node)
    format ← callable (format_is J name)
    path ← value (as_text path_node)
    callable (open_file (files (log_path now path)) format)

  -- The part of `CreateSink` behind its tests.
  unfoldable pub create_named : (Text → Option Text) → Text → Text → Node → Read Sink
  unfolding text_eq create_console create_file
  create_named files now name settings =
      if text_eq name (codes "console")
      then create_console settings
      else if text_eq name (codes "file")
      then create_file files now settings
      else absent

  -- `CreateSink`
  unfoldable pub create_sink : (Text → Option Text) → Text → Node → Read Sink
  unfolding create_named
  create_sink files now sink = do
    check (is_map sink && size sink == 1)
    let (sink_name, settings) = begin sink
    check (is_scalar sink_name)
    check (is_map settings)
    enabled ← value (at settings (codes "enabled"))
    check (is_defined enabled && is_scalar enabled)
    is_enabled ← value (as_bool enabled)
    check is_enabled
    name ← value (as_text sink_name)
    create_named files now name settings

  -- The loop over the sinks: one that is null is left out.
  unfoldable pub create_sinks : (Text → Option Text) → Text → List Node → Read (List Sink)
  unfolding create_sink
  create_sinks files now [] = ok []
  create_sinks files now (n ∷ nodes) = elim (create_sink files now n) [
    | thrown ↦ thrown
    | absent ↦ create_sinks files now nodes
    | ok sink ↦ do sinks ← create_sinks files now nodes; ok (sink ∷ sinks)
  ]
