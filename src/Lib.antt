-- ===== src/Lib.antt =====
-- Verification of an HTTP and HTTPS server in C++: its request parser, its router, its response
-- printer, the connections that join them, and the logging system beside them.
--
-- The program. A server accepts a client, forks, and makes a connection of it. The connection
-- receives a request (`recv`), has a codec answer it (`execution`), and sends the response (`send`).
-- The codec parses the request, asks the router for the response, and prints it; where the request is
-- refused it prints an error response. The router is a tree of path elements per method, filled by the
-- registrations of the application. The path elements are kept in hash maps with a keyed hash; requests
-- have random identifiers. Log statements go through a logging system, whose manager reads a
-- configuration, and whose watcher has it read again when its file changes.
--
-- The files, with the code that they model (paths from the root of the repository):
--   * Status/Codes, Status/RetCodes, Status/LogLevels: src/common/include/project/common/status/http.h,
--     retcode.h and log.h, with src/common/src/status/http.cc and log.cc. Overloads have a name each:
--     `to_log_of_name`, `to_log_of_number`, `to_log_of_status`, `to_log_of_retcode`; `code` and
--     `retcode_number` are the values of the enumerations. Status/Mapping is about how they agree.
--   * Message/Method, Message/Fields, Message/Envelope:
--     src/server/include/project/server/http/http_message.h and src/server/src/http/http_message.cc:
--     `to_method`, the functors of the header map (`field_hash`, `field_eq`), `Request`, `Response` and
--     `makeResp` (`make_resp`).
--   * Routing/Tree: src/routing/include/project/routing/routing_tree.h, `RoutingTree::add` and `get`.
--     Its children go from one level of the tree (Insert) to paths (Routes), whole trees (Table) and
--     the places that a lookup comes to (Places).
--   * Routing/Router: src/routing/include/project/routing/router.h and src/routing/src/router.cc.
--     `router_get` is `Router::get`, `manager_get` is `RouterManager::Get`, and so for the other
--     methods. Routing/Router/Dispatch is about series of registrations.
--   * Codec/Parse: `HttpCodec::parse` of src/server/src/http/http_codec.cc, in its parts
--     `parse_target`, `parse_headers` and `parse_body`. The children are about searches (Search), the
--     first line (TargetLine), the header lines (Headers), the shape of a message (Layout), whole
--     requests (Whole), printed requests (RoundTrip) and arbitrary bytes (Lines, Total).
--   * Codec/Serialize: `HttpCodec::serialize`. Reading, Client and Results are a client's side of it.
--   * Conversion: `to_string` and `concat` of src/common/include/project/common/tostring.h, and `field` of
--     src/logging/include/project/logging/logging.h.
--   * Codec/Process: `HttpCodec::parse_w` and `HttpCodec::process`.
--   * Connection/Socket: the events of the operating system and of OpenSSL, and
--     src/server/include/project/server/http/http_constants.h.
--   * Connection/Http: src/server/src/http/http_connection.cc. Connection/Https:
--     src/server/src/http/https_connection.cc. `process_connection` is `process`. The children are
--     about sending (Sends), receiving (Receives, Limits, Failures) and the whole (Serving).
--   * Connection/Descriptor: who closes a client's descriptor, in http_connection.h,
--     http_connection.cc and the round of `clientIntakeCycle` of src/server/src/http/http_server.cc.
--   * Server/Binding: `buildSocket`, `setSockOptions` and the guards of `listenInternal` of
--     http_server.cc. Server/Intake: `acceptConnection` and `clientIntakeCycle`, with those of
--     src/server/src/http/https_server.cc (`tls_intake`, `ssl_handshake`). Server/Address: `getSinAddr`,
--     `getSinPort` and `getIpAddr` of src/server/include/project/server/http/http_server.h.
--   * Server/Children: the same loop with the generator of the identifiers, of which each child has a
--     copy (`tls_rounds`, `draw_id`); Identifiers and Different are about what is drawn.
--     Server/Processes: the same loop with the table of processes, and with clients that do not go on
--     with their handshakes.
--   * Routing/Hash: src/routing/include/project/routing/crypto.h and src/routing/src/crypto.cc. `call` is
--     `operator()` on a text. Tags is about the number of a tag, Copies about copies of a hash, and
--     Interface has the template `Hash<Derived>`, `hash` and `clone`.
--   * Server/Life: the rest of both servers: `listen`, `stopListen`, the constructors and the destructor
--     of `HttpServer`. Server/Life/Descriptors is what they close.
--   * Program: `main` of src/main/server.cc. `registered` is the router that it makes, and
--     Program/Answers what is answered with it, Program/Serving what happens over TLS. Program/Children
--     is a child of the server (`child_process`), with the identifiers that it draws,
--     Program/Service the loop and all its children together (`serve`), and Program/Identifiers which
--     request identifiers they send.
--   * Uuid: src/common/src/uuid.cc, with its random numbers as arguments. Layout is its form, Identity
--     tells identifiers apart.
--   * Logging/Record, Logging/Sinks: src/logging/include/project/logging/logging.h and
--     src/logging/src/logging.cc: the formats, the sinks and `Logger`. A stream is what stands in the
--     file and what stands in its buffer, and Sinks/Durable is about a series of records. Sinks/Forked is
--     the same file with a process and its children; Order and Lost are about what gets there.
--     Record/Time is `time_to_string`.
--   * Logging/Syslog: src/logging/include/project/logging/syslog.h.
--   * Logging/Config, Logging/Manager: the `create` functions of the sinks, and `CreateSink` and
--     `LogManager` of src/logging/src/manager/logging_manager.cc. Manager/Levels is what a manager keeps,
--     and Manager/Reloading what a reading of the configuration changes.
--   * Logging/Watcher: src/logging/src/config/impl/macos.cc, as steps of the thread and of the calls on
--     the watcher; Watcher/Lifecycle is about the states that they reach. Watcher/Handle is the handle
--     around it, of src/logging/src/config/configurator.cc.
--   * Logging/System, Logging/Stream: src/logging/src/manager/logging_system.cc with its header:
--     `LogSystem`, `LogStream` and the macro `LOG` (`log_target`, `log_statement`). `system_init` is
--     `LogSystem::Init`, `start_path` is `LogSystem::Start` of a path. Gate is when a record is logged,
--     Switch, Restart and Halting are about `Start`, `Stop` and `Init`, Reloads about what the watcher's
--     thread makes of a series of changes, Stream/Output about what is printed.
--   * Shared holds what all of them use, Samples the data of the tests, and each Examples the tests and
--     instances of its component.
--
-- How it is modelled. Bytes are natural numbers and texts are lists of them. An `int` that holds a
-- position or -1 is an `Option`; positions stay below the reception limit of 8192 bytes, so none
-- wraps. A result that may be `std::nullopt`, or an exception, is a value of `Parsed`; `json::parse` of the
-- JSON library gives a value, a `parse_error`, which is caught, or an `out_of_range`, which is not and
-- ends the process in `execution`. Whether the system makes a thread for a `Start` of the watcher is an
-- argument of it, and the exception where it does not is a value of its own. The loop of
-- the header lines runs on fuel, as much as there are bytes, since each round passes a line end;
-- the digits of a number run on the number itself. The exhausted case is a value of its own. The
-- socket and OpenSSL are lists of events, one for each call; where the list ends, the call blocks
-- and the connection waits. The loops that take clients do not end, and run on the list of the
-- clients that arrive. `std::unordered_map` is a list of entries. The JSON library, the clock and
-- the random identifiers are parameters. The nodes of yaml-cpp are the parameter `YamlLib`, the calls of
-- `EVP_MAC` the parameter `MacLib`, the random generator the parameter `Generator`, and `fmt::vformat`
-- (`FmtLib`), `localtime_r` and `inet_ntop` parameters too. What several processes do is the order in
-- which they do it: `fork` copies what is theirs, and a file is one for all. The watcher's thread runs on the
-- list of the events that it receives; a call that ends in `std::terminate`, or waits for a thread that
-- does not return, is a value of its own. Hexadecimal numbers are printed with fuel for 16 digits, which
-- are enough for 64 bits.
--
-- Not modelled: which messages the other parts write to the system log, and the log statements inside
-- them; numbers below 0 as texts; times before 1970; the order in which a hash map is traversed;
-- `std::bad_alloc`; the server manager, whose functions have no bodies yet; and the benchmark. `dump` of
-- the JSON library is taken to return a text, also where it would throw on a text that is not UTF-8. The
-- calls on a watcher are taken not to overlap, as the lock of the logging system keeps them apart.
pub mod Shared
pub mod Samples
pub mod Status
pub mod Message
pub mod Routing
pub mod Codec
pub mod Conversion
pub mod Connection
pub mod Server
pub mod Logging
pub mod Uuid
pub mod Program
