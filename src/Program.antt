-- ===== src/Program.antt =====
-- The program of src/main/server.cc.
pub mod Answers
pub mod Serving
pub mod Children
pub mod Service
pub mod Identifiers
mod Examples
use https_http_server.Shared.{
  ℕ, List, [], ◌∷◌, Text, codes, Option, none, some, Bool, true, false, ltb,
}
use https_http_server.Status.RetCodes.{RetCode}
use https_http_server.Message.Envelope.{JsonLib, make_resp}
use https_http_server.Routing.Router.{Handler, RouterManager, init, manager_get}
use https_http_server.Logging.System.{Called, returned, raised, terminated, blocked}
use https_http_server.Server.Life.{
  TlsCalls, Constructed, constructed, thrown, new_https_server, Listened, refused, taking,
  undefined,
}
use https_http_server.Uuid.{generate_uuid_v4}

module _ (J : JsonLib) where
  open J use {text, object}

  -- The handler of `/uni`, at the time `now`, with the random numbers of the response's identifier.
  unfoldable pub uni_handler : ℕ → ℕ → ℕ → Handler J
  unfolding make_resp generate_uuid_v4
  uni_handler now first second req =
      make_resp J now RetCode.success (generate_uuid_v4 first second) (
        object (
          (codes "Message", text (codes "The request was received and successfully processed..."))
          ∷ []))

  -- `RouterManager::Init()` and the registration behind it, whose result is not read.
  unfoldable pub registered : ℕ → ℕ → ℕ → RouterManager J → RouterManager J
  unfolding init manager_get
  registered now first second m =
      (manager_get J (init J m) (codes "/uni") (some (uni_handler now first second))).0

-- How the program ends: with a code; by `std::terminate`; it waits or runs on; or not in a defined
-- way.
pub data Exit : Type 0 where
  exit : ℕ → Exit
  aborted runs unknown : Exit

-- `main`, on the number of its arguments, how `LogSystem::Start` ends, the calls of the constructor of
-- the server, and how `listen` ends. An exception that nothing catches is `std::terminate`.
unfoldable pub main : ℕ → Called → TlsCalls → Listened → Exit
unfolding new_https_server
main argc log_start calls listening = elim (ltb argc 4) [
  | true ↦ exit 1
  | false ↦ elim log_start [
    | terminated ↦ aborted
    | raised s ↦ aborted
    | blocked ↦ runs
    | returned s b ↦ elim (new_https_server calls) [
      | thrown leaks ↦ aborted
      | constructed ↦ elim listening [
        | refused server closed ↦ exit 0
        | taking server closed ↦ runs
        | undefined ↦ unknown
      ]
    ]
  ]
]
