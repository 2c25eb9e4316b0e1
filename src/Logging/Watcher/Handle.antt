-- ===== src/Logging/Watcher/Handle.antt =====
-- `ConfigWatcher`, of src/logging/include/project/logging/config/configurator.h and
-- src/logging/src/config/configurator.cc, around its implementation.
use https_http_server.Shared.{◌≡◌, refl, List, [], Option, none, some, Bool}
use https_http_server.Connection.Descriptor.{ℤ}
use https_http_server.Logging.Watcher.{
  Watcher, Opening, new_watcher, up, failed, crashed, signal, drop_watcher,
}
use https_http_server.Logging.Watcher

-- `impl_`; `none` is a null pointer, which a move leaves.
pub record ConfigWatcher : Type 0 where
  pub impl : Option Watcher

-- What a call gives: a handle, an exception that leaves the handle behind, `std::terminate`, or nothing
-- that is defined.
pub data Handled : Type 0 where
  handle : ConfigWatcher → Handled
  raised : ConfigWatcher → Handled
  terminated undefined : Handled

-- The constructor; `none` where the one of the implementation throws.
unfoldable pub new_config_watcher : Opening → Option ConfigWatcher
unfolding new_watcher
new_config_watcher o = elim (new_watcher o).0 [
  | none ↦ none
  | some w ↦ some (record { impl = some w })
]

-- `Start`, with whether the system makes the thread.
unfoldable pub start : Bool → ConfigWatcher → Handled
unfolding Watcher.start
start spawns c = elim c.impl [
  | none ↦ undefined
  | some w ↦ elim (Watcher.start spawns w) [
    | crashed ↦ terminated
    | failed u ↦ raised (record { impl = some u })
    | up u ↦ handle (record { impl = some u })
  ]
]

-- `Stop`, up to the wait of the implementation.
unfoldable pub stop : ConfigWatcher → Handled
unfolding signal
stop c = elim c.impl [ none ↦ undefined | some w ↦ handle (record { impl = some (signal w) }) ]

-- The move constructor: the new handle, and what is left of the old one.
unfoldable pub move : ConfigWatcher → ConfigWatcher × ConfigWatcher
move c = (c, record { impl = none })

-- The move assignment on two objects destroys what the target has had: the target, what is left of the
-- source, and the descriptors that are closed; `none` is `std::terminate`.
unfoldable pub assign_move :
    ConfigWatcher → ConfigWatcher → Option (ConfigWatcher × ConfigWatcher × List ℤ)
unfolding drop_watcher
assign_move source target = elim target.impl [
  | none ↦ some (source, record { impl = none }, [])
  | some w ↦ elim (drop_watcher w) [
    | none ↦ none
    | some fds ↦ some (source, record { impl = none }, fds)
  ]
]

-- The destructor, behind the `Stop` of the implementation: the descriptors that it closes.
unfoldable pub drop_config_watcher : ConfigWatcher → Option (List ℤ)
unfolding drop_watcher
drop_config_watcher c = elim c.impl [ none ↦ some [] | some w ↦ drop_watcher w ]

-- A move gives the watcher on: the new handle starts, stops and is destroyed as the old one was, and
-- the old one is destroyed without a call of `close`, but has no defined `Start` and `Stop`.
pub move_lem :
    (c : ConfigWatcher) (spawns : Bool)
    → (start spawns (move c).0 ≡ start spawns c)
      × (stop (move c).0 ≡ stop c)
      × (drop_config_watcher (move c).0 ≡ drop_config_watcher c)
      × (drop_config_watcher (move c).1 ≡ some [])
      × (start spawns (move c).1 ≡ undefined)
      × (stop (move c).1 ≡ undefined)
unfolding move start stop drop_config_watcher
move_lem c spawns = (refl, refl, refl, refl, refl, refl)
