-- ===== src/Logging/Watcher.antt =====
-- `ConfigWatcher` and its implementation, of src/logging/src/config/configurator.cc,
-- src/logging/include/project/logging/config/impl/macos.h and src/logging/src/config/impl/macos.cc. The
-- descriptors and the events of `kqueue` are arguments. Messages to the system log are not modelled.
pub mod Lifecycle
pub mod Handle
use https_http_server.Shared.{
  ℕ, zero, suc, ◌≡◌, ◌≢◌, List, [], ◌∷◌, ◌++◌, Text, Option, none, some, Bool, true, false,
}
use https_http_server.Connection.Descriptor.{ℤ, pos, negsuc}

-- `worker_`: no thread; one that runs `Run`; or one that has left it and is not joined.
pub data Worker : Type 0 where
  idle running ended : Worker

-- `trigger` tells whether the user event is triggered and not yet received; `stopping`, whether
-- `Stop` is waiting for the thread.
pub record Watcher : Type 0 where
  pub fd : ℤ
  pub kq : ℤ
  pub started : Bool
  pub worker : Worker
  pub trigger : Bool
  pub stopping : Bool

-- What the constructor's calls give: `exists`, `open` and `kqueue` (`none` for -1), and `kevent`.
pub record Opening : Type 0 where
  pub exists : Bool
  pub file : Option ℤ
  pub queue : Option ℤ
  pub registered : Bool

-- The constructor: the watcher, `none` where it throws, and the descriptors that it has closed.
unfoldable pub new_watcher : Opening → Option Watcher × List ℤ
new_watcher o = elim o.exists [
  | false ↦ (none, [])
  | true ↦ elim o.file [
    | none ↦ (none, [])
    | some fd ↦ elim o.queue [
      | none ↦ (none, fd ∷ [])
      | some kq ↦ elim o.registered [
        | false ↦ (none, kq ∷ fd ∷ [])
        | true ↦ (
          some (record {
            fd = fd;
            kq = kq;
            started = false;
            worker = idle;
            trigger = false;
            stopping = false;
          }),
          [],
        )
      ]
    ]
  ]
]

-- How `Start` ends: it returns; the constructor of `std::thread` throws `std::system_error`, which
-- nothing catches; or `std::terminate`, where a thread is assigned to `worker_` while it has one.
pub data Launched : Type 0 where
  up failed : Watcher → Launched
  crashed : Launched

-- `Start`, with whether the system makes the thread. `started_` is stored before that.
unfoldable pub start : Bool → Watcher → Launched
start false w = failed (record w { started = true })
start true w = elim w.worker [
  | idle ↦ up (record w { started = true; worker = running })
  | running ↦ crashed
  | ended ↦ crashed
]

-- `Stop` up to its wait for the thread; nothing where the watcher is not started.
unfoldable pub signal : Watcher → Watcher
signal w = elim w.started [
  | false ↦ w
  | true ↦ record w { started = false; trigger = true; stopping = true }
]

-- The end of the wait: `none` while the thread runs.
unfoldable pub join : Watcher → Option Watcher
join w = elim w.worker [
  | running ↦ none
  | idle ↦ some (record w { worker = idle; stopping = false })
  | ended ↦ some (record w { worker = idle; stopping = false })
]

-- What `kevent` gives to `Run`: -1; 0; an event with `EV_ERROR`; one of the file, with whether it is
-- a write and what path `fcntl` gives; the user event; or one of another filter.
pub data KEvent : Type 0 where
  failure nothing event_error : KEvent
  vnode : Bool → Option Text → KEvent
  user other : KEvent

-- What `Run` does next: it goes on, calls the handler and goes on, or returns. What the handler
-- throws is caught.
pub data Verdict : Type 0 where
  go_on finish : Verdict
  reload : Text → Verdict

unfoldable pub run_event : KEvent → Verdict
run_event failure = finish
run_event nothing = go_on
run_event event_error = finish
run_event (vnode false path) = go_on
run_event (vnode true none) = go_on
run_event (vnode true (some path)) = reload path
run_event user = finish
run_event other = go_on

-- An event, received: the user event is cleared by that, and `Run` may return.
unfoldable pub receive : KEvent → Watcher → Watcher
unfolding run_event
receive user w = record w { worker = ended; trigger = false }
receive e w = elim (run_event e) [
  | finish ↦ record w { worker = ended }
  | go_on ↦ w
  | reload path ↦ w
]

-- The user event comes only where it is triggered.
abbrev pub MayCome : KEvent → Watcher → Type 0
MayCome user w = w.trigger ≡ true
MayCome _ w = Unit

-- The steps of the thread and of the calls on the watcher, which the lock of the logging system
-- keeps apart from one another. A `Start` that would terminate the program is no step.
pub data Step (w : Watcher) : Watcher → Type 0 where
  starts : {u : Watcher} → w.stopping ≡ false → start true w ≡ up u → Step w u
  fails : {u : Watcher} → w.stopping ≡ false → start false w ≡ failed u → Step w u
  signals : w.stopping ≡ false → Step w (signal w)
  joins : {u : Watcher} → w.stopping ≡ true → join w ≡ some u → Step w u
  receives : (e : KEvent) → w.worker ≡ running → MayCome e w → Step w (receive e w)

pub data Reach (w : Watcher) : Watcher → Type 0 where
  here : Reach w w
  next : {u v : Watcher} → Reach w u → Step u v → Reach w v

-- `close(fd)` unless it is -1.
unfoldable pub close_fd : ℤ → List ℤ
close_fd (pos n) = pos n ∷ []
close_fd (negsuc zero) = []
close_fd (negsuc (suc n)) = negsuc (suc n) ∷ []

-- The destructor behind its `Stop`: the descriptors that it closes; `none` is `std::terminate`, where
-- `worker_` is destroyed while it has a thread.
unfoldable pub drop_watcher : Watcher → Option (List ℤ)
unfolding close_fd
drop_watcher w = elim w.worker [
  | idle ↦ some (close_fd w.fd ++ close_fd w.kq)
  | running ↦ none
  | ended ↦ none
]
