-- ===== src/Watch/Methods.antt =====
-- watch_impl.go: `watchImpl` as a whole, and watch_unified.go: the methods `Watch` of the clients.
use go_runit.Defaults.{supervise_name}
use go_runit.Common.{ℕ, Option, none, some, List, []}
use go_runit.Operation.{op_status}
use go_runit.Errors.{FilePath, join, Error, op_error}
use go_runit.Client.{Client}
use go_runit.Client.Methods.{Family}
use go_runit.Client.Refuse.{type_of}
use go_runit.Watch.{Input, Watched, WatchEvent, watch_start, get_status_file_size, watch_from}

-- What the file system watcher, which is third-party code, answers: the error of making it, and that
-- of adding a directory.
pub record WatcherWorld : Type 0 where
  pub new_watcher : Option Error
  pub add_directory : Option Error

-- An error, with the calls of `watcher.Close`, or a watch.
pub data Watching : Type 0 where
  unwatched : Error → ℕ → Watching
  watches : Watched → Watching

abbrev pub supervise_dir : Client → FilePath
supervise_dir c = join c.service_dir supervise_name

unfoldable pub watch_impl : Client → ℕ → WatcherWorld → List Input → Watching
watch_impl c size w is = elim w.new_watcher [
  | some e ↦ unwatched (op_error op_status (supervise_dir c) e) 0
  | none ↦ elim w.add_directory [
    | some e ↦ unwatched (op_error op_status (supervise_dir c) e) 1
    | none ↦ watches (watch_from is (watch_start size))
  ]
]

-- `Watch` of the three clients.
unfoldable pub watch_of : Family → Client → WatcherWorld → List Input → Watching
unfolding watch_impl
watch_of f c w is = watch_impl c (get_status_file_size (type_of f)) w is

-- The error that a client's `Watch` returns, and what it sends.
abbrev pub watch_failure_of : Watching → Option Error
watch_failure_of (unwatched e n) = some e
watch_failure_of (watches w) = none

abbrev pub events_of : Watching → List WatchEvent
events_of (unwatched e n) = []
events_of (watches w) = w.events
