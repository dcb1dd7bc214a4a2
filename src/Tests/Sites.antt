-- ===== src/Tests/Sites.antt =====
-- A manager with two services, down to their files, and a wait that follows its watch.
use go_runit.Wait.{is_target}
use go_runit.Status.Decode.{infer_state, runit_status}
use go_runit.Wire.{copy}
use go_runit.Common.{
  inl, ◌⊎◌, replicate, true, false, ◌≡◌, ◌≢◌, inr, refl, ap, none, some, List, [], ◌∷◌, get_or,
  arith,
}
use go_runit.Watch.{window, Input, fired}
use go_runit.Errors.{Error, FilePath, ok, err_of}
use go_runit.Client.{try_conn, round, send_loop, send_runit, Client}
use go_runit.Client.Methods.{runit_call, runit_family}
use go_runit.Client.Make.{checked_client, new_client_runit, default_client}
use go_runit.Manager.{
  Kind, executing, reading, Task, goroutine, stopped, fine, Shared, tell, acquire, finish, release,
  first, later, move, Reach, here, next, fresh,
}
use mathlib.Core.List.{Perm}
use go_runit.Status.{Status, zero_status, state_running}
use go_runit.Status.Decode.Total.{runit_record}
use go_runit.Client.Read.{StatusFile, status_runit}
use go_runit.Client.Read.Whole.{status_whole}
use go_runit.Manager.Calls.{Site, all_up, execute_outcome, status_outcome, by_status}
use go_runit.Manager.Delivery.{AllReached, manager_delivers}
use go_runit.Manager.Readings.{AllRead, zip, manager_reads}
use go_runit.Watch.Methods.{WatcherWorld}
use go_runit.Wait.Methods.{wait_of, supervised_waiter}
use go_runit.Wait.Windows.{IsStatus}
use go_runit.Wait.Following.{following, HasReturned, IsFrom, wait_follows-HasReturned}
use go_runit.Tests.Files.{running_file}
use go_runit.Tests.Making.{web_directory}
use go_runit.Tests.Control.{good_round}

abbrev made : Client
made = default_client ("etc" ∷ "web" ∷ [])

abbrev file : StatusFile
file = record { open_error = none; bytes = running_file; read_error = none }

abbrev site : Site
site = record { directory = web_directory; rounds = λ i. good_round; now = 0; status_file = file }

abbrev seen : Status
seen = runit_record 0 running_file

seen_eq : status_runit made 0 file ≡ ok seen
seen_eq = (status_whole made 0 file refl).0 (omega arith)

abbrev web : FilePath
web = "web" ∷ []

abbrev db : FilePath
db = "db" ∷ []

abbrev ended_with : Status → List Task
ended_with st = goroutine web (stopped (fine st)) ∷ goroutine db (stopped (fine st)) ∷ []

abbrev left_by : Kind → Status → Shared
left_by k st = record (tell k web (fine st) (tell k db (fine st) fresh)) { slots = 0 }

run : (k : Kind) (st : Status) → Reach k 1 (web ∷ db ∷ []) 6 (ended_with st) (left_by k st)
unfolding tell
run k st =
    next
      (next
        (next
          (next
            (next (next here (move (later (first (acquire (omega arith))))))
              (move (later (first (finish st)))))
            (move (later (first release))))
          (move (first (acquire (omega arith)))))
        (move (first (finish st))))
      (move (first release))

site_up : execute_outcome all_up site ≡ some (fine zero_status)
unfolding execute_outcome new_client_runit checked_client runit_call send_runit send_loop round
    try_conn
site_up = refl

site_read : status_outcome site ≡ some (fine seen)
unfolding status_outcome new_client_runit checked_client
site_read = ap by_status seen_eq

manager_delivers_example :
    (err_of (left_by executing zero_status).merr ≡ none → AllReached all_up (site ∷ site ∷ []))
    × ((left_by executing zero_status).ctx_error ≡ none
        → AllReached all_up (site ∷ site ∷ [])
        → err_of (left_by executing zero_status).merr ≡ none)
manager_delivers_example =
    manager_delivers all_up (site ∷ site ∷ []) (run executing zero_status) (refl, (refl, tt))
      (site_up, (site_up, tt))

manager_reads_example :
    (err_of (left_by reading seen).merr ≡ none
      → (sts : List Status) × AllRead (site ∷ site ∷ []) sts
        × Perm (left_by reading seen).results (zip (web ∷ db ∷ []) sts))
    × ((left_by reading seen).ctx_error ≡ none
        → (sts : List Status) → AllRead (site ∷ site ∷ []) sts
        → err_of (left_by reading seen).merr ≡ none)
manager_reads_example =
    manager_reads (site ∷ site ∷ []) (run reading seen) (refl, (refl, tt))
      (site_read, (site_read, tt))

abbrev status_read : Error ⊎ Status
status_read = inr seen

abbrev inputs : List Input
inputs = fired (record { stopping = false; now = 0; status = status_read; sends = true }) ∷ []

abbrev watcher : WatcherWorld
watcher = record { new_watcher = none; add_directory = none }

seen-IsStatus : (s : Status) → status_read ≡ inr s → IsStatus runit_family made s
seen-IsStatus s e = let same : seen ≡ s = cc in (0, file, rw (← same) seen_eq)

seen-window : window 20 seen ≢ replicate 20 0
unfolding runit_status copy
seen-window e = absurd (omega (arith, ap (λ l. get_or l 0 0) e))

wait_follows-HasReturned_example :
    HasReturned (state_running ∷ []) (IsFrom runit_family made watcher inputs) (
      wait_of
        (supervised_waiter runit_family)
        (state_running ∷ [])
        (following runit_family made watcher zero_status inputs))
unfolding is_target runit_status infer_state
wait_follows-HasReturned_example =
    wait_follows-HasReturned runit_family made watcher state_running [] zero_status inputs tt
      ((refl, refl), tt) (seen-IsStatus, tt) (inl (seen, refl, refl, seen-window))
