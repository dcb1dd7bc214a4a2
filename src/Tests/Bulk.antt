-- ===== src/Tests/Bulk.antt =====
-- The goroutines of a manager: two services, one slot.
use mathlib.Core.List.{Perm}
use go_runit.Common.{◌≤◌, ◌≡◌, ◌↔◌, ◌⊎◌, refl, none, List, [], ◌∷◌, map, arith}
use go_runit.Common.Int.{pos, pos_part}
use go_runit.Errors.{FilePath, sentinel, timeout, err_of}
use go_runit.Status.{zero_status}
use go_runit.Manager.{
  ManagerOption, new_manager, at_least_one, with_concurrency, executing, Task, goroutine, stopped,
  fine, failed, Shared, tell, acquire, fail, finish, release, first, later, move, Reach, here, next,
  AllStopped, fresh, Move,
}
use go_runit.Manager.Slots.{holders, holders-bounded}
use go_runit.Manager.Outcomes.{all_told, errors_of, outcomes_collected, service_of}
use go_runit.Manager.Ends.{goroutines_end, AllFine, execute_nil_iff}

abbrev web : FilePath
web = "web" ∷ []

abbrev db : FilePath
db = "db" ∷ []

abbrev options : List ManagerOption
options = with_concurrency (pos 0) ∷ []

-- The second service fails, and the first one follows it.
abbrev ended_tasks : List Task
ended_tasks =
    goroutine web (stopped (fine zero_status))
    ∷ goroutine db (stopped (failed (sentinel timeout)))
    ∷ []

abbrev left : Shared
left =
    record (tell executing web (fine zero_status)
      (tell executing db (failed (sentinel timeout)) fresh)) { slots = 0 }

run :
    Reach executing (pos_part (new_manager options).concurrency) (web ∷ db ∷ []) 6 ended_tasks left
unfolding new_manager at_least_one tell
run =
    next
      (next
        (next
          (next
            (next (next here (move (later (first (acquire (omega arith))))))
              (move (later (first (fail (sentinel timeout))))))
            (move (later (first release))))
          (move (first (acquire (omega arith)))))
        (move (first (finish zero_status))))
      (move (first release))

holders-bounded_example :
    (left.slots ≡ holders ended_tasks)
    × (holders ended_tasks ≤ pos_part (new_manager options).concurrency)
holders-bounded_example = holders-bounded run

goroutines_end_example :
    (6 ≤ 7)
    × (AllStopped ended_tasks
        ⊎ ((us : List Task) × (u : Shared) × Move executing
              (pos_part (new_manager options).concurrency)
              ended_tasks
              left
              us
              u))
goroutines_end_example = goroutines_end options executing (web ∷ db ∷ []) run

outcomes_collected_example :
    (map service_of ended_tasks ≡ web ∷ db ∷ [])
    × Perm left.merr.errors (all_told (errors_of executing) ended_tasks)
    × Perm left.results []
outcomes_collected_example = outcomes_collected run

execute_nil_iff_example : (err_of left.merr ≡ none) ↔ AllFine ended_tasks
execute_nil_iff_example = execute_nil_iff run (refl, (refl, tt))
