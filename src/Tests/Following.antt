-- ===== src/Tests/Following.antt =====
-- Watches and waits: two readings of a changed file, two s6 files, and a wait for a running service.
use go_runit.Common.{ℕ, ◌≡◌, inr, refl, true, false, none, List, [], ◌∷◌, ◌++◌, replicate}
use go_runit.Service.{ServiceType}
use go_runit.Errors.{ok}
use go_runit.Wire.{Bytes}
use go_runit.Status.{state_running, state_stopping, Status, zero_status}
use go_runit.Status.Decode.{decode_status_s6}
use go_runit.Watch.{reported, Input, notified, fired, watch_from, watch_start, window, is_changed}
use go_runit.Watch.Changes.{IsFaithful, watch_reports, s6_unseen}
use go_runit.Watch.Pace.{stretch, IsPaced, watch-IsPaced}
use go_runit.Wait.{Selected, event, closed, returned, wait_impl}
use go_runit.Wait.Outcome.{IsReturn, wait_impl-IsReturn}

abbrev stopping_status : Status
stopping_status = record zero_status { state = state_stopping; raw = replicate 20 1 }

abbrev running_status : Status
running_status = record zero_status { state = state_running; raw = replicate 20 2 }

abbrev read_at : ℕ → Status → Input
read_at t s = fired (record { stopping = false; now = t; status = inr s; sends = true })

abbrev inputs : List Input
inputs =
    read_at 0 stopping_status
    ∷ notified "status"
    ∷ read_at 5 stopping_status
    ∷ read_at 6 running_status
    ∷ []

watch_reports_example : IsFaithful 20 (replicate 20 0) inputs (watch_from inputs (watch_start 20))
watch_reports_example =
    watch_reports ServiceType.runit inputs ((refl, refl), (tt, ((refl, refl), ((refl, refl), tt))))

-- Two unchanged readings, 5 s apart, and then an event.
abbrev spinning : List Input
spinning =
    read_at 0 stopping_status
    ∷ read_at 1 stopping_status
    ∷ read_at 5000000001 stopping_status
    ∷ notified "status"
    ∷ []

watch-IsPaced_example : IsPaced (stretch 20 spinning) (watch_from spinning (watch_start 20)).state
watch-IsPaced_example = watch-IsPaced 20 spinning

-- Two files that differ in the PID alone.
abbrev s6_file : ℕ → Bytes
s6_file pid = replicate 31 0 ++ pid ∷ replicate 11 0

s6_unseen_example :
    (s : Status) × (s' : Status) × (decode_status_s6 3 (s6_file 1) ≡ ok s)
    × (decode_status_s6 4 (s6_file 2) ≡ ok s')
    × ((n : ℕ) → is_changed (window n s) (window n s') ≡ false)
s6_unseen_example = s6_unseen 3 4 (s6_file 1) (s6_file 2) refl refl refl

abbrev selections : List Selected
selections = event (reported stopping_status) ∷ event (reported running_status) ∷ []

wait_impl-IsReturn_example : IsReturn (state_running ∷ []) (
    wait_impl
      (state_running ∷ [])
      (record { status = inr stopping_status; watch_failure = none; selections = selections }))
wait_impl-IsReturn_example =
    wait_impl-IsReturn state_running []
      (record { status = inr stopping_status; watch_failure = none; selections = selections })

-- For no states a closed channel is taken for an event: the zero status, and no error.
closed_channel :
    wait_impl []
      (record { status = inr zero_status; watch_failure = none; selections = closed ∷ [] })
    ≡ returned zero_status none 1
unfolding wait_impl
closed_channel = refl
