-- ===== src/Tests/Helping.antt =====
-- Runs of a development tree, of the installation of a unit, and of the helpers of the tests.
use go_runit.Mock.Create.{mock_dir, dir_path}
use go_runit.Common.Text.{split, codes}
use go_runit.Common.Text.Path.{path_text, walk, clean}
use go_runit.Common.Text.Decimal.{atoi, decimal, format_int}
use go_runit.DevTree.{
  ensure_tree, launch_runsvdir, Answer, ensure_runsvdir, stop_runsvdir, ProcessSignal,
}
use go_runit.Common.{
  ℕ, ◌≡◌, ◌↔◌, ◌⊎◌, inl, inr, refl, false, true, none, some, List, [], ◌∷◌, arith, ◌==◌,
  if◌then◌else◌, Bool,
}
use go_runit.Common.Int.{pos}
use go_runit.Wire.{Bytes}
use go_runit.Status.{state_down, zero_status, state_running}
use go_runit.Errors.{sentinel, timeout}
use go_runit.DevTree.Logs.{logged}
use go_runit.DevTree.Processes.{signalled, IsEnsured, ensure_runsvdir-IsEnsured}
use go_runit.DevTree.Stopping.{stops_started}
use go_runit.Systemd.Unit.Install.{build_with_context, enable, remove}
use go_runit.Systemd.Unit.Privilege.{Elevates, using, install_privileged}
use go_runit.Helpers.{Seen, wait_for_state, wait_for_running, check_tool_cached, check_each}
use go_runit.Helpers.Waits.{SeenIn, IsIn, wait_for_state_nil}
use go_runit.Helpers.Tools.{AllAnswer, checks_stable}
use go_runit.Tests.Trees.{tree, installer, replies}

-- There is no PID file, and the process started has PID 42.
abbrev starting : ℕ → Answer
starting n =
    if n == 0
    then record { error = some (codes "missing"); is_not_exist = true; data_read = []; pid = pos 0 }
    else record { error = none; is_not_exist = false; data_read = []; pid = pos 42 }

abbrev stopping : ℕ → Answer
stopping n = record { error = none; is_not_exist = false; data_read = codes "42"; pid = pos 0 }

ensure_runsvdir-IsEnsured_example :
    IsEnsured tree
      (logged starting 0 (ensure_runsvdir tree)).0
      (logged starting 0 (ensure_runsvdir tree)).1
ensure_runsvdir-IsEnsured_example = ensure_runsvdir-IsEnsured tree starting

stops_started_example :
    (s : ProcessSignal) × (signalled (logged stopping 0 (stop_runsvdir tree)).1 ≡ (pos 42, s) ∷ [])
unfolding ensure_runsvdir launch_runsvdir ensure_tree stop_runsvdir format_int decimal atoi
stops_started_example =
    stops_started tree starting stopping (pos 42) (omega arith) (omega arith) refl refl refl refl

install_privileged_example :
    Elevates installer.sudo_command replies
      (build_with_context (using false installer))
      (build_with_context (using true installer))
    × Elevates installer.sudo_command replies
        (enable (using false installer))
        (enable (using true installer))
    × Elevates installer.sudo_command replies
        (remove (using false installer))
        (remove (using true installer))
install_privileged_example = install_privileged installer replies

-- A service that comes up while `StateDown` is waited for.
abbrev looks : List Seen
looks = inl (sentinel timeout) ∷ []

abbrev running_look : Seen
running_look = inr (record zero_status { state = state_running })

wait_for_state_nil_example :
    ((wait_for_state state_down looks running_look ≡ none)
      ↔ (SeenIn state_down looks ⊎ IsIn state_running running_look))
    × ((wait_for_running looks running_look ≡ none)
        ↔ (SeenIn state_running looks ⊎ IsIn state_running running_look))
wait_for_state_nil_example = wait_for_state_nil state_down looks running_look

abbrev calls : List (Bytes × Bool)
calls = (codes "s6-svc", true) ∷ (codes "sv", true) ∷ []

checks_stable_example :
    AllAnswer
      (codes "sv")
      (check_tool_cached false (codes "sv") []).available
      calls
      (check_each calls (check_tool_cached false (codes "sv") []).cache)
checks_stable_example = checks_stable (codes "sv") false [] calls

-- The directory that `CreateMockService` gives its builder.
mock_parent : dir_path (mock_dir (codes "web")) ≡ codes "/tmp/test-services"
unfolding clean walk path_text split
mock_parent = refl
