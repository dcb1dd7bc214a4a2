-- ===== src/Tests/Trees.antt =====
-- Runs of a development tree and of the installation of a unit, with what they ask of the system.
use go_runit.Common.{ℕ, ◌≡◌, refl, false, none, some, [], ◌∷◌, inr, ◌==◌, if◌then◌else◌}
use go_runit.Common.Int.{pos}
use go_runit.Common.Text.{codes, split}
use go_runit.Common.Text.Decimal.{atoi}
use go_runit.Common.Text.Path.{join_path, clean, walk, path_text}
use go_runit.Builder.Make.{service_builder_systemd}
use go_runit.Builder.Store.{words}
use go_runit.DevTree.{
  DevTree, new_dev_tree, Answer, read_file, find_process, signal_process, interrupt_signal,
  kill_signal, remove_file, stat, symlink, answered, enable_service, disable_service, stop_runsvdir,
}
use go_runit.Systemd.Exec.{Reply}
use go_runit.Systemd.{systemctl_verb, exec_systemctl}
use go_runit.Systemd.Unit.Install.{
  BuilderSystemd, builder_with_sudo, ran, carry_out, reload_failed, remove,
}

abbrev pub tree : DevTree
tree = record { base = codes "/dev/tree"; runsvdir_path = codes "runsvdir" }

new_tree : new_dev_tree (λ p. inr (codes "/dev/tree")) (codes "tree") [] ≡ inr tree
new_tree = refl

-- Every call succeeds, and the PID file has 42.
abbrev fine : ℕ → Answer
fine n = record { error = none; is_not_exist = false; data_read = codes "42"; pid = pos 42 }

-- Request number 2 fails.
abbrev refusing : ℕ → Answer
refusing n = if n == 2 then record (fine n) { error = some (codes "refused") } else fine n

stopped : answered fine 0 (stop_runsvdir tree) ≡ (
  none,
  read_file (codes "/dev/tree/runsvdir.pid")
      ∷ find_process (pos 42)
      ∷ signal_process (pos 42) interrupt_signal
      ∷ remove_file (codes "/dev/tree/runsvdir.pid")
      ∷ [],
)
unfolding stop_runsvdir join_path clean walk path_text split atoi
stopped = refl

killed : answered refusing 0 (stop_runsvdir tree) ≡ (
  none,
  read_file (codes "/dev/tree/runsvdir.pid")
      ∷ find_process (pos 42)
      ∷ signal_process (pos 42) interrupt_signal
      ∷ signal_process (pos 42) kill_signal
      ∷ remove_file (codes "/dev/tree/runsvdir.pid")
      ∷ [],
)
unfolding stop_runsvdir join_path clean walk path_text split atoi
killed = refl

enabled : answered fine 0 (enable_service tree (codes "web")) ≡ (
  none,
  stat (codes "/dev/tree/services/web")
      ∷ remove_file (codes "/dev/tree/enabled/web")
      ∷ symlink (codes "/dev/tree/services/web") (codes "/dev/tree/enabled/web")
      ∷ [],
)
unfolding enable_service join_path clean walk path_text split
enabled = refl

disabled :
    answered fine 0 (disable_service tree (codes "web"))
    ≡ (none, remove_file (codes "/dev/tree/enabled/web") ∷ [])
unfolding disable_service join_path clean walk path_text split
disabled = refl

-- The reload fails.
abbrev pub replies : ℕ → Reply
replies n =
    if n == 3
    then record { error = some (codes "exit status 1"); stdout = codes "no"; stderr = [] }
    else record { error = none; stdout = []; stderr = [] }

abbrev pub installer : BuilderSystemd
installer =
    builder_with_sudo false []
      (service_builder_systemd 0 (λ p. words []) (codes "web") (codes "/etc/sv"))

removed : carry_out replies 0 (remove installer) ≡ (
  some (reload_failed (codes "exit status 1") (codes "no")),
  ran (codes "systemctl" ∷ codes "stop" ∷ codes "web.service" ∷ [])
      ∷ ran (codes "systemctl" ∷ codes "disable" ∷ codes "web.service" ∷ [])
      ∷ ran (codes "rm" ∷ codes "-f" ∷ codes "/etc/systemd/system/web.service" ∷ [])
      ∷ ran (codes "systemctl" ∷ codes "daemon-reload" ∷ [])
      ∷ [],
)
unfolding remove systemctl_verb exec_systemctl join_path clean walk path_text split
removed = refl
