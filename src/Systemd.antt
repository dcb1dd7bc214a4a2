-- ===== src/Systemd.antt =====
-- systemd_client.go: a client that runs `systemctl` and `kill`. A method is a program that runs commands
-- one after another and goes on with what each of them gives.
pub mod Exec
pub mod Methods
pub mod Once
pub mod Show
pub mod Watching
pub mod Sudo
pub mod Signal
pub mod Unit
use mathlib.Core.Option
use go_runit.Common.{
  ℕ, Bool, true, false, not, ◌||◌, Option, none, some, ◌⊎◌, inl, inr, List, [], ◌∷◌, ◌++◌, ◌==◌,
  if◌then◌else◌,
}
use go_runit.Common.Int.{ℤ, pos}
use go_runit.Common.Text.{codes, equal, is_empty, trim_space}
use go_runit.Operation.{Operation}
use go_runit.Service.{ServiceType, ServiceConfig}
use go_runit.Wire.{Bytes}
use go_runit.Systemd.Exec.{
  Reply, Command, Program, returns, run, ◌>>=◌, Failure, exec_error, main_pid_error, no_main_pid,
  signal_error,
}

pub record ClientSystemd : Type 0 where
  pub service_name : Bytes
  pub use_sudo : Bool
  pub sudo_command : Bytes
  pub systemctl_path : Bytes
  pub timeout : ℤ
  pub watch_interval : ℤ

-- `NewClientSystemd`, for the effective user.
abbrev pub new_client_systemd : ℕ → Bytes → ClientSystemd
new_client_systemd euid name = record {
  service_name = name;
  use_sudo = not (euid == 0);
  sudo_command = codes "sudo";
  systemctl_path = codes "systemctl";
  timeout = pos 10000000000;
  watch_interval = pos 1000000000;
}

-- `WithSudo` and `WithTimeout`
abbrev pub with_sudo : Bool → Bytes → ClientSystemd → ClientSystemd
with_sudo use_it command c = record c {
  use_sudo = use_it;
  sudo_command = if not (is_empty command) then command else c.sudo_command;
}

abbrev pub client_with_timeout : ℤ → ClientSystemd → ClientSystemd
client_with_timeout d c = record c { timeout = d }

-- The argument list with `sudo` in front of it if the client uses it.
abbrev pub as_user : ClientSystemd → Command → Command
as_user c argv = if c.use_sudo then c.sudo_command ∷ argv else argv

abbrev pub unit_name : ClientSystemd → Bytes
unit_name c = c.service_name ++ codes ".service"

-- The error of a reply, wrapped, or what it printed.
abbrev pub exec_output : Reply → Failure ⊎ Bytes
exec_output r = elim r.error [ some e ↦ inl (exec_error e r.stderr) | none ↦ inr r.stdout ]

unfoldable pub exec_systemctl : ClientSystemd → List Bytes → Program (Failure ⊎ Bytes)
exec_systemctl c args =
    run (as_user c (c.systemctl_path ∷ args ++ unit_name c ∷ [])) (λ r. returns (exec_output r))

abbrev pub failure_of {ℓ} : {A : Type ℓ} → Failure ⊎ A → Option Failure
failure_of (inl e) = some e
failure_of (inr a) = none

-- `Up`, `Down`, `Restart`, `Reload`, `Enable` and `Disable`: one verb of `systemctl`.
unfoldable pub systemctl_verb : ClientSystemd → Bytes → Program (Option Failure)
unfolding exec_systemctl
systemctl_verb c verb = do output ← exec_systemctl c (verb ∷ []); returns (failure_of output)

unfoldable pub send_signal : ClientSystemd → Bytes → Bytes → Program (Option Failure)
send_signal c signal pid =
    if is_empty pid || equal pid (codes "0")
    then returns (some no_main_pid)
    else run (as_user c (codes "kill" ∷ (b'-' ∷ signal) ∷ pid ∷ []))
        (λ r. returns (Option.map (signal_error signal pid) r.error))

abbrev pub after_show : ClientSystemd → Bytes → Reply → Option Bytes → Program (Option Failure)
after_show c signal r (some e) = returns (some (main_pid_error e r.stderr))
after_show c signal r none = send_signal c signal (trim_space r.stdout)

-- `systemctl show -p … --value`
abbrev pub show_property : ClientSystemd → Bytes → Command
show_property c name =
    as_user c
      (c.systemctl_path ∷ codes "show" ∷ codes "-p" ∷ name ∷ codes "--value" ∷ unit_name c ∷ [])

unfoldable pub signal_main_pid : ClientSystemd → Bytes → Program (Option Failure)
unfolding send_signal
signal_main_pid c signal =
    run (show_property c (codes "MainPID")) (λ r. after_show c signal r r.error)
