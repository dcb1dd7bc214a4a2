-- ===== src/Systemd/Methods.antt =====
-- The methods of `ClientSystemd`, and `SendOperation`, for the value of the variable `USER`.
use go_runit.Common.{Bool, false, Option, none, some, [], ◌∷◌, ◌++◌, if◌then◌else◌, ◌⊎◌, inl, inr}
use go_runit.Common.Text.{codes, equal, contains, trim_space}
use go_runit.Operation.{
  Operation, op_up, op_once, op_down, op_term, op_interrupt, op_hup, op_alarm, op_quit, op_kill,
  op_pause, op_cont, op_usr1, op_usr2, op_exit, op_status, op_restart,
}
use go_runit.Wire.{Bytes}
use go_runit.Client.Methods.{
  Method, up, once, down, term, interrupt, hup, alarm, quit, kill, pause, continue, usr1, usr2,
  start, stop, exit_supervise,
}
use go_runit.Systemd.{ClientSystemd, exec_systemctl, systemctl_verb, signal_main_pid}
use go_runit.Systemd.Once.{run_once}
use go_runit.Systemd.Exec.{Program, returns, ◌>>=◌, Failure, exec_error, unsupported_operation}

-- `if err := a; err != nil { return err }; return b`
abbrev pub and_then : Option Failure → Program (Option Failure) → Program (Option Failure)
and_then (some e) rest = returns (some e)
and_then none rest = rest

-- `if err := a; err != nil { return b }; return nil`
abbrev pub or_else : Option Failure → Program (Option Failure) → Program (Option Failure)
or_else (some e) rest = rest
or_else none rest = returns none

-- `Enable` and `Disable`
abbrev pub enable_unit : ClientSystemd → Program (Option Failure)
enable_unit c = systemctl_verb c (codes "enable")

abbrev pub disable_unit : ClientSystemd → Program (Option Failure)
disable_unit c = systemctl_verb c (codes "disable")

-- `Once`, `Pause`, `Continue`, `Interrupt`, `Alarm` and `Quit`
abbrev pub once_unit : ClientSystemd → Bytes → Program (Option Failure)
once_unit c user = run_once c user

abbrev pub pause_unit : ClientSystemd → Program (Option Failure)
pause_unit c = signal_main_pid c (codes "STOP")

abbrev pub continue_unit : ClientSystemd → Program (Option Failure)
continue_unit c = signal_main_pid c (codes "CONT")

abbrev pub interrupt_unit : ClientSystemd → Program (Option Failure)
interrupt_unit c = signal_main_pid c (codes "INT")

abbrev pub alarm_unit : ClientSystemd → Program (Option Failure)
alarm_unit c = signal_main_pid c (codes "ALRM")

abbrev pub quit_unit : ClientSystemd → Program (Option Failure)
quit_unit c = signal_main_pid c (codes "QUIT")

-- `ExitSupervise`, and `OpExit`
unfoldable pub stop_and_disable : ClientSystemd → Program (Option Failure)
unfolding systemctl_verb
stop_and_disable c = do stopped ← systemctl_verb c (codes "stop"); and_then stopped (disable_unit c)

unfoldable pub systemd_call : ClientSystemd → Bytes → Method → Program (Option Failure)
unfolding stop_and_disable
systemd_call c user up = systemctl_verb c (codes "start")
systemd_call c user start = systemctl_verb c (codes "start")
systemd_call c user down = systemctl_verb c (codes "stop")
systemd_call c user stop = systemctl_verb c (codes "stop")
systemd_call c user once = once_unit c user
systemd_call c user hup = signal_main_pid c (codes "HUP")
systemd_call c user kill = signal_main_pid c (codes "KILL")
systemd_call c user term = signal_main_pid c (codes "TERM")
systemd_call c user interrupt = interrupt_unit c
systemd_call c user alarm = alarm_unit c
systemd_call c user quit = quit_unit c
systemd_call c user usr1 = signal_main_pid c (codes "USR1")
systemd_call c user usr2 = signal_main_pid c (codes "USR2")
systemd_call c user pause = pause_unit c
systemd_call c user continue = continue_unit c
systemd_call c user exit_supervise = stop_and_disable c

-- `OpHUP`: `Reload`, and the signal if that fails.
unfoldable pub reload_or_hup : ClientSystemd → Program (Option Failure)
reload_or_hup c = do
  reloaded ← systemctl_verb c (codes "reload")
  or_else reloaded (signal_main_pid c (codes "HUP"))

unfoldable pub send_operation : ClientSystemd → Bytes → Operation → Program (Option Failure)
unfolding reload_or_hup stop_and_disable
send_operation c user op_up = systemctl_verb c (codes "start")
send_operation c user op_down = systemctl_verb c (codes "stop")
send_operation c user op_restart = systemctl_verb c (codes "restart")
send_operation c user op_hup = reload_or_hup c
send_operation c user op_term = signal_main_pid c (codes "TERM")
send_operation c user op_kill = signal_main_pid c (codes "KILL")
send_operation c user op_interrupt = signal_main_pid c (codes "INT")
send_operation c user op_alarm = signal_main_pid c (codes "ALRM")
send_operation c user op_quit = signal_main_pid c (codes "QUIT")
send_operation c user op_usr1 = signal_main_pid c (codes "USR1")
send_operation c user op_usr2 = signal_main_pid c (codes "USR2")
send_operation c user op_pause = signal_main_pid c (codes "STOP")
send_operation c user op_cont = signal_main_pid c (codes "CONT")
send_operation c user op_once = run_once c user
send_operation c user op_exit = stop_and_disable c
send_operation c user op_status = returns none
send_operation c user op = returns (some (unsupported_operation op))

-- The text of an error of `execSystemctl`.
abbrev pub message : Failure → Bytes
message (exec_error e stderr) = e ++ codes " (stderr: " ++ stderr ++ codes ")"
message f = []

-- `IsRunning`: an inactive service is exit status 3.
abbrev pub activity : Failure ⊎ Bytes → Failure ⊎ Bool
activity (inl e) = if contains (message e) (codes "exit status 3") then inr false else inl e
activity (inr output) = inr (equal (trim_space output) (codes "active"))

unfoldable pub is_running : ClientSystemd → Program (Failure ⊎ Bool)
is_running c = do output ← exec_systemctl c (codes "is-active" ∷ []); returns (activity output)
