-- ===== src/Client/Methods.antt =====
-- The methods of the three clients that send an operation: `Up` to `USR2`, the aliases `Start` and
-- `Stop`, `ExitSupervise`, and `Restart`.
use go_runit.Common.{none, some, ◌∷◌, ◌++◌}
use go_runit.Common.Int.{pos}
use go_runit.Operation.{
  Operation, op_up, op_once, op_down, op_term, op_interrupt, op_hup, op_alarm, op_quit, op_kill,
  op_pause, op_cont, op_usr1, op_usr2, op_exit,
}
use go_runit.Service.{ServiceType}
use go_runit.Client.{Client, Rounds, Sent, waited, refused, send_runit, send_daemontools, send_s6}

pub data Method : Type 0 where
  up once down term interrupt hup alarm quit : Method
  kill pause continue usr1 usr2 start stop exit_supervise : Method

-- The operation that a method is about.
abbrev pub op_of : Method → Operation
op_of up = op_up
op_of once = op_once
op_of down = op_down
op_of term = op_term
op_of interrupt = op_interrupt
op_of hup = op_hup
op_of alarm = op_alarm
op_of quit = op_quit
op_of kill = op_kill
op_of pause = op_pause
op_of continue = op_cont
op_of usr1 = op_usr1
op_of usr2 = op_usr2
op_of start = op_up
op_of stop = op_down
op_of exit_supervise = op_exit

-- The methods of `ClientRunit`; `Start` and `Stop` call `Up` and `Down`.
unfoldable pub runit_call : Client → Method → Rounds → Sent
runit_call c up w = send_runit c op_up w
runit_call c once w = send_runit c op_once w
runit_call c down w = send_runit c op_down w
runit_call c term w = send_runit c op_term w
runit_call c interrupt w = send_runit c op_interrupt w
runit_call c hup w = send_runit c op_hup w
runit_call c alarm w = send_runit c op_alarm w
runit_call c quit w = send_runit c op_quit w
runit_call c kill w = send_runit c op_kill w
runit_call c pause w = send_runit c op_pause w
runit_call c continue w = send_runit c op_cont w
runit_call c usr1 w = send_runit c op_usr1 w
runit_call c usr2 w = send_runit c op_usr2 w
runit_call c start w = send_runit c op_up w
runit_call c stop w = send_runit c op_down w
runit_call c exit_supervise w = send_runit c op_exit w

-- The methods of `ClientDaemontools`; `Quit` does not reach `send`.
unfoldable pub daemontools_call : Client → Method → Rounds → Sent
daemontools_call c up w = send_daemontools c op_up w
daemontools_call c once w = send_daemontools c op_once w
daemontools_call c down w = send_daemontools c op_down w
daemontools_call c term w = send_daemontools c op_term w
daemontools_call c interrupt w = send_daemontools c op_interrupt w
daemontools_call c hup w = send_daemontools c op_hup w
daemontools_call c alarm w = send_daemontools c op_alarm w
daemontools_call c quit w = refused c op_quit ServiceType.daemontools
daemontools_call c kill w = send_daemontools c op_kill w
daemontools_call c pause w = send_daemontools c op_pause w
daemontools_call c continue w = send_daemontools c op_cont w
daemontools_call c usr1 w = send_daemontools c op_usr1 w
daemontools_call c usr2 w = send_daemontools c op_usr2 w
daemontools_call c start w = send_daemontools c op_up w
daemontools_call c stop w = send_daemontools c op_down w
daemontools_call c exit_supervise w = send_daemontools c op_exit w

-- The methods of `ClientS6`; `Pause` and `Continue` do not reach `send`.
unfoldable pub s6_call : Client → Method → Rounds → Sent
s6_call c up w = send_s6 c op_up w
s6_call c once w = send_s6 c op_once w
s6_call c down w = send_s6 c op_down w
s6_call c term w = send_s6 c op_term w
s6_call c interrupt w = send_s6 c op_interrupt w
s6_call c hup w = send_s6 c op_hup w
s6_call c alarm w = send_s6 c op_alarm w
s6_call c quit w = send_s6 c op_quit w
s6_call c kill w = send_s6 c op_kill w
s6_call c pause w = refused c op_pause ServiceType.s6
s6_call c continue w = refused c op_cont ServiceType.s6
s6_call c usr1 w = send_s6 c op_usr1 w
s6_call c usr2 w = send_s6 c op_usr2 w
s6_call c start w = send_s6 c op_up w
s6_call c stop w = send_s6 c op_down w
s6_call c exit_supervise w = send_s6 c op_exit w

-- The clients behind the interface `ServiceClient` that use the control file.
pub data Family : Type 0 where
  runit_family daemontools_family s6_family : Family

unfoldable pub call : Family → Client → Method → Rounds → Sent
unfolding runit_call daemontools_call s6_call
call runit_family c m w = runit_call c m w
call daemontools_family c m w = daemontools_call c m w
call s6_family c m w = s6_call c m w

-- `Restart`: `Down`, a pause of 100 ms, `Up`. The second call has rounds of its own.
unfoldable pub after_down : Sent → Sent → Sent
after_down d u = elim d.error [
  | some e ↦ d
  | none ↦ record { error = u.error; log = d.log ++ waited (pos 100000000) ∷ u.log }
]

unfoldable pub restart : Family → Client → Rounds → Rounds → Sent
unfolding after_down
restart f c w w' = after_down (call f c down w) (call f c up w')
