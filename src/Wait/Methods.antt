-- ===== src/Wait/Methods.antt =====
-- watch_wait.go: the methods `Wait` of the four clients.
use go_runit.Common.{List}
use go_runit.Status.{State}
use go_runit.Client.Methods.{Family}
use go_runit.Wait.{WaitWorld, Waited, wait_impl}

pub data Waiter : Type 0 where
  supervised_waiter : Family → Waiter
  systemd_waiter : Waiter

unfoldable pub wait_of : Waiter → List State → WaitWorld → Waited
wait_of (supervised_waiter Family.runit_family) states w = wait_impl states w
wait_of (supervised_waiter Family.daemontools_family) states w = wait_impl states w
wait_of (supervised_waiter Family.s6_family) states w = wait_impl states w
wait_of systemd_waiter states w = wait_impl states w
