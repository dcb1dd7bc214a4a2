-- ===== src/Stubs.antt =====
-- The files for platforms without systemd, without a file system watcher, and for builds without the
-- tag devtree_cmd: systemd_client_stub.go, watch_stub.go, wait_stub.go and devtree_stub.go. Every
-- operation refuses, and does nothing to the system.
use go_runit.Common.{String, Option, none, some, List, []}
use go_runit.Wire.{Bytes}
use go_runit.Status.{State, Status, zero_status}
use go_runit.Client.Methods.{
  Method, up, once, down, term, interrupt, hup, alarm, quit, kill, pause, continue, usr1, usr2,
  start, stop, exit_supervise, Family, runit_family, daemontools_family, s6_family,
}

-- The texts of the errors.
pub data PlatformError : Type 0 where
  only_on_linux watch_not_supported wait_not_supported devtree_not_built not_supported :
      PlatformError

-- `ClientSystemd` of other platforms keeps the name alone.
pub record StubSystemd : Type 0 where
  pub service_name : String

abbrev pub new_stub_systemd : String → StubSystemd
new_stub_systemd name = record { service_name = name }

-- Its control methods; `Start` and `Stop` call `Up` and `Down`.
unfoldable pub stub_call : StubSystemd → Method → Option PlatformError
stub_call c up = some only_on_linux
stub_call c once = some only_on_linux
stub_call c down = some only_on_linux
stub_call c term = some only_on_linux
stub_call c interrupt = some only_on_linux
stub_call c hup = some only_on_linux
stub_call c alarm = some only_on_linux
stub_call c quit = some only_on_linux
stub_call c kill = some only_on_linux
stub_call c pause = some only_on_linux
stub_call c continue = some only_on_linux
stub_call c usr1 = some only_on_linux
stub_call c usr2 = some only_on_linux
stub_call c start = some only_on_linux
stub_call c stop = some only_on_linux
stub_call c exit_supervise = some only_on_linux

abbrev pub stub_restart : StubSystemd → Option PlatformError
stub_restart c = some only_on_linux

abbrev pub stub_status : StubSystemd → Status × Option PlatformError
stub_status c = (zero_status, some only_on_linux)

-- The channel and the cleanup are nil.
abbrev pub stub_watch : StubSystemd → Option PlatformError
stub_watch c = some only_on_linux

-- `Watch` and `Wait` of the other clients where there is no watcher.
abbrev pub refused_watch : Family → Option PlatformError
refused_watch runit_family = some watch_not_supported
refused_watch daemontools_family = some watch_not_supported
refused_watch s6_family = some watch_not_supported

abbrev pub refused_wait : Option Family → List State → Status × Option PlatformError
refused_wait (some f) states = (zero_status, some wait_not_supported)
refused_wait none states = (zero_status, some wait_not_supported)

-- The methods of `DevTree` that return an error, and those that return a path.
pub data TreeMethod : Type 0 where
  ensure ensure_runsvdir stop_runsvdir : TreeMethod
  enable_service disable_service : Bytes → TreeMethod

pub data TreePath : Type 0 where
  services_dir enabled_dir log_dir pid_file : TreePath

abbrev pub refused_tree : Bytes → PlatformError
refused_tree base = devtree_not_built

abbrev pub tree_call : TreeMethod → Option PlatformError
tree_call ensure = some not_supported
tree_call ensure_runsvdir = some not_supported
tree_call stop_runsvdir = some not_supported
tree_call (enable_service name) = some not_supported
tree_call (disable_service name) = some not_supported

abbrev pub tree_path : TreePath → Bytes
tree_path p = []
