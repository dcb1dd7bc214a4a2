-- ===== src/Service.antt =====
-- factory.go and factory_runit.go, factory_daemontools.go, factory_s6.go, factory_systemd.go and its
-- stub: the supervision systems, their default configurations and the operations that they support.
pub mod Support
use go_runit.Common.{ℕ, String, Bool, true, false, not, List, [], ◌∷◌, if◌then◌else◌}
use go_runit.Operation.{
  Operation, op_up, op_once, op_down, op_term, op_interrupt, op_hup, op_alarm, op_quit, op_kill,
  op_pause, op_cont, op_usr1, op_usr2, op_exit, op_status, op_eq,
}

pub data ServiceType : Type 0 where
  unknown runit daemontools s6 systemd : ServiceType

-- `ServiceType.String`.
pub type_string : ServiceType → String
type_string runit = "runit"
type_string daemontools = "daemontools"
type_string s6 = "s6"
type_string systemd = "systemd"
type_string unknown = "unknown"

-- A `map[Operation]struct{}`: its keys, and Go's lookup and `delete`.
abbrev pub OpSet : Type 0
OpSet = List Operation

unfoldable pub has : OpSet → Operation → Bool
has [] op = false
has (x ∷ xs) op = if op_eq x op then true else has xs op

unfoldable pub delete : OpSet → Operation → OpSet
delete [] op = []
delete (x ∷ xs) op = let rest = delete xs op in if op_eq x op then rest else x ∷ rest

pub record ServiceConfig : Type 0 where
  pub type : ServiceType
  pub service_dir : String
  pub chpst_path : String
  pub logger_path : String
  pub runsvdir_path : String
  pub supported_ops : OpSet

unfoldable pub all_operations : OpSet
all_operations =
    op_up ∷ op_once ∷ op_down ∷ op_term ∷ op_interrupt ∷ op_hup ∷ op_alarm ∷ op_quit ∷ op_usr1
    ∷ op_usr2 ∷ op_kill ∷ op_pause ∷ op_cont ∷ op_exit ∷ op_status ∷ []

-- `ServiceConfig.IsOperationSupported`.
unfoldable pub is_operation_supported : ServiceConfig → Operation → Bool
unfolding has
is_operation_supported c op = has c.supported_ops op

unfoldable pub config_runit : ServiceConfig
unfolding all_operations
config_runit = record {
  type = runit;
  service_dir = "/etc/service";
  chpst_path = "chpst";
  logger_path = "svlogd";
  runsvdir_path = "runsvdir";
  supported_ops = all_operations;
}

unfoldable pub config_daemontools : ServiceConfig
unfolding all_operations delete
config_daemontools = record {
  type = daemontools;
  service_dir = "/service";
  chpst_path = "setuidgid";
  logger_path = "multilog";
  runsvdir_path = "svscan";
  supported_ops = delete (delete all_operations op_once) op_quit;
}

unfoldable pub config_s6 : ServiceConfig
unfolding all_operations delete
config_s6 = record {
  type = s6;
  service_dir = "/run/service";
  chpst_path = "s6-setuidgid";
  logger_path = "s6-log";
  runsvdir_path = "s6-svscan";
  supported_ops = delete (delete all_operations op_pause) op_cont;
}

-- On Linux.
unfoldable pub config_systemd : ServiceConfig
unfolding all_operations
config_systemd = record {
  type = systemd;
  service_dir = "/etc/systemd/system";
  chpst_path = "";
  logger_path = "journalctl";
  runsvdir_path = "systemctl";
  supported_ops = all_operations;
}

-- On the other platforms: no operation is supported.
pub config_systemd_stub : ServiceConfig
config_systemd_stub = record {
  type = systemd;
  service_dir = "";
  chpst_path = "";
  logger_path = "";
  runsvdir_path = "";
  supported_ops = [];
}
