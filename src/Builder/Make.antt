-- ===== src/Builder/Make.antt =====
-- factory_runit.go, factory_daemontools.go, factory_s6.go and factory_systemd.go: builders for the
-- supervision systems, and the systemd client for a configuration.
use go_runit.Common.{ℕ, if◌then◌else◌, Option, none, some, Bool, true, false}
use go_runit.Common.Text.{codes, is_empty}
use go_runit.Service.{ServiceType, ServiceConfig, config_runit, config_daemontools, config_s6}
use go_runit.Wire.{Bytes}
use go_runit.Builder.Store.{
  ConfigObject, Object, new_service_builder, new_service_builder_with_config, value,
}
use go_runit.Systemd.{ClientSystemd, new_client_systemd}
use go_runit.Systemd.Unit.Install.{BuilderSystemd, new_builder_systemd}

abbrev pub service_builder_runit : Bytes → Bytes → ConfigObject
service_builder_runit name dir = new_service_builder_with_config name dir config_runit

abbrev pub service_builder_daemontools : Bytes → Bytes → ConfigObject
service_builder_daemontools name dir = new_service_builder_with_config name dir config_daemontools

abbrev pub service_builder_s6 : Bytes → Bytes → ConfigObject
service_builder_s6 name dir = new_service_builder_with_config name dir config_s6

-- `ServiceBuilderSystemd`: the unit is generated from the value that the configuration has then.
abbrev pub service_builder_systemd : ℕ → (ℕ → Object) → Bytes → Bytes → BuilderSystemd
service_builder_systemd euid cells name dir =
    new_builder_systemd euid (value cells (new_service_builder name dir))

abbrev is_systemd : ServiceType → Bool
is_systemd ServiceType.systemd = true
is_systemd t = false

abbrev with_systemctl : Bytes → ClientSystemd → ClientSystemd
with_systemctl path c = if is_empty path then c else record c { systemctl_path = path }

-- `NewClientSystemdWithConfig`
abbrev pub new_client_systemd_with_config : ℕ → Bytes → Option ServiceConfig → ClientSystemd
new_client_systemd_with_config euid name none = new_client_systemd euid name
new_client_systemd_with_config euid name (some config) =
    let c = new_client_systemd euid name in
    if is_systemd config.type then with_systemctl (codes config.runsvdir_path) c else c
