-- ===== src/Service/Support.antt =====
-- Which operations each configuration supports.
use go_runit.Common.{Bool, false, not, ◌&&◌, ◌||◌, ◌≡◌, refl}
use go_runit.Operation.{
  Operation, op_unknown, op_once, op_quit, op_pause, op_cont, op_restart, op_eq,
}
use go_runit.Service.{
  is_operation_supported, config_runit, config_daemontools, config_s6, config_systemd,
  config_systemd_stub,
}

-- An operation that stands for an action of its own: `OpUnknown` and `OpRestart` are in no set.
abbrev pub is_action : Operation → Bool
is_action op = not (op_eq op op_unknown || op_eq op op_restart)

-- runit and systemd support every operation but `OpUnknown` and `OpRestart`; daemontools all of these
-- but `OpOnce` and `OpQuit`; s6 all but `OpPause` and `OpCont`; the stub for systems without systemd
-- supports none.
pub support_table :
    (op : Operation)
    → (is_operation_supported config_runit op ≡ is_action op)
      × (is_operation_supported config_systemd op ≡ is_action op)
      × (is_operation_supported config_daemontools op
          ≡ (is_action op && not (op_eq op op_once || op_eq op op_quit)))
      × (is_operation_supported config_s6 op
          ≡ (is_action op && not (op_eq op op_pause || op_eq op op_cont)))
      × (is_operation_supported config_systemd_stub op ≡ false)
unfolding is_operation_supported config_runit config_systemd config_daemontools config_s6
    config_systemd_stub
support_table op_unknown = (refl, refl, refl, refl, refl)
support_table _ = (refl, refl, refl, refl, refl)
