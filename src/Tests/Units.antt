-- ===== src/Tests/Units.antt =====
-- The systemd client: a service that runs as PID 42, and the theorems at it.
use go_runit.Common.{map, ℕ, ◌≡◌, refl, true, none, List, [], ◌∷◌, ◌++◌, inr}
use go_runit.Systemd.Sudo.{without_sudo, through_sudo, sudo_commands}
use go_runit.Client.Methods.{term}
use go_runit.Common.Text.{codes, trim_space, trim_left, trim_right}
use go_runit.Status.{zero_status, state_running, state_down}
use go_runit.Systemd.{ClientSystemd, new_client_systemd, with_sudo, send_signal, signal_main_pid}
use go_runit.Systemd.Exec.{Reply, execute}
use go_runit.Systemd.Methods.{systemd_call}
use go_runit.Systemd.Signal.{IsSignalled, signal_main_pid-IsSignalled}
use go_runit.Systemd.Show.{StatusSystemd, empty_status, conclude, map_to_status}
use go_runit.Systemd.Show.Lines.{Properties}
use go_runit.Systemd.Show.Mapping.{IsMapped, map_to_status-IsMapped}
use go_runit.Systemd.Watching.{Tick, Follows, watch_systemd, watch_systemd-Follows}

abbrev web_client : ClientSystemd
web_client = with_sudo true (codes "doas") (new_client_systemd 1000 (codes "web"))

abbrev shown : ℕ → Reply
shown n = record { error = none; stdout = codes "42" ++ 10 ∷ []; stderr = [] }

term_web : execute shown 0 (signal_main_pid web_client (codes "TERM")) ≡ (
  none,
  (codes "doas"
        ∷ codes "systemctl"
        ∷ codes "show"
        ∷ codes "-p"
        ∷ codes "MainPID"
        ∷ codes "--value"
        ∷ codes "web.service"
        ∷ [])
      ∷ (codes "doas" ∷ codes "kill" ∷ codes "-TERM" ∷ codes "42" ∷ [])
      ∷ [],
)
unfolding signal_main_pid send_signal trim_space trim_left trim_right
term_web = refl

sudo_commands_example :
    execute shown 0 (systemd_call (through_sudo web_client) (codes "root") term) ≡ (
      (execute shown 0 (systemd_call (without_sudo web_client) (codes "root") term)).0,
      map
          (◌∷◌ (codes "doas"))
          (execute shown 0 (systemd_call (without_sudo web_client) (codes "root") term)).1,
    )
sudo_commands_example = (sudo_commands web_client (codes "root")).0 term shown 0

signal_main_pid-IsSignalled_example :
    IsSignalled web_client
      (codes "TERM")
      shown
      0
      (execute shown 0 (signal_main_pid web_client (codes "TERM")))
signal_main_pid-IsSignalled_example = signal_main_pid-IsSignalled web_client (codes "TERM") shown 0

abbrev web_properties : Properties
web_properties = (codes "MainPID", codes "42") ∷ (codes "ActiveState", codes "active") ∷ []

abbrev failed_web : StatusSystemd
failed_web = record empty_status { active_state = codes "failed"; sub_state = codes "failed" }

map_to_status-IsMapped_example :
    IsMapped (conclude 7 failed_web) (map_to_status (conclude 7 failed_web))
map_to_status-IsMapped_example = map_to_status-IsMapped 7 failed_web

abbrev ticks : List Tick
ticks =
    record { status = inr (record zero_status { state = state_running }); sends = true }
    ∷ record { status = inr (record zero_status { state = state_down }); sends = true }
    ∷ []

abbrev first_tick : Tick
first_tick = record { status = inr (record zero_status { state = state_running }); sends = true }

watch_systemd-Follows_example : Follows "" (first_tick ∷ ticks) (watch_systemd first_tick ticks)
watch_systemd-Follows_example = watch_systemd-Follows first_tick ticks
