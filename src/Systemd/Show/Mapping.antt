-- ===== src/Systemd/Show/Mapping.antt =====
-- What `MapToStatus` and `Status` make of a systemd status.
use go_runit.Common.{
  ℕ, ◌≡◌, ◌≢◌, ◌↔◌, ◌⊎◌, inl, inr, refl, Bool, true, false, ◌&&◌, arith, if◌then◌else◌, Bool-cases,
}
use go_runit.Common.Text.{codes, equal}
use go_runit.Common.Text.Lines.{equal→eq}
use go_runit.Wire.{Bytes}
use go_runit.Status.{State, state_unknown, state_running, state_down, Status, zero_time}
use go_runit.Systemd.Show.{StatusSystemd, conclude, mapped_state, map_to_status}

-- The states of systemd that the runit status tells apart.
pub record IsMapped (s : StatusSystemd) (t : Status) : Type 0 where
  pub pid : t.pid ≡ s.main_pid
  pub running_iff : (t.state ≡ state_running) ↔ (s.running ≡ true)
  pub want_up : t.flags.want_up ≡ s.running
  pub down_iff : (t.state ≡ state_down) ↔ (
      (equal s.active_state (codes "inactive") ≡ true)
      ⊎ (equal s.active_state (codes "failed") ≡ true))
  pub not_both : (t.flags.want_up && t.flags.want_down) ≡ false
  pub since_running : t.since ≢ zero_time → s.running ≡ true

apart : (a x y : Bytes) → equal x y ≡ false → equal a x ≡ true → equal a y ≡ false
apart a x y h e = rw (equal→eq a x e) h

mapped_state-cases :
    (a r i f : Bool)
    → (a ≡ true → i ≡ false)
    → (a ≡ true → f ≡ false)
    → (i ≡ true → f ≡ false)
    → (t : State)
    → t ≡ (
        if a
        then (if r then state_running else state_unknown)
        else if i
        then state_down
        else if f
        then state_down
        else state_unknown)
    → ((t ≡ state_running) ↔ ((a && r) ≡ true))
      × ((t ≡ state_down) ↔ ((i ≡ true) ⊎ (f ≡ true)))
      × ((a && r && i) ≡ false)
mapped_state-cases a r i f p q u t e = ground arith

-- A status that `StatusSystemd` returns is mapped so: the PID is kept; the state is running exactly for a
-- service that is active and running, and down exactly for one that is inactive or failed; up is wanted
-- exactly of a running service, and never together with down; and only a running one has a start time.
pub map_to_status-IsMapped :
    (now : ℕ) (s : StatusSystemd) → IsMapped (conclude now s) (map_to_status (conclude now s))
unfolding map_to_status conclude
map_to_status-IsMapped now s =
    let m =
      mapped_state-cases (equal s.active_state (codes "active"))
        (equal s.sub_state (codes "running")) (equal s.active_state (codes "inactive"))
        (equal s.active_state (codes "failed")) (apart s.active_state _ _ refl)
        (apart s.active_state _ _ refl) (apart s.active_state _ _ refl) (mapped_state s) refl in
    record {
      pid = refl;
      running_iff = m.0;
      want_up = refl;
      down_iff = m.1;
      not_both = m.2;
      since_running = λ h.
          elim (Bool-cases
            (equal s.active_state (codes "active") && equal s.sub_state (codes "running"))) [
              | inl e ↦ e
              | inr e ↦ absurd (h (rw e refl))
            ];
    }
