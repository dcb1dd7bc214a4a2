-- ===== src/Systemd/Show.antt =====
-- `StatusSystemd`: what `systemctl show` prints, read line by line, and `MapToStatus`.
mod Keys
pub mod Lines
pub mod Mapping
use go_runit.Common.{
  ℕ, suc, ◌*◌, ◌^◌, ◌%◌, Bool, true, false, not, ◌&&◌, Option, none, some, List, [], ◌∷◌, ◌++◌,
  if◌then◌else◌, ◌⊎◌, inl, inr,
}
use go_runit.Common.Int.{ℤ, pos, negsuc, pos_part, int64, ltb_ℤ}
use go_runit.Common.Text.{codes, equal, trim_space, split, split_first}
use go_runit.Common.Text.Decimal.{atoi}
use go_runit.Status.{
  State, state_unknown, state_running, state_down, Status, zero_status, no_flags, Time, zero_time,
  at, before, is_zero,
}
use go_runit.Status.Stamp.{time_since}
use go_runit.Wire.{Bytes}
use go_runit.Systemd.{ClientSystemd, exec_systemctl}
use go_runit.Systemd.Exec.{Program, returns, ◌>>=◌, Failure}

-- The properties are the writes to the map in their order, of which the last one of a key counts.
pub record StatusSystemd : Type 0 where
  pub active_state : Bytes
  pub sub_state : Bytes
  pub load_state : Bytes
  pub running : Bool
  pub main_pid : ℤ
  pub start_time : Time
  pub uptime : ℤ
  pub result : Bytes
  pub properties : List (Bytes × Bytes)

abbrev pub empty_status : StatusSystemd
empty_status = record {
  active_state = [];
  sub_state = [];
  load_state = [];
  running = false;
  main_pid = pos 0;
  start_time = zero_time;
  uptime = pos 0;
  result = [];
  properties = [];
}

-- `time.Unix(0, ns)`
abbrev pub unix_nano : ℤ → Time
unix_nano (pos n) = at n
unix_nano (negsuc n) = before n

abbrev pub pid_of : Option ℤ → ℤ → ℤ
pid_of none old = old
pid_of (some pid) old = if ltb_ℤ (pos 0) pid then pid else old

-- `time.Unix(0, usec*1000)`, with the product in int64, for a positive number.
abbrev pub start_of : Option ℤ → Time → Time
start_of none old = old
start_of (some usec) old =
    if ltb_ℤ (pos 0) usec then unix_nano (int64 (pos_part usec * 1000 % 2 ^ 64)) else old

-- The keys that the `switch` knows.
pub data Key : Type 0 where
  active_key sub_key load_key main_pid_key start_key result_key other_key : Key

unfoldable pub key_of : Bytes → Key
key_of key =
    if equal key (codes "ActiveState")
    then active_key
    else if equal key (codes "SubState")
    then sub_key
    else if equal key (codes "LoadState")
    then load_key
    else if equal key (codes "MainPID")
    then main_pid_key
    else if equal key (codes "ExecMainStartTimestampMonotonic")
    then start_key
    else if equal key (codes "Result")
    then result_key
    else other_key

-- Its cases.
abbrev pub set_property : Key → Bytes → StatusSystemd → StatusSystemd
set_property active_key value s = record s { active_state = value }
set_property sub_key value s = record s { sub_state = value }
set_property load_key value s = record s { load_state = value }
set_property main_pid_key value s = record s { main_pid = pid_of (atoi value) s.main_pid }
set_property start_key value s = record s { start_time = start_of (atoi value) s.start_time }
set_property result_key value s = record s { result = value }
set_property other_key value s = s

abbrev pub read_pair : Option (Bytes × Bytes) → StatusSystemd → StatusSystemd
read_pair none s = s
read_pair (some (k, v)) s =
    let key = trim_space k in
    let value = trim_space v in
    set_property (key_of key) value (record s { properties = s.properties ++ (key, value) ∷ [] })

unfoldable pub read_lines : List Bytes → StatusSystemd → StatusSystemd
read_lines [] s = s
read_lines (line ∷ lines) s = read_lines lines (read_pair (split_first line b'=') s)

-- Behind the loop: whether it runs, and for how long.
unfoldable pub conclude : ℕ → StatusSystemd → StatusSystemd
conclude now s =
    let running = equal s.active_state (codes "active") && equal s.sub_state (codes "running") in
    record s {
      running = running;
      uptime =
          if running && not (is_zero s.start_time) then time_since now s.start_time else s.uptime;
    }

unfoldable pub parse_show : ℕ → Bytes → StatusSystemd
unfolding read_lines conclude
parse_show now output = conclude now (read_lines (split output 10) empty_status)

abbrev pub parsed_output : ℕ → Failure ⊎ Bytes → Failure ⊎ StatusSystemd
parsed_output now (inl e) = inl e
parsed_output now (inr output) = inr (parse_show now output)

unfoldable pub status_systemd : ClientSystemd → ℕ → Program (Failure ⊎ StatusSystemd)
status_systemd c now = do
  output ← exec_systemctl c (codes "show" ∷ codes "--no-page" ∷ [])
  returns (parsed_output now output)

-- `MapToStatus`
abbrev pub mapped_state : StatusSystemd → State
mapped_state s =
    if equal s.active_state (codes "active")
    then (if equal s.sub_state (codes "running") then state_running else state_unknown)
    else if equal s.active_state (codes "inactive")
    then state_down
    else if equal s.active_state (codes "failed")
    then state_down
    else state_unknown

unfoldable pub map_to_status : StatusSystemd → Status
map_to_status s =
    let timed = s.running && not (is_zero s.start_time) in
    record zero_status {
      pid = s.main_pid;
      since = if timed then s.start_time else zero_time;
      uptime = if timed then s.uptime else pos 0;
      state = mapped_state s;
      flags = record no_flags {
        want_up = s.running;
        want_down = equal s.active_state (codes "inactive");
      };
    }

abbrev pub mapped : Failure ⊎ StatusSystemd → Failure ⊎ Status
mapped (inl e) = inl e
mapped (inr s) = inr (map_to_status s)

-- `ClientSystemd.Status`
unfoldable pub systemd_status : ClientSystemd → ℕ → Program (Failure ⊎ Status)
unfolding status_systemd
systemd_status c now = do s ← status_systemd c now; returns (mapped s)
