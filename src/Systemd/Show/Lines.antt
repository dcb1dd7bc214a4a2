-- ===== src/Systemd/Show/Lines.antt =====
-- What is read of the output of `systemctl show`, a line `key=value` for each property.
use go_runit.Common.{◌≡◌, ◌&&◌, List, [], ◌∷◌, ◌++◌, if◌then◌else◌}
use go_runit.Common.Int.{pos}
use go_runit.Common.Text.{codes, equal, trim_space}
use go_runit.Common.Text.Lines.{Lacks}
use go_runit.Common.Text.Decimal.{atoi}
use go_runit.Status.{zero_time}
use go_runit.Wire.{Bytes}
use go_runit.Systemd.Show.{StatusSystemd, empty_status, key_of, set_property, pid_of, start_of}

abbrev pub Properties : Type 0
Properties = List (Bytes × Bytes)

-- The output for a list of properties.
abbrev pub print_show : Properties → Bytes
print_show [] = []
print_show ((k, v) ∷ ps) = k ++ b'=' ∷ (v ++ 10 ∷ print_show ps)

-- A key without `=`, both without line ends and without white space around.
pub record IsProperty (k v : Bytes) : Type 0 where
  pub key_no_eq : Lacks b'=' k
  pub key_no_newline : Lacks 10 k
  pub value_no_newline : Lacks 10 v
  pub key_trimmed : trim_space k ≡ k
  pub value_trimmed : trim_space v ≡ v

abbrev pub AllProperties : Properties → Type 0
AllProperties [] = Unit
AllProperties ((k, v) ∷ ps) = IsProperty k v × AllProperties ps

abbrev set_all : Properties → StatusSystemd → StatusSystemd
set_all [] s = s
set_all ((k, v) ∷ ps) s =
    set_all ps (set_property (key_of k) v (record s { properties = s.properties ++ (k, v) ∷ [] }))

-- The value of the last property whose key is the given text.
abbrev pub last_value {ℓ} : {A : Type ℓ} → Bytes → (Bytes → A → A) → Properties → A → A
last_value key f [] a = a
last_value key f ((k, v) ∷ ps) a = last_value key f ps (if equal k key then f v a else a)

abbrev pub replaced : Bytes → Bytes → Bytes
replaced v old = v

-- A field that only the properties of one key write.
pub record IsField {ℓ} {A : Type ℓ} (key : Bytes) (f : Bytes → A → A) (field : StatusSystemd → A)
    : Type ℓ where
  pub set_lem :
      (k v : Bytes) (s : StatusSystemd)
      → field (set_property (key_of k) v s) ≡ (if equal k key then f v (field s) else field s)
  pub properties_lem :
      (s : StatusSystemd) (ps : Properties) → field (record s { properties = ps }) ≡ field s

-- What is read of some properties: all of them, in their order; each field from the last property whose
-- key has the text of its name; the PID and the start time from the last one that is a positive number; and
-- whether it runs.
pub record IsRead (ps : Properties) (s : StatusSystemd) : Type 0 where
  pub properties : s.properties ≡ ps
  pub active_state : s.active_state ≡ last_value (codes "ActiveState") replaced ps []
  pub sub_state : s.sub_state ≡ last_value (codes "SubState") replaced ps []
  pub load_state : s.load_state ≡ last_value (codes "LoadState") replaced ps []
  pub result : s.result ≡ last_value (codes "Result") replaced ps []
  pub main_pid : s.main_pid ≡ last_value (codes "MainPID") (λ v. pid_of (atoi v)) ps (pos 0)
  pub start_time :
      s.start_time
      ≡ last_value (codes "ExecMainStartTimestampMonotonic") (λ v. start_of (atoi v)) ps zero_time
  pub running : s.running ≡ (
      equal (last_value (codes "ActiveState") replaced ps []) (codes "active")
      && equal (last_value (codes "SubState") replaced ps []) (codes "running"))

module _ (ps : Properties) where
  all : StatusSystemd
  all = set_all ps empty_status
