-- ===== src/Systemd/Sudo.antt =====
-- The commands of a client with sudo, against those of the same client without.
use go_runit.Systemd.{
  after_show, show_property, unit_name, ClientSystemd, exec_systemctl, exec_output, failure_of,
  systemctl_verb, send_signal, signal_main_pid,
}
use mathlib.Core.Path.{fun_ext}
use go_runit.Common.{
  ℕ, suc, ◌≡◌, refl, ap, ◌∙◌, true, false, ◌||◌, Option, none, some, [], ◌∷◌, map, Bool-cases,
  Option-cases, inl, inr,
}
use go_runit.Common.Text.{codes, equal, is_empty, trim_space}
use go_runit.Operation.{
  Operation, op_up, op_down, op_restart, op_hup, op_exit, op_once, op_status, op_unknown,
}
use go_runit.Wire.{Bytes}
use go_runit.Client.Methods.{Method, up, down, start, stop, once, exit_supervise}
use go_runit.Systemd.Once.{on_exec_start, run_once}
use go_runit.Systemd.Methods.{
  and_then, or_else, stop_and_disable, reload_or_hup, systemd_call, send_operation,
}
use go_runit.Systemd.Show.{systemd_status, status_systemd}
use go_runit.Systemd.Exec.{Command, Reply, Program, returns, run, execute, Failure}

-- The same program, with `s` in front of each command.
abbrev under {ℓ} : {A : Type ℓ} → Bytes → Program A → Program A
under s (returns a) = returns a
under s (run c k) = run (s ∷ c) (λ r. under s (k r))

execute-under {ℓ} :
    {A : Type ℓ} (s : Bytes) (w : ℕ → Reply) (n : ℕ) (p : Program A)
    → execute w n (under s p) ≡ ((execute w n p).0, map (◌∷◌ s) (execute w n p).1)
execute-under s w n (returns a) = refl
execute-under s w n (run c k) = rw (execute-under s w (suc n) (k (w n))) refl

abbrev pub without_sudo : ClientSystemd → ClientSystemd
without_sudo c = record c { use_sudo = false }

abbrev pub through_sudo : ClientSystemd → ClientSystemd
through_sudo c = record c { use_sudo = true }

module _ (c : ClientSystemd) where
  abbrev Agrees {ℓ} : {A : Type ℓ} → (ClientSystemd → Program A) → Type ℓ
  Agrees p = p (through_sudo c) ≡ under c.sudo_command (p (without_sudo c))

  verb-Agrees : (verb : Bytes) → Agrees (λ d. systemctl_verb d verb)
  unfolding systemctl_verb
  verb-Agrees verb = refl

  send_signal-Agrees : (signal pid : Bytes) → Agrees (λ d. send_signal d signal pid)
  unfolding send_signal
  send_signal-Agrees signal pid = elim (Bool-cases (is_empty pid || equal pid (codes "0"))) [
    | inl e ↦ rw e refl
    | inr e ↦ rw e refl
  ]

  after_show-Agrees :
      (signal : Bytes) (r : Reply) (e : Option Bytes) → Agrees (λ d. after_show d signal r e)
  after_show-Agrees signal r none = send_signal-Agrees signal (trim_space r.stdout)
  after_show-Agrees signal r (some x) = refl

  signal-Agrees : (signal : Bytes) → Agrees (λ d. signal_main_pid d signal)
  unfolding signal_main_pid
  signal-Agrees signal =
      ap (run (show_property (through_sudo c) (codes "MainPID")))
        (fun_ext λ (r : Reply). after_show-Agrees signal r r.error)

  on_exec_start-Agrees : (user : Bytes) (r : Reply) → Agrees (λ d. on_exec_start d user r)
  unfolding on_exec_start
  on_exec_start-Agrees user r = elim (Option-cases r.error) [
    | inl e ↦ elim (Bool-cases (is_empty (trim_space r.stdout))) [
      | inl q ↦ rw (e, q) refl
      | inr q ↦ rw (e, q) refl
    ]
    | inr (x, e) ↦ rw e refl
  ]

  once-Agrees : (user : Bytes) → Agrees (λ d. run_once d user)
  unfolding run_once
  once-Agrees user =
      ap (run (show_property (through_sudo c) (codes "ExecStart")))
        (fun_ext (on_exec_start-Agrees user))

  and_then-Agrees :
      (e : Option Failure) (p : ClientSystemd → Program (Option Failure))
      → Agrees p
      → Agrees (λ d. and_then e (p d))
  and_then-Agrees none p h = h
  and_then-Agrees (some e) p h = refl

  or_else-Agrees :
      (e : Option Failure) (p : ClientSystemd → Program (Option Failure))
      → Agrees p
      → Agrees (λ d. or_else e (p d))
  or_else-Agrees none p h = refl
  or_else-Agrees (some e) p h = h

  verb_command : Bytes → Command
  verb_command verb = c.sudo_command ∷ c.systemctl_path ∷ verb ∷ unit_name c ∷ []

  stop-Agrees : Agrees stop_and_disable
  unfolding stop_and_disable systemctl_verb exec_systemctl verb_command
  stop-Agrees = ap (run (verb_command (codes "stop"))) (
      fun_ext λ (r : Reply).
        and_then-Agrees (failure_of (exec_output r)) (λ d. systemctl_verb d (codes "disable"))
          (verb-Agrees (codes "disable")))

  reload-Agrees : Agrees reload_or_hup
  unfolding reload_or_hup systemctl_verb exec_systemctl verb_command
  reload-Agrees = ap (run (verb_command (codes "reload"))) (
      fun_ext λ (r : Reply).
        or_else-Agrees (failure_of (exec_output r)) (λ d. signal_main_pid d (codes "HUP"))
          (signal-Agrees (codes "HUP")))

  call-Agrees : (user : Bytes) (m : Method) → Agrees (λ d. systemd_call d user m)
  unfolding systemd_call
  call-Agrees user up = verb-Agrees _
  call-Agrees user start = verb-Agrees _
  call-Agrees user down = verb-Agrees _
  call-Agrees user stop = verb-Agrees _
  call-Agrees user once = once-Agrees user
  call-Agrees user exit_supervise = stop-Agrees
  call-Agrees user _ = signal-Agrees _

  operation-Agrees : (user : Bytes) (op : Operation) → Agrees (λ d. send_operation d user op)
  unfolding send_operation
  operation-Agrees user op_up = verb-Agrees _
  operation-Agrees user op_down = verb-Agrees _
  operation-Agrees user op_restart = verb-Agrees _
  operation-Agrees user op_hup = reload-Agrees
  operation-Agrees user op_exit = stop-Agrees
  operation-Agrees user op_once = once-Agrees user
  operation-Agrees user op_status = refl
  operation-Agrees user op_unknown = refl
  operation-Agrees user _ = signal-Agrees _

  status-Agrees : (now : ℕ) → Agrees (λ d. systemd_status d now)
  unfolding systemd_status status_systemd exec_systemctl
  status-Agrees now = refl

-- Run with the same replies, a client that uses sudo has the same result as one that does not, and its
-- commands are those of the other, each with the sudo command in front.
abbrev pub SameWithSudo {ℓ} : {A : Type ℓ} → ClientSystemd → (ClientSystemd → Program A) → Type ℓ
SameWithSudo c p =
    (w : ℕ → Reply) (n : ℕ)
    → execute w n (p (through_sudo c)) ≡ (
      (execute w n (p (without_sudo c))).0,
      map (◌∷◌ c.sudo_command) (execute w n (p (without_sudo c))).1,
    )

Agrees-SameWithSudo {ℓ} :
    {A : Type ℓ} (c : ClientSystemd) (p : ClientSystemd → Program A) → Agrees c p → SameWithSudo c p
Agrees-SameWithSudo c p h w n =
    ap (execute w n) h ∙ execute-under c.sudo_command w n (p (without_sudo c))

-- Whether a client uses sudo changes nothing but the sudo command in front of each command: with the
-- same replies every control method, every operation and `Status` have the same result, and run the
-- same commands in the same order.
pub sudo_commands :
    (c : ClientSystemd) (user : Bytes)
    → ((m : Method) → SameWithSudo c (λ d. systemd_call d user m))
      × ((op : Operation) → SameWithSudo c (λ d. send_operation d user op))
      × ((now : ℕ) → SameWithSudo c (λ d. systemd_status d now))
sudo_commands c user = (
  λ m. Agrees-SameWithSudo c (λ d. systemd_call d user m) (call-Agrees c user m),
  λ op. Agrees-SameWithSudo c (λ d. send_operation d user op) (operation-Agrees c user op),
  λ now. Agrees-SameWithSudo c (λ d. systemd_status d now) (status-Agrees c now),
)
