-- ===== src/Systemd/Exec.antt =====
-- Programs that run commands, their runs, and the failures of the systemd client.
use go_runit.Common.{ℕ, suc, Option, List, [], ◌∷◌}
use go_runit.Operation.{Operation}
use go_runit.Wire.{Bytes}

-- The program and its arguments, as `exec.CommandContext` takes them.
abbrev pub Command : Type 0
Command = List Bytes

-- The text of the error of `cmd.Run`, if there is one, and the two outputs.
pub record Reply : Type 0 where
  pub error : Option Bytes
  pub stdout : Bytes
  pub stderr : Bytes

pub data Program {ℓ} (A : Type ℓ) : Type ℓ where
  returns : A → Program A
  run : Command → (Reply → Program A) → Program A

infixl 5 ◌>>=◌
abbrev pub ◌>>=◌ {ℓ κ} : {A : Type ℓ} {B : Type κ} → Program A → (A → Program B) → Program B
returns a >>= f = f a
run c k >>= f = run c (λ r. k r >>= f)

-- A run: the result and the commands in their order. The reply of command number `n` is `w n`.
abbrev pub execute {ℓ} : {A : Type ℓ} → (ℕ → Reply) → ℕ → Program A → A × List Command
execute w n (returns a) = (a, [])
execute w n (run c k) = let r = execute w (suc n) (k (w n)) in (r.0, c ∷ r.1)

-- The errors that the methods make, with what they wrap.
pub data Failure : Type 0 where
  -- `%w (stderr: %s)`
  exec_error : Bytes → Bytes → Failure
  -- `getting MainPID: …`, `service has no MainPID`, `sending signal %s to PID %s: %w`
  main_pid_error : Bytes → Bytes → Failure
  no_main_pid : Failure
  signal_error : Bytes → Bytes → Bytes → Failure
  -- `getting ExecStart: …`, `no ExecStart command found for service`, `running service once: %w`
  exec_start_error : Bytes → Bytes → Failure
  no_exec_start : Failure
  once_error : Bytes → Failure
  -- `unsupported operation: %v`
  unsupported_operation : Operation → Failure
