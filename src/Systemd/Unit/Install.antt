-- ===== src/Systemd/Unit/Install.antt =====
-- systemd_builder.go: the builder, and the commands that install, enable and remove its unit.
use mathlib.Core.Option
use go_runit.Common.{
  ℕ, suc, Bool, not, ◌⊎◌, inl, inr, Option, none, some, List, [], ◌∷◌, ◌++◌, ◌==◌, if◌then◌else◌,
}
use go_runit.Common.Int.{pos}
use go_runit.Common.Text.{codes, is_empty}
use go_runit.Common.Text.Path.{join_path}
use go_runit.Wire.{Bytes}
use go_runit.Builder.Config.{ServiceBuilderConfig}
use go_runit.Systemd.{ClientSystemd, systemctl_verb}
use go_runit.Systemd.Exec.{Command, Reply, Program, returns, run}
use go_runit.Systemd.Unit.{UnitError, build_systemd_unit}

-- The builder, with the value of the configuration it is for.
pub record BuilderSystemd : Type 0 where
  pub config : ServiceBuilderConfig
  pub use_sudo : Bool
  pub sudo_command : Bytes
  pub unit_dir : Bytes
  pub systemctl_path : Bytes

-- `NewBuilderSystemd`, for the effective user.
abbrev pub new_builder_systemd : ℕ → ServiceBuilderConfig → BuilderSystemd
new_builder_systemd euid config = record {
  config = config;
  use_sudo = not (euid == 0);
  sudo_command = codes "sudo";
  unit_dir = codes "/etc/systemd/system";
  systemctl_path = codes "systemctl";
}

-- `WithSudo` and `WithUnitDir`
abbrev pub builder_with_sudo : Bool → Bytes → BuilderSystemd → BuilderSystemd
builder_with_sudo use_it command b = record b {
  use_sudo = use_it;
  sudo_command = if not (is_empty command) then command else b.sudo_command;
}

abbrev pub with_unit_dir : Bytes → BuilderSystemd → BuilderSystemd
with_unit_dir dir b = record b { unit_dir = dir }

-- What the builder has done: a command, a command with a text for its input, or
-- `renameio.WriteFile`, which is third-party code.
pub data Effect : Type 0 where
  ran : Command → Effect
  fed : Command → Bytes → Effect
  wrote : Bytes → Bytes → ℕ → Effect

-- A program of effects. The two outputs of a command go to one buffer, the `stdout` of its reply.
pub data Procedure {ℓ} (A : Type ℓ) : Type ℓ where
  done : A → Procedure A
  doing : Effect → (Reply → Procedure A) → Procedure A

infixl 5 ◌>>=◌
abbrev pub ◌>>=◌ {ℓ κ} : {A : Type ℓ} {B : Type κ} → Procedure A → (A → Procedure B) → Procedure B
done a >>= f = f a
doing a k >>= f = doing a (λ r. k r >>= f)

-- A run, with its effects in their order. The reply to effect number `n` is `w n`.
abbrev pub carry_out {ℓ} : {A : Type ℓ} → (ℕ → Reply) → ℕ → Procedure A → A × List Effect
carry_out w n (done a) = (a, [])
carry_out w n (doing a k) = let r = carry_out w (suc n) (k (w n)) in (r.0, a ∷ r.1)

-- A program of the client.
abbrev pub task_of {ℓ} : {A : Type ℓ} → Program A → Procedure A
task_of (returns a) = done a
task_of (run c k) = doing (ran c) (λ r. task_of (k r))

pub data InstallError : Type 0 where
  generating_unit : UnitError → InstallError
  -- `writing unit file: %w`, of `renameio.WriteFile` or of `sudo tee`
  writing_failed : Bytes → InstallError
  tee_failed : Bytes → Bytes → InstallError
  -- `reloading systemd: %w`, `enable failed: %w (output: %s)`, `removing unit file: %w`
  reload_failed : Bytes → Bytes → InstallError
  enable_failed : Bytes → Bytes → InstallError
  removing_failed : Bytes → InstallError

abbrev privileged : BuilderSystemd → Command → Command
privileged b argv = if b.use_sudo then b.sudo_command ∷ argv else argv

abbrev pub service_unit : BuilderSystemd → Bytes
service_unit b = b.config.name ++ codes ".service"

abbrev pub unit_path : BuilderSystemd → Bytes
unit_path b = join_path b.unit_dir (service_unit b)

-- Has one effect, and fails with what `failed` makes of its reply.
abbrev attempt : Effect → (Bytes → Reply → InstallError) → Procedure (Option InstallError)
attempt a failed = doing a (λ r. done (Option.map (λ e. failed e r) r.error))

abbrev pub write_unit_file : BuilderSystemd → Bytes → Bytes → Procedure (Option InstallError)
write_unit_file b path content =
    if not b.use_sudo
    then attempt (wrote path content 420) (λ e r. writing_failed e)
    else attempt (fed (b.sudo_command ∷ codes "tee" ∷ path ∷ []) content)
        (λ e r. tee_failed e r.stdout)

abbrev pub reload_systemd : BuilderSystemd → Procedure (Option InstallError)
reload_systemd b =
    attempt (ran (privileged b (b.systemctl_path ∷ codes "daemon-reload" ∷ [])))
      (λ e r. reload_failed e r.stdout)

-- `if err != nil { return err }`
abbrev pub unless_failed :
    Option InstallError → Procedure (Option InstallError) → Procedure (Option InstallError)
unless_failed (some e) rest = done (some e)
unless_failed none rest = rest

abbrev pub install : BuilderSystemd → UnitError ⊎ Bytes → Procedure (Option InstallError)
install b (inl e) = done (some (generating_unit e))
install b (inr content) = do
  written ← write_unit_file b (unit_path b) content
  unless_failed written (reload_systemd b)

-- `BuildWithContext`, and `Build`
unfoldable pub build_with_context : BuilderSystemd → Procedure (Option InstallError)
build_with_context b = install b (build_systemd_unit b.config)

unfoldable pub enable : BuilderSystemd → Procedure (Option InstallError)
enable b =
    attempt (ran (privileged b (b.systemctl_path ∷ codes "enable" ∷ service_unit b ∷ [])))
      (λ e r. enable_failed e r.stdout)

-- The client of `Remove`.
abbrev client_of : BuilderSystemd → ClientSystemd
client_of b = record {
  service_name = b.config.name;
  use_sudo = b.use_sudo;
  sudo_command = b.sudo_command;
  systemctl_path = b.systemctl_path;
  timeout = pos 0;
  watch_interval = pos 0;
}

unfoldable pub remove : BuilderSystemd → Procedure (Option InstallError)
remove b = do
  stopped ← task_of (systemctl_verb (client_of b) (codes "stop"))
  disabled ←
      doing (ran (privileged b (b.systemctl_path ∷ codes "disable" ∷ service_unit b ∷ [])))
        (λ r. done r.error)
  removed ←
      attempt (ran (privileged b (codes "rm" ∷ codes "-f" ∷ unit_path b ∷ [])))
        (λ e r. removing_failed e)
  unless_failed removed (reload_systemd b)
