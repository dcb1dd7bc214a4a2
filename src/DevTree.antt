-- ===== src/DevTree.antt =====
-- devtree.go: a development tree, whose methods are programs of system calls.
pub mod Logs
pub mod Processes
pub mod Stopping
use go_runit.Defaults.{default_runsvdir_path}
use go_runit.Common.{
  ℕ, suc, Bool, not, Option, none, some, List, [], ◌∷◌, ◌⊎◌, inl, inr, if◌then◌else◌,
}
use go_runit.Common.Int.{ℤ}
use go_runit.Common.Text.{codes}
use go_runit.Common.Text.Decimal.{format_int, atoi}
use go_runit.Common.Text.Path.{join_path}
use go_runit.Wire.{Bytes}

pub record DevTree : Type 0 where
  pub base : Bytes
  pub runsvdir_path : Bytes

-- `DevTreeOption`, which `WithRunsvdirPath` makes.
pub data DevTreeOption : Type 0 where
  with_runsvdir_path : Bytes → DevTreeOption

abbrev apply_option : DevTreeOption → DevTree → DevTree
apply_option (with_runsvdir_path path) d = record d { runsvdir_path = path }

abbrev apply_all : List DevTreeOption → DevTree → DevTree
apply_all [] d = d
apply_all (o ∷ os) d = apply_all os (apply_option o d)

-- The calls to `os` and `renameio`, for directories of the mode `DirMode` and files of `FileMode`. The
-- null signal is `Signal(nil)`.
pub data ProcessSignal : Type 0 where
  null_signal interrupt_signal kill_signal : ProcessSignal

pub data Request : Type 0 where
  mkdir_all : Bytes → Request
  read_file : Bytes → Request
  find_process : ℤ → Request
  signal_process : ℤ → ProcessSignal → Request
  start_process : List Bytes → Bytes → Request
  write_file : Bytes → Bytes → Request
  stat : Bytes → Request
  remove_file : Bytes → Request
  symlink : Bytes → Bytes → Request

-- The text of the error, if there is one, whether `os.IsNotExist` holds of it, and what was read or
-- started.
pub record Answer : Type 0 where
  pub error : Option Bytes
  pub is_not_exist : Bool
  pub data_read : Bytes
  pub pid : ℤ

pub data SystemProgram {ℓ} (A : Type ℓ) : Type ℓ where
  ends : A → SystemProgram A
  asks : Request → (Answer → SystemProgram A) → SystemProgram A

infixl 5 ◌>>=◌
abbrev pub ◌>>=◌ {ℓ κ} :
    {A : Type ℓ} {B : Type κ} → SystemProgram A → (A → SystemProgram B) → SystemProgram B
ends a >>= f = f a
asks q k >>= f = asks q (λ r. k r >>= f)

-- A run, with its requests in their order. The answer to request number `n` is `w n`.
abbrev pub answered {ℓ} : {A : Type ℓ} → (ℕ → Answer) → ℕ → SystemProgram A → A × List Request
answered w n (ends a) = (a, [])
answered w n (asks q k) = let r = answered w (suc n) (k (w n)) in (r.0, q ∷ r.1)

pub data DevTreeError : Type 0 where
  creating_directory : Bytes → Bytes → DevTreeError
  starting_runsvdir writing_pid_file : Bytes → DevTreeError
  service_not_found : Bytes → Bytes → DevTreeError
  creating_symlink removing_symlink : Bytes → DevTreeError
  reading_pid_file finding_process killing_process : Bytes → DevTreeError
  parsing_pid : DevTreeError

-- `NewDevTree`: `abs` is `filepath.Abs`, with its error or the path.
abbrev pub new_dev_tree : (Bytes → Bytes ⊎ Bytes) → Bytes → List DevTreeOption → Bytes ⊎ DevTree
new_dev_tree abs base opts = elim (abs base) [
  | inl e ↦ inl e
  | inr path ↦ inr (apply_all opts (record { base = path; runsvdir_path = default_runsvdir_path }))
]

abbrev pub services_dir : DevTree → Bytes
services_dir d = join_path d.base (codes "services")

abbrev pub enabled_dir : DevTree → Bytes
enabled_dir d = join_path d.base (codes "enabled")

abbrev pub log_dir : DevTree → Bytes
log_dir d = join_path d.base (codes "log")

abbrev pub pid_file : DevTree → Bytes
pid_file d = join_path d.base (codes "runsvdir.pid")

-- `if err != nil { … }`
abbrev pub on_error :
    Option Bytes
    → (Bytes → SystemProgram (Option DevTreeError))
    → SystemProgram (Option DevTreeError)
    → SystemProgram (Option DevTreeError)
on_error none failed rest = rest
on_error (some e) failed rest = failed e

abbrev pub fails : (Bytes → DevTreeError) → Bytes → SystemProgram (Option DevTreeError)
fails err e = ends (some (err e))

abbrev pub make_all : List Bytes → SystemProgram (Option DevTreeError)
make_all [] = ends none
make_all (dir ∷ dirs) =
    let rest = make_all dirs in
    asks (mkdir_all dir) (λ r. on_error r.error (fails (creating_directory dir)) rest)

unfoldable pub ensure_tree : DevTree → SystemProgram (Option DevTreeError)
ensure_tree d = make_all (services_dir d ∷ enabled_dir d ∷ log_dir d ∷ [])

-- After the start: the PID file, and the process is killed if it cannot be written.
abbrev record_pid : DevTree → ℤ → SystemProgram (Option DevTreeError)
record_pid d pid = asks (write_file (pid_file d) (format_int pid)) (λ r.
    on_error r.error
      (λ e. asks (signal_process pid kill_signal) (λ k. ends (some (writing_pid_file e))))
      (ends none))

abbrev pub start_runsvdir : DevTree → Option DevTreeError → SystemProgram (Option DevTreeError)
start_runsvdir d (some e) = ends (some e)
start_runsvdir d none =
    asks (start_process (d.runsvdir_path ∷ codes "-P" ∷ enabled_dir d ∷ []) d.base)
      (λ r. on_error r.error (fails starting_runsvdir) (record_pid d r.pid))

unfoldable pub launch_runsvdir : DevTree → SystemProgram (Option DevTreeError)
unfolding ensure_tree
launch_runsvdir d = do made ← ensure_tree d; start_runsvdir d made

-- The question whether the process of the PID file runs; where it has no answer, `otherwise` goes on.
abbrev pub if_running :
    SystemProgram (Option DevTreeError) → Option ℤ → SystemProgram (Option DevTreeError)
if_running otherwise none = otherwise
if_running otherwise (some pid) = asks (find_process pid) (λ f.
    on_error f.error (λ e. otherwise)
      (asks (signal_process pid null_signal) (λ s. on_error s.error (λ e. otherwise) (ends none))))

unfoldable pub ensure_runsvdir : DevTree → SystemProgram (Option DevTreeError)
unfolding launch_runsvdir
ensure_runsvdir d = asks (read_file (pid_file d)) (λ r.
    on_error r.error (λ e. launch_runsvdir d) (if_running (launch_runsvdir d) (atoi r.data_read)))

unfoldable pub enable_service : DevTree → Bytes → SystemProgram (Option DevTreeError)
enable_service d name =
    let source = join_path (services_dir d) name in
    let target = join_path (enabled_dir d) name in
    asks (stat source) (λ s. on_error s.error (fails (service_not_found name)) (
      asks (remove_file target) (λ r.
        asks (symlink source target) (λ l. on_error l.error (fails creating_symlink) (ends none)))))

unfoldable pub disable_service : DevTree → Bytes → SystemProgram (Option DevTreeError)
disable_service d name = asks (remove_file (join_path (enabled_dir d) name)) (λ r.
    on_error r.error (λ e. if not r.is_not_exist then fails removing_symlink e else ends none)
      (ends none))

abbrev pub forget_pid : DevTree → SystemProgram (Option DevTreeError)
forget_pid d = asks (remove_file (pid_file d)) (λ r. ends none)

-- An interrupt, and if that fails a kill.
abbrev pub stop_process : DevTree → Option ℤ → SystemProgram (Option DevTreeError)
stop_process d none = ends (some parsing_pid)
stop_process d (some pid) = asks (find_process pid) (λ f. on_error f.error (fails finding_process) (
    asks (signal_process pid interrupt_signal) (λ s.
      on_error s.error
        (λ e.
          asks (signal_process pid kill_signal)
            (λ k. on_error k.error (fails killing_process) (forget_pid d)))
        (forget_pid d))))

unfoldable pub stop_runsvdir : DevTree → SystemProgram (Option DevTreeError)
stop_runsvdir d = asks (read_file (pid_file d)) (λ r.
    on_error r.error (λ e. if r.is_not_exist then ends none else fails reading_pid_file e)
      (stop_process d (atoi r.data_read)))
