-- ===== src/Builder/Build.antt =====
-- service_builder.go: `Build`, the directories and files that it makes, up to the first error.
pub mod Files
use go_runit.Defaults.{dir_mode, file_mode, exec_mode}
use go_runit.Common.{ℕ, Option, none, some, List, [], ◌∷◌, ◌++◌, Bool, true, false, if◌then◌else◌}
use go_runit.Common.Text.{codes, is_empty}
use go_runit.Common.Text.Path.{join_path}
use go_runit.Wire.{Bytes}
use go_runit.Builder.{build_finish_script}
use go_runit.Builder.Scripts.{build_run_script, build_log_run_script}
use go_runit.Builder.Config.{ConfigSvlogd, EnvMap, ServiceBuilderConfig}

-- What the errors of `Build` name.
pub data Stage : Type 0 where
  service_directory env_directory run_file finish_file log_directory log_run_file main_directory :
      Stage
  env_file : Bytes → Stage

pub data BuildError : Type 0 where
  no_directory no_command : BuildError
  stage_error : Stage → Bytes → BuildError

-- The file system: `os.MkdirAll`, and `renameio.WriteFile`, which is third-party code. They return the
-- text of the error, if there is one.
pub record FileSystem {ℓ} (S : Type ℓ) : Type ℓ where
  pub mkdir_all : Bytes → ℕ → S → Option Bytes × S
  pub write_file : Bytes → Bytes → ℕ → S → Option Bytes × S

-- `DirMode` and `ExecMode` are 0o755, `FileMode` is 0o644.
pub data Action : Type 0 where
  make_directory : Bytes → Action
  write_text : Bytes → Bytes → ℕ → Action

abbrev pub act {ℓ} : {S : Type ℓ} → FileSystem S → Action → S → Option Bytes × S
act fs (make_directory p) s = fs.mkdir_all p dir_mode s
act fs (write_text p text mode) s = fs.write_file p text mode s

-- `if err != nil { return fmt.Errorf(…) }`
abbrev pub go_on {ℓ} :
    {S : Type ℓ} → Stage → Option Bytes × S → (S → Option BuildError × S) → Option BuildError × S
go_on stage (some e, s) rest = (some (stage_error stage e), s)
go_on stage (none, s) rest = rest s

unfoldable pub perform {ℓ} :
    {S : Type ℓ} → FileSystem S → List (Stage × Action) → S → Option BuildError × S
perform fs [] s = (none, s)
perform fs ((stage, a) ∷ steps) s = go_on stage (act fs a s) (perform fs steps)

-- The files of the environment, in the order in which `range` visits the map.
unfoldable pub env_steps : Bytes → EnvMap → List (Stage × Action)
env_steps env_dir [] = []
env_steps env_dir ((k, v) ∷ env) =
    (env_file k, write_text (join_path env_dir k) v file_mode) ∷ env_steps env_dir env

abbrev pub env_part : Bytes → EnvMap → List (Stage × Action)
env_part dir [] = []
env_part dir (e ∷ env) =
    let env_dir = join_path dir (codes "env") in
    (env_directory, make_directory env_dir) ∷ env_steps env_dir (e ∷ env)

abbrev pub finish_part : Bytes → List Bytes → List (Stage × Action)
finish_part dir [] = []
finish_part dir (w ∷ ws) =
    (
      finish_file,
      write_text (join_path dir (codes "finish")) (build_finish_script (w ∷ ws)) exec_mode,
    )
    ∷ []

abbrev pub log_part : Bytes → Bytes → Option (ConfigSvlogd (List Bytes)) → List (Stage × Action)
log_part dir path none = []
log_part dir path (some l) =
    let log_dir = join_path dir (codes "log") in
    (log_directory, make_directory log_dir)
    ∷ (
      log_run_file,
      write_text (join_path log_dir (codes "run")) (build_log_run_script path l) exec_mode,
    )
    ∷ (main_directory, make_directory (join_path log_dir (codes "main")))
    ∷ []

abbrev pub run_part : Bytes → ServiceBuilderConfig → Stage × Action
run_part dir c = (run_file, write_text (join_path dir (codes "run")) (build_run_script c) exec_mode)

abbrev pub steps_in : Bytes → ServiceBuilderConfig → List (Stage × Action)
steps_in dir c =
    (service_directory, make_directory dir)
    ∷ (env_part dir c.env
        ++ (run_part dir c ∷ (finish_part dir c.finish ++ log_part dir c.svlogd_path c.svlogd)))

-- `filepath.Join(b.config.Dir, b.config.Name)`
abbrev pub service_dir : ServiceBuilderConfig → Bytes
service_dir c = join_path c.dir c.name

abbrev pub has_no_words {ℓ} : {A : Type ℓ} → List A → Bool
has_no_words [] = true
has_no_words (x ∷ xs) = false

unfoldable pub build {ℓ} :
    {S : Type ℓ} → FileSystem S → ServiceBuilderConfig → S → Option BuildError × S
unfolding perform
build fs c s =
    if is_empty c.dir
    then (some no_directory, s)
    else if has_no_words c.cmd
    then (some no_command, s)
    else perform fs (steps_in (service_dir c) c) s
