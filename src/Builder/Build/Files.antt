-- ===== src/Builder/Build/Files.antt =====
-- The files that `Build` leaves.
use go_runit.Builder.Build.{
  has_no_words, Stage, BuildError, FileSystem, Action, make_directory, write_text, go_on, perform,
  env_steps, env_part, finish_part, log_part, run_part, steps_in, service_dir, build,
}
use go_runit.Common.{
  ℕ, ◌≡◌, ◌∙◌, refl, Option, none, some, inl, inr, List, [], ◌∷◌, ◌++◌, false, Bool-cases,
}
use go_runit.Common.Text.{codes, equal, is_empty}
use go_runit.Common.Text.Path.{join_path}
use go_runit.Wire.{Bytes}
use go_runit.Builder.{build_finish_script}
use go_runit.Builder.Scripts.{build_run_script, build_log_run_script}
use go_runit.Builder.Config.{ConfigSvlogd, EnvMap, ServiceBuilderConfig}

-- What the file system promises of the files that it reads back: a file that was written has the new
-- text, and neither a write that fails nor a new directory changes a file of another path.
pub record IsFileSystem {ℓ} {S : Type ℓ} (fs : FileSystem S) (read : Bytes → S → Option Bytes)
    : Type ℓ where
  pub written :
      (p text : Bytes) (m : ℕ) (s : S)
      → (fs.write_file p text m s).0 ≡ none
      → read p (fs.write_file p text m s).1 ≡ some text
  pub elsewhere :
      (p text : Bytes) (m : ℕ) (s : S) (q : Bytes)
      → equal q p ≡ false
      → read q (fs.write_file p text m s).1 ≡ read q s
  pub directory : (p : Bytes) (m : ℕ) (s : S) (q : Bytes) → read q (fs.mkdir_all p m s).1 ≡ read q s

-- Paths with their texts.
abbrev pub NotAmong : Bytes → List (Bytes × Bytes) → Type 0
NotAmong q [] = Unit
NotAmong q ((p, text) ∷ files) = (equal q p ≡ false) × NotAmong q files

abbrev pub AreDistinct : List (Bytes × Bytes) → Type 0
AreDistinct [] = Unit
AreDistinct ((p, text) ∷ files) = NotAmong p files × AreDistinct files

abbrev pub Hold {ℓ} : {S : Type ℓ} → (Bytes → S → Option Bytes) → S → List (Bytes × Bytes) → Type 0
Hold read s [] = Unit
Hold read s ((p, text) ∷ files) = (read p s ≡ some text) × Hold read s files

files_of : List (Stage × Action) → List (Bytes × Bytes)
files_of [] = []
files_of ((g, make_directory p) ∷ steps) = files_of steps
files_of ((g, write_text p text mode) ∷ steps) = (p, text) ∷ files_of steps

module _ {ℓ} {S : Type ℓ} (fs : FileSystem S) (read : Bytes → S → Option Bytes)
    (laws : IsFileSystem fs read) where
  go_on-read :
      (g : Stage) (r : Option Bytes × S) (rest : S → Option BuildError × S) (q : Bytes)
      → read q (rest r.1).1 ≡ read q r.1
      → read q (go_on g r rest).1 ≡ read q r.1
  go_on-read g (none, s) rest q h = h
  go_on-read g (some e, s) rest q h = refl

  perform-elsewhere :
      (steps : List (Stage × Action)) (s : S) (q : Bytes)
      → NotAmong q (files_of steps)
      → read q (perform fs steps s).1 ≡ read q s
  unfolding perform files_of
  perform-elsewhere [] s q h = refl
  perform-elsewhere ((g, make_directory p) ∷ steps) s q h =
      go_on-read g (fs.mkdir_all p 493 s) (perform fs steps) q (perform-elsewhere steps _ q h)
      ∙ laws.directory p 493 s q
  perform-elsewhere ((g, write_text p text m) ∷ steps) s q h =
      go_on-read g (fs.write_file p text m s) (perform fs steps) q (perform-elsewhere steps _ q h.1)
      ∙ laws.elsewhere p text m s q h.0

  -- A sequence that ends without an error has gone on after its first step.
  go_on-none :
      (g : Stage) (r : Option Bytes × S) (rest : S → Option BuildError × S)
      → (go_on g r rest).0 ≡ none
      → (r.0 ≡ none) × (go_on g r rest ≡ rest r.1)
  go_on-none g (none, s) rest h = (refl, refl)
  go_on-none g (some e, s) rest h = absurd (cc)

  Hold-eq :
      (files : List (Bytes × Bytes)) (a b : Option BuildError × S)
      → a ≡ b
      → Hold read b.1 files
      → Hold read a.1 files
  Hold-eq files a b e h = rw e h

  perform-Hold :
      (steps : List (Stage × Action)) (s : S)
      → AreDistinct (files_of steps)
      → (perform fs steps s).0 ≡ none
      → Hold read (perform fs steps s).1 (files_of steps)
  unfolding perform files_of
  perform-Hold [] s d h = tt
  perform-Hold ((g, make_directory p) ∷ steps) s d h =
      let e = go_on-none g (fs.mkdir_all p 493 s) (perform fs steps) h in
      rw e.1 (perform-Hold steps (fs.mkdir_all p 493 s).1 d (rw e.1 at h))
  perform-Hold ((g, write_text p text m) ∷ steps) s d h =
      let e = go_on-none g (fs.write_file p text m s) (perform fs steps) h in
      let next = (fs.write_file p text m s).1 in
      (
        rw e.1 (perform-elsewhere steps next p d.0 ∙ laws.written p text m s e.0),
        Hold-eq (files_of steps) _ (perform fs steps next) e.1
            (perform-Hold steps next d.1 (rw e.1 at h)),
      )

files_of-append : (a b : List (Stage × Action)) → files_of (a ++ b) ≡ files_of a ++ files_of b
unfolding files_of
files_of-append [] b = refl
files_of-append ((g, make_directory p) ∷ a) b = files_of-append a b
files_of-append ((g, write_text p text m) ∷ a) b = rw (files_of-append a b) refl

-- The files of a service in the directory `dir`.
unfoldable pub env_files : Bytes → EnvMap → List (Bytes × Bytes)
env_files env_dir [] = []
env_files env_dir ((k, v) ∷ env) = (join_path env_dir k, v) ∷ env_files env_dir env

abbrev pub finish_files : Bytes → List Bytes → List (Bytes × Bytes)
finish_files dir [] = []
finish_files dir (w ∷ ws) = (join_path dir (codes "finish"), build_finish_script (w ∷ ws)) ∷ []

abbrev pub log_files : Bytes → Bytes → Option (ConfigSvlogd (List Bytes)) → List (Bytes × Bytes)
log_files dir path none = []
log_files dir path (some l) =
    (join_path (join_path dir (codes "log")) (codes "run"), build_log_run_script path l) ∷ []

unfoldable pub service_files : Bytes → ServiceBuilderConfig → List (Bytes × Bytes)
service_files dir c =
    env_files (join_path dir (codes "env")) c.env
    ++ ((join_path dir (codes "run"), build_run_script c)
        ∷ (finish_files dir c.finish ++ log_files dir c.svlogd_path c.svlogd))

files_of-env_steps : (d : Bytes) (env : EnvMap) → files_of (env_steps d env) ≡ env_files d env
unfolding files_of env_steps env_files
files_of-env_steps d [] = refl
files_of-env_steps d ((k, v) ∷ env) = rw (files_of-env_steps d env) refl

files_of-env_part :
    (dir : Bytes) (env : EnvMap)
    → files_of (env_part dir env) ≡ env_files (join_path dir (codes "env")) env
unfolding files_of env_files
files_of-env_part dir [] = refl
files_of-env_part dir (e ∷ env) = files_of-env_steps (join_path dir (codes "env")) (e ∷ env)

files_of-finish_part :
    (dir : Bytes) (ws : List Bytes) → files_of (finish_part dir ws) ≡ finish_files dir ws
unfolding files_of
files_of-finish_part dir [] = refl
files_of-finish_part dir (w ∷ ws) = refl

files_of-log_part :
    (dir path : Bytes) (l : Option (ConfigSvlogd (List Bytes)))
    → files_of (log_part dir path l) ≡ log_files dir path l
unfolding files_of
files_of-log_part dir path none = refl
files_of-log_part dir path (some l) = refl

files_of-steps_in :
    (dir : Bytes) (c : ServiceBuilderConfig) → files_of (steps_in dir c) ≡ service_files dir c
unfolding files_of service_files
files_of-steps_in dir c =
    rw
      (
        files_of-append (env_part dir c.env)
            (run_part dir c ∷ (finish_part dir c.finish ++ log_part dir c.svlogd_path c.svlogd)),
        files_of-env_part dir c.env,
        files_of-append (finish_part dir c.finish) (log_part dir c.svlogd_path c.svlogd),
        files_of-finish_part dir c.finish,
        files_of-log_part dir c.svlogd_path c.svlogd,
      )
      refl

-- The file system keeps its promises. Whatever `Build` returns, it has changed no file but the
-- environment files, the run script, and the finish and log scripts that the configuration asks for. When
-- the paths of these are distinct and `Build` returns nil, each of them has its text.
pub build-files {ℓ} :
    {S : Type ℓ} (fs : FileSystem S) (read : Bytes → S → Option Bytes) (c : ServiceBuilderConfig)
    (s : S)
    → IsFileSystem fs read
    → ((q : Bytes)
        → NotAmong q (service_files (service_dir c) c)
        → read q (build fs c s).1 ≡ read q s)
      × (AreDistinct (service_files (service_dir c) c)
          → (build fs c s).0 ≡ none
          → Hold read (build fs c s).1 (service_files (service_dir c) c))
unfolding build
build-files fs read c s laws = elim (Bool-cases (is_empty c.dir)) [
  | inl e ↦ rw e (λ q h. refl, λ d n. absurd cc)
  | inr e ↦ elim (Bool-cases (has_no_words c.cmd)) [
    | inl n ↦ rw (e, n) (λ q h. refl, λ d n. absurd cc)
    | inr n ↦
        let steps = steps_in (service_dir c) c in
        let files = files_of-steps_in (service_dir c) c in
        rw (e, n)
          (
            λ q h. perform-elsewhere fs read laws steps s q (rw files h),
            λ d r. rw files at (perform-Hold fs read laws steps s (rw files d) r),
          )
  ]
]
