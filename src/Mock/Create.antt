-- ===== src/Mock/Create.antt =====
-- test_mock_supervisor.go: `Cleanup` and `CreateMockService`, with `os.RemoveAll` as a parameter, and
-- what the status file of a new service holds.
use go_runit.Common.{
  ℕ, ◌≡◌, ◌∙◌, ◌⊎◌, inl, inr, refl, not, ◌&&◌, false, Option, none, some, [], ◌∷◌, ◌++◌, ◌==◌,
  if◌then◌else◌,
}
use go_runit.Common.Text.{codes, equal, is_empty}
use go_runit.Common.Text.Path.{clean}
use go_runit.Service.{ServiceType, ServiceConfig}
use go_runit.Wire.{Bytes}
use go_runit.Builder.Config.{ServiceBuilderConfig}
use go_runit.Builder.Store.{words, new_service_builder_with_config, value}
use go_runit.Builder.Build.{FileSystem, BuildError, build}
use go_runit.Builder.Build.Files.{IsFileSystem}
use go_runit.Mock.Make.{
  creating_supervise_dir, making_directory, creating_status_file, creating_control_file,
  MockSupervisor, MockError, initial_status, mock_step, mock_supervisor,
  new_mock_supervisor_with_type,
}

-- The path up to its last separator, and `filepath.Dir`.
abbrev up_to_slash : Bytes → Bytes
up_to_slash [] = []
up_to_slash (c ∷ cs) =
    let rest = up_to_slash cs in if is_empty rest && not (c == b'/') then [] else c ∷ rest

abbrev pub dir_path : Bytes → Bytes
dir_path p = clean (up_to_slash p)

abbrev pub Remover {ℓ} : Type ℓ → Type ℓ
Remover S = Bytes → S → Option Bytes × S

-- `Cleanup`
abbrev pub cleanup {ℓ} : {S : Type ℓ} → Remover S → MockSupervisor → S → Option Bytes × S
cleanup remove_all m s = remove_all m.supervise_dir s

-- The function that `CreateMockService` returns, whose calls drop their errors.
abbrev pub cleanup_service {ℓ} : {S : Type ℓ} → Remover S → Bytes → MockSupervisor → S → S
cleanup_service remove_all dir m s = (remove_all dir (cleanup remove_all m s).1).1

-- The returns of `CreateMockService`. A nil configuration is read by `NewServiceBuilderWithConfig`
-- before it is tested, and panics.
pub data Created : Type 0 where
  not_built : BuildError → Created
  not_mocked : MockError → Created
  created : Bytes → MockSupervisor → Created
  panicked : Created

abbrev pub mock_dir : Bytes → Bytes
mock_dir name = codes "/tmp/test-services/" ++ name

-- The value of the builder: the command is the one slice of the heap.
abbrev pub mock_config : Bytes → ServiceConfig → ServiceBuilderConfig
mock_config name config =
    let c = new_service_builder_with_config name (dir_path (mock_dir name)) config in
    value
      (λ p. words (
        codes "/bin/sh"
        ∷ codes "-c"
        ∷ codes "while true; do echo 'Mock service'; sleep 2; done"
        ∷ []))
      (record c { cmd = some 0 })

abbrev pub with_mock {ℓ} :
    {S : Type ℓ} → Remover S → Bytes → (MockError ⊎ MockSupervisor) × S → Created × S
with_mock remove_all dir (inl e, s) = (not_mocked e, (remove_all dir s).1)
with_mock remove_all dir (inr m, s) = (created dir m, s)

abbrev pub with_build {ℓ} : {S : Type ℓ} → Option BuildError × S → (S → Created × S) → Created × S
with_build (some e, s) rest = (not_built e, s)
with_build (none, s) rest = rest s

unfoldable pub create_mock_service {ℓ} :
    {S : Type ℓ} → FileSystem S → Remover S → Bytes → Option ServiceConfig → ℕ → S → Created × S
create_mock_service fs remove_all name none sec s = (panicked, s)
create_mock_service fs remove_all name (some config) sec s =
    with_build (build fs (mock_config name config) s) (λ s1.
      with_mock remove_all (mock_dir name)
        (new_mock_supervisor_with_type fs (mock_dir name) config.type sec s1))

-- A mock that was made is that of the directory and the type.
abbrev Shows {ℓ} :
    {S : Type ℓ}
    → (Bytes → S → Option Bytes)
    → Bytes
    → ServiceType
    → ℕ
    → (MockError ⊎ MockSupervisor) × S
    → Type 0
Shows read dir t sec (inl e, s) = Unit
Shows read dir t sec (inr m, s) =
    (m ≡ mock_supervisor dir t)
    × (read (mock_supervisor dir t).status_file s ≡ some (initial_status t sec))

module _ {ℓ} {S : Type ℓ} (fs : FileSystem S) (read : Bytes → S → Option Bytes)
    (laws : IsFileSystem fs read) (dir : Bytes) (t : ServiceType) (sec : ℕ) where
  step-Shows :
      (failed : Bytes → MockError) (r : Option Bytes × S)
      (rest : S → (MockError ⊎ MockSupervisor) × S)
      → (r.0 ≡ none → Shows read dir t sec (rest r.1))
      → Shows read dir t sec (mock_step failed r rest)
  step-Shows failed (some e, s) rest h = tt
  step-Shows failed (none, s) rest h = h refl

  -- After `NewMockSupervisorWithType` has returned a mock, its status file is the initial one.
  pub new_mock-Shows :
      (s : S)
      → equal (mock_supervisor dir t).status_file (mock_supervisor dir t).control_file ≡ false
      → Shows read dir t sec (new_mock_supervisor_with_type fs dir t sec s)
  unfolding new_mock_supervisor_with_type
  new_mock-Shows s apart =
      let m = mock_supervisor dir t in
      let made : S → (MockError ⊎ MockSupervisor) × S = λ x. (inr m, x) in
      let control : S → (MockError ⊎ MockSupervisor) × S =
        λ x. mock_step creating_control_file (fs.write_file m.control_file [] 420 x) made in
      let status : S → (MockError ⊎ MockSupervisor) × S = λ x.
        mock_step creating_status_file (fs.write_file m.status_file (initial_status t sec) 420 x)
          control in
      let again : S → (MockError ⊎ MockSupervisor) × S =
        λ x. mock_step making_directory (fs.mkdir_all m.supervise_dir 493 x) status in
      let s1 = fs.mkdir_all m.supervise_dir 493 s in
      let s2 = fs.mkdir_all m.supervise_dir 493 s1.1 in
      let s3 = fs.write_file m.status_file (initial_status t sec) 420 s2.1 in
      let s4 = fs.write_file m.control_file [] 420 s3.1 in
      step-Shows creating_supervise_dir s1 again (λ e1. step-Shows making_directory s2 status (λ e2.
        step-Shows creating_status_file s3 control (λ e3.
          step-Shows creating_control_file s4 made (λ e4. (
            refl,
            laws.elsewhere m.control_file [] 420 s3.1 m.status_file apart
                ∙ laws.written m.status_file (initial_status t sec) 420 s2.1 e3,
          )))))
