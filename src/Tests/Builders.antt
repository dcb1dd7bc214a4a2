-- ===== src/Tests/Builders.antt =====
-- A builder with a command, an environment and a log, and the theorems at it.
use go_runit.Builder.Store.Chain.{
  IsRefined, builder_calls, one_call, no_call, builder_chain-IsRefined,
}
use go_runit.Builder.Store.{
  BuilderCall, with_cmd, words_at, builder_call, Heap, words, ConfigObject, new_service_builder,
  with_env, clone, value,
}
use go_runit.Builder.Store.Refine.{means_cmd, means_env}
use go_runit.Common.{arith, ◌≡◌, refl, Option, none, some, List, [], ◌∷◌, ◌++◌, if◌then◌else◌, inr}
use go_runit.Builder.Scripts.{
  chpst_args, run_prefix, build_run_script, join_lines, stderr_line, umask_line, cwd_line,
}
use go_runit.Common.Int.{pos}
use go_runit.Common.Text.{codes, equal, split}
use go_runit.Common.Text.Path.{join_path, clean, walk, path_text}
use go_runit.Common.Text.Lines.{equal_refl, lacks, lacks-Lacks}
use go_runit.Wire.{Bytes}
use go_runit.Builder.Config.{empty_chpst, put_env, default_svlogd, ServiceBuilderConfig}
use go_runit.Builder.Store.Frame.{IsIn}
use go_runit.Builder.Store.Snapshot.{HeapEvent, called, wrote, run_events, AreOutside, clone-keeps}
use go_runit.Builder.Scripts.ReadBack.{ArePlain, build_run_script_lem}
use go_runit.Builder.Line.{read_line}
use go_runit.Builder.{join_words, shell_quote, needs_shell_quoting, contains_rune, replace_quotes}
use go_runit.Common.Text.Decimal.{format_int, format_mode}
use go_runit.Builder.Build.{perform, env_steps, FileSystem, build, service_dir}
use go_runit.Builder.Build.Files.{
  env_files, IsFileSystem, AreDistinct, Hold, service_files, build-files,
}
use go_runit.Systemd.Unit.{build_systemd_unit}
use go_runit.Systemd.Unit.Reader.{read_unit}
use go_runit.Systemd.Unit.Words.{IsCommand}
use go_runit.Systemd.Unit.Fields.{Pairs, sections, IsService}
use go_runit.Systemd.Unit.OneLine.{IsOneLine}
use go_runit.Systemd.Unit.ReadBack.{AllEntries, build_systemd_unit-IsRead}

-- The command is the slice at address 0.
abbrev one_slice : Heap
one_slice = record { next = 1; cell = λ p. words (codes "httpd" ∷ []) }

abbrev web_builder : ConfigObject
web_builder = record (new_service_builder (codes "web") (codes "/etc/sv")) { cmd = some 0 }

abbrev further : List HeapEvent
further = called (with_env (codes "PORT") (codes "80")) ∷ wrote 0 (words []) ∷ []

web_builder-IsIn : IsIn 0 1 one_slice.cell web_builder
web_builder-IsIn = record {
  cmd = (omega arith, omega arith);
  finish = tt;
  env = tt;
  chpst = tt;
  svlogd = tt;
}

-- The clone is the cell 1.
further-AreOutside : AreOutside 1 (clone web_builder one_slice).1.next further
unfolding clone
further-AreOutside = ((λ q. absurd (omega (arith, q))), tt)

clone-keeps_example :
    value
      (run_events further ((clone web_builder one_slice).1, web_builder)).0.cell
      (clone web_builder one_slice).0
    ≡ value one_slice.cell web_builder
clone-keeps_example =
    (clone-keeps web_builder one_slice further web_builder-IsIn).0 further-AreOutside

abbrev chain : List BuilderCall
chain = with_cmd (some 0) ∷ with_env (codes "PORT") (codes "80") ∷ []

builder_chain-IsRefined_example :
    IsRefined
      (builder_calls chain (one_slice, new_service_builder (codes "web") (codes "/etc/sv")))
      (record (value one_slice.cell (new_service_builder (codes "web") (codes "/etc/sv"))) {
        cmd = words_at one_slice.cell (some 0);
        env = (codes "PORT", codes "80") ∷ [];
      })
unfolding put_env builder_call
builder_chain-IsRefined_example =
    builder_chain-IsRefined one_slice (codes "web") (codes "/etc/sv") chain _ (
      one_call (means_cmd (some 0) (omega arith, refl))
        (one_call (means_env (codes "PORT") (codes "80")) no_call))

abbrev web_config : ServiceBuilderConfig
web_config = record {
  name = codes "web";
  dir = codes "/etc/sv";
  cmd = codes "httpd" ∷ codes "-c" ∷ codes "a b" ∷ [];
  cwd = codes "/srv";
  umask = 18;
  env = (codes "PORT", codes "80") ∷ (codes "HOST", codes "::") ∷ [];
  chpst = some (record empty_chpst { user = codes "www"; nice = pos 5 });
  svlogd = some (default_svlogd []);
  finish = codes "rm" ∷ codes "pid" ∷ [];
  stderr_path = [];
  chpst_path = codes "chpst";
  svlogd_path = codes "svlogd";
}

build_run_script_web :
    build_run_script web_config
    ≡ codes "#!/bin/sh"
      ++ 10 ∷ codes "exec 2>&1"
      ++ 10 ∷ codes "umask 0022"
      ++ 10 ∷ codes "cd /srv"
      ++ 10 ∷ codes "exec chpst -e ./env chpst -u www -n 5 httpd -c 'a b'"
      ++ 10 ∷ []
unfolding build_run_script join_lines join_words shell_quote chpst_args format_mode format_int
    needs_shell_quoting contains_rune replace_quotes
build_run_script_web = refl

web_prefix-ArePlain : ArePlain (run_prefix web_config)
unfolding chpst_args format_int needs_shell_quoting contains_rune
web_prefix-ArePlain = (
  (λ e. cc),
  refl,
  (λ e. omega (arith, e)),
  (
    (λ e. cc),
    refl,
    (λ e. omega (arith, e)),
    (
      (λ e. cc),
      refl,
      (λ e. omega (arith, e)),
      (
        (λ e. cc),
        refl,
        (λ e. omega (arith, e)),
        (
          (λ e. cc),
          refl,
          (λ e. omega (arith, e)),
          (
            (λ e. cc),
            refl,
            (λ e. omega (arith, e)),
            (
              (λ e. cc),
              refl,
              (λ e. omega (arith, e)),
              ((λ e. cc), refl, (λ e. omega (arith, e)), tt),
            ),
          ),
        ),
      ),
    ),
  ),
)

build_run_script_lem_example :
    (t : Bytes) × (build_run_script web_config
      ≡ join_lines (
          codes "#!/bin/sh"
          ∷ stderr_line web_config
          ∷ (umask_line web_config ++ cwd_line web_config))
        ++ (codes "exec " ++ t ++ 10 ∷ []))
    × (read_line t ≡ some (run_prefix web_config ++ web_config.cmd))
build_run_script_lem_example =
    build_run_script_lem web_config web_prefix-ArePlain
      ((λ e. omega (arith, e)), ((λ e. omega (arith, e)), ((λ e. omega (arith, e)), tt))) (λ e. cc)

-- A file system that keeps every text that is written.
abbrev Disk : Type 0
Disk = List (Bytes × Bytes)

abbrev disk_read : Bytes → Disk → Option Bytes
disk_read q [] = none
disk_read q ((p, text) ∷ d) = if equal q p then some text else disk_read q d

abbrev disk : FileSystem Disk
disk = record { mkdir_all = λ p m d. (none, d); write_file = λ p text m d. (none, (p, text) ∷ d) }

disk-IsFileSystem : IsFileSystem disk disk_read
disk-IsFileSystem = record {
  written = λ p text m s h. rw (equal_refl p) refl;
  elsewhere = λ p text m s q h. rw h refl;
  directory = λ p m s q. refl;
}

web_files-AreDistinct : AreDistinct (service_files (service_dir web_config) web_config)
unfolding service_files join_path clean walk path_text split env_files
web_files-AreDistinct = (
  (refl, (refl, (refl, (refl, tt)))),
  ((refl, (refl, (refl, tt))), ((refl, (refl, tt)), ((refl, tt), (tt, tt)))),
)

built_web : (build disk web_config []).0 ≡ none
unfolding build perform env_steps
built_web = refl

build-files_example :
    Hold disk_read (build disk web_config []).1 (service_files (service_dir web_config) web_config)
build-files_example =
    (build-files disk disk_read web_config [] disk-IsFileSystem).1 web_files-AreDistinct built_web

web_config-IsOneLine : IsOneLine web_config
unfolding lacks
web_config-IsOneLine = record {
  name = lacks-Lacks 10 (codes "web") refl;
  chpst = (lacks-Lacks 10 (codes "www") refl, tt, tt);
  cwd = lacks-Lacks 10 (codes "/srv") refl;
  env = (
    (lacks-Lacks 10 (codes "PORT") refl, lacks-Lacks 10 (codes "80") refl),
    ((lacks-Lacks 10 (codes "HOST") refl, lacks-Lacks 10 (codes "::") refl), tt),
  );
  svlogd = tt;
  stderr_path = tt;
}

web_cmd-IsCommand : IsCommand web_config.cmd
unfolding contains_rune
web_cmd-IsCommand = (
  (λ e. cc),
  (
    refl,
    refl,
    refl,
    (refl, refl, refl, (refl, refl, refl, (refl, refl, refl, (refl, refl, refl, tt)))),
  ),
  (((λ e. cc), refl), (((λ e. cc), refl), tt)),
)

web_finish-IsCommand : IsCommand web_config.finish
unfolding contains_rune
web_finish-IsCommand =
    ((λ e. cc), (refl, refl, refl, (refl, refl, refl, tt)), (((λ e. cc), refl), tt))

web_env-AllEntries : AllEntries web_config.env
unfolding contains_rune
web_env-AllEntries = ((((refl, refl), refl)), ((((refl, refl), refl)), tt))

build_systemd_unit-IsRead_example :
    (t : Bytes) × (ps : Pairs) × (build_systemd_unit web_config ≡ inr t)
    × (sections (read_unit t) ≡ (
      [],
      (
        codes "Unit",
        (codes "Description", codes "web service") ∷ (codes "After", codes "network.target") ∷ [],
      )
          ∷ (codes "Service", ps)
          ∷ (codes "Install", (codes "WantedBy", codes "multi-user.target") ∷ [])
          ∷ [],
    ))
    × IsService web_config ps
build_systemd_unit-IsRead_example =
    build_systemd_unit-IsRead web_config (codes "httpd") (codes "-c" ∷ codes "a b" ∷ []) refl
      web_cmd-IsCommand web_finish-IsCommand web_env-AllEntries web_config-IsOneLine
