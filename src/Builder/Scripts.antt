-- ===== src/Builder/Scripts.antt =====
-- service_builder.go: the argument lists of `chpst` and `svlogd`, and the scripts of a service.
pub mod ReadBack
use go_runit.Common.{
  ℕ, Bool, true, false, not, ◌||◌, Option, none, some, List, [], ◌∷◌, ◌++◌, map, ◌==◌,
  if◌then◌else◌,
}
use go_runit.Common.Int.{ℤ, pos, negsuc}
use go_runit.Common.Text.{codes, equal, is_empty}
use go_runit.Common.Text.Decimal.{format_int, format_mode}
use go_runit.Wire.{Bytes}
use go_runit.Builder.{shell_quote, join_words}
use go_runit.Builder.Config.{ChpstConfig, ConfigSvlogd, EnvMap, ServiceBuilderConfig}

-- `n > 0` and `n != 0`
abbrev pub is_positive : ℤ → Bool
is_positive (pos n) = not (n == 0)
is_positive (negsuc n) = false

abbrev pub is_nonzero : ℤ → Bool
is_nonzero (pos n) = not (n == 0)
is_nonzero (negsuc n) = true

abbrev pub option_word : Bytes → Bytes → List Bytes
option_word flag s = if is_empty s then [] else flag ∷ s ∷ []

abbrev option_limit : Bytes → ℤ → List Bytes
option_limit flag n = if is_positive n then flag ∷ format_int n ∷ [] else []

-- `ChpstConfig.buildArgs`
unfoldable pub chpst_args : ChpstConfig → List Bytes
chpst_args c =
    option_word (codes "-u") c.user
    ++ option_word (codes "-U") c.group
    ++ (if is_nonzero c.nice then codes "-n" ∷ format_int c.nice ∷ [] else [])
    ++ option_limit (codes "-m") c.limit_mem
    ++ option_limit (codes "-o") c.limit_files
    ++ option_limit (codes "-p") c.limit_procs
    ++ option_limit (codes "-t") c.limit_cpu
    ++ option_word (codes "-/") c.root

abbrev setting_number : ℕ → ℤ → List Bytes
setting_number letter n = if is_positive n then (letter ∷ format_int n) ∷ [] else []

abbrev setting_text : ℕ → Bytes → List Bytes
setting_text letter s = if is_empty s then [] else (letter ∷ s) ∷ []

-- `ConfigSvlogd.buildArgs`
unfoldable pub svlogd_args : ConfigSvlogd (List Bytes) → List Bytes
svlogd_args s =
    setting_number b's' s.size
    ++ setting_number b'n' s.num
    ++ setting_number b't' s.timeout
    ++ setting_text b'!' s.processor
    ++ setting_text b'p' s.prefix
    ++ s.config
    ++ codes "." ∷ []

-- `strings.Join(lines, "\n") + "\n"`
unfoldable pub join_lines : List Bytes → Bytes
join_lines [] = []
join_lines (l ∷ ls) = l ++ 10 ∷ join_lines ls

abbrev pub env_words : Bytes → EnvMap → List Bytes
env_words chpst_path [] = []
env_words chpst_path (e ∷ es) =
    if equal chpst_path (codes "s6-setuidgid") || equal chpst_path (codes "s6-envdir")
    then codes "s6-envdir" ∷ codes "./env" ∷ []
    else chpst_path ∷ codes "-e" ∷ codes "./env" ∷ []

abbrev pub chpst_words : Bytes → Option ChpstConfig → List Bytes
chpst_words chpst_path none = []
chpst_words chpst_path (some c) = chpst_path ∷ chpst_args c

-- The words before the command, which are written as they are.
abbrev pub run_prefix : ServiceBuilderConfig → List Bytes
run_prefix c = env_words c.chpst_path c.env ++ chpst_words c.chpst_path c.chpst

abbrev pub stderr_line : ServiceBuilderConfig → Bytes
stderr_line c =
    if is_empty c.stderr_path
    then codes "exec 2>&1"
    else codes "exec 2>" ++ shell_quote c.stderr_path

abbrev pub umask_line : ServiceBuilderConfig → List Bytes
umask_line c = if c.umask == 0 then [] else (codes "umask " ++ format_mode c.umask) ∷ []

abbrev pub cwd_line : ServiceBuilderConfig → List Bytes
cwd_line c = if is_empty c.cwd then [] else (codes "cd " ++ shell_quote c.cwd) ∷ []

-- `buildRunScript`
unfoldable pub build_run_script : ServiceBuilderConfig → Bytes
build_run_script c = join_lines (
    codes "#!/bin/sh"
    ∷ stderr_line c
    ∷ (umask_line c
        ++ cwd_line c
        ++ (codes "exec " ++ join_words (run_prefix c ++ map shell_quote c.cmd)) ∷ []))

-- `buildLogRunScript`, for the value `s` of `Svlogd`.
abbrev pub svlogd_words : Bytes → ConfigSvlogd (List Bytes) → List Bytes
svlogd_words path s =
    path
    ∷ ((if s.timestamp then codes "-tt" ∷ [] else [])
        ++ (if s.replace then codes "-r" ∷ [] else [])
        ++ svlogd_args s)

unfoldable pub build_log_run_script : Bytes → ConfigSvlogd (List Bytes) → Bytes
build_log_run_script path s =
    join_lines (codes "#!/bin/sh" ∷ (codes "exec " ++ join_words (svlogd_words path s)) ∷ [])
