-- ===== src/Builder/Config.antt =====
-- service_builder_config.go: the configuration of a service as a value, without its pointers.
use go_runit.Common.{ℕ, Bool, true, false, Option, List, [], ◌∷◌, if◌then◌else◌}
use go_runit.Common.Int.{ℤ, pos}
use go_runit.Common.Text.{equal}
use go_runit.Wire.{Bytes}

pub record ChpstConfig : Type 0 where
  pub user : Bytes
  pub group : Bytes
  pub nice : ℤ
  pub io_nice : ℤ
  pub limit_mem : ℤ
  pub limit_files : ℤ
  pub limit_procs : ℤ
  pub limit_cpu : ℤ
  pub root : Bytes

-- `&ChpstConfig{}`
abbrev pub empty_chpst : ChpstConfig
empty_chpst = record {
  user = [];
  group = [];
  nice = pos 0;
  io_nice = pos 0;
  limit_mem = pos 0;
  limit_files = pos 0;
  limit_procs = pos 0;
  limit_cpu = pos 0;
  root = [];
}

-- The configuration lines are of type `L`: a slice, or the words that it holds.
pub record ConfigSvlogd {ℓ} (L : Type ℓ) : Type ℓ where
  pub size : ℤ
  pub num : ℤ
  pub timeout : ℤ
  pub processor : Bytes
  pub config : L
  pub timestamp : Bool
  pub replace : Bool
  pub prefix : Bytes

-- The defaults of `WithSvlogd`.
abbrev pub default_svlogd {ℓ} : {L : Type ℓ} → L → ConfigSvlogd L
default_svlogd nil = record {
  size = pos 1000000;
  num = pos 10;
  timeout = pos 0;
  processor = [];
  config = nil;
  timestamp = true;
  replace = false;
  prefix = [];
}

-- A `map[string]string`, with one entry for each key.
abbrev pub EnvMap : Type 0
EnvMap = List (Bytes × Bytes)

unfoldable pub put_env : Bytes → Bytes → EnvMap → EnvMap
put_env k v [] = (k, v) ∷ []
put_env k v ((j, w) ∷ m) =
    let rest = put_env k v m in if equal j k then (k, v) ∷ m else (j, w) ∷ rest

pub put_all : EnvMap → EnvMap → EnvMap
put_all [] m = m
put_all ((k, v) ∷ entries) m = put_all entries (put_env k v m)

-- A nil slice and a nil map are empty.
pub record ServiceBuilderConfig : Type 0 where
  pub name : Bytes
  pub dir : Bytes
  pub cmd : List Bytes
  pub cwd : Bytes
  pub umask : ℕ
  pub env : EnvMap
  pub chpst : Option ChpstConfig
  pub svlogd : Option (ConfigSvlogd (List Bytes))
  pub finish : List Bytes
  pub stderr_path : Bytes
  pub chpst_path : Bytes
  pub svlogd_path : Bytes
