-- ===== src/Builder/Store.antt =====
-- service_builder.go and service_builder_config.go with their pointers: the objects that a configuration
-- refers to stand in a heap, which the builder, its caller and the clones share.
pub mod Frame
pub mod Clone
pub mod Snapshot
pub mod Typed
pub mod Refine
pub mod Chain
use go_runit.Defaults.{default_chpst_path, default_svlogd_path, default_umask}
use mathlib.Core.Option
use go_runit.Common.{
  ℕ, suc, Bool, true, false, Option, none, some, List, [], ◌∷◌, ◌==◌, if◌then◌else◌,
}
use go_runit.Common.Text.{codes, is_empty}
use go_runit.Service.{ServiceType, ServiceConfig}
use go_runit.Wire.{Bytes}
use go_runit.Builder.Config.{
  ChpstConfig, empty_chpst, ConfigSvlogd, default_svlogd, EnvMap, put_env, put_all,
  ServiceBuilderConfig,
}

-- A slice is nil, or the address of what it holds.
abbrev pub Slice : Type 0
Slice = Option ℕ

pub data Object : Type 0 where
  words : List Bytes → Object
  env_map : EnvMap → Object
  chpst_object : ChpstConfig → Object
  svlogd_object : ConfigSvlogd Slice → Object

pub record Heap : Type 0 where
  pub next : ℕ
  pub cell : ℕ → Object

abbrev pub update : (ℕ → Object) → ℕ → Object → ℕ → Object
update f p o q = if q == p then o else f q

abbrev pub alloc : Object → Heap → Option ℕ × Heap
alloc o h = (some h.next, record { next = suc h.next; cell = update h.cell h.next o })

abbrev pub write : ℕ → Object → Heap → Heap
write p o h = record h { cell = update h.cell p o }

-- The struct `ServiceBuilderConfig`. It is reached through its builder, or through the pointer that
-- `Config` returned, and through nothing else.
pub record ConfigObject : Type 0 where
  pub name : Bytes
  pub dir : Bytes
  pub cmd : Slice
  pub cwd : Bytes
  pub umask : ℕ
  pub env : Option ℕ
  pub chpst : Option ℕ
  pub svlogd : Option ℕ
  pub finish : Slice
  pub stderr_path : Bytes
  pub chpst_path : Bytes
  pub svlogd_path : Bytes

-- Reads through a pointer of the right type.
abbrev pub words_of : Object → List Bytes
words_of (words ws) = ws
words_of o = []

abbrev pub env_of : Object → EnvMap
env_of (env_map m) = m
env_of o = []

abbrev pub chpst_of : Object → ChpstConfig
chpst_of (chpst_object c) = c
chpst_of o = empty_chpst

abbrev pub svlogd_of : Object → ConfigSvlogd Slice
svlogd_of (svlogd_object c) = c
svlogd_of o = default_svlogd none

abbrev pub words_at : (ℕ → Object) → Slice → List Bytes
words_at f none = []
words_at f (some p) = words_of (f p)

abbrev pub env_at : (ℕ → Object) → Option ℕ → EnvMap
env_at f none = []
env_at f (some p) = env_of (f p)

-- `NewServiceBuilder`, with `DefaultUmask` 0o022.
abbrev pub new_service_builder : Bytes → Bytes → ConfigObject
new_service_builder name dir = record {
  name = name;
  dir = dir;
  cmd = none;
  cwd = [];
  umask = default_umask;
  env = none;
  chpst = none;
  svlogd = none;
  finish = none;
  stderr_path = [];
  chpst_path = default_chpst_path;
  svlogd_path = default_svlogd_path;
}

-- `NewServiceBuilderWithConfig`
abbrev is_s6 : ServiceType → Bool
is_s6 ServiceType.s6 = true
is_s6 t = false

unfoldable pub new_service_builder_with_config : Bytes → Bytes → ServiceConfig → ConfigObject
new_service_builder_with_config name dir config =
    let c = new_service_builder name dir in
    record c {
      chpst_path =
          if is_empty (codes config.chpst_path) then c.chpst_path else codes config.chpst_path;
      svlogd_path =
          if is_s6 config.type
          then codes "s6-log"
          else if is_empty (codes config.logger_path)
          then c.svlogd_path
          else codes config.logger_path;
    }

-- The calls on a builder. What `WithChpst` and `WithSvlogd` are given changes the object it points to.
pub data BuilderCall : Type 0 where
  with_cmd : Slice → BuilderCall
  with_cwd : Bytes → BuilderCall
  with_umask : ℕ → BuilderCall
  with_env : Bytes → Bytes → BuilderCall
  with_env_map : EnvMap → BuilderCall
  with_chpst : (ChpstConfig → ChpstConfig) → BuilderCall
  with_chpst_path : Bytes → BuilderCall
  with_svlogd : (ConfigSvlogd Slice → ConfigSvlogd Slice) → BuilderCall
  with_svlogd_path : Bytes → BuilderCall
  with_finish : Slice → BuilderCall
  with_stderr_path : Bytes → BuilderCall

-- `if p == nil { p = … }`: the pointer to write through, and the heap with the object.
abbrev pub ensure : Object → Option ℕ → Heap → ℕ × Heap
ensure o none h = (h.next, (alloc o h).1)
ensure o (some p) h = (p, h)

abbrev pub modify : (Object → Object) → ℕ × Heap → Heap
modify f r = write r.0 (f (r.1.cell r.0)) r.1

unfoldable pub builder_call : BuilderCall → Heap → ConfigObject → Heap × ConfigObject
builder_call (with_cmd s) h c = (h, record c { cmd = s })
builder_call (with_cwd d) h c = (h, record c { cwd = d })
builder_call (with_umask m) h c = (h, record c { umask = m })
builder_call (with_env k v) h c =
    let r = ensure (env_map []) c.env h in
    (modify (λ o. env_map (put_env k v (env_of o))) r, record c { env = some r.0 })
builder_call (with_env_map entries) h c =
    let r = ensure (env_map []) c.env h in
    (modify (λ o. env_map (put_all entries (env_of o))) r, record c { env = some r.0 })
builder_call (with_chpst f) h c =
    let r = ensure (chpst_object empty_chpst) c.chpst h in
    (modify (λ o. chpst_object (f (chpst_of o))) r, record c { chpst = some r.0 })
builder_call (with_chpst_path p) h c = (h, record c { chpst_path = p })
builder_call (with_svlogd f) h c =
    let r = ensure (svlogd_object (default_svlogd none)) c.svlogd h in
    (modify (λ o. svlogd_object (f (svlogd_of o))) r, record c { svlogd = some r.0 })
builder_call (with_svlogd_path p) h c = (h, record c { svlogd_path = p })
builder_call (with_finish s) h c = (h, record c { finish = s })
builder_call (with_stderr_path p) h c = (h, record c { stderr_path = p })

-- `append([]string(nil), s...)`: no words make the nil slice.
abbrev pub copy_words : List Bytes → Heap → Slice × Heap
copy_words [] h = (none, h)
copy_words (w ∷ ws) h = alloc (words (w ∷ ws)) h

abbrev pub copy_env : Option ℕ → Heap → Option ℕ × Heap
copy_env none h = (none, h)
copy_env (some p) h = alloc (env_map (env_of (h.cell p))) h

abbrev pub copy_chpst : Option ℕ → Heap → Option ℕ × Heap
copy_chpst none h = (none, h)
copy_chpst (some p) h = alloc (chpst_object (chpst_of (h.cell p))) h

abbrev pub copy_svlogd : Option ℕ → Heap → Option ℕ × Heap
copy_svlogd none h = (none, h)
copy_svlogd (some p) h =
    let s = svlogd_of (h.cell p) in
    let lines = copy_words (words_at h.cell s.config) h in
    alloc (svlogd_object (record s { config = lines.0 })) lines.1

-- `Clone`, and `Config` of a builder.
unfoldable pub clone : ConfigObject → Heap → ConfigObject × Heap
clone c h =
    let finish = copy_words (words_at h.cell c.finish) h in
    let cmd = copy_words (words_at finish.1.cell c.cmd) finish.1 in
    let env = copy_env c.env cmd.1 in
    let chpst = copy_chpst c.chpst env.1 in
    let svlogd = copy_svlogd c.svlogd chpst.1 in
    (
      record c { finish = finish.0; cmd = cmd.0; env = env.0; chpst = chpst.0; svlogd = svlogd.0 },
      svlogd.1,
    )

-- The value of a configuration.
abbrev pub svlogd_value : (ℕ → Object) → ConfigSvlogd Slice → ConfigSvlogd (List Bytes)
svlogd_value f s = record {
  size = s.size;
  num = s.num;
  timeout = s.timeout;
  processor = s.processor;
  config = words_at f s.config;
  timestamp = s.timestamp;
  replace = s.replace;
  prefix = s.prefix;
}

abbrev pub chpst_at : (ℕ → Object) → Option ℕ → Option ChpstConfig
chpst_at f none = none
chpst_at f (some p) = some (chpst_of (f p))

abbrev pub svlogd_at : (ℕ → Object) → Option ℕ → Option (ConfigSvlogd (List Bytes))
svlogd_at f none = none
svlogd_at f (some p) = some (svlogd_value f (svlogd_of (f p)))

abbrev pub value : (ℕ → Object) → ConfigObject → ServiceBuilderConfig
value f c = record {
  name = c.name;
  dir = c.dir;
  cmd = words_at f c.cmd;
  cwd = c.cwd;
  umask = c.umask;
  env = env_at f c.env;
  chpst = chpst_at f c.chpst;
  svlogd = svlogd_at f c.svlogd;
  finish = words_at f c.finish;
  stderr_path = c.stderr_path;
  chpst_path = c.chpst_path;
  svlogd_path = c.svlogd_path;
}
