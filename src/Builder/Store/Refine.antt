-- ===== src/Builder/Store/Refine.antt =====
-- The builder on values, which the builder on the heap implements.
use go_runit.Common.{ℕ, suc, ◌≡◌, ◌≢◌, refl, ap, ◌∙◌, Option, none, some, List, [], arith}
use go_runit.Wire.{Bytes}
use go_runit.Builder.Config.{
  ChpstConfig, empty_chpst, ConfigSvlogd, default_svlogd, EnvMap, put_env, put_all,
  ServiceBuilderConfig,
}
use go_runit.Builder.Store.{
  Slice, Object, env_map, chpst_object, svlogd_object, Heap, ConfigObject, BuilderCall, with_cmd,
  with_cwd, with_umask, with_env, with_env_map, with_chpst, with_chpst_path, with_svlogd,
  with_svlogd_path, with_finish, with_stderr_path, env_of, chpst_of, svlogd_of, words_at, env_at,
  chpst_at, svlogd_at, svlogd_value, builder_call, value,
}
use go_runit.Builder.Store.Typed.{
  kind, IsKind, AreLines, IsTyped, kept-IsKind, kept_words, kept_env, kept_chpst, kept_svlogd,
  kept-AreLines, before, IsModified, modify-IsModified,
}

abbrev pub chpst_or_empty : Option ChpstConfig → ChpstConfig
chpst_or_empty none = empty_chpst
chpst_or_empty (some c) = c

abbrev pub svlogd_or_default : Option (ConfigSvlogd (List Bytes)) → ConfigSvlogd (List Bytes)
svlogd_or_default none = default_svlogd []
svlogd_or_default (some s) = s

-- The function that `WithSvlogd` is given does to the struct with its slice what `g` does to the value.
abbrev pub IsEdit :
    Heap
    → (ConfigSvlogd Slice → ConfigSvlogd Slice)
    → (ConfigSvlogd (List Bytes) → ConfigSvlogd (List Bytes))
    → Type 0
IsEdit h u g =
    (s : ConfigSvlogd Slice)
    → IsKind 0 h s.config
    → IsKind 0 h (u s).config × (svlogd_value h.cell (u s) ≡ g (svlogd_value h.cell s))

-- What a call does to the value of a configuration.
pub data Meaning (h : Heap)
    : BuilderCall → (ServiceBuilderConfig → ServiceBuilderConfig) → Type 0 where
  means_cmd :
      (s : Slice)
      → IsKind 0 h s
      → Meaning h (with_cmd s) (λ v. record v { cmd = words_at h.cell s })
  means_cwd : (d : Bytes) → Meaning h (with_cwd d) (λ v. record v { cwd = d })
  means_umask : (m : ℕ) → Meaning h (with_umask m) (λ v. record v { umask = m })
  means_env : (k w : Bytes) → Meaning h (with_env k w) (λ v. record v { env = put_env k w v.env })
  means_env_map :
      (m : EnvMap) → Meaning h (with_env_map m) (λ v. record v { env = put_all m v.env })
  means_chpst :
      (f : ChpstConfig → ChpstConfig)
      → Meaning h (with_chpst f) (λ v. record v { chpst = some (f (chpst_or_empty v.chpst)) })
  means_chpst_path : (p : Bytes) → Meaning h (with_chpst_path p) (λ v. record v { chpst_path = p })
  means_svlogd :
      (u : ConfigSvlogd Slice → ConfigSvlogd Slice)
      (g : ConfigSvlogd (List Bytes) → ConfigSvlogd (List Bytes))
      → IsEdit h u g
      → Meaning h (with_svlogd u) (λ v. record v { svlogd = some (g (svlogd_or_default v.svlogd)) })
  means_svlogd_path :
      (p : Bytes) → Meaning h (with_svlogd_path p) (λ v. record v { svlogd_path = p })
  means_finish :
      (s : Slice)
      → IsKind 0 h s
      → Meaning h (with_finish s) (λ v. record v { finish = words_at h.cell s })
  means_stderr_path :
      (p : Bytes) → Meaning h (with_stderr_path p) (λ v. record v { stderr_path = p })

zero-ne : (n : ℕ) → 0 ≢ suc n
zero-ne n e = omega (arith, e)

-- One object has changed, to which the pointer of its type now leads.
module _ (h : Heap) (c : ConfigObject) (y : IsTyped h c) (o : Object) (p : ℕ) (g : Heap) where
  env-Refined :
      IsModified 1 h o p g
      → kind o ≡ 1
      → IsTyped g (record c { env = some p })
        × (value g.cell (record c { env = some p }) ≡ record (value h.cell c) { env = env_of o })
  env-Refined m e =
      let x = m.changes in
      (
        record {
          cmd_typed = kept-IsKind 1 h g x 0 c.cmd (zero-ne 0) y.cmd_typed;
          finish_typed = kept-IsKind 1 h g x 0 c.finish (zero-ne 0) y.finish_typed;
          env_typed = (m.there, ap kind m.here ∙ e);
          chpst_typed = kept-IsKind 1 h g x 2 c.chpst (λ q. omega (arith, q)) y.chpst_typed;
          svlogd_typed = kept-IsKind 1 h g x 3 c.svlogd (λ q. omega (arith, q)) y.svlogd_typed;
          lines_typed =
              kept-AreLines 1 h g x c.svlogd (λ q. omega (arith, q)) (zero-ne 0) y.svlogd_typed
                y.lines_typed;
        },
        rw
            (
              kept_words 1 h g x c.cmd (zero-ne 0) y.cmd_typed,
              kept_words 1 h g x c.finish (zero-ne 0) y.finish_typed,
              m.here,
              kept_chpst 1 h g x c.chpst (λ q. omega (arith, q)) y.chpst_typed,
              kept_svlogd 1 h g x c.svlogd (λ q. omega (arith, q)) (zero-ne 0) y.svlogd_typed
                  y.lines_typed,
            )
            refl,
      )

  chpst-Refined :
      IsModified 2 h o p g
      → kind o ≡ 2
      → IsTyped g (record c { chpst = some p })
        × (value g.cell (record c { chpst = some p })
            ≡ record (value h.cell c) { chpst = some (chpst_of o) })
  chpst-Refined m e =
      let x = m.changes in
      (
        record {
          cmd_typed = kept-IsKind 2 h g x 0 c.cmd (zero-ne 1) y.cmd_typed;
          finish_typed = kept-IsKind 2 h g x 0 c.finish (zero-ne 1) y.finish_typed;
          env_typed = kept-IsKind 2 h g x 1 c.env (λ q. omega (arith, q)) y.env_typed;
          chpst_typed = (m.there, ap kind m.here ∙ e);
          svlogd_typed = kept-IsKind 2 h g x 3 c.svlogd (λ q. omega (arith, q)) y.svlogd_typed;
          lines_typed =
              kept-AreLines 2 h g x c.svlogd (λ q. omega (arith, q)) (zero-ne 1) y.svlogd_typed
                y.lines_typed;
        },
        rw
            (
              kept_words 2 h g x c.cmd (zero-ne 1) y.cmd_typed,
              kept_words 2 h g x c.finish (zero-ne 1) y.finish_typed,
              kept_env 2 h g x c.env (λ q. omega (arith, q)) y.env_typed,
              m.here,
              kept_svlogd 2 h g x c.svlogd (λ q. omega (arith, q)) (zero-ne 1) y.svlogd_typed
                  y.lines_typed,
            )
            refl,
      )

  svlogd-Refined :
      (t : ConfigSvlogd Slice)
      → IsModified 3 h o p g
      → o ≡ svlogd_object t
      → IsKind 0 h t.config
      → IsTyped g (record c { svlogd = some p })
        × (value g.cell (record c { svlogd = some p })
            ≡ record (value h.cell c) { svlogd = some (svlogd_value h.cell t) })
  svlogd-Refined t m e l =
      let x = m.changes in
      (
        record {
          cmd_typed = kept-IsKind 3 h g x 0 c.cmd (zero-ne 2) y.cmd_typed;
          finish_typed = kept-IsKind 3 h g x 0 c.finish (zero-ne 2) y.finish_typed;
          env_typed = kept-IsKind 3 h g x 1 c.env (λ q. omega (arith, q)) y.env_typed;
          chpst_typed = kept-IsKind 3 h g x 2 c.chpst (λ q. omega (arith, q)) y.chpst_typed;
          svlogd_typed = (m.there, ap kind (m.here ∙ e));
          lines_typed = rw (m.here, e) (kept-IsKind 3 h g x 0 t.config (zero-ne 2) l);
        },
        rw
            (
              kept_words 3 h g x c.cmd (zero-ne 2) y.cmd_typed,
              kept_words 3 h g x c.finish (zero-ne 2) y.finish_typed,
              kept_env 3 h g x c.env (λ q. omega (arith, q)) y.env_typed,
              kept_chpst 3 h g x c.chpst (λ q. omega (arith, q)) y.chpst_typed,
              m.here,
              e,
              kept_words 3 h g x t.config (zero-ne 2) l,
            )
            refl,
      )

before_env : (s : Option ℕ) (h : Heap) → env_of (before (env_map []) s h) ≡ env_at h.cell s
before_env none h = refl
before_env (some p) h = refl

before_chpst :
    (s : Option ℕ) (h : Heap)
    → chpst_of (before (chpst_object empty_chpst) s h) ≡ chpst_or_empty (chpst_at h.cell s)
before_chpst none h = refl
before_chpst (some p) h = refl

before_svlogd :
    (s : Option ℕ) (h : Heap)
    → svlogd_value h.cell (svlogd_of (before (svlogd_object (default_svlogd none)) s h))
      ≡ svlogd_or_default (svlogd_at h.cell s)
before_svlogd none h = refl
before_svlogd (some p) h = refl

before-lines :
    (s : Option ℕ) (h : Heap)
    → AreLines h s
    → IsKind 0 h (svlogd_of (before (svlogd_object (default_svlogd none)) s h)).config
before-lines none h l = tt
before-lines (some p) h l = l

-- The pointers of a builder lead to objects of their types, and a call has a meaning `f` on values. After
-- the call the pointers are typed again, and the value of the configuration is what `f` makes of
-- its value before.
pub builder_call-refines :
    (h : Heap) (c : ConfigObject) (k : BuilderCall)
    (f : ServiceBuilderConfig → ServiceBuilderConfig)
    → IsTyped h c
    → Meaning h k f
    → IsTyped (builder_call k h c).0 (builder_call k h c).1
      × (value (builder_call k h c).0.cell (builder_call k h c).1 ≡ f (value h.cell c))
unfolding builder_call
builder_call-refines h c _ _ y (means_cmd s l) = (
  record {
    cmd_typed = l;
    finish_typed = y.finish_typed;
    env_typed = y.env_typed;
    chpst_typed = y.chpst_typed;
    svlogd_typed = y.svlogd_typed;
    lines_typed = y.lines_typed;
  },
  refl,
)
builder_call-refines h c _ _ y (means_finish s l) = (
  record {
    cmd_typed = y.cmd_typed;
    finish_typed = l;
    env_typed = y.env_typed;
    chpst_typed = y.chpst_typed;
    svlogd_typed = y.svlogd_typed;
    lines_typed = y.lines_typed;
  },
  refl,
)
builder_call-refines h c _ _ y (means_env k w) =
    let m =
      modify-IsModified 1 (env_map []) (λ o. env_map (put_env k w (env_of o))) c.env h
        y.env_typed in
    let r = env-Refined h c y _ _ _ m refl in
    (r.0, r.1 ∙ ap (λ e. record (value h.cell c) { env = put_env k w e }) (before_env c.env h))
builder_call-refines h c _ _ y (means_env_map n) =
    let m =
      modify-IsModified 1 (env_map []) (λ o. env_map (put_all n (env_of o))) c.env h y.env_typed in
    let r = env-Refined h c y _ _ _ m refl in
    (r.0, r.1 ∙ ap (λ e. record (value h.cell c) { env = put_all n e }) (before_env c.env h))
builder_call-refines h c _ _ y (means_chpst u) =
    let m =
      modify-IsModified 2 (chpst_object empty_chpst) (λ o. chpst_object (u (chpst_of o))) c.chpst h
        y.chpst_typed in
    let r = chpst-Refined h c y _ _ _ m refl in
    (r.0, r.1 ∙ ap (λ e. record (value h.cell c) { chpst = some (u e) }) (before_chpst c.chpst h))
builder_call-refines h c _ _ y (means_svlogd u g e) =
    let m =
      modify-IsModified 3 (svlogd_object (default_svlogd none))
        (λ o. svlogd_object (u (svlogd_of o))) c.svlogd h y.svlogd_typed in
    let old : ConfigSvlogd Slice =
      svlogd_of (before (svlogd_object (default_svlogd none)) c.svlogd h) in
    let d = e old (before-lines c.svlogd h y.lines_typed) in
    let r = svlogd-Refined h c y _ _ _ (u old) m refl d.0 in
    (
      r.0,
      r.1
          ∙ ap (λ v. record (value h.cell c) { svlogd = some v })
              (d.1 ∙ ap g (before_svlogd c.svlogd h)),
    )
builder_call-refines h c _ _ y (means_cwd d) = (y, refl)
builder_call-refines h c _ _ y (means_umask m) = (y, refl)
builder_call-refines h c _ _ y (means_chpst_path p) = (y, refl)
builder_call-refines h c _ _ y (means_svlogd_path p) = (y, refl)
builder_call-refines h c _ _ y (means_stderr_path p) = (y, refl)
