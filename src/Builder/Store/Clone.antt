-- ===== src/Builder/Store/Clone.antt =====
-- `Clone`: a configuration of the same value, in cells of its own.
use go_runit.Common.{ℕ, suc, ◌≤◌, ◌≡◌, refl, ◌∙◌, Option, none, some, List, [], ◌∷◌, arith}
use go_runit.Wire.{Bytes}
use go_runit.Builder.Config.{ConfigSvlogd}
use go_runit.Builder.Store.{
  Slice, Object, words, env_map, chpst_object, svlogd_object, Heap, alloc, ConfigObject, svlogd_of,
  words_at, env_at, env_of, chpst_at, chpst_of, svlogd_at, value, copy_words, copy_env, copy_chpst,
  copy_svlogd, clone,
}
use go_runit.Builder.Store.Frame.{
  IsWithin, IsSvlogdWithin, IsIn, Agree, words_at-Agree, env_at-Agree, chpst_at-Agree,
  svlogd_at-Agree, Extends, Extends-refl, Extends-trans, Extends-Agree, update_self, alloc-Extends,
}

-- A pointer to new cells, in a heap that has the old ones.
record IsNew (h : Heap) (r : Option ℕ × Heap) : Type 0 where
  extends : Extends h r.1
  within : IsWithin h.next r.1.next r.0

copy_words-IsNew : (ws : List Bytes) (h : Heap) → IsNew h (copy_words ws h)
copy_words-IsNew [] h = record { extends = Extends-refl h; within = tt }
copy_words-IsNew (w ∷ ws) h = record {
  extends = alloc-Extends (words (w ∷ ws)) h;
  within = omega arith;
}

copy_words-value :
    (ws : List Bytes) (h : Heap) → words_at (copy_words ws h).1.cell (copy_words ws h).0 ≡ ws
copy_words-value [] h = refl
copy_words-value (w ∷ ws) h = rw (update_self h.cell h.next (words (w ∷ ws))) refl

copy_env-IsNew : (s : Option ℕ) (h : Heap) → IsNew h (copy_env s h)
copy_env-IsNew none h = record { extends = Extends-refl h; within = tt }
copy_env-IsNew (some p) h = record { extends = alloc-Extends _ h; within = omega arith }

copy_env-value :
    (s : Option ℕ) (h : Heap) → env_at (copy_env s h).1.cell (copy_env s h).0 ≡ env_at h.cell s
copy_env-value none h = refl
copy_env-value (some p) h = rw (update_self h.cell h.next (env_map (env_of (h.cell p)))) refl

copy_chpst-IsNew : (s : Option ℕ) (h : Heap) → IsNew h (copy_chpst s h)
copy_chpst-IsNew none h = record { extends = Extends-refl h; within = tt }
copy_chpst-IsNew (some p) h = record { extends = alloc-Extends _ h; within = omega arith }

copy_chpst-value :
    (s : Option ℕ) (h : Heap)
    → chpst_at (copy_chpst s h).1.cell (copy_chpst s h).0 ≡ chpst_at h.cell s
copy_chpst-value none h = refl
copy_chpst-value (some p) h =
    rw (update_self h.cell h.next (chpst_object (chpst_of (h.cell p)))) refl

widen :
    (lo lo' hi hi' : ℕ) (r : Option ℕ) → lo' ≤ lo → hi ≤ hi' → IsWithin lo hi r → IsWithin lo' hi' r
widen lo lo' hi hi' none p q h = tt
widen lo lo' hi hi' (some a) p q h = omega (arith, h.0, h.1)

record IsNewSvlogd (h : Heap) (s : Option ℕ) (r : Option ℕ × Heap) : Type 0 where
  extends : Extends h r.1
  within : IsSvlogdWithin h.next r.1.next r.1.cell r.0
  same : svlogd_at r.1.cell r.0 ≡ svlogd_at h.cell s

copy_svlogd-IsNew : (s : Option ℕ) (h : Heap) → IsNewSvlogd h s (copy_svlogd s h)
copy_svlogd-IsNew none h = record { extends = Extends-refl h; within = tt; same = refl }
copy_svlogd-IsNew (some p) h =
    let s : ConfigSvlogd Slice = svlogd_of (h.cell p) in
    let ws : List Bytes = words_at h.cell s.config in
    let lines : Slice × Heap = copy_words ws h in
    let new = copy_words-IsNew ws h in
    let o : Object = svlogd_object (record s { config = lines.0 }) in
    let x = alloc-Extends o lines.1 in
    let here = update_self lines.1.cell lines.1.next o in
    record {
      extends = Extends-trans new.extends x;
      within = rw here (
        new.extends.next_le,
        omega arith,
        widen h.next h.next lines.1.next (suc lines.1.next) lines.0 (omega arith) (omega arith)
            new.within,
      );
      same =
          rw
            (
              here,
              words_at-Agree h.next lines.1.next lines.1.cell (alloc o lines.1).1.cell lines.0
                  new.within (Extends-Agree h.next x),
              copy_words-value ws h,
            )
            refl;
    }

-- A clone of a configuration whose pointers are allocated has the same value, stands in cells that were
-- not allocated before, and leaves the others as they are.
pub record IsClone (h : Heap) (c : ConfigObject) (r : ConfigObject × Heap) : Type 0 where
  pub extends : Extends h r.1
  pub own : IsIn h.next r.1.next r.1.cell r.0
  pub same : value r.1.cell r.0 ≡ value h.cell c

widen_svlogd :
    (lo lo' hi hi' : ℕ) (f g : ℕ → Object) (r : Option ℕ)
    → lo' ≤ lo
    → hi ≤ hi'
    → Agree lo hi f g
    → IsSvlogdWithin lo hi f r
    → IsSvlogdWithin lo' hi' g r
widen_svlogd lo lo' hi hi' f g none p q e h = tt
widen_svlogd lo lo' hi hi' f g (some a) p q e h =
    rw (e a h.0 h.1)
      (omega (arith, h.0), omega (arith, h.1), widen lo lo' hi hi' (svlogd_of (f a)).config p q h.2)

-- The five copies of a clone, each made in the heap that the one before left.
module _ (c : ConfigObject) (h : Heap) (valid : IsIn 0 h.next h.cell c)
    (finish cmd env chpst svlogd : Option ℕ × Heap) (a : IsNew h finish) (b : IsNew finish.1 cmd)
    (d : IsNew cmd.1 env) (e : IsNew env.1 chpst) (g : IsNewSvlogd chpst.1 c.svlogd svlogd)
    (finish_eq : words_at finish.1.cell finish.0 ≡ words_at h.cell c.finish)
    (cmd_eq : words_at cmd.1.cell cmd.0 ≡ words_at finish.1.cell c.cmd)
    (env_eq : env_at env.1.cell env.0 ≡ env_at cmd.1.cell c.env)
    (chpst_eq : chpst_at chpst.1.cell chpst.0 ≡ chpst_at env.1.cell c.chpst) where
  to_cmd : Extends h cmd.1
  to_cmd = Extends-trans a.extends b.extends

  to_env : Extends h env.1
  to_env = Extends-trans to_cmd d.extends

  to_chpst : Extends h chpst.1
  to_chpst = Extends-trans to_env e.extends

  after_env : Extends env.1 svlogd.1
  after_env = Extends-trans e.extends g.extends

  after_cmd : Extends cmd.1 svlogd.1
  after_cmd = Extends-trans d.extends after_env

  after_finish : Extends finish.1 svlogd.1
  after_finish = Extends-trans b.extends after_cmd

  copied : ConfigObject
  copied = record c {
    finish = finish.0;
    cmd = cmd.0;
    env = env.0;
    chpst = chpst.0;
    svlogd = svlogd.0;
  }

  copied-IsIn : IsIn h.next svlogd.1.next svlogd.1.cell copied
  unfolding copied
  copied-IsIn = record {
    finish =
        widen h.next h.next finish.1.next svlogd.1.next finish.0 (omega arith) after_finish.next_le
          a.within;
    cmd =
        widen finish.1.next h.next cmd.1.next svlogd.1.next cmd.0 a.extends.next_le
          after_cmd.next_le b.within;
    env =
        widen cmd.1.next h.next env.1.next svlogd.1.next env.0 to_cmd.next_le after_env.next_le
          d.within;
    chpst =
        widen env.1.next h.next chpst.1.next svlogd.1.next chpst.0 to_env.next_le g.extends.next_le
          e.within;
    svlogd =
        widen_svlogd chpst.1.next h.next svlogd.1.next svlogd.1.next svlogd.1.cell svlogd.1.cell
          svlogd.0 to_chpst.next_le (omega arith) (λ x p q. refl) g.within;
  }

  copied-finish : words_at svlogd.1.cell finish.0 ≡ words_at h.cell c.finish
  copied-finish =
      words_at-Agree h.next finish.1.next finish.1.cell svlogd.1.cell finish.0 a.within
        (Extends-Agree h.next after_finish)
      ∙ finish_eq

  copied-cmd : words_at svlogd.1.cell cmd.0 ≡ words_at h.cell c.cmd
  copied-cmd =
      words_at-Agree finish.1.next cmd.1.next cmd.1.cell svlogd.1.cell cmd.0 b.within
        (Extends-Agree finish.1.next after_cmd)
      ∙ cmd_eq
      ∙ words_at-Agree 0 h.next h.cell finish.1.cell c.cmd valid.cmd (Extends-Agree 0 a.extends)

  copied-env : env_at svlogd.1.cell env.0 ≡ env_at h.cell c.env
  copied-env =
      env_at-Agree cmd.1.next env.1.next env.1.cell svlogd.1.cell env.0 d.within
        (Extends-Agree cmd.1.next after_env)
      ∙ env_eq
      ∙ env_at-Agree 0 h.next h.cell cmd.1.cell c.env valid.env (Extends-Agree 0 to_cmd)

  copied-chpst : chpst_at svlogd.1.cell chpst.0 ≡ chpst_at h.cell c.chpst
  copied-chpst =
      chpst_at-Agree env.1.next chpst.1.next chpst.1.cell svlogd.1.cell chpst.0 e.within
        (Extends-Agree env.1.next g.extends)
      ∙ chpst_eq
      ∙ chpst_at-Agree 0 h.next h.cell env.1.cell c.chpst valid.chpst (Extends-Agree 0 to_env)

  copied-svlogd : svlogd_at svlogd.1.cell svlogd.0 ≡ svlogd_at h.cell c.svlogd
  copied-svlogd =
      g.same
      ∙ svlogd_at-Agree 0 h.next h.cell chpst.1.cell c.svlogd valid.svlogd
          (Extends-Agree 0 to_chpst)

  copied-IsClone : IsClone h c (copied, svlogd.1)
  unfolding copied
  copied-IsClone = record {
    extends = Extends-trans to_chpst g.extends;
    own = copied-IsIn;
    same = rw (copied-finish, copied-cmd, copied-env, copied-chpst, copied-svlogd) refl;
  }

pub clone-IsClone : (c : ConfigObject) (h : Heap) → IsIn 0 h.next h.cell c → IsClone h c (clone c h)
unfolding clone copied
clone-IsClone c h valid =
    let finish = copy_words (words_at h.cell c.finish) h in
    let cmd = copy_words (words_at finish.1.cell c.cmd) finish.1 in
    let env = copy_env c.env cmd.1 in
    let chpst = copy_chpst c.chpst env.1 in
    copied-IsClone c h valid finish cmd env chpst (copy_svlogd c.svlogd chpst.1)
      (copy_words-IsNew _ h) (copy_words-IsNew _ finish.1) (copy_env-IsNew c.env cmd.1)
      (copy_chpst-IsNew c.chpst env.1) (copy_svlogd-IsNew c.svlogd chpst.1) (copy_words-value _ h)
      (copy_words-value _ finish.1) (copy_env-value c.env cmd.1) (copy_chpst-value c.chpst env.1)

pub clone-Extends : (c : ConfigObject) (h : Heap) → Extends h (clone c h).1
unfolding clone
clone-Extends c h =
    let finish = copy_words (words_at h.cell c.finish) h in
    let cmd = copy_words (words_at finish.1.cell c.cmd) finish.1 in
    let env = copy_env c.env cmd.1 in
    let chpst = copy_chpst c.chpst env.1 in
    Extends-trans (copy_words-IsNew _ h).extends (
      Extends-trans (copy_words-IsNew _ finish.1).extends (
        Extends-trans (copy_env-IsNew c.env cmd.1).extends (
          Extends-trans (copy_chpst-IsNew c.chpst env.1).extends
            (copy_svlogd-IsNew c.svlogd chpst.1).extends)))
