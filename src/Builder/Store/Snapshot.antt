-- ===== src/Builder/Store/Snapshot.antt =====
-- What becomes of a configuration and its clone when either is used further.
use go_runit.Builder.Store.{
  svlogd_of, default_svlogd, svlogd_object, chpst_of, empty_chpst, chpst_object, put_all, env_of,
  put_env, env_map, Object, Heap, alloc, write, update, ConfigObject, BuilderCall, with_cmd,
  with_cwd, with_umask, with_env, with_env_map, with_chpst, with_chpst_path, with_svlogd,
  with_svlogd_path, with_finish, with_stderr_path, ensure, modify, builder_call, clone, value,
}
use go_runit.Common.{ℕ, ◌≤◌, ◌≡◌, refl, ◌∙◌, Option, none, some, List, [], ◌∷◌, arith}
use go_runit.Builder.Store.Frame.{
  IsWithin, IsSvlogdWithin, IsIn, Agree, value-Agree, update_ne, Extends, Extends-Agree,
  alloc-Extends,
}
use go_runit.Builder.Store.Clone.{clone-IsClone, clone-Extends}

-- What the program does after a clone: calls on a builder, further clones of it, and writes and
-- allocations of its own.
pub data HeapEvent : Type 0 where
  called : BuilderCall → HeapEvent
  cloned : HeapEvent
  wrote : ℕ → Object → HeapEvent
  allocated : Object → HeapEvent

unfoldable pub step : HeapEvent → Heap × ConfigObject → Heap × ConfigObject
step (called k) (h, c) = builder_call k h c
step cloned (h, c) = ((clone c h).1, c)
step (wrote p o) (h, c) = (write p o h, c)
step (allocated o) (h, c) = ((alloc o h).1, c)

unfoldable pub run_events : List HeapEvent → Heap × ConfigObject → Heap × ConfigObject
run_events [] st = st
run_events (e ∷ es) st = run_events es (step e st)

-- The program writes to no cell from `lo` up to `hi`, except through the builder.
abbrev pub AreOutside : ℕ → ℕ → List HeapEvent → Type 0
AreOutside lo hi [] = Unit
AreOutside lo hi (wrote p o ∷ es) = (lo ≤ p → hi ≤ p) × AreOutside lo hi es
AreOutside lo hi (e ∷ es) = AreOutside lo hi es

-- A pointer that is nil, or leads to none of the cells from `lo` up to `hi`.
abbrev IsOut : ℕ → ℕ → Option ℕ → Type 0
IsOut lo hi none = Unit
IsOut lo hi (some p) = lo ≤ p → hi ≤ p

-- The cells are as they were in `f`, and a builder with these pointers writes to none of them.
record Apart (lo hi : ℕ) (f : ℕ → Object) (h : Heap) (env chpst svlogd : Option ℕ) : Type 0 where
  next_le : hi ≤ h.next
  agree : Agree lo hi f h.cell
  env_out : IsOut lo hi env
  chpst_out : IsOut lo hi chpst
  svlogd_out : IsOut lo hi svlogd

abbrev IsApart : ℕ → ℕ → (ℕ → Object) → Heap × ConfigObject → Type 0
IsApart lo hi f (h, c) = Apart lo hi f h c.env c.chpst c.svlogd

write-Agree :
    (lo hi : ℕ) (f g : ℕ → Object) (p : ℕ) (o : Object)
    → (lo ≤ p → hi ≤ p)
    → Agree lo hi f g
    → Agree lo hi f (update g p o)
write-Agree lo hi f g p o out e a x y =
    update_ne g p o a (λ q. absurd (omega (arith, q, out (omega (arith, q))))) ∙ e a x y

-- The same of `ensure` and `modify`: the pointer, the next cell and the cells.
record IsWritten (lo hi : ℕ) (f : ℕ → Object) (p : ℕ) (h : Heap) : Type 0 where
  out : lo ≤ p → hi ≤ p
  next_le : hi ≤ h.next
  agree : Agree lo hi f h.cell

ensure-IsWritten :
    (lo hi : ℕ) (f : ℕ → Object) (o : Object) (u : Object → Object) (s : Option ℕ) (h : Heap)
    → hi ≤ h.next
    → Agree lo hi f h.cell
    → IsOut lo hi s
    → IsWritten lo hi f (ensure o s h).0 (modify u (ensure o s h))
ensure-IsWritten lo hi f o u (some p) h q e out = record {
  out = out;
  next_le = q;
  agree = write-Agree lo hi f h.cell p _ out e;
}
ensure-IsWritten lo hi f o u none h q e out = record {
  out = λ x. q;
  next_le = omega arith;
  agree = write-Agree lo hi f _ h.next _ (λ x. q) (write-Agree lo hi f h.cell h.next o (λ x. q) e);
}

call-IsApart :
    (lo hi : ℕ) (f : ℕ → Object) (k : BuilderCall) (h : Heap) (c : ConfigObject)
    → IsApart lo hi f (h, c)
    → IsApart lo hi f (builder_call k h c)
unfolding builder_call
call-IsApart lo hi f (with_cmd s) h c i = i
call-IsApart lo hi f (with_cwd d) h c i = i
call-IsApart lo hi f (with_umask m) h c i = i
call-IsApart lo hi f (with_env k v) h c i =
    let w =
      ensure-IsWritten lo hi f (env_map []) (λ o. env_map (put_env k v (env_of o))) c.env h
        i.next_le i.agree i.env_out in
    record {
      next_le = w.next_le;
      agree = w.agree;
      env_out = w.out;
      chpst_out = i.chpst_out;
      svlogd_out = i.svlogd_out;
    }
call-IsApart lo hi f (with_env_map m) h c i =
    let w =
      ensure-IsWritten lo hi f (env_map []) (λ o. env_map (put_all m (env_of o))) c.env h i.next_le
        i.agree i.env_out in
    record {
      next_le = w.next_le;
      agree = w.agree;
      env_out = w.out;
      chpst_out = i.chpst_out;
      svlogd_out = i.svlogd_out;
    }
call-IsApart lo hi f (with_chpst u) h c i =
    let w =
      ensure-IsWritten lo hi f (chpst_object empty_chpst) (λ o. chpst_object (u (chpst_of o)))
        c.chpst h i.next_le i.agree i.chpst_out in
    record {
      next_le = w.next_le;
      agree = w.agree;
      env_out = i.env_out;
      chpst_out = w.out;
      svlogd_out = i.svlogd_out;
    }
call-IsApart lo hi f (with_chpst_path p) h c i = i
call-IsApart lo hi f (with_svlogd u) h c i =
    let w =
      ensure-IsWritten lo hi f (svlogd_object (default_svlogd none))
        (λ o. svlogd_object (u (svlogd_of o))) c.svlogd h i.next_le i.agree i.svlogd_out in
    record {
      next_le = w.next_le;
      agree = w.agree;
      env_out = i.env_out;
      chpst_out = i.chpst_out;
      svlogd_out = w.out;
    }
call-IsApart lo hi f (with_svlogd_path p) h c i = i
call-IsApart lo hi f (with_finish s) h c i = i
call-IsApart lo hi f (with_stderr_path p) h c i = i

-- A heap that has all the old cells leaves the builder apart.
grown-IsApart :
    (lo hi : ℕ) (f : ℕ → Object) (h g : Heap) (c : ConfigObject)
    → Extends h g
    → IsApart lo hi f (h, c)
    → IsApart lo hi f (g, c)
grown-IsApart lo hi f h g c x i = record {
  next_le = omega (arith, i.next_le, x.next_le);
  agree = λ a p q. x.old a (omega (arith, i.next_le)) ∙ i.agree a p q;
  env_out = i.env_out;
  chpst_out = i.chpst_out;
  svlogd_out = i.svlogd_out;
}

run-IsApart :
    (lo hi : ℕ) (f : ℕ → Object) (es : List HeapEvent) (st : Heap × ConfigObject)
    → AreOutside lo hi es
    → IsApart lo hi f st
    → IsApart lo hi f (run_events es st)
unfolding step run_events
run-IsApart lo hi f [] st a i = i
run-IsApart lo hi f (called k ∷ es) (h, c) a i =
    run-IsApart lo hi f es (builder_call k h c) a (call-IsApart lo hi f k h c i)
run-IsApart lo hi f (cloned ∷ es) (h, c) a i =
    run-IsApart lo hi f es ((clone c h).1, c) a
      (grown-IsApart lo hi f h (clone c h).1 c (clone-Extends c h) i)
run-IsApart lo hi f (wrote p o ∷ es) (h, c) a i =
    run-IsApart lo hi f es (write p o h, c) a.1
      record {
        next_le = i.next_le;
        agree = write-Agree lo hi f h.cell p o a.0 i.agree;
        env_out = i.env_out;
        chpst_out = i.chpst_out;
        svlogd_out = i.svlogd_out;
      }
run-IsApart lo hi f (allocated o ∷ es) (h, c) a i =
    run-IsApart lo hi f es ((alloc o h).1, c) a
      (grown-IsApart lo hi f h (alloc o h).1 c (alloc-Extends o h) i)

-- A configuration in cells that the builder `c` is apart from keeps its value.
run-value :
    (lo hi : ℕ) (kept : ConfigObject) (es : List HeapEvent) (h : Heap) (c : ConfigObject)
    → IsIn lo hi h.cell kept
    → AreOutside lo hi es
    → IsApart lo hi h.cell (h, c)
    → value (run_events es (h, c)).0.cell kept ≡ value h.cell kept
run-value lo hi kept es h c within a i =
    let r = run-IsApart lo hi h.cell es (h, c) a i in
    value-Agree lo hi h.cell (run_events es (h, c)).0.cell kept within r.agree

below-IsOut : (lo hi : ℕ) (s : Option ℕ) → IsWithin 0 lo s → IsOut lo hi s
below-IsOut lo hi none w = tt
below-IsOut lo hi (some p) w = λ x. absurd (omega (arith, w.1, x))

above-IsOut : (lo hi : ℕ) (s : Option ℕ) → IsWithin lo hi s → IsOut 0 lo s
above-IsOut lo hi none w = tt
above-IsOut lo hi (some p) w = λ x. w.0

svlogd-IsWithin :
    (lo hi : ℕ) (f : ℕ → Object) (s : Option ℕ) → IsSvlogdWithin lo hi f s → IsWithin lo hi s
svlogd-IsWithin lo hi f none w = tt
svlogd-IsWithin lo hi f (some p) w = (w.0, w.1)

-- The pointers of a builder are allocated. After `Clone` or `Config`, the builder is called and cloned
-- further in any way, and the program writes to cells that are not the clone's: the clone keeps the value
-- that the builder had. It is the same the other way round: when it is the clone that is called and cloned
-- further, and the program writes to cells that it allocates or that are the clone's, the builder keeps
-- its value.
pub clone-keeps :
    (c : ConfigObject) (h : Heap) (es : List HeapEvent)
    → IsIn 0 h.next h.cell c
    → (AreOutside h.next (clone c h).1.next es
        → value (run_events es ((clone c h).1, c)).0.cell (clone c h).0 ≡ value h.cell c)
      × (AreOutside 0 h.next es
          → value (run_events es ((clone c h).1, (clone c h).0)).0.cell c ≡ value h.cell c)
clone-keeps c h es valid =
    let k = clone-IsClone c h valid in
    let r = clone c h in
    (
      λ a.
          run-value h.next r.1.next r.0 es r.1 c k.own a record {
            next_le = omega arith;
            agree = λ x p q. refl;
            env_out = below-IsOut h.next r.1.next c.env valid.env;
            chpst_out = below-IsOut h.next r.1.next c.chpst valid.chpst;
            svlogd_out =
                below-IsOut h.next r.1.next c.svlogd
                  (svlogd-IsWithin 0 h.next h.cell c.svlogd valid.svlogd);
          }
          ∙ k.same,
      λ a.
          value-Agree 0 h.next h.cell _ c valid
            (run-IsApart 0 h.next h.cell es (r.1, r.0) a
              record {
                next_le = k.extends.next_le;
                agree = Extends-Agree 0 k.extends;
                env_out = above-IsOut h.next r.1.next r.0.env k.own.env;
                chpst_out = above-IsOut h.next r.1.next r.0.chpst k.own.chpst;
                svlogd_out =
                    above-IsOut h.next r.1.next r.0.svlogd
                      (svlogd-IsWithin h.next r.1.next r.1.cell r.0.svlogd k.own.svlogd);
              }).agree,
    )
