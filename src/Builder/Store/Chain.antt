-- ===== src/Builder/Store/Chain.antt =====
-- A chain of calls on a new builder, against the same chain on values.
use go_runit.Common.{◌≡◌, ◌∙◌, ap, refl, List, [], ◌∷◌}
use go_runit.Wire.{Bytes}
use go_runit.Builder.Config.{ServiceBuilderConfig}
use go_runit.Builder.Store.{
  Heap, ConfigObject, BuilderCall, builder_call, new_service_builder, value,
}
use go_runit.Builder.Store.Typed.{IsTyped}
use go_runit.Builder.Store.Refine.{Meaning, builder_call-refines}

-- The calls, one on what the other returns.
abbrev pub builder_calls : List BuilderCall → Heap × ConfigObject → Heap × ConfigObject
builder_calls [] b = b
builder_calls (k ∷ ks) b = builder_calls ks (builder_call k b.0 b.1)

-- What a chain does to the value of a configuration, each call with its meaning in the heap it meets.
pub data ChainMeaning
    : Heap × ConfigObject
      → List BuilderCall
      → (ServiceBuilderConfig → ServiceBuilderConfig)
      → Type 0 where
  no_call : {b : Heap × ConfigObject} → ChainMeaning b [] (λ v. v)
  one_call :
      {b : Heap × ConfigObject} {k : BuilderCall} {ks : List BuilderCall}
      {f g : ServiceBuilderConfig → ServiceBuilderConfig}
      → Meaning b.0 k f
      → ChainMeaning (builder_call k b.0 b.1) ks g
      → ChainMeaning b (k ∷ ks) (λ v. g (f v))

abbrev pub IsRefined : Heap × ConfigObject → ServiceBuilderConfig → Type 0
IsRefined b v = IsTyped b.0 b.1 × (value b.0.cell b.1 ≡ v)

builder_calls-IsRefined :
    (b : Heap × ConfigObject) (ks : List BuilderCall)
    (f : ServiceBuilderConfig → ServiceBuilderConfig)
    → IsTyped b.0 b.1
    → ChainMeaning b ks f
    → IsRefined (builder_calls ks b) (f (value b.0.cell b.1))
builder_calls-IsRefined b _ _ y no_call = (y, refl)
builder_calls-IsRefined b _ _ y (one_call {k = k} {ks = ks} {f = f} {g = g} m ms) =
    let r = builder_call-refines b.0 b.1 k f y m in
    let s = builder_calls-IsRefined (builder_call k b.0 b.1) ks g r.0 ms in (s.0, s.1 ∙ ap g r.1)

-- Any chain of calls on a new builder, in any heap, where each call has a meaning on values. Behind the
-- chain every pointer of the configuration leads to an object of its type, and the value of the
-- configuration is what the meanings make, one after another, of the value of a new one: which slices,
-- maps and structs are shared or made on the way does not show in it.
pub builder_chain-IsRefined :
    (h : Heap) (name dir : Bytes) (ks : List BuilderCall)
    (f : ServiceBuilderConfig → ServiceBuilderConfig)
    → ChainMeaning (h, new_service_builder name dir) ks f
    → IsRefined
        (builder_calls ks (h, new_service_builder name dir))
        (f (value h.cell (new_service_builder name dir)))
builder_chain-IsRefined h name dir ks f m =
    builder_calls-IsRefined (h, new_service_builder name dir) ks f
      (record {
        cmd_typed = tt;
        finish_typed = tt;
        env_typed = tt;
        chpst_typed = tt;
        svlogd_typed = tt;
        lines_typed = tt;
      })
      m
