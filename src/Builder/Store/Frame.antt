-- ===== src/Builder/Store/Frame.antt =====
-- Which cells a value depends on, and which cells an allocation leaves alone.
use go_runit.Common.{ℕ, ◌≤◌, ◌<◌, ◌≡◌, ◌≢◌, refl, ◌∙◌, Option, none, some, arith}
use go_runit.Builder.Store.{
  Slice, Object, Heap, update, alloc, ConfigObject, svlogd_of, words_at, env_at, chpst_at,
  svlogd_at, value,
}

-- The pointer is nil, or points into the cells from `lo` up to `hi`.
abbrev pub IsWithin : ℕ → ℕ → Option ℕ → Type 0
IsWithin lo hi none = Unit
IsWithin lo hi (some p) = (lo ≤ p) × (p < hi)

abbrev pub IsSvlogdWithin : ℕ → ℕ → (ℕ → Object) → Option ℕ → Type 0
IsSvlogdWithin lo hi f none = Unit
IsSvlogdWithin lo hi f (some p) = (lo ≤ p) × (p < hi) × IsWithin lo hi (svlogd_of (f p)).config

pub record IsIn (lo hi : ℕ) (f : ℕ → Object) (c : ConfigObject) : Type 0 where
  pub cmd : IsWithin lo hi c.cmd
  pub finish : IsWithin lo hi c.finish
  pub env : IsWithin lo hi c.env
  pub chpst : IsWithin lo hi c.chpst
  pub svlogd : IsSvlogdWithin lo hi f c.svlogd

abbrev pub Agree : ℕ → ℕ → (ℕ → Object) → (ℕ → Object) → Type 0
Agree lo hi f g = (a : ℕ) → lo ≤ a → a < hi → g a ≡ f a

pub words_at-Agree :
    (lo hi : ℕ) (f g : ℕ → Object) (s : Slice)
    → IsWithin lo hi s
    → Agree lo hi f g
    → words_at g s ≡ words_at f s
words_at-Agree lo hi f g none h e = refl
words_at-Agree lo hi f g (some p) h e = rw (e p h.0 h.1) refl

pub env_at-Agree :
    (lo hi : ℕ) (f g : ℕ → Object) (s : Option ℕ)
    → IsWithin lo hi s
    → Agree lo hi f g
    → env_at g s ≡ env_at f s
env_at-Agree lo hi f g none h e = refl
env_at-Agree lo hi f g (some p) h e = rw (e p h.0 h.1) refl

pub chpst_at-Agree :
    (lo hi : ℕ) (f g : ℕ → Object) (s : Option ℕ)
    → IsWithin lo hi s
    → Agree lo hi f g
    → chpst_at g s ≡ chpst_at f s
chpst_at-Agree lo hi f g none h e = refl
chpst_at-Agree lo hi f g (some p) h e = rw (e p h.0 h.1) refl

pub svlogd_at-Agree :
    (lo hi : ℕ) (f g : ℕ → Object) (s : Option ℕ)
    → IsSvlogdWithin lo hi f s
    → Agree lo hi f g
    → svlogd_at g s ≡ svlogd_at f s
svlogd_at-Agree lo hi f g none h e = refl
svlogd_at-Agree lo hi f g (some p) h e =
    rw (e p h.0 h.1, words_at-Agree lo hi f g (svlogd_of (f p)).config h.2 e) refl

-- A value depends on the cells that its pointers reach.
pub value-Agree :
    (lo hi : ℕ) (f g : ℕ → Object) (c : ConfigObject)
    → IsIn lo hi f c
    → Agree lo hi f g
    → value g c ≡ value f c
value-Agree lo hi f g c h e =
    rw
      (
        words_at-Agree lo hi f g c.cmd h.cmd e,
        words_at-Agree lo hi f g c.finish h.finish e,
        env_at-Agree lo hi f g c.env h.env e,
        chpst_at-Agree lo hi f g c.chpst h.chpst e,
        svlogd_at-Agree lo hi f g c.svlogd h.svlogd e,
      )
      refl

-- The later heap has the cells of the earlier one.
pub record Extends (h h' : Heap) : Type 0 where
  pub next_le : h.next ≤ h'.next
  pub old : (a : ℕ) → a < h.next → h'.cell a ≡ h.cell a

pub Extends-refl : (h : Heap) → Extends h h
Extends-refl h = record { next_le = omega arith; old = λ a q. refl }

pub Extends-trans : {h g k : Heap} → Extends h g → Extends g k → Extends h k
Extends-trans x y = record {
  next_le = omega (arith, x.next_le, y.next_le);
  old = λ a q. y.old a (omega (arith, x.next_le)) ∙ x.old a q;
}

pub Extends-Agree : {h g : Heap} (lo : ℕ) → Extends h g → Agree lo h.next h.cell g.cell
Extends-Agree lo x a p q = x.old a q

pub update_self : (f : ℕ → Object) (p : ℕ) (o : Object) → update f p o p ≡ o
update_self f p o = ground arith

pub update_ne : (f : ℕ → Object) (p : ℕ) (o : Object) (q : ℕ) → q ≢ p → update f p o q ≡ f q
update_ne f p o q h = ground arith

pub alloc-Extends : (o : Object) (h : Heap) → Extends h (alloc o h).1
alloc-Extends o h = record {
  next_le = omega arith;
  old = λ a q. update_ne h.cell h.next o a (λ e. absurd (omega (arith, e)));
}
