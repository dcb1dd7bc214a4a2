-- ===== src/Builder/Store/Typed.antt =====
-- The types of the objects that the pointers of a builder lead to, and what a change of one object keeps.
use go_runit.Common.{ℕ, ◌≤◌, ◌<◌, ◌≡◌, ◌≢◌, refl, sym, ap, ◌∙◌, Option, none, some, arith}
use go_runit.Builder.Store.{
  Slice, Object, words, env_map, chpst_object, svlogd_object, Heap, update, ConfigObject, svlogd_of,
  words_at, env_at, chpst_at, svlogd_at, ensure, modify,
}
use go_runit.Builder.Store.Frame.{update_ne, update_self}

abbrev pub kind : Object → ℕ
kind (words ws) = 0
kind (env_map m) = 1
kind (chpst_object c) = 2
kind (svlogd_object s) = 3

-- The pointer is nil, or leads to an allocated object of the kind.
abbrev pub IsKind : ℕ → Heap → Option ℕ → Type 0
IsKind k h none = Unit
IsKind k h (some p) = (p < h.next) × (kind (h.cell p) ≡ k)

abbrev pub AreLines : Heap → Option ℕ → Type 0
AreLines h none = Unit
AreLines h (some p) = IsKind 0 h (svlogd_of (h.cell p)).config

-- Each pointer leads to an object of its type.
pub record Typed (h : Heap) (cmd finish env chpst svlogd : Option ℕ) : Type 0 where
  pub cmd_typed : IsKind 0 h cmd
  pub finish_typed : IsKind 0 h finish
  pub env_typed : IsKind 1 h env
  pub chpst_typed : IsKind 2 h chpst
  pub svlogd_typed : IsKind 3 h svlogd
  pub lines_typed : AreLines h svlogd

abbrev pub IsTyped : Heap → ConfigObject → Type 0
IsTyped h c = Typed h c.cmd c.finish c.env c.chpst c.svlogd

-- Only objects of the kind `k` differ.
pub record ChangesOnly (k : ℕ) (h g : Heap) : Type 0 where
  pub next_le : h.next ≤ g.next
  pub kept : (q : ℕ) → q < h.next → kind (h.cell q) ≢ k → g.cell q ≡ h.cell q

module _ (k : ℕ) (h g : Heap) (x : ChangesOnly k h g) where
  kept_cell : (j p : ℕ) → j ≢ k → IsKind j h (some p) → g.cell p ≡ h.cell p
  kept_cell j p n y = x.kept p y.0 (λ e. n (sym y.1 ∙ e))

  pub kept-IsKind : (j : ℕ) (s : Option ℕ) → j ≢ k → IsKind j h s → IsKind j g s
  kept-IsKind j none n y = tt
  kept-IsKind j (some p) n y = (omega (arith, y.0, x.next_le), ap kind (kept_cell j p n y) ∙ y.1)

  pub kept_words : (s : Slice) → 0 ≢ k → IsKind 0 h s → words_at g.cell s ≡ words_at h.cell s
  kept_words none n y = refl
  kept_words (some p) n y = rw (kept_cell 0 p n y) refl

  pub kept_env : (s : Option ℕ) → 1 ≢ k → IsKind 1 h s → env_at g.cell s ≡ env_at h.cell s
  kept_env none n y = refl
  kept_env (some p) n y = rw (kept_cell 1 p n y) refl

  pub kept_chpst : (s : Option ℕ) → 2 ≢ k → IsKind 2 h s → chpst_at g.cell s ≡ chpst_at h.cell s
  kept_chpst none n y = refl
  kept_chpst (some p) n y = rw (kept_cell 2 p n y) refl

  pub kept_svlogd :
      (s : Option ℕ)
      → 3 ≢ k
      → 0 ≢ k
      → IsKind 3 h s
      → AreLines h s
      → svlogd_at g.cell s ≡ svlogd_at h.cell s
  kept_svlogd none n m y l = refl
  kept_svlogd (some p) n m y l =
      rw (kept_cell 3 p n y, kept_words (svlogd_of (h.cell p)).config m l) refl

  pub kept-AreLines : (s : Option ℕ) → 3 ≢ k → 0 ≢ k → IsKind 3 h s → AreLines h s → AreLines g s
  kept-AreLines none n m y l = tt
  kept-AreLines (some p) n m y l =
      rw (kept_cell 3 p n y) (kept-IsKind 0 (svlogd_of (h.cell p)).config m l)

-- The object that is changed: the one that is there, or the new one.
abbrev pub before : Object → Option ℕ → Heap → Object
before o none h = o
before o (some p) h = h.cell p

pub record IsModified (k : ℕ) (h : Heap) (o : Object) (p : ℕ) (g : Heap) : Type 0 where
  pub changes : ChangesOnly k h g
  pub here : g.cell p ≡ o
  pub there : p < g.next

pub modify-IsModified :
    (k : ℕ) (o : Object) (u : Object → Object) (s : Option ℕ) (h : Heap)
    → IsKind k h s
    → IsModified k h (u (before o s h)) (ensure o s h).0 (modify u (ensure o s h))
modify-IsModified k o u (some p) h y = record {
  changes = record {
    next_le = omega arith;
    kept = λ q l n. update_ne h.cell p _ q (λ e. n (ap (λ a. kind (h.cell a)) e ∙ y.1));
  };
  here = update_self h.cell p _;
  there = y.0;
}
modify-IsModified k o u none h y = record {
  changes = record {
    next_le = omega arith;
    kept = λ q l n.
        update_ne (update h.cell h.next o) h.next _ q (λ e. absurd (omega (arith, l, e)))
        ∙ update_ne h.cell h.next o q (λ e. absurd (omega (arith, l, e)));
  };
  here = update_self (update h.cell h.next o) h.next _ ∙ ap u (update_self h.cell h.next o);
  there = omega arith;
}
