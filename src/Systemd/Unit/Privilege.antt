-- ===== src/Systemd/Unit/Privilege.antt =====
-- What the builder of units does with `sudo`, against what it does without.
use go_runit.Common.{
  suc, Bool, ℕ, ◌≡◌, ◌↔◌, ◌⊎◌, inl, inr, refl, true, false, Option, none, some, [], ◌∷◌, map,
}
use go_runit.Systemd.Unit.Install.{
  done, doing, unless_failed, reload_systemd, BuilderSystemd, Effect, ran, fed, wrote, Procedure,
  carry_out, InstallError, install, build_with_context, enable, remove,
}
use go_runit.Systemd.{exec_systemctl, systemctl_verb}
use mathlib.Core.Option
use go_runit.Common.Text.{codes}
use go_runit.Wire.{Bytes}
use go_runit.Systemd.Exec.{Reply}
use go_runit.Systemd.Unit.{UnitError, build_systemd_unit}

-- The same effect through `sudo`: a command with it in front, and for a file `tee` with its text.
abbrev pub elevated : Bytes → Effect → Effect
elevated sudo (ran argv) = ran (sudo ∷ argv)
elevated sudo (fed argv text) = fed (sudo ∷ argv) text
elevated sudo (wrote path text mode) = fed (sudo ∷ codes "tee" ∷ path ∷ []) text

-- With the same replies, the second has the effects of the first through `sudo`, and returns nil when
-- the first does.
abbrev pub Elevates :
    Bytes → (ℕ → Reply) → Procedure (Option InstallError) → Procedure (Option InstallError) → Type 0
Elevates sudo w p q =
    ((carry_out w 0 q).1 ≡ map (elevated sudo) (carry_out w 0 p).1)
    × (((carry_out w 0 q).0 ≡ none) ↔ ((carry_out w 0 p).0 ≡ none))

abbrev pub using : Bool → BuilderSystemd → BuilderSystemd
using sudo b = record b { use_sudo = sudo }

-- The same for every reply, effect by effect.
abbrev Lifts : Bytes → Procedure (Option InstallError) → Procedure (Option InstallError) → Type 0
Lifts sudo (done a) (done b) = (b ≡ none) ↔ (a ≡ none)
Lifts sudo (doing e k) (doing f h) = (f ≡ elevated sudo e) × ((r : Reply) → Lifts sudo (k r) (h r))
Lifts sudo _ _ = ⊥

Lifts-Elevates :
    (sudo : Bytes) (w : ℕ → Reply) (n : ℕ) (p q : Procedure (Option InstallError))
    → Lifts sudo p q
    → ((carry_out w n q).1 ≡ map (elevated sudo) (carry_out w n p).1)
      × (((carry_out w n q).0 ≡ none) ↔ ((carry_out w n p).0 ≡ none))
Lifts-Elevates sudo w n (done a) (done b) h = (refl, h)
Lifts-Elevates sudo w n (doing e k) (doing f g) (eq, h) =
    let r = Lifts-Elevates sudo w (suc n) (k (w n)) (g (w n)) (h (w n)) in (rw (eq, r.0) refl, r.1)
Lifts-Elevates sudo w n (done a) (doing f g) h = absurd h
Lifts-Elevates sudo w n (doing e k) (done b) h = absurd h

map-nil :
    (f g : Bytes → InstallError) (e : Option Bytes)
    → (Option.map f e ≡ none) ↔ (Option.map g e ≡ none)
map-nil f g none = (λ q. refl, λ q. refl)
map-nil f g (some x) = (λ q. cc, λ q. cc)

unless_failed-Lifts :
    (sudo : Bytes) (f g : Bytes → InstallError) (e : Option Bytes)
    (p q : Procedure (Option InstallError))
    → Lifts sudo p q
    → Lifts sudo (unless_failed (Option.map f e) p) (unless_failed (Option.map g e) q)
unless_failed-Lifts sudo f g none p q h = h
unless_failed-Lifts sudo f g (some x) p q h = (λ z. cc, λ z. cc)

reload-Lifts :
    (b : BuilderSystemd)
    → Lifts b.sudo_command (reload_systemd (using false b)) (reload_systemd (using true b))
reload-Lifts b = (refl, λ r. map-nil _ _ r.error)

install-Lifts :
    (b : BuilderSystemd) (x : UnitError ⊎ Bytes)
    → Lifts b.sudo_command (install (using false b) x) (install (using true b) x)
install-Lifts b (inl e) = (λ q. cc, λ q. cc)
install-Lifts b (inr content) =
    (refl, λ r. unless_failed-Lifts b.sudo_command _ _ r.error _ _ (reload-Lifts b))

enable-Lifts :
    (b : BuilderSystemd) → Lifts b.sudo_command (enable (using false b)) (enable (using true b))
unfolding enable
enable-Lifts b = (refl, λ r. map-nil _ _ r.error)

remove-Lifts :
    (b : BuilderSystemd) → Lifts b.sudo_command (remove (using false b)) (remove (using true b))
unfolding remove systemctl_verb exec_systemctl
remove-Lifts b = (
  refl,
  λ r. (
    refl,
    λ r'. (refl, λ r''. unless_failed-Lifts b.sudo_command _ _ r''.error _ _ (reload-Lifts b)),
  ),
)

-- `Build`, `Enable` and `Remove` with `sudo` do what they do without it, in the same order, each
-- command with the `sudo` command in front and the unit file written by `tee` in place of the package
-- itself; with the same replies they return nil in the same cases.
pub install_privileged :
    (b : BuilderSystemd) (w : ℕ → Reply)
    → Elevates b.sudo_command w
        (build_with_context (using false b))
        (build_with_context (using true b))
      × Elevates b.sudo_command w (enable (using false b)) (enable (using true b))
      × Elevates b.sudo_command w (remove (using false b)) (remove (using true b))
unfolding build_with_context
install_privileged b w = (
  Lifts-Elevates b.sudo_command w 0 _ _ (install-Lifts b (build_systemd_unit b.config)),
  Lifts-Elevates b.sudo_command w 0 _ _ (enable-Lifts b),
  Lifts-Elevates b.sudo_command w 0 _ _ (remove-Lifts b),
)
