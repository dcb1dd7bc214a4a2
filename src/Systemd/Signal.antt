-- ===== src/Systemd/Signal.antt =====
-- Which process a signal is sent to.
use mathlib.Core.Option
use go_runit.Common.{
  ℕ, suc, ◌≡◌, ◌≢◌, ◌⊎◌, inl, inr, refl, Bool, true, false, ◌||◌, Option, none, some, List, [], ◌∷◌,
  Bool-cases,
}
use go_runit.Common.Text.{codes, equal, is_empty, trim_space}
use go_runit.Wire.{Bytes}
use go_runit.Systemd.{
  ClientSystemd, as_user, show_property, send_signal, after_show, signal_main_pid,
}
use go_runit.Systemd.Exec.{Command, Reply, execute, Failure, signal_error}

-- No PID, or the PID 0 of a service that does not run.
abbrev pub is_no_pid : Bytes → Bool
is_no_pid pid = is_empty pid || equal pid (codes "0")

abbrev pub kill_command : ClientSystemd → Bytes → Bytes → Command
kill_command c signal pid = as_user c (codes "kill" ∷ (b'-' ∷ signal) ∷ pid ∷ [])

-- The runs of `signalMainPID`: the question for the PID alone, with an error, if that fails or there is
-- no PID; else the question and the signal to the PID that was shown, with the error of `kill`.
abbrev pub IsSignalled :
    ClientSystemd → Bytes → (ℕ → Reply) → ℕ → Option Failure × List Command → Type 0
IsSignalled c signal w n r =
    let pid = trim_space (w n).stdout in
    ((((w n).error ≢ none) ⊎ (is_no_pid pid ≡ true))
      × (r.0 ≢ none)
      × (r.1 ≡ show_property c (codes "MainPID") ∷ []))
    ⊎ (((w n).error ≡ none)
        × (is_no_pid pid ≡ false)
        × (r.0 ≡ Option.map (signal_error signal pid) (w (suc n)).error)
        × (r.1 ≡ show_property c (codes "MainPID") ∷ kill_command c signal pid ∷ []))

after_show-IsSignalled :
    (c : ClientSystemd) (signal : Bytes) (w : ℕ → Reply) (n : ℕ) (e : Option Bytes)
    → (w n).error ≡ e
    → IsSignalled c signal w n (
      (execute w (suc n) (after_show c signal (w n) e)).0,
      show_property c (codes "MainPID") ∷ (execute w (suc n) (after_show c signal (w n) e)).1,
    )
unfolding send_signal
after_show-IsSignalled c signal w n (some x) h = inl (inl (λ q. cc), (λ q. cc), refl)
after_show-IsSignalled c signal w n none h =
    elim (Bool-cases (is_no_pid (trim_space (w n).stdout))) [
      | inl q ↦ rw q (inl (inr refl, (λ z. cc), refl))
      | inr q ↦ rw q (inr (h, refl, refl, refl))
    ]

-- A signal is sent at most once, and only to the PID that `systemctl show` has just answered, which is
-- neither empty nor 0; without such a PID there is an error and no signal.
pub signal_main_pid-IsSignalled :
    (c : ClientSystemd) (signal : Bytes) (w : ℕ → Reply) (n : ℕ)
    → IsSignalled c signal w n (execute w n (signal_main_pid c signal))
unfolding signal_main_pid send_signal
signal_main_pid-IsSignalled c signal w n = after_show-IsSignalled c signal w n (w n).error refl
