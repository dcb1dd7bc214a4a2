-- ===== src/DevTree/Stopping.antt =====
-- Which process `StopRunsvdir` signals, and when it removes the PID file.
use go_runit.DevTree.{
  reading_pid_file, fails, ends, stop_process, DevTree, Answer, Request, read_file, ProcessSignal,
  interrupt_signal, kill_signal, DevTreeError, pid_file, ensure_runsvdir, stop_runsvdir,
}
use go_runit.Common.{
  ℕ, ◌^◌, ◌≤◌, ◌<◌, ◌≡◌, ◌⊎◌, inl, inr, refl, Option, none, some, Bool-cases, List, [], ◌∷◌, map,
  arith, if◌then◌else◌,
}
use go_runit.Common.Int.{ℤ, pos_part, neg_part}
use go_runit.Common.Text.Decimal.{format_int, atoi, atoi-format_int}
use go_runit.Wire.{Bytes}
use go_runit.DevTree.Logs.{Log, logged, Always, logged-Always, on_error-Always, of_log}
use go_runit.DevTree.Processes.{
  started, recorded, signalled, removed, if_ok, ensure_runsvdir-IsEnsured,
}

abbrev read_by : Request × Answer → List Bytes
read_by (read_file path, r) = if_ok r.error r.data_read
read_by _ = []

abbrev pub read : Log → List Bytes
read = of_log read_by

-- Nil: there is no PID file to read, and nothing is done, or the process of the PID file took a signal,
-- and then the PID file is removed. With an error nothing took a signal and nothing is removed.
abbrev pub IsStopped : DevTree → Option DevTreeError → Log → Type 0
IsStopped d none l =
    ((read l ≡ []) × (signalled l ≡ []) × (removed l ≡ []))
    ⊎ ((text : Bytes) × (pid : ℤ) × (s : ProcessSignal) × (read l ≡ text ∷ [])
        × (atoi text ≡ some pid)
        × (signalled l ≡ (pid, s) ∷ [])
        × (removed l ≡ pid_file d ∷ []))
IsStopped d (some e) l = (signalled l ≡ []) × (removed l ≡ [])

stop_process-IsStopped :
    (d : DevTree) (r : Answer) (pid : Option ℤ)
    → r.error ≡ none
    → atoi r.data_read ≡ pid
    → Always (λ b m. IsStopped d b ((read_file (pid_file d), r) ∷ m)) (stop_process d pid)
stop_process-IsStopped d r none h e = (refl, refl)
stop_process-IsStopped d r (some pid) h e = λ f.
    on_error-Always _ f.error _ _ (λ x q. (refl, refl))
      (λ q. λ s.
        on_error-Always _ s.error _ _
          (λ x q'. λ k.
            on_error-Always _ k.error _ _ (λ y z. rw (q', z) (refl, refl))
              (λ z. λ v. rw (h, q', z) (inr (r.data_read, pid, kill_signal, refl, e, refl, refl))))
          (λ q'. λ v. rw (h, q') (inr (r.data_read, pid, interrupt_signal, refl, e, refl, refl))))

no_file-IsStopped :
    (d : DevTree) (r : Answer) (x : Bytes)
    → r.error ≡ some x
    → Always
        (λ b m. IsStopped d b ((read_file (pid_file d), r) ∷ m))
        (if r.is_not_exist then ends none else fails reading_pid_file x)
no_file-IsStopped d r x h = elim (Bool-cases r.is_not_exist) [
  | inl e ↦ rw (e, h) (inl (refl, refl, refl))
  | inr e ↦ rw e (refl, refl)
]

-- `StopRunsvdir`, whatever the system answers. If it returns nil, then either the PID file could not be
-- read and it signalled and removed nothing, or the process whose PID is in the PID file took exactly
-- one signal, and the PID file is removed. If it returns an error, no process took a signal and no file
-- is removed.
pub stop_runsvdir-IsStopped :
    (d : DevTree) (w : ℕ → Answer)
    → IsStopped d (logged w 0 (stop_runsvdir d)).0 (logged w 0 (stop_runsvdir d)).1
unfolding stop_runsvdir
stop_runsvdir-IsStopped d w = logged-Always (IsStopped d) w 0 (stop_runsvdir d) (λ r.
    on_error-Always _ r.error _ _ (no_file-IsStopped d r)
      (λ e. stop_process-IsStopped d r (atoi r.data_read) e refl))

-- `StopRunsvdir` after `EnsureRunsvdir`. If `EnsureRunsvdir` started a process and returned nil, and
-- `StopRunsvdir` reads from the PID file what was written to it and returns nil, then exactly one signal
-- was taken, and by the process that was started; its PID is an int64.
pub stops_started :
    (d : DevTree) (w v : ℕ → Answer) (pid : ℤ)
    → pos_part pid < 2 ^ 63
    → neg_part pid ≤ 2 ^ 63
    → (logged w 0 (ensure_runsvdir d)).0 ≡ none
    → started (logged w 0 (ensure_runsvdir d)).1 ≡ pid ∷ []
    → (logged v 0 (stop_runsvdir d)).0 ≡ none
    → map (λ x. (pid_file d, x)) (read (logged v 0 (stop_runsvdir d)).1)
      ≡ recorded (logged w 0 (ensure_runsvdir d)).1
    → (s : ProcessSignal) × (signalled (logged v 0 (stop_runsvdir d)).1 ≡ (pid, s) ∷ [])
stops_started d w v pid p q e st e' same =
    let a = rw e at (ensure_runsvdir-IsEnsured d w) in
    let b = rw e' at (stop_runsvdir-IsStopped d v) in
    elim a [
      | inl none_started ↦ absurd (ground (arith, none_started.0, st))
      | inr (n, started_eq, recorded_eq, k, u) ↦ elim b [
        | inl unread ↦ absurd (ground (arith, rw unread.0 at same, recorded_eq))
        | inr (text, m, s, read_eq, parsed, took, rest) ↦
            let n_eq : n ≡ pid = ground (arith, started_eq, st) in
            let text_eq : text ≡ format_int pid =
              ground (arith, rw read_eq at same, rw n_eq at recorded_eq) in
            let m_eq : m ≡ pid = ground (arith, rw text_eq at parsed, atoi-format_int pid p q) in
            (s, rw m_eq at took)
      ]
    ]
