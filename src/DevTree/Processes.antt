-- ===== src/DevTree/Processes.antt =====
-- The processes that a development tree starts, records, signals and forgets.
use go_runit.DevTree.{
  log_dir, enabled_dir, services_dir, if_running, make_all, start_runsvdir, ProcessSignal, DevTree,
  Answer, Request, read_file, find_process, signal_process, start_process, write_file, remove_file,
  null_signal, kill_signal, SystemProgram, DevTreeError, pid_file, ensure_tree, launch_runsvdir,
  ensure_runsvdir,
}
use go_runit.DevTree.Logs.{
  of_log-quiet, Log, logged, Always, logged-Always, Always-map, Always-bind, on_error-Always,
  of_log,
}
use go_runit.Common.{ℕ, ◌≡◌, ◌⊎◌, inl, inr, refl, Option, none, some, List, [], ◌∷◌, ◌++◌}
use go_runit.Common.Int.{ℤ}
use go_runit.Common.Text.Decimal.{format_int, atoi}
use go_runit.Wire.{Bytes}

abbrev pub if_ok {ℓ} : {A : Type ℓ} → Option Bytes → A → List A
if_ok none a = a ∷ []
if_ok (some e) a = []

-- What each entry of a log starts, kills, records in a file, signals with success, and removes.
abbrev started_by : Request × Answer → List ℤ
started_by (start_process argv dir, r) = if_ok r.error r.pid
started_by _ = []

abbrev killed_by : Request × Answer → List ℤ
killed_by (signal_process pid kill_signal, r) = pid ∷ []
killed_by _ = []

abbrev recorded_by : Request × Answer → List (Bytes × Bytes)
recorded_by (write_file path text, r) = if_ok r.error (path, text)
recorded_by _ = []

abbrev signalled_by : Request × Answer → List (ℤ × ProcessSignal)
signalled_by (signal_process pid s, r) = if_ok r.error (pid, s)
signalled_by _ = []

abbrev removed_by : Request × Answer → List Bytes
removed_by (remove_file path, r) = path ∷ []
removed_by _ = []

abbrev pub started : Log → List ℤ
started = of_log started_by

abbrev pub killed : Log → List ℤ
killed = of_log killed_by

abbrev pub recorded : Log → List (Bytes × Bytes)
recorded = of_log recorded_by

abbrev pub signalled : Log → List (ℤ × ProcessSignal)
signalled = of_log signalled_by

abbrev pub removed : Log → List Bytes
removed = of_log removed_by

-- The process of the PID file answers to the null signal, or a process is started and recorded in the
-- PID file; with an error no process is left that was started and not killed, and no file was written.
-- No file is removed in any case.
abbrev pub IsEnsured : DevTree → Option DevTreeError → Log → Type 0
IsEnsured d none l =
    ((started l ≡ [])
      × (recorded l ≡ [])
      × (removed l ≡ [])
      × ((pid : ℤ) × (signalled l ≡ (pid, null_signal) ∷ [])))
    ⊎ ((pid : ℤ) × (started l ≡ pid ∷ [])
        × (recorded l ≡ (pid_file d, format_int pid) ∷ [])
        × (killed l ≡ [])
        × (removed l ≡ []))
IsEnsured d (some e) l = (started l ≡ killed l) × (recorded l ≡ []) × (removed l ≡ [])

-- A log that starts, kills, records, signals and removes nothing.
abbrev IsQuiet : Log → Type 0
IsQuiet l =
    (started l ≡ []) × (killed l ≡ []) × (recorded l ≡ []) × (signalled l ≡ []) × (removed l ≡ [])

make_all-IsQuiet : (dirs : List Bytes) → Always (λ a l. IsQuiet l) (make_all dirs)
make_all-IsQuiet [] = (refl, refl, refl, refl, refl)
make_all-IsQuiet (dir ∷ dirs) = λ r.
    on_error-Always _ r.error _ _ (λ x e. (refl, refl, refl, refl, refl))
      (λ e. make_all-IsQuiet dirs)

quiet-IsEnsured :
    (d : DevTree) (b : Option DevTreeError) (l m : Log)
    → IsQuiet l
    → IsEnsured d b m
    → IsEnsured d b (l ++ m)
quiet-IsEnsured d none l m (s, k, c, g, v) h =
    rw
      (
        of_log-quiet started_by l m s,
        of_log-quiet killed_by l m k,
        of_log-quiet recorded_by l m c,
        of_log-quiet signalled_by l m g,
        of_log-quiet removed_by l m v,
      )
      h
quiet-IsEnsured d (some e) l m (s, k, c, g, v) h =
    rw
      (
        of_log-quiet started_by l m s,
        of_log-quiet killed_by l m k,
        of_log-quiet recorded_by l m c,
        of_log-quiet removed_by l m v,
      )
      h

start-IsEnsured : (d : DevTree) → Always (IsEnsured d) (start_runsvdir d none)
start-IsEnsured d = λ r.
    on_error-Always _ r.error _ _ (λ x e. rw e (refl, refl, refl))
      (λ e. λ p.
        on_error-Always _ p.error _ _ (λ x q. λ k. rw (e, q) (refl, refl, refl))
          (λ q. rw (e, q) (inr (r.pid, refl, refl, refl, refl))))

-- Behind a log that is quiet.
after_quiet :
    (d : DevTree) (l : Log) (p : SystemProgram (Option DevTreeError))
    → IsQuiet l
    → Always (IsEnsured d) p
    → Always (λ b m. IsEnsured d b (l ++ m)) p
after_quiet d l p q =
    Always-map (IsEnsured d) (λ b m. IsEnsured d b (l ++ m)) p
      (λ b m h. quiet-IsEnsured d b l m q h)

made-IsEnsured :
    (d : DevTree) (a : Option DevTreeError) (l : Log)
    → IsQuiet l
    → Always (λ b m. IsEnsured d b (l ++ m)) (start_runsvdir d a)
made-IsEnsured d none l q = after_quiet d l (start_runsvdir d none) q (start-IsEnsured d)
made-IsEnsured d (some e) l q = quiet-IsEnsured d (some e) l [] q (refl, refl, refl)

launch-IsEnsured : (d : DevTree) → Always (IsEnsured d) (launch_runsvdir d)
unfolding launch_runsvdir ensure_tree
launch-IsEnsured d =
    let dirs = services_dir d ∷ enabled_dir d ∷ log_dir d ∷ [] in
    Always-bind (IsEnsured d) (make_all dirs) (start_runsvdir d) (
      Always-map (λ a l. IsQuiet l)
        (λ a l. Always (λ b m. IsEnsured d b (l ++ m)) (start_runsvdir d a)) (make_all dirs)
        (made-IsEnsured d) (make_all-IsQuiet dirs))

running-IsEnsured :
    (d : DevTree) (r : Answer) (pid : Option ℤ)
    → Always
        (λ b m. IsEnsured d b ((read_file (pid_file d), r) ∷ m))
        (if_running (launch_runsvdir d) pid)
running-IsEnsured d r none =
    after_quiet d ((read_file (pid_file d), r) ∷ []) (launch_runsvdir d)
      (refl, refl, refl, refl, refl) (launch-IsEnsured d)
running-IsEnsured d r (some pid) = λ f.
    on_error-Always _ f.error _ _
      (λ x e.
        after_quiet d ((read_file (pid_file d), r) ∷ (find_process pid, f) ∷ []) (launch_runsvdir d)
          (refl, refl, refl, refl, refl) (launch-IsEnsured d))
      (λ e. λ s.
        on_error-Always _ s.error _ _
          (λ x q.
            after_quiet d
              ((read_file (pid_file d), r)
                ∷ (find_process pid, f)
                ∷ (signal_process pid null_signal, s)
                ∷ [])
              (launch_runsvdir d) (refl, refl, refl, rw q refl, refl) (launch-IsEnsured d))
          (λ q. rw q (inl (refl, refl, refl, (pid, refl)))))

-- `EnsureRunsvdir`, whatever the system answers. If it returns nil, then either it started nothing, and
-- a process answered to its null signal, or it started one process, wrote the PID of that process, in
-- decimal, to the PID file and nothing else to any file, and did not kill it. If it returns an error,
-- every process that it started it sent a kill, and no write of a file, the PID file included, was
-- answered with success. In no case does it remove a file.
pub ensure_runsvdir-IsEnsured :
    (d : DevTree) (w : ℕ → Answer)
    → IsEnsured d (logged w 0 (ensure_runsvdir d)).0 (logged w 0 (ensure_runsvdir d)).1
unfolding ensure_runsvdir
ensure_runsvdir-IsEnsured d w = logged-Always (IsEnsured d) w 0 (ensure_runsvdir d) (λ r.
    on_error-Always _ r.error _ _
      (λ x e.
        after_quiet d ((read_file (pid_file d), r) ∷ []) (launch_runsvdir d)
          (refl, refl, refl, refl, refl) (launch-IsEnsured d))
      (λ e. running-IsEnsured d r (atoi r.data_read)))
