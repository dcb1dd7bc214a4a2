-- ===== src/Systemd/Once.antt =====
-- `runOnce`: the command of `ExecStart`, run by `systemd-run`.
use mathlib.Core.Option
use go_runit.Common.{
  Bool, false, ◌&&◌, Option, none, some, List, [], ◌∷◌, ◌++◌, if◌then◌else◌, ◌-◌, length, take,
  drop, ◌==◌,
}
use go_runit.Common.Text.{codes, is_empty, has_prefix, trim_prefix, trim_space, split, fields}
use go_runit.Wire.{Bytes}
use go_runit.Systemd.{ClientSystemd, as_user, show_property}
use go_runit.Systemd.Exec.{
  Reply, Program, returns, run, Failure, exec_start_error, no_exec_start, once_error,
}

-- `strings.HasSuffix(s, "}")`
abbrev pub ends_in_brace : Bytes → Bool
ends_in_brace [] = false
ends_in_brace (c ∷ []) = c == b'}'
ends_in_brace (c ∷ d ∷ ds) = ends_in_brace (d ∷ ds)

-- The loop over the parts: the arguments end it, a path is kept until they are found.
unfoldable pub scan_parts : List Bytes → Bytes → Bytes
scan_parts [] found = found
scan_parts (part ∷ parts) found =
    let p = trim_space part in
    let keep = scan_parts parts found in
    let fallback = scan_parts parts (trim_prefix p (codes "path=")) in
    if has_prefix p (codes "argv[]=")
    then trim_prefix p (codes "argv[]=")
    else if has_prefix p (codes "path=")
    then fallback
    else keep

-- The command in what `show -p ExecStart` prints: `execStart[1:len(execStart)-1]`, cut at `;`.
unfoldable pub start_command : Bytes → Bytes
unfolding scan_parts
start_command s =
    if has_prefix s (codes "{") && ends_in_brace s
    then scan_parts (split (drop 1 (take (length s - 1) s)) b';') s
    else s

unfoldable pub run_words : ClientSystemd → Bytes → List Bytes → Program (Option Failure)
run_words c user words =
    run (as_user c (codes "systemd-run" ∷ codes "--no-block" ∷ (codes "--uid=" ++ user) ∷ words))
      (λ r. returns (Option.map once_error r.error))

unfoldable pub on_exec_start : ClientSystemd → Bytes → Reply → Program (Option Failure)
unfolding run_words start_command
on_exec_start c user r = elim r.error [
  | some e ↦ returns (some (exec_start_error e r.stderr))
  | none ↦
      let s = trim_space r.stdout in
      if is_empty s
      then returns (some no_exec_start)
      else run_words c user (fields (start_command s))
]

-- `runOnce`, for the value of the variable `USER`.
unfoldable pub run_once : ClientSystemd → Bytes → Program (Option Failure)
unfolding on_exec_start
run_once c user = run (show_property c (codes "ExecStart")) (on_exec_start c user)
