-- ===== src/Builder/Scripts/ReadBack.antt =====
-- The scripts, read by the quoting rules of the POSIX shell.
use go_runit.Common.{
  ◌≡◌, ◌≢◌, ◌∙◌, refl, sym, ap, false, some, List, [], ◌∷◌, ◌++◌, map, get_or, append_assoc,
}
use go_runit.Common.Text.{codes}
use go_runit.Wire.{Bytes}
use go_runit.Builder.{needs_shell_quoting, shell_quote, join_words}
use go_runit.Builder.Line.{NoHash, starts-join, read_words-join, read_line}
use go_runit.Builder.Config.{ServiceBuilderConfig}
use go_runit.Builder.Scripts.{
  join_lines, run_prefix, stderr_line, umask_line, cwd_line, build_run_script,
}

-- Each of the words is not empty, has no character that is special to a shell, and does not start
-- with `#`.
abbrev pub ArePlain : List Bytes → Type 0
ArePlain [] = Unit
ArePlain (w ∷ ws) = (w ≢ []) × (needs_shell_quoting w ≡ false) × (get_or w 0 0 ≢ b'#') × ArePlain ws

shell_quote-plain : (w : Bytes) → w ≢ [] → needs_shell_quoting w ≡ false → shell_quote w ≡ w
unfolding shell_quote
shell_quote-plain [] h e = absurd (h refl)
shell_quote-plain (c ∷ cs) h e = rw e refl

quoted-append :
    (ws vs : List Bytes) → ArePlain ws → ws ++ map shell_quote vs ≡ map shell_quote (ws ++ vs)
quoted-append [] vs h = refl
quoted-append (w ∷ ws) vs h = rw (shell_quote-plain w h.0 h.1, quoted-append ws vs h.3) refl

NoHash-append : (ws vs : List Bytes) → ArePlain ws → NoHash vs → NoHash (ws ++ vs)
NoHash-append [] vs h k = k
NoHash-append (w ∷ ws) vs h k = (h.2, NoHash-append ws vs h.3 k)

read_line-join :
    (ws : List Bytes) → NoHash ws → ws ≢ [] → read_line (join_words (map shell_quote ws)) ≡ some ws
unfolding read_line
read_line-join [] h e = absurd (e refl)
read_line-join (w ∷ ws) h e = rw (starts-join w ws h.0) (read_words-join w ws h.1)

append-ne-nil : (ws vs : List Bytes) → vs ≢ [] → ws ++ vs ≢ []
append-ne-nil [] vs h = h
append-ne-nil (w ∷ ws) vs h = λ e. cc

join_lines-last :
    (ls : List Bytes) (l : Bytes) → join_lines (ls ++ l ∷ []) ≡ join_lines ls ++ (l ++ 10 ∷ [])
unfolding join_lines
join_lines-last [] l = refl
join_lines-last (k ∷ ls) l =
    ap (λ x. k ++ 10 ∷ x) (join_lines-last ls l)
    ∙ sym (append_assoc k (10 ∷ join_lines ls) (l ++ 10 ∷ []))

-- The words before the command are plain, and the command is not empty and none of its words starts
-- with `#`. The last line of the run script is `exec` with a text that a shell reads as exactly the
-- words for the environment directory, those for `chpst`, and the words of the command. The lines
-- before it are the redirection, the mask and the directory.
pub build_run_script_lem :
    (c : ServiceBuilderConfig)
    → ArePlain (run_prefix c)
    → NoHash c.cmd
    → c.cmd ≢ []
    → (t : Bytes) × (build_run_script c
        ≡ join_lines (codes "#!/bin/sh" ∷ stderr_line c ∷ (umask_line c ++ cwd_line c))
          ++ (codes "exec " ++ t ++ 10 ∷ []))
      × (read_line t ≡ some (run_prefix c ++ c.cmd))
unfolding build_run_script
build_run_script_lem c h k e = (
  join_words (run_prefix c ++ map shell_quote c.cmd),
  join_lines-last (codes "#!/bin/sh" ∷ stderr_line c ∷ (umask_line c ++ cwd_line c))
      (codes "exec " ++ join_words (run_prefix c ++ map shell_quote c.cmd)),
  rw (quoted-append (run_prefix c) c.cmd h) (
      read_line-join (run_prefix c ++ c.cmd) (NoHash-append (run_prefix c) c.cmd h k)
        (append-ne-nil (run_prefix c) c.cmd e)),
)
