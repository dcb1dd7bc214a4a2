-- ===== src/Parser/Choice.antt =====
-- `GetStateParser`: the parser that it returns fits the file.
use go_runit.Common.{ℕ, ◌≡◌, inl, inr, length, arith, ◌==◌, true, Bool-cases, ==_iff}
use go_runit.Service.{ServiceType}
use go_runit.Errors.{ok}
use go_runit.Wire.{Bytes}
use go_runit.Status.{Status}
use go_runit.Parser.{
  StateParser, get_state_parser, runit_state_parser, daemontools_state_parser,
  s6_state_parser_pre220, s6_state_parser_current,
}
use go_runit.Parser.Total.{
  parse_runit-ok, parse_daemontools-ok, parse_s6_pre220-ok, parse_s6_current-ok,
}

-- A parser reads every file of a size that it accepts.
abbrev pub Reads : StateParser → Type 0
Reads p =
    (now : ℕ) (d : Bytes)
    → p.validate_size (length d) ≡ true
    → (s : Status) × (p.parse now d ≡ ok s)

runit-Reads : Reads runit_state_parser
runit-Reads now d h = (_, parse_runit-ok now d ((==_iff _ _).0 h))

daemontools-Reads : Reads daemontools_state_parser
daemontools-Reads now d h = (_, parse_daemontools-ok now d ((==_iff _ _).0 h))

s6_pre220-Reads : Reads s6_state_parser_pre220
s6_pre220-Reads now d h = (_, parse_s6_pre220-ok now d ((==_iff _ _).0 h))

s6_current-Reads : Reads s6_state_parser_current
s6_current-Reads now d h = (_, parse_s6_current-ok now d ((==_iff _ _).0 h))

abbrev pub Fits : StateParser → ℕ → Type 0
Fits p size =
    (p.validate_size size ≡ true)
    × ((now : ℕ) (d : Bytes) → length d ≡ size → (s : Status) × (p.parse now d ≡ ok s))

Reads-Fits : (q : StateParser) (size : ℕ) → Reads q → q.validate_size size ≡ true → Fits q size
Reads-Fits q size r v = (v, λ now d e. r now d (rw e v))

chosen :
    {p : StateParser} (q : StateParser) {size : ℕ}
    → Reads q
    → q.validate_size size ≡ true
    → ok q ≡ ok p
    → Fits p size
chosen {p} q {size} r v h = let e : q ≡ p = cc in rw (← e) (Reads-Fits q size r v)

-- The parser that `GetStateParser` returns for a type and a size accepts that size, and parses every
-- file of that size without an error.
pub get_state_parser-Fits :
    (t : ServiceType) (size : ℕ) (p : StateParser) → get_state_parser t size ≡ ok p → Fits p size
unfolding get_state_parser
get_state_parser-Fits ServiceType.runit size p h = elim (Bool-cases (size == 20)) [
  | inl e ↦ chosen runit_state_parser runit-Reads e (rw e at h)
  | inr e ↦ absurd (ground arith)
]
get_state_parser-Fits ServiceType.daemontools size p h = elim (Bool-cases (size == 18)) [
  | inl e ↦ chosen daemontools_state_parser daemontools-Reads e (rw e at h)
  | inr e ↦ absurd (ground arith)
]
get_state_parser-Fits ServiceType.s6 size p h = elim (Bool-cases (size == 35)) [
  | inl e ↦ chosen s6_state_parser_pre220 s6_pre220-Reads e (rw e at h)
  | inr e ↦ elim (Bool-cases (size == 43)) [
    | inl f ↦ chosen s6_state_parser_current s6_current-Reads f (rw (e, f) at h)
    | inr f ↦ absurd (ground arith)
  ]
]
get_state_parser-Fits ServiceType.unknown size p h = cc
get_state_parser-Fits ServiceType.systemd size p h = cc
