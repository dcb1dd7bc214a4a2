-- ===== src/Helpers.antt =====
-- test_helpers_common.go: the helpers of the tests that wait for a service and that look for tools.
pub mod Waits
pub mod Tools
use go_runit.Common.Text.{equal}
use go_runit.Wire.{Bytes}
use go_runit.Common.{
  String, not, ℕ, Bool, true, false, ◌||◌, Option, none, some, List, [], ◌∷◌, ◌⊎◌, inl, inr, ◌==◌,
  if◌then◌else◌,
}
use go_runit.Service.{ServiceType}
use go_runit.Errors.{Error}
use go_runit.Status.{State, state_running, Status}
use go_runit.Status.Format.{
  runit_status_size, daemontools_status_size, s6_status_size_pre220, s6_status_size_current,
}
use go_runit.Wait.{state_eq}

-- A result of `client.Status`.
abbrev pub Seen : Type 0
Seen = Error ⊎ Status

-- `err == nil && status.State == expectedState`
abbrev pub is_in : State → Seen → Bool
is_in expected (inl e) = false
is_in expected (inr s) = state_eq s.state expected

-- The loop up to the deadline, over what its passes see: whether it returns nil.
unfoldable pub polls : State → List Seen → Bool
polls expected [] = false
polls expected (x ∷ xs) = if is_in expected x then true else polls expected xs

-- The errors behind the deadline.
pub data LateError : Type 0 where
  status_failed : Error → LateError
  still_in : State → LateError

-- Behind the loop: one more status, which is compared with `StateRunning` whatever the state waited for.
unfoldable pub last_look : Seen → Option LateError
last_look (inl e) = some (status_failed e)
last_look (inr s) = if state_eq s.state state_running then none else some (still_in s.state)

unfoldable pub wait_for_running : List Seen → Seen → Option LateError
unfolding polls last_look
wait_for_running seen last = if polls state_running seen then none else last_look last

unfoldable pub wait_for_state : State → List Seen → Seen → Option LateError
unfolding polls last_look
wait_for_state expected seen last = if polls expected seen then none else last_look last

-- The size that `WaitForStatusFile` waits for, and names in its error.
abbrev pub expected_size : ServiceType → ℕ
expected_size ServiceType.runit = runit_status_size
expected_size ServiceType.daemontools = daemontools_status_size
expected_size ServiceType.s6 = s6_status_size_current
expected_size _ = 20

abbrev pub fits : ServiceType → ℕ → Bool
fits ServiceType.s6 n = n == s6_status_size_pre220 || n == s6_status_size_current
fits t n = n == expected_size t

pub data FileError : Type 0 where
  wrong_size : ℕ → ℕ → FileError
  not_created : FileError

-- The loop of `WaitForStatusFile`, over the sizes that its passes see, `none` where there is no file.
unfoldable pub polls_size : ServiceType → List (Option ℕ) → Bool
polls_size t [] = false
polls_size t (none ∷ xs) = polls_size t xs
polls_size t (some n ∷ xs) = if fits t n then true else polls_size t xs

abbrev pub last_size : ServiceType → Option ℕ → FileError
last_size t none = not_created
last_size t (some n) = wrong_size n (expected_size t)

unfoldable pub wait_for_status_file : ServiceType → List (Option ℕ) → Option ℕ → Option FileError
unfolding polls_size
wait_for_status_file t sizes last = if polls_size t sizes then none else some (last_size t last)

-- The cache of `checkToolCached`, the last entry first, and what `exec.LookPath` answers at the moment.
abbrev pub ToolCache : Type 0
ToolCache = List (Bytes × Bool)

unfoldable pub lookup : ToolCache → Bytes → Option Bool
lookup [] name = none
lookup ((n, b) ∷ rest) name = if equal n name then some b else lookup rest name

-- A call: its answer, the cache behind it, and whether it looked in the path.
pub record Checked : Type 0 where
  pub available : Bool
  pub cache : ToolCache
  pub looked : Bool

abbrev pub checked_with : Option Bool → Bool → Bytes → ToolCache → Checked
checked_with (some b) on_path name cache = record { available = b; cache = cache; looked = false }
checked_with none on_path name cache = record {
  available = on_path;
  cache = (name, on_path) ∷ cache;
  looked = true;
}

unfoldable pub check_tool_cached : Bool → Bytes → ToolCache → Checked
check_tool_cached on_path name cache = checked_with (lookup cache name) on_path name cache

-- A sequence of calls; the mutex makes any calls of the tests one. Each has what the path holds then.
unfoldable pub check_each : List (Bytes × Bool) → ToolCache → List Checked
check_each [] cache = []
check_each ((name, on_path) ∷ calls) cache =
    let c = check_tool_cached on_path name cache in c ∷ check_each calls c.cache

-- `CheckAnyToolAvailable` and `CheckAllToolsAvailable`, which stop at the first answer that decides.
unfoldable pub check_any_tool_available : (Bytes → Bool) → List Bytes → ToolCache → Bool × ToolCache
unfolding check_tool_cached
check_any_tool_available on_path [] cache = (false, cache)
check_any_tool_available on_path (tool ∷ tools) cache =
    let c = check_tool_cached (on_path tool) tool cache in
    let rest = check_any_tool_available on_path tools c.cache in
    if c.available then (true, c.cache) else rest

unfoldable pub check_all_tools_available :
    (Bytes → Bool) → List Bytes → ToolCache → Bool × ToolCache
unfolding check_tool_cached
check_all_tools_available on_path [] cache = (true, cache)
check_all_tools_available on_path (tool ∷ tools) cache =
    let c = check_tool_cached (on_path tool) tool cache in
    let rest = check_all_tools_available on_path tools c.cache in
    if not c.available then (false, c.cache) else rest
