-- ===== src/Client/Make.antt =====
-- `NewClientRunit`, `NewClientDaemontools`, `NewClientS6` and `NewClient` of factory.go.
use go_runit.Defaults.{
  supervise_name, default_dial_timeout, default_write_timeout, default_read_timeout,
  default_backoff_min, default_backoff_max, default_max_attempts, default_watch_debounce,
}
use go_runit.Common.{
  ℕ, ◌≤◌, ◌≡◌, ◌⊎◌, inl, inr, refl, String, Bool, false, Bool-cases, if◌then◌else◌, arith,
}
use go_runit.Operation.{op_unknown}
use go_runit.Service.{ServiceType}
use go_runit.Errors.{
  FilePath, join, Error, op_error, sentinel, not_supervised, resolving, unsupported_type, Result,
  ok, err, panic,
}
use go_runit.Client.{Client, Rounds}
use go_runit.Client.Methods.{Method, Family, runit_family, daemontools_family, s6_family, call}
use go_runit.Client.Refuse.{type_of}
use go_runit.Client.Backoff.{waits, delays}
use go_runit.Client.Report.{Supports, call_schedule}

-- What the system says of a service directory: `filepath.Abs`, `filepath.Base`, and whether `os.Stat`
-- of a path gives an error for which `os.IsNotExist` holds.
pub record Directory : Type 0 where
  pub abs : Error ⊎ FilePath
  pub base : String
  pub is_not_exist : FilePath → Bool

-- The defaults of runit.go, in nanoseconds.
abbrev pub default_client : FilePath → Client
default_client abs_path = record {
  service_dir = abs_path;
  dial_timeout = default_dial_timeout;
  write_timeout = default_write_timeout;
  read_timeout = default_read_timeout;
  backoff_min = default_backoff_min;
  backoff_max = default_backoff_max;
  max_attempts = default_max_attempts;
  watch_debounce = default_watch_debounce;
}

-- The check of the directory `supervise`.
unfoldable pub checked_client : Directory → Client → Result Client
checked_client d c =
    if d.is_not_exist (join c.service_dir supervise_name)
    then err (op_error op_unknown (join c.service_dir supervise_name) (sentinel not_supervised))
    else ok c

unfoldable pub new_client_runit : Directory → Result Client
new_client_runit d = elim d.abs [
  | inl e ↦ err (resolving e)
  | inr abs_path ↦ checked_client d (default_client abs_path)
]

unfoldable pub new_client_daemontools : Directory → Result Client
new_client_daemontools d = elim d.abs [
  | inl e ↦ err (resolving e)
  | inr abs_path ↦ checked_client d (default_client abs_path)
]

unfoldable pub new_client_s6 : Directory → Result Client
new_client_s6 d = elim d.abs [
  | inl e ↦ err (resolving e)
  | inr abs_path ↦ checked_client d (default_client abs_path)
]

-- A `ServiceClient`: one of the three, or the one of systemd, with the name of its service.
pub data ServiceClient : Type 0 where
  supervised : Family → Client → ServiceClient
  systemd_client : String → ServiceClient

abbrev as_client : Family → Result Client → Result ServiceClient
as_client f (ok c) = ok (supervised f c)
as_client f (err e) = err e
as_client f panic = panic

unfoldable pub new_client : Directory → ServiceType → Result ServiceClient
new_client d ServiceType.runit = as_client runit_family (new_client_runit d)
new_client d ServiceType.daemontools = as_client daemontools_family (new_client_daemontools d)
new_client d ServiceType.s6 = as_client s6_family (new_client_s6 d)
new_client d ServiceType.systemd = ok (systemd_client d.base)
new_client d ServiceType.unknown = err (unsupported_type ServiceType.unknown)

-- A client is for the type asked for, `os.Stat` of its `supervise` gave no error of the kind `IsNotExist`,
-- which may still be another error, and each of its methods waits for the first of: 10 ms, then twice as
-- long each time up to 1 s; nine times at most.
pub record IsReady (d : Directory) (t : ServiceType) (f : Family) (c : Client) : Type 0 where
  pub type_eq : type_of f ≡ t
  pub not_missing : d.is_not_exist (join c.service_dir supervise_name) ≡ false
  pub schedule :
      (m : Method) (w : Rounds)
      → Supports f m
      → (n : ℕ) × (n ≤ 9) × (waits (call f c m w).log ≡ delays 10000000 1000000000 0 n)

checked_client-IsReady :
    (d : Directory) (f : Family) (p : FilePath) (c : Client)
    → checked_client d (default_client p) ≡ ok c
    → IsReady d (type_of f) f c
unfolding checked_client
checked_client-IsReady d f p c h = elim (Bool-cases (d.is_not_exist (join p supervise_name))) [
  | inl e ↦ absurd (ground (arith, e))
  | inr e ↦
      let q : default_client p ≡ c = cc in
      rw (← q) (record {
        type_eq = refl;
        not_missing = e;
        schedule = λ m w s.
            call_schedule f (default_client p) m w 10000000 1000000000 9 s refl refl refl
              (omega arith) (omega arith);
      })
]

as_client-ok :
    (f g : Family) (r : Result Client) (c : Client)
    → as_client f r ≡ ok (supervised g c)
    → (f ≡ g) × (r ≡ ok c)
as_client-ok f g (ok x) c h = (cc, cc)
as_client-ok f g (err e) c h = absurd cc
as_client-ok f g panic c h = absurd cc

abs-cases : (x : Error ⊎ FilePath) → ((e : Error) × (x ≡ inl e)) ⊎ ((p : FilePath) × (x ≡ inr p))
abs-cases (inl e) = inl (e, refl)
abs-cases (inr p) = inr (p, refl)

-- The body that the three constructors share.
new_client_in : Directory → Result Client
new_client_in d = elim d.abs [
  | inl e ↦ err (resolving e)
  | inr abs_path ↦ checked_client d (default_client abs_path)
]

new_client_in-IsReady :
    (d : Directory) (f g : Family) (c : Client)
    → as_client f (new_client_in d) ≡ ok (supervised g c)
    → IsReady d (type_of f) g c
unfolding new_client_in checked_client
new_client_in-IsReady d f g c h =
    let r = as_client-ok f g (new_client_in d) c h in
    elim (abs-cases d.abs) [
      | inl (e, q) ↦ absurd (ground (arith, r.1, q))
      | inr (p, q) ↦ rw (← r.0) (checked_client-IsReady d f p c (rw q at r.1))
    ]

-- A client that `NewClient` returns for runit, daemontools or s6 is one for the type asked for, and its
-- `supervise` is not reported as missing: `os.Stat` of it gave no error for which `os.IsNotExist` holds,
-- though it may have given another one. The client waits between the attempts of any supported method by
-- a fixed schedule: 10 ms, then twice as long each time up to 1 s, at most nine times.
pub new_client-IsReady :
    (d : Directory) (t : ServiceType) (f : Family) (c : Client)
    → new_client d t ≡ ok (supervised f c)
    → IsReady d t f c
unfolding new_client new_client_runit new_client_daemontools new_client_s6 new_client_in
new_client-IsReady d ServiceType.runit f c h = new_client_in-IsReady d runit_family f c h
new_client-IsReady d ServiceType.daemontools f c h =
    new_client_in-IsReady d daemontools_family f c h
new_client-IsReady d ServiceType.s6 f c h = new_client_in-IsReady d s6_family f c h
new_client-IsReady d ServiceType.systemd f c h = absurd cc
new_client-IsReady d ServiceType.unknown f c h = absurd cc
