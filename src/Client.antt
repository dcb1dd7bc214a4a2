-- ===== src/Client.antt =====
-- client_runit.go, client_daemontools.go, client_s6.go: control of one service through its control
-- file. What the system answers is an argument, a `Round` for each round of the loop in `send`; what
-- the code does to it is a log of events. The mutex, held for the whole of `send`, makes the calls of
-- one client follow one another.
pub mod Methods
pub mod Outcome
pub mod Deliver
pub mod Backoff
pub mod Refuse
pub mod Read
pub mod Report
pub mod Make
use go_runit.Defaults.{supervise_name, control_name}
use go_runit.Common.{
  ℕ, zero, suc, ◌+◌, Bool, true, false, not, Option, none, some, List, [], ◌∷◌, ◌++◌, ◌==◌,
  if◌then◌else◌,
}
use go_runit.Common.Int.{ℤ, pos, ltb_ℤ, pos_part, double64}
use go_runit.Operation.{Operation, op_byte}
use go_runit.Service.{
  ServiceType, ServiceConfig, is_operation_supported, config_daemontools, config_s6,
}
use go_runit.Errors.{FilePath, join, Error, op_error, sentinel, unsupported_op, control_not_ready}

-- The fields of `ClientRunit`, `ClientDaemontools` and `ClientS6`. Durations are nanoseconds.
pub record Client : Type 0 where
  pub service_dir : FilePath
  pub dial_timeout : ℤ
  pub write_timeout : ℤ
  pub read_timeout : ℤ
  pub backoff_min : ℤ
  pub backoff_max : ℤ
  pub max_attempts : ℤ
  pub watch_debounce : ℤ

-- What the system answers in one round; `none` is a nil error. `cancelled` is `ctx.Err()` if the
-- `select` before the round takes `ctx.Done()`.
pub record Round : Type 0 where
  pub cancelled : Option Error
  pub dial : Option Error
  pub conn_write : Option Error
  pub open_file : Option Error
  pub file_write : Option Error

abbrev pub Rounds : Type 0
Rounds = ℕ → Round

-- What `send` does to the system.
pub data Event : Type 0 where
  waited : ℤ → Event
  dialed : FilePath → Option Error → Event
  set_deadline : ℤ → Event
  wrote_conn : ℕ → Option Error → Event
  opened : FilePath → Option Error → Event
  wrote_file : ℕ → Option Error → Event
  closed_conn closed_file : Event

-- The variables of the loop, and the deferred calls, the last one first.
pub record Loop : Type 0 where
  pub backoff : ℤ
  pub last_err : Option Error
  pub deferred : List Event

-- A call of `send`: the error that it returns and the events, in order.
pub record Sent : Type 0 where
  pub error : Option Error
  pub log : List Event

-- The end of a round: `return`, or `continue` and the end of the body.
pub data Next : Type 0 where
  returns : Option Error → List Event → List Event → Next
  continues : List Event → Loop → Next

-- The part of a round that falls back to opening the control file. In both writes of a round the
-- variable `err` of the `if` hides the one that `lastErr = err` reads, which is nil there.
unfoldable pub try_file : FilePath → ℕ → Round → Loop → List Event → Next
try_file path cmd r s log = elim r.open_file [
  | none ↦ elim r.file_write [
    | none ↦
        returns none (log ++ opened path none ∷ wrote_file cmd none ∷ []) (closed_file ∷ s.deferred)
    | some e ↦
        continues (log ++ opened path none ∷ wrote_file cmd (some e) ∷ [])
          (record s { last_err = none; deferred = closed_file ∷ s.deferred })
  ]
  | some e ↦ continues (log ++ opened path (some e) ∷ []) (record s { last_err = some e })
]

abbrev deadline_set : Client → List Event
deadline_set c = if ltb_ℤ (pos 0) c.write_timeout then set_deadline c.write_timeout ∷ [] else []

-- The part of a round behind the wait.
unfoldable pub try_conn : Client → FilePath → ℕ → Round → Loop → List Event → Next
unfolding try_file
try_conn c path cmd r s log = elim r.dial [
  | none ↦ elim r.conn_write [
    | none ↦
        returns none (log ++ dialed path none ∷ deadline_set c ++ wrote_conn cmd none ∷ [])
          (closed_conn ∷ s.deferred)
    | some e ↦
        continues (log ++ dialed path none ∷ deadline_set c ++ wrote_conn cmd (some e) ∷ [])
          (record s { last_err = none; deferred = closed_conn ∷ s.deferred })
  ]
  | some e ↦ try_file path cmd r s (log ++ dialed path (some e) ∷ [])
]

-- `backoff *= 2`, then the cap.
unfoldable pub next_backoff : Client → ℤ → ℤ
next_backoff c b = let d = double64 b in if ltb_ℤ c.backoff_max d then c.backoff_max else d

-- One round of the loop.
unfoldable pub round : Client → FilePath → ℕ → ℕ → Round → Loop → Next
unfolding try_conn
round c path cmd attempt r s =
    if attempt == 0 then try_conn c path cmd r s [] else (elim r.cancelled [
      | some e ↦ returns (some e) [] s.deferred
      | none ↦
          try_conn c path cmd r (record s { backoff = next_backoff c s.backoff })
            (waited s.backoff ∷ [])
    ])

-- The return behind the loop.
unfoldable pub give_up : Operation → FilePath → Loop → Sent
give_up op path s = record {
  error = elim s.last_err [
    | some e ↦ some (op_error op path e)
    | none ↦ some (op_error op path (sentinel control_not_ready))
  ];
  log = s.deferred;
}

abbrev pub logging : List Event → Sent → Sent
logging events r = record r { log = events ++ r.log }

-- A round is followed by the deferred calls if it returns, and by the rest of the loop if not.
abbrev pub settle : Next → (Loop → Sent) → Sent
settle (returns e events deferred) rest = record { error = e; log = events ++ deferred }
settle (continues events s) rest = logging events (rest s)

-- The loop, with the rounds that are left and the number of the next one.
unfoldable pub send_loop : Client → Operation → FilePath → Rounds → ℕ → ℕ → Loop → Sent
send_loop c op path w zero attempt s = give_up op path s
send_loop c op path w (suc left) attempt s =
    settle (round c path (op_byte op) attempt (w attempt) s)
      (λ s'. send_loop c op path w left (suc attempt) s')

abbrev pub control_path : Client → FilePath
control_path c = join (join c.service_dir supervise_name) control_name

abbrev pub start_loop : Client → Loop
start_loop c = record { backoff = c.backoff_min; last_err = none; deferred = [] }

-- `ClientRunit.send`: runit supports all operations.
unfoldable pub send_runit : Client → Operation → Rounds → Sent
send_runit c op w = send_loop c op (control_path c) w (pos_part c.max_attempts) 0 (start_loop c)

-- The refusal of an operation, with no event at all.
abbrev pub refused : Client → Operation → ServiceType → Sent
refused c op t = record { error = some (op_error op c.service_dir (unsupported_op t op)); log = [] }

-- `ClientDaemontools.send`.
unfoldable pub send_daemontools : Client → Operation → Rounds → Sent
send_daemontools c op w =
    if not (is_operation_supported config_daemontools op)
    then refused c op ServiceType.daemontools
    else send_loop c op (control_path c) w (pos_part c.max_attempts) 0 (start_loop c)

-- `ClientS6.send`.
unfoldable pub send_s6 : Client → Operation → Rounds → Sent
send_s6 c op w =
    if not (is_operation_supported config_s6 op)
    then refused c op ServiceType.s6
    else send_loop c op (control_path c) w (pos_part c.max_attempts) 0 (start_loop c)
