-- ===== src/Client/Report.antt =====
-- The outcome of every method: when it returns nil, which error it returns where all its rounds fail,
-- and how long it waits between them.
use go_runit.Common.{ℕ, suc, ◌+◌, ◌≤◌, ◌<◌, ◌^◌, ◌≡◌, ◌↔◌, true, false, none, some, ap, ◌∙◌, arith}
use go_runit.Common.Int.{pos, pos_part}
use go_runit.Service.{is_operation_supported}
use go_runit.Client.{Client, Rounds, control_path, start_loop, send_loop}
use go_runit.Client.Methods.{Method, op_of, Family, call}
use go_runit.Client.Outcome.{
  works, Waits, GetsThrough, left_error, final_error, send_loop_ok_iff, send_loop_final,
}
use go_runit.Client.Backoff.{waits, delays, send_loop_schedule}
use go_runit.Client.Refuse.{config_of, call_supported}

-- The configuration of the client's system supports the operation of the method.
abbrev pub Supports : Family → Method → Type 0
Supports f m = is_operation_supported (config_of f) (op_of m) ≡ true

call_sends :
    (f : Family) (c : Client) (m : Method) (w : Rounds)
    → Supports f m
    → call f c m w
      ≡ send_loop c (op_of m) (control_path c) w (pos_part c.max_attempts) 0 (start_loop c)
call_sends f c m w h = rw (call_supported f c m w, h)

call_rounds :
    (f : Family) (c : Client) (m : Method) (w : Rounds) (n : ℕ)
    → Supports f m
    → c.max_attempts ≡ pos n
    → call f c m w ≡ send_loop c (op_of m) (control_path c) w n 0 (start_loop c)
call_rounds f c m w n h e =
    call_sends f c m w h
    ∙ ap (λ z. send_loop c (op_of m) (control_path c) w (pos_part z) 0 (start_loop c)) e

-- A method whose operation is supported returns nil exactly when the system takes the byte in one of
-- its rounds, with no wait before it cut short by the context.
pub call_ok_iff :
    (f : Family) (c : Client) (m : Method) (w : Rounds)
    → Supports f m
    → ((call f c m w).error ≡ none) ↔ GetsThrough w 0 (pos_part c.max_attempts)
call_ok_iff f c m w h =
    rw (call_sends f c m w h)
      (send_loop_ok_iff c (op_of m) (control_path c) w (pos_part c.max_attempts) 0 (start_loop c))

-- If all the `last + 1` rounds fail and no wait is cut short, the error that the method returns is
-- made by the last round alone: that of opening the control file, if it could be neither dialed nor
-- opened, and `ErrControlNotReady` if a write failed, whose own error is lost.
pub call_final :
    (f : Family) (c : Client) (m : Method) (w : Rounds) (last : ℕ)
    → Supports f m
    → c.max_attempts ≡ pos (suc last)
    → ((i : ℕ) → i ≤ last → (works (w i) ≡ false) × Waits w i)
    → (call f c m w).error ≡ some (final_error (op_of m) (control_path c) (left_error (w last)))
call_final f c m w last h e all =
    let same : 0 + last ≡ last = omega arith in
    rw (call_rounds f c m w (suc last) h e) (
      rw same at (
        send_loop_final c (op_of m) (control_path c) w last 0 (start_loop c)
          (λ i lo hi. all i (omega arith))))

-- The waits of a method between its rounds are the first ones of the schedule `BackoffMin`, then twice
-- as long each time, up to `BackoffMax`; at most one less than there are attempts. Both bounds are
-- below 2^62 nanoseconds, so that the doubling does not overflow.
pub call_schedule :
    (f : Family) (c : Client) (m : Method) (w : Rounds) (low high last : ℕ)
    → Supports f m
    → c.max_attempts ≡ pos (suc last)
    → c.backoff_min ≡ pos low
    → c.backoff_max ≡ pos high
    → low < 2 ^ 62
    → high < 2 ^ 62
    → (n : ℕ) × (n ≤ last) × (waits (call f c m w).log ≡ delays low high 0 n)
call_schedule f c m w low high last h e lo hi p q =
    rw (call_rounds f c m w (suc last) h e)
      (send_loop_schedule c low high lo hi p q (op_of m) (control_path c) w last)
