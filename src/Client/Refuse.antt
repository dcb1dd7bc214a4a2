-- ===== src/Client/Refuse.antt =====
-- The methods of the clients against the sets of supported operations, and the guarantees of `send`
-- for every method.
use go_runit.Common.Int.{pos, pos_part}
use go_runit.Client.{
  waited, Client, Rounds, Sent, refused, control_path, start_loop, send_loop, send_runit,
  send_daemontools, send_s6,
}
use go_runit.Client.Methods.{
  after_down, Method, up, down, op_of, Family, runit_family, daemontools_family, s6_family, call,
  restart,
}
use go_runit.Common.{
  inl, inr, ◌⊎◌, ◌≢◌, ℕ, ◌≤◌, ◌≡◌, refl, none, [], ◌∷◌, arith, Bool-cases, if◌then◌else◌,
}
use go_runit.Operation.{Operation, op_byte}
use go_runit.Service.{
  ServiceType, ServiceConfig, is_operation_supported, config_runit, config_daemontools, config_s6,
}
use go_runit.Client.Deliver.{
  delivered, delivered-append, Delivers, send_loop_delivers, opens, closes, dials, send_loop_closes,
}

abbrev pub config_of : Family → ServiceConfig
config_of runit_family = config_runit
config_of daemontools_family = config_daemontools
config_of s6_family = config_s6

abbrev pub type_of : Family → ServiceType
type_of runit_family = ServiceType.runit
type_of daemontools_family = ServiceType.daemontools
type_of s6_family = ServiceType.s6

-- A method sends its operation if the configuration of its system supports it, and is refused, with
-- no event at all, if not.
pub call_supported :
    (f : Family) (c : Client) (m : Method) (w : Rounds)
    → call f c m w ≡ (
        if is_operation_supported (config_of f) (op_of m)
        then send_loop c (op_of m) (control_path c) w (pos_part c.max_attempts) 0 (start_loop c)
        else refused c (op_of m) (type_of f))
unfolding call send_runit send_daemontools send_s6 is_operation_supported config_runit
    config_daemontools config_s6
call_supported runit_family c up w = refl
call_supported runit_family c _ w = refl
call_supported daemontools_family c up w = refl
call_supported daemontools_family c _ w = refl
call_supported s6_family c up w = refl
call_supported s6_family c _ w = refl

-- What holds of a call, whatever the system answers: a byte is delivered once if the call returns nil
-- and never if it returns an error; every handle that it opens it closes; it dials at most once for
-- each attempt.
pub record IsSafeCall (b attempts : ℕ) (r : Sent) : Type 0 where
  pub delivers : Delivers b r.error (delivered r.log)
  pub closed : opens r.log ≡ closes r.log
  pub dials_le : dials r.log ≤ attempts

send-IsSafeCall :
    (c : Client) (op : Operation) (w : Rounds)
    → IsSafeCall
        (op_byte op)
        (pos_part c.max_attempts)
        (send_loop c op (control_path c) w (pos_part c.max_attempts) 0 (start_loop c))
send-IsSafeCall c op w =
    let k =
      send_loop_closes c op (control_path c) w (pos_part c.max_attempts) 0 (start_loop c) refl
        refl in
    record {
      delivers =
          send_loop_delivers c op (control_path c) w (pos_part c.max_attempts) 0 (start_loop c)
            refl;
      closed = omega (arith, k);
      dials_le = k.1;
    }

-- Every method of every client: the byte of its operation reaches the supervisor exactly once if the
-- method returns nil, and not at all if it returns an error; handles that are opened are closed; no
-- more connections are dialed than there are attempts.
pub call-IsSafeCall :
    (f : Family) (c : Client) (m : Method) (w : Rounds)
    → IsSafeCall (op_byte (op_of m)) (pos_part c.max_attempts) (call f c m w)
call-IsSafeCall f c m w =
    rw (call_supported f c m w)
      (elim (Bool-cases (is_operation_supported (config_of f) (op_of m))) [
        | inl e ↦ rw e (send-IsSafeCall c (op_of m) w)
        | inr e ↦ rw e (record { delivers = refl; closed = refl; dials_le = omega arith })
      ])

-- The bytes of a restart.
abbrev pub Restarts : Sent → Type 0
Restarts r =
    (r.error ≡ none → delivered r.log ≡ b'd' ∷ b'u' ∷ [])
    × (r.error ≢ none → (delivered r.log ≡ []) ⊎ (delivered r.log ≡ b'd' ∷ []))

after_down_lem :
    (d u : Sent)
    → Delivers b'd' d.error (delivered d.log)
    → Delivers b'u' u.error (delivered u.log)
    → Restarts (after_down d u)
unfolding after_down
after_down_lem d u h k = ground (arith, delivered-append d.log (waited (pos 100000000) ∷ u.log))

-- `Restart` delivers the byte of `Down` and then that of `Up` if it returns nil. If it returns an error
-- it has delivered nothing, or the byte of `Down` alone.
pub restart_delivers : (f : Family) (c : Client) (w w' : Rounds) → Restarts (restart f c w w')
unfolding restart op_byte
restart_delivers f c w w' =
    after_down_lem _ _ (call-IsSafeCall f c down w).delivers (call-IsSafeCall f c up w').delivers
