-- ===== src/Operation/Codes.antt =====
-- The bytes and the names of the operations tell them apart.
use text.Mathlib.Text.{◌==◌ as str_eq}
use go_runit.Common.{
  ℕ, String, ◌==◌, if◌then◌else◌, ◌≡◌, ◌≢◌, ◌⊎◌, inl, inr, refl, sym, ap, ◌∙◌, arith,
}
use go_runit.Operation.{
  Operation, op_unknown, op_up, op_once, op_down, op_term, op_interrupt, op_hup, op_alarm, op_quit,
  op_kill, op_pause, op_cont, op_usr1, op_usr2, op_exit, op_status, op_restart, index, op_string,
  op_byte,
}

-- What a supervisor makes of a byte read from the control file.
of_byte : ℕ → Operation
of_byte b =
    if b == b'u'
    then op_up
    else if b == b'o'
    then op_once
    else if b == b'd'
    then op_down
    else if b == b't'
    then op_term
    else if b == b'i'
    then op_interrupt
    else if b == b'h'
    then op_hup
    else if b == b'a'
    then op_alarm
    else if b == b'q'
    then op_quit
    else if b == b'k'
    then op_kill
    else if b == b'p'
    then op_pause
    else if b == b'c'
    then op_cont
    else if b == b'1'
    then op_usr1
    else if b == b'2'
    then op_usr2
    else if b == b'x'
    then op_exit
    else op_unknown

of_byte-op_byte : (op : Operation) → (of_byte (op_byte op) ≡ op) ⊎ (op_byte op ≡ 0)
unfolding of_byte op_byte
of_byte-op_byte op_status = inr refl
of_byte-op_byte op_restart = inr refl
of_byte-op_byte op_unknown = inr refl
of_byte-op_byte op_up = inl refl
of_byte-op_byte _ = inl refl

-- Two operations with the same control byte are one operation, unless that byte is the 0 of the
-- operations that have none.
pub op_byte-injective : (a b : Operation) → op_byte a ≡ op_byte b → op_byte a ≢ 0 → a ≡ b
op_byte-injective a b e h = ground (arith, of_byte-op_byte a, of_byte-op_byte b)

of_string : String → Operation
of_string s =
    if str_eq s "up"
    then op_up
    else if str_eq s "once"
    then op_once
    else if str_eq s "down"
    then op_down
    else if str_eq s "term"
    then op_term
    else if str_eq s "interrupt"
    then op_interrupt
    else if str_eq s "hup"
    then op_hup
    else if str_eq s "alarm"
    then op_alarm
    else if str_eq s "quit"
    then op_quit
    else if str_eq s "kill"
    then op_kill
    else if str_eq s "pause"
    then op_pause
    else if str_eq s "cont"
    then op_cont
    else if str_eq s "usr1"
    then op_usr1
    else if str_eq s "usr2"
    then op_usr2
    else if str_eq s "exit"
    then op_exit
    else if str_eq s "status"
    then op_status
    else if str_eq s "restart"
    then op_restart
    else op_unknown

of_string-op_string : (op : Operation) → of_string (op_string op) ≡ op
unfolding of_string op_string
of_string-op_string op_unknown = refl
of_string-op_string _ = refl

-- Two operations with the same name are one operation.
pub op_string-injective : (a b : Operation) → op_string a ≡ op_string b → a ≡ b
op_string-injective a b e = sym (of_string-op_string a) ∙ ap of_string e ∙ of_string-op_string b

of_index : ℕ → Operation
of_index n =
    if n == 1
    then op_up
    else if n == 2
    then op_once
    else if n == 3
    then op_down
    else if n == 4
    then op_term
    else if n == 5
    then op_interrupt
    else if n == 6
    then op_hup
    else if n == 7
    then op_alarm
    else if n == 8
    then op_quit
    else if n == 9
    then op_kill
    else if n == 10
    then op_pause
    else if n == 11
    then op_cont
    else if n == 12
    then op_usr1
    else if n == 13
    then op_usr2
    else if n == 14
    then op_exit
    else if n == 15
    then op_status
    else if n == 102
    then op_restart
    else op_unknown

of_index-index : (op : Operation) → of_index (index op) ≡ op
unfolding of_index
of_index-index op_unknown = refl
of_index-index _ = refl

pub index-injective : (a b : Operation) → index a ≡ index b → a ≡ b
index-injective a b e = sym (of_index-index a) ∙ ap of_index e ∙ of_index-index b
